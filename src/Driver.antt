-- ===== src/Driver.antt =====
-- The character driver of aesd-char-driver/char-driver: its state (include/aesdchar.h) and return
-- values. The children model the functions of src/: Driver.Buffering those of aesd-char-buffer.c,
-- Driver.Write, Driver.Read and Driver.Seek the operations of aesd-char-fileops.c, and
-- Driver.Cleanup that of aesd-char-device.c. An operation takes the state of the machine (memory
-- and the one device `aesd_device`) and returns the new one. What the kernel decides during a call
-- (whether the wait for the mutex is interrupted, how many bytes a copy from or to user space
-- leaves uncopied) is an argument.
pub mod Ownership
pub mod Buffering
pub mod Write
pub mod Log
pub mod Read
pub mod Seek
pub mod Cleanup
pub mod Lifetime
pub mod Idle
pub mod Tests
use embedded_linux.Common.{ℕ, Bool, true, false, Option, ◌≡◌, refl}
use embedded_linux.Circular.{Buffer}
use embedded_linux.Memory.{Heap}

pub data Errno : Type 0 where
  einval enomem efault erestartsys enotty : Errno

-- A return value: a count, a position or 0, or a negative error code.
pub data Ret : Type 0 where
  done : ℕ → Ret
  error : Errno → Ret

-- `struct aesd_dev`; `locked` is the state of its mutex, `cdev` is the kernel's.
pub record Dev : Type 0 where
  pub buffer : Buffer
  pub locked : Bool
  pub write_buf : Option ℕ
  pub write_buf_size : ℕ

pub record Sys : Type 0 where
  pub heap : Heap
  pub dev : Dev

-- The fields of `struct file` that the driver uses: whether `private_data` is the device or NULL,
-- and `f_pos`, a `loff_t`, as the bit pattern of a signed 64-bit number.
pub record File : Type 0 where
  pub private_data : Bool
  pub f_pos : ℕ

abbrev pub lock : Sys → Sys
lock s = record s { dev = record (s.dev) { locked = true } }

abbrev pub unlock : Sys → Sys
unlock s = record s { dev = record (s.dev) { locked = false } }

-- A write to memory that leaves the device alone.
abbrev pub on_heap : (Heap → Heap) → Sys → Sys
on_heap f s = record s { heap = f s.heap }

-- A property of every branch on a return value.
pub Ret-both {ℓ κ} :
    {A : Type ℓ} (P : A → Type κ) (r : Ret) {g : Errno → A} {h : ℕ → A}
    → ((e : Errno) → r ≡ error e → P (g e))
    → ((n : ℕ) → r ≡ done n → P (h n))
    → P (elim r [ error e ↦ g e | done n ↦ h n ])
Ret-both P (error e) f k = f e refl
Ret-both P (done n) f k = k n refl
