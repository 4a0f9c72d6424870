-- ===== src/Driver/Lifetime.antt =====
-- Loading and unloading the kernel module: `aesd_init` and `aesd_exit` of aesd-char-driver/main.c,
-- and `aesd_setup_cdev` of aesd-char-driver/char-driver/src/aesd-char-device.c. What the kernel
-- answers to `alloc_chrdev_region` and `cdev_add` (0, or an error number) is an argument.
pub mod Balance
use embedded_linux.Common.{ℕ, Bool, true, false, not, Option, none, some, ◌==◌, if◌then◌else◌}
use embedded_linux.Circular.{Buffer, init}
use embedded_linux.Memory.{Heap}
use embedded_linux.Driver.{Dev, Sys}
use embedded_linux.Driver.Cleanup.{cleanup_device}

-- What the module holds of the kernel's: its device numbers, its character device, its mutex.
pub record Loaded : Type 0 where
  pub chrdev : Bool
  pub cdev : Bool
  pub mutex : Bool
  pub sys : Sys

-- 0, or the negative number of an error.
pub data Status : Type 0 where
  success : Status
  failure : ℕ → Status

-- `aesd_setup_cdev(dev)` for a device that is not NULL: `cdev_add` is its last step.
unfoldable pub setup_cdev : Loaded → Status → Loaded × Status
setup_cdev m success = (record m { cdev = true }, success)
setup_cdev m (failure e) = (m, failure e)

-- `memset(&aesd_device, 0, ..)`, then `aesd_circular_buffer_init(&aesd_device.buffer)`, whose
-- argument is not NULL. The memory that the device pointed to before is not touched.
unfoldable pub fresh_device : Sys → Sys
unfolding init
fresh_device s = elim (init (some s.dev.buffer)) [
  | none ↦ s
  | some b ↦ record s {
    dev = record { buffer = b; locked = false; write_buf = none; write_buf_size = 0 };
  }
]

-- `aesd_init`, after the device numbers were given out.
unfoldable pub init_device : Loaded → Status → Loaded × Status
unfolding setup_cdev fresh_device
init_device m add =
    let (m', result) = setup_cdev (record m { mutex = true; sys = fresh_device m.sys }) add in
    elim result [
      | success ↦ (m', success)
      | failure e ↦ (record m' { chrdev = false; mutex = false }, failure e)
    ]

-- `aesd_init()`.
unfoldable pub load : Loaded → Status → Status → Loaded × Status
unfolding init_device
load m (failure e) add = (m, failure e)
load m success add = init_device (record m { chrdev = true }) add

-- `aesd_exit()`.
unfoldable pub unload : Loaded → Loaded
unload m = record { chrdev = false; cdev = false; mutex = false; sys = cleanup_device m.sys }
