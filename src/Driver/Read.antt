-- ===== src/Driver/Read.antt =====
-- `aesd_read` (aesd-char-driver/char-driver/src/aesd-char-fileops.c).
pub mod Stream
pub mod Refine
use embedded_linux.Common.{
  ℕ, ◌+◌, ◌-◌, ◌%◌, Bool, true, false, not, ◌||◌, Option, none, some, List, [], ◌==◌, if◌then◌else◌,
  min, take, is_some,
}
use embedded_linux.Circular.{Entry, slot, size_mod, find_entry}
use embedded_linux.Memory.{Heap, in_block, checked, peek}
use embedded_linux.Driver.{
  Ret, done, error, einval, efault, erestartsys, Sys, File, lock, unlock, on_heap,
}

-- What a call of `read` leaves: the state, its return value, `*f_pos` (if there is one), and the
-- bytes that reached the user's buffer.
pub record ReadOut : Type 0 where
  pub sys : Sys
  pub ret : Ret
  pub pos : Option ℕ
  pub out : List ℕ

-- The `n` bytes at `buffptr + off`, and whether they lie in a live block.
unfoldable pub load : Heap → Option ℕ → ℕ → ℕ → List ℕ × Bool
load h none off n = ([], n == 0)
load h (some p) off n = (peek h p off n, in_block h p off n)

-- The part of `aesd_read` after the entry and the offset in it were found.
unfoldable pub copy_out : Sys → Entry → ℕ → ℕ → ℕ → ℕ → ReadOut
copy_out s e off count pos uncopied =
    let n = min count ((e.size + size_mod - off) % size_mod) in
    let (bytes, inside) = load s.heap e.buffptr off n in
    let t = unlock (on_heap (checked inside) s) in
    if uncopied == 0
    then record { sys = t; ret = done n; pos = some ((pos + n) % size_mod); out = bytes }
    else record { sys = t; ret = error efault; pos = some pos; out = take (n - uncopied) bytes }

-- `aesd_read` under the mutex.
unfoldable pub read_locked : Sys → ℕ → ℕ → ℕ → ReadOut
read_locked s count pos uncopied = elim (find_entry (some s.dev.buffer) pos true) [
  | none ↦ record { sys = unlock s; ret = done 0; pos = some pos; out = [] }
  | some (idx, off) ↦ copy_out s (slot s.dev.buffer idx) off count pos uncopied
]

-- `aesd_read(filp, buf, count, f_pos)`: whether `buf` is a pointer other than NULL, and what
-- `f_pos` points to.
unfoldable pub read : Sys → File → Bool → ℕ → Option ℕ → Bool → ℕ → ReadOut
read s f buf count none interrupted uncopied = record {
  sys = s;
  ret = error einval;
  pos = none;
  out = [];
}
read s f buf count (some pos) interrupted uncopied =
    if not f.private_data || not buf
    then record { sys = s; ret = error einval; pos = some pos; out = [] }
    else if interrupted
    then record { sys = s; ret = error erestartsys; pos = some pos; out = [] }
    else read_locked (lock s) count pos uncopied
