-- ===== src/Driver/Write.antt =====
-- `aesd_write` (aesd-char-driver/char-driver/src/aesd-char-fileops.c).
pub mod Commit
pub mod Refine
pub mod Progress
use embedded_linux.Common.{
  ℕ, ◌-◌, Bool, true, false, not, ◌||◌, Option, none, some, List, [], ◌∷◌, ◌==◌, if◌then◌else◌,
  length, take,
}
use embedded_linux.Memory.{Allocator, in_block, checked, peek, poke, kfree, allocated}
use embedded_linux.Driver.{
  Errno, einval, enomem, efault, erestartsys, Ret, done, error, Sys, File, lock, unlock, on_heap,
}
use embedded_linux.Driver.Buffering.{handle_write_buffer, handle_complete_command}

abbrev pub newline : ℕ
newline = 10

-- `memchr(.., '\n', ..)` finds something.
unfoldable pub has_newline : List ℕ → Bool
has_newline [] = false
has_newline (c ∷ cs) = c == newline || has_newline cs

-- A buffer that holds a newline is moved to the circular buffer.
unfoldable pub commit : Sys → Sys
commit s = elim (s.dev.write_buf) [
  | none ↦ s
  | some p ↦
      let t = on_heap (λ h. checked (in_block h p 0 s.dev.write_buf_size) h) s in
      let u = handle_complete_command t in
      if has_newline (peek s.heap p 0 s.dev.write_buf_size) then u else t
]

-- `aesd_write` from the point where `tmp_buf` holds the user's bytes.
unfoldable pub write_copied : Allocator → Sys → ℕ → ℕ → Sys × Ret
write_copied a s tmp count =
    let (t, err) = handle_write_buffer a s (some tmp) count in
    elim err [
      | some e ↦ (unlock (on_heap (λ h. kfree h tmp) t), error e)
      | none ↦ (unlock (on_heap (λ h. kfree h tmp) (commit t)), done count)
    ]

-- `aesd_write` under the mutex.
unfoldable pub write_locked : Allocator → Sys → List ℕ → ℕ → Sys × Ret
write_locked a s data_in uncopied =
    let count = length data_in in
    elim (a.kmalloc s.heap count) [
      | none ↦ (unlock s, error enomem)
      | some tmp ↦
          let t =
            on_heap (λ h. poke (allocated a h tmp count) tmp 0 (take (count - uncopied) data_in))
              s in
          if uncopied == 0
          then write_copied a t tmp count
          else (unlock (on_heap (λ h. kfree h tmp) t), error efault)
    ]

-- `aesd_write(filp, buf, count, f_pos)`: `buf` is NULL or the `count` bytes in user space.
unfoldable pub write : Allocator → Sys → File → Option (List ℕ) → Bool → ℕ → Sys × Ret
write a s f none interrupted uncopied = (s, error einval)
write a s f (some data_in) interrupted uncopied =
    if not f.private_data || length data_in == 0
    then (s, error einval)
    else if interrupted
    then (s, error erestartsys)
    else write_locked a (lock s) data_in uncopied
