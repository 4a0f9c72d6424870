-- ===== src/Driver/Write/Progress.antt =====
-- When `aesd_write` (aesd-char-driver/char-driver/src/aesd-char-fileops.c) succeeds.
use mathlib.Core.Path.{subst}
use embedded_linux.Common.{
  ℕ, ◌+◌, ◌-◌, ◌%◌, ◌<◌, ◌≡◌, sym, ◌∙◌, true, false, Option, none, some, List, arith, inl, inr,
  ◌==◌, length, take, take-all, Option-cases,
}
use embedded_linux.Circular.{size_mod}
use embedded_linux.Memory.{Allocator, allocated, poke}
use embedded_linux.Driver.{done, Sys, File, lock, on_heap}
use embedded_linux.Driver.Ownership.{IsOwned, log}
use embedded_linux.Driver.Log.{append_bytes}
use embedded_linux.Driver.Buffering.{grow_write_buf, new_write_buf, handle_write_buffer}
use embedded_linux.Driver.Write.{write_copied, write_locked, write}
use embedded_linux.Driver.Write.Refine.{IsLogged, write-IsWritten}

-- The device under its mutex, with the user's bytes in the temporary block.
abbrev pub holding : Allocator → Sys → ℕ → List ℕ → Sys
holding a s tmp bs = on_heap (λ h. poke (allocated a h tmp (length bs)) tmp 0 bs) (lock s)

-- The answer of the allocator to the request for the write buffer with `count` more bytes.
abbrev pub requested : Allocator → Sys → ℕ → Option ℕ
requested a s count = elim (s.dev.write_buf) [
  | some old ↦ a.krealloc s.heap old (((s.dev.write_buf_size + count) % size_mod + 1) % size_mod)
  | none ↦ a.kmalloc s.heap ((count + 1) % size_mod)
]

handle_write_buffer-granted :
    (a : Allocator) (s : Sys) (tmp count p : ℕ)
    → requested a s count ≡ some p
    → (handle_write_buffer a s (some tmp) count).1 ≡ none
unfolding handle_write_buffer new_write_buf grow_write_buf
handle_write_buffer-granted a s tmp count p e = elim (Option-cases s.dev.write_buf) [
  | inl empty ↦
      let given : a.kmalloc s.heap ((count + 1) % size_mod) ≡ some p =
        sym (simp (requested, empty)) ∙ e in
      simp (handle_write_buffer, empty, new_write_buf, given)
  | inr (old, full) ↦
      let given : a.krealloc s.heap old (((s.dev.write_buf_size + count) % size_mod + 1) % size_mod)
          ≡ some p =
        sym (simp (requested, full)) ∙ e in
      simp (handle_write_buffer, full, grow_write_buf, given)
]

write_copied-granted :
    (a : Allocator) (s : Sys) (tmp count : ℕ)
    → (handle_write_buffer a s (some tmp) count).1 ≡ none
    → (write_copied a s tmp count).1 ≡ done count
unfolding write_copied
write_copied-granted a s tmp count e = rw (write_copied, e)

-- On a device whose memory is in order and whose mutex is free, a write of at least one byte to an
-- open file, not interrupted and with all bytes copied, to which the allocator grants the
-- temporary copy and the write buffer, returns the number of bytes and appends them to the log.
pub write-completes :
    (a : Allocator) {s : Sys} (f : File) (bs : List ℕ) (tmp p : ℕ)
    → IsOwned none s
    → s.dev.locked ≡ false
    → f.private_data ≡ true
    → 0 < length bs
    → a.kmalloc s.heap (length bs) ≡ some tmp
    → requested a (holding a s tmp bs) (length bs) ≡ some p
    → ((write a s f (some bs) false 0).1 ≡ done (length bs))
      × (log (write a s f (some bs) false 0).0 ≡ append_bytes bs (log s))
unfolding write write_locked write_copied
write-completes a {s} f bs tmp p o free opened some_bytes first second =
    let count : ℕ = length bs in
    let nonzero : (count == 0) ≡ false = ground arith in
    let whole : take (count - 0) bs ≡ bs = take-all (count - 0) bs (omega arith) in
    let ret : (write a s f (some bs) false 0).1 ≡ done count =
      simp (write, opened, nonzero, write_locked, first, whole)
        (write_copied-granted a (holding a s tmp bs) tmp count
          (handle_write_buffer-granted a (holding a s tmp bs) tmp count p second)) in
    let logged = (write-IsWritten a {s = s} f bs false 0 o free).logged in
    (ret, (subst (IsLogged bs (log s) (write a s f (some bs) false 0).0) ret logged).1)
