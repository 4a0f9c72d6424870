-- ===== src/Driver/Buffering/Append.antt =====
-- aesd_handle_write_buffer (aesd-char-driver/char-driver/src/aesd-char-buffer.c) appends the new
-- bytes to the pending ones, and leaves every block with one owner.
use mathlib.Core.Path.{subst}
use embedded_linux.Common.{
  ℕ, ◌+◌, ◌%◌, ◌^◌, ◌<◌, ◌≡◌, ◌≢◌, refl, sym, ap, ◌∙◌, Option, none, some, List, [], ◌∷◌, ◌++◌,
  arith, inl, inr, append_assoc, length, length-append, length-take, take, Option-cases,
  take-append, take-take,
}
use embedded_linux.Circular.{size_mod}
use embedded_linux.Memory.{Heap, Allocator, bytes_at, allocated, reallocated, poke, memcpy, update}
use embedded_linux.Memory.Append.{memcpy_append}
use embedded_linux.Driver.{Errno, enomem, Sys}
use embedded_linux.Driver.Buffering.{grow_write_buf, new_write_buf, handle_write_buffer}
use embedded_linux.Driver.Ownership.{live, IsOwned, IsBackedPtr, bytes_of, log}
use embedded_linux.Driver.Buffering.Install.{
  with_write_buf, install, release, allocated_at, allocated_fault, allocated_ne, update_ne,
  reallocated_at, reallocated_ne, reallocated_fault, reallocated_fresh, live_write_buf,
}

-- What `handle_write_buffer` leaves, by its return value: the bytes `sb` appended to the pending
-- ones, or, on an error, the state as it was.
abbrev pub IsAppended : ℕ → List ℕ → Sys → Sys × Option Errno → Type 0
IsAppended tmp sb s (t, none) =
    IsOwned (some tmp) t
    × (log t ≡ record { commands = (log s).commands; pending = (log s).pending ++ sb })
    × (t.dev.locked ≡ s.dev.locked)
IsAppended tmp sb s (t, some e) = t ≡ s

module _ (a : Allocator) {s : Sys} {tmp : ℕ} (sb : List ℕ) (o : IsOwned (some tmp) s)
    (src : s.heap.block tmp ≡ some sb) (small : length sb < 2 ^ 32) where
  new_write_buf-IsAppended :
      s.dev.write_buf ≡ none → IsAppended tmp sb s (new_write_buf a s tmp (length sb))
  unfolding new_write_buf
  new_write_buf-IsAppended empty =
      let n : ℕ = (length sb + 1) % size_mod in
      let exact : n ≡ length sb + 1 = omega arith in
      elim (Option-cases (a.kmalloc s.heap n)) [
        | inl failed ↦
            let run : new_write_buf a s tmp (length sb) ≡ (s, some enomem) =
              rw (failed, new_write_buf) (ground (arith, empty)) in
            subst (IsAppended tmp sb s) (sym run) refl
        | inr (new, e) ↦
            let fresh = a.kmalloc_fresh s.heap n new e in
            let apart : tmp ≢ new = λ same. cc in
            let h0 : Heap = allocated a s.heap new n in
            let h' : Heap = poke (memcpy h0 new 0 tmp (length sb)) new (length sb) (0 ∷ []) in
            let run : new_write_buf a s tmp (length sb)
                ≡ (with_write_buf s h' (some new) (length sb), none) =
              rw (e, new_write_buf) in
            let (text, sound, rest) =
              memcpy_append h0 new 0 tmp (length sb) (length sb) (a.junk n) sb (omega arith)
                (allocated_at a s.heap new n) (allocated_ne a s.heap new n tmp apart ∙ src) apart
                (omega (arith, a.length-junk n)) refl in
            let (o', l) =
              install h' new (length sb) sb refl o empty fresh
                (omega (arith, a.kmalloc_limit s.heap n new e)) text
                (sound ∙ allocated_fault a s.heap new n)
                (λ p ne. rest p ne ∙ allocated_ne a s.heap new n p ne) in
            let none_pending : sb ≡ bytes_of s.heap s.dev.write_buf s.dev.write_buf_size ++ sb =
              rw (empty, bytes_of) in
            let whole : log (with_write_buf s h' (some new) (length sb))
                ≡ record { commands = (log s).commands; pending = (log s).pending ++ sb } =
              l ∙ (λ i. record { commands = (log s).commands; pending = none_pending i }) in
            subst (IsAppended tmp sb s) (sym run) (o', whole, refl)
      ]

  grow_write_buf-IsAppended :
      (old : ℕ)
      → s.dev.write_buf ≡ some old
      → IsAppended tmp sb s (grow_write_buf a s old tmp (length sb))
  unfolding grow_write_buf
  grow_write_buf-IsAppended old e0 =
      let w : ℕ = s.dev.write_buf_size in
      let count : ℕ = length sb in
      let (len_old, small_old) = subst (λ ptr. IsBackedPtr s.heap ptr w) e0 o.pending in
      let size : ℕ = (w + count) % size_mod in
      let exact : size ≡ w + count = omega arith in
      let n : ℕ = (size + 1) % size_mod in
      let exact_n : n ≡ w + count + 1 = omega arith in
      elim (Option-cases (a.krealloc s.heap old n)) [
        | inl failed ↦
            let run : grow_write_buf a s old tmp count ≡ (s, some enomem) =
              rw (failed, grow_write_buf) in
            subst (IsAppended tmp sb s) (sym run) refl
        | inr (new, e) ↦
            let limit = a.krealloc_limit s.heap old n new e in
            let h0 : Heap = reallocated a s.heap old new n in
            let h' : Heap = poke (memcpy h0 new w tmp count) new size (0 ∷ []) in
            let run : grow_write_buf a s old tmp count
                ≡ (with_write_buf s h' (some new) size, none) =
              rw (e, grow_write_buf) in
            let old_bytes : List ℕ = bytes_at s.heap old in
            let bs : List ℕ = take n (old_bytes ++ a.junk n) in
            let len_bs : length bs ≡ w + count + 1 = omega (
              arith,
              length-take n (old_bytes ++ a.junk n),
              length-append old_bytes (a.junk n),
              a.length-junk n,
            ) in
            let on : live s.heap old ≡ 1 × (tmp ≢ old) = live_write_buf o e0 in
            let gone : update s.heap.block old none new ≡ none =
              reallocated_fresh a s.heap old n new e in
            let apart : tmp ≢ new = λ same. ground (arith, on, gone, src) in
            let (text, sound, rest) =
              memcpy_append h0 new w tmp count size bs sb exact (reallocated_at a s.heap old new n)
                (reallocated_ne a s.heap old new n tmp apart
                  ∙ update_ne s.heap.block old tmp on.1
                  ∙ src)
                apart len_bs refl in
            let kept : take w bs ≡ take w old_bytes =
              take-take w n (old_bytes ++ a.junk n) (omega arith)
              ∙ take-append w old_bytes (a.junk n) (omega arith) in
            let (o1, cs) = release old o e0 in
            let text' : List ℕ = take w old_bytes ++ sb in
            let shape : h'.block new ≡ some (text' ++ (0 ∷ [])) =
              text
              ∙ ap some (
                  ap (λ l. l ++ (sb ++ (0 ∷ []))) kept
                  ∙ sym (append_assoc (take w old_bytes) sb (0 ∷ []))) in
            let (o2, l) =
              install h' new size text'
                (omega (arith, length-append (take w old_bytes) sb, length-take w old_bytes)) o1
                refl gone (omega arith) shape (sound ∙ reallocated_fault a s.heap old new n on.0)
                (λ p ne. rest p ne ∙ reallocated_ne a s.heap old new n p ne) in
            let pending_old : take w old_bytes ≡ bytes_of s.heap s.dev.write_buf w =
              rw (e0, bytes_of) in
            let whole : log (with_write_buf s h' (some new) size)
                ≡ record { commands = (log s).commands; pending = (log s).pending ++ sb } =
              l ∙ (λ i. record { commands = cs i; pending = pending_old i ++ sb }) in
            subst (IsAppended tmp sb s) (sym run) (o2, whole, refl)
      ]

  -- The bytes behind `new_data` are appended to the pending ones, and the bookkeeping of memory
  -- stays right; on an error nothing changes.
  pub handle_write_buffer-IsAppended :
      IsAppended tmp sb s (handle_write_buffer a s (some tmp) (length sb))
  unfolding handle_write_buffer
  handle_write_buffer-IsAppended = elim (Option-cases s.dev.write_buf) [
    | inl empty ↦
        let run : handle_write_buffer a s (some tmp) (length sb)
            ≡ new_write_buf a s tmp (length sb) =
          simp (empty, handle_write_buffer) in
        subst (IsAppended tmp sb s) (sym run) (new_write_buf-IsAppended empty)
    | inr (old, e) ↦
        let run : handle_write_buffer a s (some tmp) (length sb)
            ≡ grow_write_buf a s old tmp (length sb) =
          simp (e, handle_write_buffer) in
        subst (IsAppended tmp sb s) (sym run) (grow_write_buf-IsAppended old e)
  ]
