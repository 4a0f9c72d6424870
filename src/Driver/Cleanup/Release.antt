-- ===== src/Driver/Cleanup/Release.antt =====
-- `aesd_cleanup_device` (aesd-char-driver/char-driver/src/aesd-char-device.c) frees every block.
use mathlib.Core.Path.{subst}
use embedded_linux.Common.{
  ℕ, ◌+◌, ◌≡◌, refl, sym, ap, ◌∙◌, false, none, some, List, [], ◌∷◌, arith, inl, inr, Option-cases,
  All,
}
use embedded_linux.Circular.{Entry, null_entry}
use embedded_linux.Memory.{Heap, kfree}
use embedded_linux.Driver.{Sys}
use embedded_linux.Driver.Ownership.{hits, count_slots, live, IsOwned, IsNull}
use embedded_linux.Driver.Ownership.Frame.{hits_self}
use embedded_linux.Driver.Ownership.Blocks.{live-le}
use embedded_linux.Driver.Cleanup.{free_entry, free_entries, free_write_buf, cleanup_device}

-- Freeing a live block clears its address only, with no fault.
kfree_lem :
    (h : Heap) (p : ℕ)
    → live h p ≡ 1
    → ((kfree h p).fault ≡ h.fault) × ((q : ℕ) → live (kfree h p) q + hits q (some p) ≡ live h q)
unfolding kfree
kfree_lem h p on = (ground arith, λ q. ground arith)

-- One owner less, and an empty slot.
abbrev IsFreed : Heap → (ℕ → ℕ) → Heap × Entry → Type 0
IsFreed h rest r = ((p : ℕ) → rest p ≡ live r.0 p) × (r.0.fault ≡ h.fault) × (r.1.buffptr ≡ none)

free_entry-IsFreed :
    (h : Heap) (e : Entry) (rest : ℕ → ℕ)
    → ((p : ℕ) → hits p e.buffptr + rest p ≡ live h p)
    → IsFreed h rest (free_entry h e)
unfolding free_entry
free_entry-IsFreed h e rest own = elim (Option-cases e.buffptr) [
  | inl empty ↦
      let run : free_entry h e ≡ (h, e) = simp (empty, free_entry) in
      subst (IsFreed h rest) (sym run) (λ p. omega (arith, own p, ap (hits p) empty), refl, empty)
  | inr (q, full) ↦
      let run : free_entry h e ≡ (kfree h q, null_entry) = simp (full, free_entry) in
      let mine : (p : ℕ) → hits p (some q) + rest p ≡ live h p =
        λ p. subst (λ ptr. hits p ptr + rest p ≡ live h p) full (own p) in
      let (fault, gone) = kfree_lem h q (omega (arith, mine q, hits_self q, live-le h q)) in
      subst (IsFreed h rest) (sym run) (λ p. omega (arith, mine p, gone p), fault, refl)
]

free_entries_lem :
    (h : Heap) (es : List Entry)
    → ((p : ℕ) → count_slots p es ≡ live h p)
    → let (h', es') = free_entries h es in
      ((p : ℕ) → live h' p ≡ 0) × (h'.fault ≡ h.fault) × All IsNull es'
unfolding free_entries
free_entries_lem h [] own = (λ p. sym (own p), refl, tt)
free_entries_lem h (e ∷ es) own =
    let (own', fault, null) = free_entry-IsFreed h e (λ p. count_slots p es) own in
    let (gone, fault', nulls) = free_entries_lem (free_entry h e).0 es own' in
    (gone, fault' ∙ fault, (null, nulls))

free_write_buf_lem :
    (s : Sys)
    → IsOwned none s
    → let t = free_write_buf s in
      ((p : ℕ) → count_slots p t.dev.buffer.entry ≡ live t.heap p)
      × (t.heap.fault ≡ false)
      × (t.dev.write_buf ≡ none)
unfolding free_write_buf
free_write_buf_lem s o = elim (Option-cases s.dev.write_buf) [
  | inl empty ↦
      let run : free_write_buf s ≡ s = simp (empty, free_write_buf) in
      subst Freed (sym run) (λ p. omega (arith, o.owned p, ap (hits p) empty), o.sound, empty)
  | inr (q, full) ↦
      let run : free_write_buf s ≡ record {
        heap = kfree s.heap q;
        dev = record (s.dev) { write_buf = none; write_buf_size = 0 };
      } =
        simp (full, free_write_buf) in
      let mine : (p : ℕ) → 0 + hits p (some q) + count_slots p s.dev.buffer.entry ≡ live s.heap p =
        λ p.
          subst (λ ptr. 0 + hits p ptr + count_slots p s.dev.buffer.entry ≡ live s.heap p) full
            (o.owned p) in
      let (fault, gone) =
        kfree_lem s.heap q (omega (arith, mine q, hits_self q, live-le s.heap q)) in
      subst Freed (sym run) (λ p. omega (arith, mine p, gone p), fault ∙ o.sound, refl)
]
  where
    Freed : Sys → Type 0
    Freed t =
        ((p : ℕ) → count_slots p t.dev.buffer.entry ≡ live t.heap p)
        × (t.heap.fault ≡ false)
        × (t.dev.write_buf ≡ none)

-- On a device whose memory is in order the clean-up leaves no address live, no access that went
-- astray and no second free, and no pointer in the write buffer or in a slot.
pub cleanup_device_frees :
    {s : Sys}
    → IsOwned none s
    → let t = cleanup_device s in
      ((p : ℕ) → t.heap.block p ≡ none)
      × (t.heap.fault ≡ false)
      × (t.dev.write_buf ≡ none)
      × All IsNull t.dev.buffer.entry
unfolding cleanup_device
cleanup_device_frees {s} o =
    let (own, fault, empty) = free_write_buf_lem s o in
    let t : Sys = free_write_buf s in
    let (gone, fault', nulls) = free_entries_lem t.heap t.dev.buffer.entry own in
    (λ p. ground (arith, gone p), fault' ∙ fault, empty, nulls)
