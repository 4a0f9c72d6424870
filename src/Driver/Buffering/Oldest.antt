-- ===== src/Driver/Buffering/Oldest.antt =====
-- The first half of aesd_handle_complete_command
-- (aesd-char-driver/char-driver/src/aesd-char-buffer.c): a full buffer gives up its oldest entry.
use mathlib.Core.Path.{subst}
use embedded_linux.Common.{
  ℕ, ◌+◌, ◌-◌, ◌%◌, ◌<◌, ◌≡◌, ◌≢◌, refl, sym, ap, ◌∙◌, true, Option, none, some, List, map, arith,
  inl, inr, length, tail, Option-cases, All, All-set, set, length-set, get_or-set_self,
}
use embedded_linux.Circular.{Buffer, Entry, total_entries, null_entry, slot}
use embedded_linux.Circular.Invariant.{total_entries_lem}
use embedded_linux.Circular.Refine.{window, contents, window-set_outside, tail-contents}
use embedded_linux.Memory.{Heap, kfree, update}
use embedded_linux.Driver.{Sys}
use embedded_linux.Driver.Buffering.{free_oldest}
use embedded_linux.Driver.Ownership.{
  hits, count_slots, live, IsOwned, IsBacked, IsNull, bytes_of, entry_bytes,
}
use embedded_linux.Driver.Ownership.Frame.{
  IsBackedPtr-frame, bytes_of-frame, IsBacked-frame, entry_bytes-frame, hits_self, count_slots-set,
  hits-get_or,
}
use embedded_linux.Driver.Ownership.Blocks.{live-le}

-- What is left when the oldest entry has been given up: its slot is empty, the other commands and
-- the write buffer are as they were.
pub record IsGivenUp (tmp : Option ℕ) (s t : Sys) : Type 0 where
  pub owned : IsOwned tmp t
  pub emptied : (slot t.dev.buffer s.dev.buffer.out_offs).buffptr ≡ none
  pub in_same : t.dev.buffer.in_offs ≡ s.dev.buffer.in_offs
  pub out_same : t.dev.buffer.out_offs ≡ s.dev.buffer.out_offs
  pub full_same : t.dev.buffer.full ≡ s.dev.buffer.full
  pub ptr_same : t.dev.write_buf ≡ s.dev.write_buf
  pub size_same : t.dev.write_buf_size ≡ s.dev.write_buf_size
  pub lock_same : t.dev.locked ≡ s.dev.locked
  pub others :
      map (entry_bytes t.heap) (tail (contents t.dev.buffer))
      ≡ map (entry_bytes s.heap) (tail (contents s.dev.buffer))
  pub text :
      bytes_of t.heap s.dev.write_buf s.dev.write_buf_size
      ≡ bytes_of s.heap s.dev.write_buf s.dev.write_buf_size

kfree-live :
    (h : Heap) (p : ℕ) → live h p ≡ 1 → kfree h p ≡ record h { block = update h.block p none }
unfolding kfree
kfree-live h p on = ground arith

-- The younger entries of a full buffer.
tail-of :
    (c : Buffer)
    → total_entries c ≡ 10
    → tail (contents c) ≡ window c.entry ((c.out_offs + 1) % 10) 9
tail-of c ten =
    tail-contents c (omega (arith, ten))
    ∙ ap (window c.entry ((c.out_offs + 1) % 10)) {y = 9} (omega (arith, ten))

module _ {tmp : Option ℕ} {s : Sys} (o : IsOwned tmp s) (full : s.dev.buffer.full ≡ true) where
  abbrev emptied_entries : List Entry
  emptied_entries = set s.dev.buffer.entry s.dev.buffer.out_offs null_entry

  abbrev freed : ℕ → Sys
  freed p = record {
    heap = record (s.heap) { block = update s.heap.block p none };
    dev = record (s.dev) { buffer = record (s.dev.buffer) { entry = emptied_entries } };
  }

  -- The owner of an address that a slot points to.
  oldest_facts :
      (p : ℕ)
      → (slot s.dev.buffer s.dev.buffer.out_offs).buffptr ≡ some p
      → (live s.heap p ≡ 1)
        × (count_slots p emptied_entries ≡ 0)
        × (hits p s.dev.write_buf ≡ 0)
        × (hits p tmp ≡ 0)
  oldest_facts p e =
      let one : hits p ((slot s.dev.buffer s.dev.buffer.out_offs).buffptr) ≡ 1 =
        rw e (hits_self p) in
      omega (
        arith,
        o.owned p,
        live-le s.heap p,
        o.ring.slots,
        o.ring.out_range,
        hits-get_or p s.dev.buffer.entry s.dev.buffer.out_offs,
        count_slots-set p s.dev.buffer.entry s.dev.buffer.out_offs null_entry
            (omega (arith, o.ring.slots, o.ring.out_range)),
      )

  freed-IsGivenUp :
      (p : ℕ)
      → (slot s.dev.buffer s.dev.buffer.out_offs).buffptr ≡ some p
      → IsGivenUp tmp s (freed p)
  unfolding total_entries
  freed-IsGivenUp p e =
      let (on, gone, not_buf, not_tmp) = oldest_facts p e in
      let h' : Heap = (freed p).heap in
      let same : (q : ℕ) → q ≢ p → h'.block q ≡ s.heap.block q = λ q ne. ground arith in
      let b : Buffer = s.dev.buffer in
      let ten : total_entries b ≡ 10 = (total_entries_lem o.ring).2.0 full in
      let in_array : b.out_offs < length b.entry = omega (arith, o.ring.slots, o.ring.out_range) in
      let b' : Buffer = record b { entry = emptied_entries } in
      let ten' : total_entries b' ≡ 10 = ground (arith, full) in
      let trade : (r : ℕ)
          → count_slots r emptied_entries + hits r (some p) ≡ count_slots r b.entry + 0 =
        λ r.
          subst (λ ptr. count_slots r emptied_entries + hits r ptr ≡ count_slots r b.entry + 0) e
            (count_slots-set r b.entry b.out_offs null_entry in_array) in
      record {
        owned = record {
          ring = ground (arith, o.ring, length-set b.entry b.out_offs null_entry);
          sound = o.sound;
          owned = λ r. ground (arith, o.owned r, o.owned p, trade r, on, not_buf, not_tmp, gone);
          backed =
              IsBacked-frame s.heap h' p same emptied_entries gone
                (All-set (IsBacked s.heap) b.entry b.out_offs null_entry refl o.backed);
          pending =
              IsBackedPtr-frame s.heap h' p same s.dev.write_buf s.dev.write_buf_size not_buf
                o.pending;
          unused =
              subst (λ n. All IsNull (window emptied_entries b.in_offs (10 - n))) (sym ten') tt;
        };
        emptied =
            ap (λ (r : Entry). r.buffptr)
              (get_or-set_self b.entry b.out_offs null_entry null_entry in_array);
        in_same = refl;
        out_same = refl;
        full_same = refl;
        ptr_same = refl;
        size_same = refl;
        lock_same = refl;
        others =
            ap (map (entry_bytes h')) (tail-of b' ten')
            ∙ entry_bytes-frame s.heap h' p same emptied_entries gone ((b.out_offs + 1) % 10) 9
            ∙ ap (map (entry_bytes s.heap)) (
                window-set_outside b.entry null_entry b.out_offs 9 ((b.out_offs + 1) % 10)
                  (omega arith) o.ring.out_range (omega (arith, o.ring.out_range))
                ∙ sym (tail-of b ten));
        text = bytes_of-frame s.heap h' p same s.dev.write_buf s.dev.write_buf_size not_buf;
      }

  pub free_oldest-IsGivenUp : IsGivenUp tmp s (free_oldest s)
  unfolding free_oldest
  free_oldest-IsGivenUp = elim (Option-cases ((slot s.dev.buffer s.dev.buffer.out_offs).buffptr)) [
    | inl empty ↦
        let run : free_oldest s ≡ s = simp (empty, free_oldest) in
        subst (IsGivenUp tmp s) (sym run) (record {
          owned = o;
          emptied = empty;
          in_same = refl;
          out_same = refl;
          full_same = refl;
          ptr_same = refl;
          size_same = refl;
          lock_same = refl;
          others = refl;
          text = refl;
        })
    | inr (p, e) ↦
        let on : live s.heap p ≡ 1 = (oldest_facts p e).0 in
        let run : free_oldest s ≡ freed p = simp (e, free_oldest, kfree-live s.heap p on) in
        subst (IsGivenUp tmp s) (sym run) (freed-IsGivenUp p e)
  ]
