-- ===== src/Driver/Buffering/Complete.antt =====
-- aesd_handle_complete_command (aesd-char-driver/char-driver/src/aesd-char-buffer.c) moves the
-- write buffer into the circular buffer, which keeps the last ten commands.
use mathlib.Core.Path.{subst}
use mathlib.Core.List.{map-append}
use embedded_linux.Common.{
  length-map, ℕ, suc, ◌+◌, ◌-◌, ◌%◌, ◌<◌, ◌≡◌, refl, sym, ap, ap₂, ◌∙◌, true, false, Option, none,
  some, List, [], ◌∷◌, ◌++◌, map, arith, inl, inr, length, tail, if◌then◌else◌, Bool-cases, All,
  All-set, set,
}
use embedded_linux.Circular.{Buffer, Entry, total_entries, slot, store, add_entry}
use embedded_linux.Circular.Invariant.{total_entries_lem, store-IsValid, total_entries-store}
use embedded_linux.Circular.Refine.{
  window, contents, window-set_outside, length-window, contents-store,
}
use embedded_linux.Memory.{Heap}
use embedded_linux.Driver.{Sys}
use embedded_linux.Driver.Log.{push_command}
use embedded_linux.Driver.Buffering.{free_oldest, handle_complete_command}
use embedded_linux.Driver.Buffering.Oldest.{free_oldest-IsGivenUp}
use embedded_linux.Driver.Ownership.{
  hits, count_slots, live, IsOwned, IsBackedPtr, IsBacked, IsNull, bytes_of, entry_bytes,
  commands_of, log, unused_slots,
}
use embedded_linux.Driver.Ownership.Frame.{count_slots-set}

-- The write buffer becomes an entry in a slot that held none.
module _ {tmp : Option ℕ} {s : Sys} (o : IsOwned tmp s) (p : ℕ) (e0 : s.dev.write_buf ≡ some p)
    (empty : (slot s.dev.buffer s.dev.buffer.in_offs).buffptr ≡ none) where
  abbrev entry_of : Entry
  entry_of = record { buffptr = some p; size = s.dev.write_buf_size }

  abbrev moved : Sys
  moved = record s {
    dev = record (s.dev) {
      buffer = store s.dev.buffer entry_of;
      write_buf = none;
      write_buf_size = 0;
    };
  }

  moved-unused : All IsNull (unused_slots (store s.dev.buffer entry_of))
  unfolding store
  moved-unused =
      let b : Buffer = s.dev.buffer in
      let es : List Entry = set b.entry b.in_offs entry_of in
      let by_count : (n : ℕ)
          → total_entries (store b entry_of) ≡ n
          → All IsNull (window es ((b.in_offs + 1) % 10) (10 - n))
          → All IsNull (unused_slots (store b entry_of)) =
        λ n e. subst (λ k. All IsNull (window es ((b.in_offs + 1) % 10) (10 - k))) (sym e) in
      elim (Bool-cases b.full) [
        | inl f ↦ by_count 10 ((total_entries-store entry_of o.ring).0 f) tt
        | inr f ↦
            let few = (total_entries_lem o.ring).2.1 f in
            let rest : All IsNull (window b.entry b.in_offs (suc (9 - total_entries b))) =
              subst (λ k. All IsNull (window b.entry b.in_offs k)) {y = suc (9 - total_entries b)}
                (omega (arith, few)) o.unused in
            let outside =
              window-set_outside b.entry entry_of b.in_offs (9 - total_entries b)
                ((b.in_offs + 1) % 10) (omega arith) o.ring.in_range
                (omega (arith, o.ring.in_range)) in
            by_count (total_entries b + 1) ((total_entries-store entry_of o.ring).1 f) (
              subst (λ k. All IsNull (window es ((b.in_offs + 1) % 10) k)) {x = 9 - total_entries b}
                (omega arith) (subst (All IsNull) (sym outside) rest.1))
      ]

  moved-IsOwned : IsOwned tmp moved
  unfolding store
  moved-IsOwned =
      let b : Buffer = s.dev.buffer in
      let in_array : b.in_offs < length b.entry = omega (arith, o.ring.slots, o.ring.in_range) in
      let backed_entry : IsBacked s.heap entry_of =
        subst (λ ptr. IsBackedPtr s.heap ptr s.dev.write_buf_size) e0 o.pending in
      record {
        ring = store-IsValid entry_of o.ring;
        sound = o.sound;
        owned = λ r.
            let mine : hits r tmp + hits r (some p) + count_slots r b.entry ≡ live s.heap r =
              subst (λ ptr. hits r tmp + hits r ptr + count_slots r b.entry ≡ live s.heap r) e0
                (o.owned r) in
            let trade : count_slots r (set b.entry b.in_offs entry_of) + hits r none
                ≡ count_slots r b.entry + hits r (some p) =
              subst
                (λ ptr.
                  count_slots r (set b.entry b.in_offs entry_of) + hits r ptr
                  ≡ count_slots r b.entry + hits r (some p))
                empty (count_slots-set r b.entry b.in_offs entry_of in_array) in
            omega (arith, mine, trade);
        backed = All-set (IsBacked s.heap) b.entry b.in_offs entry_of backed_entry o.backed;
        pending = refl;
        unused = moved-unused;
      }

map-tail {ℓ κ} :
    {A : Type ℓ} {B : Type κ} (f : A → B) (xs : List A) → map f (tail xs) ≡ tail (map f xs)
map-tail f [] = refl
map-tail f (x ∷ xs) = refl

length-commands : (h : Heap) (b : Buffer) → length (commands_of h b) ≡ total_entries b
length-commands h b =
    length-map (contents b) (entry_bytes h) ∙ length-window b.entry b.out_offs (total_entries b)

-- A buffer that is not full has an empty slot at `in_offs`.
empty_slot :
    {tmp : Option ℕ} {s : Sys}
    → IsOwned tmp s
    → s.dev.buffer.full ≡ false
    → (slot s.dev.buffer s.dev.buffer.in_offs).buffptr ≡ none
empty_slot {tmp} {s} o f =
    let b : Buffer = s.dev.buffer in
    let few = (total_entries_lem o.ring).2.1 f in
    let rest : All IsNull (window b.entry b.in_offs (suc (9 - total_entries b))) =
      subst (λ k. All IsNull (window b.entry b.in_offs k)) {y = suc (9 - total_entries b)}
        (omega (arith, few)) o.unused in
    rest.0

-- What `handle_complete_command` leaves: the pending bytes are the newest command.
pub record IsCompleted (tmp : Option ℕ) (s t : Sys) : Type 0 where
  pub owned : IsOwned tmp t
  pub moved_on :
      log t ≡ record { commands = push_command (log s).commands (log s).pending; pending = [] }
  pub lock_same : t.dev.locked ≡ s.dev.locked

push_command_full :
    (cs : List (List ℕ)) (c : List ℕ) → length cs ≡ 10 → push_command cs c ≡ tail cs ++ (c ∷ [])
unfolding push_command
push_command_full cs c h = ground arith

push_command_room :
    (cs : List (List ℕ)) (c : List ℕ) → length cs < 10 → push_command cs c ≡ cs ++ (c ∷ [])
unfolding push_command
push_command_room cs c h = ground arith

-- The commands after the move.
commands-moved :
    {tmp : Option ℕ} {s : Sys} (o : IsOwned tmp s) (p : ℕ) (e0 : s.dev.write_buf ≡ some p)
    (empty : (slot s.dev.buffer s.dev.buffer.in_offs).buffptr ≡ none)
    → commands_of s.heap (moved o p e0 empty).dev.buffer
      ≡ map
          (entry_bytes s.heap)
          (if s.dev.buffer.full then tail (contents s.dev.buffer) else contents s.dev.buffer)
        ++ ((log s).pending ∷ [])
commands-moved {tmp} {s} o p e0 empty =
    let e : Entry = entry_of o p e0 empty in
    let kept : List Entry =
      (if s.dev.buffer.full then tail (contents s.dev.buffer) else contents s.dev.buffer) in
    let text : entry_bytes s.heap e ≡ (log s).pending =
      ap (λ ptr. bytes_of s.heap ptr s.dev.write_buf_size) (sym e0) in
    ap (map (entry_bytes s.heap)) (contents-store e o.ring)
    ∙ map-append (entry_bytes s.heap) kept (e ∷ [])
    ∙ ap (λ c. map (entry_bytes s.heap) kept ++ (c ∷ [])) text

module _ {tmp : Option ℕ} {s : Sys} (o : IsOwned tmp s) (p : ℕ)
    (e0 : s.dev.write_buf ≡ some p) where
  complete_full : s.dev.buffer.full ≡ true → IsCompleted tmp s (handle_complete_command s)
  unfolding handle_complete_command add_entry
  complete_full f =
      let g = free_oldest-IsGivenUp o f in
      let t : Sys = free_oldest s in
      let e1 : t.dev.write_buf ≡ some p = g.ptr_same ∙ e0 in
      let empty : (slot t.dev.buffer t.dev.buffer.in_offs).buffptr ≡ none =
        ap (λ i. (slot t.dev.buffer i).buffptr) (g.in_same ∙ o.ring.full_meets f) ∙ g.emptied in
      let run : handle_complete_command s ≡ moved g.owned p e1 empty =
        simp (e0, f, handle_complete_command, ← g.size_same) refl in
      let ten = (total_entries_lem o.ring).2.0 f in
      let whole : t.dev.buffer.full ≡ true = g.full_same ∙ f in
      let pend : (log t).pending ≡ (log s).pending =
        ap₂ (bytes_of t.heap) g.ptr_same g.size_same ∙ g.text in
      let cs : commands_of t.heap (moved g.owned p e1 empty).dev.buffer
          ≡ push_command (log s).commands (log s).pending =
        commands-moved g.owned p e1 empty
        ∙ simp whole refl
        ∙ ap₂ (λ l c. l ++ (c ∷ []))
            (g.others ∙ map-tail (entry_bytes s.heap) (contents s.dev.buffer)) pend
        ∙ sym (
            push_command_full (log s).commands (log s).pending
              (length-commands s.heap s.dev.buffer ∙ ten)) in
      subst (IsCompleted tmp s) (sym run) (record {
        owned = moved-IsOwned g.owned p e1 empty;
        moved_on = λ i. record { commands = cs i; pending = [] };
        lock_same = g.lock_same;
      })

  complete_room : s.dev.buffer.full ≡ false → IsCompleted tmp s (handle_complete_command s)
  unfolding handle_complete_command add_entry
  complete_room f =
      let empty = empty_slot o f in
      let run : handle_complete_command s ≡ moved o p e0 empty =
        simp (e0, f, handle_complete_command) in
      let few = (total_entries_lem o.ring).2.1 f in
      let cs : commands_of s.heap (moved o p e0 empty).dev.buffer
          ≡ push_command (log s).commands (log s).pending =
        commands-moved o p e0 empty
        ∙ simp f (
            sym (
              push_command_room (log s).commands (log s).pending
                (omega (arith, few, length-commands s.heap s.dev.buffer)))) in
      subst (IsCompleted tmp s) (sym run) (record {
        owned = moved-IsOwned o p e0 empty;
        moved_on = λ i. record { commands = cs i; pending = [] };
        lock_same = refl;
      })

-- On a device whose memory is in order and that has a write buffer, the pending bytes become the
-- newest of the last ten commands, no bytes are pending any more, every block of memory keeps
-- exactly one owner, and the mutex stays as it was.
pub handle_complete_command-IsCompleted :
    {tmp : Option ℕ} {s : Sys} {p : ℕ}
    → IsOwned tmp s
    → s.dev.write_buf ≡ some p
    → IsCompleted tmp s (handle_complete_command s)
handle_complete_command-IsCompleted {tmp} {s} {p} o e = elim (Bool-cases s.dev.buffer.full) [
  | inl f ↦ complete_full o p e f
  | inr f ↦ complete_room o p e f
]
