-- ===== src/Circular/Refine.antt =====
-- A valid buffer behaves as the list of its entries, oldest first, of which it keeps the last ten.
use embedded_linux.Common.{
  ℕ, zero, suc, ◌+◌, ◌-◌, ◌%◌, ◌≤◌, ◌<◌, ◌≡◌, refl, ◌∙◌, ap, ap₂, true, false, List, [], ◌∷◌, ◌++◌,
  arith, inl, inr, Bool-cases, if◌then◌else◌, length, get_or, set, tail, get_or-set_self,
  get_or-set_ne,
}
use embedded_linux.Circular.{Entry, Buffer, null_entry, store, clear_oldest, total_entries}
use embedded_linux.Circular.Invariant.{
  IsValid, total_entries_lem, total_entries-store, total_entries-clear_oldest,
}

-- The `n` entries from slot `i` on, going round at ten.
abbrev pub window : List Entry → ℕ → ℕ → List Entry
window xs i zero = []
window xs i (suc n) = get_or xs i null_entry ∷ window xs ((i + 1) % 10) n

abbrev pub contents : Buffer → List Entry
contents b = window b.entry b.out_offs (total_entries b)

pub length-window : (xs : List Entry) (i n : ℕ) → length (window xs i n) ≡ n
length-window xs i zero = refl
length-window xs i (suc n) = ap suc (length-window xs ((i + 1) % 10) n)

-- A write to a slot outside the window is not seen in it.
pub window-set_outside :
    (xs : List Entry) (e : Entry) (j n i : ℕ)
    → i < 10
    → j < 10
    → n ≤ (j + 10 - i) % 10
    → window (set xs j e) i n ≡ window xs i n
window-set_outside xs e j zero i hi hj h = refl
window-set_outside xs e j (suc n) i hi hj h =
    ap₂ ◌∷◌ (get_or-set_ne xs j i e null_entry (omega arith))
      (window-set_outside xs e j n ((i + 1) % 10) (omega arith) hj (omega arith))

-- The window that ends one slot further has one more entry at its end.
pub window-snoc :
    (xs : List Entry) (n i : ℕ)
    → i < 10
    → window xs i (suc n) ≡ window xs i n ++ (get_or xs ((i + n) % 10) null_entry ∷ [])
window-snoc xs zero i hi = ap (λ k. get_or xs k null_entry ∷ []) (omega arith)
window-snoc xs (suc n) i hi =
    ap (λ l. get_or xs i null_entry ∷ l)
      (window-snoc xs n ((i + 1) % 10) (omega arith)
        ∙ ap (λ k. window xs ((i + 1) % 10) n ++ (get_or xs k null_entry ∷ [])) (omega arith))

window-pred :
    (xs : List Entry) (i n : ℕ)
    → 0 < n
    → window xs i n ≡ get_or xs i null_entry ∷ window xs ((i + 1) % 10) (n - 1)
window-pred xs i zero h = absurd (omega arith)
window-pred xs i (suc n) h =
    ap (λ k. get_or xs i null_entry ∷ window xs ((i + 1) % 10) k) (omega arith)

-- `tail` of the contents starts at the slot after `out_offs`.
pub tail-contents :
    (b : Buffer)
    → 0 < total_entries b
    → tail (contents b) ≡ window b.entry ((b.out_offs + 1) % 10) (total_entries b - 1)
tail-contents b h = ap tail (window-pred b.entry b.out_offs (total_entries b) h)

module _ {b : Buffer} (e : Entry) (v : IsValid b) where
  -- The write at `in_offs` ends a window of fewer than ten entries.
  window-store :
      (i n : ℕ)
      → i < 10
      → n < 10
      → (i + n) % 10 ≡ b.in_offs
      → window (set b.entry b.in_offs e) i (suc n) ≡ window b.entry i n ++ (e ∷ [])
  window-store i n hi hn h =
      window-snoc (set b.entry b.in_offs e) n i hi
      ∙ ap₂ (λ l x. l ++ (x ∷ []))
          (window-set_outside b.entry e b.in_offs n i hi v.in_range (omega arith))
          (ap (λ k. get_or (set b.entry b.in_offs e) k null_entry) h
            ∙ get_or-set_self b.entry b.in_offs e null_entry (omega (arith, v.slots, v.in_range)))

  contents-store_full : b.full ≡ true → contents (store b e) ≡ tail (contents b) ++ (e ∷ [])
  unfolding store
  contents-store_full f = ground (
    arith,
    total_entries_lem v,
    total_entries-store e v,
    tail-contents b,
    window-store ((b.out_offs + 1) % 10) 9,
  )

  contents-store_room : b.full ≡ false → contents (store b e) ≡ contents b ++ (e ∷ [])
  unfolding store
  contents-store_room f = ground (
    arith,
    total_entries_lem v,
    total_entries-store e v,
    window-store b.out_offs (total_entries b),
  )

-- In a valid buffer, storing an entry appends it to the contents; a full buffer gives up its
-- oldest entry for it.
pub contents-store :
    {b : Buffer} (e : Entry)
    → IsValid b
    → contents (store b e) ≡ (if b.full then tail (contents b) else contents b) ++ (e ∷ [])
contents-store {b} e v = elim (Bool-cases b.full) [
  | inl f ↦ simp f (contents-store_full e v f)
  | inr f ↦ simp f (contents-store_room e v f)
]

-- In a valid buffer that holds an entry, clearing the oldest leaves the others in their order.
pub contents-clear_oldest :
    {b : Buffer} → IsValid b → 0 < total_entries b → contents (clear_oldest b) ≡ tail (contents b)
unfolding clear_oldest
contents-clear_oldest {b} v h = ground (
  arith,
  total_entries_lem v,
  total_entries-clear_oldest v,
  tail-contents b,
  window-set_outside b.entry null_entry b.out_offs (total_entries b - 1) ((b.out_offs + 1) % 10),
)
