-- ===== src/Circular/Find.antt =====
-- aesd_circular_buffer_find_entry_offset_for_fpos
-- (circular-buffer/src/aesd-circular-buffer-find.c) against a search in the list of the entries.
use mathlib.Core.Option
use embedded_linux.Common.{
  ℕ, zero, suc, ◌+◌, ◌-◌, ◌%◌, ◌≤◌, ◌<◌, ◌≡◌, refl, true, false, Option, none, some, List, [], ◌∷◌,
  arith, ltb, if◌then◌else◌, get_or, inl, inr, ap, ◌∙◌, Bool-cases, Option-cases, ltb→lt, length,
  take, ◌↔◌, lt→ltb,
}
use embedded_linux.Circular.{
  Entry, Buffer, null_entry, size_mod, total_entries, find_loop, find_entry,
}
use embedded_linux.Circular.Invariant.{IsValid}
use embedded_linux.Circular.Refine.{window, contents}

-- The bytes that a list of entries counts.
abbrev pub total_size : List Entry → ℕ
total_size [] = 0
total_size (e ∷ es) = e.size + total_size es

-- Which entry of a list holds the byte at an offset into all of them, and where in that entry.
unfoldable pub locate : List Entry → ℕ → Option (ℕ × ℕ)
locate [] off = none
locate (e ∷ es) off =
    let rest = locate es (off - e.size) in
    if ltb off e.size then some (0, off) else Option.map (λ r. (r.0 + 1, r.1)) rest

-- The slot of the k-th entry.
abbrev pub to_slot : ℕ → ℕ × ℕ → ℕ × ℕ
to_slot first r = ((first + r.0) % 10, r.1)

-- One entry further is one slot further.
map-to_slot :
    (idx : ℕ) (o : Option (ℕ × ℕ))
    → Option.map (to_slot idx) (Option.map (λ (r : ℕ × ℕ). (r.0 + 1, r.1)) o)
      ≡ Option.map (to_slot ((idx + 1) % 10)) o
map-to_slot idx none = refl
map-to_slot idx (some (k, r)) = ap (λ (j : ℕ). some (j, r)) (omega arith)

find_loop-locate :
    (xs : List Entry) (off n idx pos : ℕ)
    → pos ≤ off
    → idx < 10
    → pos + total_size (window xs idx n) < size_mod
    → off < size_mod
    → find_loop xs off n idx pos ≡ Option.map (to_slot idx) (locate (window xs idx n) (off - pos))
unfolding find_loop locate
find_loop-locate xs off zero idx pos p i h o = refl
find_loop-locate xs off (suc n) idx pos p i h o =
    let s : ℕ = (get_or xs idx null_entry).size in
    let es : List Entry = window xs ((idx + 1) % 10) n in
    let wide : (pos + s) % size_mod ≡ pos + s = omega arith in
    elim (Bool-cases (ltb off (pos + s))) [
      | inl now ↦
          let here : (off + size_mod - pos) % size_mod ≡ off - pos =
            omega (arith, ltb→lt _ _ now) in
          let at : (idx + 0) % 10 ≡ idx = omega arith in
          rw (wide, now, lt→ltb (off - pos) s (omega (arith, ltb→lt _ _ now)), here, at)
      | inr later ↦
          let past : pos + s ≤ off = ground arith in
          let off_past : ltb (off - pos) s ≡ false = ground arith in
          let step =
            find_loop-locate xs off n ((idx + 1) % 10) (pos + s) past (omega arith) (omega arith)
              o in
          let gap : off - pos - s ≡ off - (pos + s) = omega arith in
          rw (wide, later, off_past, map-to_slot, gap) step
    ]

-- In a valid buffer whose sizes add up to less than 2^64, for an offset below 2^64 and with a
-- place for the second result, the search returns the slot and the offset in it of the byte at
-- that offset in the entries taken together, oldest first, and NULL if there is no such byte.
pub find_entry-locate :
    {b : Buffer} (off : ℕ)
    → IsValid b
    → total_size (contents b) < size_mod
    → off < size_mod
    → find_entry (some b) off true ≡ Option.map (to_slot b.out_offs) (locate (contents b) off)
unfolding find_entry
find_entry-locate {b} off v h o =
    find_loop-locate b.entry off (total_entries b) b.out_offs 0 (omega arith) v.out_range
      (omega arith) o
    ∙ ap (λ k. Option.map (to_slot b.out_offs) (locate (contents b) k)) (omega arith)

-- What the search in the list means: the byte belongs to the k-th entry when the entries before it
-- count no more than the offset and it reaches past it.
pub locate-some :
    (es : List Entry) (off : ℕ) {k r : ℕ}
    → locate es off ≡ some (k, r)
    → (k < length es) × (r < (get_or es k null_entry).size) × (total_size (take k es) + r ≡ off)
unfolding locate
locate-some [] off e = absurd (cc)
locate-some (x ∷ es) off {k} {r} e = elim (Bool-cases (ltb off x.size)) [
  | inl now ↦ ground arith
  | inr later ↦ elim (Option-cases (locate es (off - x.size))) [
    | inl missing ↦ ground arith
    | inr ((j, r'), found) ↦
        let ih = locate-some es (off - x.size) found in
        let ek : k ≡ suc j = ground arith in
        let er : r ≡ r' = ground arith in
        let past : x.size ≤ off = ground arith in rw (ek, er) (omega arith)
  ]
]

pub locate-none : (es : List Entry) (off : ℕ) → (locate es off ≡ none) ↔ (total_size es ≤ off)
unfolding locate
locate-none [] off = (λ _. omega arith, λ _. refl)
locate-none (x ∷ es) off = (
  λ e. ground (arith, (locate-none es (off - x.size)).0),
  λ h. ground (arith, (locate-none es (off - x.size)).1),
)

-- The entries up to and including the k-th count no more than all of them.
pub total_size-take :
    (es : List Entry) (k : ℕ)
    → k < length es
    → total_size (take k es) + (get_or es k null_entry).size ≤ total_size es
total_size-take [] k h = absurd (omega arith)
total_size-take (x ∷ es) zero h = omega arith
total_size-take (x ∷ es) (suc k) h = omega (arith, total_size-take es k (omega arith))

pub total_size-take_le : (es : List Entry) (k : ℕ) → total_size (take k es) ≤ total_size es
total_size-take_le es zero = omega arith
total_size-take_le [] (suc k) = omega arith
total_size-take_le (x ∷ es) (suc k) = omega (arith, total_size-take_le es k)
