-- ===== src/Search/Results/Focus.antt =====
-- `SearchResults.NavNext` and `NavPrev` (docs/html/search/search.js): the nearest visible item.
use mathlib.Core.Path.{subst}
use embedded_linux.Common.{
  ℕ, zero, suc, ◌+◌, ◌≤◌, ◌<◌, ◌≡◌, refl, sym, true, false, Option, none, some, List, [], ◌∷◌,
  arith, ◌⊎◌, inl, inr, ◌==◌, Bool-cases, Option-cases,
}
use embedded_linux.Search.{Div, is_block}
use embedded_linux.Search.Results.{find_item, item_bound, nav_next_loop, nav_next, nav_prev}

-- Item k exists and its row is hidden.
abbrev pub IsHiddenItem : List Div → ℕ → Type 0
IsHiddenItem divs k = (row : Div) × (find_item divs k ≡ some row) × (is_block row.display ≡ false)

abbrev pub IsVisibleItem : List Div → ℕ → Type 0
IsVisibleItem divs k = (row : Div) × (find_item divs k ≡ some row) × (is_block row.display ≡ true)

-- From `index` up: the first item that is visible, or none when the items end before one.
abbrev pub IsNext : List Div → ℕ → Option ℕ → Type 0
IsNext divs index none =
    (end : ℕ) × (index ≤ end)
    × (find_item divs end ≡ none)
    × ((k : ℕ) → index ≤ k → k < end → IsHiddenItem divs k)
IsNext divs index (some found) =
    (index ≤ found)
    × IsVisibleItem divs found
    × ((k : ℕ) → index ≤ k → k < found → IsHiddenItem divs k)

-- Below `index`: the last item that is visible, or none when they end before one.
abbrev pub IsPrevious : List Div → ℕ → Option ℕ → Type 0
IsPrevious divs index none =
    (end : ℕ) × (end ≤ index)
    × ((end ≡ 0) ⊎ ((last : ℕ) × (end ≡ suc last) × (find_item divs last ≡ none)))
    × ((k : ℕ) → end ≤ k → k < index → IsHiddenItem divs k)
IsPrevious divs index (some found) =
    (found < index)
    × IsVisibleItem divs found
    × ((k : ℕ) → found < k → k < index → IsHiddenItem divs k)

find_item-bound : (divs : List Div) (k : ℕ) → item_bound divs ≤ k → find_item divs k ≡ none
unfolding find_item item_bound
find_item-bound [] k h = refl
find_item-bound (d ∷ ds) k h =
    let rest : item_bound ds ≤ k → find_item ds k ≡ none = find_item-bound ds k in ground arith

-- One more hidden item at either end of a run of them.
hidden_below :
    (divs : List Div) (first end : ℕ)
    → IsHiddenItem divs first
    → ((k : ℕ) → suc first ≤ k → k < end → IsHiddenItem divs k)
    → (k : ℕ) → first ≤ k
    → k < end
    → IsHiddenItem divs k
hidden_below divs first end here rest k l u = elim (Bool-cases (first == k)) [
  | inl same ↦ subst (λ j. IsHiddenItem divs j) {x = first} {y = k} (ground arith) here
  | inr apart ↦ rest k (ground arith) u
]

hidden_above :
    (divs : List Div) (first last : ℕ)
    → IsHiddenItem divs last
    → ((k : ℕ) → first ≤ k → k < last → IsHiddenItem divs k)
    → (k : ℕ) → first ≤ k
    → k < suc last
    → IsHiddenItem divs k
hidden_above divs first last here rest k l u = elim (Bool-cases (last == k)) [
  | inl same ↦ subst (λ j. IsHiddenItem divs j) {x = last} {y = k} (ground arith) here
  | inr apart ↦ rest k l (ground arith)
]

IsNext-hidden :
    (divs : List Div) (index : ℕ) (r : Option ℕ)
    → IsHiddenItem divs index
    → IsNext divs (suc index) r
    → IsNext divs index r
IsNext-hidden divs index none here (end, l, gone, rest) =
    (end, omega arith, gone, hidden_below divs index end here rest)
IsNext-hidden divs index (some found) here (l, seen, rest) =
    (omega arith, seen, hidden_below divs index found here rest)

IsPrevious-hidden :
    (divs : List Div) (index : ℕ) (r : Option ℕ)
    → IsHiddenItem divs index
    → IsPrevious divs index r
    → IsPrevious divs (suc index) r
IsPrevious-hidden divs index none here (end, l, gone, rest) =
    (end, omega arith, gone, hidden_above divs end index here rest)
IsPrevious-hidden divs index (some found) here (l, seen, rest) =
    (omega arith, seen, hidden_above divs (suc found) index here rest)

nav_next_loop-IsNext :
    (divs : List Div) (rounds index : ℕ)
    → item_bound divs < rounds + index
    → IsNext divs index (nav_next_loop divs rounds index)
unfolding nav_next_loop
nav_next_loop-IsNext divs zero index h =
    (index, omega arith, find_item-bound divs index (omega arith), λ k l u. absurd (omega arith))
nav_next_loop-IsNext divs (suc rounds) index h = elim (Option-cases (find_item divs index)) [
  | inl end ↦
      let run : nav_next_loop divs (suc rounds) index ≡ none = rw (nav_next_loop, end) in
      subst (λ r. IsNext divs index r) (sym run)
        (index, omega arith, end, λ k l u. absurd (omega arith))
  | inr (row, here) ↦ elim (Bool-cases (is_block row.display)) [
    | inl seen ↦
        let run : nav_next_loop divs (suc rounds) index ≡ some index =
          rw (nav_next_loop, here, seen) in
        subst (λ r. IsNext divs index r) (sym run)
          (omega arith, (row, here, seen), λ k l u. absurd (omega arith))
    | inr unseen ↦
        let run : nav_next_loop divs (suc rounds) index ≡ nav_next_loop divs rounds (suc index) =
          rw (nav_next_loop, here, unseen) in
        subst (λ r. IsNext divs index r) (sym run)
          (IsNext-hidden divs index _ (row, here, unseen)
            (nav_next_loop-IsNext divs rounds (suc index) (omega arith)))
  ]
]

-- `NavNext(index)` returns: the first item from `index` up whose row is displayed, all items
-- before it being in rows that are not; or NULL, when the numbering of the items ends before one
-- is found.
pub nav_next-IsNext : (divs : List Div) (index : ℕ) → IsNext divs index (nav_next divs index)
unfolding nav_next
nav_next-IsNext divs index = nav_next_loop-IsNext divs (suc (item_bound divs)) index (omega arith)

-- `NavPrev(index - 1)` returns: the last item below `index` whose row is displayed, all items
-- between being in rows that are not; or NULL, when the numbering ends before one is found.
pub nav_prev-IsPrevious :
    (divs : List Div) (index : ℕ) → IsPrevious divs index (nav_prev divs index)
unfolding nav_prev
nav_prev-IsPrevious divs zero = (0, omega arith, inl refl, λ k l u. absurd (omega arith))
nav_prev-IsPrevious divs (suc index) = elim (Option-cases (find_item divs index)) [
  | inl end ↦
      let run : nav_prev divs (suc index) ≡ none = rw (nav_prev, end) in
      subst (λ r. IsPrevious divs (suc index) r) (sym run)
        (suc index, omega arith, inr (index, refl, end), λ k l u. absurd (omega arith))
  | inr (row, here) ↦ elim (Bool-cases (is_block row.display)) [
    | inl seen ↦
        let run : nav_prev divs (suc index) ≡ some index = rw (nav_prev, here, seen) in
        subst (λ r. IsPrevious divs (suc index) r) (sym run)
          (omega arith, (row, here, seen), λ k l u. absurd (omega arith))
    | inr unseen ↦
        let run : nav_prev divs (suc index) ≡ nav_prev divs index = rw (nav_prev, here, unseen) in
        subst (λ r. IsPrevious divs (suc index) r) (sym run)
          (IsPrevious-hidden divs index _ (row, here, unseen) (nav_prev-IsPrevious divs index))
  ]
]
