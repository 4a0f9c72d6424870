-- ===== src/Search/Box/Selection.antt =====
-- Choosing a section with the arrow keys (`SearchBox.OnSearchSelectKey` of
-- docs/html/search/search.js).
use mathlib.Core.Path.{subst}
use embedded_linux.Common.{
  ℕ, zero, suc, ◌-◌, ◌≤◌, ◌<◌, ◌≡◌, refl, sym, ap, ◌∙◌, Bool, true, false, not, ◌&&◌, ◌||◌, Option,
  none, some, List, [], ◌∷◌, arith, ◌⊎◌, inl, inr, ltb, ◌==◌, if◌then◌else◌, Bool-cases,
  Option-cases, get_elem?, length,
}
use embedded_linux.Search.{Str, same, Browser}
use embedded_linux.Search.Box.{
  SelectNode, Section, Box, count_items, select_item_count, set_items, select_item_set,
  strip_spaces, search_box, on_select_item, on_search_select_key, close_selection_window,
}

-- The marks of the items, in their order.
abbrev pub item_marks : List SelectNode → List Bool
item_marks [] = []
item_marks (n ∷ ns) = if n.is_item then n.marked ∷ item_marks ns else item_marks ns

-- n marks, of the items j, j + 1, ..: that of the item `id` alone is set.
abbrev pub only : ℕ → ℕ → ℕ → List Bool
only id j zero = []
only id j (suc n) = (j == id) ∷ only id (suc j) n

-- The chosen section is at most the number of items, and its item alone is marked.
pub record IsSelected (box : Box) : Type 0 where
  pub bound : box.search_index ≤ select_item_count box
  pub marks : item_marks box.nodes ≡ only box.search_index 0 (select_item_count box)

set_items-marks :
    (ns : List SelectNode) (j id : ℕ)
    → (count_items (set_items ns j id) ≡ count_items ns)
      × (item_marks (set_items ns j id) ≡ only id j (count_items ns))
unfolding count_items set_items
set_items-marks [] j id = (refl, refl)
set_items-marks (n ∷ ns) j id =
    let after = set_items-marks ns (suc j) id in
    let skip = set_items-marks ns j id in
    elim (Bool-cases (n.is_item)) [
      | inl item ↦ (simp (item, after.0), simp (item, after.1))
      | inr other ↦ (simp (other, skip.0), simp (other, skip.1))
    ]

-- What choosing a section leaves behind; it throws only when the section does not exist.
abbrev pub IsChosen : List Section → ℕ → ℕ → Option Box → Type 0
IsChosen sections count id none = length sections ≤ id
IsChosen sections count id (some box) =
    IsSelected box × (select_item_count box ≡ count) × (box.search_index ≡ id)

get_elem?-none : {A : Type 0} (xs : List A) (i : ℕ) → get_elem? xs i ≡ none → length xs ≤ i
get_elem?-none [] i h = omega arith
get_elem?-none (x ∷ xs) zero h = absurd (ground arith)
get_elem?-none (x ∷ xs) (suc i) h = omega (arith, get_elem?-none xs i h)

get_elem?-past : {A : Type 0} (xs : List A) (i : ℕ) → length xs ≤ i → get_elem? xs i ≡ none
get_elem?-past [] i h = refl
get_elem?-past (x ∷ xs) zero h = absurd (omega arith)
get_elem?-past (x ∷ xs) (suc i) h = get_elem?-past xs i (omega arith)

pub on_select_item-IsChosen :
    (b : Browser) (above_one : Str → Bool) (results_path : Str) (sections : List Section)
    (box : Box) (id : ℕ)
    → id ≤ select_item_count box
    → IsChosen sections
        (select_item_count box)
        id
        (on_select_item b above_one results_path sections box id)
unfolding on_select_item select_item_set search_box select_item_count
on_select_item-IsChosen b above_one results_path sections box id h =
    let (count, marks) = set_items-marks box.nodes 0 id in
    let after : List SelectNode = set_items box.nodes 0 id in
    let bound : id ≤ count_items after = subst (λ n. id ≤ n) (sym count) h in
    let marked : item_marks after ≡ only id 0 (count_items after) =
      marks ∙ ap (only id 0) (sym count) in
    elim (Bool-cases (not (same (strip_spaces box.field) []) && box.search_active)) [
      | inr idle ↦ simp (idle) (record { bound = bound; marks = marked }, count, refl)
      | inl active ↦ elim (Option-cases (get_elem? sections id)) [
        | inl gone ↦ simp (active, search_box, gone) (get_elem?-none sections id gone)
        | inr (section, found) ↦
            simp (active, search_box, found) (record { bound = bound; marks = marked }, count, refl)
      ]
    ]

-- After a key the selection is in order, the items are as many as before, and the chosen section
-- has moved by one or not at all. The handler throws only when the section moved to does not
-- exist.
abbrev pub IsMoved : List Section → Box → ℕ → Option Box → Type 0
IsMoved sections box key none =
    length sections ≤ box.search_index ⊎ ((key ≡ 40) × (length sections ≤ suc box.search_index))
IsMoved sections box key (some after) =
    IsSelected after
    × (select_item_count after ≡ select_item_count box)
    × (((key ≡ 40) × (after.search_index ≡ suc box.search_index))
        ⊎ (((key ≡ 38) × (suc after.search_index ≡ box.search_index))
            ⊎ (after.search_index ≡ box.search_index)))

IsChosen-down :
    (sections : List Section) (box : Box) (key : ℕ) (r : Option Box)
    → key ≡ 40
    → IsChosen sections (select_item_count box) (suc box.search_index) r
    → IsMoved sections box key r
IsChosen-down sections box key none e h = inr (e, h)
IsChosen-down sections box key (some after) e (good, count, index) = (good, count, inl (e, index))

IsChosen-up :
    (sections : List Section) (box : Box) (key : ℕ) (r : Option Box)
    → key ≡ 38
    → 0 < box.search_index
    → IsChosen sections (select_item_count box) (box.search_index - 1) r
    → IsMoved sections box key r
IsChosen-up sections box key none e l h = inl (omega arith)
IsChosen-up sections box key (some after) e l (good, count, index) =
    (good, count, inr (inl (e, omega arith)))

IsChosen-close :
    (sections : List Section) (box : Box) (key : ℕ) (r : Option Box)
    → IsChosen sections (select_item_count box) box.search_index r
    → IsMoved sections box key
        (elim r [ none ↦ none | some chosen ↦ some (close_selection_window chosen) ])
unfolding close_selection_window select_item_count
IsChosen-close sections box key none h = inl h
IsChosen-close sections box key (some after) (good, count, index) =
    (record { bound = good.bound; marks = good.marks }, count, inr (inr index))

-- From a selection in order (the chosen section is at most the number of items, and its item alone
-- is marked) a key in the menu leaves it in order, with as many items: Down moves it up by one or
-- not at all, Up down by one or not at all, and no other key moves it. The handler throws only
-- where the section that it goes to, or is at, is not one of the index.
pub on_search_select_key-IsMoved :
    (b : Browser) (above_one : Str → Bool) (results_path : Str) (sections : List Section)
    (box : Box) (key : ℕ)
    → IsSelected box
    → IsMoved sections box key (on_search_select_key b above_one results_path sections box key)
unfolding on_search_select_key
on_search_select_key-IsMoved b above_one results_path sections box key good =
    let choose = on_select_item-IsChosen b above_one results_path sections box in
    elim (Bool-cases (key == 40 && ltb box.search_index (select_item_count box))) [
      | inl down ↦ simp (down) (
          IsChosen-down sections box key _ (ground arith)
            (choose (suc box.search_index) (ground arith)))
      | inr not_down ↦ elim (Bool-cases (key == 38 && ltb 0 box.search_index)) [
        | inl up ↦
            simp (not_down, up)
              (IsChosen-up sections box key _ (ground arith) (ground arith)
                (choose (box.search_index - 1) (omega (arith, good.bound))))
        | inr not_up ↦ elim (Bool-cases (key == 13 || key == 27)) [
          | inl close ↦
              simp (not_down, not_up, close)
                (IsChosen-close sections box key _ (choose box.search_index good.bound))
          | inr other ↦ simp (not_down, not_up, other) (good, refl, inr (inr refl))
        ]
      ]
    ]

-- With as many sections in the index as items in the menu, the last one chosen, the panel active
-- and words other than spaces in the field, the key Down makes the handler throw.
pub on_search_select_key-past_end :
    (b : Browser) (above_one : Str → Bool) (results_path : Str) (sections : List Section)
    (box : Box)
    → length sections ≡ select_item_count box
    → suc box.search_index ≡ length sections
    → box.search_active ≡ true
    → same (strip_spaces box.field) [] ≡ false
    → on_search_select_key b above_one results_path sections box 40 ≡ none
unfolding on_search_select_key on_select_item search_box select_item_set
on_search_select_key-past_end b above_one results_path sections box fits last active words =
    let below : ltb box.search_index (select_item_count box) ≡ true = ground arith in
    let past : get_elem? sections (suc box.search_index) ≡ none =
      get_elem?-past sections (suc box.search_index) (omega arith) in
    simp (below, words, active, search_box, past)
