-- ===== src/Search/Popup/Start.antt =====
-- `init_search` and the keys on the selector (docs/html/search/search.js).
use embedded_linux.Common.{
  ℕ, ◌+◌, ◌≡◌, refl, ◌∙◌, Bool, not, ◌||◌, inl, inr, Bool-cases, Option, none, some, List, [], ◌∷◌,
  ◌++◌, arith, length, ◌==◌, if◌then◌else◌,
}
use embedded_linux.Search.{Str, is_block, Browser}
use embedded_linux.Search.Box.{
  Box, Section, SelectNode, count_items, select_item_count, on_search_select_show,
  close_selection_window,
}
use embedded_linux.Search.Box.Selection.{IsSelected, IsChosen, on_select_item-IsChosen}
use embedded_linux.Search.Popup.{select_links, init_search, on_selector_key}

count_items-select_links :
    (ns : List SelectNode) (labels : List Str)
    → count_items (ns ++ select_links labels) ≡ count_items ns + length labels
unfolding count_items select_links
count_items-select_links [] [] = refl
count_items-select_links [] (l ∷ labels) = omega (arith, count_items-select_links [] labels)
count_items-select_links (n ∷ ns) labels = elim (Bool-cases n.is_item) [
  | inl e ↦ simp (e) (omega (arith, count_items-select_links ns labels))
  | inr e ↦ simp (e) (count_items-select_links ns labels)
]

-- What `init_search` leaves: an item for each label, the first section chosen and its item alone
-- marked.
abbrev pub IsStarted : List Section → Box → List Str → Option Box → Type 0
IsStarted sections box labels none = length sections ≡ 0
IsStarted sections box labels (some after) =
    IsSelected after
    × (select_item_count after ≡ select_item_count box + length labels)
    × (after.search_index ≡ 0)

IsChosen-IsStarted :
    (sections : List Section) (box : Box) (labels : List Str) (count : ℕ) (r : Option Box)
    → count ≡ select_item_count box + length labels
    → IsChosen sections count 0 r
    → IsStarted sections box labels r
IsChosen-IsStarted sections box labels count none e h = omega (arith, h)
IsChosen-IsStarted sections box labels count (some after) e (good, counted, index) =
    (good, counted ∙ e, index)

-- `init_search` adds an item to the menu for each label and chooses the first section: it is the
-- section of the search, and its item alone is marked. It throws only when the index has no
-- sections.
pub init_search-IsStarted :
    (b : Browser) (above_one : Str → Bool) (results_path : Str) (sections : List Section)
    (labels : List Str) (box : Box)
    → IsStarted sections box labels (init_search b above_one results_path sections labels box)
unfolding init_search select_item_count
init_search-IsStarted b above_one results_path sections labels box =
    let filled : Box = record box { nodes = box.nodes ++ select_links labels } in
    IsChosen-IsStarted sections box labels (select_item_count filled) _
      (count_items-select_links box.nodes labels)
      (on_select_item-IsChosen b above_one results_path sections filled 0 (omega arith))

-- Enter or Down on the selector opens the menu if it is closed and closes it if it is open;
-- another key does neither.
pub on_selector_key_lem :
    (box : Box) (key : ℕ)
    → is_block (on_selector_key box key).select_window ≡ (
        if key == 13 || key == 40
        then not (is_block box.select_window)
        else is_block box.select_window)
unfolding on_selector_key on_search_select_show close_selection_window is_block
on_selector_key_lem box key = elim (Bool-cases (key == 13 || key == 40)) [
  | inr e ↦ simp (e)
  | inl e ↦ elim (Bool-cases (is_block box.select_window)) [
    | inl shown ↦ simp (e, shown)
    | inr closed ↦ elim (Bool-cases (not (box.hide_timeout == 0))) [
      | inl timer ↦ simp (e, closed, timer)
      | inr quiet ↦ simp (e, closed, quiet)
    ]
  ]
]
