-- ===== src/Search/Navigate.antt =====
-- Keyboard navigation in docs/html/search/search.js: `Nav` and `NavChild` of the search results
-- and `OnSearchFieldChange` of the search box. A handler that throws returns none.
pub mod Reach
pub mod Timers
pub mod Outline
pub mod Arrows
use embedded_linux.Common.{
  ℕ, zero, suc, ◌+◌, ◌-◌, Bool, true, false, not, ◌||◌, ◌&&◌, Option, none, some, List, [], ◌∷◌,
  ltb, ◌==◌, if◌then◌else◌,
}
use embedded_linux.Search.{
  Str, same, hidden, block, is_block, Children, Div, Page, Focus, on_field, on_item, on_child,
  elsewhere,
}
use embedded_linux.Search.Results.{
  find_item, nav_next, nav_prev, KeyEvent, key_code, process_keys, find_child_element,
  show_children,
}
use embedded_linux.Search.Box.{
  Box, Timer, search_timer, clear_timer, select_item_count, strip_spaces, activate,
  on_search_select_show, close_results_window,
}

-- What the handlers change: the results page and the search box.
pub record Site : Type 0 where
  pub page : Page
  pub box : Box

-- How many links `Item<k>_c0`, `Item<k>_c1`, .. exist, for k one less than the argument.
unfoldable pub child_count : List Div → ℕ → ℕ
child_count divs zero = 0
child_count divs (suc k) = elim (find_item divs k) [
  | none ↦ 0
  | some row ↦ elim (row.children) [ none ↦ 0 | some c ↦ c.count ]
]

unfoldable pub are_open : Option Children → Bool
are_open none = false
are_open (some c) = is_block c.display

-- The loop for the last child, by the rounds left (one more than there are children).
unfoldable pub last_child : ℕ → ℕ → ℕ → ℕ → Focus → Focus
last_child zero count index n found = found
last_child (suc rounds) count index n found =
    let rest = last_child rounds count index (suc n) (on_child (index - 1) n) in
    if ltb n count then rest else found

-- The part of `Nav` for the key Up. `newIndex` is `itemIndex-1`, one less than `item_index`.
unfoldable pub nav_up : Page → ℕ → Focus
nav_up p item_index = elim (nav_prev p.divs item_index) [
  | none ↦ on_field
  | some k ↦ elim (find_item p.divs k) [
    | none ↦ on_field
    | some row ↦
        if are_open (find_child_element p.divs row.id)
        then last_child (suc (child_count p.divs item_index)) (child_count p.divs item_index)
            item_index 0 (on_item k)
        else on_item k
  ]
]

-- The item that `NavNext(index)` finds takes the focus, if there is one.
unfoldable pub focus_next : Page → ℕ → Page
focus_next p index = elim (nav_next p.divs index) [
  | none ↦ p
  | some k ↦ record p { focus = on_item k }
]

-- The part of `Nav` for the key Down.
unfoldable pub nav_down : Page → ℕ → Div → Page
nav_down p item_index row =
    if are_open (find_child_element p.divs row.id) && ltb 0 (child_count p.divs (suc item_index))
    then record p { focus = on_child item_index 0 }
    else focus_next p (suc item_index)

unfoldable pub leave_results : Site → Page → Site
leave_results s p = record {
  page = record p { focus = on_field };
  box = close_results_window s.box;
}

-- `Nav(evt, itemIndex)`, for an event that `ProcessKeys` lets pass.
unfoldable pub nav_key : Site → Page → ℕ → Option (Site × Bool)
nav_key s p item_index =
    let key = p.last_key in
    if key == 38
    then some (record s { page = record p { focus = nav_up p item_index } }, false)
    else if key == 27
    then some (leave_results s p, false)
    else if key == 40 || (key == 39 || key == 37)
    then elim (find_item p.divs item_index) [
      | none ↦ none
      | some row ↦
          let opened = record p { divs = show_children p.divs row.id block } in
          let closed = record p { divs = show_children p.divs row.id hidden } in
          some (
            record s {
              page =
                  if key == 40
                  then nav_down p item_index row
                  else if key == 39
                  then opened
                  else closed;
            },
            false,
          )
    ]
    else some (record s { page = p }, key == 13)

-- `Nav(evt, itemIndex)`
unfoldable pub nav : Site → KeyEvent → ℕ → Option (Site × Bool)
nav s e item_index =
    let (p, acts) = process_keys s.page e in
    if key_code e == 13
    then some (s, true)
    else if not acts
    then some (record s { page = p }, false)
    else nav_key s p item_index

-- `NavChild(evt, itemIndex, childIndex)`, for an event that `ProcessKeys` lets pass. To focus an
-- element that does not exist throws.
unfoldable pub nav_child_key : Site → Page → ℕ → ℕ → Option (Site × Bool)
nav_child_key s p item_index child_index =
    let key = p.last_key in
    let count = child_count p.divs (suc item_index) in
    let at = λ (f : Focus). record s { page = record p { focus = f } } in
    if key == 38
    then (if ltb 0 child_index
        then (if ltb (child_index - 1) count
            then some (at (on_child item_index (child_index - 1)), false)
            else none)
        else elim (find_item p.divs item_index) [
          | none ↦ none
          | some row ↦ some (at (on_item item_index), false)
        ])
    else if key == 40
    then (if ltb (suc child_index) count
        then some (at (on_child item_index (suc child_index)), false)
        else some (record s { page = focus_next p (suc item_index) }, false))
    else if key == 27
    then some (leave_results s p, false)
    else some (record s { page = p }, key == 13)

-- `NavChild(evt, itemIndex, childIndex)`
unfoldable pub nav_child : Site → KeyEvent → ℕ → ℕ → Option (Site × Bool)
nav_child s e item_index child_index =
    let (p, acts) = process_keys s.page e in
    if key_code e == 13
    then some (s, true)
    else if not acts
    then some (record s { page = p }, false)
    else nav_child_key s p item_index child_index

-- The timer of the last key is stopped.
unfoldable pub stop_key_timer : Box → Box
stop_key_timer box =
    if not (box.key_timeout == 0)
    then record box { pending = clear_timer box.key_timeout box.pending; key_timeout = 0 }
    else box

-- The end of `OnSearchFieldChange`: the field's words are new, or it was emptied.
unfoldable pub schedule_search : Box → Box
schedule_search box =
    let value = strip_spaces box.field in
    if same value box.last_search_value
    then box
    else if same value []
    then record box { results_window = hidden; search_close = hidden; last_search_value = [] }
    else record box {
      key_timeout = box.next_timer;
      next_timer = suc box.next_timer;
      pending = search_timer box.next_timer ∷ box.pending;
    }

-- The part of `OnSearchFieldChange` for the key Escape.
unfoldable pub leave_field : Site → Site
leave_field s = record {
  page = record (s.page) { focus = elsewhere };
  box =
      activate
        (record (s.box) { results_window = hidden; search_close = hidden; last_search_value = [] })
        false;
}

-- `OnSearchFieldChange(evt)`, by the key's code and whether Shift is down.
unfoldable pub on_search_field_change : Site → ℕ → Bool → Site
on_search_field_change s key shift =
    let box = stop_key_timer s.box in
    if key == 40 || key == 13
    then (if shift
        then record {
          page =
              if select_item_count box == 0 then s.page else record (s.page) { focus = elsewhere };
          box = on_search_select_show box;
        }
        else record { page = focus_next s.page 0; box = schedule_search box })
    else if key == 27
    then leave_field (record s { box = box })
    else record s { box = schedule_search box }
