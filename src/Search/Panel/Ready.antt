-- ===== src/Search/Panel/Ready.antt =====
-- A panel that was just made is in order (docs/html/search/search.js).
use mathlib.Core.Path.{subst}
use embedded_linux.Common.{
  ℕ, ◌+◌, ◌<◌, ◌≡◌, refl, Bool, false, not, ◌&&◌, Option, none, some, List, [], ◌++◌, arith, length,
}
use embedded_linux.Search.{Str, same, Browser}
use embedded_linux.Search.Box.{
  Box, Section, strip_spaces, count_items, select_item_count, select_item_set, on_select_item,
}
use embedded_linux.Search.Box.Selection.{IsSelected}
use embedded_linux.Search.Navigate.Timers.{IsTimed}
use embedded_linux.Search.Popup.{select_links, init_search}
use embedded_linux.Search.Popup.Start.{IsStarted, init_search-IsStarted}
use embedded_linux.Search.Panel.{Document, new_search_box, start_panel}

-- An inactive panel only chooses an item.
on_select_item_idle :
    (b : Browser) (above_one : Str → Bool) (path : Str) (sections : List Section) (box : Box)
    (id : ℕ)
    → box.search_active ≡ false
    → on_select_item b above_one path sections box id
      ≡ some (select_item_set (record box { search_index = id }) id)
unfolding on_select_item
on_select_item_idle b above_one path sections box id e =
    let idle : (not (same (strip_spaces box.field) []) && box.search_active) ≡ false =
      ground arith in
    simp (on_select_item, idle)

-- When the page is ready, its search panel is in order, whatever the index and the page: nothing
-- throws, the menu has an item more for each section's label and the first is chosen and alone
-- marked, no search waits, and no results file was asked for.
pub start_panel-IsReady :
    (b : Browser) (above_one : Str → Bool) (sections : List Section) (labels : List Str)
    (name path : Str) (extension : Option Str) (d : Document)
    → 0 < d.next_timer
    → (after : Box) × (start_panel b above_one sections labels name path extension d ≡ some after)
      × IsSelected after
      × IsTimed after
      × (select_item_count after ≡ count_items d.nodes + length labels)
      × (after.search_index ≡ 0)
      × (after.request ≡ none)
unfolding start_panel new_search_box init_search select_item_set select_item_count
start_panel-IsReady b above_one sections labels name path extension d first =
    let box : Box = (new_search_box name path extension d).1 in
    let filled : Box = record box { nodes = box.nodes ++ select_links labels } in
    let run = on_select_item_idle b above_one path sections filled 0 refl in
    let (selected, count, index) =
      subst (IsStarted sections box labels) run
        (init_search-IsStarted b above_one path sections labels box) in
    (
      select_item_set (record filled { search_index = 0 }) 0,
      run,
      selected,
      record { first = first; numbered = tt; keyed = tt; known = first },
      count,
      index,
      refl,
    )
