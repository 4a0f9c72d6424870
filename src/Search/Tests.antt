-- ===== src/Search/Tests.antt =====
-- The search page on a concrete document.
use embedded_linux.Common.{
  ℕ, ◌≡◌, refl, true, false, some, none, List, [], ◌∷◌, arith, map, ◌==◌, if◌then◌else◌,
}
use embedded_linux.Search.{unset, hidden, block, Browser, Div, Page, on_child, is_block, same}
use embedded_linux.Search.Results.{sr_result, keydown, find_item, nav_next}
use embedded_linux.Search.Results.Focus.{nav_next-IsNext, IsNext}
use embedded_linux.Search.Box.{
  Box, SelectNode, Section, on_search_select_key, strip_spaces, count_items, select_item_count,
}
use embedded_linux.Search.Box.Selection.{
  IsSelected, IsMoved, on_search_select_key-IsMoved, on_search_select_key-past_end,
}
use embedded_linux.Search.Navigate.{child_count, nav_child}
use embedded_linux.Search.Navigate.{Site, on_search_field_change}
use embedded_linux.Search.Navigate.Timers.{IsTimed, on_search_field_change-IsTimed}
use embedded_linux.Search.Box.{search_timer, selection_timer, timer_number}
use embedded_linux.Search.Navigate.{nav}
use embedded_linux.Search.Navigate.Arrows.{nav-IsFocused}
use embedded_linux.Search.Navigate.Reach.{IsFocused, nav_child-IsFocused}

-- A browser that knows the capitals of "SR" only, at an address without a query.
abbrev pub lower_char : ℕ → ℕ
lower_char c = if c == 83 then 115 else if c == 82 then 114 else c

abbrev pub browser : Browser
browser = record { lower = map lower_char; unescape = λ s. s; location_search = [] }

-- A result with two places, displayed, with its links open: `SR_a_5f`, for the name "a_".
abbrev pub row : Div
row = record {
  class_name = sr_result;
  id = 83 ∷ 82 ∷ 95 ∷ 97 ∷ 95 ∷ 53 ∷ 102 ∷ [];
  display = block;
  item = some 0;
  children = some (record { display = block; count = 2 });
}

abbrev pub page : Page
page = record {
  divs = row ∷ [];
  searching = unset;
  no_matches = unset;
  last_match_count = 0;
  last_key = 0;
  repeat_on = false;
  focus = on_child 0 1;
}

-- Three items and three sections; the last is chosen, and there are words to search.
abbrev pub nodes : List SelectNode
nodes =
    record { is_item = true; marked = false }
    ∷ record { is_item = true; marked = false }
    ∷ record { is_item = true; marked = true }
    ∷ []

abbrev pub section : Section
section = record { content = 97 ∷ 98 ∷ []; name = 97 ∷ 108 ∷ 108 ∷ [] }

abbrev pub sections : List Section
sections = section ∷ section ∷ section ∷ []

abbrev pub box : Box
box = record {
  key_timeout = 0;
  hide_timeout = 0;
  last_search_value = [];
  last_results_page = [];
  search_index = 2;
  search_active = true;
  field = 98 ∷ [];
  box_active = true;
  results_window = hidden;
  search_close = hidden;
  select_window = block;
  nodes = nodes;
  next_timer = 1;
  pending = [];
  request = none;
}

box-IsSelected : IsSelected box
unfolding select_item_count count_items
box-IsSelected = record { bound = omega arith; marks = refl }

nav_next-IsNext_example : IsNext page.divs 0 (nav_next page.divs 0)
nav_next-IsNext_example = nav_next-IsNext page.divs 0

on_search_select_key-IsMoved_example :
    IsMoved sections box 38 (on_search_select_key browser (λ _. false) [] sections box 38)
on_search_select_key-IsMoved_example =
    on_search_select_key-IsMoved browser (λ _. false) [] sections box 38 box-IsSelected

on_search_select_key-past_end_example :
    on_search_select_key browser (λ _. false) [] sections box 40 ≡ none
unfolding select_item_count count_items strip_spaces same
on_search_select_key-past_end_example =
    on_search_select_key-past_end browser (λ _. false) [] sections box refl refl refl refl

nav_child-IsFocused_example :
    IsFocused (nav_child (record { page = page; box = box }) (keydown 40) 0 1)
unfolding find_item child_count is_block
nav_child-IsFocused_example =
    nav_child-IsFocused (record { page = page; box = box }) (keydown 40) 0 1 (row, refl, refl)
      (omega arith) (omega arith)

-- A search waits under number 1; then the words change.
abbrev waiting_box : Box
waiting_box = record box {
  key_timeout = 1;
  next_timer = 3;
  pending = selection_timer 2 ∷ search_timer 1 ∷ [];
}

abbrev waiting_site : Site
waiting_site = record { page = page; box = waiting_box }

waiting-IsTimed : IsTimed waiting_box
unfolding timer_number
waiting-IsTimed = record {
  first = omega arith;
  numbered = ((omega arith, omega arith), ((omega arith, omega arith), tt));
  keyed = (λ e. absurd (omega (arith, e)), (refl, tt));
  known = omega arith;
}

on_search_field_change-IsTimed_example : IsTimed (on_search_field_change waiting_site 98 false).box
on_search_field_change-IsTimed_example =
    on_search_field_change-IsTimed waiting_site 98 false waiting-IsTimed

nav-IsFocused_example : IsFocused (nav (record { page = page; box = box }) (keydown 38) 0)
unfolding find_item child_count is_block
nav-IsFocused_example =
    nav-IsFocused (record { page = page; box = box }) (keydown 38) 0 (row, refl, refl) (omega arith)
