-- ===== src/Menu.antt =====
-- The menu of a page of the documentation and the place of its search box (docs/html/menu.js).
-- What jQuery's `show`, `hide`, `html` and `empty` do to an element is written into the state.
pub mod Tree
pub mod Start
use embedded_linux.Common.{
  ℕ, Bool, true, false, not, ◌||◌, Option, none, some, ltb, ◌==◌, if◌then◌else◌,
}
use embedded_linux.Search.{Str, hidden}
use embedded_linux.Search.Box.{Box, close_results_window}

-- The markup of a search box, and whether it has an element `MSearchClose`.
pub record BoxHtml : Type 0 where
  pub text : Str
  pub closes : Bool

-- `#main-menu-state` and `#main-menu`, the two places of the search box (`#searchBoxPos1` stands
-- before `#searchBoxPos2` in the document and is not hidden by the script), `prevWidth`, the object
-- `searchBox` if there is one, and whether the page has an element `MSearchResultsWindow`.
pub record Menu : Type 0 where
  pub checked : Bool
  pub menu_shown : Bool
  pub first_place : Option BoxHtml
  pub second_place : Option BoxHtml
  pub second_shown : Bool
  pub prev_width : ℕ
  pub search_box : Option Box
  pub has_results : Bool

-- `document.getElementById("MSearchClose")` finds an element.
unfoldable pub has_close : Option BoxHtml → Bool
has_close none = false
has_close (some html) = html.closes

-- `if (typeof searchBox!=='undefined') searchBox.CloseResultsWindow()`, and whether it came to its
-- end: it throws at the first element that the document does not have.
unfoldable pub close_results : Menu → Menu × Bool
close_results m = elim (m.search_box) [
  | none ↦ (m, true)
  | some box ↦
      if not m.has_results
      then (m, false)
      else if has_close m.first_place || has_close m.second_place
      then (record m { search_box = some (close_results_window box) }, true)
      else (record m { search_box = some (record box { results_window = hidden }) }, false)
]

-- The menu of a narrow window.
unfoldable pub narrow : Option BoxHtml → Menu → Menu
narrow html m = record m {
  checked = false;
  menu_shown = false;
  first_place = html;
  second_shown = false;
}

-- The menu of a wide window.
unfoldable pub wide : Option BoxHtml → Menu → Menu
wide html m = record m {
  menu_shown = true;
  first_place = none;
  second_place = html;
  second_shown = true;
}

-- `resetState()` in a window of that width; `html` is `searchBoxHtml`, none if searching is not
-- enabled. The width is kept if nothing was thrown before.
unfoldable pub reset_state : Option BoxHtml → ℕ → Menu → Menu
reset_state html width m =
    if width == m.prev_width
    then m
    else let (closed, done) =
        close_results (if ltb width 768 then narrow html m else wide html m) in
      if done then record closed { prev_width = width } else closed

-- The handler of a change of `#main-menu-state`, when its animation has ended.
unfoldable pub on_menu_state : Bool → Menu → Menu
on_menu_state checked m = record m { checked = checked; menu_shown = checked }
