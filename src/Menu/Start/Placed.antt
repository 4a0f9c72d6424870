-- ===== src/Menu/Start/Placed.antt =====
-- Where the search box stands after `initMenu` and `resetState` (docs/html/menu.js), on a page with
-- searching or without.
use embedded_linux.Common.{
  ℕ, ◌<◌, ◌≡◌, refl, ap, ◌∙◌, Bool, true, false, not, ◌&&◌, inl, inr, Bool-cases, Option, none,
  some, List, ◌∷◌, All, arith, ltb, if◌then◌else◌, is_some,
}
use embedded_linux.Search.{Str}
use embedded_linux.Search.Box.{Box}
use embedded_linux.Menu.{Menu, BoxHtml, has_close, reset_state}
use embedded_linux.Menu.Tree.{Children}
use embedded_linux.Menu.Start.{search_box_html, fresh_menu, init_menu}
use embedded_linux.Menu.Start.Resized.{
  resized, last_width, can_close, IsPlaced, reset_state-first, resized-IsSized,
}

-- Whether the first search box in the document, which is the one that `getElementById` finds, can
-- be seen; none if there is no search box.
abbrev pub found_shown : Option BoxHtml → Option BoxHtml → Bool → Option Bool
found_shown (some html) second shown = some true
found_shown none (some html) shown = some shown
found_shown none none shown = none

shown_if_any : Option BoxHtml → Option Bool
shown_if_any none = none
shown_if_any (some html) = some true

IsPlaced-found :
    (html : Option BoxHtml) (width : ℕ) (m : Menu)
    → IsPlaced html width m
    → found_shown m.first_place m.second_place m.second_shown ≡ shown_if_any html
unfolding shown_if_any
IsPlaced-found none width m s =
    let first : m.first_place ≡ none = ground arith in
    let second : m.second_place ≡ none = elim (s.kept) [ inl e ↦ e | inr e ↦ e ] in
    rw (first, second) refl
IsPlaced-found (some html) width m s = elim (Bool-cases (ltb width 768)) [
  | inl small ↦ let first : m.first_place ≡ some html = ground arith in rw first refl
  | inr large ↦
      let first : m.first_place ≡ none = ground arith in
      rw (first, (s.second large).0, (s.second large).1) refl
]

search_box_html_lem :
    (rel_path : Str) (enabled server_side : Bool) (page search : Str)
    → let html = search_box_html rel_path enabled server_side page search in
      (shown_if_any html ≡ (if enabled then some true else none))
      × (has_close html ≡ (enabled && not server_side))
unfolding shown_if_any search_box_html has_close
search_box_html_lem rel_path false server_side page search = (refl, refl)
search_box_html_lem rel_path true true page search = (refl, refl)
search_box_html_lem rel_path true false page search = (refl, refl)

-- After initMenu and any changes of the window's size, all widths above 0: below 768 pixels the menu
-- is hidden and the first place has the search box, from 768 on the menu is shown, the first place
-- is empty and the second place has the search box; the first search box in the document can be
-- seen, and there is none exactly if searching is not enabled. The script's width is the last one,
-- except on a page with a search panel whose search box is the server's, or that has no search box
-- or no window of results: there CloseResultsWindow throws each time, and the width stays 0.
pub init_menu-placed :
    (rel_path : Str) (enabled server_side : Bool) (page search : Str) (menu : Children)
    (displayed : Bool) (box : Option Box) (has_results : Bool) (width : ℕ) (widths : List ℕ)
    → All (λ w. 0 < w) (width ∷ widths)
    → let html = search_box_html rel_path enabled server_side page search in
      let last = last_width width widths in
      let m =
        resized html widths
          (init_menu rel_path enabled server_side page search menu displayed box has_results
            width).menu in
      (m.prev_width
        ≡ (if can_close (is_some box) has_results (enabled && not server_side) then last else 0))
      × (found_shown m.first_place m.second_place m.second_shown
          ≡ (if enabled then some true else none))
      × (m.first_place ≡ (if ltb last 768 then html else none))
      × (ltb last 768 ≡ false → m.second_place ≡ html)
      × (m.menu_shown ≡ not (ltb last 768))
unfolding init_menu
init_menu-placed rel_path enabled server_side page search menu displayed box has_results width
      widths (now, later) =
    let html = search_box_html rel_path enabled server_side page search in
    let (shown, closes) = search_box_html_lem rel_path enabled server_side page search in
    let last = last_width width widths in
    let start = fresh_menu displayed box has_results in
    let s =
      resized-IsSized html (is_some box) has_results width widths (reset_state html width start)
        later
        (reset_state-first html (is_some box) has_results width start now refl refl refl refl) in
    (
      s.prev ∙ ap (λ c. if can_close (is_some box) has_results c then last else 0) closes,
      IsPlaced-found html last _ s.place ∙ shown,
      s.place.first,
      λ large. (s.place.second large).0,
      s.place.menu,
    )
