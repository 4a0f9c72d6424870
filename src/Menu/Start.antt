-- ===== src/Menu/Start.antt =====
-- `initMenu` of docs/html/menu.js: what it adds to the page, and the first `resetState`. Of the
-- element with the list of the menu, jQuery's `before` and `append` are given these texts.
pub mod Resized
pub mod Placed
mod Tests
use mathlib.Core.List.{flatten}
use embedded_linux.Common.{
  ℕ, Bool, true, false, Option, none, some, List, [], ◌∷◌, is_some, if◌then◌else◌,
}
use embedded_linux.Common.Codes.{codes}
use embedded_linux.Search.{Str}
use embedded_linux.Search.Box.{Box}
use embedded_linux.Menu.{Menu, BoxHtml, reset_state}
use embedded_linux.Menu.Tree.{Children, make_tree}

-- The search box of a page whose server searches.
unfoldable pub server_box : Str → Str → Str → Str
server_box rel_path page search = flatten (
    codes "<div id=\"MSearchBox\" class=\"MSearchBoxInactive\"><div"
    ∷ codes " class=\"left\"><form id=\"FSearchBox\" action=\""
    ∷ rel_path
    ∷ page
    ∷ codes "\" method=\"get\"><span id=\"MSearchSelectExt\">&#160;</span><input"
    ∷ codes " type=\"text\" id=\"MSearchField\" name=\"query\" value=\"\" placeholder=\""
    ∷ search
    ∷ codes "\" size=\"20\" accesskey=\"S\""
    ∷ codes " onfocus=\"searchBox.OnSearchFieldFocus(true)\""
    ∷ codes " onblur=\"searchBox.OnSearchFieldFocus(false)\"/></form></div><div"
    ∷ codes " class=\"right\"></div></div>"
    ∷ [])

-- The search box of a page that searches itself.
unfoldable pub client_box : Str → Str → Str
client_box rel_path search = flatten (
    codes "<div id=\"MSearchBox\" class=\"MSearchBoxInactive\"><span"
    ∷ codes " class=\"left\"><span id=\"MSearchSelect\" onmouseover=\"return"
    ∷ codes " searchBox.OnSearchSelectShow()\" onmouseout=\"return"
    ∷ codes " searchBox.OnSearchSelectHide()\">&#160;</span><input type=\"text\""
    ∷ codes " id=\"MSearchField\" value=\"\" placeholder=\""
    ∷ search
    ∷ codes "\" accesskey=\"S\" onfocus=\"searchBox.OnSearchFieldFocus(true)\""
    ∷ codes " onblur=\"searchBox.OnSearchFieldFocus(false)\""
    ∷ codes " onkeyup=\"searchBox.OnSearchFieldChange(event)\"/></span><span"
    ∷ codes " class=\"right\"><a id=\"MSearchClose\""
    ∷ codes " href=\"javascript:searchBox.CloseResultsWindow()\"><img"
    ∷ codes " id=\"MSearchCloseImg\" border=\"0\" src=\""
    ∷ rel_path
    ∷ codes "search/close.svg\" alt=\"\"/></a></span></div>"
    ∷ [])

-- `searchBoxHtml`, none if searching is not enabled; the element `MSearchClose` is in the second.
unfoldable pub search_box_html : Str → Bool → Bool → Str → Str → Option BoxHtml
search_box_html rel_path false server_side page search = none
search_box_html rel_path true true page search =
    some (record { text = server_box rel_path page search; closes = false })
search_box_html rel_path true false page search =
    some (record { text = client_box rel_path search; closes = true })

-- The bar before the menu: the button for a narrow window and the first place of the search box.
abbrev pub menu_bar : Str
menu_bar = flatten (
    codes "<div class=\"sm sm-dox\"><input id=\"main-menu-state\""
    ∷ codes " type=\"checkbox\"/><label class=\"main-menu-btn\""
    ∷ codes " for=\"main-menu-state\"><span class=\"main-menu-btn-icon\"></span> Toggle"
    ∷ codes " main menu visibility</label><span id=\"searchBoxPos1\""
    ∷ codes " style=\"position:absolute;right:8px;top:8px;height:36px;\"></span></div>"
    ∷ [])

-- `<li id="searchBoxPos2" ..></li>`, the second place of the search box.
abbrev pub second_place : Str
second_place = codes "<li id=\"searchBoxPos2\" style=\"float:right\"></li>"

-- What is put before the element `main-nav`, in it, and at the end of its list; and the menu.
pub record Installed : Type 0 where
  pub bar : Str
  pub tree : Str
  pub last_item : Option Str
  pub menu : Menu

-- The new elements: the box of the button is not checked, the places are empty, `prevWidth` is 0.
abbrev pub fresh_menu : Bool → Option Box → Bool → Menu
fresh_menu displayed box has_results = record {
  checked = false;
  menu_shown = displayed;
  first_place = none;
  second_place = none;
  second_shown = true;
  prev_width = 0;
  search_box = box;
  has_results = has_results;
}

-- `initMenu(relPath,searchEnabled,serverSide,searchPage,search)` and the call of `resetState` when
-- the page is ready, in a window of that width.
unfoldable pub init_menu :
    Str → Bool → Bool → Str → Str → Children → Bool → Option Box → Bool → ℕ → Installed
init_menu rel_path enabled server_side page search menu displayed box has_results width =
    let html = search_box_html rel_path enabled server_side page search in
    record {
      bar = menu_bar;
      tree = make_tree rel_path menu;
      last_item = if is_some html then some second_place else none;
      menu = reset_state html width (fresh_menu displayed box has_results);
    }
