-- ===== src/Menu/Start/Tests.antt =====
-- A page below "../", with searching, in a window that becomes narrow; a menu of two levels.
use mathlib.Core.List.{flatten}
use embedded_linux.Common.{◌≡◌, refl, true, false, Option, none, some, [], ◌∷◌, ◌++◌, arith, ltb}
use embedded_linux.Common.Codes.{codes}
use embedded_linux.Search.{hidden}
use embedded_linux.Search.Box.{Box}
use embedded_linux.Menu.{has_close, close_results, narrow, wide, reset_state}
use embedded_linux.Menu.Tree.{
  Children, leaf, children, nil, cons, menudata, link_url, make_tree, make_items,
}
use embedded_linux.Menu.Tree.Read.{read_tree, resolved}
use embedded_linux.Menu.Tree.RoundTrip.{read_tree-make_tree}
use embedded_linux.Menu.Start.{search_box_html, server_box, init_menu}
use embedded_linux.Menu.Start.Resized.{resized}
use embedded_linux.Menu.Start.Placed.{found_shown, init_menu-placed}

-- "a", to "x.html", over "b", to "^/y".
abbrev two_levels : Children
two_levels =
    children
      (cons (codes "a") (codes "x.html") (children (cons (codes "b") (codes "^/y") leaf nil)) nil)

two_levels-html :
    make_tree (codes "../") two_levels
    ≡ codes "<ul><li><a href=\"../x.html\">a</a><ul><li><a href=\"/y\">b</a></li></ul></li></ul>"
unfolding make_tree make_items link_url
two_levels-html = refl

menudata-html :
    make_tree [] menudata ≡ codes "<ul><li><a href=\"index.html\">Main Page</a></li></ul>"
unfolding make_tree make_items link_url
menudata-html = refl

server_box-page : server_box [] (codes "search.php") (codes "Search") ≡ (
    codes
      "<div id=\"MSearchBox\" class=\"MSearchBoxInactive\"><div class=\"left\"><form id=\"FSearchBox\""
    ++ (codes " action=\"search.php\" method=\"get\"><span id=\"MSearchSelectExt\">&#160;</span>"
        ++ (codes
              "<input type=\"text\" id=\"MSearchField\" name=\"query\" value=\"\" placeholder=\"Search\""
            ++ (codes " size=\"20\" accesskey=\"S\" onfocus=\"searchBox.OnSearchFieldFocus(true)\""
                ++ codes
                    " onblur=\"searchBox.OnSearchFieldFocus(false)\"/></form></div><div class=\"right\"></div></div>"))))
unfolding server_box flatten
server_box-page = refl

read_tree-make_tree_example :
    read_tree 7 (make_tree (codes "../") two_levels) ≡ some (resolved (codes "../") two_levels, [])
unfolding link_url
read_tree-make_tree_example =
    read_tree-make_tree (codes "../") two_levels 7 (omega arith)
      (refl, refl, (refl, refl, tt, tt), tt)

-- A panel on a page with its own search box; and on a page whose server searches.
abbrev panel : Option Box
panel = some (record {
  key_timeout = 0;
  hide_timeout = 0;
  last_search_value = [];
  last_results_page = [];
  search_index = 0;
  search_active = false;
  field = [];
  box_active = false;
  results_window = hidden;
  search_close = hidden;
  select_window = hidden;
  nodes = [];
  next_timer = 1;
  pending = [];
  request = none;
})

init_menu-placed_example :
    let html = search_box_html [] true false [] (codes "Search") in
    let m =
      resized html
        (1000 ∷ 500 ∷ [])
        (init_menu [] true false [] (codes "Search") menudata true panel true 900).menu in
    (m.prev_width ≡ 500)
    × (found_shown m.first_place m.second_place m.second_shown ≡ some true)
    × (m.first_place ≡ html)
    × (ltb 500 768 ≡ false → m.second_place ≡ html)
    × (m.menu_shown ≡ false)
init_menu-placed_example =
    init_menu-placed [] true false [] (codes "Search") menudata true panel true 900
      (1000 ∷ 500 ∷ []) (omega arith, (omega arith, (omega arith, tt)))

server_box_throws :
    (init_menu [] true true (codes "search.php") [] menudata true panel true 900).menu.prev_width
    ≡ 0
unfolding init_menu reset_state close_results search_box_html has_close wide narrow
server_box_throws = refl
