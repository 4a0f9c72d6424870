-- ===== src/Search/Popup.antt =====
-- What happens when a results file has loaded (`handleResults` in `SearchBox.Search` of
-- docs/html/search/search.js), where the windows appear (`getXPos`, `getYPos`), and `init_search`.
-- Positions are numbers of pixels from the document's upper left corner.
pub mod Fit
pub mod Loaded
pub mod Start
mod Tests
use mathlib.Core.Option
use embedded_linux.Common.{
  ℕ, zero, suc, ◌+◌, ◌-◌, Bool, true, false, ◌||◌, Option, none, some, List, [], ◌∷◌, ◌++◌, map,
  ltb, ◌==◌, if◌then◌else◌,
}
use embedded_linux.Search.{
  Str, Display, unset, hidden, block, inline_block, is_block, Browser, Children, Div, Page,
}
use embedded_linux.Search.Results.{search}
use embedded_linux.Search.Tree.{
  Node, Nodes, no_nodes, cons, Value, text, script, attribute, attr_id, attr_class, child_nodes,
  find_child,
}
use embedded_linux.Search.Build.{Entry, make_row}
use embedded_linux.Search.Box.{
  Box, Section, SelectNode, on_select_item, on_search_select_show, close_selection_window,
}

-- An element on the chain of `offsetParent`, below `document.body`.
pub record Offset : Type 0 where
  pub offset_left : ℕ
  pub offset_top : ℕ

-- The loop of `getXPos`, over the item and the elements that contain it.
unfoldable pub sum_left : List Offset → ℕ
sum_left [] = 0
sum_left (o ∷ os) = o.offset_left + sum_left os

unfoldable pub sum_top : List Offset → ℕ
sum_top [] = 0
sum_top (o ∷ os) = o.offset_top + sum_top os

-- `getXPos(item)`, by the item's `offsetWidth`.
unfoldable pub get_x_pos : ℕ → List Offset → ℕ
get_x_pos width chain = if width == 0 then 0 else sum_left chain

-- `getYPos(item)`
unfoldable pub get_y_pos : ℕ → List Offset → ℕ
get_y_pos width chain = if width == 0 then 0 else sum_top chain

-- The layout of the page: the search box, and the widths that the browser gives.
pub record Layout : Type 0 where
  pub box_width : ℕ
  pub box_chain : List Offset
  pub popup_width : ℕ
  pub max_width : ℕ
  pub max_height : ℕ

-- A length in a style is none where the script computes a negative one.
pub record Frame : Type 0 where
  pub top : ℕ
  pub left : ℕ
  pub width : Option ℕ
  pub height : Option ℕ

-- `if (size+from+8>limit) size=limit-from-8`
unfoldable pub clip : ℕ → ℕ → ℕ → Option ℕ
clip size from limit =
    if ltb limit (size + from + 8)
    then (if ltb limit (from + 8) then none else some (limit - from - 8))
    else some size

-- `left -= offsetWidth; if (left<10) left=10`
unfoldable pub popup_left : Layout → ℕ
popup_left l =
    let left = (get_x_pos l.box_width l.box_chain + 150) - l.popup_width in
    if ltb left 10 then 10 else left

-- Where the window of the results appears.
unfoldable pub popup_frame : Layout → Frame
popup_frame l =
    let top = get_y_pos l.box_width l.box_chain + 20 in
    record {
      top = top;
      left = popup_left l;
      width = clip 300 (popup_left l) l.max_width;
      height = clip 400 top l.max_height;
    }

unfoldable pub text_of : Option Value → Str
text_of none = []
text_of (some (text s)) = s
text_of (some (script c)) = []

unfoldable pub count_nodes : Nodes → ℕ
count_nodes no_nodes = 0
count_nodes (cons n rest) = suc (count_nodes rest)

-- A row of results as the rest of the script reads it; e is the number of its link.
unfoldable pub row_div : ℕ → Node → Div
row_div e row = record {
  class_name = text_of (attribute row attr_class);
  id = text_of (attribute row attr_id);
  display = unset;
  item = some e;
  children =
      Option.map (λ n. record { display = unset; count = count_nodes (child_nodes n) })
        (find_child row);
}

unfoldable pub row_divs : Str → ℕ → List Entry → List Div
row_divs results_path e [] = []
row_divs results_path e (d ∷ ds) =
    row_div e (make_row results_path e d) ∷ row_divs results_path (suc e) ds

-- "===="
abbrev pub no_word : Str
no_word = 61 ∷ 61 ∷ 61 ∷ 61 ∷ []

-- What `handleResults` changes: the box, the page of results, the note 'Loading', and the frame of
-- the window of the results.
pub record View : Type 0 where
  pub box : Box
  pub page : Page
  pub loading : Display
  pub frame : Option Frame

-- The divs of the page once the rows are built: those outside of `SRResults`, and the rows.
unfoldable pub load_rows : Str → List Div → Option (List Entry) → Page → Page
load_rows results_path outer none page = page
load_rows results_path outer (some entries) page = record page {
  divs = outer ++ row_divs results_path 0 entries;
  no_matches = hidden;
}

-- The word that is searched: without a results file, one that nothing matches.
unfoldable pub searched_word : Option Str × Str → Str
searched_word (none, word) = no_word
searched_word (some file, word) = word

-- `handleResults()`: `search_data` is the global `searchData`, none while no file has defined it,
-- and `outer` the divs of the document that stand outside of `SRResults`.
unfoldable pub handle_results :
    Browser → Layout → Str → List Div → Option (List Entry) → Option Str × Str → View → View
handle_results b layout results_path outer search_data request v =
    let page =
      (search b (load_rows results_path outer search_data v.page) (searched_word request)).0 in
    if is_block v.box.results_window then record v { page = page; loading = hidden } else record {
      box = record (v.box) { results_window = block; search_close = inline_block };
      page = page;
      loading = hidden;
      frame = some (popup_frame layout);
    }

-- The loop of `init_search`: a link of the class `SelectItem` for each label.
unfoldable pub select_links : List Str → List SelectNode
select_links [] = []
select_links (label ∷ labels) = record { is_item = true; marked = false } ∷ select_links labels

-- `init_search()`
unfoldable pub init_search :
    Browser → (Str → Bool) → Str → List Section → List Str → Box → Option Box
init_search b above_one results_path sections labels box =
    on_select_item b above_one results_path sections
      (record box { nodes = box.nodes ++ select_links labels }) 0

-- The listener for keys on the selector; the focus that it gives to the window is left out.
unfoldable pub on_selector_key : Box → ℕ → Box
on_selector_key box key =
    if key == 13 || key == 40
    then (if is_block box.select_window
        then close_selection_window box
        else on_search_select_show box)
    else box
