-- ===== src/Search/Panel.antt =====
-- The search panel from its creation to the first results (docs/html/search/search.js): the
-- constructor `SearchBox`, the place of the selection menu, and `Search` as a whole.
pub mod Ready
pub mod Asked
mod Tests
use embedded_linux.Common.{ℕ, ◌+◌, Bool, true, false, Option, none, some, List, [], ◌∷◌}
use embedded_linux.Common.Codes.{codes}
use embedded_linux.Search.{Str, Display, Browser, Div}
use embedded_linux.Search.Box.{Box, Section, SelectNode, search_box}
use embedded_linux.Search.Build.{Entry}
use embedded_linux.Search.Popup.{
  Offset, get_x_pos, get_y_pos, Layout, View, init_search, handle_results,
}

-- The fields of a `SearchBox` that do not change.
pub record Settings : Type 0 where
  pub name : Str
  pub results_path : Str
  pub key_timeout_length : ℕ
  pub close_selection_timeout : ℕ
  pub extension : Str

-- The page that a `SearchBox` is made for, and the number of the next timer.
pub record Document : Type 0 where
  pub field : Str
  pub box_active : Bool
  pub results_window : Display
  pub search_close : Display
  pub select_window : Display
  pub nodes : List SelectNode
  pub next_timer : ℕ

-- `if (!extension || extension == "") { extension = ".html"; }`
unfoldable pub extension_or_html : Option Str → Str
extension_or_html none = codes ".html"
extension_or_html (some []) = codes ".html"
extension_or_html (some (c ∷ s)) = c ∷ s

-- `new SearchBox(name, resultsPath, extension)`; a box that waits for nothing.
unfoldable pub new_search_box : Str → Str → Option Str → Document → Settings × Box
new_search_box name results_path extension d = (
  record {
    name = name;
    results_path = results_path;
    key_timeout_length = 500;
    close_selection_timeout = 300;
    extension = extension_or_html extension;
  },
  record {
    key_timeout = 0;
    hide_timeout = 0;
    last_search_value = [];
    last_results_page = [];
    search_index = 0;
    search_active = false;
    field = d.field;
    box_active = d.box_active;
    results_window = d.results_window;
    search_close = d.search_close;
    select_window = d.select_window;
    nodes = d.nodes;
    next_timer = d.next_timer;
    pending = [];
    request = none;
  },
)

-- The page when it is ready: a new box, and `init_search`.
unfoldable pub start_panel :
    Browser
    → (Str → Bool)
    → List Section
    → List Str
    → Str
    → Str
    → Option Str
    → Document
    → Option Box
start_panel b above_one sections labels name results_path extension d =
    let (settings, box) = new_search_box name results_path extension d in
    init_search b above_one settings.results_path sections labels box

-- Where `OnSearchSelectShow` puts the menu: below the selector, which has this width and height.
unfoldable pub select_place : ℕ → ℕ → List Offset → ℕ × ℕ
select_place width height chain = (get_x_pos width chain, get_y_pos width chain + height)

-- `if (jsFile) loadJS(jsFile, handleResults, ..) else handleResults()`: with a file, the results
-- are handled when it has loaded.
unfoldable pub load_or_handle :
    Browser
    → Str
    → Layout
    → List Div
    → Option (List Entry)
    → View
    → Option (Option Str × Str)
    → View
load_or_handle b results_path layout outer search_data v none = v
load_or_handle b results_path layout outer search_data v (some (some file, word)) = v
load_or_handle b results_path layout outer search_data v (some (none, word)) =
    handle_results b layout results_path outer search_data (none, word) v

-- `Search()`
unfoldable pub search_panel :
    Browser
    → (Str → Bool)
    → Str
    → List Section
    → Layout
    → List Div
    → Option (List Entry)
    → View
    → Option View
search_panel b above_one results_path sections layout outer search_data v =
    elim (search_box b above_one results_path sections v.box) [
      | none ↦ none
      | some box ↦ some (
          load_or_handle b results_path layout outer search_data (record v { box = box })
            box.request)
    ]
