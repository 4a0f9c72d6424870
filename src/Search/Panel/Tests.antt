-- ===== src/Search/Panel/Tests.antt =====
-- A panel on a page with three sections, and a search for "b".
use embedded_linux.Common.{◌+◌, ◌≡◌, refl, false, Option, none, some, List, [], ◌∷◌, arith}
use embedded_linux.Common.Codes.{codes}
use embedded_linux.Search.{Str, same, hidden, block}
use embedded_linux.Search.Ids.{hex_digit, hex_digits}
use embedded_linux.Search.Results.{starts_with}
use embedded_linux.Search.Box.{
  Box, count_items, select_item_count, file_name, index_of, index_char, is_high,
}
use embedded_linux.Search.Box.Selection.{IsSelected}
use embedded_linux.Search.Navigate.Timers.{IsTimed}
use embedded_linux.Search.Popup.{Layout, View}
use embedded_linux.Search.Panel.{Document, start_panel, search_panel}
use embedded_linux.Search.Panel.Ready.{start_panel-IsReady}
use embedded_linux.Search.Panel.Asked.{IsAskedOrShown, IsNamed, search_panel-IsAskedOrShown}
use embedded_linux.Search.Tests.{browser, page, box, section, sections}

abbrev document : Document
document = record {
  field = codes "old words";
  box_active = false;
  results_window = hidden;
  search_close = hidden;
  select_window = hidden;
  nodes = [];
  next_timer = 1;
}

abbrev labels : List Str
labels = codes "All" ∷ codes "Classes" ∷ codes "Files" ∷ []

start_panel-IsReady_example :
    (after : Box) × (start_panel browser
        (λ _. false)
        sections
        labels
        (codes "searchBox")
        (codes "search")
        none
        document
      ≡ some after)
    × IsSelected after
    × IsTimed after
    × (select_item_count after ≡ 0 + 3)
    × (after.search_index ≡ 0)
    × (after.request ≡ none)
unfolding count_items
start_panel-IsReady_example =
    start_panel-IsReady browser (λ _. false) sections labels (codes "searchBox") (codes "search")
      none document (omega arith)

abbrev layout : Layout
layout = record {
  box_width = 0;
  box_chain = [];
  popup_width = 300;
  max_width = 600;
  max_height = 900;
}

abbrev view : View
view = record {
  box = record box { field = codes "   b" };
  page = page;
  loading = block;
  frame = none;
}

-- Three spaces before "b", which the section has second.
search_panel-IsAskedOrShown_example :
    (w : View) × (file : Option Str) × (search_panel browser
        (λ _. false)
        (codes "search/")
        sections
        layout
        []
        none
        view
      ≡ some w)
    × (w.box.last_search_value ≡ codes "b")
    × (w.box.request ≡ some (file, codes "b"))
    × IsNamed (codes "search/") section (codes "b") file
    × IsAskedOrShown view w file
search_panel-IsAskedOrShown_example =
    search_panel-IsAskedOrShown browser (λ _. false) (codes "search/") sections layout [] none view
      section 3 (codes "b") refl refl refl (omega arith) (λ s e. refl)

asked_file :
    file_name
      (codes "search/")
      section
      (index_of section.content (index_char browser (λ _. false) (codes "b")))
    ≡ some (codes "search/all_1.js")
unfolding file_name index_of index_char is_high starts_with hex_digits hex_digit same
asked_file = refl
