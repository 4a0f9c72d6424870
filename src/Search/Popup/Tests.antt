-- ===== src/Search/Popup/Tests.antt =====
-- A results file with two entries on a concrete page.
use embedded_linux.Common.{
  ℕ, ◌+◌, ◌≡◌, refl, true, some, none, List, [], ◌∷◌, ◌++◌, arith, get_elem?,
}
use embedded_linux.Search.{Str, unset, hidden, block, is_block, Div}
use embedded_linux.Search.Ids.{convert_to_id, convert_char, is_plain, hex_digits}
use embedded_linux.Search.Ids.Decode.{decode_id, decode_id-convert_to_id}
use embedded_linux.Search.Results.{starts_with, strip_leading, strip_trailing}
use embedded_linux.Search.Results.Match.{search_words}
use embedded_linux.Search.Tree.{
  div, anchor, Node, element, markup, no_nodes, cons, attr_class, text, child_nodes, sr_children,
  find_child,
}
use embedded_linux.Search.Tree.Walk.{first_in_all, find_child-first_in}
use embedded_linux.Search.Build.{Target, Entry, item_, to_text, create_results, make_row}
use embedded_linux.Search.Build.Rows.{find_id_all, row_link, find_id-create_results}
use embedded_linux.Search.Build.Children.{children_in, find_child-make_row}
use embedded_linux.Search.Popup.{Layout, View, handle_results}
use embedded_linux.Search.Popup.Loaded.{handle_results-shows}
use embedded_linux.Search.Tests.{browser, page, box, row}

-- "a b_c!", as UTF-16 code units.
abbrev name : Str
name = 97 ∷ 32 ∷ 98 ∷ 95 ∷ 99 ∷ 33 ∷ []

decode_id-convert_to_id_example : decode_id (convert_to_id name) ≡ name
decode_id-convert_to_id_example =
    decode_id-convert_to_id name
      (omega arith, (omega arith, (omega arith, (omega arith, (omega arith, (omega arith, tt))))))

-- A link, a div that holds a link and the `SRChildren` div, and a second div of that class.
abbrev kept : Node
kept = element div ((attr_class, text sr_children) ∷ []) no_nodes

abbrev tree : Node
tree = element div [] (
    cons (element anchor [] (cons (markup (97 ∷ [])) no_nodes)) (
      cons (element div [] (cons (element anchor [] no_nodes) (cons kept no_nodes)))
        (cons kept no_nodes)))

find_child-first_in_example : find_child tree ≡ first_in_all (child_nodes tree)
find_child-first_in_example = find_child-first_in tree

abbrev target_of : ℕ → Target
target_of n = record { url = n ∷ []; in_parent = true; scope = n ∷ [] }

-- `a_0` with one place, and `ab_1` with two.
abbrev entries : List Entry
entries =
    record { id = 97 ∷ 95 ∷ 48 ∷ []; symbol = 97 ∷ []; targets = target_of 1 ∷ [] }
    ∷ record {
      id = 97 ∷ 98 ∷ 95 ∷ 49 ∷ [];
      symbol = 97 ∷ 98 ∷ [];
      targets = target_of 2 ∷ target_of 3 ∷ [];
    }
    ∷ []

abbrev second : Entry
second = record {
  id = 97 ∷ 98 ∷ 95 ∷ 49 ∷ [];
  symbol = 97 ∷ 98 ∷ [];
  targets = target_of 2 ∷ target_of 3 ∷ [];
}

find_id-create_results_example :
    find_id_all
      (item_ ++ to_text 1)
      (child_nodes (create_results [] entries (element div [] (cons kept no_nodes))))
    ≡ some (row_link [] 1 second)
find_id-create_results_example = find_id-create_results [] entries div [] (cons kept no_nodes) 1

find_child-make_row_example : find_child (make_row [] 1 second) ≡ children_in [] 1 second.targets
find_child-make_row_example = find_child-make_row [] 1 second

abbrev layout : Layout
layout = record {
  box_width = 200;
  box_chain =
      record { offset_left = 500; offset_top = 5 }
      ∷ record { offset_left = 12; offset_top = 40 }
      ∷ [];
  popup_width = 300;
  max_width = 600;
  max_height = 900;
}

abbrev view : View
view = record { box = box; page = page; loading = block; frame = none }

-- The word "a" and the entry "ab".
handle_results-shows_example :
    let v' =
      handle_results browser layout [] (row ∷ []) (some entries) (some (1 ∷ []), 97 ∷ []) view in
    (is_block v'.box.results_window ≡ true)
    × (shown : Div) × (get_elem? v'.page.divs (1 + 1) ≡ some shown)
    × (shown.item ≡ some 1)
    × (is_block shown.display ≡ starts_with (search_words browser (97 ∷ [])) (97 ∷ 98 ∷ []))
unfolding convert_to_id convert_char is_plain hex_digits search_words strip_leading strip_trailing
    embedded_linux.Search.same
handle_results-shows_example =
    handle_results-shows browser layout [] (row ∷ []) entries (1 ∷ []) (97 ∷ []) view 1 second
      (97 ∷ 98 ∷ []) (95 ∷ 49 ∷ []) refl refl refl (omega arith, (omega arith, tt))
      (omega arith, tt) (omega arith)
