-- ===== src/Search/Build.antt =====
-- `createResults` of docs/html/search/search.js: the rows of a results file as elements.
pub mod Decimal
pub mod Appended
pub mod Rows
pub mod Children
use embedded_linux.Common.{
  ℕ, zero, suc, ◌+◌, ◌/◌, ◌%◌, Bool, true, false, Option, none, some, List, [], ◌∷◌, ◌++◌, ltb,
  ◌==◌, if◌then◌else◌,
}
use embedded_linux.Search.{Str}
use embedded_linux.Search.Results.{sr_result}
use embedded_linux.Search.Tree.{
  Tag, div, anchor, span, Attribute, attr_id, attr_class, attr_class_name, attr_onkeydown,
  attr_onkeypress, attr_onkeyup, attr_onclick, attr_href, attr_target, Action, call_nav,
  call_nav_child, call_toggle, call_close, Value, text, script, Node, Nodes, element, markup,
  no_nodes, cons, attribute_number, sr_children,
}

-- One place of an entry in `searchData`: its address, whether it opens in the same frame, its
-- text.
pub record Target : Type 0 where
  pub url : Str
  pub in_parent : Bool
  pub scope : Str

-- `searchData[e]`: the name in the code of `convertToId` with a number, the text, and the places.
pub record Entry : Type 0 where
  pub id : Str
  pub symbol : Str
  pub targets : List Target

-- "SR_"
abbrev pub sr_ : Str
sr_ = 83 ∷ 82 ∷ 95 ∷ []

-- "SREntry"
abbrev pub sr_entry : Str
sr_entry = 83 ∷ 82 ∷ 69 ∷ 110 ∷ 116 ∷ 114 ∷ 121 ∷ []

-- "Item"
abbrev pub item_ : Str
item_ = 73 ∷ 116 ∷ 101 ∷ 109 ∷ []

-- "_c"
abbrev pub child_ : Str
child_ = 95 ∷ 99 ∷ []

-- "SRSymbol"
abbrev pub sr_symbol : Str
sr_symbol = 83 ∷ 82 ∷ 83 ∷ 121 ∷ 109 ∷ 98 ∷ 111 ∷ 108 ∷ []

-- "SRScope"
abbrev pub sr_scope : Str
sr_scope = 83 ∷ 82 ∷ 83 ∷ 99 ∷ 111 ∷ 112 ∷ 101 ∷ []

-- "_blank"
abbrev pub blank_target : Str
blank_target = 95 ∷ 98 ∷ 108 ∷ 97 ∷ 110 ∷ 107 ∷ []

-- "_parent"
abbrev pub parent_target : Str
parent_target = 95 ∷ 112 ∷ 97 ∷ 114 ∷ 101 ∷ 110 ∷ 116 ∷ []

-- The last digits of a number.
unfoldable pub digits : ℕ → ℕ → Str
digits zero n = []
digits (suc k) n =
    let rest = digits k (n / 10) in
    elim (ltb n 10) [ true ↦ (48 + n) ∷ [] | false ↦ rest ++ ((48 + n % 10) ∷ []) ]

-- A number as the operator `+` writes it after a string. It has at most n + 1 digits.
abbrev pub to_text : ℕ → Str
to_text n = digits (suc n) n

-- `document.createElement(tag)`
abbrev pub create : Tag → Node
create t = element t [] no_nodes

unfoldable pub put_attribute :
    Attribute → Value → List (Attribute × Value) → List (Attribute × Value)
put_attribute name v [] = (name, v) ∷ []
put_attribute name v ((n, w) ∷ rest) = elim (attribute_number n == attribute_number name) [
  | true ↦ (n, v) ∷ rest
  | false ↦ (n, w) ∷ put_attribute name v rest
]

-- `setAttribute(name, v)`
unfoldable pub set_attribute : Attribute → Value → Node → Node
set_attribute name v (markup s) = markup s
set_attribute name v (element t attrs nodes) = element t (put_attribute name v attrs) nodes

unfoldable pub join_nodes : Nodes → Nodes → Nodes
join_nodes no_nodes ms = ms
join_nodes (cons n rest) ms = cons n (join_nodes rest ms)

-- `appendChild(child)`
unfoldable pub append_child : Node → Node → Node
append_child (markup s) child = markup s
append_child (element t attrs nodes) child =
    element t attrs (join_nodes nodes (cons child no_nodes))

-- `innerHTML = s`
unfoldable pub set_inner : Str → Node → Node
set_inner s (markup m) = markup m
set_inner s (element t attrs nodes) = element t attrs (cons (markup s) no_nodes)

-- `setKeyActions(elem, action)`
unfoldable pub set_key_actions : Action → Node → Node
set_key_actions action elem = set_attribute attr_onkeyup (script action) (
    set_attribute attr_onkeypress (script action)
      (set_attribute attr_onkeydown (script action) elem))

-- `setClassAttr(elem, attr)`
unfoldable pub set_class_attr : Str → Node → Node
set_class_attr attr elem =
    set_attribute attr_class_name (text attr) (set_attribute attr_class (text attr) elem)

-- The address of a place, what a click on it does, and the frame it opens in.
unfoldable pub set_target : Str → Target → Node → Node
set_target results_path t link =
    set_attribute attr_target (text (if t.in_parent then parent_target else blank_target)) (
      set_attribute attr_onclick (script call_close)
        (set_attribute attr_href (text (results_path ++ t.url)) link))

-- `srLink`, before its address is set.
unfoldable pub symbol_link : ℕ → Str → Node
symbol_link e symbol = set_inner symbol (
    set_class_attr sr_symbol (
      set_key_actions (call_nav e)
        (set_attribute attr_id (text (item_ ++ to_text e)) (create anchor))))

-- `srChild`
unfoldable pub child_link : Str → ℕ → ℕ → Target → Node
child_link results_path e c t = set_inner t.scope (
    set_target results_path t (
      set_class_attr sr_scope (
        set_key_actions (call_nav_child e c) (
          set_attribute attr_id (text (item_ ++ (to_text e ++ (child_ ++ to_text c))))
            (create anchor)))))

-- The loop over the places of an entry: the links from place c on.
unfoldable pub append_children : Str → ℕ → ℕ → List Target → Node → Node
append_children results_path e c [] parent = parent
append_children results_path e c (t ∷ ts) parent =
    append_children results_path e (suc c) ts (append_child parent (child_link results_path e c t))

-- `srEntry` with one place.
unfoldable pub single_entry : Str → ℕ → Str → Target → Node
single_entry results_path e symbol t =
    append_child
      (append_child (set_class_attr sr_entry (create div))
        (set_target results_path t (symbol_link e symbol)))
      (set_inner t.scope (set_class_attr sr_scope (create span)))

-- `srEntry` with several places, or none.
unfoldable pub multiple_entry : Str → ℕ → Entry → Node
multiple_entry results_path e d =
    append_child
      (append_child (set_class_attr sr_entry (create div))
        (set_attribute attr_href (script (call_toggle (sr_ ++ d.id))) (symbol_link e d.symbol)))
      (append_children results_path e 0 d.targets (set_class_attr sr_children (create div)))

unfoldable pub make_entry : Str → ℕ → Entry → Node
make_entry results_path e d = elim (d.targets) [
  | [] ↦ multiple_entry results_path e d
  | (t ∷ []) ↦ single_entry results_path e d.symbol t
  | (t ∷ u ∷ ts) ↦ multiple_entry results_path e d
]

-- `srResult`
unfoldable pub make_row : Str → ℕ → Entry → Node
make_row results_path e d =
    append_child
      (set_class_attr sr_result (set_attribute attr_id (text (sr_ ++ d.id)) (create div)))
      (make_entry results_path e d)

-- The loop over `searchData`, from entry e on.
unfoldable pub append_rows : Str → ℕ → List Entry → Node → Node
append_rows results_path e [] results = results
append_rows results_path e (d ∷ ds) results =
    append_rows results_path (suc e) ds (append_child results (make_row results_path e d))

-- The children removed: `innerHTML = ''`.
unfoldable pub clear_inner : Node → Node
clear_inner (markup s) = markup s
clear_inner (element t attrs nodes) = element t attrs no_nodes

-- `createResults(resultsPath)`, in the element `SRResults`.
unfoldable pub create_results : Str → List Entry → Node → Node
create_results results_path entries results =
    append_rows results_path 0 entries (clear_inner results)
