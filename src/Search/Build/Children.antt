-- ===== src/Search/Build/Children.antt =====
-- What `FindChildElement` finds in a row that `createResults` built (docs/html/search/search.js).
use embedded_linux.Common.{ℕ, ◌≡◌, refl, ap, ◌∙◌, Option, none, some, List, [], ◌∷◌}
use embedded_linux.Search.{Str, same}
use embedded_linux.Search.Tree.{
  div, Node, element, no_nodes, child_nodes, find_attribute, is_text, is_div, is_children,
  attribute, attribute_number, sr_children, attr_class, attr_class_name, text, find_child,
}
use embedded_linux.Search.Tree.Walk.{or_else, first_in, find_child-first_in}
use embedded_linux.Search.Build.{
  Target, Entry, put_attribute, set_attribute, join_nodes, append_child, set_inner, set_key_actions,
  set_class_attr, set_target, symbol_link, single_entry, multiple_entry, make_entry, make_row,
}
use embedded_linux.Search.Build.Appended.{links_from, append_children-links_from}

-- The `SRChildren` div of entry e, with a link for each place.
abbrev pub children_of : Str → ℕ → List Target → Node
children_of path e ts =
    element div ((attr_class, text sr_children) ∷ (attr_class_name, text sr_children) ∷ [])
      (links_from path e 0 ts)

-- A row with exactly one place has no children to toggle.
abbrev pub children_in : Str → ℕ → List Target → Option Node
children_in path e [] = some (children_of path e [])
children_in path e (t ∷ []) = none
children_in path e (t ∷ u ∷ ts) = some (children_of path e (t ∷ u ∷ ts))

module _ (path : Str) (e : ℕ) where
  first_in-multiple_entry :
      (d : Entry)
      → or_else (first_in (multiple_entry path e d)) none ≡ some (children_of path e d.targets)
  unfolding multiple_entry first_in is_children is_div is_text attribute find_attribute
      attribute_number same symbol_link set_inner set_class_attr set_key_actions set_attribute
      put_attribute append_child join_nodes
  first_in-multiple_entry d =
      ap (λ n. or_else (or_else (first_in n) none) none)
        (append_children-links_from path e 0 d.targets div
          ((attr_class, text sr_children) ∷ (attr_class_name, text sr_children) ∷ []) no_nodes)

  first_in-single_entry :
      (symbol : Str) (t : Target) → or_else (first_in (single_entry path e symbol t)) none ≡ none
  unfolding single_entry first_in is_children is_div is_text attribute find_attribute
      attribute_number same symbol_link set_inner set_class_attr set_key_actions set_attribute
      put_attribute append_child join_nodes set_target
  first_in-single_entry symbol t = refl

  first_in-make_entry :
      (id symbol : Str) (ts : List Target)
      → let d : Entry = record { id = id; symbol = symbol; targets = ts } in
        or_else (first_in (make_entry path e d)) none ≡ children_in path e ts
  unfolding make_entry
  first_in-make_entry id symbol [] = first_in-multiple_entry _
  first_in-make_entry id symbol (t ∷ []) = first_in-single_entry symbol t
  first_in-make_entry id symbol (t ∷ u ∷ ts) = first_in-multiple_entry _

-- In the row that `createResults` builds for an entry, `FindChildElement` finds the div with the
-- links of all its places, in order, or nothing if the entry has exactly one place.
pub find_child-make_row :
    (path : Str) (e : ℕ) (d : Entry) → find_child (make_row path e d) ≡ children_in path e d.targets
unfolding make_row first_in child_nodes set_class_attr set_attribute put_attribute attribute_number
    append_child join_nodes
find_child-make_row path e d =
    find_child-first_in (make_row path e d) ∙ first_in-make_entry path e d.id d.symbol d.targets
