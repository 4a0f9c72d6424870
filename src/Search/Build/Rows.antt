-- ===== src/Search/Build/Rows.antt =====
-- The elements that `createResults` (docs/html/search/search.js) leaves, and which of them the
-- document finds by the name of an item. What a text given to `innerHTML` holds is taken to have
-- no such name.
use mathlib.Core.Path.{subst}
use mathlib.Core.Option
use embedded_linux.Common.{
  ℕ, zero, suc, ◌+◌, ◌≡◌, refl, ap, ◌∙◌, Bool, true, false, Option, none, some, List, [], ◌∷◌, ◌++◌,
  arith, inl, inr, Bool-cases, get_elem?,
}
use embedded_linux.Search.{Str, same}
use embedded_linux.Search.Tree.{
  Tag, div, Attribute, attr_id, attr_href, attr_class, attr_class_name, Value, text, script,
  call_toggle, Node, Nodes, element, markup, no_nodes, cons, child_nodes, find_attribute, is_text,
  attribute_number, sr_children,
}
use embedded_linux.Search.Tree.Walk.{or_else}
use embedded_linux.Search.Build.{
  Target, Entry, item_, child_, sr_, to_text, create, put_attribute, set_attribute, join_nodes,
  append_child, set_inner, set_key_actions, set_class_attr, set_target, symbol_link, child_link,
  append_children, single_entry, multiple_entry, make_entry, make_row, clear_inner, create_results,
}
use embedded_linux.Search.Build.Decimal.{same_refl, same_text, same_underscore, AllDigits-digits}
use embedded_linux.Search.Build.Appended.{
  rows_from, links_from, append_children-links_from, append_rows-rows_from,
}

-- `document.getElementById(s)`: the first element with that name, in the order of the document.
unfoldable mutual
  pub find_id : Str → Node → Option Node
  find_id s (markup m) = none
  find_id s (element t attrs nodes) = elim (is_text (find_attribute attrs attr_id) s) [
    | true ↦ some (element t attrs nodes)
    | false ↦ find_id_all s nodes
  ]

  pub find_id_all : Str → Nodes → Option Node
  find_id_all s no_nodes = none
  find_id_all s (cons n rest) = or_else (find_id s n) (find_id_all s rest)

-- The link of a row, as it is in the end.
unfoldable pub row_link : Str → ℕ → Entry → Node
row_link path e d = elim (d.targets) [
  | [] ↦ set_attribute attr_href (script (call_toggle (sr_ ++ d.id))) (symbol_link e d.symbol)
  | (t ∷ []) ↦ set_target path t (symbol_link e d.symbol)
  | (t ∷ u ∷ ts) ↦
      set_attribute attr_href (script (call_toggle (sr_ ++ d.id))) (symbol_link e d.symbol)
]

-- No link of a place has the name of an item.
find_id-links_from :
    (path : Str) (k e c : ℕ) (ts : List Target)
    → find_id_all (item_ ++ to_text k) (links_from path e c ts) ≡ none
unfolding find_id links_from child_link set_inner set_target set_class_attr set_key_actions
    set_attribute put_attribute attribute_number find_attribute is_text same
find_id-links_from path k e c [] = refl
find_id-links_from path k e c (t ∷ ts) =
    let other : same (to_text e ++ (child_ ++ to_text c)) (to_text k) ≡ false =
      same_underscore (to_text e) (to_text k) _ (AllDigits-digits (suc k) k) in
    ap
      (λ (b : Bool).
        or_else (elim b [ true ↦ some (child_link path e c t) | false ↦ none ])
          (find_id_all (item_ ++ to_text k) (links_from path e (suc c) ts)))
      other
    ∙ find_id-links_from path k e (suc c) ts

find_id-append_children :
    (path : Str) (k e : ℕ) (ts : List Target)
    → find_id
        (item_ ++ to_text k)
        (append_children path e 0 ts (set_class_attr sr_children (create div)))
      ≡ none
unfolding find_id set_class_attr set_attribute put_attribute attribute_number find_attribute is_text
    join_nodes
find_id-append_children path k e ts =
    let attrs : List (Attribute × Value) =
      put_attribute attr_class_name (text sr_children)
        (put_attribute attr_class (text sr_children) []) in
    ap (find_id (item_ ++ to_text k)) (append_children-links_from path e 0 ts div attrs no_nodes)
    ∙ find_id-links_from path k e 0 ts

-- The link if the numbers are the same.
abbrev when_same : ℕ → ℕ → Node → Option Node
when_same k e link = elim (same (to_text e) (to_text k)) [ true ↦ some link | false ↦ none ]

only_link :
    (b : Bool) (link : Node) (x : Option Node)
    → x ≡ none
    → or_else (or_else (elim b [ true ↦ some link | false ↦ none ]) (or_else x none)) none
      ≡ elim b [ true ↦ some link | false ↦ none ]
only_link true link x h = refl
only_link false link x h = ap (λ y. or_else (or_else y none) none) h

module _ (path : Str) (k e : ℕ) where
  find_id-multiple_entry :
      (d : Entry)
      → or_else (find_id (item_ ++ to_text k) (multiple_entry path e d)) none
        ≡ when_same k e
            (set_attribute attr_href (script (call_toggle (sr_ ++ d.id))) (symbol_link e d.symbol))
  unfolding multiple_entry find_id symbol_link set_inner set_class_attr set_key_actions
      set_attribute put_attribute attribute_number find_attribute is_text same append_child
      join_nodes
  find_id-multiple_entry d =
      only_link (same (to_text e) (to_text k))
        (set_attribute attr_href (script (call_toggle (sr_ ++ d.id))) (symbol_link e d.symbol)) _
        (find_id-append_children path k e d.targets)

  find_id-single_entry :
      (symbol : Str) (t : Target)
      → or_else (find_id (item_ ++ to_text k) (single_entry path e symbol t)) none
        ≡ when_same k e (set_target path t (symbol_link e symbol))
  unfolding single_entry find_id symbol_link set_inner set_target set_class_attr set_key_actions
      set_attribute put_attribute attribute_number find_attribute is_text same append_child
      join_nodes
  find_id-single_entry symbol t =
      only_link (same (to_text e) (to_text k)) (set_target path t (symbol_link e symbol)) none refl

  find_id-make_entry :
      (id symbol : Str) (ts : List Target)
      → let d : Entry = record { id = id; symbol = symbol; targets = ts } in
        or_else (find_id (item_ ++ to_text k) (make_entry path e d)) none
        ≡ when_same k e (row_link path e d)
  unfolding make_entry row_link
  find_id-make_entry id symbol [] = find_id-multiple_entry _
  find_id-make_entry id symbol (t ∷ []) = find_id-single_entry symbol t
  find_id-make_entry id symbol (t ∷ u ∷ ts) = find_id-multiple_entry _

  find_id-make_row :
      (d : Entry)
      → find_id (item_ ++ to_text k) (make_row path e d) ≡ when_same k e (row_link path e d)
  unfolding make_row find_id set_class_attr set_attribute put_attribute attribute_number
      find_attribute is_text same append_child join_nodes
  find_id-make_row d = find_id-make_entry d.id d.symbol d.targets

find_id-rows_from :
    (path : Str) (e i : ℕ) (ds : List Entry)
    → find_id_all (item_ ++ to_text (e + i)) (rows_from path e ds)
      ≡ Option.map (row_link path (e + i)) (get_elem? ds i)
unfolding find_id rows_from
find_id-rows_from path e i [] = refl
find_id-rows_from path e zero (d ∷ ds) =
    let at : e ≡ e + 0 = omega arith in
    let named : same (to_text e) (to_text (e + 0)) ≡ true =
      subst (λ j. same (to_text e) (to_text j) ≡ true) at (same_refl (to_text e)) in
    ap (λ r. or_else r (find_id_all (item_ ++ to_text (e + 0)) (rows_from path (suc e) ds)))
      (find_id-make_row path (e + 0) e d
        ∙ ap (λ (b : Bool). elim b [ true ↦ some (row_link path e d) | false ↦ none ]) named
        ∙ ap (λ j. some (row_link path j d)) at)
find_id-rows_from path e (suc i) (d ∷ ds) =
    let at : suc e + i ≡ e + suc i = omega arith in
    elim (Bool-cases (same (to_text e) (to_text (e + suc i)))) [
      | inl h ↦ absurd (omega (arith, same_text e (e + suc i) h))
      | inr h ↦
          ap
            (λ r.
              or_else r (find_id_all (item_ ++ to_text (e + suc i)) (rows_from path (suc e) ds)))
            (find_id-make_row path (e + suc i) e d
              ∙ ap (λ (b : Bool). elim b [ true ↦ some (row_link path e d) | false ↦ none ]) h)
          ∙ subst
              (λ j.
                find_id_all (item_ ++ to_text j) (rows_from path (suc e) ds)
                ≡ Option.map (row_link path j) (get_elem? ds i))
              at (find_id-rows_from path (suc e) i ds)
    ]

-- After `createResults`, in any element and for any entries, the document finds under the name
-- `Item<k>`, inside that element, the link of entry k, and nothing when there is no entry k.
pub find_id-create_results :
    (path : Str) (ds : List Entry) (t : Tag) (attrs : List (Attribute × Value)) (nodes : Nodes)
    (k : ℕ)
    → find_id_all
        (item_ ++ to_text k)
        (child_nodes (create_results path ds (element t attrs nodes)))
      ≡ Option.map (row_link path k) (get_elem? ds k)
unfolding create_results clear_inner child_nodes join_nodes
find_id-create_results path ds t attrs nodes k =
    ap (λ n. find_id_all (item_ ++ to_text k) (child_nodes n))
      (append_rows-rows_from path 0 ds t attrs no_nodes)
    ∙ subst
        (λ j.
          find_id_all (item_ ++ to_text j) (rows_from path 0 ds)
          ≡ Option.map (row_link path j) (get_elem? ds k))
        {x = 0 + k} {y = k} (omega arith) (find_id-rows_from path 0 k ds)
