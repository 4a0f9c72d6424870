-- ===== src/Search/Build/Appended.antt =====
-- The nodes that the loops of `createResults` append (docs/html/search/search.js).
use embedded_linux.Common.{ℕ, suc, ◌≡◌, refl, sym, ap, ◌∙◌, List, [], ◌∷◌}
use embedded_linux.Search.{Str}
use embedded_linux.Search.Tree.{Tag, Attribute, Value, Node, Nodes, element, no_nodes, cons}
use embedded_linux.Search.Build.{
  Target, Entry, join_nodes, append_child, child_link, append_children, make_row, append_rows,
}

-- The rows from entry e on, and the links of a row from place c on.
unfoldable pub rows_from : Str → ℕ → List Entry → Nodes
rows_from path e [] = no_nodes
rows_from path e (d ∷ ds) = cons (make_row path e d) (rows_from path (suc e) ds)

unfoldable pub links_from : Str → ℕ → ℕ → List Target → Nodes
links_from path e c [] = no_nodes
links_from path e c (t ∷ ts) = cons (child_link path e c t) (links_from path e (suc c) ts)

pub join_nodes_assoc :
    (x y z : Nodes) → join_nodes (join_nodes x y) z ≡ join_nodes x (join_nodes y z)
unfolding join_nodes
join_nodes_assoc no_nodes y z = refl
join_nodes_assoc (cons n x) y z = ap (cons n) (join_nodes_assoc x y z)

join_nodes_end : (x : Nodes) → join_nodes x no_nodes ≡ x
unfolding join_nodes
join_nodes_end no_nodes = refl
join_nodes_end (cons n x) = ap (cons n) (join_nodes_end x)

pub append_children-links_from :
    (path : Str) (e c : ℕ) (ts : List Target) (t : Tag) (attrs : List (Attribute × Value))
    (nodes : Nodes)
    → append_children path e c ts (element t attrs nodes)
      ≡ element t attrs (join_nodes nodes (links_from path e c ts))
unfolding append_children links_from append_child join_nodes
append_children-links_from path e c [] t attrs nodes =
    ap (element t attrs) (sym (join_nodes_end nodes))
append_children-links_from path e c (p ∷ ps) t attrs nodes =
    let link : Node = child_link path e c p in
    append_children-links_from path e (suc c) ps t attrs (join_nodes nodes (cons link no_nodes))
    ∙ ap (element t attrs)
        (join_nodes_assoc nodes (cons link no_nodes) (links_from path e (suc c) ps))

pub append_rows-rows_from :
    (path : Str) (e : ℕ) (ds : List Entry) (t : Tag) (attrs : List (Attribute × Value))
    (nodes : Nodes)
    → append_rows path e ds (element t attrs nodes)
      ≡ element t attrs (join_nodes nodes (rows_from path e ds))
unfolding append_rows rows_from append_child join_nodes
append_rows-rows_from path e [] t attrs nodes = ap (element t attrs) (sym (join_nodes_end nodes))
append_rows-rows_from path e (d ∷ ds) t attrs nodes =
    let row : Node = make_row path e d in
    append_rows-rows_from path (suc e) ds t attrs (join_nodes nodes (cons row no_nodes))
    ∙ ap (element t attrs) (join_nodes_assoc nodes (cons row no_nodes) (rows_from path (suc e) ds))
