-- ===== src/Search/Tree/Walk.antt =====
-- `FindChildElement` (docs/html/search/search.js) as a search of the tree in the order of the
-- document.
use embedded_linux.Common.{
  ℕ, zero, suc, ◌+◌, ◌<◌, ◌≡◌, refl, sym, ap, ◌∙◌, Bool, true, false, Option, none, some, List, [],
  ◌∷◌, arith, inl, inr, Bool-cases,
}
use embedded_linux.Search.Tree.{
  Node, Nodes, element, markup, no_nodes, cons, div, anchor, span, Place, child_nodes, is_div,
  is_children, climb, next_sibling, step, walk_loop, count, count_all, find_child,
}

-- The first, or the second if there is no first.
abbrev pub or_else : Option Node → Option Node → Option Node
or_else none r = r
or_else (some n) r = some n

-- The first `SRChildren` div, in the order of the document, that is reached through divs.
unfoldable mutual
  pub first_in : Node → Option Node
  first_in (markup s) = none
  first_in (element t attrs nodes) = elim (is_children (element t attrs nodes)) [
    | true ↦ some (element t attrs nodes)
    | false ↦ elim (is_div (element t attrs nodes)) [ true ↦ first_in_all nodes | false ↦ none ]
  ]

  pub first_in_all : Nodes → Option Node
  first_in_all no_nodes = none
  first_in_all (cons n rest) = or_else (first_in n) (first_in_all rest)

abbrev first_above : List Nodes → Option Node
first_above [] = none
first_above (ns ∷ up) = or_else (first_in_all ns) (first_above up)

abbrev count_above : List Nodes → ℕ
count_above [] = 0
count_above (ns ∷ up) = count_all ns + count_above up

-- What the walk still has before it.
abbrev ahead : Option Place → Option Node
ahead none = none
ahead (some p) = or_else (first_in p.here) (or_else (first_in_all p.later) (first_above p.above))

abbrev left : Option Place → ℕ
left none = 0
left (some p) = count p.here + (count_all p.later + count_above p.above)

or_else_assoc : (x y z : Option Node) → or_else (or_else x y) z ≡ or_else x (or_else y z)
or_else_assoc none y z = refl
or_else_assoc (some n) y z = refl

ahead-climb : (up : List Nodes) → ahead (climb up) ≡ first_above up
unfolding climb first_in
ahead-climb [] = refl
ahead-climb (no_nodes ∷ up) = ahead-climb up
ahead-climb (cons n later ∷ up) =
    sym (or_else_assoc (first_in n) (first_in_all later) (first_above up))

left-climb : (up : List Nodes) → left (climb up) ≡ count_above up
unfolding climb count
left-climb [] = refl
left-climb (no_nodes ∷ up) = omega (arith, left-climb up)
left-climb (cons n later ∷ up) = omega arith

or_else-none : (x : Option Node) → or_else x none ≡ x
or_else-none none = refl
or_else-none (some n) = refl

first_in_found : (n : Node) → is_children n ≡ true → first_in n ≡ some n
unfolding first_in is_children is_div
first_in_found (markup s) found = absurd (cc)
first_in_found (element t attrs nodes) found =
    ap
      (λ (b : Bool). elim b [
        | true ↦ some (element t attrs nodes)
        | false ↦ elim (is_div (element t attrs nodes)) [ true ↦ first_in_all nodes | false ↦ none ]
      ])
      found

first_in_other :
    (n : Node)
    → is_children n ≡ false
    → first_in n ≡ elim (is_div n) [ true ↦ first_in_all (child_nodes n) | false ↦ none ]
unfolding first_in child_nodes is_div
first_in_other (markup s) other = refl
first_in_other (element t attrs nodes) other =
    ap
      (λ (b : Bool). elim b [
        | true ↦ some (element t attrs nodes)
        | false ↦ elim (is_div (element t attrs nodes)) [ true ↦ first_in_all nodes | false ↦ none ]
      ])
      other

ahead-step :
    (n : Node) (later : Nodes) (above : List Nodes)
    → let p : Place = record { here = n; later = later; above = above } in
      is_children n ≡ false → ahead (step p) ≡ ahead (some p)
unfolding step next_sibling is_div child_nodes first_in
ahead-step (markup s) later above other = ahead-climb (later ∷ above)
ahead-step (element anchor attrs nodes) later above other =
    rw (first_in_other (element anchor attrs nodes) other) (ahead-climb (later ∷ above))
ahead-step (element span attrs nodes) later above other =
    rw (first_in_other (element span attrs nodes) other) (ahead-climb (later ∷ above))
ahead-step (element div attrs no_nodes) later above other =
    rw (first_in_other (element div attrs no_nodes) other) (ahead-climb (later ∷ above))
ahead-step (element div attrs (cons n rest)) later above other =
    rw (first_in_other (element div attrs (cons n rest)) other) (
      sym (
        or_else_assoc (first_in n) (first_in_all rest)
          (or_else (first_in_all later) (first_above above))))

left-step :
    (n : Node) (later : Nodes) (above : List Nodes)
    → let p : Place = record { here = n; later = later; above = above } in
      left (step p) < left (some p)
unfolding step next_sibling is_div child_nodes count
left-step (markup s) later above = omega (arith, left-climb (later ∷ above))
left-step (element anchor attrs nodes) later above = omega (arith, left-climb (later ∷ above))
left-step (element span attrs nodes) later above = omega (arith, left-climb (later ∷ above))
left-step (element div attrs no_nodes) later above = omega (arith, left-climb (later ∷ above))
left-step (element div attrs (cons n rest)) later above = omega arith

walk_loop-ahead : (k : ℕ) (p : Option Place) → left p < k → walk_loop k p ≡ ahead p
unfolding walk_loop
walk_loop-ahead zero p h = absurd (omega arith)
walk_loop-ahead (suc k) none h = refl
walk_loop-ahead (suc k) (some p) h = elim (Bool-cases (is_children p.here)) [
  | inl found ↦
      let run : walk_loop (suc k) (some p) ≡ some p.here = rw (walk_loop, found) in
      run
      ∙ sym (
          ap (λ r. or_else r (or_else (first_in_all p.later) (first_above p.above)))
            (first_in_found p.here found))
  | inr other ↦
      let run : walk_loop (suc k) (some p) ≡ walk_loop k (step p) = rw (walk_loop, other) in
      run
      ∙ walk_loop-ahead k (step p) (omega (arith, h, left-step p.here p.later p.above))
      ∙ ahead-step p.here p.later p.above other
]

-- `FindChildElement` returns, whatever the tree: the first `SRChildren` div below the element, in
-- the order of the document, among those that only divs stand above; nothing if there is none.
pub find_child-first_in : (parent : Node) → find_child parent ≡ first_in_all (child_nodes parent)
unfolding find_child
find_child-first_in parent =
    let up : List Nodes = child_nodes parent ∷ [] in
    walk_loop-ahead (suc (count_all (child_nodes parent))) (climb up) (omega (arith, left-climb up))
    ∙ ahead-climb up
    ∙ or_else-none (first_in_all (child_nodes parent))
