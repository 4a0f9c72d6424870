-- ===== src/Search/Tree.antt =====
-- The elements of the document that docs/html/search/search.js walks and builds. What the browser
-- makes of a text assigned to `innerHTML` is left as that text (`markup`).
pub mod Walk
use embedded_linux.Common.{
  ℕ, zero, suc, ◌+◌, Bool, true, false, ◌&&◌, Option, none, some, List, [], ◌∷◌, ◌==◌,
}
use embedded_linux.Search.{Str, same}

pub data Tag : Type 0 where
  div anchor span : Tag

-- The names given to `setAttribute`; `attr_class_name` is 'className'.
pub data Attribute : Type 0 where
  attr_id attr_class attr_class_name attr_onkeydown attr_onkeypress attr_onkeyup attr_onclick
        attr_href attr_target :
      Attribute

-- Script in an attribute: `return searchResults.Nav(event,e)`, `return
-- searchResults.NavChild(event,e,c)`, `javascript:searchResults.Toggle("id")`,
-- `searchBox.CloseResultsWindow()`.
pub data Action : Type 0 where
  call_nav : ℕ → Action
  call_nav_child : ℕ → ℕ → Action
  call_toggle : Str → Action
  call_close : Action

pub data Value : Type 0 where
  text : Str → Value
  script : Action → Value

mutual
  pub data Node : Type 0 where
    element : Tag → List (Attribute × Value) → Nodes → Node
    markup : Str → Node

  pub data Nodes : Type 0 where
    no_nodes : Nodes
    cons : Node → Nodes → Nodes

unfoldable pub attribute_number : Attribute → ℕ
attribute_number attr_id = 0
attribute_number attr_class = 1
attribute_number attr_class_name = 2
attribute_number attr_onkeydown = 3
attribute_number attr_onkeypress = 4
attribute_number attr_onkeyup = 5
attribute_number attr_onclick = 6
attribute_number attr_href = 7
attribute_number attr_target = 8

unfoldable pub find_attribute : List (Attribute × Value) → Attribute → Option Value
find_attribute [] name = none
find_attribute ((n, v) ∷ rest) name = elim (attribute_number n == attribute_number name) [
  | true ↦ some v
  | false ↦ find_attribute rest name
]

-- `getAttribute(name)`
unfoldable pub attribute : Node → Attribute → Option Value
attribute (markup s) name = none
attribute (element t attrs nodes) name = find_attribute attrs name

unfoldable pub child_nodes : Node → Nodes
child_nodes (markup s) = no_nodes
child_nodes (element t attrs nodes) = nodes

-- `nodeName.toLowerCase() == 'div'`
unfoldable pub is_div : Node → Bool
is_div (element div attrs nodes) = true
is_div (element anchor attrs nodes) = false
is_div (element span attrs nodes) = false
is_div (markup s) = false

unfoldable pub is_text : Option Value → Str → Bool
is_text none s = false
is_text (some (text t)) s = same t s
is_text (some (script c)) s = false

-- "SRChildren"
abbrev pub sr_children : Str
sr_children = 83 ∷ 82 ∷ 67 ∷ 104 ∷ 105 ∷ 108 ∷ 100 ∷ 114 ∷ 101 ∷ 110 ∷ []

-- A div of the class `SRChildren`.
unfoldable pub is_children : Node → Bool
is_children n = is_div n && is_text (attribute n attr_class) sr_children

-- A place of the walk: an element, its later siblings, and those of its ancestors below the
-- element that the walk began in, the nearest first.
pub record Place : Type 0 where
  pub here : Node
  pub later : Nodes
  pub above : List Nodes

-- `do element = element.parentNode while (.. && !element.nextSibling)`, then the next sibling;
-- none at the element that the walk began in.
unfoldable pub climb : List Nodes → Option Place
climb [] = none
climb (no_nodes ∷ up) = climb up
climb (cons n later ∷ up) = some (record { here = n; later = later; above = up })

-- The next element of the walk.
unfoldable pub next_sibling : Nodes → List Nodes → Option Place
next_sibling later above = climb (later ∷ above)

unfoldable pub step : Place → Option Place
step p = elim (is_div p.here) [
  | false ↦ next_sibling p.later p.above
  | true ↦ elim (child_nodes p.here) [
    | no_nodes ↦ next_sibling p.later p.above
    | cons n rest ↦ some (record { here = n; later = rest; above = p.later ∷ p.above })
  ]
]

-- The loop, by the rounds left.
unfoldable pub walk_loop : ℕ → Option Place → Option Node
walk_loop zero p = none
walk_loop (suc k) none = none
walk_loop (suc k) (some p) = elim (is_children p.here) [
  | true ↦ some p.here
  | false ↦ walk_loop k (step p)
]

unfoldable mutual
  pub count : Node → ℕ
  count (markup s) = 1
  count (element t attrs nodes) = suc (count_all nodes)

  pub count_all : Nodes → ℕ
  count_all no_nodes = 0
  count_all (cons n rest) = count n + count_all rest

-- `FindChildElement`, in the element with that id. The walk comes to no element twice.
unfoldable pub find_child : Node → Option Node
find_child parent =
    walk_loop (suc (count_all (child_nodes parent))) (climb (child_nodes parent ∷ []))
