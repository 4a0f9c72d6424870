-- ===== src/Folding/Tests.antt =====
-- A directory of four rows, whose elements are records.
use embedded_linux.Common.{
  ℕ, ◌+◌, ◌≡◌, ◌≢◌, refl, sym, ap, ◌∙◌, Bool, true, false, not, ◌&&◌, ◌||◌, inl, inr, Bool-cases,
  List, [], ◌∷◌, ◌++◌, map, ◌==◌, ==_iff, ==_refl, leb, if◌then◌else◌,
}
use embedded_linux.Search.{Str}
use embedded_linux.Folding.{
  Class, even, odd, iconfopen, iconfclosed, opened, closed, Query, IsQuery, row_, depth,
  toggle_level, is_child_id, is_below, first_child_visible, toggle_folder,
}
use embedded_linux.Folding.Rows.{IsStriped, class_number}
use embedded_linux.Folding.Directory.{toggle_level-IsStriped, toggle_folder-IsStriped}

record Element : Type 0 where
  name : Str
  seen : Bool
  classes : Class → Bool
  down : Bool

abbrev class_of : ℕ → Class
class_of n =
    if n == 0
    then even
    else if n == 1
    then odd
    else if n == 2
    then iconfopen
    else if n == 3
    then iconfclosed
    else if n == 4
    then opened
    else closed

class_of-class_number : (c : Class) → class_of (class_number c) ≡ c
class_of-class_number even = refl
class_of-class_number odd = refl
class_of-class_number iconfopen = refl
class_of-class_number iconfclosed = refl
class_of-class_number opened = refl
class_of-class_number closed = refl

same_class : (c d : Class) → (class_number c == class_number d) ≡ true → c ≡ d
same_class c d h =
    sym (class_of-class_number c)
    ∙ ap class_of ((==_iff (class_number c) (class_number d)).0 h)
    ∙ class_of-class_number d

abbrev put : Class → Bool → (Class → Bool) → Class → Bool
put c b classes d = if class_number c == class_number d then b else classes d

put_same : (c : Class) (b : Bool) (classes : Class → Bool) → put c b classes c ≡ b
put_same c b classes = rw (put, ==_refl (class_number c))

put_other :
    (c d : Class) (b : Bool) (classes : Class → Bool) → c ≢ d → put c b classes d ≡ classes d
put_other c d b classes apart = elim (Bool-cases (class_number c == class_number d)) [
  | inl h ↦ absurd (apart (same_class c d h))
  | inr h ↦ rw (put, h)
]

abbrev query : Query Element
query = record {
  id = λ e. e.name;
  is_visible = λ e. e.seen;
  show = λ e. record e { seen = true };
  hide = λ e. record e { seen = false };
  has_class = λ e c. e.classes c;
  add_class = λ c e. record e { classes = put c true e.classes };
  remove_class = λ c e. record e { classes = put c false e.classes };
  set_arrow = λ down e. record e { down = down };
  css_none = λ e. record e { seen = false };
  css_table_row = λ e. record e { seen = true };
}

query-IsQuery : IsQuery query
query-IsQuery = record {
  shown = λ e. refl;
  hidden = λ e. refl;
  added = λ c e. put_same c true e.classes;
  removed = λ c e. put_same c false e.classes;
  add_other = λ c d e apart. put_other c d true e.classes apart;
  remove_other = λ c d e apart. put_other c d false e.classes apart;
  add_visible = λ c e. refl;
  remove_visible = λ c e. refl;
  arrow_visible = λ down e. refl;
  css_hidden = λ e. refl;
  css_shown = λ e. refl;
}

abbrev no_class : Class → Bool
no_class c = false

abbrev row_at : Str → Bool → Element
row_at s seen = record { name = row_ ++ s; seen = seen; classes = no_class; down = false }

-- `row_0_`, with the child `row_0_0_` and its child, and `row_1_`.
abbrev first_row : Element
first_row = row_at (48 ∷ 95 ∷ []) true

abbrev rows_after : List Element
rows_after =
    row_at (48 ∷ 95 ∷ 48 ∷ 95 ∷ []) true
    ∷ row_at (48 ∷ 95 ∷ 48 ∷ 95 ∷ 48 ∷ 95 ∷ []) false
    ∷ row_at (49 ∷ 95 ∷ []) true
    ∷ []

toggle_level-IsStriped_example :
    IsStriped query
      (map (λ r. leb (depth (query.id r)) (1 + 1)) (first_row ∷ rows_after))
      (toggle_level query 1 (first_row ∷ rows_after))
toggle_level-IsStriped_example =
    toggle_level-IsStriped query 1 (first_row ∷ rows_after) query-IsQuery

toggle_folder-IsStriped_example :
    IsStriped query
      ([]
        ++ (true
            ∷ map
                (λ r.
                  if first_child_visible query (48 ∷ 95 ∷ []) rows_after
                  then not (is_below (48 ∷ 95 ∷ []) (query.id r)) && query.is_visible r
                  else is_child_id (48 ∷ 95 ∷ []) (query.id r) || query.is_visible r)
                rows_after))
      (toggle_folder query (48 ∷ 95 ∷ []) [] first_row rows_after)
toggle_folder-IsStriped_example =
    toggle_folder-IsStriped query (48 ∷ 95 ∷ []) [] first_row rows_after query-IsQuery
