-- ===== src/Folding/Directory.antt =====
-- Opening and closing the folders of a directory, and showing it to a depth
-- (docs/html/dynsections.js).
use mathlib.Core.Path.{subst}
use embedded_linux.Common.{
  ℕ, ◌+◌, ◌≡◌, refl, sym, ap, ap₂, ◌∙◌, Bool, true, false, not, ◌&&◌, ◌||◌, inl, inr, Bool-cases,
  List, [], ◌∷◌, ◌++◌, map, arith, ltb, leb, ◌==◌, if◌then◌else◌,
}
use embedded_linux.Search.{Str}
use embedded_linux.Folding.{
  iconfopen, iconfclosed, Query, IsQuery, update_stripes, depth, set_level, toggle_level,
  is_child_id, is_below, first_child_visible, fold_icon, unfold_icon, hide_below, show_child,
  toggle_folder,
}
use embedded_linux.Folding.Rows.{visible, IsStriped, update_stripes-IsStriped}

ltb→leb : (a b : ℕ) → ltb a b ≡ true → leb a b ≡ true
ltb→leb a b h = ground arith

==→leb : (a b : ℕ) → (a == b) ≡ true → leb a b ≡ true
==→leb a b h = ground arith

past : (a b : ℕ) → ltb a b ≡ false → (a == b) ≡ false → leb a b ≡ false
past a b h k = ground arith

module _ {E : Type 0} (q : Query E) (law : IsQuery q) where
  visible-set_level :
      (level : ℕ) (rows : List E)
      → visible q (map (set_level q level) rows) ≡ map (λ r. leb (depth (q.id r)) (level + 1)) rows
  unfolding set_level
  visible-set_level level [] = refl
  visible-set_level level (r ∷ rs) =
      ap₂ (λ v vs. v ∷ vs)
        (elim (Bool-cases (ltb (depth (q.id r)) (level + 1))) [
          | inl above ↦ simp (above, law.shown) (sym (ltb→leb _ _ above))
          | inr deep ↦ elim (Bool-cases (depth (q.id r) == level + 1)) [
            | inl at ↦ simp (deep, at, law.shown) (sym (==→leb _ _ at))
            | inr below ↦ simp (deep, below, law.hidden) (sym (past _ _ deep below))
          ]
        ])
        (visible-set_level level rs)

  visible-append : (xs ys : List E) → visible q (xs ++ ys) ≡ visible q xs ++ visible q ys
  visible-append [] ys = refl
  visible-append (x ∷ xs) ys = ap (λ vs. q.is_visible x ∷ vs) (visible-append xs ys)

  visible-hide_below :
      (id : Str) (rows : List E)
      → visible q (map (hide_below q id) rows)
        ≡ map (λ r. not (is_below id (q.id r)) && q.is_visible r) rows
  unfolding hide_below
  visible-hide_below id [] = refl
  visible-hide_below id (r ∷ rs) =
      ap₂ (λ v vs. v ∷ vs)
        (elim (Bool-cases (is_below id (q.id r))) [
          | inl below ↦ simp (below, law.hidden)
          | inr other ↦ simp (other)
        ])
        (visible-hide_below id rs)

  visible-show_child :
      (id : Str) (rows : List E)
      → visible q (map (show_child q id) rows)
        ≡ map (λ r. is_child_id id (q.id r) || q.is_visible r) rows
  unfolding show_child
  visible-show_child id [] = refl
  visible-show_child id (r ∷ rs) =
      ap₂ (λ v vs. v ∷ vs)
        (elim (Bool-cases (is_child_id id (q.id r))) [
          | inl child ↦ simp (child, law.shown)
          | inr other ↦ simp (other)
        ])
        (visible-show_child id rs)

  is_visible-fold_icon : (r : E) → q.is_visible (fold_icon q r) ≡ q.is_visible r
  unfolding fold_icon
  is_visible-fold_icon r = elim (Bool-cases (q.has_class r iconfopen)) [
    | inl e ↦ simp (e, law.arrow_visible, law.add_visible, law.remove_visible)
    | inr e ↦ simp (e, law.arrow_visible)
  ]

  is_visible-unfold_icon : (r : E) → q.is_visible (unfold_icon q r) ≡ q.is_visible r
  unfolding unfold_icon
  is_visible-unfold_icon r = elim (Bool-cases (q.has_class r iconfclosed)) [
    | inl e ↦ simp (e, law.arrow_visible, law.add_visible, law.remove_visible)
    | inr e ↦ simp (e, law.arrow_visible)
  ]

-- What `toggleFolder` makes of the rows, when it hides them and when it shows them.
abbrev folder_flags : {E : Type 0} → Query E → Str → List E → E → List E → Bool → List Bool
folder_flags q id before current after hiding =
    map (λ r. q.is_visible r) before
    ++ (q.is_visible current
        ∷ map
            (λ r.
              if hiding
              then not (is_below id (q.id r)) && q.is_visible r
              else is_child_id id (q.id r) || q.is_visible r)
            after)

abbrev folder_rows : {E : Type 0} → Query E → Str → List E → E → List E → Bool → List E
folder_rows q id before current after hiding =
    if hiding
    then before ++ (fold_icon q current ∷ map (hide_below q id) after)
    else before ++ (unfold_icon q current ∷ map (show_child q id) after)

visible-folder_rows :
    {E : Type 0} (q : Query E) (id : Str) (before : List E) (current : E) (after : List E)
    (hiding : Bool)
    → IsQuery q
    → visible q (folder_rows q id before current after hiding)
      ≡ folder_flags q id before current after hiding
visible-folder_rows q id before current after true law =
    visible-append q law before (fold_icon q current ∷ map (hide_below q id) after)
    ∙ ap₂ (λ v vs. visible q before ++ (v ∷ vs)) (is_visible-fold_icon q law current)
        (visible-hide_below q law id after)
visible-folder_rows q id before current after false law =
    visible-append q law before (unfold_icon q current ∷ map (show_child q id) after)
    ∙ ap₂ (λ v vs. visible q before ++ (v ∷ vs)) (is_visible-unfold_icon q law current)
        (visible-show_child q law id after)

-- After `toggleLevel(level)`, whatever the directory, exactly the rows of a depth of at most
-- `level` + 1 (the underscores in their ids) are visible, and every other one of these has the
-- class `even` and the rest of these `odd`, in order from the first; hidden rows have neither
-- class. jQuery does as it documents (`IsQuery`).
pub toggle_level-IsStriped :
    {E : Type 0} (q : Query E) (level : ℕ) (rows : List E)
    → IsQuery q
    → IsStriped q (map (λ r. leb (depth (q.id r)) (level + 1)) rows) (toggle_level q level rows)
unfolding toggle_level
toggle_level-IsStriped q level rows law =
    subst (λ vs. IsStriped q vs (toggle_level q level rows)) (visible-set_level q law level rows)
      (update_stripes-IsStriped q law (map (set_level q level) rows))

-- After `toggleFolder(id)` the rows before the one that was clicked, and that row, are visible as
-- they were. If the first child of the row was visible, all rows after it whose ids begin with its
-- own are hidden; otherwise its children are visible; the others are as they were. The visible
-- rows of the whole directory are striped, `even` first, and hidden rows have neither class.
-- jQuery does as it documents (`IsQuery`).
pub toggle_folder-IsStriped :
    {E : Type 0} (q : Query E) (id : Str) (before : List E) (current : E) (after : List E)
    → IsQuery q
    → IsStriped q
        (map (λ r. q.is_visible r) before
          ++ (q.is_visible current
              ∷ map
                  (λ r.
                    if first_child_visible q id after
                    then not (is_below id (q.id r)) && q.is_visible r
                    else is_child_id id (q.id r) || q.is_visible r)
                  after))
        (toggle_folder q id before current after)
unfolding toggle_folder
toggle_folder-IsStriped q id before current after law =
    let hiding : Bool = first_child_visible q id after in
    subst (λ vs. IsStriped q vs (update_stripes q (folder_rows q id before current after hiding)))
      (visible-folder_rows q id before current after hiding law)
      (update_stripes-IsStriped q law (folder_rows q id before current after hiding))
