-- ===== src/Folding/Rows.antt =====
-- Which rows of a directory are visible, and their stripes (docs/html/dynsections.js).
use embedded_linux.Common.{
  ℕ, ◌≡◌, ◌≢◌, refl, sym, ap, ap₂, ◌∙◌, Bool, true, false, not, ◌&&◌, Bool-both, List, [], ◌∷◌, map,
  arith, if◌then◌else◌,
}
use embedded_linux.Folding.{
  Class, even, odd, iconfopen, iconfclosed, opened, closed, Query, IsQuery, stripe, update_stripes,
}

-- The stripes of rows by their visibility: every other visible row has one, a hidden row none.
abbrev pub striped : Bool → List Bool → List (Bool × Bool)
striped p [] = []
striped p (v ∷ vs) = (v, v && p) ∷ striped (if v then not p else p) vs

abbrev pub class_number : Class → ℕ
class_number even = 0
class_number odd = 1
class_number iconfopen = 2
class_number iconfclosed = 3
class_number opened = 4
class_number closed = 5

module _ {E : Type 0} (q : Query E) where
  abbrev pub visible : List E → List Bool
  visible rows = map (q.is_visible) rows

  abbrev pub mark : Class → E → Bool × Bool
  mark c r = (q.is_visible r, q.has_class r c)

  abbrev pub marks : Class → List E → List (Bool × Bool)
  marks c rows = map (mark c) rows

  -- The rows with these visibilities, striped.
  abbrev pub IsStriped : List Bool → List E → Type 0
  IsStriped vs rows = (marks even rows ≡ striped true vs) × (marks odd rows ≡ striped false vs)

module _ {E : Type 0} (q : Query E) (law : IsQuery q) where
  -- The class of a row that gets its stripe, or loses it.
  abbrev painted : Class → Bool → E → E
  painted c p r = if p then q.add_class c (q.remove_class c r) else q.remove_class c r

  painted_other : (c d : Class) (p : Bool) (r : E) → c ≢ d → mark q d (painted c p r) ≡ mark q d r
  painted_other c d false r apart =
      ap₂ (λ v m. (v, m)) (law.remove_visible c r) (law.remove_other c d r apart)
  painted_other c d true r apart =
      ap₂ (λ v m. (v, m)) (law.add_visible c (q.remove_class c r))
        (law.add_other c d (q.remove_class c r) apart)
      ∙ ap₂ (λ v m. (v, m)) (law.remove_visible c r) (law.remove_other c d r apart)

  painted_own : (c : Class) (p : Bool) (r : E) → mark q c (painted c p r) ≡ (q.is_visible r, p)
  painted_own c false r = ap₂ (λ v m. (v, m)) (law.remove_visible c r) (law.removed c r)
  painted_own c true r =
      ap₂ (λ v m. (v, m)) (law.add_visible c (q.remove_class c r) ∙ law.remove_visible c r)
        (law.added c (q.remove_class c r))

  marks-stripe_other :
      (c d : Class) (p : Bool) (rows : List E)
      → c ≢ d
      → marks q d (stripe q c p rows) ≡ marks q d rows
  unfolding stripe
  marks-stripe_other c d p [] apart = refl
  marks-stripe_other c d p (r ∷ rs) apart =
      Bool-both (λ rows. marks q d rows ≡ marks q d (r ∷ rs)) (q.is_visible (q.remove_class c r))
        (λ _.
          ap₂ (λ m ms. m ∷ ms) (painted_other c d false r apart)
            (marks-stripe_other c d p rs apart))
        (λ _.
          ap₂ (λ m ms. m ∷ ms) (painted_other c d p r apart)
            (marks-stripe_other c d (not p) rs apart))

  marks-stripe :
      (c : Class) (p : Bool) (rows : List E)
      → marks q c (stripe q c p rows) ≡ striped p (visible q rows)
  unfolding stripe
  marks-stripe c p [] = refl
  marks-stripe c p (r ∷ rs) =
      let next : Bool → List (Bool × Bool) =
        λ v. (v, v && p) ∷ striped (if v then not p else p) (visible q rs) in
      let same : q.is_visible (q.remove_class c r) ≡ q.is_visible r = law.remove_visible c r in
      Bool-both (λ rows. marks q c rows ≡ next (q.is_visible r)) (q.is_visible (q.remove_class c r))
        (λ unseen.
          let h : q.is_visible r ≡ false = sym same ∙ unseen in
          ap₂ (λ m ms. m ∷ ms) (painted_own c false r ∙ ap (λ v. (v, false)) h)
            (marks-stripe c p rs)
          ∙ ap next (sym h))
        (λ seen.
          let h : q.is_visible r ≡ true = sym same ∙ seen in
          ap₂ (λ m ms. m ∷ ms) (painted_own c p r ∙ ap (λ v. (v, p)) h) (marks-stripe c (not p) rs)
          ∙ ap next (sym h))

  visible-marks :
      (c : Class) (rows : List E) → map (λ (m : Bool × Bool). m.0) (marks q c rows) ≡ visible q rows
  visible-marks c [] = refl
  visible-marks c (r ∷ rs) = ap (λ vs. q.is_visible r ∷ vs) (visible-marks c rs)

  even≢odd : even ≢ odd
  even≢odd h = omega (arith, ap class_number h)

  odd≢even : odd ≢ even
  odd≢even h = omega (arith, ap class_number h)

  pub update_stripes-IsStriped :
      (rows : List E) → IsStriped q (visible q rows) (update_stripes q rows)
  unfolding update_stripes
  update_stripes-IsStriped rows =
      let first : List E = stripe q even true rows in
      let kept : visible q first ≡ visible q rows =
        sym (visible-marks odd first)
        ∙ ap (λ ms. map (λ (m : Bool × Bool). m.0) ms)
            (marks-stripe_other even odd true rows even≢odd)
        ∙ visible-marks odd rows in
      (
        marks-stripe_other odd even false first odd≢even ∙ marks-stripe even true rows,
        marks-stripe odd false first ∙ ap (striped false) kept,
      )
