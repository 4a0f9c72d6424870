-- ===== src/Menu/Start/Resized.antt =====
-- The menu and the search box after changes of the size of the window (docs/html/menu.js), whether
-- or not `CloseResultsWindow` throws.
use mathlib.Core.Path.{subst}
use embedded_linux.Common.{
  ℕ, ◌<◌, ◌≡◌, ◌⊎◌, refl, sym, ap, ap₂, ◌∙◌, Bool, true, false, not, ◌&&◌, ◌||◌, inl, inr,
  Bool-cases, Option, none, List, [], ◌∷◌, All, arith, ltb, ◌==◌, ==_iff, if◌then◌else◌, is_some,
}
use embedded_linux.Menu.{Menu, BoxHtml, has_close, close_results, narrow, wide, reset_state}

-- A sequence of sizes of the window, and the last of them.
abbrev pub resized : Option BoxHtml → List ℕ → Menu → Menu
resized html [] m = m
resized html (w ∷ ws) m = resized html ws (reset_state html w m)

abbrev pub last_width : ℕ → List ℕ → ℕ
last_width w [] = w
last_width w (v ∷ ws) = last_width v ws

-- Whether CloseResultsWindow is not called or finds its elements.
abbrev pub can_close : Bool → Bool → Bool → Bool
can_close has_box has_results closes = if has_box then has_results && closes else true

-- The search box and the menu are as a window of this width has them.
pub record IsPlaced (html : Option BoxHtml) (width : ℕ) (m : Menu) : Type 0 where
  pub first : m.first_place ≡ (if ltb width 768 then html else none)
  pub second : ltb width 768 ≡ false → (m.second_place ≡ html) × (m.second_shown ≡ true)
  pub kept : (m.second_place ≡ none) ⊎ (m.second_place ≡ html)
  pub menu : m.menu_shown ≡ not (ltb width 768)

-- Two menus that differ in `prevWidth` and the search panel at most.
record IsSame (m n : Menu) : Type 0 where
  pub first : n.first_place ≡ m.first_place
  pub second : n.second_place ≡ m.second_place
  shown : n.second_shown ≡ m.second_shown
  pub menu : n.menu_shown ≡ m.menu_shown
  pub results : n.has_results ≡ m.has_results
  pub box : is_some n.search_box ≡ is_some m.search_box

abbrev placed : Option BoxHtml → ℕ → Menu → Menu
placed html width m = if ltb width 768 then narrow html m else wide html m

close_results-IsSame :
    (m : Menu)
    → IsSame m (close_results m).0
      × ((close_results m).0.prev_width ≡ m.prev_width)
      × ((close_results m).1
          ≡ can_close
              (is_some m.search_box)
              m.has_results
              (has_close m.first_place || has_close m.second_place))
unfolding close_results
close_results-IsSame m = ground arith

placed-IsPlaced :
    (html : Option BoxHtml) (width : ℕ) (m : Menu)
    → (m.second_place ≡ none) ⊎ (m.second_place ≡ html)
    → IsPlaced html width (placed html width m)
unfolding narrow wide
placed-IsPlaced html width m kept = elim (Bool-cases (ltb width 768)) [
  | inl small ↦ rw small record {
    first = rw small;
    second = λ e. absurd (cc (small, e));
    kept = kept;
    menu = rw small;
  }
  | inr large ↦
      rw large
        record { first = rw large; second = λ e. (refl, refl); kept = inr refl; menu = rw large }
]

-- The new place of the search box has an element `MSearchClose` exactly if the markup has.
placed-has_close :
    (html : Option BoxHtml) (width : ℕ) (m : Menu)
    → (m.second_place ≡ none) ⊎ (m.second_place ≡ html)
    → let n = placed html width m in
      ((has_close n.first_place || has_close n.second_place) ≡ has_close html)
      × (n.prev_width ≡ m.prev_width)
      × (n.has_results ≡ m.has_results)
      × (n.search_box ≡ m.search_box)
unfolding narrow wide has_close
placed-has_close html width m kept = elim (Bool-cases (ltb width 768)) [
  | inl small ↦ elim kept [
    | inl e ↦ rw (small, e) (ground arith, refl, refl, refl)
    | inr e ↦ rw (small, e) (ground arith, refl, refl, refl)
  ]
  | inr large ↦ rw large (refl, refl, refl, refl)
]

IsSame-IsPlaced :
    (html : Option BoxHtml) (width w : ℕ) (m n : Menu)
    → IsSame m n
    → IsPlaced html width m
    → IsPlaced html width (record n { prev_width = w })
IsSame-IsPlaced html width w m n s p = record {
  first = s.first ∙ p.first;
  second = λ e. (s.second ∙ (p.second e).0, s.shown ∙ (p.second e).1);
  kept = elim (p.kept) [ inl e ↦ inl (s.second ∙ e) | inr e ↦ inr (s.second ∙ e) ];
  menu = s.menu ∙ p.menu;
}

-- The page of a menu that was set for this width: it has a search panel or not, and an element
-- `MSearchResultsWindow` or not.
pub record IsSized (html : Option BoxHtml) (has_box has_results : Bool) (width : ℕ) (m : Menu)
    : Type 0 where
  pub place : IsPlaced html width m
  pub box : is_some m.search_box ≡ has_box
  pub results : m.has_results ≡ has_results
  pub prev : m.prev_width ≡ (if can_close has_box has_results (has_close html) then width else 0)

module _ (html : Option BoxHtml) (has_box has_results : Bool) where
  -- The body of `resetState` for a new width.
  reset_moved :
      (width : ℕ) (m : Menu)
      → (m.second_place ≡ none) ⊎ (m.second_place ≡ html)
      → is_some m.search_box ≡ has_box
      → m.has_results ≡ has_results
      → (can_close has_box has_results (has_close html) ≡ false → m.prev_width ≡ 0)
      → let (closed, done) = close_results (placed html width m) in
        IsSized html has_box has_results width
          (if done then record closed { prev_width = width } else closed)
  reset_moved width m kept boxed page zero =
      let n = placed html width m in
      let (same, prev, done) = close_results-IsSame n in
      let (closes, before, results, box) = placed-has_close html width m kept in
      let ends : (close_results n).1 ≡ can_close has_box has_results (has_close html) =
        done
        ∙ ap
            (λ b.
              can_close (is_some b) n.has_results
                (has_close n.first_place || has_close n.second_place))
            box
        ∙ ap₂ (λ b r. can_close b r (has_close n.first_place || has_close n.second_place)) boxed
            (results ∙ page)
        ∙ ap (λ c. can_close has_box has_results c) closes in
      let place = placed-IsPlaced html width m kept in
      let c = (close_results n).0 in
      elim (Bool-cases (can_close has_box has_results (has_close html))) [
        | inl found ↦ rw (ends ∙ found) record {
          place = IsSame-IsPlaced html width width n c same place;
          box = same.box ∙ ap (λ b. is_some b) box ∙ boxed;
          results = same.results ∙ results ∙ page;
          prev = rw found;
        }
        | inr missing ↦ rw (ends ∙ missing) record {
          place = IsSame-IsPlaced html width c.prev_width n c same place;
          box = same.box ∙ ap (λ b. is_some b) box ∙ boxed;
          results = same.results ∙ results ∙ page;
          prev = prev ∙ before ∙ zero missing ∙ rw missing;
        }
      ]

  pub reset_state-first :
      (width : ℕ) (m : Menu)
      → 0 < width
      → m.second_place ≡ none
      → is_some m.search_box ≡ has_box
      → m.has_results ≡ has_results
      → m.prev_width ≡ 0
      → IsSized html has_box has_results width (reset_state html width m)
  unfolding reset_state
  reset_state-first width m positive bare boxed page zero =
      let moved : (width == m.prev_width) ≡ false = ground (arith, zero) in
      rw moved (reset_moved width m (inl bare) boxed page (λ e. zero))

  reset_state-IsSized :
      (before width : ℕ) (m : Menu)
      → 0 < width
      → IsSized html has_box has_results before m
      → IsSized html has_box has_results width (reset_state html width m)
  unfolding reset_state
  reset_state-IsSized before width m positive s = elim (Bool-cases (width == m.prev_width)) [
    | inr moved ↦
        rw moved (reset_moved width m s.place.kept s.box s.results (λ missing. s.prev ∙ rw missing))
    | inl still ↦
        let e : width ≡ m.prev_width = (==_iff width m.prev_width).0 still in
        elim (Bool-cases (can_close has_box has_results (has_close html))) [
          | inr missing ↦
              let zero : m.prev_width ≡ 0 = s.prev ∙ rw missing in absurd (omega (arith, zero, e))
          | inl found ↦
              let same : before ≡ width = sym (e ∙ s.prev ∙ rw found) in
              rw still (subst (λ w. IsSized html has_box has_results w m) same s)
        ]
  ]

  pub resized-IsSized :
      (width : ℕ) (widths : List ℕ) (m : Menu)
      → All (λ w. 0 < w) widths
      → IsSized html has_box has_results width m
      → IsSized html has_box has_results (last_width width widths) (resized html widths m)
  resized-IsSized width [] m positive s = s
  resized-IsSized width (w ∷ ws) m (now, later) s =
      resized-IsSized w ws (reset_state html w m) later (reset_state-IsSized width w m now s)
