-- ===== src/Search/Navigate/Arrows.antt =====
-- Where the keys of a result leave the focus (docs/html/search/search.js, `Nav`).
use mathlib.Core.Path.{subst}
use embedded_linux.Common.{
  ℕ, zero, suc, ◌-◌, ◌<◌, ◌≡◌, refl, sym, Bool, true, false, not, ◌&&◌, some, List, arith, inl, inr,
  ltb, ◌==◌, Bool-cases, Option-cases, ltb→lt,
}
use embedded_linux.Search.{hidden, block, Div, Page, Focus, on_field, on_item, on_child}
use embedded_linux.Search.Results.{
  show_children, find_child_element, nav_prev, KeyEvent, key_code, process_keys,
}
use embedded_linux.Search.Results.Focus.{IsVisibleItem, IsPrevious, nav_prev-IsPrevious}
use embedded_linux.Search.Navigate.{
  Site, child_count, are_open, last_child, nav_up, nav_down, nav_key, nav, focus_next,
  leave_results,
}
use embedded_linux.Search.Navigate.Reach.{
  IsReachable, IsFocused, process_keys-keeps, focus_next-IsReachable,
}
use embedded_linux.Search.Navigate.Outline.{show_children-IsReachable}

last_child-IsReachable :
    (divs : List Div) (rounds i n : ℕ) (f : Focus)
    → IsReachable divs f
    → IsReachable divs (last_child rounds (child_count divs (suc i)) (suc i) n f)
unfolding last_child
last_child-IsReachable divs zero i n f h = h
last_child-IsReachable divs (suc rounds) i n f h =
    elim (Bool-cases (ltb n (child_count divs (suc i)))) [
      | inl more ↦
          let here : IsReachable divs (on_child (suc i - 1) n) =
            subst (λ k. n < child_count divs (suc k)) {x = i} {y = suc i - 1} (omega arith)
              (ltb→lt _ _ more) in
          simp (more) (last_child-IsReachable divs rounds i (suc n) (on_child (suc i - 1) n) here)
      | inr over ↦ simp (over) h
    ]

nav_up-IsReachable : (p : Page) (i : ℕ) → IsReachable p.divs (nav_up p i)
unfolding nav_up nav_prev
nav_up-IsReachable p zero = tt
nav_up-IsReachable p (suc i) = elim (Option-cases (nav_prev p.divs (suc i))) [
  | inl first ↦
      let run : nav_up p (suc i) ≡ on_field = simp (nav_up, first) in
      subst (IsReachable p.divs) (sym run) tt
  | inr (k, before) ↦
      let spot : IsPrevious p.divs (suc i) (some k) =
        subst (IsPrevious p.divs (suc i)) before (nav_prev-IsPrevious p.divs (suc i)) in
      let (row, found, _) = spot.1 in
      let count : ℕ = child_count p.divs (suc i) in
      elim (Bool-cases (are_open (find_child_element p.divs row.id))) [
        | inl spread ↦
            let run : nav_up p (suc i) ≡ last_child (suc count) count (suc i) 0 (on_item k) =
              simp (nav_up, before, found, spread) in
            subst (IsReachable p.divs) (sym run)
              (last_child-IsReachable p.divs (suc count) i 0 (on_item k) (spot.1))
        | inr folded ↦
            let run : nav_up p (suc i) ≡ on_item k = simp (nav_up, before, found, folded) in
            subst (IsReachable p.divs) (sym run) (spot.1)
      ]
]

and-right : (a b : Bool) → (a && b) ≡ true → b ≡ true
and-right true b e = e
and-right false true e = refl
and-right false false e = e

nav_down-IsReachable :
    (p : Page) (i : ℕ) (row : Div)
    → IsReachable p.divs p.focus
    → IsReachable (nav_down p i row).divs (nav_down p i row).focus
unfolding nav_down
nav_down-IsReachable p i row h =
    elim (Bool-cases
      (are_open (find_child_element p.divs row.id) && ltb 0 (child_count p.divs (suc i)))) [
        | inl inner ↦
            let run : nav_down p i row ≡ record p { focus = on_child i 0 } =
              simp (nav_down, inner) in
            let some_child : 0 < child_count p.divs (suc i) = ltb→lt _ _ (and-right _ _ inner) in
            subst (λ (q : Page). IsReachable q.divs q.focus) (sym run) some_child
        | inr next ↦
            let run : nav_down p i row ≡ focus_next p (suc i) = simp (nav_down, next) in
            subst (λ (q : Page). IsReachable q.divs q.focus) (sym run)
              (focus_next-IsReachable p (suc i) h)
      ]

nav_key-IsFocused :
    (s : Site) (p : Page) (i : ℕ)
    → IsVisibleItem p.divs i
    → IsReachable p.divs p.focus
    → IsFocused (nav_key s p i)
unfolding nav_key leave_results
nav_key-IsFocused s p i (row, found, seen) h = elim (Bool-cases (p.last_key == 38)) [
  | inl up ↦ (
    record s { page = record p { focus = nav_up p i } },
    false,
    simp (up),
    nav_up-IsReachable p i,
  )
  | inr not_up ↦ elim (Bool-cases (p.last_key == 27)) [
    | inl escape ↦ (leave_results s p, false, simp (not_up, escape), tt)
    | inr stay ↦ elim (Bool-cases (p.last_key == 40)) [
      | inl down ↦ (
        record s { page = nav_down p i row },
        false,
        simp (not_up, stay, down, found),
        nav_down-IsReachable p i row h,
      )
      | inr not_down ↦ elim (Bool-cases (p.last_key == 39)) [
        | inl right ↦ (
          record s { page = record p { divs = show_children p.divs row.id block } },
          false,
          simp (not_up, stay, not_down, right, found),
          show_children-IsReachable p.divs row.id block p.focus h,
        )
        | inr not_right ↦ elim (Bool-cases (p.last_key == 37)) [
          | inl left ↦ (
            record s { page = record p { divs = show_children p.divs row.id hidden } },
            false,
            simp (not_up, stay, not_down, not_right, left, found),
            show_children-IsReachable p.divs row.id hidden p.focus h,
          )
          | inr rest ↦ (
            record s { page = p },
            p.last_key == 13,
            simp (not_up, stay, not_down, not_right, rest),
            h,
          )
        ]
      ]
    ]
  ]
]

-- At an item of a result that is displayed, and with the focus on the search field, on a displayed
-- result, on a link that exists or elsewhere, `Nav` does not throw, whatever the event, and leaves
-- the focus in one of these places.
pub nav-IsFocused :
    (s : Site) (e : KeyEvent) (i : ℕ)
    → IsVisibleItem s.page.divs i
    → IsReachable s.page.divs s.page.focus
    → IsFocused (nav s e i)
unfolding nav
nav-IsFocused s e i visible here =
    let p : Page = (process_keys s.page e).0 in
    let (divs, focus) = process_keys-keeps s.page e in
    let here' : IsReachable p.divs p.focus =
      subst (λ (d : List Div). IsReachable d p.focus) (sym divs)
        (subst (λ (f : Focus). IsReachable s.page.divs f) (sym focus) here) in
    elim (Bool-cases (key_code e == 13)) [
      | inl enter ↦ (s, true, simp (enter), here)
      | inr other_key ↦ elim (Bool-cases (not (process_keys s.page e).1)) [
        | inl ignored ↦ (record s { page = p }, false, simp (other_key, ignored), here')
        | inr acts ↦
            simp (other_key, acts)
              (nav_key-IsFocused s p i
                (subst (λ (d : List Div). IsVisibleItem d i) (sym divs) visible) here')
      ]
    ]
