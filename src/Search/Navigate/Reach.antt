-- ===== src/Search/Navigate/Reach.antt =====
-- Where the keyboard leaves the focus (docs/html/search/search.js, `NavChild`).
use mathlib.Core.Path.{subst}
use embedded_linux.Common.{
  ℕ, suc, ◌-◌, ◌<◌, ◌≡◌, refl, sym, Bool, true, false, not, Option, some, List, arith, inl, inr,
  ltb, ◌==◌, Bool-cases, Option-cases, ltb→lt,
}
use embedded_linux.Search.{Div, Page, Focus, on_field, on_item, on_child, elsewhere}
use embedded_linux.Search.Results.{
  nav_next, KeyEvent, keydown, keypress, keyup, other, key_code, process_keys,
}
use embedded_linux.Search.Results.Focus.{IsVisibleItem, nav_next-IsNext, IsNext}
use embedded_linux.Search.Navigate.{
  Site, child_count, nav_child, nav_child_key, focus_next, leave_results,
}

-- An item has the focus only if its row is displayed, a child only if it exists.
abbrev pub IsReachable : List Div → Focus → Type 0
IsReachable divs on_field = Unit
IsReachable divs (on_item k) = IsVisibleItem divs k
IsReachable divs (on_child k c) = c < child_count divs (suc k)
IsReachable divs elsewhere = Unit

-- The handler returned, and left the focus where it may be.
abbrev pub IsFocused : Option (Site × Bool) → Type 0
IsFocused r =
    (s : Site) × (acts : Bool) × (r ≡ some (s, acts)) × IsReachable s.page.divs s.page.focus

pub process_keys-keeps :
    (p : Page) (e : KeyEvent)
    → ((process_keys p e).0.divs ≡ p.divs) × ((process_keys p e).0.focus ≡ p.focus)
unfolding process_keys
process_keys-keeps p (keydown k) = (refl, refl)
process_keys-keeps p (keypress k) = elim (Bool-cases (not p.repeat_on)) [
  | inl first ↦ elim (Bool-cases (not (p.last_key == 0))) [
    | inl held ↦ (simp (first, held), simp (first, held))
    | inr free ↦ (simp (first, free), simp (first, free))
  ]
  | inr later ↦ (simp (later), simp (later))
]
process_keys-keeps p (keyup k) = (refl, refl)
process_keys-keeps p (other k) = (refl, refl)

pub focus_next-IsReachable :
    (p : Page) (index : ℕ)
    → IsReachable p.divs p.focus
    → IsReachable (focus_next p index).divs (focus_next p index).focus
unfolding focus_next
focus_next-IsReachable p index here = elim (Option-cases (nav_next p.divs index)) [
  | inl end ↦
      let run : focus_next p index ≡ p = simp (focus_next, end) in
      subst (λ (q : Page). IsReachable q.divs q.focus) (sym run) here
  | inr (k, next) ↦
      let run : focus_next p index ≡ record p { focus = on_item k } = simp (focus_next, next) in
      let spot : IsNext p.divs index (some k) =
        subst (IsNext p.divs index) next (nav_next-IsNext p.divs index) in
      subst (λ (q : Page). IsReachable q.divs q.focus) (sym run) (spot.1)
]

nav_child_key-IsFocused :
    (s : Site) (p : Page) (i c : ℕ)
    → IsVisibleItem p.divs i
    → c < child_count p.divs (suc i)
    → IsReachable p.divs p.focus
    → IsFocused (nav_child_key s p i c)
unfolding nav_child_key leave_results
nav_child_key-IsFocused s p i c visible present here = elim (Bool-cases (p.last_key == 38)) [
  | inl up ↦ elim (Bool-cases (ltb 0 c)) [
    | inl inner ↦
        let before : ltb (c - 1) (child_count p.divs (suc i)) ≡ true = ground arith in
        (
          record s { page = record p { focus = on_child i (c - 1) } },
          false,
          simp (up, inner, before),
          ltb→lt _ _ before,
        )
    | inr first ↦ (
      record s { page = record p { focus = on_item i } },
      false,
      simp (up, first, visible.1),
      visible,
    )
  ]
  | inr not_up ↦ elim (Bool-cases (p.last_key == 40)) [
    | inl down ↦ elim (Bool-cases (ltb (suc c) (child_count p.divs (suc i)))) [
      | inl more ↦ (
        record s { page = record p { focus = on_child i (suc c) } },
        false,
        simp (not_up, down, more),
        ltb→lt _ _ more,
      )
      | inr last ↦ (
        record s { page = focus_next p (suc i) },
        false,
        simp (not_up, down, last),
        focus_next-IsReachable p (suc i) here,
      )
    ]
    | inr not_down ↦ elim (Bool-cases (p.last_key == 27)) [
      | inl escape ↦ (leave_results s p, false, simp (not_up, not_down, escape), tt)
      | inr rest ↦ (record s { page = p }, p.last_key == 13, simp (not_up, not_down, rest), here)
    ]
  ]
]

-- At a link that exists, of a result that is displayed, and with the focus on the search field, on
-- a displayed result, on a link that exists or elsewhere, `NavChild` does not throw, whatever the
-- event, and leaves the focus in one of these places.
pub nav_child-IsFocused :
    (s : Site) (e : KeyEvent) (i c : ℕ)
    → IsVisibleItem s.page.divs i
    → c < child_count s.page.divs (suc i)
    → IsReachable s.page.divs s.page.focus
    → IsFocused (nav_child s e i c)
unfolding nav_child
nav_child-IsFocused s e i c visible present here =
    let p : Page = (process_keys s.page e).0 in
    let (divs, focus) = process_keys-keeps s.page e in
    let here' : IsReachable p.divs p.focus =
      subst (λ (d : List Div). IsReachable d p.focus) (sym divs)
        (subst (λ (f : Focus). IsReachable s.page.divs f) (sym focus) here) in
    elim (Bool-cases (key_code e == 13)) [
      | inl enter ↦ (s, true, simp (enter), here)
      | inr other_key ↦ elim (Bool-cases (not (process_keys s.page e).1)) [
        | inl ignored ↦ (record s { page = p }, false, simp (other_key, ignored), here')
        | inr acts ↦
            simp (other_key, acts)
              (nav_child_key-IsFocused s p i c
                (subst (λ (d : List Div). IsVisibleItem d i) (sym divs) visible)
                (subst (λ (d : List Div). c < child_count d (suc i)) (sym divs) present) here')
      ]
    ]
