-- ===== src/Search/Navigate/Outline.antt =====
-- Opening and closing a result (docs/html/search/search.js) leaves every item where it was.
use mathlib.Core.Path.{subst}
use embedded_linux.Common.{
  ℕ, suc, ◌<◌, ◌≡◌, refl, sym, ap, ◌∙◌, Option, none, some, List, [], ◌∷◌, inl, inr, ◌==◌,
  Bool-cases, Option-cases,
}
use embedded_linux.Search.{
  Str, same, Display, Children, Div, Focus, on_field, on_item, on_child, elsewhere, is_block,
}
use embedded_linux.Search.Results.{find_item, show_children}
use embedded_linux.Search.Results.Focus.{IsVisibleItem}
use embedded_linux.Search.Navigate.{child_count}
use embedded_linux.Search.Navigate.Reach.{IsReachable}

abbrev pub kids : Option Children → ℕ
kids none = 0
kids (some c) = c.count

-- What the focus depends on: the display of a row and the number of its children.
abbrev pub outline : Option Div → Option (Display × ℕ)
outline none = none
outline (some d) = some (d.display, kids d.children)

abbrev pub with_display : Display → Option Children → Option Children
with_display v none = none
with_display v (some c) = some (record c { display = v })

kids-with_display : (v : Display) (c : Option Children) → kids (with_display v c) ≡ kids c
kids-with_display v none = refl
kids-with_display v (some c) = refl

with_display_lem :
    (v : Display) (c : Option Children)
    → (elim c as (λ _. Option Children) [ none ↦ none | some k ↦ some (record k { display = v }) ])
      ≡ with_display v c
with_display_lem v none = refl
with_display_lem v (some c) = refl

outline-show_children :
    (ds : List Div) (id : Str) (v : Display) (k : ℕ)
    → outline (find_item (show_children ds id v) k) ≡ outline (find_item ds k)
unfolding find_item show_children
outline-show_children [] id v k = refl
outline-show_children (d ∷ ds) id v k =
    let rest = outline-show_children ds id v k in
    elim (Bool-cases (same d.id id)) [
      | inl here ↦ elim (Option-cases (d.item)) [
        | inl bare ↦ simp (here, bare)
        | inr (j, numbered) ↦ elim (Bool-cases (j == k)) [
          | inl found ↦ simp (here, numbered, found, with_display_lem, kids-with_display)
          | inr passed ↦ simp (here, numbered, passed)
        ]
      ]
      | inr away ↦ elim (Option-cases (d.item)) [
        | inl bare ↦ simp (away, bare, rest)
        | inr (j, numbered) ↦ elim (Bool-cases (j == k)) [
          | inl found ↦ simp (away, numbered, found)
          | inr passed ↦ simp (away, numbered, passed, rest)
        ]
      ]
    ]

abbrev pub second : Option (Display × ℕ) → ℕ
second none = 0
second (some (_, n)) = n

kids_lem : (c : Option Children) → (elim c as (λ _. ℕ) [ none ↦ 0 | some k ↦ k.count ]) ≡ kids c
kids_lem none = refl
kids_lem (some c) = refl

child_count_lem :
    (ds : List Div) (k : ℕ) → child_count ds (suc k) ≡ second (outline (find_item ds k))
unfolding child_count
child_count_lem ds k = elim (Option-cases (find_item ds k)) [
  | inl gone ↦ simp (child_count, gone)
  | inr (row, found) ↦ simp (child_count, found, kids_lem)
]

child_count-outline :
    (ds es : List Div) (k : ℕ)
    → outline (find_item ds k) ≡ outline (find_item es k)
    → child_count ds (suc k) ≡ child_count es (suc k)
child_count-outline ds es k e = child_count_lem ds k ∙ ap second e ∙ sym (child_count_lem es k)

IsVisibleItem-outline :
    (ds es : List Div) (k : ℕ)
    → outline (find_item ds k) ≡ outline (find_item es k)
    → IsVisibleItem es k
    → IsVisibleItem ds k
IsVisibleItem-outline ds es k e (row, found, shown) = elim (Option-cases (find_item ds k)) [
  | inl gone ↦ absurd (cc)
  | inr (other, there) ↦
      let alike : some (other.display, kids other.children)
          ≡ some (row.display, kids row.children) =
        sym (ap outline there) ∙ e ∙ ap outline found in
      let same_display : other.display ≡ row.display = cc in
      (other, there, ap is_block same_display ∙ shown)
]

pub show_children-IsReachable :
    (ds : List Div) (id : Str) (v : Display) (f : Focus)
    → IsReachable ds f
    → IsReachable (show_children ds id v) f
show_children-IsReachable ds id v on_field h = tt
show_children-IsReachable ds id v (on_item k) h =
    IsVisibleItem-outline (show_children ds id v) ds k (outline-show_children ds id v k) h
show_children-IsReachable ds id v (on_child k c) h =
    subst (λ n. c < n)
      (sym (child_count-outline (show_children ds id v) ds k (outline-show_children ds id v k))) h
show_children-IsReachable ds id v elsewhere h = tt
