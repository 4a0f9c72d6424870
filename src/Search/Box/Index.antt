-- ===== src/Search/Box/Index.antt =====
-- The place of a character in a section of the index (docs/html/search/search.js).
use mathlib.Core.Path.{subst}
use embedded_linux.Common.{
  ℕ, zero, suc, ◌<◌, ◌≡◌, refl, sym, ◌∙◌, Bool, true, false, inl, inr, Bool-cases, Option, none,
  some, [], ◌∷◌, ◌++◌, arith, length, ◌==◌, replicate, Option-cases,
}
use embedded_linux.Search.{Str, same}
use embedded_linux.Search.Results.{strip_leading, starts_with}
use embedded_linux.Search.Ids.Prefix.{is_prefix, starts_with_lem}
use embedded_linux.Search.Box.{index_of}

-- The word stands at place i of the text.
abbrev pub occurs : Str → Str → ℕ → Bool
occurs word s zero = is_prefix word s
occurs word [] (suc i) = false
occurs word (c ∷ s) (suc i) = occurs word s i

-- The word stands nowhere, or at this place first.
abbrev pub IsFirst : Str → Str → Option ℕ → Type 0
IsFirst word s none = (j : ℕ) → occurs word s j ≡ false
IsFirst word s (some i) =
    (occurs word s i ≡ true) × ((j : ℕ) → j < i → occurs word s j ≡ false) × (i < suc (length s))

prefix_of_nothing : (word : Str) → same word [] ≡ is_prefix word []
unfolding same
prefix_of_nothing [] = refl
prefix_of_nothing (c ∷ s) = refl

shifted : Option ℕ → Option ℕ
shifted none = none
shifted (some i) = some (suc i)

IsFirst-later :
    (word s : Str) (c : ℕ) (at : Option ℕ)
    → is_prefix word (c ∷ s) ≡ false
    → IsFirst word s at
    → IsFirst word (c ∷ s) (shifted at)
unfolding shifted
IsFirst-later word s c none out f =
    λ j. elim j as (λ k. occurs word (c ∷ s) k ≡ false) [ zero ↦ out | suc k ↦ f k ]
IsFirst-later word s c (some i) out (here, before, within) = (
  here,
  λ j. elim j as (λ k. k < suc i → occurs word (c ∷ s) k ≡ false) [
    | zero ↦ λ less. out
    | suc k ↦ λ less. before k (omega arith)
  ],
  omega arith,
)

index_of_later :
    (word s : Str) (c : ℕ)
    → starts_with word (c ∷ s) ≡ false
    → index_of (c ∷ s) word ≡ shifted (index_of s word)
unfolding index_of shifted
index_of_later word s c out = elim (Option-cases (index_of s word)) [
  | inl e ↦ rw (index_of, out, e) refl
  | inr (i, e) ↦ rw (index_of, out, e) refl
]

index_of_here :
    (word s : Str) (c : ℕ) → starts_with word (c ∷ s) ≡ true → index_of (c ∷ s) word ≡ some 0
unfolding index_of
index_of_here word s c e = rw (index_of, e)

-- `indexOf` finds the first place of the word, and none only if there is none.
pub index_of-IsFirst : (word s : Str) → IsFirst word s (index_of s word)
unfolding index_of
index_of-IsFirst word [] = elim (Bool-cases (same word [])) [
  | inl e ↦ rw e (sym (prefix_of_nothing word) ∙ e, λ j less. absurd (omega arith), omega arith)
  | inr e ↦ rw e (λ j. elim j as (λ k. occurs word [] k ≡ false) [
    | zero ↦ sym (prefix_of_nothing word) ∙ e
    | suc k ↦ refl
  ])
]
index_of-IsFirst word (c ∷ s) = elim (Bool-cases (starts_with word (c ∷ s))) [
  | inl e ↦
      subst (IsFirst word (c ∷ s)) (sym (index_of_here word s c e))
        (sym (starts_with_lem word (c ∷ s)) ∙ e, λ j less. absurd (omega arith), omega arith)
  | inr e ↦ subst (IsFirst word (c ∷ s)) (sym (index_of_later word s c e)) (
      IsFirst-later word s c (index_of s word) (sym (starts_with_lem word (c ∷ s)) ∙ e)
        (index_of-IsFirst word s))
]

abbrev pub starts_blank : Str → Bool
starts_blank [] = false
starts_blank (c ∷ s) = c == 32

-- The spaces before the words are left out, and nothing else is.
pub strip_leading-replicate :
    (blanks : ℕ) (value : Str)
    → starts_blank value ≡ false
    → strip_leading (replicate blanks 32 ++ value) ≡ value
unfolding strip_leading
strip_leading-replicate zero [] h = refl
strip_leading-replicate zero (c ∷ s) h = rw (strip_leading, h)
strip_leading-replicate (suc n) value h = strip_leading-replicate n value h
