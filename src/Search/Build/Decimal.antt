-- ===== src/Search/Build/Decimal.antt =====
-- Numbers in the names of elements, `'Item'+e` (docs/html/search/search.js).
use mathlib.Core.Path.{subst}
use embedded_linux.Common.{
  ℕ, zero, suc, ◌+◌, ◌-◌, ◌*◌, ◌/◌, ◌%◌, ◌≤◌, ◌<◌, ◌≡◌, refl, sym, ap, ◌∙◌, true, false, [], ◌∷◌,
  ◌++◌, arith, inl, inr, ltb, Bool-cases, ltb→lt, All, All-append, ◌==◌, ==_iff, ==_refl, ◌&&◌, ap₂,
}
use embedded_linux.Search.{Str, same}
use embedded_linux.Search.Build.{digits, to_text}

-- The number that digits stand for, after those of `n`.
abbrev pub number_after : ℕ → Str → ℕ
number_after n [] = n
number_after n (c ∷ s) = number_after (10 * n + (c - 48)) s

number_after-append :
    (n : ℕ) (s t : Str) → number_after n (s ++ t) ≡ number_after (number_after n s) t
number_after-append n [] t = refl
number_after-append n (c ∷ s) t = number_after-append (10 * n + (c - 48)) s t

number_after-digits : (k n : ℕ) → n < k → number_after 0 (digits k n) ≡ n
unfolding digits
number_after-digits zero n h = absurd (omega arith)
number_after-digits (suc k) n h = elim (Bool-cases (ltb n 10)) [
  | inl small ↦ rw (digits, small) (omega arith)
  | inr large ↦
      let shorter : n / 10 < k = ground arith in
      rw (digits, large)
        (number_after-append 0 (digits k (n / 10)) ((48 + n % 10) ∷ [])
          ∙ omega (arith, number_after-digits k (n / 10) shorter))
]

-- A number can be read back from its digits, so that two elements never share a name.
pub number_after-to_text : (n : ℕ) → number_after 0 (to_text n) ≡ n
number_after-to_text n = number_after-digits (suc n) n (omega arith)

-- A digit is a character from '0' to '9'.
abbrev pub AllDigits : Str → Type 0
AllDigits s = All (λ c. (48 ≤ c) × (c < 58)) s

pub AllDigits-digits : (k n : ℕ) → AllDigits (digits k n)
unfolding digits
AllDigits-digits zero n = tt
AllDigits-digits (suc k) n = elim (Bool-cases (ltb n 10)) [
  | inl small ↦ rw (digits, small) ((omega arith, omega (arith, ltb→lt _ _ small)), tt)
  | inr large ↦
      rw (digits, large)
        (All-append (λ c. (48 ≤ c) × (c < 58)) (digits k (n / 10)) ((48 + n % 10) ∷ [])
          (AllDigits-digits k (n / 10)) ((omega arith, omega arith), tt))
]

pub same_refl : (s : Str) → same s s ≡ true
unfolding same
same_refl [] = refl
same_refl (c ∷ s) = rw (same, ==_refl c) (same_refl s)

pub same→eq : (s t : Str) → same s t ≡ true → s ≡ t
unfolding same
same→eq [] [] h = refl
same→eq [] (d ∷ t) h = absurd (cc)
same→eq (c ∷ s) [] h = absurd (cc)
same→eq (c ∷ s) (d ∷ t) h = elim (Bool-cases (c == d)) [
  | inl e ↦
      ap₂ (λ x y. x ∷ y) ((==_iff c d).0 e) (same→eq s t (subst (λ b. (b && same s t) ≡ true) e h))
  | inr e ↦ absurd (cc (subst (λ b. (b && same s t) ≡ true) e h))
]

pub same_text : (m n : ℕ) → same (to_text m) (to_text n) ≡ true → m ≡ n
same_text m n h =
    sym (number_after-to_text m)
    ∙ ap (number_after 0) (same→eq (to_text m) (to_text n) h)
    ∙ number_after-to_text n

-- A name with an underscore after some digits is not a number.
pub same_underscore : (s t u : Str) → AllDigits t → same (s ++ (95 ∷ u)) t ≡ false
unfolding same
same_underscore [] [] u h = refl
same_underscore [] (c ∷ t) u h = ground arith
same_underscore (b ∷ s) [] u h = refl
same_underscore (b ∷ s) (c ∷ t) u h = elim (Bool-cases (b == c)) [
  | inl e ↦ rw (same, e) (same_underscore s t u h.1)
  | inr e ↦ rw (same, e)
]
