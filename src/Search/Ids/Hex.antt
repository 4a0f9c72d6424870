-- ===== src/Search/Ids/Hex.antt =====
-- Hexadecimal numbers as docs/html/search/search.js writes them, read back.
use embedded_linux.Common.{
  ℕ, zero, suc, ◌+◌, ◌*◌, ◌/◌, ◌%◌, ◌<◌, ◌≤◌, ◌≡◌, refl, ap, ◌∙◌, Bool, true, false, not, ◌&&◌,
  ◌||◌, [], ◌∷◌, ◌++◌, arith, inl, inr, leb, ltb, ◌==◌, Bool-cases,
}
use embedded_linux.Search.{Str}
use embedded_linux.Search.Ids.{hex_digit, hex_digits}
use embedded_linux.Search.Ids.Decode.{hex_value, hex_value-hex_digit}

-- The number that the digits stand for, the first the highest.
abbrev pub read_from : ℕ → Str → ℕ
read_from a [] = a
read_from a (d ∷ s) = read_from (16 * a + hex_value d) s

abbrev pub is_hex : ℕ → Bool
is_hex d = (leb 48 d && leb d 57) || (leb 97 d && leb d 102)

abbrev pub all_hex : Str → Bool
all_hex [] = true
all_hex (d ∷ s) = is_hex d && all_hex s

-- There is a digit, and the first is not 0.
abbrev pub is_positive : Str → Bool
is_positive [] = false
is_positive (d ∷ s) = not (d == 48)

-- A numeral: digits, of which the first is 0 only if it is the last.
abbrev pub is_numeral : Str → Bool
is_numeral [] = false
is_numeral (d ∷ []) = is_hex d
is_numeral (d ∷ e ∷ s) = not (d == 48) && all_hex (d ∷ e ∷ s)

-- The first number that needs more than k digits.
abbrev pub beyond : ℕ → ℕ
beyond zero = 1
beyond (suc k) = 16 * beyond k

read_from-append :
    (a d : ℕ) (s : Str) → read_from a (s ++ (d ∷ [])) ≡ 16 * read_from a s + hex_value d
read_from-append a d [] = refl
read_from-append a d (c ∷ s) = read_from-append (16 * a + hex_value c) d s

all_hex-append : (d : ℕ) (s : Str) → all_hex (s ++ (d ∷ [])) ≡ (all_hex s && is_hex d)
all_hex-append d [] = ground arith
all_hex-append d (c ∷ s) = ground (arith, all_hex-append d s)

is_hex-hex_digit : (d : ℕ) → d < 16 → is_hex (hex_digit d) ≡ true
unfolding hex_digit
is_hex-hex_digit d h = ground arith

read_from-hex_digits : (k n : ℕ) → n < beyond k → read_from 0 (hex_digits k n) ≡ n
unfolding hex_digits
read_from-hex_digits zero n h = omega arith
read_from-hex_digits (suc k) n h = elim (Bool-cases (ltb n 16)) [
  | inl small ↦ rw small (omega (arith, hex_value-hex_digit n (ground arith)))
  | inr large ↦ rw large (
      read_from-append 0 (hex_digit (n % 16)) (hex_digits k (n / 16))
      ∙ ap (λ x. 16 * x + hex_value (hex_digit (n % 16)))
          (read_from-hex_digits k (n / 16) (omega arith))
      ∙ ap (λ x. 16 * (n / 16) + x) (hex_value-hex_digit (n % 16) (omega arith))
      ∙ omega arith)
]

all_hex-hex_digits : (k n : ℕ) → all_hex (hex_digits k n) ≡ true
unfolding hex_digits
all_hex-hex_digits zero n = refl
all_hex-hex_digits (suc k) n = elim (Bool-cases (ltb n 16)) [
  | inl small ↦ rw small (rw (is_hex-hex_digit n (ground arith)) refl)
  | inr large ↦ rw large (
      all_hex-append (hex_digit (n % 16)) (hex_digits k (n / 16))
      ∙ rw (all_hex-hex_digits k (n / 16), is_hex-hex_digit (n % 16) (omega arith)) refl)
]

is_positive-append : (d : ℕ) (s : Str) → is_positive s ≡ true → is_positive (s ++ (d ∷ [])) ≡ true
is_positive-append d [] h = cc
is_positive-append d (c ∷ s) h = h

is_positive-hex_digits : (k n : ℕ) → 1 ≤ n → n < beyond k → is_positive (hex_digits k n) ≡ true
unfolding hex_digits hex_digit
is_positive-hex_digits zero n low h = absurd (omega arith)
is_positive-hex_digits (suc k) n low h = elim (Bool-cases (ltb n 16)) [
  | inl small ↦ rw small (ground arith)
  | inr large ↦
      let high : ltb n 16 ≡ false = large in
      rw large (
        is_positive-append _ (hex_digits k (n / 16))
          (is_positive-hex_digits k (n / 16) (ground arith) (omega arith)))
]

is_numeral-positive : (s : Str) → is_positive s ≡ true → all_hex s ≡ true → is_numeral s ≡ true
is_numeral-positive [] p h = cc
is_numeral-positive (d ∷ []) p h = ground arith
is_numeral-positive (d ∷ e ∷ s) p h = rw (p, h) refl

-- `toString(16)` of a number below 65536 gives its numeral.
pub is_numeral-hex_digits : (n : ℕ) → n < 65536 → is_numeral (hex_digits 4 n) ≡ true
unfolding hex_digits hex_digit
is_numeral-hex_digits zero h = refl
is_numeral-hex_digits (suc n) h =
    is_numeral-positive (hex_digits 4 (suc n)) (is_positive-hex_digits 4 (suc n) (omega arith) h)
      (all_hex-hex_digits 4 (suc n))

pub read_hex-hex_digits : (n : ℕ) → n < 65536 → read_from 0 (hex_digits 4 n) ≡ n
read_hex-hex_digits n h = read_from-hex_digits 4 n h
