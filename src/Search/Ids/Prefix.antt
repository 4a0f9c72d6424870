-- ===== src/Search/Ids/Prefix.antt =====
-- `convertToId` (docs/html/search/search.js) and prefixes: a search compares ids, not words.
use embedded_linux.Common.{
  append_assoc, ℕ, suc, ◌/◌, ◌%◌, ◌<◌, ◌≤◌, ◌≡◌, refl, sym, ap, ◌∙◌, Bool, true, false, ◌&&◌, [],
  ◌∷◌, ◌++◌, arith, lt→ltb, ltb→lt, inl, inr, ltb, leb, ◌==◌, if◌then◌else◌, length, take, All,
  Bool-cases,
}
use embedded_linux.Search.{Str, same}
use embedded_linux.Search.Ids.{is_plain, hex_digit, hex_digits, convert_char, convert_to_id}
use embedded_linux.Search.Results.{starts_with}

-- A prefix test by recursion.
abbrev pub is_prefix : Str → Str → Bool
is_prefix [] t = true
is_prefix (c ∷ s) [] = false
is_prefix (c ∷ s) (d ∷ t) = c == d && is_prefix s t

and-false : (b : Bool) → (b && false) ≡ false
and-false true = refl
and-false false = refl

and-swap : (a b c : Bool) → (a && (b && c)) ≡ (b && (a && c))
and-swap true true c = refl
and-swap true false c = refl
and-swap false true c = refl
and-swap false false c = refl

==-sym : (a b : ℕ) → (a == b) ≡ (b == a)
==-sym a b = ground arith

leb-suc : (a b : ℕ) → leb (suc a) (suc b) ≡ leb a b
leb-suc a b = ground arith

pub starts_with_lem : (s t : Str) → starts_with s t ≡ is_prefix s t
unfolding starts_with same
starts_with_lem [] t = ground arith
starts_with_lem (c ∷ s) [] = ground arith
starts_with_lem (c ∷ s) (d ∷ t) =
    ap (λ b. b && (d == c && same (take (length s) t) s)) (leb-suc (length s) (length t))
    ∙ and-swap (leb (length s) (length t)) (d == c) (same (take (length s) t) s)
    ∙ ap (λ b. b && starts_with s t) (==-sym d c)
    ∙ ap (λ b. c == d && b) (starts_with_lem s t)

one_digit : (k n : ℕ) → n < 16 → hex_digits (suc k) n ≡ hex_digit n ∷ []
unfolding hex_digits hex_digit
one_digit k n h = rw (hex_digits, lt→ltb n 16 h)

two_digits :
    (k n : ℕ)
    → 16 ≤ n
    → n / 16 < 16
    → hex_digits (suc (suc k)) n ≡ hex_digit (n / 16) ∷ hex_digit (n % 16) ∷ []
unfolding hex_digits
two_digits k n l h =
    let large : ltb n 16 ≡ false = ground arith in
    ap
      (λ b.
        if b then hex_digit n ∷ [] else hex_digits (suc k) (n / 16) ++ (hex_digit (n % 16) ∷ []))
      large
    ∙ ap (λ r. r ++ (hex_digit (n % 16) ∷ [])) (one_digit k (n / 16) h)

pub escaped-small : (c : ℕ) → c < 65536 → is_plain c ≡ false → c < 128
unfolding is_plain
escaped-small c w h = ground arith

-- An escaped character is an underscore and two hexadecimal digits.
pub escaped :
    (c : ℕ)
    → c < 65536
    → is_plain c ≡ false
    → convert_char c ≡ 95 ∷ hex_digit (c / 16) ∷ hex_digit (c % 16) ∷ []
unfolding convert_char hex_digit
escaped c w h =
    let small = escaped-small c w h in
    elim (Bool-cases (ltb c 16)) [
      | inl one ↦
          let below : c < 16 = ltb→lt _ _ one in
          let high : c / 16 ≡ 0 = omega arith in
          let low : c % 16 ≡ c = omega arith in
          rw (convert_char, h, one, one_digit 3 c below, high, low, hex_digit)
      | inr two ↦ rw (convert_char, h, two, two_digits 2 c (ground arith) (omega arith))
    ]

hex_digit-== : (a b : ℕ) → a < 16 → b < 16 → (hex_digit a == hex_digit b) ≡ (a == b)
unfolding hex_digit
hex_digit-== a b h k = ground arith

bytes-== : (c d : ℕ) → ((c / 16 == d / 16) && (c % 16 == d % 16)) ≡ (c == d)
bytes-== c d = ground arith

pub plain-not_underscore : (c : ℕ) → is_plain c ≡ true → (95 == c) ≡ false
unfolding is_plain
plain-not_underscore c h = ground arith

plain-apart : (c d : ℕ) → is_plain c ≡ true → is_plain d ≡ false → (c == d) ≡ false
unfolding is_plain
plain-apart c d h k = ground arith

and_assoc : (a b c : Bool) → (a && (b && c)) ≡ ((a && b) && c)
and_assoc true b c = refl
and_assoc false b c = refl

-- The codes of two characters agree when the characters do, and neither is a prefix of the other.
is_prefix-convert_char :
    (c d : ℕ) (s t : Str)
    → c < 65536
    → d < 65536
    → is_prefix (convert_char c ++ s) (convert_char d ++ t) ≡ (c == d && is_prefix s t)
unfolding convert_char
is_prefix-convert_char c d s t h k = elim (Bool-cases (is_plain c)) [
  | inl p ↦ elim (Bool-cases (is_plain d)) [
    | inl q ↦ rw (convert_char, p, q)
    | inr q ↦
        rw (
          escaped d k q,
          convert_char,
          p,
          ==-sym c 95,
          plain-not_underscore c p,
          plain-apart c d p q,
        )
  ]
  | inr p ↦ elim (Bool-cases (is_plain d)) [
    | inl q ↦
        rw (
          escaped c h p,
          convert_char,
          q,
          plain-not_underscore d q,
          ==-sym c d,
          plain-apart d c q p,
        )
    | inr q ↦
        let small_c = escaped-small c h p in
        let small_d = escaped-small d k q in
        let digits : is_prefix (convert_char c ++ s) (convert_char d ++ t)
            ≡ (c / 16 == d / 16 && (c % 16 == d % 16 && is_prefix s t)) =
          rw (
            escaped c h p,
            escaped d k q,
            hex_digit-== (c / 16) (d / 16) (omega arith) (omega arith),
            hex_digit-== (c % 16) (d % 16) (omega arith) (omega arith),
          ) in
        digits
        ∙ and_assoc (c / 16 == d / 16) (c % 16 == d % 16) (is_prefix s t)
        ∙ ap (λ b. b && is_prefix s t) (bytes-== c d)
  ]
]

is_prefix-nil : (c : ℕ) (s : Str) → c < 65536 → is_prefix (convert_char c ++ s) [] ≡ false
unfolding convert_char
is_prefix-nil c s h = elim (Bool-cases (is_plain c)) [
  | inl p ↦ rw (convert_char, p)
  | inr p ↦ rw (escaped c h p)
]

is_prefix-convert_to_id :
    (s t : Str)
    → All (λ c. c < 65536) s
    → All (λ c. c < 65536) t
    → is_prefix (convert_to_id s) (convert_to_id t) ≡ is_prefix s t
unfolding convert_to_id
is_prefix-convert_to_id [] t h k = refl
is_prefix-convert_to_id (c ∷ s) [] h k = is_prefix-nil c (convert_to_id s) h.0
is_prefix-convert_to_id (c ∷ s) (d ∷ t) h k =
    is_prefix-convert_char c d (convert_to_id s) (convert_to_id t) h.0 k.0
    ∙ ap (λ b. c == d && b) (is_prefix-convert_to_id s t h.1 k.1)

is_prefix-suffix :
    (s t u : Str)
    → All (λ c. c < 65536) s
    → All (λ c. c < 65536) t
    → length s ≤ length t
    → is_prefix (convert_to_id s) (convert_to_id t ++ u) ≡ is_prefix s t
unfolding convert_to_id
is_prefix-suffix [] t u h k l = refl
is_prefix-suffix (c ∷ s) [] u h k l = absurd (omega arith)
is_prefix-suffix (c ∷ s) (d ∷ t) u h k l =
    ap (is_prefix (convert_char c ++ convert_to_id s))
      (append_assoc (convert_char d) (convert_to_id t) u)
    ∙ is_prefix-convert_char c d (convert_to_id s) (convert_to_id t ++ u) h.0 k.0
    ∙ ap (λ b. c == d && b) (is_prefix-suffix s t u h.1 k.1 (omega arith))

-- The same where something follows the id, for words that are no longer than the name.
pub starts_with-suffix :
    (s t u : Str)
    → All (λ c. c < 65536) s
    → All (λ c. c < 65536) t
    → length s ≤ length t
    → starts_with (convert_to_id s) (convert_to_id t ++ u) ≡ starts_with s t
starts_with-suffix s t u h k l =
    starts_with_lem (convert_to_id s) (convert_to_id t ++ u)
    ∙ is_prefix-suffix s t u h k l
    ∙ sym (starts_with_lem s t)

-- On words of UTF-16 code units, an id begins with another exactly when the word of the one begins
-- with the word of the other; so the prefix test that a search makes on ids is one on words.
pub starts_with-convert_to_id :
    (s t : Str)
    → All (λ c. c < 65536) s
    → All (λ c. c < 65536) t
    → starts_with (convert_to_id s) (convert_to_id t) ≡ starts_with s t
starts_with-convert_to_id s t h k =
    starts_with_lem (convert_to_id s) (convert_to_id t)
    ∙ is_prefix-convert_to_id s t h k
    ∙ sym (starts_with_lem s t)
