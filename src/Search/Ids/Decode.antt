-- ===== src/Search/Ids/Decode.antt =====
-- The code of `convertToId` (docs/html/search/search.js) read back.
use embedded_linux.Common.{
  ℕ, ◌+◌, ◌-◌, ◌*◌, ◌/◌, ◌%◌, ◌<◌, ◌≡◌, refl, ap, ap₂, ◌∙◌, true, false, [], ◌∷◌, ◌++◌, arith, inl,
  inr, ltb, ◌==◌, if◌then◌else◌, All, Bool-cases,
}
use embedded_linux.Search.{Str}
use embedded_linux.Search.Ids.{is_plain, hex_digit, convert_char, convert_to_id}
use embedded_linux.Search.Ids.Prefix.{escaped, escaped-small, plain-not_underscore}

-- The value of a hexadecimal digit.
abbrev pub hex_value : ℕ → ℕ
hex_value d = if ltb d 97 then d - 48 else d - 87

-- An underscore and two hexadecimal digits are one character, any other character is itself.
unfoldable pub decode_id : Str → Str
decode_id [] = []
decode_id (c ∷ []) = c ∷ []
decode_id (c ∷ h ∷ []) = c ∷ decode_id (h ∷ [])
decode_id (c ∷ h ∷ l ∷ s) = elim (95 == c) [
  | true ↦ (16 * hex_value h + hex_value l) ∷ decode_id s
  | false ↦ c ∷ decode_id (h ∷ l ∷ s)
]

decode_plain : (c : ℕ) (s : Str) → (95 == c) ≡ false → decode_id (c ∷ s) ≡ c ∷ decode_id s
unfolding decode_id
decode_plain c [] h = refl
decode_plain c (a ∷ []) h = refl
decode_plain c (a ∷ b ∷ s) h = rw (decode_id, h)

pub hex_value-hex_digit : (d : ℕ) → d < 16 → hex_value (hex_digit d) ≡ d
unfolding hex_digit
hex_value-hex_digit d h = ground arith

decode_id-convert_char :
    (c : ℕ) (s : Str) → c < 65536 → decode_id (convert_char c ++ s) ≡ c ∷ decode_id s
unfolding decode_id convert_char
decode_id-convert_char c s w = elim (Bool-cases (is_plain c)) [
  | inl p ↦
      let run : convert_char c ≡ c ∷ [] = rw (convert_char, p) in
      ap (λ r. decode_id (r ++ s)) run ∙ decode_plain c s (plain-not_underscore c p)
  | inr e ↦
      let bound = escaped-small c w e in
      ap (λ r. decode_id (r ++ s)) (escaped c w e)
      ∙ ap (λ n. n ∷ decode_id s)
          (ap₂ (λ h l. 16 * h + l) (hex_value-hex_digit (c / 16) (omega arith))
              (hex_value-hex_digit (c % 16) (omega arith))
            ∙ omega arith)
]

-- A name of UTF-16 code units can be read back from its id: `convertToId` loses nothing.
pub decode_id-convert_to_id : (s : Str) → All (λ c. c < 65536) s → decode_id (convert_to_id s) ≡ s
unfolding convert_to_id decode_id
decode_id-convert_to_id [] h = refl
decode_id-convert_to_id (c ∷ s) h =
    decode_id-convert_char c (convert_to_id s) h.0 ∙ ap (λ r. c ∷ r) (decode_id-convert_to_id s h.1)
