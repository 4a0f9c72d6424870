-- ===== src/Search/Ids.antt =====
-- `convertToId` of docs/html/search/search.js.
pub mod Prefix
pub mod Decode
pub mod Hex
use embedded_linux.Common.{
  ℕ, zero, suc, ◌+◌, ◌/◌, ◌%◌, Bool, ◌&&◌, ◌||◌, [], ◌∷◌, ◌++◌, ltb, leb, if◌then◌else◌,
}
use embedded_linux.Search.{Str}

-- `/[a-z0-9\u0080-\uFFFF]/`
unfoldable pub is_plain : ℕ → Bool
is_plain c = (leb 97 c && leb c 122) || ((leb 48 c && leb c 57) || (leb 128 c && leb c 65535))

-- One hexadecimal digit, of a number below 16.
unfoldable pub hex_digit : ℕ → ℕ
hex_digit d = if ltb d 10 then 48 + d else 87 + d

-- The last digits of a number; four of them are all that a code unit has.
unfoldable pub hex_digits : ℕ → ℕ → Str
hex_digits zero n = []
hex_digits (suc k) n =
    let rest = hex_digits k (n / 16) in
    if ltb n 16 then hex_digit n ∷ [] else rest ++ (hex_digit (n % 16) ∷ [])

-- `cn.toString(16)`
abbrev pub to_hex : ℕ → Str
to_hex n = hex_digits 4 n

-- What the loop adds to `result` for one character.
unfoldable pub convert_char : ℕ → Str
convert_char c =
    if is_plain c then c ∷ [] else if ltb c 16 then 95 ∷ 48 ∷ to_hex c else 95 ∷ to_hex c

unfoldable pub convert_to_id : Str → Str
convert_to_id [] = []
convert_to_id (c ∷ s) = convert_char c ++ convert_to_id s
