-- ===== src/Folding/Listing/Ids.antt =====
-- Lists of ids without repetition (docs/html/dynsections.js).
use embedded_linux.Common.{
  ◌≡◌, refl, ap, Bool, true, false, ◌||◌, inl, inr, Bool-cases, List, [], ◌∷◌, ◌++◌, arith,
}
use embedded_linux.Search.{Str, same}
use embedded_linux.Search.Build.Decimal.{same→eq}

abbrev pub contains : Str → List Str → Bool
contains s [] = false
contains s (t ∷ ts) = same t s || contains s ts

-- No id twice.
abbrev pub AreDistinct : List Str → Type 0
AreDistinct [] = Unit {0}
AreDistinct (s ∷ ss) = (contains s ss ≡ false) × AreDistinct ss

pub contains-append :
    (s : Str) (ss ts : List Str) → contains s (ss ++ ts) ≡ (contains s ss || contains s ts)
contains-append s [] ts = refl
contains-append s (u ∷ ss) ts = ground (arith, contains-append s ss ts)

pub AreDistinct-append :
    (ss ts : List Str)
    → AreDistinct (ss ++ ts)
    → AreDistinct ss × AreDistinct ts × ((s : Str) → contains s ss ≡ true → contains s ts ≡ false)
AreDistinct-append [] ts d = (tt, d, λ s h. absurd (cc))
AreDistinct-append (u ∷ ss) ts (out, d) =
    let (left, right, apart) = AreDistinct-append ss ts d in
    (
      (ground (arith, contains-append u ss ts), left),
      right,
      λ s h. elim (Bool-cases (same u s)) [
        | inl e ↦
            let at : contains u ts ≡ contains s ts = ap (λ x. contains x ts) (same→eq u s e) in
            ground (arith, contains-append u ss ts)
        | inr e ↦ apart s (ground arith)
      ],
    )
