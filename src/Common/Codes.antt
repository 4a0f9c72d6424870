-- ===== src/Common/Codes.antt =====
-- Text as the codes of its characters, and the reading of a text from its front.
use Prim.Native.Nat.{ℕ}
use Prim.Native.Char.{code}
use Prim.Native.String.{String}
use mathlib.Core.Path.{◌≡◌}
use mathlib.Core.Bool.{Bool, true, false}
use mathlib.Core.Option.{Option, none, some}
use mathlib.Core.List.{List, [], ◌∷◌, ◌++◌}
use native.Mathlib.Omega.{arith}
use embedded_linux.Common.Tests.{◌==◌, if◌then◌else◌}

abbrev pub codes : String → List ℕ
codes String.[] = []
codes (String.◌∷◌ c s) = code c ∷ codes s

-- What follows `p`, if the text begins with it.
abbrev pub drop_prefix : List ℕ → List ℕ → Option (List ℕ)
drop_prefix [] s = some s
drop_prefix (c ∷ p) [] = none
drop_prefix (c ∷ p) (d ∷ s) = if c == d then drop_prefix p s else none

-- The text before the first `c`, and the text from there.
abbrev pub before : ℕ → List ℕ → List ℕ
before c [] = []
before c (d ∷ s) = if c == d then [] else d ∷ before c s

abbrev pub from : ℕ → List ℕ → List ℕ
from c [] = []
from c (d ∷ s) = if c == d then d ∷ s else from c s

abbrev pub lacks : ℕ → List ℕ → Bool
lacks c [] = true
lacks c (d ∷ s) = if c == d then false else lacks c s

pub before-append : (c : ℕ) (s t : List ℕ) → lacks c s ≡ true → before c (s ++ (c ∷ t)) ≡ s
before-append c [] t h = ground arith
before-append c (d ∷ s) t h = ground (arith, before-append c s t)

pub from-append : (c : ℕ) (s t : List ℕ) → lacks c s ≡ true → from c (s ++ (c ∷ t)) ≡ c ∷ t
from-append c [] t h = ground arith
from-append c (d ∷ s) t h = ground (arith, from-append c s t)
