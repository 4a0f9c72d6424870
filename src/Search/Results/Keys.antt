-- ===== src/Search/Results/Keys.antt =====
-- `SearchResults.ProcessKeys` (docs/html/search/search.js): which keyboard events act.
use embedded_linux.Common.{
  ℕ, zero, suc, ◌≡◌, ◌≢◌, refl, Bool, true, false, List, [], ◌∷◌, ◌++◌, arith, ◌==◌, replicate,
}
use embedded_linux.Search.{Page}
use embedded_linux.Search.Results.{KeyEvent, keydown, keypress, keyup, process_keys}

-- What `ProcessKeys` returns for a sequence of events, and the page at the end.
abbrev pub run_keys : Page → List KeyEvent → Page × List Bool
run_keys p [] = (p, [])
run_keys p (e ∷ es) =
    let (q, acts) = process_keys p e in let (r, rest) = run_keys q es in (r, acts ∷ rest)

-- The events of one key: pressed, repeated n times while it is held, released.
abbrev pub key_stroke : ℕ → ℕ → List KeyEvent
key_stroke code n =
    keydown code ∷ keypress code ∷ (replicate n (keypress code) ++ (keyup code ∷ []))

run_keys-repeat :
    (p : Page) (code n : ℕ)
    → p.repeat_on ≡ true
    → (p.last_key == 0) ≡ false
    → run_keys p (replicate n (keypress code) ++ (keyup code ∷ []))
      ≡ (record p { last_key = 0; repeat_on = false }, replicate n true ++ (false ∷ []))
unfolding process_keys
run_keys-repeat p code zero r k = refl
run_keys-repeat p code (suc n) r k = simp (r, k, run_keys-repeat p code n r k)

-- For a key whose code is not 0, whatever the keyboard's state before: pressing it acts, the first
-- `keypress` is ignored, every repetition acts, releasing does not, and the state is left as
-- between keys, the rest of the page as it was.
pub process_keys-key_stroke :
    (p : Page) (code n : ℕ)
    → code ≢ 0
    → run_keys p (key_stroke code n) ≡ (
      record p { last_key = 0; repeat_on = false },
      true ∷ false ∷ (replicate n true ++ (false ∷ [])),
    )
unfolding process_keys
process_keys-key_stroke p code n h =
    let nonzero : (code == 0) ≡ false = ground arith in
    simp (
      nonzero,
      run_keys-repeat (record p { last_key = code; repeat_on = true }) code n refl nonzero,
    )
