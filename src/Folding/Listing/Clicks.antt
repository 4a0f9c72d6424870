-- ===== src/Folding/Listing/Clicks.antt =====
-- The blocks of a listing after any clicks on its controls (docs/html/dynsections.js).
use embedded_linux.Common.{ℕ, ◌≡◌, Bool, true, not, List, [], ◌∷◌, if◌then◌else◌}
use embedded_linux.Search.{Str, same}
use embedded_linux.Folding.Listing.Ids.{AreDistinct}
use embedded_linux.Folding.Listing.Shown.{ids, Shows}
use embedded_linux.Folding.Listing.{
  Code, init_codefold, codefold_toggle, Listing, codefold_toggle_all,
}

-- A click on the control of a block, or on that of the whole listing.
pub data Click : Type 0 where
  one : Str → Click
  all : ℕ → Click

unfoldable pub click : Click → Listing → Listing
click (one id) s = record s { code = codefold_toggle id s.code }
click (all rel_path) s = codefold_toggle_all rel_path s

unfoldable pub clicks : List Click → Listing → Listing
clicks [] s = s
clicks (c ∷ cs) s = clicks cs (click c s)

-- What a reader expects: whether all were opened last, and the blocks that are open.
pub record Expected : Type 0 where
  pub opened : Bool
  pub open_ids : Str → Bool

unfoldable pub expect : Click → Expected → Expected
expect (one id) e = record e {
  open_ids = λ j. if same id j then not (e.open_ids j) else e.open_ids j;
}
expect (all rel_path) e = record { opened = not e.opened; open_ids = λ j. not e.opened }

unfoldable pub expect_all : List Click → Expected → Expected
expect_all [] e = e
expect_all (c ∷ cs) e = expect_all cs (expect c e)

-- The listing is as expected.
abbrev pub IsExpected : ℕ → Expected → Listing → Type 0
IsExpected rel_path e s =
    (s.opened ≡ e.opened) × Shows rel_path e.open_ids s.code × AreDistinct (ids s.code)

-- The page after init_codefold, and what a reader expects then.
abbrev pub started : ℕ → Code → Listing
started rel_path c = record { opened = true; code = init_codefold rel_path c }

abbrev pub all_open : Expected
all_open = record { opened = true; open_ids = λ j. true }
