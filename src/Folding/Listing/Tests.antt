-- ===== src/Folding/Listing/Tests.antt =====
-- A listing of a line, and a function with a block in it.
use mathlib.Core.List.{flatten}
use embedded_linux.Common.{◌≡◌, refl, true, false, none}
use embedded_linux.Common.Codes.{codes}
use embedded_linux.Search.{Str}
use embedded_linux.Folding.Listing.{
  Mark, Line, Block, Code, unmarked, fold_all, fold, empty, line, block, is_space, skip_spaces,
  strip_start, ellipsis, plus_mark, is_empty, closed_line, add_marks, add_blocks, init_codefold,
}

abbrev plain : Str → Line
plain s = record { mark = unmarked; glow = false; html = s }

abbrev braces : Str → Block
braces id = record {
  id = id;
  start = codes "{";
  end_ = codes "}";
  open_shown = true;
  closed = none;
}

abbrev function : Code
function =
    block (braces (codes "1")) (plain (codes "f() { "))
      (block (braces (codes "2")) (plain (codes "if (x) {")) (line (plain (codes "}")) empty)
        (line (plain (codes "}")) empty))
      empty

abbrev listing : Code
listing = line (plain (codes "#include")) function

-- The brace at the end of the first line gives way to the link.
function_closed :
    closed_line 0
      (braces (codes "1"))
      (record { mark = fold (codes "1") false 0; glow = true; html = codes "f() { " })
    ≡ record {
      mark = fold (codes "1") true 0;
      glow = false;
      html = codes "f() {<a href=\"javascript:codefold_toggle('1')\">&#8230;</a>}";
    }
unfolding closed_line plus_mark is_empty strip_start skip_spaces is_space ellipsis flatten
function_closed = refl

-- A block that begins on the first line takes the place of the control of the whole listing.
abbrev first_mark : Code → Mark
first_mark empty = unmarked
first_mark (line l rest) = l.mark
first_mark (block b l inner rest) = l.mark

function_takes_control : first_mark (init_codefold 0 function) ≡ fold (codes "1") false 0
unfolding init_codefold add_blocks add_marks
function_takes_control = refl

listing_has_control : first_mark (init_codefold 0 listing) ≡ fold_all false 0
unfolding init_codefold add_blocks add_marks
listing_has_control = refl
