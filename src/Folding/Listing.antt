-- ===== src/Folding/Listing.antt =====
-- The blocks of a source listing that fold: `init_codefold`, `codefold_toggle` and
-- `codefold_toggle_all` (docs/html/dynsections.js). What jQuery's `append`, `replaceWith`, `after`,
-- `clone`, `html`, `show`, `hide` and `toggle` do to an element is written into the listing.
pub mod Ids
pub mod Shown
pub mod Toggle
pub mod Clicks
mod Tests
use mathlib.Core.List.{flatten, reverse}
use embedded_linux.Common.{
  ℕ, ◌-◌, Bool, true, false, not, ◌&&◌, ◌||◌, Option, none, some, List, [], ◌∷◌, ◌++◌, ◌==◌, leb,
  if◌then◌else◌,
}
use embedded_linux.Common.Codes.{codes, drop_prefix}
use embedded_linux.Search.{Str, same}

-- What the span of class `fold` of a line is: nothing yet, the vertical line, the control of the
-- whole listing, or that of the block of an id; a control has a plus or a minus, and `relPath`.
pub data Mark : Type 0 where
  unmarked bar : Mark
  fold_all : Bool → ℕ → Mark
  fold : Str → Bool → ℕ → Mark

-- A line: its span of class `fold`, whether it has the class `glow`, its text after the number.
pub record Line : Type 0 where
  pub mark : Mark
  pub glow : Bool
  pub html : Str

-- The attributes of an element of class `foldopen`: its id after "foldopen", `data-start` and
-- `data-end`; whether its own style shows it; the element `foldclosed` with its line and whether
-- its own style shows that, once there is one.
pub record Block : Type 0 where
  pub id : Str
  pub start : Str
  pub end_ : Str
  pub open_shown : Bool
  pub closed : Option (Line × Bool)

-- A listing: lines, and blocks, which begin with a line, as the documentation tool writes them. A
-- block has its first line, the rest of it, and what follows it.
pub data Code : Type 0 where
  empty : Code
  line : Line → Code → Code
  block : Block → Line → Code → Code → Code

-- The space characters of `\s` in the text of a line.
unfoldable pub is_space : ℕ → Bool
is_space c =
    (leb 9 c && leb c 13)
    || (c == 32)
    || (c == 160)
    || (c == 5760)
    || (leb 8192 c && leb c 8202)
    || (c == 8232)
    || (c == 8233)
    || (c == 8239)
    || (c == 8287)
    || (c == 12288)
    || (c == 65279)

unfoldable pub skip_spaces : Str → Str
skip_spaces [] = []
skip_spaces (c ∷ s) = if is_space c then skip_spaces s else c ∷ s

-- `.replace(new RegExp('\\s*'+start+'\\s*$','g'),'')`, for a start without characters that are
-- special in a regular expression; the text is read from its end.
unfoldable pub strip_start : Str → Str → Str
strip_start start html = elim (drop_prefix (reverse start) (skip_spaces (reverse html))) [
  | none ↦ html
  | some s ↦ reverse (skip_spaces s)
]

-- `' '+start+'<a href="javascript:codefold_toggle(\''+id+'\')">&#8230;</a>'+end`
unfoldable pub ellipsis : Block → Str
ellipsis b = flatten (
    codes " "
    ∷ b.start
    ∷ codes "<a href=\"javascript:codefold_toggle('"
    ∷ b.id
    ∷ codes "')\">&#8230;</a>"
    ∷ b.end_
    ∷ [])

-- `$(line).find('span[class=fold]').css('background-image',plusImg[relPath])`
unfoldable pub plus_mark : ℕ → Mark → Mark
plus_mark rel_path unmarked = unmarked
plus_mark rel_path bar = bar
plus_mark rel_path (fold_all plus path) = fold_all true rel_path
plus_mark rel_path (fold id plus path) = fold id true rel_path

-- `if (start)`
unfoldable pub is_empty : Str → Bool
is_empty [] = true
is_empty (c ∷ s) = false

-- The line that stands for a closed block, from a copy of the first line of the block.
unfoldable pub closed_line : ℕ → Block → Line → Line
closed_line rel_path b l = record {
  mark = plus_mark rel_path l.mark;
  glow = false;
  html = (if is_empty b.start then l.html else strip_start b.start l.html) ++ ellipsis b;
}

-- `$('span[class=lineno]').not(':eq(0)').append(..)`
abbrev pub set_mark : Mark → Line → Line
set_mark m l = record l { mark = m }

unfoldable pub add_bars : Code → Code
add_bars empty = empty
add_bars (line l rest) = line (set_mark bar l) (add_bars rest)
add_bars (block b l inner rest) = block b (set_mark bar l) (add_bars inner) (add_bars rest)

-- `$('span[class=lineno]:first').append(..)`, and the lines behind the first.
unfoldable pub add_marks : ℕ → Code → Code
add_marks rel_path empty = empty
add_marks rel_path (line l rest) = line (set_mark (fold_all false rel_path) l) (add_bars rest)
add_marks rel_path (block b l inner rest) =
    block b (set_mark (fold_all false rel_path) l) (add_bars inner) (add_bars rest)

-- The first line of a block gets the control of the block; the closed form is put after it.
abbrev pub first_line : ℕ → Block → Line → Line
first_line rel_path b l = set_mark (fold b.id false rel_path) l

unfoldable pub add_closed : ℕ → Block → Line → Block
add_closed rel_path b l = record b {
  closed = some (closed_line rel_path b (first_line rel_path b l), false);
}

-- `$('div[class=foldopen]').each(..)`
unfoldable pub add_blocks : ℕ → Code → Code
add_blocks rel_path empty = empty
add_blocks rel_path (line l rest) = line l (add_blocks rel_path rest)
add_blocks rel_path (block b l inner rest) =
    block (add_closed rel_path b l) (first_line rel_path b l) (add_blocks rel_path inner)
      (add_blocks rel_path rest)

-- `init_codefold(relPath)`
unfoldable pub init_codefold : ℕ → Code → Code
init_codefold rel_path c = add_blocks rel_path (add_marks rel_path c)

-- `.toggle()` of the closed form.
abbrev pub set_closed : (Bool → Bool) → Option (Line × Bool) → Option (Line × Bool)
set_closed f none = none
set_closed f (some (l, shown)) = some (l, f shown)

unfoldable pub flip : Block → Block
flip b = record b { open_shown = not b.open_shown; closed = set_closed not b.closed }

-- The first block of that id is toggled; none if there is no such block.
unfoldable pub toggle_first : Str → Code → Option Code
toggle_first id empty = none
toggle_first id (line l rest) = elim (toggle_first id rest) [
  | none ↦ none
  | some r ↦ some (line l r)
]
toggle_first id (block b l inner rest) =
    if same b.id id then some (block (flip b) l inner rest) else elim (toggle_first id inner) [
      | some c ↦ some (block b l c rest)
      | none ↦ elim (toggle_first id rest) [ none ↦ none | some r ↦ some (block b l inner r) ]
    ]

-- `codefold_toggle(id)`
unfoldable pub codefold_toggle : Str → Code → Code
codefold_toggle id c = elim (toggle_first id c) [ none ↦ c | some d ↦ d ]

-- `$('#fold_all').css('background-image',..)`
unfoldable pub mark_all : Bool → ℕ → Mark → Mark
mark_all plus rel_path unmarked = unmarked
mark_all plus rel_path bar = bar
mark_all plus rel_path (fold_all p path) = fold_all plus rel_path
mark_all plus rel_path (fold id p path) = fold id p path

abbrev pub mark_line : Bool → ℕ → Line → Line
mark_line plus rel_path l = record l { mark = mark_all plus rel_path l.mark }

-- `$('div[id^=foldopen]')` and `$('div[id^=foldclosed]')` are shown and hidden, or the other way.
unfoldable pub set_all : Bool → ℕ → Code → Code
set_all open_now rel_path empty = empty
set_all open_now rel_path (line l rest) =
    line (mark_line (not open_now) rel_path l) (set_all open_now rel_path rest)
set_all open_now rel_path (block b l inner rest) =
    block (record b { open_shown = open_now; closed = set_closed (λ _. not open_now) b.closed })
      (mark_line (not open_now) rel_path l) (set_all open_now rel_path inner)
      (set_all open_now rel_path rest)

-- The listing and the variable `opened`.
pub record Listing : Type 0 where
  pub opened : Bool
  pub code : Code

-- `codefold_toggle_all(relPath)`
unfoldable pub codefold_toggle_all : ℕ → Listing → Listing
codefold_toggle_all rel_path s = record {
  opened = not s.opened;
  code = set_all (not s.opened) rel_path s.code;
}
