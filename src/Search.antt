-- ===== src/Search.antt =====
-- The search page of docs/html/search/search.js: the document's state that its two objects, the
-- search box and the search results, read and change. A string is the list of its UTF-16 code
-- units; what the browser supplies (lower-casing, `unescape`, the page's URL) is `Browser`.
pub mod Ids
pub mod Results
pub mod Box
pub mod Navigate
pub mod Tree
pub mod Build
pub mod Popup
pub mod Panel
pub mod Tests
use embedded_linux.Common.{ℕ, Bool, true, false, ◌&&◌, Option, List, [], ◌∷◌, ◌==◌}

abbrev pub Str : Type 0
Str = List ℕ

-- Equality of strings.
unfoldable pub same : Str → Str → Bool
same [] [] = true
same [] (_ ∷ _) = false
same (_ ∷ _) [] = false
same (c ∷ s) (d ∷ t) = c == d && same s t

-- `style.display`: the values the script assigns, and the empty string.
pub data Display : Type 0 where
  unset hidden block inline_block : Display

unfoldable pub is_block : Display → Bool
is_block unset = false
is_block hidden = false
is_block block = true
is_block inline_block = false

pub record Browser : Type 0 where
  pub lower : Str → Str
  pub unescape : Str → Str
  pub location_search : Str

-- The `SRChildren` div of a result with several places: its display, and how many links it holds.
pub record Children : Type 0 where
  pub display : Display
  pub count : ℕ

-- A div of the document: the number k of the link `Item<k>` whose grandparent it is, and the
-- `SRChildren` div that `FindChildElement` finds in it.
pub record Div : Type 0 where
  pub class_name : Str
  pub id : Str
  pub display : Display
  pub item : Option ℕ
  pub children : Option Children

pub data Focus : Type 0 where
  on_field : Focus
  on_item : ℕ → Focus
  on_child : ℕ → ℕ → Focus
  elsewhere : Focus

-- `SearchResults` and the part of the document it works on.
pub record Page : Type 0 where
  pub divs : List Div
  pub searching : Display
  pub no_matches : Display
  pub last_match_count : ℕ
  pub last_key : ℕ
  pub repeat_on : Bool
  pub focus : Focus
