-- ===== src/Search/Results.antt =====
-- `SearchResults` of docs/html/search/search.js: the filtering of the result rows, the search for
-- the next visible one, the keyboard's state, and the toggling of a row's children.
pub mod Match
pub mod Focus
pub mod Keys
use embedded_linux.Common.{
  ℕ, zero, suc, ◌+◌, Bool, true, false, not, ◌&&◌, Option, none, some, List, [], ◌∷◌, leb, ◌==◌,
  if◌then◌else◌, length, take,
}
use embedded_linux.Search.{
  Str, same, Display, hidden, block, is_block, Browser, Children, Div, Page,
}
use embedded_linux.Search.Ids.{convert_to_id}

-- "SRResult"
abbrev pub sr_result : Str
sr_result = 83 ∷ 82 ∷ 82 ∷ 101 ∷ 115 ∷ 117 ∷ 108 ∷ 116 ∷ []

-- `replace(/^ +/, "")`
unfoldable pub strip_leading : Str → Str
strip_leading [] = []
strip_leading (c ∷ s) = let rest = strip_leading s in if c == 32 then rest else c ∷ s

-- `replace(/ +$/, "")`
unfoldable pub strip_trailing : Str → Str
strip_trailing [] = []
strip_trailing (c ∷ s) =
    let rest = strip_trailing s in if c == 32 && same rest [] then [] else c ∷ rest

unfoldable pub skip_digits : Str → Str
skip_digits [] = []
skip_digits (c ∷ s) = let rest = skip_digits s in if leb 48 c && leb c 57 then rest else c ∷ s

unfoldable pub after_underscore : Str → Option Str
after_underscore [] = none
after_underscore (c ∷ s) = if c == 95 then some s else none

-- What follows a match of `/^sr\d*_/`.
unfoldable pub after_prefix : Str → Option Str
after_prefix [] = none
after_prefix (a ∷ []) = none
after_prefix (a ∷ b ∷ s) = if a == 115 && b == 114 then after_underscore (skip_digits s) else none

-- `replace(/^sr\d*_/, '')`
unfoldable pub strip_prefix : Str → Str
strip_prefix name = elim (after_prefix name) [ none ↦ name | some s ↦ s ]

-- `search.length<=name.length && name.substr(0, search.length)==search`
unfoldable pub starts_with : Str → Str → Bool
starts_with search name =
    leb (length search) (length name) && same (take (length search) name) search

unfoldable pub row_matches : Browser → Str → Div → Bool
row_matches b key row = starts_with key (strip_prefix (b.lower row.id))

-- The loop over the divs of the document: the divs, and `matches`.
unfoldable pub filter_rows : Browser → Str → List Div → List Div × ℕ
filter_rows b key [] = ([], 0)
filter_rows b key (row ∷ rows) =
    let (rest, matches) = filter_rows b key rows in
    if same row.class_name sr_result
    then (if row_matches b key row
        then (record row { display = block } ∷ rest, matches + 1)
        else (record row { display = hidden } ∷ rest, matches))
    else (row ∷ rest, matches)

-- The search word from the URL, without its leading '?'.
unfoldable pub url_word : Browser → Str
url_word b = b.unescape (elim (b.location_search) [ [] ↦ [] | (_ ∷ s) ↦ s ])

unfoldable pub search_key : Browser → Str → Str
search_key b text =
    let word = if same text [] then url_word b else text in
    convert_to_id (b.lower (strip_trailing (strip_leading word)))

-- `Search(search)`; it always returns true.
unfoldable pub search : Browser → Page → Str → Page × Bool
search b page text =
    let (rows, matches) = filter_rows b (search_key b text) page.divs in
    (
      record page {
        divs = rows;
        searching = hidden;
        no_matches = if matches == 0 then block else hidden;
        last_match_count = matches;
      },
      true,
    )

-- `document.getElementById('Item'+k).parentNode.parentNode`, or NULL.
unfoldable pub find_item : List Div → ℕ → Option Div
find_item [] k = none
find_item (d ∷ ds) k =
    let rest = find_item ds k in
    elim (d.item) [ none ↦ rest | some j ↦ if j == k then some d else rest ]

-- A number that no item reaches.
unfoldable pub item_bound : List Div → ℕ
item_bound [] = 0
item_bound (d ∷ ds) = elim (d.item) [
  | none ↦ item_bound ds
  | some j ↦ if leb (item_bound ds) j then suc j else item_bound ds
]

-- The loop of `NavNext`, by the rounds left.
unfoldable pub nav_next_loop : List Div → ℕ → ℕ → Option ℕ
nav_next_loop divs zero index = none
nav_next_loop divs (suc rounds) index =
    let rest = nav_next_loop divs rounds (suc index) in
    elim (find_item divs index) [
      | none ↦ none
      | some row ↦ if is_block row.display then some index else rest
    ]

-- `NavNext(index)`: the number of the item that it returns.
unfoldable pub nav_next : List Div → ℕ → Option ℕ
nav_next divs index = nav_next_loop divs (suc (item_bound divs)) index

-- `NavPrev(index)` for `index` one less than the argument: no element has the name `Item-1`.
unfoldable pub nav_prev : List Div → ℕ → Option ℕ
nav_prev divs zero = none
nav_prev divs (suc index) =
    let rest = nav_prev divs index in
    elim (find_item divs index) [
      | none ↦ none
      | some row ↦ if is_block row.display then some index else rest
    ]

-- The type and the key code of a keyboard event.
pub data KeyEvent : Type 0 where
  keydown : ℕ → KeyEvent
  keypress : ℕ → KeyEvent
  keyup : ℕ → KeyEvent
  other : ℕ → KeyEvent

unfoldable pub key_code : KeyEvent → ℕ
key_code (keydown k) = k
key_code (keypress k) = k
key_code (keyup k) = k
key_code (other k) = k

-- `ProcessKeys(e)`
unfoldable pub process_keys : Page → KeyEvent → Page × Bool
process_keys p (keydown k) = (record p { repeat_on = false; last_key = k }, not (k == 0))
process_keys p (keypress k) =
    if not p.repeat_on
    then (if not (p.last_key == 0) then record p { repeat_on = true } else p, false)
    else (p, not (p.last_key == 0))
process_keys p (keyup k) = (record p { last_key = 0; repeat_on = false }, false)
process_keys p (other k) = (p, not (p.last_key == 0))

-- `FindChildElement(id)`, by the first div with that id.
unfoldable pub find_child_element : List Div → Str → Option Children
find_child_element [] id = none
find_child_element (d ∷ ds) id =
    let rest = find_child_element ds id in if same d.id id then d.children else rest

-- Sets the display of the children of the first div with that id, if it has any.
unfoldable pub show_children : List Div → Str → Display → List Div
show_children [] id v = []
show_children (d ∷ ds) id v =
    let rest = show_children ds id v in
    if same d.id id
    then record d {
      children = elim (d.children) [ none ↦ none | some c ↦ some (record c { display = v }) ];
    }
      ∷ ds
    else d ∷ rest

-- `Toggle(id)`
unfoldable pub toggle : Page → Str → Page
toggle p id = elim (find_child_element p.divs id) [
  | none ↦ p
  | some c ↦ record p {
    divs = show_children p.divs id (if is_block c.display then hidden else block);
  }
]
