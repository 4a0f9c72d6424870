-- ===== src/Search/Panel/Asked.antt =====
-- What a search shows at once, and what it asks for (docs/html/search/search.js).
use mathlib.Core.Path.{subst}
use embedded_linux.Common.{
  ℕ, ◌<◌, ◌≡◌, refl, ap, ◌∙◌, Bool, true, false, Option, none, some, List, ◌++◌, arith, Bool-cases,
  inl, inr, get_elem?, length, take, replicate,
}
use embedded_linux.Common.Codes.{codes}
use embedded_linux.Search.{Str, Browser, is_block, hidden, Div}
use embedded_linux.Search.Ids.{hex_digits}
use embedded_linux.Search.Ids.Hex.{
  read_from, is_numeral, is_numeral-hex_digits, read_hex-hex_digits,
}
use embedded_linux.Search.Results.{strip_leading}
use embedded_linux.Search.Box.{Box, Section, is_high, file_name, index_of, index_char, search_box}
use embedded_linux.Search.Box.Index.{
  IsFirst, index_of-IsFirst, starts_blank, strip_leading-replicate,
}
use embedded_linux.Search.Build.{Entry}
use embedded_linux.Search.Popup.{Layout, View, handle_results}
use embedded_linux.Search.Panel.{load_or_handle, search_panel}

-- The page is as before, or the window of the results is open and nothing is loading.
abbrev pub IsAskedOrShown : View → View → Option Str → Type 0
IsAskedOrShown v w (some file) =
    (w.page ≡ v.page) × (w.loading ≡ v.loading) × (w.box.results_window ≡ v.box.results_window)
IsAskedOrShown v w none = (w.loading ≡ hidden) × (is_block w.box.results_window ≡ true)

handle_results-shown :
    (b : Browser) (layout : Layout) (path : Str) (outer : List Div)
    (search_data : Option (List Entry)) (request : Option Str × Str) (v : View)
    → let w = handle_results b layout path outer search_data request v in
      (w.box.last_search_value ≡ v.box.last_search_value)
      × (w.box.request ≡ v.box.request)
      × (w.loading ≡ hidden)
      × (is_block w.box.results_window ≡ true)
unfolding handle_results is_block
handle_results-shown b layout path outer search_data request v =
    elim (Bool-cases (is_block v.box.results_window)) [
      | inl shown ↦ simp (shown) (refl, refl, refl, refl)
      | inr closed ↦ simp (closed) (refl, refl, refl, refl)
    ]

load_or_handle-IsAskedOrShown :
    (b : Browser) (path : Str) (layout : Layout) (outer : List Div)
    (search_data : Option (List Entry)) (v u : View) (file : Option Str) (word : Str)
    → (u.page ≡ v.page) × (u.loading ≡ v.loading) × (u.box.results_window ≡ v.box.results_window)
    → let w = load_or_handle b path layout outer search_data u (some (file, word)) in
      (w.box.last_search_value ≡ u.box.last_search_value)
      × (w.box.request ≡ u.box.request)
      × IsAskedOrShown v w file
unfolding load_or_handle
load_or_handle-IsAskedOrShown b path layout outer search_data v u (some file) word h =
    (refl, refl, h)
load_or_handle-IsAskedOrShown b path layout outer search_data v u none word h =
    let (value, request, loading, window) =
      handle_results-shown b layout path outer search_data (none, word) u in
    (value, request, (loading, window))

search_box_found :
    (b : Browser) (above_one : Str → Bool) (path : Str) (sections : List Section) (box : Box)
    (section : Section)
    → get_elem? sections box.search_index ≡ some section
    → let value = strip_leading box.field in
      let file = file_name path section (index_of section.content (index_char b above_one value)) in
      search_box b above_one path sections box
      ≡ some
          (record box { key_timeout = 0; request = some (file, value); last_search_value = value })
unfolding search_box
search_box_found b above_one path sections box section found = simp (search_box, found)

-- The file of the first place in the section where the word stands, and none if it stands nowhere:
-- the path, the name of the section, an underscore, the place as a hexadecimal numeral, and `.js`.
abbrev pub IsNamed : Str → Section → Str → Option Str → Type 0
IsNamed path section word none = IsFirst word section.content none
IsNamed path section word (some file) =
    (i : ℕ) × (digits : Str) × (file
      ≡ path ++ (section.name ++ (codes "_" ++ (digits ++ codes ".js"))))
    × (is_numeral digits ≡ true)
    × (read_from 0 digits ≡ i)
    × IsFirst word section.content (some i)

file_name-IsNamed :
    (path word : Str) (section : Section) (at : Option ℕ)
    → length section.content < 65535
    → IsFirst word section.content at
    → IsNamed path section word (file_name path section at)
unfolding file_name
file_name-IsNamed path word section none bound f = f
file_name-IsNamed path word section (some i) bound (here, before, within) = (
  i,
  hex_digits 4 i,
  refl,
  is_numeral-hex_digits i (omega arith),
  read_hex-hex_digits i (omega arith),
  (here, before, within),
)

-- A text that starts with a surrogate is not a number above 1.
index_char-lower :
    (b : Browser) (above_one : Str → Bool) (value : Str)
    → ((s : Str) → is_high (b.lower s) ≡ true → above_one s ≡ false)
    → index_char b above_one value ≡ b.lower (take 1 value)
unfolding index_char
index_char-lower b above_one value law = elim (Bool-cases (is_high (b.lower value))) [
  | inl high ↦ rw (high, law value high) refl
  | inr low ↦ rw low refl
]

-- A search in a section that the index has, for words after any spaces: it remembers the words
-- without these spaces, and takes their first character in lower case. If the section's characters
-- have that one, the file is asked for whose name is the path, the section's name, an underscore,
-- the first place of the character as a hexadecimal numeral and `.js`, and the page stays as it is
-- until that has loaded. If the section does not have it, the window of the results is open at
-- once and nothing is loading. The section has less than 65535 characters, and a text that starts
-- with a surrogate is not a number above 1.
pub search_panel-IsAskedOrShown :
    (b : Browser) (above_one : Str → Bool) (path : Str) (sections : List Section) (layout : Layout)
    (outer : List Div) (search_data : Option (List Entry)) (v : View) (section : Section)
    (blanks : ℕ) (value : Str)
    → get_elem? sections v.box.search_index ≡ some section
    → v.box.field ≡ replicate blanks 32 ++ value
    → starts_blank value ≡ false
    → length section.content < 65535
    → ((s : Str) → is_high (b.lower s) ≡ true → above_one s ≡ false)
    → (w : View) × (file : Option Str) × (search_panel b above_one path sections layout outer
          search_data v
        ≡ some w)
      × (w.box.last_search_value ≡ value)
      × (w.box.request ≡ some (file, value))
      × IsNamed path section (b.lower (take 1 value)) file
      × IsAskedOrShown v w file
unfolding search_panel
search_panel-IsAskedOrShown b above_one path sections layout outer search_data v section blanks
      value found typed trimmed bound law =
    let words = strip_leading v.box.field in
    let same : words ≡ value =
      ap strip_leading typed ∙ strip_leading-replicate blanks value trimmed in
    let word = index_char b above_one words in
    let first : word ≡ b.lower (take 1 value) =
      index_char-lower b above_one words law ∙ ap (λ s. b.lower (take 1 s)) same in
    let file = file_name path section (index_of section.content word) in
    let box : Box = record (v.box) {
      key_timeout = 0;
      request = some (file, words);
      last_search_value = words;
    } in
    let asked : search_box b above_one path sections v.box ≡ some box =
      search_box_found b above_one path sections v.box section found in
    let (remembered, request, shown) =
      load_or_handle-IsAskedOrShown b path layout outer search_data v (record v { box = box }) file
        words (refl, refl, refl) in
    (
      load_or_handle b path layout outer search_data (record v { box = box }) (some (file, words)),
      file,
      rw (search_panel, asked) refl,
      remembered ∙ same,
      request ∙ ap (λ s. some (file, s)) same,
      subst (λ c. IsNamed path section c file) first
          (file_name-IsNamed path word section _ bound (index_of-IsFirst word section.content)),
      shown,
    )
