-- ===== src/Search/Results/Match.antt =====
-- `SearchResults.Search` (docs/html/search/search.js): which result rows it shows.
use embedded_linux.Common.{
  ℕ, zero, suc, ◌+◌, ◌≤◌, ◌<◌, ◌≡◌, refl, sym, ap, ◌∙◌, true, false, ◌&&◌, some, List, [], ◌∷◌,
  ◌++◌, arith, inl, inr, ◌↔◌, leb, ◌==◌, if◌then◌else◌, Bool-cases, get_elem?, All, map,
}
use embedded_linux.Search.{Str, same, hidden, block, is_block, Browser, Div, Page}
use embedded_linux.Search.Ids.{convert_to_id}
use embedded_linux.Search.Ids.Prefix.{starts_with-convert_to_id}
use embedded_linux.Search.Results.{
  sr_result, strip_leading, strip_trailing, skip_digits, after_underscore, after_prefix,
  strip_prefix, starts_with, row_matches, filter_rows, url_word, search_key, search,
}

-- The number of result rows that are displayed.
unfoldable pub shown_rows : List Div → ℕ
shown_rows [] = 0
shown_rows (d ∷ ds) =
    if same d.class_name sr_result && is_block d.display then shown_rows ds + 1 else shown_rows ds

-- The words of a search, in lower case and without the spaces around them.
unfoldable pub search_words : Browser → Str → Str
search_words b text =
    b.lower (strip_trailing (strip_leading (if same text [] then url_word b else text)))

-- What the loop does to one div.
unfoldable pub filtered : Browser → Str → Div → Div
filtered b key d =
    if same d.class_name sr_result
    then record d { display = if row_matches b key d then block else hidden }
    else d

filter_rows-map :
    (b : Browser) (key : Str) (ds : List Div)
    → filter_rows b key ds ≡ (map (filtered b key) ds, shown_rows (map (filtered b key) ds))
unfolding filter_rows shown_rows is_block filtered
filter_rows-map b key [] = refl
filter_rows-map b key (d ∷ ds) = elim (Bool-cases (same d.class_name sr_result)) [
  | inl result ↦ elim (Bool-cases (row_matches b key d)) [
    | inl found ↦ simp (filter_rows-map b key ds, result, found)
    | inr lost ↦ simp (filter_rows-map b key ds, result, lost)
  ]
  | inr skip ↦ simp (filter_rows-map b key ds, skip)
]

get_elem?-map :
    (f : Div → Div) (ds : List Div) (i : ℕ) (d : Div)
    → get_elem? ds i ≡ some d
    → get_elem? (map f ds) i ≡ some (f d)
get_elem?-map f [] i d h = cc
get_elem?-map f (e ∷ ds) zero d h = cc
get_elem?-map f (e ∷ ds) (suc i) d h = get_elem?-map f ds i d h

skip_digits-append :
    (digits : Str) (c : ℕ) (name : Str)
    → All (λ c. (48 ≤ c) × (c < 58)) digits
    → leb 48 c && leb c 57 ≡ false
    → skip_digits (digits ++ (c ∷ name)) ≡ c ∷ name
unfolding skip_digits
skip_digits-append [] c name h k = rw (k)
skip_digits-append (e ∷ digits) c name h k =
    let digit : (leb 48 e && leb e 57) ≡ true = ground (arith, h.0) in
    rw (digit, skip_digits-append digits c name h.1 k)

-- An id as `createResults` writes it: `SR_`, a name in the code of `convertToId`; and `sr`, digits
-- and an underscore after lower-casing.
pub after_prefix-lem :
    (digits name : Str)
    → All (λ c. (48 ≤ c) × (c < 58)) digits
    → strip_prefix (115 ∷ 114 ∷ (digits ++ (95 ∷ name))) ≡ name
unfolding strip_prefix after_prefix after_underscore
after_prefix-lem digits name h = rw (strip_prefix, skip_digits-append digits 95 name h refl)

pub filtered-is_block :
    (b : Browser) (key : Str) (d : Div)
    → same d.class_name sr_result ≡ true
    → is_block (filtered b key d).display ≡ row_matches b key d
unfolding filtered is_block
filtered-is_block b key d result = elim (Bool-cases (row_matches b key d)) [
  | inl found ↦ simp (result, found)
  | inr lost ↦ simp (result, lost)
]

pub search-row :
    (b : Browser) (page : Page) (text : Str) (i : ℕ) (d : Div)
    → get_elem? page.divs i ≡ some d
    → get_elem? (search b page text).0.divs i ≡ some (filtered b (search_key b text) d)
unfolding search
search-row b page text i d at =
    ap (λ (r : List Div × ℕ). get_elem? r.0 i) (filter_rows-map b (search_key b text) page.divs)
    ∙ get_elem?-map (filtered b (search_key b text)) page.divs i d at

-- The divs that are not result rows.
unfoldable pub other_divs : List Div → List Div
other_divs [] = []
other_divs (d ∷ ds) = if same d.class_name sr_result then other_divs ds else d ∷ other_divs ds

other_divs-filtered :
    (b : Browser) (key : Str) (ds : List Div) → other_divs (map (filtered b key) ds) ≡ other_divs ds
unfolding other_divs filtered
other_divs-filtered b key [] = refl
other_divs-filtered b key (d ∷ ds) = elim (Bool-cases (same d.class_name sr_result)) [
  | inl result ↦ simp (result, other_divs-filtered b key ds)
  | inr skip ↦ simp (skip, other_divs-filtered b key ds)
]

notice : (n m : ℕ) → n ≡ m → (is_block (if n == 0 then block else hidden) ≡ true) ↔ (m ≡ 0)
unfolding is_block
notice zero m h = (λ _. omega arith, λ _. refl)
notice (suc n) m h = ground arith

-- A result row whose id is, in lower case, `sr`, digits, an underscore and a name in the code of
-- `convertToId` is displayed after a search exactly when its name begins with the searched words:
-- those given, or those of the URL when none are, without the spaces around them, in lower case.
-- The name and the words are of UTF-16 code units.
pub search-shows :
    (b : Browser) (page : Page) (text : Str) (i : ℕ) (row : Div) (digits name : Str)
    → get_elem? page.divs i ≡ some row
    → same row.class_name sr_result ≡ true
    → b.lower row.id ≡ 115 ∷ 114 ∷ (digits ++ (95 ∷ convert_to_id name))
    → All (λ c. (48 ≤ c) × (c < 58)) digits
    → All (λ c. c < 65536) name
    → All (λ c. c < 65536) (search_words b text)
    → (shown : Div) × (get_elem? (search b page text).0.divs i ≡ some shown)
      × (is_block shown.display ≡ starts_with (search_words b text) name)
unfolding search_key search_words row_matches
search-shows b page text i row digits name at result coded h k w =
    let key : Str = search_key b text in
    let words : Str = search_words b text in
    let named : strip_prefix (b.lower row.id) ≡ convert_to_id name =
      ap strip_prefix coded ∙ after_prefix-lem digits (convert_to_id name) h in
    let tested : row_matches b key row ≡ starts_with words name =
      ap (starts_with key) named ∙ starts_with-convert_to_id words name w k in
    (
      filtered b key row,
      search-row b page text i row at,
      filtered-is_block b key row result ∙ tested,
    )

-- After a search the other divs are as they were, the count is the number of result rows that are
-- displayed, and the notice of no matches is displayed exactly when it is 0.
pub search-counts :
    (b : Browser) (page : Page) (text : Str)
    → ((search b page text).0.last_match_count ≡ shown_rows (search b page text).0.divs)
      × ((is_block (search b page text).0.no_matches ≡ true)
          ↔ (shown_rows (search b page text).0.divs ≡ 0))
      × (other_divs (search b page text).0.divs ≡ other_divs page.divs)
unfolding search
search-counts b page text =
    let run = filter_rows-map b (search_key b text) page.divs in
    let same_count : (filter_rows b (search_key b text) page.divs).1
        ≡ shown_rows (filter_rows b (search_key b text) page.divs).0 =
      ap (λ (r : List Div × ℕ). r.1) run ∙ sym (ap (λ (r : List Div × ℕ). shown_rows r.0) run) in
    (
      same_count,
      notice _ _ same_count,
      ap (λ (r : List Div × ℕ). other_divs r.0) run
          ∙ other_divs-filtered b (search_key b text) page.divs,
    )
