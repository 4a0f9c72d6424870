-- ===== src/Search/Popup/Loaded.antt =====
-- What the page shows once a results file has loaded (docs/html/search/search.js).
use embedded_linux.Common.{
  ℕ, zero, suc, ◌+◌, ◌≤◌, ◌<◌, ◌≡◌, refl, ap, ◌∙◌, true, inl, inr, Bool-cases, some, List, [], ◌∷◌,
  ◌++◌, arith, All, get_elem?, length,
}
use embedded_linux.Search.{Str, same, is_block, Browser, Div, Page}
use embedded_linux.Search.Ids.{convert_to_id}
use embedded_linux.Search.Ids.Prefix.{starts_with-suffix}
use embedded_linux.Search.Results.{
  sr_result, strip_prefix, starts_with, row_matches, search_key, search,
}
use embedded_linux.Search.Results.Match.{
  search_words, search-row, filtered, filtered-is_block, after_prefix-lem,
}
use embedded_linux.Search.Tree.{attribute, find_attribute, attribute_number}
use embedded_linux.Search.Build.{
  Entry, sr_, make_row, put_attribute, set_attribute, set_class_attr, append_child,
}
use embedded_linux.Search.Popup.{
  Layout, View, text_of, row_div, row_divs, load_rows, searched_word, handle_results,
}

get_elem?-append :
    (ds es : List Div) (k : ℕ) → get_elem? (ds ++ es) (length ds + k) ≡ get_elem? es k
get_elem?-append [] es k = ap (get_elem? es) {x = 0 + k} {y = k} (omega arith)
get_elem?-append (d ∷ ds) es k =
    ap (get_elem? (d ∷ (ds ++ es))) {x = suc (length ds) + k} {y = suc (length ds + k)}
      (omega arith)
    ∙ get_elem?-append ds es k

get_elem?-row_divs :
    (path : Str) (e i : ℕ) (ds : List Entry) (d : Entry)
    → get_elem? ds i ≡ some d
    → get_elem? (row_divs path e ds) i ≡ some (row_div (e + i) (make_row path (e + i) d))
unfolding row_divs
get_elem?-row_divs path e i [] d at = absurd (cc)
get_elem?-row_divs path e zero (d' ∷ ds) d at =
    let same_entry : d' ≡ d = cc in
    ap (λ (x : Entry). some (row_div e (make_row path e x))) same_entry
    ∙ ap (λ j. some (row_div j (make_row path j d))) {x = e} {y = e + 0} (omega arith)
get_elem?-row_divs path e (suc i) (d' ∷ ds) d at =
    get_elem?-row_divs path (suc e) i ds d at
    ∙ ap (λ j. some (row_div j (make_row path j d))) {x = suc e + i} {y = e + suc i} (omega arith)

module _ (path : Str) (e : ℕ) (d : Entry) where
  class_name-row_div : same (row_div e (make_row path e d)).class_name sr_result ≡ true
  unfolding row_div make_row text_of attribute find_attribute attribute_number put_attribute
      set_attribute set_class_attr append_child same
  class_name-row_div = refl

  id-row_div : (row_div e (make_row path e d)).id ≡ sr_ ++ d.id
  unfolding row_div make_row text_of attribute find_attribute attribute_number put_attribute
      set_attribute set_class_attr append_child
  id-row_div = refl

  item-row_div : (row_div e (make_row path e d)).item ≡ some e
  unfolding row_div
  item-row_div = refl

item-filtered : (b : Browser) (key : Str) (d : Div) → (filtered b key d).item ≡ d.item
unfolding filtered
item-filtered b key d = elim (Bool-cases (same d.class_name sr_result)) [
  | inl e ↦ simp (e)
  | inr e ↦ simp (e)
]

-- What `handleResults` leaves on the page, whether the window was open or not.
handle_results-page :
    (b : Browser) (layout : Layout) (path : Str) (outer : List Div) (entries : List Entry)
    (file word : Str) (v : View)
    → ((handle_results b layout path outer (some entries) (some file, word) v).page
        ≡ (search b (load_rows path outer (some entries) v.page) word).0)
      × (is_block
            (handle_results b layout path outer
              (some entries)
              (some file, word)
              v).box.results_window
          ≡ true)
unfolding handle_results searched_word is_block
handle_results-page b layout path outer entries file word v =
    elim (Bool-cases (is_block v.box.results_window)) [
      | inl e ↦ simp (e) (refl, refl)
      | inr e ↦ simp (e) (refl, refl)
    ]

-- Once the results file of a search has loaded, the window of the results is open, and for each
-- entry of the file whose id is a name in the code of `convertToId`, whatever follows it (the id
-- is in lower case, and the browser leaves it so): the row of that entry, with its link, stands on
-- the page, and it is displayed exactly when the name begins with the searched words, for words
-- that are no longer than the name. The name and the words are of UTF-16 code units.
pub handle_results-shows :
    (b : Browser) (layout : Layout) (path : Str) (outer : List Div) (entries : List Entry)
    (file word : Str) (v : View) (k : ℕ) (d : Entry) (name suffix : Str)
    → get_elem? entries k ≡ some d
    → d.id ≡ convert_to_id name ++ suffix
    → b.lower (sr_ ++ d.id) ≡ 115 ∷ 114 ∷ 95 ∷ d.id
    → All (λ c. c < 65536) name
    → All (λ c. c < 65536) (search_words b word)
    → length (search_words b word) ≤ length name
    → let v' = handle_results b layout path outer (some entries) (some file, word) v in
      (is_block v'.box.results_window ≡ true)
      × (shown : Div) × (get_elem? v'.page.divs (length outer + k) ≡ some shown)
      × (shown.item ≡ some k)
      × (is_block shown.display ≡ starts_with (search_words b word) name)
unfolding load_rows search_key search_words row_matches
handle_results-shows b layout path outer entries file word v k d name suffix at coded lower h w
      short =
    let key : Str = search_key b word in
    let row : Div = row_div k (make_row path k d) in
    let page : Page = load_rows path outer (some entries) v.page in
    let placed : get_elem? page.divs (length outer + k) ≡ some row =
      get_elem?-append outer (row_divs path 0 entries) k
      ∙ get_elem?-row_divs path 0 k entries d at
      ∙ ap (λ j. some (row_div j (make_row path j d))) {x = 0 + k} {y = k} (omega arith) in
    let named : strip_prefix (b.lower row.id) ≡ d.id =
      ap (λ i. strip_prefix (b.lower i)) (id-row_div path k d)
      ∙ ap strip_prefix lower
      ∙ after_prefix-lem [] d.id tt in
    let tested : row_matches b key row ≡ starts_with (search_words b word) name =
      ap (starts_with key) (named ∙ coded)
      ∙ starts_with-suffix (search_words b word) name suffix w h short in
    let after = handle_results-page b layout path outer entries file word v in
    (
      after.1,
      filtered b key row,
      ap (λ (p : Page). get_elem? p.divs (length outer + k)) after.0
          ∙ search-row b page word (length outer + k) row placed,
      item-filtered b key row ∙ item-row_div path k d,
      filtered-is_block b key row (class_name-row_div path k d) ∙ tested,
    )
