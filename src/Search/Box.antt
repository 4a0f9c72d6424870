-- ===== src/Search/Box.antt =====
-- `SearchBox` of docs/html/search/search.js: the activation of the panel, the selection of a
-- section, and the start of a search. Positions on the screen are left out.
pub mod Selection
pub mod Index
use embedded_linux.Common.{
  ℕ, zero, suc, ◌+◌, ◌-◌, Bool, true, false, not, ◌&&◌, ◌||◌, Option, none, some, List, [], ◌∷◌,
  ◌++◌, ltb, leb, ◌==◌, if◌then◌else◌, get_elem?, length, take,
}
use embedded_linux.Search.{Str, same, Display, hidden, block, inline_block, is_block, Browser}
use embedded_linux.Search.Ids.{to_hex}
use embedded_linux.Search.Results.{strip_leading, starts_with}

-- A callback that waits for its timer, under the number that `setTimeout` gave.
pub data Timer : Type 0 where
  search_timer : ℕ → Timer
  selection_timer : ℕ → Timer

-- A child node of the selection window: whether its class is `SelectItem`, and its mark.
pub record SelectNode : Type 0 where
  pub is_item : Bool
  pub marked : Bool

-- One section of the index: the first characters that it has results for, and its name.
pub record Section : Type 0 where
  pub content : Str
  pub name : Str

-- The fields of a `SearchBox` that change, the part of the document it writes, the browser's
-- timers, and the results file that was asked for with the words to search.
pub record Box : Type 0 where
  pub key_timeout : ℕ
  pub hide_timeout : ℕ
  pub last_search_value : Str
  pub last_results_page : Str
  pub search_index : ℕ
  pub search_active : Bool
  pub field : Str
  pub box_active : Bool
  pub results_window : Display
  pub search_close : Display
  pub select_window : Display
  pub nodes : List SelectNode
  pub next_timer : ℕ
  pub pending : List Timer
  pub request : Option (Option Str × Str)

unfoldable pub timer_number : Timer → ℕ
timer_number (search_timer n) = n
timer_number (selection_timer n) = n

-- `clearTimeout(n)`
unfoldable pub clear_timer : ℕ → List Timer → List Timer
clear_timer n [] = []
clear_timer n (t ∷ ts) = if timer_number t == n then clear_timer n ts else t ∷ clear_timer n ts

-- `Activate(isActive)`
unfoldable pub activate : Box → Bool → Box
activate box is_active =
    if is_active || is_block box.results_window
    then record box { box_active = true; search_active = true }
    else record box {
      box_active = false;
      search_active = false;
      last_search_value = [];
      last_results_page = [];
      field = [];
    }

-- `OnSearchFieldFocus(isActive)`
unfoldable pub on_search_field_focus : Box → Bool → Box
on_search_field_focus box is_active = activate box is_active

-- `CloseResultsWindow()`
unfoldable pub close_results_window : Box → Box
close_results_window box =
    activate (record box { results_window = hidden; search_close = hidden }) false

-- `CloseSelectionWindow()`
unfoldable pub close_selection_window : Box → Box
close_selection_window box = record box { select_window = hidden }

-- `OnSearchSelectShow()`
unfoldable pub on_search_select_show : Box → Box
on_search_select_show box =
    let shown = record box { select_window = block } in
    if not (box.hide_timeout == 0)
    then record shown { pending = clear_timer box.hide_timeout box.pending; hide_timeout = 0 }
    else shown

-- `OnSearchSelectHide()`
unfoldable pub on_search_select_hide : Box → Box
on_search_select_hide box = record box {
  hide_timeout = box.next_timer;
  next_timer = suc box.next_timer;
  pending = selection_timer box.next_timer ∷ box.pending;
}

-- The loop of `SelectItemCount`.
unfoldable pub count_items : List SelectNode → ℕ
count_items [] = 0
count_items (n ∷ ns) = if n.is_item then suc (count_items ns) else count_items ns

-- `SelectItemCount()`
unfoldable pub select_item_count : Box → ℕ
select_item_count box = count_items box.nodes

-- The loop of `SelectItemSet`, from item number j.
unfoldable pub set_items : List SelectNode → ℕ → ℕ → List SelectNode
set_items [] j id = []
set_items (n ∷ ns) j id =
    let after = set_items ns (suc j) id in
    let skip = set_items ns j id in
    if n.is_item then record n { marked = j == id } ∷ after else n ∷ skip

-- `SelectItemSet(id)`
unfoldable pub select_item_set : Box → ℕ → Box
select_item_set box id = record box { nodes = set_items box.nodes 0 id }

-- `replace(/ +/g, "")`
unfoldable pub strip_spaces : Str → Str
strip_spaces [] = []
strip_spaces (c ∷ s) = if c == 32 then strip_spaces s else c ∷ strip_spaces s

-- `content.indexOf(word)`, or none where that is -1.
unfoldable pub index_of : Str → Str → Option ℕ
index_of [] word = if same word [] then some 0 else none
index_of (c ∷ s) word =
    let rest = index_of s word in
    if starts_with word (c ∷ s) then some 0 else elim rest [ none ↦ none | some i ↦ some (suc i) ]

-- `0xD800 <= code && code <= 0xDBFF` for the first code unit of a string, false without one.
unfoldable pub is_high : Str → Bool
is_high [] = false
is_high (c ∷ s) = leb 55296 c && leb c 56319

-- The first character of the words, as the index has it: `above_one` is `searchValue > 1`.
unfoldable pub index_char : Browser → (Str → Bool) → Str → Str
index_char b above_one value =
    if is_high (b.lower value) && above_one value then take 2 value else b.lower (take 1 value)

-- `resultsPath + indexSectionNames[..] + '_' + hexCode + '.js'`
unfoldable pub file_name : Str → Section → Option ℕ → Option Str
file_name results_path section none = none
file_name results_path section (some i) =
    some (results_path ++ (section.name ++ (95 ∷ (to_hex i ++ (46 ∷ 106 ∷ 115 ∷ [])))))

-- `Search()`, up to the request for the results file (none when the section has no results for the
-- first character). A section that does not exist throws.
unfoldable pub search_box : Browser → (Str → Bool) → Str → List Section → Box → Option Box
search_box b above_one results_path sections box =
    let value = strip_leading box.field in
    elim (get_elem? sections box.search_index) [
      | none ↦ none
      | some section ↦
          let file =
            file_name results_path section
              (index_of section.content (index_char b above_one value)) in
          some (record box {
            key_timeout = 0;
            request = some (file, value);
            last_search_value = value;
          })
    ]

-- `OnSelectItem(id)`
unfoldable pub on_select_item : Browser → (Str → Bool) → Str → List Section → Box → ℕ → Option Box
on_select_item b above_one results_path sections box id =
    let chosen = select_item_set (record box { search_index = id }) id in
    if not (same (strip_spaces box.field) []) && box.search_active
    then search_box b above_one results_path sections chosen
    else some chosen

-- `OnSearchSelectKey(evt)`; the focus that it gives back to the search field is left out.
unfoldable pub on_search_select_key :
    Browser → (Str → Bool) → Str → List Section → Box → ℕ → Option Box
on_search_select_key b above_one results_path sections box key =
    if key == 40 && ltb box.search_index (select_item_count box)
    then on_select_item b above_one results_path sections box (suc box.search_index)
    else if key == 38 && ltb 0 box.search_index
    then on_select_item b above_one results_path sections box (box.search_index - 1)
    else if key == 13 || key == 27
    then elim (on_select_item b above_one results_path sections box box.search_index) [
      | none ↦ none
      | some chosen ↦ some (close_selection_window chosen)
    ]
    else some box
