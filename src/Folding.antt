-- ===== src/Folding.antt =====
-- The folding of sections and of the rows of a directory (docs/html/dynsections.js). The calls of
-- jQuery on an element are the record `Query`, with what its documentation says of them in
-- `IsQuery`.
pub mod Rows
pub mod Directory
pub mod Section
pub mod Listing
mod Tests
use embedded_linux.Common.{
  ℕ, zero, suc, ◌+◌, ◌-◌, ◌≡◌, ◌≢◌, Bool, true, false, not, ◌&&◌, List, [], ◌∷◌, ◌++◌, map, ltb,
  leb, ◌==◌, if◌then◌else◌, length, take, drop,
}
use embedded_linux.Search.{Str, same}

-- The classes that the script sets; those of a row's icon are written as the row's own.
pub data Class : Type 0 where
  even odd iconfopen iconfclosed opened closed : Class

-- `.attr('id')`, `.is(':visible')`, `.show()`, `.hide()`, `.hasClass`, `.addClass`,
-- `.removeClass`; of the arrow of a row, `.html('&#9660;')` (down) or `.html('&#9658;')`;
-- `.css('display','none')`, `.css('display','table-row')`.
pub record Query (E : Type 0) : Type 0 where
  pub id : E → Str
  pub is_visible : E → Bool
  pub show : E → E
  pub hide : E → E
  pub has_class : E → Class → Bool
  pub add_class : Class → E → E
  pub remove_class : Class → E → E
  pub set_arrow : Bool → E → E
  pub css_none : E → E
  pub css_table_row : E → E

-- Documented behaviour, for elements in a part of the page that is displayed.
pub record IsQuery {E : Type 0} (q : Query E) : Type 0 where
  pub shown : (e : E) → q.is_visible (q.show e) ≡ true
  pub hidden : (e : E) → q.is_visible (q.hide e) ≡ false
  pub added : (c : Class) (e : E) → q.has_class (q.add_class c e) c ≡ true
  pub removed : (c : Class) (e : E) → q.has_class (q.remove_class c e) c ≡ false
  pub add_other : (c d : Class) (e : E) → c ≢ d → q.has_class (q.add_class c e) d ≡ q.has_class e d
  pub remove_other :
      (c d : Class) (e : E) → c ≢ d → q.has_class (q.remove_class c e) d ≡ q.has_class e d
  pub add_visible : (c : Class) (e : E) → q.is_visible (q.add_class c e) ≡ q.is_visible e
  pub remove_visible : (c : Class) (e : E) → q.is_visible (q.remove_class c e) ≡ q.is_visible e
  pub arrow_visible : (down : Bool) (e : E) → q.is_visible (q.set_arrow down e) ≡ q.is_visible e
  pub css_hidden : (e : E) → q.is_visible (q.css_none e) ≡ false
  pub css_shown : (e : E) → q.is_visible (q.css_table_row e) ≡ true

-- `id.split('_').length-1`
unfoldable pub depth : Str → ℕ
depth [] = 0
depth (c ∷ s) = if c == 95 then suc (depth s) else depth s

module _ {E : Type 0} (q : Query E) where
  -- `rows.removeClass(c).filter(':visible:even').addClass(c)` (or `:odd`), from a visible row that
  -- is (`p`) or is not one of those.
  unfoldable pub stripe : Class → Bool → List E → List E
  stripe c p [] = []
  stripe c p (r ∷ rs) =
      let plain = q.remove_class c r in
      elim (q.is_visible plain) [
        | false ↦ plain ∷ stripe c p rs
        | true ↦ (if p then q.add_class c plain else plain) ∷ stripe c (not p) rs
      ]

  -- `updateStripes()`
  unfoldable pub update_stripes : List E → List E
  update_stripes rows = stripe odd false (stripe even true rows)

  -- `icon.removeClass('iconfopen iconfclosed').addClass('iconfopen')`, and the arrow down.
  unfoldable pub open_icon : E → E
  open_icon r =
      q.set_arrow true
        (q.add_class iconfopen (q.remove_class iconfclosed (q.remove_class iconfopen r)))

  unfoldable pub close_icon : E → E
  close_icon r =
      q.set_arrow false
        (q.add_class iconfclosed (q.remove_class iconfopen (q.remove_class iconfclosed r)))

  -- What `toggleLevel` does to one row.
  unfoldable pub set_level : ℕ → E → E
  set_level level r =
      let l = depth (q.id r) in
      if ltb l (level + 1)
      then q.show (open_icon r)
      else if l == level + 1
      then q.show (close_icon r)
      else q.hide r

  -- `toggleLevel(level)`, on the rows of the directory.
  unfoldable pub toggle_level : ℕ → List E → List E
  toggle_level level rows = update_stripes (map (set_level level) rows)

-- A letter as the flag "i" of a regular expression compares it.
unfoldable pub fold_case : ℕ → ℕ
fold_case c = if leb 65 c && leb c 90 then c + 32 else c

-- What follows a prefix, case left aside; none is an empty list in front.
unfoldable pub matches_prefix : Str → Str → Bool
matches_prefix [] t = true
matches_prefix (c ∷ s) [] = false
matches_prefix (c ∷ s) (d ∷ t) = fold_case c == fold_case d && matches_prefix s t

-- `/^\d+_$/`, after one digit or none.
unfoldable pub matches_number : Bool → Str → Bool
matches_number some_digit [] = false
matches_number some_digit (c ∷ s) =
    if leb 48 c && leb c 57 then matches_number true s else some_digit && (c == 95 && same s [])

-- "row_"
abbrev pub row_ : Str
row_ = 114 ∷ 111 ∷ 119 ∷ 95 ∷ []

-- `new RegExp('^row_'+id+'\\d+_$', "i")`, for an id of digits and underscores.
unfoldable pub is_child_id : Str → Str → Bool
is_child_id id name =
    matches_prefix (row_ ++ id) name && matches_number false (drop (length (row_ ++ id)) name)

-- `[id^=row_..]`
unfoldable pub is_below : Str → Str → Bool
is_below id name =
    leb (length (row_ ++ id)) (length name) && same (take (length (row_ ++ id)) name) (row_ ++ id)

module _ {E : Type 0} (q : Query E) where
  -- `childRows.filter(':first').is(':visible')`: whether the first row that is a child is visible.
  unfoldable pub first_child_visible : Str → List E → Bool
  first_child_visible id [] = false
  first_child_visible id (r ∷ rs) = elim (is_child_id id (q.id r)) [
    | true ↦ q.is_visible r
    | false ↦ first_child_visible id rs
  ]

  -- `spans.filter(".iconfopen").removeClass("iconfopen").addClass("iconfclosed")`, and the arrow.
  unfoldable pub fold_icon : E → E
  fold_icon r =
      q.set_arrow false (
        if q.has_class r iconfopen then q.add_class iconfclosed (q.remove_class iconfopen r) else r)

  unfoldable pub unfold_icon : E → E
  unfold_icon r = q.set_arrow true (
      if q.has_class r iconfclosed then q.add_class iconfopen (q.remove_class iconfclosed r) else r)

  unfoldable pub hide_below : Str → E → E
  hide_below id r = if is_below id (q.id r) then q.hide r else r

  unfoldable pub show_child : Str → E → E
  show_child id r = if is_child_id id (q.id r) then q.show (fold_icon r) else r

  -- `toggleFolder(id)`: the rows before the one that was clicked, that row, and those after it.
  unfoldable pub toggle_folder : Str → List E → E → List E → List E
  toggle_folder id before current after = update_stripes q (
      if first_child_visible id after
      then before ++ (fold_icon current ∷ map (hide_below id) after)
      else before ++ (unfold_icon current ∷ map (show_child id) after))
