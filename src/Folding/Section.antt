-- ===== src/Folding/Section.antt =====
-- Sections that fold: `toggleVisibility` and `toggleInherit` (docs/html/dynsections.js).
pub mod Consistent
use embedded_linux.Common.{
  ℕ, ◌-◌, Bool, true, false, not, List, [], ◌∷◌, ◌++◌, map, if◌then◌else◌, length, take,
}
use embedded_linux.Search.{Str}
use embedded_linux.Folding.{Class, opened, closed, Query}

-- "open.png"
abbrev pub open_png : Str
open_png = 111 ∷ 112 ∷ 101 ∷ 110 ∷ 46 ∷ 112 ∷ 110 ∷ 103 ∷ []

-- "closed.png"
abbrev pub closed_png : Str
closed_png = 99 ∷ 108 ∷ 111 ∷ 115 ∷ 101 ∷ 100 ∷ 46 ∷ 112 ∷ 110 ∷ 103 ∷ []

-- `src.substring(0,src.length-8)+'closed.png'`
unfoldable pub closed_src : Str → Str
closed_src src = take (length src - 8) src ++ closed_png

-- `src.substring(0,src.length-10)+'open.png'`
unfoldable pub open_src : Str → Str
open_src src = take (length src - 10) src ++ open_png

-- The link of a section, its two texts, and the address of its picture.
pub record Section (E : Type 0) : Type 0 where
  pub link : E
  pub summary : E
  pub content : E
  pub src : Str

module _ {E : Type 0} (q : Query E) where
  -- `toggleVisibility(linkObj)`
  unfoldable pub toggle_visibility : Section E → Section E
  toggle_visibility s =
      if q.is_visible s.content
      then record {
        link = q.remove_class opened (q.add_class closed s.link);
        summary = q.show s.summary;
        content = q.hide s.content;
        src = closed_src s.src;
      }
      else record {
        link = q.add_class opened (q.remove_class closed s.link);
        summary = q.hide s.summary;
        content = q.show s.content;
        src = open_src s.src;
      }

  -- Whether the first of some rows is visible.
  unfoldable pub first_visible : List E → Bool
  first_visible [] = false
  first_visible (r ∷ rs) = q.is_visible r

  -- `toggleInherit(id)`, on the inherited rows and the address of the picture.
  unfoldable pub toggle_inherit : List E → Str → List E × Str
  toggle_inherit rows src =
      if first_visible rows
      then (map (λ r. q.css_none r) rows, closed_src src)
      else (map (λ r. q.css_table_row r) rows, open_src src)
