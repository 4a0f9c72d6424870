-- ===== src/Folding/Section/Consistent.antt =====
-- What stays in step when a section is folded or unfolded (docs/html/dynsections.js).
use embedded_linux.Common.{
  ◌-◌, ◌≡◌, ◌≢◌, ap, ◌∙◌, Bool, true, false, not, ◌++◌, arith, if◌then◌else◌, length, length-append,
  take-length-append,
}
use embedded_linux.Search.{Str}
use embedded_linux.Folding.{opened, closed, Query, IsQuery}
use embedded_linux.Folding.Section.{
  open_png, closed_png, closed_src, open_src, Section, toggle_visibility,
}
use embedded_linux.Folding.Rows.{class_number}

-- A section is open or not: its content is visible or its summary, its link has the class `opened`
-- or `closed`, and its picture is the one of that name at `base`.
pub record IsConsistent {E : Type 0} (q : Query E) (base : Str) (open_now : Bool) (s : Section E)
    : Type 0 where
  pub content : q.is_visible s.content ≡ open_now
  pub summary : q.is_visible s.summary ≡ not open_now
  pub is_opened : q.has_class s.link opened ≡ open_now
  pub is_closed : q.has_class s.link closed ≡ not open_now
  pub picture : s.src ≡ base ++ (if open_now then open_png else closed_png)

closed_src-append : (base : Str) → closed_src (base ++ open_png) ≡ base ++ closed_png
unfolding closed_src
closed_src-append base =
    ap (λ s. s ++ closed_png)
      (take-length-append (length (base ++ open_png) - 8) base open_png
        (omega (arith, length-append base open_png)))

open_src-append : (base : Str) → open_src (base ++ closed_png) ≡ base ++ open_png
unfolding open_src
open_src-append base =
    ap (λ s. s ++ open_png)
      (take-length-append (length (base ++ closed_png) - 10) base closed_png
        (omega (arith, length-append base closed_png)))

opened≢closed : opened ≢ closed
opened≢closed h = omega (arith, ap class_number h)

closed≢opened : closed ≢ opened
closed≢opened h = omega (arith, ap class_number h)

-- `toggleVisibility` keeps a section consistent, and opens it if it was closed and closes it if it
-- was open: its content, its summary, the class of its link and its picture change together.
-- jQuery does as it documents (`IsQuery`).
pub toggle_visibility-IsConsistent :
    {E : Type 0} (q : Query E) (base : Str) (open_now : Bool) (s : Section E)
    → IsQuery q
    → IsConsistent q base open_now s
    → IsConsistent q base (not open_now) (toggle_visibility q s)
unfolding toggle_visibility
toggle_visibility-IsConsistent q base true s law h = simp (h.content) (record {
  content = law.hidden s.content;
  summary = law.shown s.summary;
  is_opened = law.removed opened (q.add_class closed s.link);
  is_closed =
      law.remove_other opened closed (q.add_class closed s.link) opened≢closed
      ∙ law.added closed s.link;
  picture = ap closed_src h.picture ∙ closed_src-append base;
})
toggle_visibility-IsConsistent q base false s law h = simp (h.content) (record {
  content = law.shown s.content;
  summary = law.hidden s.summary;
  is_opened = law.added opened (q.remove_class closed s.link);
  is_closed =
      law.add_other opened closed (q.remove_class closed s.link) opened≢closed
      ∙ law.removed closed s.link;
  picture = ap open_src h.picture ∙ open_src-append base;
})
