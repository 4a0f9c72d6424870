-- ===== src/Search/Popup/Fit.antt =====
-- The window of the results and the edges of the page (docs/html/search/search.js).
use embedded_linux.Common.{
  ℕ, ◌+◌, ◌≤◌, ◌<◌, ◌≡◌, ◌⊎◌, inl, inr, refl, Bool-cases, Option, none, some, arith, ltb,
}
use embedded_linux.Search.Popup.{Layout, clip, popup_left, popup_frame}

-- A length within the limit: the whole one, or what there is room for; none if there is no room.
abbrev pub IsClipped : ℕ → ℕ → ℕ → Option ℕ → Type 0
IsClipped whole from limit none = limit < from + 8
IsClipped whole from limit (some size) =
    (size ≤ whole) × (from + size + 8 ≤ limit) × ((size ≡ whole) ⊎ (from + size + 8 ≡ limit))

clip-IsClipped : (whole from limit : ℕ) → IsClipped whole from limit (clip whole from limit)
unfolding clip
clip-IsClipped whole from limit = elim (Bool-cases (ltb limit (whole + from + 8))) [
  | inl over ↦ elim (Bool-cases (ltb limit (from + 8))) [
    | inl none_left ↦ simp (over, none_left) (ground arith)
    | inr room ↦ simp (over, room) (ground arith, ground arith, inr (ground arith))
  ]
  | inr fits ↦ simp (fits) (ground arith, ground arith, inl refl)
]

-- The window of the results appears at least 10 pixels from the left edge, and is 300 pixels wide
-- and 400 high; if that would come nearer than 8 pixels to the right or the lower edge of the
-- page, it ends exactly 8 before that edge; and where there is no room even for that, no size is
-- set.
pub popup_frame-IsClipped :
    (l : Layout)
    → let f = popup_frame l in
      (10 ≤ f.left)
      × IsClipped 300 f.left l.max_width f.width
      × IsClipped 400 f.top l.max_height f.height
unfolding popup_frame popup_left
popup_frame-IsClipped l =
    (ground arith, clip-IsClipped 300 (popup_left l) l.max_width, clip-IsClipped 400 _ l.max_height)
