-- ===== src/Search/Navigate/Timers.antt =====
-- The timer that starts a search (`OnSearchFieldChange` of docs/html/search/search.js).
use mathlib.Core.Path.{subst}
use embedded_linux.Common.{
  ℕ, suc, ◌<◌, ◌≡◌, ◌≢◌, refl, Bool, true, false, not, ◌||◌, List, [], ◌∷◌, arith, ◌⊎◌, inl, inr,
  ◌==◌, Bool-cases, All,
}
use embedded_linux.Search.{same, is_block, hidden}
use embedded_linux.Search.Box.{
  Box, Timer, search_timer, selection_timer, timer_number, clear_timer, strip_spaces, activate,
  on_search_select_show,
}
use embedded_linux.Search.Navigate.{
  Site, stop_key_timer, schedule_search, leave_field, on_search_field_change,
}

-- Every waiting timer has a number handed out, the numbers being handed out in order from 1.
abbrev pub IsNumbered : ℕ → Timer → Type 0
IsNumbered next t = (0 < timer_number t) × (timer_number t < next)

-- A search waits under the number that the box remembers, any other timer does not.
abbrev pub IsKeyed : ℕ → Timer → Type 0
IsKeyed key (search_timer n) = n ≡ key
IsKeyed key (selection_timer n) = n ≢ key

pub record IsTimed (box : Box) : Type 0 where
  pub first : 0 < box.next_timer
  pub numbered : All (IsNumbered box.next_timer) box.pending
  pub keyed : All (IsKeyed box.key_timeout) box.pending
  pub known : box.key_timeout < box.next_timer

-- With its timer stopped the box waits for no search, so that all that is left are others.
abbrev pub IsOther : Timer → Type 0
IsOther (search_timer n) = suc n ≡ 0
IsOther (selection_timer n) = 0 < n

clear_timer-IsOther :
    (key : ℕ) (ts : List Timer) (next : ℕ)
    → All (IsNumbered next) ts
    → All (IsKeyed key) ts
    → All IsOther (clear_timer key ts)
unfolding clear_timer timer_number
clear_timer-IsOther key [] next h k = tt
clear_timer-IsOther key (search_timer n ∷ ts) next h k =
    let here : (n == key) ≡ true = ground (arith, k.0) in
    simp (here) (clear_timer-IsOther key ts next h.1 k.1)
clear_timer-IsOther key (selection_timer n ∷ ts) next h k =
    let here : (n == key) ≡ false = ground (arith, k.0) in
    simp (here) (h.0.0, clear_timer-IsOther key ts next h.1 k.1)

clear_timer-IsNumbered :
    (key : ℕ) (ts : List Timer) (next : ℕ)
    → All (IsNumbered next) ts
    → All (IsNumbered next) (clear_timer key ts)
unfolding clear_timer
clear_timer-IsNumbered key [] next h = tt
clear_timer-IsNumbered key (t ∷ ts) next h = elim (Bool-cases (timer_number t == key)) [
  | inl here ↦ simp (here) (clear_timer-IsNumbered key ts next h.1)
  | inr away ↦ simp (away) (h.0, clear_timer-IsNumbered key ts next h.1)
]

clear_timer-others : (n : ℕ) (ts : List Timer) → All IsOther ts → All IsOther (clear_timer n ts)
unfolding clear_timer
clear_timer-others n [] h = tt
clear_timer-others n (t ∷ ts) h = elim (Bool-cases (timer_number t == n)) [
  | inl here ↦ simp (here) (clear_timer-others n ts h.1)
  | inr away ↦ simp (away) (h.0, clear_timer-others n ts h.1)
]

-- No timer is remembered, so no search waits.
IsOther-unkeyed :
    (next : ℕ) (ts : List Timer) → All (IsNumbered next) ts → All (IsKeyed 0) ts → All IsOther ts
unfolding timer_number
IsOther-unkeyed next [] h k = tt
IsOther-unkeyed next (search_timer n ∷ ts) h k = absurd (omega (arith, h.0.0, k.0))
IsOther-unkeyed next (selection_timer n ∷ ts) h k = (h.0.0, IsOther-unkeyed next ts h.1 k.1)

-- Others are no searches, under any number that they do not have.
IsOther-IsKeyed :
    (next key : ℕ) (ts : List Timer)
    → (key ≡ 0) ⊎ (key ≡ next)
    → All (IsNumbered next) ts
    → All IsOther ts
    → All (IsKeyed key) ts
unfolding timer_number
IsOther-IsKeyed next key [] e h o = tt
IsOther-IsKeyed next key (search_timer n ∷ ts) e h o = absurd (omega (arith, o.0))
IsOther-IsKeyed next key (selection_timer n ∷ ts) e h o =
    (λ same. ground (arith, same, e, h.0), IsOther-IsKeyed next key ts e h.1 o.1)

IsNumbered-later :
    (next : ℕ) (ts : List Timer) → All (IsNumbered next) ts → All (IsNumbered (suc next)) ts
IsNumbered-later next [] h = tt
IsNumbered-later next (t ∷ ts) h = ((h.0.0, omega (arith, h.0.1)), IsNumbered-later next ts h.1)

-- The box waits for no search.
record IsQuiet (box : Box) : Type 0 where
  first : 0 < box.next_timer
  numbered : All (IsNumbered box.next_timer) box.pending
  others : All IsOther box.pending
  stopped : box.key_timeout ≡ 0

quiet-IsTimed : (box : Box) → IsQuiet box → IsTimed box
quiet-IsTimed box q = record {
  first = q.first;
  numbered = q.numbered;
  keyed =
      IsOther-IsKeyed box.next_timer box.key_timeout box.pending (inl q.stopped) q.numbered
        q.others;
  known = omega (arith, q.first, q.stopped);
}

stop_key_timer-IsQuiet : (box : Box) → IsTimed box → IsQuiet (stop_key_timer box)
unfolding stop_key_timer
stop_key_timer-IsQuiet box t = elim (Bool-cases (not (box.key_timeout == 0))) [
  | inl armed ↦ simp (armed) (record {
    first = t.first;
    numbered = clear_timer-IsNumbered box.key_timeout box.pending box.next_timer t.numbered;
    others = clear_timer-IsOther box.key_timeout box.pending box.next_timer t.numbered t.keyed;
    stopped = refl;
  })
  | inr idle ↦
      let zero_key : box.key_timeout ≡ 0 = ground arith in
      simp (idle) (record {
        first = t.first;
        numbered = t.numbered;
        others =
            IsOther-unkeyed box.next_timer box.pending t.numbered
              (subst (λ k. All (IsKeyed k) box.pending) zero_key t.keyed);
        stopped = zero_key;
      })
]

schedule_search-IsTimed : (box : Box) → IsQuiet box → IsTimed (schedule_search box)
unfolding schedule_search timer_number
schedule_search-IsTimed box q =
    let next : ℕ = box.next_timer in
    elim (Bool-cases (same (strip_spaces box.field) box.last_search_value)) [
      | inl old ↦ simp (old) (quiet-IsTimed box q)
      | inr new ↦ elim (Bool-cases (same (strip_spaces box.field) [])) [
        | inl emptied ↦
            let t = quiet-IsTimed box q in
            simp (new, emptied)
              (record { first = t.first; numbered = t.numbered; keyed = t.keyed; known = t.known })
        | inr words ↦
            simp (new, words)
              (record {
                first = omega arith;
                numbered = ((q.first, omega arith), IsNumbered-later next box.pending q.numbered);
                keyed =
                    (refl, IsOther-IsKeyed next next box.pending (inr refl) q.numbered q.others);
                known = omega arith;
              })
      ]
    ]

activate-IsTimed : (box : Box) (is_active : Bool) → IsTimed box → IsTimed (activate box is_active)
unfolding activate
activate-IsTimed box is_active t = elim (Bool-cases (is_active || is_block box.results_window)) [
  | inl stay ↦
      simp (stay)
        (record { first = t.first; numbered = t.numbered; keyed = t.keyed; known = t.known })
  | inr shut ↦
      simp (shut)
        (record { first = t.first; numbered = t.numbered; keyed = t.keyed; known = t.known })
]

show-IsQuiet : (box : Box) → IsQuiet box → IsQuiet (on_search_select_show box)
unfolding on_search_select_show
show-IsQuiet box q = elim (Bool-cases (not (box.hide_timeout == 0))) [
  | inl armed ↦ simp (armed) (record {
    first = q.first;
    numbered = clear_timer-IsNumbered box.hide_timeout box.pending box.next_timer q.numbered;
    others = clear_timer-others box.hide_timeout box.pending q.others;
    stopped = q.stopped;
  })
  | inr idle ↦
      simp (idle)
        (record { first = q.first; numbered = q.numbered; others = q.others; stopped = q.stopped })
]

-- Timers being numbered in order from 1, a change of the search field, by whatever key, keeps
-- this: every search that waits for its timer does so under the number that the box remembers, and
-- nothing else waits under that number. So the search that an earlier key had set off is stopped.
pub on_search_field_change-IsTimed :
    (s : Site) (key : ℕ) (shift : Bool)
    → IsTimed s.box
    → IsTimed (on_search_field_change s key shift).box
unfolding on_search_field_change leave_field
on_search_field_change-IsTimed s key shift t =
    let b : Box = stop_key_timer s.box in
    let q = stop_key_timer-IsQuiet s.box t in
    let scheduled = schedule_search-IsTimed b q in
    elim (Bool-cases (key == 40 || key == 13)) [
      | inl enter ↦ elim (Bool-cases shift) [
        | inl held ↦ simp (enter, held) (quiet-IsTimed (on_search_select_show b) (show-IsQuiet b q))
        | inr free ↦ simp (enter, free) scheduled
      ]
      | inr letter ↦ elim (Bool-cases (key == 27)) [
        | inl escape ↦
            simp (letter, escape)
              (activate-IsTimed
                (record b {
                  results_window = hidden;
                  search_close = hidden;
                  last_search_value = [];
                })
                false
                (record {
                  first = q.first;
                  numbered = q.numbered;
                  keyed = (quiet-IsTimed b q).keyed;
                  known = (quiet-IsTimed b q).known;
                }))
        | inr other ↦ simp (letter, other) scheduled
      ]
    ]
