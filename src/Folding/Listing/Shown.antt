-- ===== src/Folding/Listing/Shown.antt =====
-- Which form of each block of a listing is shown, after any clicks (docs/html/dynsections.js).
use embedded_linux.Common.{
  ℕ, ◌≡◌, refl, sym, ap, ap₂, ◌∙◌, Bool, true, false, not, none, some, List, [], ◌∷◌, ◌++◌, arith,
}
use embedded_linux.Search.{Str}
use embedded_linux.Search.Build.Decimal.{same_refl}
use embedded_linux.Folding.Listing.Ids.{contains, contains-append}
use embedded_linux.Folding.Listing.{
  Line, Block, Code, empty, line, block, fold, mark_all, ellipsis, set_mark, closed_line, add_bars,
  add_marks, add_closed, add_blocks, set_closed, mark_line, set_all,
}

-- The ids of the blocks, in order.
abbrev pub ids : Code → List Str
ids empty = []
ids (line l rest) = ids rest
ids (block b l inner rest) = b.id ∷ (ids inner ++ ids rest)

-- The page as it comes: every block is shown, and has no closed form.
abbrev pub IsFresh : Code → Type 0
IsFresh empty = Unit {0}
IsFresh (line l rest) = IsFresh rest
IsFresh (block b l inner rest) =
    (b.open_shown ≡ true) × (b.closed ≡ none) × IsFresh inner × IsFresh rest

-- The blocks of the ids in `open_ids` show their open form and no other, the others their closed
-- form and no other; the first line of a block has the control of the block, and its closed form is
-- the line made from that.
abbrev pub Shows : ℕ → (Str → Bool) → Code → Type 0
Shows rel_path open_ids empty = Unit {0}
Shows rel_path open_ids (line l rest) = Shows rel_path open_ids rest
Shows rel_path open_ids (block b l inner rest) =
    (b.open_shown ≡ open_ids b.id)
    × (b.closed ≡ some (closed_line rel_path b l, not (open_ids b.id)))
    × (l.mark ≡ fold b.id false rel_path)
    × Shows rel_path open_ids inner
    × Shows rel_path open_ids rest

ids-add_bars : (c : Code) → ids (add_bars c) ≡ ids c
unfolding add_bars
ids-add_bars empty = refl
ids-add_bars (line l rest) = ids-add_bars rest
ids-add_bars (block b l inner rest) =
    ap₂ (λ x y. b.id ∷ (x ++ y)) (ids-add_bars inner) (ids-add_bars rest)

IsFresh-add_bars : (c : Code) → IsFresh c → IsFresh (add_bars c)
unfolding add_bars
IsFresh-add_bars empty h = tt
IsFresh-add_bars (line l rest) h = IsFresh-add_bars rest h
IsFresh-add_bars (block b l inner rest) (o, n, i, r) =
    (o, n, IsFresh-add_bars inner i, IsFresh-add_bars rest r)

pub ids-add_marks : (rel_path : ℕ) (c : Code) → ids (add_marks rel_path c) ≡ ids c
unfolding add_marks
ids-add_marks rel_path empty = refl
ids-add_marks rel_path (line l rest) = ids-add_bars rest
ids-add_marks rel_path (block b l inner rest) =
    ap₂ (λ x y. b.id ∷ (x ++ y)) (ids-add_bars inner) (ids-add_bars rest)

pub IsFresh-add_marks : (rel_path : ℕ) (c : Code) → IsFresh c → IsFresh (add_marks rel_path c)
unfolding add_marks
IsFresh-add_marks rel_path empty h = tt
IsFresh-add_marks rel_path (line l rest) h = IsFresh-add_bars rest h
IsFresh-add_marks rel_path (block b l inner rest) (o, n, i, r) =
    (o, n, IsFresh-add_bars inner i, IsFresh-add_bars rest r)

pub ids-add_blocks : (rel_path : ℕ) (c : Code) → ids (add_blocks rel_path c) ≡ ids c
unfolding add_blocks add_closed
ids-add_blocks rel_path empty = refl
ids-add_blocks rel_path (line l rest) = ids-add_blocks rel_path rest
ids-add_blocks rel_path (block b l inner rest) =
    ap₂ (λ x y. b.id ∷ (x ++ y)) (ids-add_blocks rel_path inner) (ids-add_blocks rel_path rest)

pub add_blocks-Shows :
    (rel_path : ℕ) (c : Code) → IsFresh c → Shows rel_path (λ j. true) (add_blocks rel_path c)
unfolding add_blocks add_closed closed_line ellipsis
add_blocks-Shows rel_path empty h = tt
add_blocks-Shows rel_path (line l rest) h = add_blocks-Shows rel_path rest h
add_blocks-Shows rel_path (block b l inner rest) (o, n, i, r) =
    (o, refl, refl, add_blocks-Shows rel_path inner i, add_blocks-Shows rel_path rest r)

pub ids-set_all :
    (open_now : Bool) (rel_path : ℕ) (c : Code) → ids (set_all open_now rel_path c) ≡ ids c
unfolding set_all
ids-set_all open_now rel_path empty = refl
ids-set_all open_now rel_path (line l rest) = ids-set_all open_now rel_path rest
ids-set_all open_now rel_path (block b l inner rest) =
    ap₂ (λ x y. b.id ∷ (x ++ y)) (ids-set_all open_now rel_path inner)
      (ids-set_all open_now rel_path rest)

closed_line-mark_line :
    (plus : Bool) (rel_path path : ℕ) (b : Block) (l : Line)
    → l.mark ≡ fold b.id false rel_path
    → closed_line rel_path b (mark_line plus path l) ≡ closed_line rel_path b l
unfolding mark_all
closed_line-mark_line plus rel_path path b l m =
    ap (λ x. closed_line rel_path b (set_mark x l)) (ap (mark_all plus path) m ∙ sym m)

pub set_all-Shows :
    (open_now : Bool) (rel_path path : ℕ) (open_ids : Str → Bool) (c : Code)
    → Shows rel_path open_ids c
    → Shows rel_path (λ j. open_now) (set_all open_now path c)
unfolding set_all mark_all closed_line ellipsis
set_all-Shows open_now rel_path path open_ids empty h = tt
set_all-Shows open_now rel_path path open_ids (line l rest) h =
    set_all-Shows open_now rel_path path open_ids rest h
set_all-Shows open_now rel_path path open_ids (block b l inner rest) (o, k, m, i, r) = (
  refl,
  ap (set_closed (λ _. not open_now)) k
      ∙ ap (λ x. some (x, not open_now))
          (sym (closed_line-mark_line (not open_now) rel_path path b l m)),
  ap (mark_all (not open_now) path) m,
  set_all-Shows open_now rel_path path open_ids inner i,
  set_all-Shows open_now rel_path path open_ids rest r,
)

-- A change of ids that the listing does not have.
pub Shows-frame :
    (rel_path : ℕ) (f g : Str → Bool) (c : Code)
    → ((j : Str) → contains j (ids c) ≡ true → g j ≡ f j)
    → Shows rel_path f c
    → Shows rel_path g c
Shows-frame rel_path f g empty same_at h = tt
Shows-frame rel_path f g (line l rest) same_at h = Shows-frame rel_path f g rest same_at h
Shows-frame rel_path f g (block b l inner rest) same_at (o, k, m, i, r) =
    let here : g b.id ≡ f b.id = same_at b.id (ground (arith, same_refl b.id)) in
    (
      o ∙ sym here,
      k ∙ ap (λ x. some (closed_line rel_path b l, not x)) (sym here),
      m,
      Shows-frame rel_path f g inner
          (λ j e. same_at j (ground (arith, contains-append j (ids inner) (ids rest)))) i,
      Shows-frame rel_path f g rest
          (λ j e. same_at j (ground (arith, contains-append j (ids inner) (ids rest)))) r,
    )
