-- ===== src/Folding/Listing/Toggle.antt =====
-- The blocks of a listing after a click on the control of one (docs/html/dynsections.js).
use embedded_linux.Common.{
  ℕ, ◌≡◌, refl, sym, ap, ◌∙◌, Bool, true, false, not, inl, inr, Bool-cases, Option, none, some,
  List, ◌∷◌, ◌++◌, arith, if◌then◌else◌,
}
use embedded_linux.Search.{Str, same}
use embedded_linux.Search.Build.Decimal.{same→eq, same_refl}
use embedded_linux.Folding.Listing.Ids.{contains, contains-append, AreDistinct, AreDistinct-append}
use embedded_linux.Folding.Listing.Shown.{ids, Shows, Shows-frame}
use embedded_linux.Folding.Listing.{
  Line, Block, Code, empty, line, block, ellipsis, closed_line, set_closed, flip, toggle_first,
}

abbrev pub flipped : Str → (Str → Bool) → Str → Bool
flipped id f j = if same id j then not (f j) else f j

flipped_same : (id : Str) (f : Str → Bool) → flipped id f id ≡ not (f id)
flipped_same id f = rw (same_refl id)

flipped_other :
    (id : Str) (f : Str → Bool) (ss : List Str) (j : Str)
    → contains id ss ≡ false
    → contains j ss ≡ true
    → flipped id f j ≡ f j
flipped_other id f ss j out i = elim (Bool-cases (same id j)) [
  | inl e ↦ absurd (cc (out, i, ap (λ x. contains x ss) (same→eq id j e)))
  | inr e ↦ rw e
]

flipped_apart : (id : Str) (f : Str → Bool) (j : Str) → same j id ≡ false → flipped id f j ≡ f j
flipped_apart id f j apart = elim (Bool-cases (same id j)) [
  | inl e ↦ absurd (cc (apart, same_refl j, ap (same j) (same→eq id j e)))
  | inr e ↦ rw e
]

-- What a toggle makes of a listing; none if it has no such block.
abbrev pub Toggled : ℕ → Str → (Str → Bool) → Code → Option Code → Type 0
Toggled rel_path id f c none = contains id (ids c) ≡ false
Toggled rel_path id f c (some d) =
    Shows rel_path (flipped id f) d × (ids d ≡ ids c) × (contains id (ids c) ≡ true)

module _ (rel_path : ℕ) (id : Str) (f : Str → Bool) where
  Toggled-line :
      (l : Line) (rest : Code) (r : Option Code)
      → Toggled rel_path id f rest r
      → Toggled rel_path id f (line l rest) (elim r [ none ↦ none | some x ↦ some (line l x) ])
  Toggled-line l rest none h = h
  Toggled-line l rest (some d) h = h

  Toggled-here :
      (b : Block) (l : Line) (inner rest : Code)
      → b.id ≡ id
      → AreDistinct (b.id ∷ (ids inner ++ ids rest))
      → Shows rel_path f (block b l inner rest)
      → Shows rel_path (flipped id f) (block (flip b) l inner rest)
  unfolding flip closed_line ellipsis
  Toggled-here b l inner rest e (out, d) (o, k, m, i, r) =
      let here : flipped id f b.id ≡ not (f b.id) =
        ap (λ x. flipped x f b.id) (sym e) ∙ flipped_same b.id f in
      let outside = ap (λ x. contains x (ids inner ++ ids rest)) (sym e) ∙ out in
      (
        ap not o ∙ sym here,
        ap (set_closed not) k ∙ ap (λ x. some (closed_line rel_path b l, not x)) (sym here),
        m,
        Shows-frame rel_path f (flipped id f) inner
            (λ j c.
              flipped_other id f (ids inner ++ ids rest) j outside
                (ground (arith, contains-append j (ids inner) (ids rest))))
            i,
        Shows-frame rel_path f (flipped id f) rest
            (λ j c.
              flipped_other id f (ids inner ++ ids rest) j outside
                (ground (arith, contains-append j (ids inner) (ids rest))))
            r,
      )

  -- A block of another id, one of whose two parts was toggled.
  Toggled-around :
      (b : Block) (l : Line) (inner inner' rest rest' : Code)
      → same b.id id ≡ false
      → Shows rel_path f (block b l inner rest)
      → Shows rel_path (flipped id f) inner'
      → Shows rel_path (flipped id f) rest'
      → Shows rel_path (flipped id f) (block b l inner' rest')
  Toggled-around b l inner inner' rest rest' other (o, k, m, i, r) i' r' =
      let here = flipped_apart id f b.id other in
      (o ∙ sym here, k ∙ ap (λ x. some (closed_line rel_path b l, not x)) (sym here), m, i', r')

  pub Shows-unflipped :
      (c : Code)
      → contains id (ids c) ≡ false
      → Shows rel_path f c
      → Shows rel_path (flipped id f) c
  Shows-unflipped c out =
      Shows-frame rel_path f (flipped id f) c (λ j i. flipped_other id f (ids c) j out i)

  Toggled-rest :
      (b : Block) (l : Line) (inner rest : Code) (r : Option Code)
      → same b.id id ≡ false
      → contains id (ids inner) ≡ false
      → Shows rel_path f (block b l inner rest)
      → Toggled rel_path id f rest r
      → Toggled rel_path id f
          (block b l inner rest)
          (elim r [ none ↦ none | some x ↦ some (block b l inner x) ])
  Toggled-rest b l inner rest none other out h t =
      ground (arith, contains-append id (ids inner) (ids rest))
  Toggled-rest b l inner rest (some d) other out h (shows, same_ids, i) = (
    Toggled-around b l inner inner rest d other h (Shows-unflipped inner out h.3) shows,
    ap (λ x. b.id ∷ (ids inner ++ x)) same_ids,
    ground (arith, contains-append id (ids inner) (ids rest)),
  )

  Toggled-inner :
      (b : Block) (l : Line) (inner rest : Code) (r s : Option Code)
      → same b.id id ≡ false
      → AreDistinct (b.id ∷ (ids inner ++ ids rest))
      → Shows rel_path f (block b l inner rest)
      → Toggled rel_path id f inner r
      → Toggled rel_path id f rest s
      → Toggled rel_path id f (block b l inner rest) (elim r [
        | some c ↦ some (block b l c rest)
        | none ↦ elim s [ none ↦ none | some x ↦ some (block b l inner x) ]
      ])
  Toggled-inner b l inner rest none s other d h t u = Toggled-rest b l inner rest s other t h u
  Toggled-inner b l inner rest (some c) s other d h (shows, same_ids, i) u =
      let out = (AreDistinct-append (ids inner) (ids rest) d.1).2 id i in
      (
        Toggled-around b l inner c rest rest other h shows (Shows-unflipped rest out h.4),
        ap (λ x. b.id ∷ (x ++ ids rest)) same_ids,
        ground (arith, contains-append id (ids inner) (ids rest)),
      )

  pub toggle_first-Toggled :
      (c : Code)
      → AreDistinct (ids c)
      → Shows rel_path f c
      → Toggled rel_path id f c (toggle_first id c)
  unfolding toggle_first flip
  toggle_first-Toggled empty d h = refl
  toggle_first-Toggled (line l rest) d h =
      Toggled-line l rest (toggle_first id rest) (toggle_first-Toggled rest d h)
  toggle_first-Toggled (block b l inner rest) d h =
      let (left, right, apart) = AreDistinct-append (ids inner) (ids rest) d.1 in
      elim (Bool-cases (same b.id id)) [
        | inl e ↦ rw e (Toggled-here b l inner rest (same→eq b.id id e) d h, refl, rw e refl)
        | inr e ↦ rw e (
            Toggled-inner b l inner rest (toggle_first id inner) (toggle_first id rest) e d h
              (toggle_first-Toggled inner left h.3) (toggle_first-Toggled rest right h.4))
      ]
