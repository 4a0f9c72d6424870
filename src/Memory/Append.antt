-- ===== src/Memory/Append.antt =====
-- Appending to a block: `memcpy` behind what the block holds, then a closing zero byte, as
-- aesd_handle_write_buffer does (aesd-char-driver/char-driver/src/aesd-char-buffer.c).
use embedded_linux.Common.{
  ℕ, ◌+◌, ◌≤◌, ◌≡◌, ◌≢◌, refl, sym, ap, ap₂, ◌∙◌, Bool, true, Option, some, List, [], ◌∷◌, ◌++◌,
  arith, append_assoc, length, length-append, length-take, length-drop, take, drop, drop-all,
  take-all, take-length-append,
}
use embedded_linux.Memory.{Heap, checked, bytes_at, in_block, peek, poke, memcpy, update}

module _ {ℓ} {A : Type ℓ} where
  -- What a block holds after `xs` is written at offset `k`.
  abbrev pub splice : ℕ → List A → List A → List A
  splice k xs old = take k old ++ (xs ++ drop (k + length xs) old)

  pub length-splice :
      (k : ℕ) (xs old : List A) → k + length xs ≤ length old → length (splice k xs old) ≡ length old
  length-splice k xs old h = omega (
    arith,
    length-append (take k old) (xs ++ drop (k + length xs) old),
    length-append xs (drop (k + length xs) old),
    length-take k old,
    length-drop (k + length xs) old,
  )

  pub splice-splice :
      (k : ℕ) (xs : List A) (z : A) (old : List A)
      → length old ≡ k + length xs + 1
      → splice (k + length xs) (z ∷ []) (splice k xs old) ≡ take k old ++ (xs ++ (z ∷ []))
  splice-splice k xs z old h =
      let n : ℕ = k + length xs in
      let front : take n (splice k xs old) ≡ take k old ++ xs =
        ap (take n) (sym (append_assoc (take k old) xs (drop n old)))
        ∙ take-length-append n (take k old ++ xs) (drop n old)
            (omega (arith, length-append (take k old) xs, length-take k old)) in
      let back : drop (n + 1) (splice k xs old) ≡ [] =
        drop-all (n + 1) (splice k xs old) (omega (arith, length-splice k xs old (omega arith))) in
      ap₂ (λ l r. l ++ (z ∷ r)) front back ∙ append_assoc (take k old) xs (z ∷ [])

-- A write inside a live block.
pub poke_lem :
    (h : Heap) (p off : ℕ) (bs old : List ℕ)
    → h.block p ≡ some old
    → off + length bs ≤ length old
    → poke h p off bs ≡ record h { block = update h.block p (some (splice off bs old)) }
unfolding poke
poke_lem h p off bs old e fits = rw (e, bytes_at, in_block) (ground arith)

pub checked_lem : (b : Bool) (h : Heap) → b ≡ true → checked b h ≡ h
checked_lem b h e = ground arith

pub peek_lem : (h : Heap) (p n : ℕ) (bs : List ℕ) → h.block p ≡ some bs → peek h p 0 n ≡ take n bs
unfolding peek
peek_lem h p n bs e = rw (e, bytes_at)

pub in_block_lem :
    (h : Heap) (p off n : ℕ) (bs : List ℕ)
    → h.block p ≡ some bs
    → off + n ≤ length bs
    → in_block h p off n ≡ true
in_block_lem h p off n bs e fits = rw (e, in_block) (ground arith)

pub update_self : (f : ℕ → Option (List ℕ)) (p : ℕ) (v : Option (List ℕ)) → update f p v p ≡ v
update_self f p v = ground arith

-- A copy of a whole block into another.
pub memcpy_lem :
    (h : Heap) (dst off src n : ℕ) (old sb : List ℕ)
    → h.block dst ≡ some old
    → h.block src ≡ some sb
    → n ≡ length sb
    → off + n ≤ length old
    → memcpy h dst off src n ≡ record h { block = update h.block dst (some (splice off sb old)) }
unfolding memcpy
memcpy_lem h dst off src n old sb ed es hn fits =
    rw
      (
        checked_lem (in_block h src 0 n) h (in_block_lem h src 0 n sb es (omega arith)),
        peek_lem h src n sb es ∙ take-all n sb (omega arith),
      )
      (poke_lem h dst off sb old ed (omega arith))

-- The block at `new` has room for `k` bytes kept, `count` bytes from the block at `src`, and the
-- closing zero: it ends up holding just these, no access goes astray, and all else stays.
pub memcpy_append :
    (h : Heap) (new k src count end : ℕ) (old sb : List ℕ)
    → end ≡ k + count
    → h.block new ≡ some old
    → h.block src ≡ some sb
    → src ≢ new
    → length old ≡ k + count + 1
    → length sb ≡ count
    → let h' = poke (memcpy h new k src count) new end (0 ∷ []) in
      (h'.block new ≡ some (take k old ++ (sb ++ (0 ∷ []))))
      × (h'.fault ≡ h.fault)
      × ((p : ℕ) → p ≢ new → h'.block p ≡ h.block p)
memcpy_append h new k src count end old sb ee en es ne ho hs =
    let mid : List ℕ = splice k sb old in
    let t : Heap = record h { block = update h.block new (some mid) } in
    let size : length mid ≡ length old = length-splice k sb old (omega arith) in
    let last : poke t new (k + count) (0 ∷ [])
        ≡ record t { block = update t.block new (some (splice (k + count) (0 ∷ []) mid)) } =
      poke_lem t new (k + count) (0 ∷ []) mid (update_self h.block new (some mid)) (omega arith) in
    let text : splice (k + count) (0 ∷ []) mid ≡ take k old ++ (sb ++ (0 ∷ [])) =
      rw (← hs) (splice-splice k sb 0 old (omega arith)) in
    rw (memcpy_lem h new k src count old sb en es (omega arith) (omega arith))
      (rw (ee, last) (update_self t.block new _ ∙ ap some text, refl, λ p ne. ground arith))
