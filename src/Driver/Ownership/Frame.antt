-- ===== src/Driver/Ownership/Frame.antt =====
-- What a change of one block of memory leaves alone.
use embedded_linux.Common.{
  ℕ, zero, suc, ◌+◌, ◌%◌, ◌≤◌, ◌<◌, ◌≡◌, ◌≢◌, refl, ap, ap₂, ◌∙◌, Option, none, some, List, [], ◌∷◌,
  map, arith, length, get_or, set, All,
}
use embedded_linux.Circular.{Entry, null_entry}
use embedded_linux.Circular.Refine.{window}
use embedded_linux.Memory.{Heap, bytes_at}
use embedded_linux.Driver.Ownership.{
  hits, count_slots, IsBackedPtr, IsBacked, bytes_of, entry_bytes,
}

-- Writing a slot trades the pointer that it held for the new one.
pub count_slots-set :
    (p : ℕ) (es : List Entry) (i : ℕ) (e : Entry)
    → i < length es
    → count_slots p (set es i e) + hits p ((get_or es i null_entry).buffptr)
      ≡ count_slots p es + hits p e.buffptr
count_slots-set p [] i e h = absurd (omega arith)
count_slots-set p (x ∷ es) zero e h = omega arith
count_slots-set p (x ∷ es) (suc i) e h = omega (arith, count_slots-set p es i e (omega arith))

pub hits-get_or :
    (p : ℕ) (es : List Entry) (i : ℕ) → hits p ((get_or es i null_entry).buffptr) ≤ count_slots p es
hits-get_or p [] i = omega arith
hits-get_or p (x ∷ es) zero = omega arith
hits-get_or p (x ∷ es) (suc i) = omega (arith, hits-get_or p es i)

pub hits_self : (p : ℕ) → hits p (some p) ≡ 1
hits_self p = ground arith

-- Two heaps that differ at `q` at most, and pointers that are not `q`.
module _ (h h' : Heap) (q : ℕ) (same : (p : ℕ) → p ≢ q → h'.block p ≡ h.block p) where
  bytes_at-frame : (p : ℕ) → p ≢ q → bytes_at h' p ≡ bytes_at h p
  bytes_at-frame p ne = rw (same p ne, bytes_at)

  pub IsBackedPtr-frame :
      (ptr : Option ℕ) (n : ℕ) → hits q ptr ≡ 0 → IsBackedPtr h ptr n → IsBackedPtr h' ptr n
  IsBackedPtr-frame none n z b = b
  IsBackedPtr-frame (some p) n z b = (ap length (bytes_at-frame p (ground arith)) ∙ b.0, b.1)

  pub bytes_of-frame :
      (ptr : Option ℕ) (n : ℕ) → hits q ptr ≡ 0 → bytes_of h' ptr n ≡ bytes_of h ptr n
  bytes_of-frame none n z = refl
  bytes_of-frame (some p) n z = rw (bytes_at-frame p (ground arith))

  pub IsBacked-frame :
      (es : List Entry) → count_slots q es ≡ 0 → All (IsBacked h) es → All (IsBacked h') es
  IsBacked-frame [] z b = tt
  IsBacked-frame (e ∷ es) z b =
      (IsBackedPtr-frame e.buffptr e.size (omega arith) b.0, IsBacked-frame es (omega arith) b.1)

  pub entry_bytes-frame :
      (es : List Entry)
      → count_slots q es ≡ 0
      → (i n : ℕ) → map (entry_bytes h') (window es i n) ≡ map (entry_bytes h) (window es i n)
  entry_bytes-frame es z i zero = refl
  entry_bytes-frame es z i (suc n) =
      let e : Entry = get_or es i null_entry in
      ap₂ ◌∷◌ (bytes_of-frame e.buffptr e.size (omega (arith, hits-get_or q es i)))
        (entry_bytes-frame es z ((i + 1) % 10) n)
