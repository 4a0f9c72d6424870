-- ===== src/Driver/Read/Stream.antt =====
-- The entries of the buffer as one stream of bytes, and the stretch of it that an entry holds.
use mathlib.Core.List.{flatten}
use embedded_linux.Common.{
  ℕ, zero, suc, ◌+◌, ◌-◌, ◌*◌, ◌%◌, ◌^◌, ◌≤◌, ◌<◌, ◌≡◌, refl, sym, ap, ◌∙◌, Option, none, some,
  List, [], ◌∷◌, ◌++◌, map, arith, inl, inr, length, length-append, length-take, drop, ltb,
  Option-cases, Bool-cases, All, All-get_or, get_or, drop-append_left, drop-append_right,
}
use embedded_linux.Circular.{Entry, null_entry}
use embedded_linux.Circular.Refine.{window}
use embedded_linux.Circular.Find.{total_size, locate}
use embedded_linux.Memory.{Heap, bytes_at}
use embedded_linux.Driver.Ownership.{IsBackedPtr, IsBacked, bytes_of, entry_bytes, Log}

-- All that can be read from the device.
abbrev pub stream : Log → List ℕ
stream l = flatten (l.commands)

pub length-bytes_of :
    (h : Heap) (ptr : Option ℕ) (n : ℕ) → IsBackedPtr h ptr n → length (bytes_of h ptr n) ≡ n
length-bytes_of h none n b = sym b
length-bytes_of h (some p) n b = omega (arith, b.0, length-take n (bytes_at h p))

pub size-lt : (h : Heap) (ptr : Option ℕ) (n : ℕ) → IsBackedPtr h ptr n → n < 2 ^ 32
size-lt h none n b = omega arith
size-lt h (some p) n b = omega arith

-- The slots of a window are backed as the array is.
pub IsBacked-window :
    (h : Heap) (es : List Entry) (i n : ℕ) → All (IsBacked h) es → All (IsBacked h) (window es i n)
IsBacked-window h es i zero b = tt
IsBacked-window h es i (suc n) b =
    (All-get_or (IsBacked h) es i null_entry refl b, IsBacked-window h es ((i + 1) % 10) n b)

pub get_or-window :
    (es : List Entry) (i n k : ℕ)
    → i < 10
    → k < n
    → get_or (window es i n) k null_entry ≡ get_or es ((i + k) % 10) null_entry
get_or-window es i zero k hi hk = absurd (omega arith)
get_or-window es i (suc n) zero hi hk = ap (λ j. get_or es j null_entry) (omega arith)
get_or-window es i (suc n) (suc k) hi hk =
    get_or-window es ((i + 1) % 10) n k (omega arith) (omega arith)
    ∙ ap (λ j. get_or es j null_entry) (omega arith)

-- Ten entries hold fewer bytes than a `size_t` counts.
pub total_size-window :
    (h : Heap) (es : List Entry) (i n : ℕ)
    → All (IsBacked h) es
    → total_size (window es i n) ≤ n * 2 ^ 32
total_size-window h es i zero b = omega arith
total_size-window h es i (suc n) b =
    let e : Entry = get_or es i null_entry in
    omega (
      arith,
      total_size-window h es ((i + 1) % 10) n b,
      size-lt h e.buffptr e.size (All-get_or (IsBacked h) es i null_entry refl b),
    )

pub length-stream :
    (h : Heap) (es : List Entry)
    → All (IsBacked h) es
    → length (flatten (map (entry_bytes h) es)) ≡ total_size es
unfolding flatten
length-stream h [] b = refl
length-stream h (e ∷ es) b = omega (
  arith,
  length-append (entry_bytes h e) (flatten (map (entry_bytes h) es)),
  length-bytes_of h e.buffptr e.size b.0,
  length-stream h es b.1,
)

-- From the byte that `locate` found the stream runs on with the rest of that entry.
pub drop-stream :
    (h : Heap) (es : List Entry) (off : ℕ) {k r : ℕ}
    → All (IsBacked h) es
    → locate es off ≡ some (k, r)
    → drop off (flatten (map (entry_bytes h) es))
      ≡ drop r (entry_bytes h (get_or es k null_entry))
        ++ flatten (map (entry_bytes h) (drop (suc k) es))
unfolding locate flatten
drop-stream h [] off b e = absurd (cc)
drop-stream h (x ∷ es) off {k} {r} b e =
    let rest : List ℕ = flatten (map (entry_bytes h) es) in
    let len = length-bytes_of h x.buffptr x.size b.0 in
    elim (Bool-cases (ltb off x.size)) [
      | inl now ↦
          let ek : k ≡ 0 = ground arith in
          let er : r ≡ off = ground arith in
          rw (ek, er) (drop-append_left off (entry_bytes h x) rest (ground (arith, len)))
      | inr later ↦ elim (Option-cases (locate es (off - x.size))) [
        | inl missing ↦ absurd (ground arith)
        | inr ((j, r'), found) ↦
            let ih = drop-stream h es (off - x.size) b.1 found in
            let ek : k ≡ suc j = ground arith in
            let er : r ≡ r' = ground arith in
            rw (ek, er)
              (drop-append_right off (entry_bytes h x) rest (ground (arith, len))
                ∙ ap (λ i. drop (off - i) rest) len
                ∙ ih)
      ]
    ]
