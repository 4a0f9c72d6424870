-- ===== src/Memory.antt =====
-- The memory that the kernel module works on (slab blocks reached through pointers), and the
-- kernel's allocator, which is not part of the repository and so is a parameter.
pub mod Append
use embedded_linux.Common.{
  ℕ, ◌+◌, ◌^◌, ◌<◌, ◌≡◌, ◌⊎◌, Bool, true, false, not, ◌||◌, Option, none, some, List, [], ◌++◌, leb,
  ◌==◌, if◌then◌else◌, length, take, drop,
}

-- The live blocks by address, each the list of its bytes. `fault` records that some access went
-- outside a live block, or that an address was freed that was not live.
pub record Heap : Type 0 where
  pub block : ℕ → Option (List ℕ)
  pub fault : Bool

abbrev pub update : (ℕ → Option (List ℕ)) → ℕ → Option (List ℕ) → ℕ → Option (List ℕ)
update f p v q = if p == q then v else f q

-- The bytes of a block, none if the address is not live.
abbrev pub bytes_at : Heap → ℕ → List ℕ
bytes_at h p = elim (h.block p) [ none ↦ [] | some bs ↦ bs ]

-- Whether `n` bytes at `p + off` lie in a live block.
abbrev pub in_block : Heap → ℕ → ℕ → ℕ → Bool
in_block h p off n = elim (h.block p) [ none ↦ false | some bs ↦ leb (off + n) (length bs) ]

-- A check that marks the heap if it fails.
abbrev pub checked : Bool → Heap → Heap
checked b h = record h { fault = h.fault || not b }

-- Reading `n` bytes at `p + off`, and what the read leaves.
unfoldable pub peek : Heap → ℕ → ℕ → ℕ → List ℕ
peek h p off n = take n (drop off (bytes_at h p))

-- Writing bytes at `p + off`.
unfoldable pub poke : Heap → ℕ → ℕ → List ℕ → Heap
poke h p off bs =
    let old = bytes_at h p in
    let new = take off old ++ (bs ++ drop (off + length bs) old) in
    if in_block h p off (length bs)
    then record h { block = update h.block p (some new) }
    else record h { fault = true }

-- `memcpy(dst + off, src, n)`.
unfoldable pub memcpy : Heap → ℕ → ℕ → ℕ → ℕ → Heap
memcpy h dst off src n = poke (checked (in_block h src 0 n) h) dst off (peek h src 0 n)

-- `kfree(p)` of an address other than NULL.
unfoldable pub kfree : Heap → ℕ → Heap
kfree h p = elim (h.block p) [
  | none ↦ record h { fault = true }
  | some _ ↦ record h { block = update h.block p none }
]

-- The allocator. `kmalloc h n` and `krealloc h p n` are the address that the kernel hands out, or
-- NULL; `junk n` is what new memory holds. The laws are the documented ones: an address handed out
-- is not live (`krealloc` may also keep the block where it is), and no block is larger than the
-- allocator's limit, which lies far below 2^32.
pub record Allocator : Type 0 where
  pub kmalloc : Heap → ℕ → Option ℕ
  pub krealloc : Heap → ℕ → ℕ → Option ℕ
  pub junk : ℕ → List ℕ
  pub length-junk : (n : ℕ) → length (junk n) ≡ n
  pub kmalloc_fresh : (h : Heap) (n p : ℕ) → kmalloc h n ≡ some p → h.block p ≡ none
  pub krealloc_fresh :
      (h : Heap) (q n p : ℕ) → krealloc h q n ≡ some p → (p ≡ q) ⊎ (h.block p ≡ none)
  pub kmalloc_limit : (h : Heap) (n p : ℕ) → kmalloc h n ≡ some p → n < 2 ^ 32
  pub krealloc_limit : (h : Heap) (q n p : ℕ) → krealloc h q n ≡ some p → n < 2 ^ 32

-- The heap after `kmalloc` handed out `p` for `n` bytes.
unfoldable pub allocated : Allocator → Heap → ℕ → ℕ → Heap
allocated a h p n = record h { block = update h.block p (some (a.junk n)) }

-- The heap after `krealloc` moved the block at `q` to `p` (perhaps `q` itself) with `n` bytes:
-- what the old block held is kept, up to the smaller of the two sizes.
unfoldable pub reallocated : Allocator → Heap → ℕ → ℕ → ℕ → Heap
reallocated a h q p n =
    let bs = take n (bytes_at h q ++ a.junk n) in
    record (checked (in_block h q 0 0) h) { block = update (update h.block q none) p (some bs) }
