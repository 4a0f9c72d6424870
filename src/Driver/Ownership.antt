-- ===== src/Driver/Ownership.antt =====
-- Who owns which block of memory between the steps of the driver's operations
-- (aesd-char-driver/char-driver/src), and what the device holds.
pub mod Frame
pub mod Blocks
use embedded_linux.Common.{
  ℕ, zero, suc, ◌+◌, ◌-◌, ◌^◌, ◌<◌, ◌≡◌, Bool, true, false, Option, none, some, List, [], ◌∷◌, ◌++◌,
  map, ◌==◌, if◌then◌else◌, length, take, tail, All,
}
use embedded_linux.Circular.{Entry, Buffer, total_entries}
use embedded_linux.Circular.Invariant.{IsValid}
use embedded_linux.Circular.Refine.{window, contents}
use embedded_linux.Memory.{Heap, bytes_at}
use embedded_linux.Driver.{Dev, Sys}

-- 1 if a pointer is the address `p`, else 0.
abbrev pub hits : ℕ → Option ℕ → ℕ
hits p none = 0
hits p (some q) = if p == q then 1 else 0

-- How many slots of the array point to `p`.
abbrev pub count_slots : ℕ → List Entry → ℕ
count_slots p [] = 0
count_slots p (e ∷ es) = hits p e.buffptr + count_slots p es

-- 1 if a block is live at `p`, else 0.
abbrev pub live : Heap → ℕ → ℕ
live h p = elim (h.block p) [ none ↦ 0 | some _ ↦ 1 ]

-- A pointer with a size is NULL and 0, or has a block of one byte more (the closing zero byte of
-- the write buffer).
abbrev pub IsBackedPtr : Heap → Option ℕ → ℕ → Type 0
IsBackedPtr h none n = n ≡ 0
IsBackedPtr h (some p) n = (length (bytes_at h p) ≡ n + 1) × (n + 1 < 2 ^ 32)

abbrev pub IsBacked : Heap → Entry → Type 0
IsBacked h e = IsBackedPtr h e.buffptr e.size

abbrev pub IsNull : Entry → Type 0
IsNull e = e.buffptr ≡ none

-- The slots that hold no entry, from `in_offs` round to `out_offs`.
abbrev pub unused_slots : Buffer → List Entry
unused_slots b = window b.entry b.in_offs (10 - total_entries b)

-- The ownership of memory, while an operation holds `tmp` as a temporary block: every live block
-- is pointed to exactly once, by `tmp`, `write_buf` or a slot, and these point to nothing else. So
-- no block is lost, none is freed twice, and no two pointers share one.
pub record IsOwned (tmp : Option ℕ) (s : Sys) : Type 0 where
  pub ring : IsValid s.dev.buffer
  pub sound : s.heap.fault ≡ false
  pub owned :
      (p : ℕ)
      → hits p tmp + hits p s.dev.write_buf + count_slots p s.dev.buffer.entry ≡ live s.heap p
  pub backed : All (IsBacked s.heap) s.dev.buffer.entry
  pub pending : IsBackedPtr s.heap s.dev.write_buf s.dev.write_buf_size
  pub unused : All IsNull (unused_slots s.dev.buffer)

-- The first `n` bytes behind a pointer.
abbrev pub bytes_of : Heap → Option ℕ → ℕ → List ℕ
bytes_of h none n = []
bytes_of h (some p) n = take n (bytes_at h p)

abbrev pub entry_bytes : Heap → Entry → List ℕ
entry_bytes h e = bytes_of h e.buffptr e.size

-- What a client of the device sees: the complete commands, oldest first, and the bytes written
-- since the last newline.
pub record Log : Type 0 where
  pub commands : List (List ℕ)
  pub pending : List ℕ

abbrev pub commands_of : Heap → Buffer → List (List ℕ)
commands_of h b = map (entry_bytes h) (contents b)

abbrev pub log : Sys → Log
log s = record {
  commands = commands_of s.heap s.dev.buffer;
  pending = bytes_of s.heap s.dev.write_buf s.dev.write_buf_size;
}
