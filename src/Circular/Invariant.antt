-- ===== src/Circular/Invariant.antt =====
-- The representation invariant of `struct aesd_circular_buffer`
-- (aesd-char-driver/circular-buffer/src): the functions keep it, and stay inside the array.
use embedded_linux.Common.{
  ◌+◌, ◌%◌, ◌≤◌, ◌<◌, ◌≡◌, refl, true, false, Option, none, some, arith, length, length-set,
}
use embedded_linux.Circular.{
  Entry, Buffer, null_entry, zeroed, init, store, add_entry, clear_oldest, remove_entry,
  total_entries,
}

pub record IsValid (b : Buffer) : Type 0 where
  pub slots : length b.entry ≡ 10
  pub in_range : b.in_offs < 10
  pub out_range : b.out_offs < 10
  pub full_meets : b.full ≡ true → b.in_offs ≡ b.out_offs

-- A pointer to a valid buffer, or NULL.
abbrev pub IsValidPtr : Option Buffer → Type 0
IsValidPtr none = Unit
IsValidPtr (some b) = IsValid b

pub zeroed-IsValid : IsValid zeroed
zeroed-IsValid = record {
  slots = refl;
  in_range = omega arith;
  out_range = omega arith;
  full_meets = λ h. cc;
}

pub store-IsValid : {b : Buffer} (e : Entry) → IsValid b → IsValid (store b e)
unfolding store
store-IsValid {b} e v = ground (arith, length-set b.entry b.in_offs e)

pub clear_oldest-IsValid : {b : Buffer} → IsValid b → IsValid (clear_oldest b)
unfolding clear_oldest
clear_oldest-IsValid {b} v = ground (arith, length-set b.entry b.out_offs null_entry)

-- In a valid buffer `total_entries` is at most 10 and the number of slots from `out_offs` round to
-- `in_offs`: 10 in a full buffer, else fewer.
pub total_entries_lem :
    {b : Buffer}
    → IsValid b
    → (total_entries b ≤ 10)
      × ((b.out_offs + total_entries b) % 10 ≡ b.in_offs)
      × ((b.full ≡ true → total_entries b ≡ 10) × (b.full ≡ false → total_entries b < 10))
unfolding total_entries
total_entries_lem v = ground arith

-- A buffer with fewer than ten entries gains one, a full one keeps ten.
pub total_entries-store :
    {b : Buffer} (e : Entry)
    → IsValid b
    → (b.full ≡ true → total_entries (store b e) ≡ 10)
      × (b.full ≡ false → total_entries (store b e) ≡ total_entries b + 1)
unfolding store total_entries
total_entries-store e v = ground arith

-- A buffer that holds an entry loses one.
pub total_entries-clear_oldest :
    {b : Buffer}
    → IsValid b
    → 0 < total_entries b
    → total_entries (clear_oldest b) + 1 ≡ total_entries b
unfolding clear_oldest total_entries
total_entries-clear_oldest v h = ground arith

-- Given NULL or a valid buffer, and NULL or any entry, `init`, `add_entry` and `remove_entry`
-- leave NULL or a valid buffer.
pub operations-IsValid :
    (p : Option Buffer) (e : Option Entry)
    → IsValidPtr p
    → IsValidPtr (init p) × IsValidPtr (add_entry p e) × IsValidPtr (remove_entry p)
unfolding init add_entry remove_entry
operations-IsValid none e v = (tt, tt, tt)
operations-IsValid (some b) none v = (zeroed-IsValid, v, ground (arith, clear_oldest-IsValid v))
operations-IsValid (some b) (some e) v =
    (zeroed-IsValid, ground (arith, store-IsValid e v), ground (arith, clear_oldest-IsValid v))
