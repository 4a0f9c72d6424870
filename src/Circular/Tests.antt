-- ===== src/Circular/Tests.antt =====
-- The circular buffer on a concrete one.
use embedded_linux.Common.{
  ◌+◌, ◌<◌, ◌≡◌, ◌%◌, ◌≤◌, refl, true, false, some, [], ◌∷◌, ◌++◌, arith, tail, replicate,
}
use mathlib.Core.Option
use embedded_linux.Circular.{
  Entry, Buffer, init, store, add_entry, remove_entry, total_entries, find_entry,
}
use embedded_linux.Circular.Invariant.{IsValid, IsValidPtr, operations-IsValid, total_entries_lem}
use embedded_linux.Circular.Refine.{contents, contents-store}
use embedded_linux.Circular.Find.{locate, to_slot, find_entry-locate}

abbrev entry_one : Entry
entry_one = record { buffptr = some 1; size = 5 }

abbrev entry_two : Entry
entry_two = record { buffptr = some 2; size = 3 }

-- Full: both offsets at 9, so that they wrap round.
abbrev full_buffer : Buffer
full_buffer = record {
  entry = replicate 9 entry_one ++ (entry_two ∷ []);
  in_offs = 9;
  out_offs = 9;
  full = true;
}

full_buffer-IsValid : IsValid full_buffer
full_buffer-IsValid = record {
  slots = refl;
  in_range = omega arith;
  out_range = omega arith;
  full_meets = λ _. refl;
}

operations-IsValid_example :
    IsValidPtr (init (some full_buffer))
    × IsValidPtr (add_entry (some full_buffer) (some entry_two))
    × IsValidPtr (remove_entry (some full_buffer))
operations-IsValid_example =
    operations-IsValid (some full_buffer) (some entry_two) full_buffer-IsValid

total_entries_lem_example :
    (total_entries full_buffer ≤ 10)
    × ((9 + total_entries full_buffer) % 10 ≡ 9)
    × ((true ≡ true → total_entries full_buffer ≡ 10)
        × (true ≡ false → total_entries full_buffer < 10))
total_entries_lem_example = total_entries_lem {b = full_buffer} full_buffer-IsValid

contents-store_example :
    contents (store full_buffer entry_two) ≡ tail (contents full_buffer) ++ (entry_two ∷ [])
contents-store_example = contents-store {b = full_buffer} entry_two full_buffer-IsValid

-- The byte at 10: the third of the third entry, which is in slot 1.
find_entry-locate_example :
    find_entry (some full_buffer) 10 true
    ≡ Option.map (to_slot 9) (locate (contents full_buffer) 10)
unfolding total_entries
find_entry-locate_example =
    find_entry-locate {b = full_buffer} 10 full_buffer-IsValid (omega arith) (omega arith)

find_entry_at_ten : find_entry (some full_buffer) 10 true ≡ some (1, 2)
unfolding find_entry total_entries
find_entry_at_ten = refl
