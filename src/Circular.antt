-- ===== src/Circular.antt =====
-- The circular buffer of aesd-char-driver/circular-buffer: the two structures of
-- include/aesd-circular-buffer.h and the four functions of src/. A pointer argument that the code
-- tests against NULL is an `Option`; a function that updates `*buffer` returns the new buffer.
pub mod Invariant
pub mod Refine
pub mod Find
mod Tests
use embedded_linux.Common.{
  ℕ, zero, suc, ◌+◌, ◌-◌, ◌%◌, ◌^◌, Bool, true, false, not, ◌&&◌, Option, none, some, List, ltb,
  leb, ◌==◌, if◌then◌else◌, is_some, get_or, set, replicate,
}

-- AESDCHAR_MAX_WRITE_OPERATIONS_SUPPORTED
abbrev pub max_write_operations : ℕ
max_write_operations = 10

-- `size_t` arithmetic is modulo 2^64.
abbrev pub size_mod : ℕ
size_mod = 2 ^ 64

-- `struct aesd_buffer_entry`. A `const char *` is an address, or NULL.
pub record Entry : Type 0 where
  pub buffptr : Option ℕ
  pub size : ℕ

-- `struct aesd_circular_buffer`. The array has ten slots, a fact of `IsValid`.
pub record Buffer : Type 0 where
  pub entry : List Entry
  pub in_offs : ℕ
  pub out_offs : ℕ
  pub full : Bool

-- `{0}`: an entry of zero bytes.
abbrev pub null_entry : Entry
null_entry = record { buffptr = none; size = 0 }

-- `buffer->entry[i]`. An index past the array reads a null entry; `IsValid` rules it out.
abbrev pub slot : Buffer → ℕ → Entry
slot b i = get_or b.entry i null_entry

-- `memset(buffer, 0, sizeof *buffer)`.
abbrev pub zeroed : Buffer
zeroed = record { entry = replicate 10 null_entry; in_offs = 0; out_offs = 0; full = false }

unfoldable pub init : Option Buffer → Option Buffer
init none = none
init (some b) = some zeroed

-- What `add_entry` does once its arguments are found good.
unfoldable pub store : Buffer → Entry → Buffer
store b e =
    let out = if b.full then (b.out_offs + 1) % max_write_operations else b.out_offs in
    let inn = (b.in_offs + 1) % max_write_operations in
    record { entry = set b.entry b.in_offs e; in_offs = inn; out_offs = out; full = inn == out }

unfoldable pub add_entry : Option Buffer → Option Entry → Option Buffer
unfolding store
add_entry none e = none
add_entry (some b) none = some b
add_entry (some b) (some e) = if not (is_some e.buffptr) then some b else some (store b e)

-- What `remove_entry` does once the buffer is found not to be empty.
unfoldable pub clear_oldest : Buffer → Buffer
clear_oldest b = record b {
  entry = set b.entry b.out_offs null_entry;
  out_offs = (b.out_offs + 1) % max_write_operations;
  full = false;
}

unfoldable pub remove_entry : Option Buffer → Option Buffer
unfolding clear_oldest
remove_entry none = none
remove_entry (some b) =
    if not b.full && b.in_offs == b.out_offs then some b else some (clear_oldest b)

-- `total_entries`, a `uint8_t`, as `find_entry`, `llseek` and `ioctl` compute it. In the last
-- branch `10 - out_offs + in_offs` is a C `int` that is cut to eight bits.
unfoldable pub total_entries : Buffer → ℕ
total_entries b =
    if b.full
    then max_write_operations
    else if leb b.out_offs b.in_offs
    then b.in_offs - b.out_offs
    else (max_write_operations + 256 + b.in_offs - b.out_offs) % 256

-- The search loop, by the rounds left (`total_entries - entries_checked`, at most 255). The result
-- is the index of the slot whose address is returned, and `*entry_offset_byte_rtn`.
pub find_loop : List Entry → ℕ → ℕ → ℕ → ℕ → Option (ℕ × ℕ)
find_loop entry char_offset zero idx pos = none
find_loop entry char_offset (suc rounds) idx pos =
    let next = (pos + (get_or entry idx null_entry).size) % size_mod in
    let rest = find_loop entry char_offset rounds ((idx + 1) % max_write_operations) next in
    if ltb char_offset next then some (idx, (char_offset + size_mod - pos) % size_mod) else rest

-- `aesd_circular_buffer_find_entry_offset_for_fpos`; the last argument says whether
-- `entry_offset_byte_rtn` is a pointer other than NULL.
unfoldable pub find_entry : Option Buffer → ℕ → Bool → Option (ℕ × ℕ)
unfolding find_loop total_entries
find_entry none char_offset out_given = none
find_entry (some b) char_offset false = none
find_entry (some b) char_offset true = find_loop b.entry char_offset (total_entries b) b.out_offs 0
