-- ===== src/Driver/Buffering.antt =====
-- aesd-char-driver/char-driver/src/aesd-char-buffer.c: the temporary write buffer, and the move of
-- a complete command into the circular buffer.
pub mod Install
pub mod Append
pub mod Complete
pub mod Oldest
use embedded_linux.Common.{
  ℕ, ◌+◌, ◌%◌, Bool, true, false, ◌||◌, Option, none, some, List, [], ◌∷◌, ◌==◌, if◌then◌else◌, set,
}
use embedded_linux.Circular.{Entry, null_entry, slot, size_mod, add_entry}
use embedded_linux.Memory.{Allocator, poke, memcpy, kfree, allocated, reallocated}
use embedded_linux.Driver.{Errno, enomem, einval, Dev, Sys}

-- The first branch of `handle_write_buffer`: an existing buffer is grown.
unfoldable pub grow_write_buf : Allocator → Sys → ℕ → ℕ → ℕ → Sys × Option Errno
grow_write_buf a s old src count =
    let size = (s.dev.write_buf_size + count) % size_mod in
    elim (a.krealloc s.heap old ((size + 1) % size_mod)) [
      | none ↦ (s, some enomem)
      | some new ↦ (
        record s {
          heap =
              poke
                (memcpy (reallocated a s.heap old new ((size + 1) % size_mod)) new
                  s.dev.write_buf_size src count)
                new size (0 ∷ []);
          dev = record (s.dev) { write_buf = some new; write_buf_size = size };
        },
        none,
      )
    ]

-- The second branch: there is no buffer yet.
unfoldable pub new_write_buf : Allocator → Sys → ℕ → ℕ → Sys × Option Errno
new_write_buf a s src count = elim (a.kmalloc s.heap ((count + 1) % size_mod)) [
  | none ↦ (record s { dev = record (s.dev) { write_buf = none } }, some enomem)
  | some new ↦ (
    record s {
      heap =
          poke (memcpy (allocated a s.heap new ((count + 1) % size_mod)) new 0 src count) new count
            (0 ∷ []);
      dev = record (s.dev) { write_buf = some new; write_buf_size = count };
    },
    none,
  )
]

-- `aesd_handle_write_buffer(dev, new_data, count)`.
unfoldable pub handle_write_buffer : Allocator → Sys → Option ℕ → ℕ → Sys × Option Errno
handle_write_buffer a s none count = (s, some einval)
handle_write_buffer a s (some src) count = elim (s.dev.write_buf) [
  | some old ↦ grow_write_buf a s old src count
  | none ↦ new_write_buf a s src count
]

-- The oldest entry of a full buffer is freed, and its slot made a null entry.
unfoldable pub free_oldest : Sys → Sys
free_oldest s =
    let b = s.dev.buffer in
    elim ((slot b b.out_offs).buffptr) [
      | none ↦ s
      | some p ↦ record s {
        heap = kfree s.heap p;
        dev = record (s.dev) { buffer = record b { entry = set b.entry b.out_offs null_entry } };
      }
    ]

-- `&dev->buffer` is not NULL, so `add_entry` returns a buffer.
unfoldable pub add_to_device : Dev → Entry → Dev
add_to_device d e = elim (add_entry (some d.buffer) (some e)) [
  | none ↦ d
  | some b ↦ record d { buffer = b }
]

-- `aesd_handle_complete_command(dev)`.
unfoldable pub handle_complete_command : Sys → Sys
unfolding free_oldest add_to_device
handle_complete_command s = elim (s.dev.write_buf) [
  | none ↦ s
  | some p ↦
      let e : Entry = record { buffptr = some p; size = s.dev.write_buf_size } in
      let t = if s.dev.buffer.full then free_oldest s else s in
      record t { dev = add_to_device (record (t.dev) { write_buf = none; write_buf_size = 0 }) e }
]
