-- ===== src/Driver/Cleanup.antt =====
-- `aesd_cleanup_device` (aesd-char-driver/char-driver/src/aesd-char-device.c).
pub mod Release
use embedded_linux.Common.{ℕ, Bool, Option, none, some, List, [], ◌∷◌}
use embedded_linux.Circular.{Entry, Buffer, null_entry}
use embedded_linux.Memory.{Heap, kfree}
use embedded_linux.Driver.{Dev, Sys}

-- One round of the loop over the slots: an entry with a pointer is freed and cleared.
unfoldable pub free_entry : Heap → Entry → Heap × Entry
free_entry h e = elim (e.buffptr) [ none ↦ (h, e) | some p ↦ (kfree h p, null_entry) ]

-- `AESD_CIRCULAR_BUFFER_FOREACH` over all ten slots.
unfoldable pub free_entries : Heap → List Entry → Heap × List Entry
free_entries h [] = (h, [])
free_entries h (e ∷ es) =
    let (h1, e') = free_entry h e in let (h2, es') = free_entries h1 es in (h2, e' ∷ es')

unfoldable pub free_write_buf : Sys → Sys
free_write_buf s = elim (s.dev.write_buf) [
  | none ↦ s
  | some p ↦ record s {
    heap = kfree s.heap p;
    dev = record (s.dev) { write_buf = none; write_buf_size = 0 };
  }
]

unfoldable pub cleanup_device : Sys → Sys
unfolding free_write_buf free_entries
cleanup_device s =
    let t = free_write_buf s in
    let (h, es) = free_entries t.heap t.dev.buffer.entry in
    record t { heap = h; dev = record (t.dev) { buffer = record (t.dev.buffer) { entry = es } } }
