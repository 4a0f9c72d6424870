-- ===== src/Driver/Buffering/Install.antt =====
-- Giving the device a new write buffer (aesd-char-driver/char-driver/src/aesd-char-buffer.c): what
-- it leaves of memory and of its ownership.
use embedded_linux.Common.{
  ℕ, ◌+◌, ◌^◌, ◌<◌, ◌≡◌, ◌≢◌, refl, ◌∙◌, Option, none, some, List, [], ◌∷◌, ◌++◌, arith, length,
  length-append, take, take-length-append,
}
use embedded_linux.Circular.{total_entries}
use embedded_linux.Memory.{Heap, Allocator, bytes_at, allocated, reallocated, update}
use embedded_linux.Memory.Append.{update_self}
use embedded_linux.Driver.{Sys}
use embedded_linux.Driver.Ownership.{hits, count_slots, live, IsOwned, log, commands_of}
use embedded_linux.Driver.Ownership.Frame.{IsBacked-frame, entry_bytes-frame, hits_self}
use embedded_linux.Driver.Ownership.Blocks.{live-le}

-- The device with `write_buf` moved to `p` with `n` bytes.
abbrev pub with_write_buf : Sys → Heap → Option ℕ → ℕ → Sys
with_write_buf s h' p n = record s {
  heap = h';
  dev = record (s.dev) { write_buf = p; write_buf_size = n };
}

-- A fresh block that holds `text` and a zero byte becomes the write buffer.
pub install :
    {tmp : Option ℕ} {s : Sys} (h' : Heap) (new n : ℕ) (text : List ℕ)
    → n ≡ length text
    → IsOwned tmp s
    → s.dev.write_buf ≡ none
    → s.heap.block new ≡ none
    → n + 1 < 2 ^ 32
    → h'.block new ≡ some (text ++ (0 ∷ []))
    → h'.fault ≡ s.heap.fault
    → ((p : ℕ) → p ≢ new → h'.block p ≡ s.heap.block p)
    → IsOwned tmp (with_write_buf s h' (some new) n)
      × (log (with_write_buf s h' (some new) n)
          ≡ record { commands = commands_of s.heap s.dev.buffer; pending = text })
install {tmp} {s} h' new n text en o empty fresh small here sound same =
    let off : live s.heap new ≡ 0 = rw (fresh, live) in
    let on : live h' new ≡ 1 = rw (here, live) in
    let unseen : count_slots new s.dev.buffer.entry ≡ 0 = omega (arith, o.owned new) in
    let size : length (bytes_at h' new) ≡ n + 1 =
      rw (here, bytes_at) (omega (arith, length-append text (0 ∷ []))) in
    let cs =
      entry_bytes-frame s.heap h' new same s.dev.buffer.entry unseen s.dev.buffer.out_offs
        (total_entries s.dev.buffer) in
    let ps : take n (bytes_at h' new) ≡ text =
      rw (here, bytes_at) (take-length-append n text (0 ∷ []) en) in
    (
      record {
        ring = o.ring;
        sound = sound ∙ o.sound;
        owned = λ p. ground (arith, o.owned p, same p);
        backed = IsBacked-frame s.heap h' new same s.dev.buffer.entry unseen o.backed;
        pending = (size, small);
        unused = o.unused;
      },
      λ i. record { commands = cs i; pending = ps i },
    )

-- The write buffer given up.
pub release :
    {tmp : Option ℕ} {s : Sys} (q : ℕ)
    → IsOwned tmp s
    → s.dev.write_buf ≡ some q
    → let h' : Heap = record (s.heap) { block = update s.heap.block q none } in
      IsOwned tmp (with_write_buf s h' none 0)
      × (commands_of h' s.dev.buffer ≡ commands_of s.heap s.dev.buffer)
release {tmp} {s} q o e =
    let h' : Heap = record (s.heap) { block = update s.heap.block q none } in
    let same : (p : ℕ) → p ≢ q → h'.block p ≡ s.heap.block p = λ p ne. ground arith in
    let at : hits q s.dev.write_buf ≡ 1 = rw e (hits_self q) in
    let unseen : count_slots q s.dev.buffer.entry ≡ 0 =
      omega (arith, o.owned q, live-le s.heap q) in
    (
      record {
        ring = o.ring;
        sound = o.sound;
        owned = λ p. ground (arith, o.owned p, o.owned q, live-le s.heap q);
        backed = IsBacked-frame s.heap h' q same s.dev.buffer.entry unseen o.backed;
        pending = refl;
        unused = o.unused;
      },
      entry_bytes-frame s.heap h' q same s.dev.buffer.entry unseen s.dev.buffer.out_offs
          (total_entries s.dev.buffer),
    )

pub allocated_at :
    (a : Allocator) (h : Heap) (p n : ℕ) → (allocated a h p n).block p ≡ some (a.junk n)
unfolding allocated
allocated_at a h p n = update_self h.block p (some (a.junk n))

pub allocated_fault : (a : Allocator) (h : Heap) (p n : ℕ) → (allocated a h p n).fault ≡ h.fault
unfolding allocated
allocated_fault a h p n = refl

pub allocated_ne :
    (a : Allocator) (h : Heap) (p n q : ℕ) → q ≢ p → (allocated a h p n).block q ≡ h.block q
unfolding allocated
allocated_ne a h p n q ne = ground arith

pub update_ne : (f : ℕ → Option (List ℕ)) (p q : ℕ) → q ≢ p → update f p none q ≡ f q
update_ne f p q ne = ground arith

-- What `krealloc` leaves of memory: the block at its new place, and elsewhere what was there,
-- without the old block.
pub reallocated_at :
    (a : Allocator) (h : Heap) (q p n : ℕ)
    → (reallocated a h q p n).block p ≡ some (take n (bytes_at h q ++ a.junk n))
unfolding reallocated
reallocated_at a h q p n = update_self (update h.block q none) p _

pub reallocated_ne :
    (a : Allocator) (h : Heap) (q p n r : ℕ)
    → r ≢ p
    → (reallocated a h q p n).block r ≡ update h.block q none r
unfolding reallocated
reallocated_ne a h q p n r ne = ground arith

pub reallocated_fault :
    (a : Allocator) (h : Heap) (q p n : ℕ) → live h q ≡ 1 → (reallocated a h q p n).fault ≡ h.fault
unfolding reallocated
reallocated_fault a h q p n on = ground arith

pub reallocated_fresh :
    (a : Allocator) (h : Heap) (q n p : ℕ)
    → a.krealloc h q n ≡ some p
    → update h.block q none p ≡ none
reallocated_fresh a h q n p e = ground (arith, a.krealloc_fresh h q n p e)

pub live_write_buf :
    {tmp : ℕ} {s : Sys} {old : ℕ}
    → IsOwned (some tmp) s
    → s.dev.write_buf ≡ some old
    → (live s.heap old ≡ 1) × (tmp ≢ old)
live_write_buf {tmp} {s} {old} o e =
    let one : hits old s.dev.write_buf ≡ 1 = rw e (hits_self old) in
    (
      omega (arith, o.owned old, live-le s.heap old),
      λ same.
          let two : hits old (some tmp) ≡ 1 = rw same (hits_self old) in
          omega (arith, o.owned old, live-le s.heap old),
    )
