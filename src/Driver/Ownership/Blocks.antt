-- ===== src/Driver/Ownership/Blocks.antt =====
-- The temporary block of `aesd_write` (char-driver/src/aesd-char-fileops.c): it is allocated,
-- filled and freed, and the device does not notice.
use embedded_linux.Common.{
  ℕ, ◌+◌, ◌≤◌, ◌≡◌, ◌≢◌, Bool, false, Option, none, some, List, arith, length,
}
use embedded_linux.Circular.{total_entries}
use embedded_linux.Memory.{Heap, Allocator, bytes_at, allocated, poke, kfree}
use embedded_linux.Driver.{Sys, on_heap}
use embedded_linux.Driver.Ownership.{hits, count_slots, live, IsOwned, log}
use embedded_linux.Driver.Ownership.Frame.{
  IsBackedPtr-frame, bytes_of-frame, IsBacked-frame, entry_bytes-frame, hits_self,
}

pub live-le : (h : Heap) (p : ℕ) → live h p ≤ 1
live-le h p = ground arith

-- The temporary block is live, and the device does not point to it.
pub held :
    (s : Sys) (tmp : ℕ)
    → IsOwned (some tmp) s
    → (live s.heap tmp ≡ 1) × (hits tmp s.dev.write_buf + count_slots tmp s.dev.buffer.entry ≡ 0)
held s tmp o = omega (arith, o.owned tmp, hits_self tmp, live-le s.heap tmp)

-- A change of memory at one address that the device does not point to.
module _ {x : Option ℕ} {s : Sys} (o : IsOwned x s) (h' : Heap) (q : ℕ)
    (same : (p : ℕ) → p ≢ q → h'.block p ≡ s.heap.block p)
    (unseen : hits q s.dev.write_buf + count_slots q s.dev.buffer.entry ≡ 0) where
  pub elsewhere-IsOwned :
      {x' : Option ℕ}
      → h'.fault ≡ false
      → ((p : ℕ)
          → hits p x' + hits p s.dev.write_buf + count_slots p s.dev.buffer.entry ≡ live h' p)
      → IsOwned x' (record s { heap = h' })
  elsewhere-IsOwned sound owned = record {
    ring = o.ring;
    sound = sound;
    owned = owned;
    backed = IsBacked-frame s.heap h' q same s.dev.buffer.entry (omega arith) o.backed;
    pending =
        IsBackedPtr-frame s.heap h' q same s.dev.write_buf s.dev.write_buf_size (omega arith)
          o.pending;
    unused = o.unused;
  }

  pub elsewhere-log : log (record s { heap = h' }) ≡ log s
  elsewhere-log =
      let cs = entry_bytes-frame s.heap h' q same s.dev.buffer.entry (omega arith) in
      let ps = bytes_of-frame s.heap h' q same s.dev.write_buf s.dev.write_buf_size (omega arith) in
      λ i. record {
        commands = cs s.dev.buffer.out_offs (total_entries s.dev.buffer) i;
        pending = ps i;
      }

-- The block that `kmalloc` hands out is held by the operation.
pub allocated-IsOwned :
    (a : Allocator) (s : Sys) (n tmp : ℕ)
    → a.kmalloc s.heap n ≡ some tmp
    → IsOwned none s
    → IsOwned (some tmp) (on_heap (λ h. allocated a h tmp n) s)
      × (log (on_heap (λ h. allocated a h tmp n) s) ≡ log s)
unfolding allocated
allocated-IsOwned a s n tmp e o =
    let fresh = a.kmalloc_fresh s.heap n tmp e in
    let free : live s.heap tmp ≡ 0 = rw (fresh, live) in
    let unseen : hits tmp s.dev.write_buf + count_slots tmp s.dev.buffer.entry ≡ 0 =
      omega (arith, o.owned tmp) in
    let h' : Heap = allocated a s.heap tmp n in
    let same : (p : ℕ) → p ≢ tmp → h'.block p ≡ s.heap.block p = λ p ne. ground arith in
    (
      elsewhere-IsOwned o h' tmp same unseen o.sound (λ p. ground (arith, o.owned p)),
      elsewhere-log o h' tmp same unseen,
    )

-- Filling it changes nothing else.
pub poke-IsOwned :
    (s : Sys) (tmp off : ℕ) (bs : List ℕ)
    → off + length bs ≤ length (bytes_at s.heap tmp)
    → live s.heap tmp ≡ 1
    → IsOwned (some tmp) s
    → IsOwned (some tmp) (on_heap (λ h. poke h tmp off bs) s)
      × (log (on_heap (λ h. poke h tmp off bs) s) ≡ log s)
unfolding poke
poke-IsOwned s tmp off bs fits alive o =
    let unseen : hits tmp s.dev.write_buf + count_slots tmp s.dev.buffer.entry ≡ 0 =
      omega (arith, o.owned tmp, hits_self tmp) in
    let h' : Heap = poke s.heap tmp off bs in
    let same : (p : ℕ) → p ≢ tmp → h'.block p ≡ s.heap.block p = λ p ne. ground arith in
    (
      elsewhere-IsOwned o h' tmp same unseen (ground (arith, o.sound))
          (λ p. ground (arith, o.owned p)),
      elsewhere-log o h' tmp same unseen,
    )

-- Freeing it gives it up.
pub kfree-IsOwned :
    (s : Sys) (tmp : ℕ)
    → IsOwned (some tmp) s
    → IsOwned none (on_heap (λ h. kfree h tmp) s) × (log (on_heap (λ h. kfree h tmp) s) ≡ log s)
unfolding kfree
kfree-IsOwned s tmp o =
    let (alive, unseen) = held s tmp o in
    let h' : Heap = kfree s.heap tmp in
    let same : (p : ℕ) → p ≢ tmp → h'.block p ≡ s.heap.block p = λ p ne. ground arith in
    (
      elsewhere-IsOwned o h' tmp same unseen (ground (arith, o.sound))
          (λ p. ground (arith, o.owned p)),
      elsewhere-log o h' tmp same unseen,
    )

-- The state of the mutex does not matter to the memory.
pub set_locked-IsOwned :
    {tmp : Option ℕ} {s : Sys} (b : Bool)
    → IsOwned tmp s
    → IsOwned tmp (record s { dev = record (s.dev) { locked = b } })
set_locked-IsOwned b o = record {
  ring = o.ring;
  sound = o.sound;
  owned = o.owned;
  backed = o.backed;
  pending = o.pending;
  unused = o.unused;
}
