-- ===== src/Driver/Read/Refine.antt =====
-- `aesd_read` (aesd-char-driver/char-driver/src/aesd-char-fileops.c) returns the stream of the
-- commands, a stretch of one command at a time.
use mathlib.Core.Path.{subst}
use mathlib.Core.List.{flatten}
use mathlib.Core.Option
use embedded_linux.Common.{
  ℕ, suc, ◌+◌, ◌-◌, ◌%◌, ◌≤◌, ◌<◌, ◌≡◌, refl, sym, ap, ap₂, ◌∙◌, true, false, Option, none, some,
  List, [], ◌++◌, map, arith, inl, inr, length, length-take, length-drop, take, drop, Option-cases,
  min, All, All-get_or, get_or, take-append, take-take, drop-take, drop-nil, take-nil,
}
use embedded_linux.Circular.{Entry, Buffer, null_entry, slot, size_mod, find_entry, total_entries}
use embedded_linux.Circular.Invariant.{total_entries_lem}
use embedded_linux.Circular.Refine.{contents, length-window}
use embedded_linux.Circular.Find.{
  total_size, locate, to_slot, find_entry-locate, locate-some, locate-none, total_size-take,
}
use embedded_linux.Memory.{Heap, bytes_at, checked, peek}
use embedded_linux.Memory.Append.{checked_lem}
use embedded_linux.Driver.{done, Sys, File, lock, unlock, on_heap}
use embedded_linux.Driver.Ownership.Blocks.{set_locked-IsOwned}
use embedded_linux.Driver.Ownership.{IsOwned, IsBackedPtr, IsBacked, bytes_of, entry_bytes, log}
use embedded_linux.Driver.Read.{ReadOut, load, copy_out, read_locked, read}
use embedded_linux.Driver.Read.Stream.{
  stream, length-bytes_of, IsBacked-window, get_or-window, total_size-window, length-stream,
  drop-stream, size-lt,
}

-- Reading inside an entry's bytes gives that stretch of them, with no fault.
load_lem :
    (h : Heap) (ptr : Option ℕ) (size off n : ℕ)
    → IsBackedPtr h ptr size
    → off + n ≤ size
    → (load h ptr off n).0 ≡ take n (drop off (bytes_of h ptr size)) × ((load h ptr off n).1 ≡ true)
unfolding load peek
load_lem h none size off n b le = (sym (ap (take n) (drop-nil off) ∙ take-nil n), ground (arith, b))
load_lem h (some p) size off n b le = (
  sym (
      ap (take n) (drop-take off size (bytes_at h p))
      ∙ take-take n (size - off) (drop off (bytes_at h p)) (omega arith)),
  ground (arith, b),
)

-- The entries of the buffer count less than a `size_t` can.
pub total_size-lt :
    {tmp : Option ℕ} {s : Sys} → IsOwned tmp s → total_size (contents s.dev.buffer) < size_mod
total_size-lt {tmp} {s} o =
    let b : Buffer = s.dev.buffer in
    omega (
      arith,
      total_size-window s.heap b.entry b.out_offs (total_entries b) o.backed,
      (total_entries_lem o.ring).0,
    )

pub IsBacked-contents :
    {tmp : Option ℕ} {s : Sys} → IsOwned tmp s → All (IsBacked s.heap) (contents s.dev.buffer)
IsBacked-contents {tmp} {s} o =
    IsBacked-window s.heap s.dev.buffer.entry s.dev.buffer.out_offs (total_entries s.dev.buffer)
      o.backed

-- What a call of `read` at `pos` for `count` bytes gives, with no signal and no failed copy.
pub record IsRead (s : Sys) (count pos : ℕ) (r : ReadOut) : Type 0 where
  pub sys : r.sys ≡ unlock s
  pub ret : r.ret ≡ done (length r.out)
  pub moved : r.pos ≡ some (pos + length r.out)
  pub bytes : r.out ≡ take (length r.out) (drop pos (stream (log s)))
  pub at_most : length r.out ≤ count
  pub progress : 0 < count → pos < length (stream (log s)) → 0 < length r.out

module _ {tmp : Option ℕ} {s : Sys} (o : IsOwned tmp s) (count pos : ℕ)
    (range : pos < size_mod) where
  find_lem :
      find_entry (some s.dev.buffer) pos true
      ≡ Option.map (to_slot s.dev.buffer.out_offs) (locate (contents s.dev.buffer) pos)
  find_lem = find_entry-locate pos o.ring (total_size-lt o) range

  IsRead-end :
      locate (contents s.dev.buffer) pos ≡ none → IsRead s count pos (read_locked s count pos 0)
  unfolding read_locked
  IsRead-end e =
      let run : read_locked s count pos 0
          ≡ record { sys = unlock s; ret = done 0; pos = some pos; out = [] } =
        rw (find_lem ∙ ap (Option.map (to_slot s.dev.buffer.out_offs)) e, read_locked) in
      let past = (locate-none (contents s.dev.buffer) pos).0 e in
      let len = length-stream s.heap (contents s.dev.buffer) (IsBacked-contents o) in
      subst (IsRead s count pos) (sym run) (record {
        sys = refl;
        ret = refl;
        moved = ap some (omega arith);
        bytes = refl;
        at_most = omega arith;
        progress = λ _ h. absurd (omega (arith, past, len));
      })

  IsRead-entry :
      (k r : ℕ)
      → locate (contents s.dev.buffer) pos ≡ some (k, r)
      → IsRead s count pos (read_locked s count pos 0)
  unfolding read_locked copy_out
  IsRead-entry k r e =
      let b : Buffer = s.dev.buffer in
      let es : List Entry = contents b in
      let idx : ℕ = (b.out_offs + k) % 10 in
      let (inside, within, sum) = locate-some es pos e in
      let same : get_or es k null_entry ≡ slot b idx =
        get_or-window b.entry b.out_offs (total_entries b) k o.ring.out_range
          (omega (arith, inside, length-window b.entry b.out_offs (total_entries b))) in
      let x : Entry = slot b idx in
      let n : ℕ = min count ((x.size + size_mod - r) % size_mod) in
      let backed : IsBacked s.heap x =
        All-get_or (IsBacked s.heap) b.entry idx null_entry refl o.backed in
      let within' : r < x.size = subst (λ (y : Entry). r < y.size) same within in
      let short : total_size (take k es) + x.size ≤ total_size es =
        subst (λ (y : Entry). total_size (take k es) + y.size ≤ total_size es) same
          (total_size-take es k inside) in
      let small = size-lt s.heap x.buffptr x.size backed in
      let exact : (x.size + size_mod - r) % size_mod ≡ x.size - r = omega arith in
      let (text, ok) = load_lem s.heap x.buffptr x.size r n backed (omega (arith, exact)) in
      let len : length (load s.heap x.buffptr r n).0 ≡ n =
        ap length text
        ∙ omega (
          arith,
          exact,
          length-take n (drop r (entry_bytes s.heap x)),
          length-drop r (entry_bytes s.heap x),
          length-bytes_of s.heap x.buffptr x.size backed,
        ) in
      let out : List ℕ = (load s.heap x.buffptr r n).0 in
      let run : read_locked s count pos 0 ≡ record {
        sys = unlock (on_heap (checked (load s.heap x.buffptr r n).1) s);
        ret = done n;
        pos = some ((pos + n) % size_mod);
        out = out;
      } =
        rw (find_lem ∙ ap (Option.map (to_slot b.out_offs)) e, read_locked) in
      subst (IsRead s count pos) (sym run) (record {
        sys = ap (λ h. unlock (on_heap (λ _. h) s)) (checked_lem _ s.heap ok);
        ret = ap done (sym len);
        moved = ap some (omega (arith, len, exact, sum, total_size-lt o, short));
        bytes =
            text
            ∙ sym (
                ap₂ take len (
                  drop-stream s.heap es pos (IsBacked-contents o) e
                  ∙ ap
                      (λ (y : Entry).
                        drop r (entry_bytes s.heap y)
                        ++ flatten (map (entry_bytes s.heap) (drop (suc k) es)))
                      same)
                ∙ take-append n (drop r (entry_bytes s.heap x))
                    (flatten (map (entry_bytes s.heap) (drop (suc k) es)))
                    (omega (
                      arith,
                      exact,
                      length-drop r (entry_bytes s.heap x),
                      length-bytes_of s.heap x.buffptr x.size backed,
                    )));
        at_most = omega (arith, len);
        progress = λ c h. omega (arith, len, exact);
      })

-- Under the mutex, with the copy to user space complete.
pub read_locked-IsRead :
    {tmp : Option ℕ} {s : Sys} (count pos : ℕ)
    → IsOwned tmp s
    → pos < size_mod
    → IsRead s count pos (read_locked s count pos 0)
read_locked-IsRead {tmp} {s} count pos o range =
    elim (Option-cases (locate (contents s.dev.buffer) pos)) [
      | inl e ↦ IsRead-end o count pos range e
      | inr ((k, r), e) ↦ IsRead-entry o count pos range k r e
    ]

-- On a device whose memory is in order, a read of `count` bytes through an open file at a position
-- below 2^64, not interrupted and with all bytes copied, gives bytes of the stream from the
-- position on, at most `count`: it returns how many, moves the position past them, gives at least
-- one if any is asked for and the stream has one there, and leaves the device as it was, with the
-- mutex free.
pub read-IsRead :
    {s : Sys} (f : File) (count pos : ℕ)
    → IsOwned none s
    → f.private_data ≡ true
    → pos < size_mod
    → IsRead s count pos (read s f true count (some pos) false 0)
unfolding read
read-IsRead {s} f count pos o opened range =
    let l = read_locked-IsRead {s = lock s} count pos (set_locked-IsOwned true o) range in
    let run : read s f true count (some pos) false 0 ≡ read_locked (lock s) count pos 0 =
      rw (opened, read) in
    subst (IsRead s count pos) (sym run) (record {
      sys = l.sys;
      ret = l.ret;
      moved = l.moved;
      bytes = l.bytes;
      at_most = l.at_most;
      progress = l.progress;
    })
