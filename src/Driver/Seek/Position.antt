-- ===== src/Driver/Seek/Position.antt =====
-- `aesd_llseek` (aesd-char-driver/char-driver/src/aesd-char-fileops.c) against seeking with true
-- integers: `d` bytes forward or back from the start, the current position or the end.
use embedded_linux.Common.{
  ℕ, ◌+◌, ◌-◌, ◌^◌, ◌≤◌, ◌<◌, ◌≡◌, sym, ◌∙◌, true, false, Option, none, some, arith, length, leb,
  if◌then◌else◌,
}
use embedded_linux.Circular.{total_entries}
use embedded_linux.Circular.Refine.{contents}
use embedded_linux.Circular.Invariant.{total_entries_lem}
use embedded_linux.Driver.{Ret, done, error, einval, Sys, File, lock, unlock}
use embedded_linux.Driver.Ownership.{IsOwned, log}
use embedded_linux.Driver.Read.Stream.{stream, length-stream, total_size-window}
use embedded_linux.Driver.Read.Refine.{IsBacked-contents}
use embedded_linux.Driver.Seek.{total_buffer_size, seek_target, seek_to, llseek}
use embedded_linux.Driver.Seek.Sizes.{total_buffer_size_lem}

pub data Whence : Type 0 where
  seek_set seek_cur seek_end : Whence

abbrev pub code : Whence → ℕ
code seek_set = 0
code seek_cur = 1
code seek_end = 2

-- Where the distance is counted from, in a stream of `total` bytes.
abbrev pub base : ℕ → ℕ → Whence → ℕ
base f_pos total seek_set = 0
base f_pos total seek_cur = f_pos
base f_pos total seek_end = total

-- A seek moves the position to a target inside the stream or at its end, and refuses any other.
abbrev pub moved_to : Sys → File → ℕ → Option ℕ → Sys × File × Ret
moved_to s f total none = (unlock s, f, error einval)
moved_to s f total (some p) =
    if leb p total then (unlock s, record f { f_pos = p }, done p) else (unlock s, f, error einval)

-- A distance forward is its own bit pattern, one back is the two's complement.
pub data Distance : Type 0 where
  forward : ℕ → Distance
  back : ℕ → Distance

abbrev pub pattern_of : Distance → ℕ
pattern_of (forward d) = d
pattern_of (back d) = 2 ^ 64 - d

abbrev pub InRange : Distance → Type 0
InRange (forward d) = d < 2 ^ 63
InRange (back d) = (0 < d) × (d ≤ 2 ^ 63)

abbrev pub target : ℕ → Distance → Option ℕ
target b (forward d) = some (b + d)
target b (back d) = if leb d b then some (b - d) else none

pub total_lem :
    {tmp : Option ℕ} {s : Sys}
    → IsOwned tmp s
    → (total_buffer_size s.dev.buffer ≡ length (stream (log s)))
      × (length (stream (log s)) < 2 ^ 63)
total_lem {tmp} {s} o =
    let len = length-stream s.heap (contents s.dev.buffer) (IsBacked-contents o) in
    (
      total_buffer_size_lem o ∙ sym len,
      omega (
        arith,
        len,
        total_size-window s.heap s.dev.buffer.entry s.dev.buffer.out_offs
            (total_entries s.dev.buffer) o.backed,
        (total_entries_lem o.ring).0,
      ),
    )

seek_to_lem :
    (s : Sys) (f : File) (total : ℕ) (w : Whence) (d : Distance)
    → total < 2 ^ 63
    → f.f_pos < 2 ^ 63
    → InRange d
    → seek_to (lock s) f total (seek_target f.f_pos total (pattern_of d) (code w))
      ≡ moved_to s f total (target (base f.f_pos total w) d)
unfolding seek_to seek_target
seek_to_lem s f total seek_set (forward d) t p r = ground arith
seek_to_lem s f total seek_cur (forward d) t p r = ground arith
seek_to_lem s f total seek_end (forward d) t p r = ground arith
seek_to_lem s f total seek_set (back d) t p r = ground arith
seek_to_lem s f total seek_cur (back d) t p r = ground arith
seek_to_lem s f total seek_end (back d) t p r = ground arith

-- On a device whose memory is in order, `llseek` through an open file, not interrupted, at a
-- position below 2^63 and by any distance that a `loff_t` can hold, goes exactly to that distance
-- from the start, the current position or the end of the stream, if this lies between 0 and the
-- length of the stream; else it returns EINVAL and the position stays. The device is as before,
-- its mutex free.
pub llseek_lem :
    {s : Sys} (f : File) (w : Whence) (d : Distance)
    → IsOwned none s
    → f.private_data ≡ true
    → f.f_pos < 2 ^ 63
    → InRange d
    → let total = length (stream (log s)) in
      llseek s f (pattern_of d) (code w) false
      ≡ moved_to s f total (target (base f.f_pos total w) d)
unfolding llseek
llseek_lem {s} f w d o opened p r =
    let (size, small) = total_lem o in
    simp (opened, size) (seek_to_lem s f (length (stream (log s))) w d small p r)

-- `llseek` through an open file, not interrupted, returns EINVAL for every `whence` above 2, and
-- leaves the position and the device as they were, the mutex free.
pub llseek_bad_whence :
    (s : Sys) (f : File) (offset whence : ℕ)
    → f.private_data ≡ true
    → 2 < whence
    → llseek s f offset whence false ≡ (unlock s, f, error einval)
unfolding llseek
llseek_bad_whence s f offset whence opened h = ground arith
