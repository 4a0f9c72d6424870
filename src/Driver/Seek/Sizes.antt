-- ===== src/Driver/Seek/Sizes.antt =====
-- The two loops of aesd-char-driver/char-driver/src/aesd-char-fileops.c that add up sizes, against
-- the entries of the buffer and the stream of their bytes.
use mathlib.Core.List.{flatten}
use embedded_linux.Common.{
  ℕ, zero, suc, ◌+◌, ◌%◌, ◌≤◌, ◌<◌, ◌≡◌, refl, ap, ◌∙◌, Option, List, [], ◌∷◌, ◌++◌, map, arith,
  length, take, drop, get_or, All, drop-append_left, drop-append_right,
}
use embedded_linux.Circular.{Entry, Buffer, null_entry, size_mod, total_entries}
use embedded_linux.Circular.Refine.{window, contents}
use embedded_linux.Circular.Find.{total_size}
use embedded_linux.Memory.{Heap}
use embedded_linux.Driver.{Sys}
use embedded_linux.Driver.Ownership.{IsOwned, IsBacked, entry_bytes}
use embedded_linux.Driver.Read.Stream.{length-bytes_of}
use embedded_linux.Driver.Read.Refine.{total_size-lt}
use embedded_linux.Driver.Seek.{sum_sizes, total_buffer_size, skip_commands}

sum_sizes_lem :
    (es : List Entry) (n idx total : ℕ)
    → total + total_size (window es idx n) < size_mod
    → sum_sizes es n idx total ≡ total + total_size (window es idx n)
unfolding sum_sizes
sum_sizes_lem es zero idx total h = omega arith
sum_sizes_lem es (suc n) idx total h =
    let s : ℕ = (get_or es idx null_entry).size in
    let exact : (total + s) % size_mod ≡ total + s = omega arith in
    ap (sum_sizes es n ((idx + 1) % 10)) exact
    ∙ sum_sizes_lem es n ((idx + 1) % 10) (total + s) (omega arith)
    ∙ omega arith

pub skip_commands_lem :
    (es : List Entry) (n idx pos : ℕ)
    → idx < 10
    → pos + total_size (window es idx n) < size_mod
    → skip_commands es n idx pos ≡ (pos + total_size (window es idx n), (idx + n) % 10)
unfolding skip_commands
skip_commands_lem es zero idx pos i h = λ d. (p d, q d)
  where
    p : pos ≡ pos + 0
    p = omega arith

    q : idx ≡ (idx + 0) % 10
    q = omega arith
skip_commands_lem es (suc n) idx pos i h =
    let s : ℕ = (get_or es idx null_entry).size in
    let exact : (pos + s) % size_mod ≡ pos + s = omega arith in
    let sum : pos + s + total_size (window es ((idx + 1) % 10) n)
        ≡ pos + total_size (window es idx (suc n)) =
      omega arith in
    let end : ((idx + 1) % 10 + n) % 10 ≡ (idx + suc n) % 10 = omega arith in
    ap (skip_commands es n ((idx + 1) % 10)) exact
    ∙ skip_commands_lem es n ((idx + 1) % 10) (pos + s) (omega arith) (omega arith)
    ∙ (λ d. (sum d, end d))

-- `aesd_get_total_buffer_size` adds up the entries' sizes, and no addition wraps.
pub total_buffer_size_lem :
    {tmp : Option ℕ} {s : Sys}
    → IsOwned tmp s
    → total_buffer_size s.dev.buffer ≡ total_size (contents s.dev.buffer)
unfolding total_buffer_size
total_buffer_size_lem {tmp} {s} o =
    let b : Buffer = s.dev.buffer in
    sum_sizes_lem b.entry (total_entries b) b.out_offs 0 (omega (arith, total_size-lt o))
    ∙ omega arith

pub take-window : (es : List Entry) (i k n : ℕ) → k ≤ n → take k (window es i n) ≡ window es i k
take-window es i zero n h = refl
take-window es i (suc k) zero h = absurd (omega arith)
take-window es i (suc k) (suc n) h =
    ap (λ l. get_or es i null_entry ∷ l) (take-window es ((i + 1) % 10) k n (omega arith))

pub get_or-map :
    (h : Heap) (es : List Entry) (k : ℕ)
    → get_or (map (entry_bytes h) es) k [] ≡ entry_bytes h (get_or es k null_entry)
get_or-map h [] k = refl
get_or-map h (x ∷ es) zero = refl
get_or-map h (x ∷ es) (suc k) = get_or-map h es k

pub drop-map :
    (h : Heap) (es : List Entry) (k : ℕ)
    → drop k (map (entry_bytes h) es) ≡ map (entry_bytes h) (drop k es)
drop-map h es zero = refl
drop-map h [] (suc k) = refl
drop-map h (x ∷ es) (suc k) = drop-map h es k

-- Behind the first `k` entries and `off` bytes of the next stands the rest of that entry.
pub drop-total_size :
    (h : Heap) (es : List Entry) (k off : ℕ)
    → All (IsBacked h) es
    → k < length es
    → off ≤ (get_or es k null_entry).size
    → drop (total_size (take k es) + off) (flatten (map (entry_bytes h) es))
      ≡ drop off (entry_bytes h (get_or es k null_entry))
        ++ flatten (map (entry_bytes h) (drop (suc k) es))
unfolding flatten
drop-total_size h [] k off b hk ho = absurd (omega arith)
drop-total_size h (x ∷ es) zero off b hk ho =
    let rest : List ℕ = flatten (map (entry_bytes h) es) in
    ap (λ j. drop j (entry_bytes h x ++ rest)) {y = off} (omega arith)
    ∙ drop-append_left off (entry_bytes h x) rest
        (omega (arith, length-bytes_of h x.buffptr x.size b.0))
drop-total_size h (x ∷ es) (suc k) off b hk ho =
    let rest : List ℕ = flatten (map (entry_bytes h) es) in
    let len = length-bytes_of h x.buffptr x.size b.0 in
    let before : ℕ = total_size (take k es) in
    drop-append_right (x.size + before + off) (entry_bytes h x) rest (omega (arith, len))
    ∙ ap (λ j. drop j rest) {y = before + off} (omega (arith, len))
    ∙ drop-total_size h es k off b.1 (omega arith) ho
