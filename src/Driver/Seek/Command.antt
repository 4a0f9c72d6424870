-- ===== src/Driver/Seek/Command.antt =====
-- `aesd_unlocked_ioctl` (aesd-char-driver/char-driver/src/aesd-char-fileops.c): AESDCHAR_IOCSEEKTO
-- moves the position to a byte of one of the commands.
use mathlib.Core.List.{flatten}
use embedded_linux.Common.{
  ℕ, suc, ◌+◌, ◌%◌, ◌≤◌, ◌<◌, ◌≡◌, ◌⊎◌, refl, sym, ap, ap₂, ◌∙◌, true, false, none, List, [], ◌++◌,
  arith, inl, inr, length, take, drop, get_or, ltb, leb, length-map, All-get_or, Bool-cases, ltb→lt,
}
use embedded_linux.Circular.{Entry, Buffer, null_entry, slot, size_mod, total_entries}
use embedded_linux.Circular.Refine.{window, contents, length-window}
use embedded_linux.Circular.Find.{total_size, total_size-take, total_size-take_le}
use embedded_linux.Driver.{done, error, einval, Sys, File, lock, unlock}
use embedded_linux.Driver.Ownership.{IsOwned, log, entry_bytes, IsBacked}
use embedded_linux.Driver.Ownership.Blocks.{set_locked-IsOwned}
use embedded_linux.Driver.Read.Stream.{stream, length-bytes_of, get_or-window}
use embedded_linux.Driver.Read.Refine.{total_size-lt, IsBacked-contents}
use embedded_linux.Driver.Seek.{
  SeekTo, seek_command, skip_commands, unlocked_ioctl, aesdchar_iocseekto,
}
use embedded_linux.Driver.Seek.Sizes.{
  skip_commands_lem, take-window, get_or-map, drop-map, drop-total_size,
}

-- Whether the structure names a byte of a command.
abbrev pub IsTarget : List (List ℕ) → SeekTo → Type 0
IsTarget cs t = (t.write_cmd < length cs) × (t.write_cmd_offset < length (get_or cs t.write_cmd []))

outside :
    (cs : List (List ℕ)) (t : SeekTo)
    → ¬ IsTarget cs t
    → (length cs ≤ t.write_cmd) ⊎ (length (get_or cs t.write_cmd []) ≤ t.write_cmd_offset)
outside cs t h = elim (Bool-cases (ltb t.write_cmd (length cs))) [
  | inl within ↦
      inr (elim (Bool-cases (ltb t.write_cmd_offset (length (get_or cs t.write_cmd [])))) [
        | inl has ↦ absurd (h (ltb→lt _ _ within, ltb→lt _ _ has))
        | inr past ↦ ground arith
      ])
  | inr beyond ↦ inl (ground arith)
]

module _ {s : Sys} (o : IsOwned none s) (f : File) (t : SeekTo) where
  abbrev es : List Entry
  es = contents s.dev.buffer

  abbrev cs : List (List ℕ)
  cs = (log s).commands

  -- The commands and the entries that hold them.
  length-cs : length cs ≡ total_entries s.dev.buffer
  length-cs =
      length-map es (entry_bytes s.heap)
      ∙ length-window s.dev.buffer.entry s.dev.buffer.out_offs (total_entries s.dev.buffer)

  entry_at :
      t.write_cmd < length cs
      → (length (get_or cs t.write_cmd [])
          ≡ (slot s.dev.buffer ((s.dev.buffer.out_offs + t.write_cmd) % 10)).size)
        × (get_or es t.write_cmd null_entry
            ≡ slot s.dev.buffer ((s.dev.buffer.out_offs + t.write_cmd) % 10))
  entry_at h =
      let b : Buffer = s.dev.buffer in
      let x : Entry = slot b ((b.out_offs + t.write_cmd) % 10) in
      let same : get_or es t.write_cmd null_entry ≡ x =
        get_or-window b.entry b.out_offs (total_entries b) t.write_cmd o.ring.out_range
          (omega (arith, h, length-cs)) in
      let backed : IsBacked s.heap x =
        All-get_or (IsBacked s.heap) b.entry ((b.out_offs + t.write_cmd) % 10) null_entry refl
          o.backed in
      (
        ap length (get_or-map s.heap es t.write_cmd ∙ ap (entry_bytes s.heap) same)
            ∙ length-bytes_of s.heap x.buffptr x.size backed,
        same,
      )

  -- The loop of the ioctl adds up the sizes of the entries before the target.
  skipped :
      t.write_cmd ≤ total_entries s.dev.buffer
      → skip_commands s.dev.buffer.entry t.write_cmd s.dev.buffer.out_offs 0
        ≡ (0 + total_size (take t.write_cmd es), (s.dev.buffer.out_offs + t.write_cmd) % 10)
  skipped h =
      let b : Buffer = s.dev.buffer in
      let front = take-window b.entry b.out_offs t.write_cmd (total_entries b) h in
      let fits : 0 + total_size (window b.entry b.out_offs t.write_cmd) < size_mod =
        omega (arith, total_size-lt o, total_size-take_le es t.write_cmd, ap total_size front) in
      skip_commands_lem b.entry t.write_cmd b.out_offs 0 o.ring.out_range fits
      ∙ ap (λ l. (0 + total_size l, (b.out_offs + t.write_cmd) % 10)) (sym front)

  -- The position that the ioctl sets for a byte of a command.
  abbrev pub position : ℕ
  position = total_size (take t.write_cmd es) + t.write_cmd_offset

  found : IsTarget cs t → seek_command s f t ≡ (unlock s, record f { f_pos = position }, done 0)
  unfolding seek_command
  found (hk, ho) =
      let (size, same) = entry_at hk in
      let in_ring : t.write_cmd < total_entries s.dev.buffer = omega (arith, hk, length-cs) in
      let loop = skipped (omega (arith, in_ring)) in
      let below : position < size_mod = omega (
        arith,
        total_size-take es t.write_cmd (omega (arith, hk, length-map es (entry_bytes s.heap))),
        total_size-lt o,
        ap (λ (y : Entry). y.size) same,
        size,
        ho,
      ) in
      ground
        (arith, ap (λ (r : ℕ × ℕ). r.0) loop, ap (λ (r : ℕ × ℕ). r.1) loop, size, in_ring, below)

  refused :
      (length cs ≤ t.write_cmd) ⊎ (length (get_or cs t.write_cmd []) ≤ t.write_cmd_offset)
      → seek_command s f t ≡ (unlock s, f, error einval)
  unfolding seek_command
  refused h = elim (Bool-cases (leb (total_entries s.dev.buffer) t.write_cmd)) [
    | inl beyond ↦ rw (beyond, seek_command)
    | inr inside ↦
        let in_ring : t.write_cmd < total_entries s.dev.buffer = ground arith in
        let (size, same) = entry_at (omega (arith, in_ring, length-cs)) in
        let loop = skipped (omega (arith, in_ring)) in
        ground (arith, ap (λ (r : ℕ × ℕ). r.1) loop, size, in_ring, length-cs)
  ]

  reaches :
      IsTarget cs t
      → drop position (stream (log s))
        ≡ drop t.write_cmd_offset (get_or cs t.write_cmd []) ++ flatten (drop (suc t.write_cmd) cs)
  reaches (hk, ho) =
      let (size, same) = entry_at hk in
      drop-total_size s.heap es t.write_cmd t.write_cmd_offset (IsBacked-contents o)
        (omega (arith, hk, length-map es (entry_bytes s.heap)))
        (omega (arith, ho, size, ap (λ (y : Entry). y.size) same))
      ∙ ap₂ (λ l r. drop t.write_cmd_offset l ++ flatten r) (sym (get_or-map s.heap es t.write_cmd))
          (sym (drop-map s.heap es (suc t.write_cmd)))

accepted :
    (s : Sys) (f : File) (t : SeekTo)
    → f.private_data ≡ true
    → unlocked_ioctl s f aesdchar_iocseekto t false false ≡ seek_command (lock s) f t
unfolding unlocked_ioctl
accepted s f t opened = ground (arith, opened)

-- On a device whose memory is in order, the ioctl AESDCHAR_IOCSEEKTO through an open file, its
-- argument readable and the wait not interrupted, for a command that the device holds and a byte
-- that the command has, returns 0 and moves the position to that byte: what the stream holds from
-- there on is the rest of the command, then the later commands. The device is as before, its mutex
-- free.
pub unlocked_ioctl_lem :
    {s : Sys} (f : File) (t : SeekTo)
    → IsOwned none s
    → f.private_data ≡ true
    → IsTarget (log s).commands t
    → (p : ℕ) × (unlocked_ioctl s f aesdchar_iocseekto t false false
        ≡ (unlock s, record f { f_pos = p }, done 0))
      × (drop p (stream (log s))
          ≡ drop t.write_cmd_offset (get_or (log s).commands t.write_cmd [])
            ++ flatten (drop (suc t.write_cmd) (log s).commands))
unfolding unlocked_ioctl
unlocked_ioctl_lem {s} f t o opened h =
    let o' = set_locked-IsOwned true o in
    (position o' f t, accepted s f t opened ∙ found o' f t h, reaches o' f t h)

-- On a device whose memory is in order, the ioctl AESDCHAR_IOCSEEKTO through an open file, its
-- argument readable and the wait not interrupted, for a command that the device does not hold or a
-- byte that the command does not have, returns EINVAL and leaves the position and the device as
-- they were, the mutex free.
pub unlocked_ioctl_refuses :
    {s : Sys} (f : File) (t : SeekTo)
    → IsOwned none s
    → f.private_data ≡ true
    → ¬ IsTarget (log s).commands t
    → unlocked_ioctl s f aesdchar_iocseekto t false false ≡ (unlock s, f, error einval)
unfolding unlocked_ioctl
unlocked_ioctl_refuses {s} f t o opened h =
    let o' = set_locked-IsOwned true o in
    accepted s f t opened ∙ refused o' f t (outside (log s).commands t h)
