-- ===== src/Driver/Seek.antt =====
-- `aesd_get_total_buffer_size`, `aesd_llseek` and `aesd_unlocked_ioctl`
-- (aesd-char-driver/char-driver/src/aesd-char-fileops.c; aesd-char-driver/aesd_ioctl.h).
-- A `loff_t` is the bit pattern of a signed 64-bit number: it is negative from 2^63 on.
pub mod Sizes
pub mod Position
pub mod Command
use embedded_linux.Common.{
  ℕ, zero, suc, ◌+◌, ◌*◌, ◌%◌, ◌^◌, Bool, true, false, not, ◌||◌, Option, none, some, List, ltb,
  leb, ◌==◌, if◌then◌else◌, get_or,
}
use embedded_linux.Circular.{
  Entry, Buffer, null_entry, slot, size_mod, max_write_operations, total_entries,
}
use embedded_linux.Driver.{
  Ret, done, error, einval, efault, erestartsys, enotty, Sys, File, lock, unlock,
}

-- The loop of `aesd_get_total_buffer_size`, by the rounds left.
unfoldable pub sum_sizes : List Entry → ℕ → ℕ → ℕ → ℕ
sum_sizes entry zero idx total = total
sum_sizes entry (suc rounds) idx total =
    sum_sizes entry rounds ((idx + 1) % max_write_operations)
      ((total + (get_or entry idx null_entry).size) % size_mod)

unfoldable pub total_buffer_size : Buffer → ℕ
unfolding sum_sizes
total_buffer_size b = sum_sizes b.entry (total_entries b) b.out_offs 0

-- SEEK_SET, SEEK_CUR and SEEK_END are 0, 1 and 2; the sums are of 64 bits.
unfoldable pub seek_target : ℕ → ℕ → ℕ → ℕ → Option ℕ
seek_target f_pos total offset whence =
    if whence == 0
    then some offset
    else if whence == 1
    then some ((f_pos + offset) % size_mod)
    else if whence == 2
    then some ((total + offset) % size_mod)
    else none

abbrev pub is_negative : ℕ → Bool
is_negative x = leb (2 ^ 63) x

-- The bounds check and the update; `total_size` is unsigned, so the comparison is.
unfoldable pub seek_to : Sys → File → ℕ → Option ℕ → Sys × File × Ret
seek_to s f total none = (unlock s, f, error einval)
seek_to s f total (some new_pos) =
    if is_negative new_pos || ltb total new_pos
    then (unlock s, f, error einval)
    else (unlock s, record f { f_pos = new_pos }, done new_pos)

-- `aesd_llseek(filp, offset, whence)`.
unfoldable pub llseek : Sys → File → ℕ → ℕ → Bool → Sys × File × Ret
unfolding seek_to seek_target
llseek s f offset whence interrupted =
    if not f.private_data
    then (s, f, error einval)
    else if interrupted
    then (s, f, error erestartsys)
    else let total = total_buffer_size s.dev.buffer in
      seek_to (lock s) f total (seek_target f.f_pos total offset whence)

-- `_IOWR(0x16, 1, struct aesd_seekto)`: direction 3, size 8, magic 0x16, number 1.
abbrev pub aesdchar_iocseekto : ℕ
aesdchar_iocseekto = 3 * 2 ^ 30 + 8 * 2 ^ 16 + 0x16 * 2 ^ 8 + 1

-- `struct aesd_seekto`.
pub record SeekTo : Type 0 where
  pub write_cmd : ℕ
  pub write_cmd_offset : ℕ

-- The loop over the commands before the target: the position and the slot that it ends at.
unfoldable pub skip_commands : List Entry → ℕ → ℕ → ℕ → ℕ × ℕ
skip_commands entry zero idx pos = (pos, idx)
skip_commands entry (suc rounds) idx pos =
    skip_commands entry rounds ((idx + 1) % max_write_operations)
      ((pos + (get_or entry idx null_entry).size) % size_mod)

-- The part of the ioctl under the mutex. The loop's counter is a `uint8_t`; it stops at
-- `write_cmd`, which is below `total_entries`.
unfoldable pub seek_command : Sys → File → SeekTo → Sys × File × Ret
unfolding skip_commands
seek_command s f t =
    let b = s.dev.buffer in
    let (pos, idx) = skip_commands b.entry t.write_cmd b.out_offs 0 in
    if leb (total_entries b) t.write_cmd
    then (unlock s, f, error einval)
    else if leb (slot b idx).size t.write_cmd_offset
    then (unlock s, f, error einval)
    else (unlock s, record f { f_pos = (pos + t.write_cmd_offset) % size_mod }, done 0)

-- `aesd_unlocked_ioctl(filp, cmd, arg)`: the structure behind `arg`, and whether it can be copied.
unfoldable pub unlocked_ioctl : Sys → File → ℕ → SeekTo → Bool → Bool → Sys × File × Ret
unlocked_ioctl s f cmd t unreadable interrupted =
    if not f.private_data
    then (s, f, error einval)
    else if not (cmd == aesdchar_iocseekto)
    then (s, f, error enotty)
    else if unreadable
    then (s, f, error efault)
    else if interrupted
    then (s, f, error erestartsys)
    else seek_command (lock s) f t
