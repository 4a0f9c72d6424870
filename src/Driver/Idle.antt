-- ===== src/Driver/Idle.antt =====
-- Whatever the kernel answers, the file operations of aesd-char-driver/char-driver leave the
-- device between two calls as they found it: its memory in order, its mutex free.
use mathlib.Core.Path.{subst}
use embedded_linux.Common.{
  ℕ, ◌<◌, ◌≡◌, refl, sym, ◌∙◌, Bool, true, false, not, ◌||◌, none, some, List, arith, inl, inr,
  ◌==◌, Bool-cases, Option-cases,
}
use embedded_linux.Circular.{find_entry, size_mod}
use embedded_linux.Memory.{Allocator}
use embedded_linux.Driver.{Sys, File, lock, unlock}
use embedded_linux.Driver.Ownership.{IsOwned}
use embedded_linux.Driver.Ownership.Blocks.{set_locked-IsOwned}
use embedded_linux.Driver.Write.{write}
use embedded_linux.Driver.Write.Refine.{write-IsWritten}
use embedded_linux.Driver.Read.{read, read_locked, copy_out}
use embedded_linux.Driver.Read.Refine.{read_locked-IsRead}
use embedded_linux.Driver.Seek.{SeekTo, aesdchar_iocseekto, unlocked_ioctl, seek_command}

-- The device between two calls: its memory in order, its mutex free.
pub record IsIdle (s : Sys) : Type 0 where
  pub owned : IsOwned none s
  pub free : s.dev.locked ≡ false

unlock-IsIdle : (s : Sys) → IsOwned none s → IsIdle (unlock (lock s))
unlock-IsIdle s o = record {
  owned = set_locked-IsOwned false (set_locked-IsOwned true o);
  free = refl;
}

-- An incomplete copy to the user changes the result of a read, not the device.
read_locked-uncopied :
    (s : Sys) (count pos u : ℕ) → (read_locked s count pos u).sys ≡ (read_locked s count pos 0).sys
unfolding read_locked copy_out
read_locked-uncopied s count pos u = elim (Option-cases (find_entry (some s.dev.buffer) pos true)) [
  | inl e ↦ simp (read_locked, e)
  | inr (r, e) ↦ elim (Bool-cases (u == 0)) [
    | inl whole ↦ simp (read_locked, e, copy_out, whole)
    | inr part ↦ simp (read_locked, e, copy_out, part)
  ]
]

seek_command-unlock : (s : Sys) (f : File) (t : SeekTo) → (seek_command s f t).0 ≡ unlock s
unfolding seek_command
seek_command-unlock s f t = ground arith

pub unlocked_ioctl-IsIdle :
    (s : Sys) (f : File) (cmd : ℕ) (t : SeekTo) (unreadable interrupted : Bool)
    → IsIdle s
    → IsIdle (unlocked_ioctl s f cmd t unreadable interrupted).0
unfolding unlocked_ioctl
unlocked_ioctl-IsIdle s f cmd t unreadable interrupted h = elim (Bool-cases (not f.private_data)) [
  | inl e0 ↦ simp (e0) h
  | inr e0 ↦ elim (Bool-cases (not (cmd == aesdchar_iocseekto))) [
    | inl e1 ↦ simp (e0, e1) h
    | inr e1 ↦ elim (Bool-cases unreadable) [
      | inl e2 ↦ simp (e0, e1, e2) h
      | inr e2 ↦ elim (Bool-cases interrupted) [
        | inl e3 ↦ simp (e0, e1, e2, e3) h
        | inr e3 ↦ simp (e0, e1, e2, e3, seek_command-unlock) (unlock-IsIdle s h.owned)
      ]
    ]
  ]
]

read_locked-unlock :
    (s : Sys) (count pos u : ℕ)
    → IsOwned none s
    → pos < size_mod
    → (read_locked s count pos u).sys ≡ unlock s
read_locked-unlock s count pos u o small =
    read_locked-uncopied s count pos u ∙ (read_locked-IsRead {s = s} count pos o small).sys

pub read-IsIdle :
    (s : Sys) (f : File) (buf : Bool) (count pos : ℕ) (interrupted : Bool) (u : ℕ)
    → IsIdle s
    → pos < size_mod
    → IsIdle (read s f buf count (some pos) interrupted u).sys
unfolding read
read-IsIdle s f buf count pos interrupted u h small =
    elim (Bool-cases (not f.private_data || not buf)) [
      | inl e0 ↦ simp (e0) h
      | inr e0 ↦ elim (Bool-cases interrupted) [
        | inl e1 ↦ simp (e0, e1) h
        | inr e1 ↦
            let run : (read s f buf count (some pos) interrupted u).sys ≡ unlock (lock s) =
              simp (e0, e1)
                (read_locked-unlock (lock s) count pos u (set_locked-IsOwned true h.owned) small) in
            subst IsIdle (sym run) (unlock-IsIdle s h.owned)
      ]
    ]

pub write-IsIdle :
    (a : Allocator) (s : Sys) (f : File) (bs : List ℕ) (interrupted : Bool) (u : ℕ)
    → IsIdle s
    → IsIdle (write a s f (some bs) interrupted u).0
write-IsIdle a s f bs interrupted u h =
    let w = write-IsWritten a {s = s} f bs interrupted u h.owned h.free in
    record { owned = w.owned; free = w.unlocked }

-- A position that a read or the ioctl leaves is one that a `loff_t` holds.
pub read_pos :
    (s : Sys) (f : File) (buf : Bool) (count pos : ℕ) (interrupted : Bool) (u q : ℕ)
    → pos < size_mod
    → (read s f buf count (some pos) interrupted u).pos ≡ some q
    → q < size_mod
unfolding read read_locked copy_out
read_pos s f buf count pos interrupted u q small e = ground arith

pub unlocked_ioctl_pos :
    (s : Sys) (f : File) (cmd : ℕ) (t : SeekTo) (unreadable interrupted : Bool)
    → f.f_pos < size_mod
    → (unlocked_ioctl s f cmd t unreadable interrupted).1.f_pos < size_mod
unfolding unlocked_ioctl seek_command
unlocked_ioctl_pos s f cmd t unreadable interrupted small = ground arith
