-- ===== src/Driver/Tests.antt =====
-- The driver on a machine with three free addresses.
use mathlib.Core.Path.{subst}
use mathlib.Core.List.{flatten}
use embedded_linux.Common.{
  ℕ, ◌-◌, ◌^◌, ◌<◌, ◌≡◌, ◌⊎◌, refl, sym, ap, ◌∙◌, true, false, Option, none, some, List, [], ◌∷◌,
  ◌++◌, inl, inr, arith, ltb, if◌then◌else◌, Bool-cases, Option-cases, ltb→lt, length,
  length-replicate, replicate, drop, get_or, All,
}
use embedded_linux.Circular.{zeroed, total_entries, store, add_entry}
use embedded_linux.Memory.{Heap, Allocator, allocated, reallocated, poke, peek, memcpy, kfree}
use embedded_linux.Driver.{Sys, File, done, error, einval, unlock}
use embedded_linux.Driver.Ownership.{IsOwned, log, IsNull}
use embedded_linux.Driver.Buffering.{
  handle_write_buffer, grow_write_buf, new_write_buf, free_oldest, add_to_device,
  handle_complete_command,
}
use embedded_linux.Driver.Buffering.Complete.{IsCompleted, handle_complete_command-IsCompleted}
use embedded_linux.Driver.Write.{has_newline, commit, write_copied, write_locked, write}
use embedded_linux.Driver.Log.{append_bytes}
use embedded_linux.Driver.Write.Progress.{write-completes}
use embedded_linux.Driver.Write.Refine.{IsWritten, write-IsWritten}
use embedded_linux.Driver.Read.{read}
use embedded_linux.Driver.Read.Stream.{stream}
use embedded_linux.Driver.Read.Refine.{IsRead, read-IsRead}
use embedded_linux.Driver.Seek.{llseek, unlocked_ioctl, aesdchar_iocseekto, SeekTo}
use embedded_linux.Driver.Seek.Position.{seek_end, back, target, moved_to, llseek_lem}
use embedded_linux.Driver.Seek.Command.{IsTarget, unlocked_ioctl_lem, unlocked_ioctl_refuses}
use embedded_linux.Driver.Cleanup.{cleanup_device}
use embedded_linux.Driver.Cleanup.Release.{cleanup_device_frees}
use embedded_linux.Driver.Lifetime.{Loaded, success, failure, fresh_device, load}
use embedded_linux.Driver.Lifetime.Balance.{IsUnloaded, IsReady, fresh-IsOwned, load_lem}

-- The first free address of a list.
abbrev first_free : Heap → List ℕ → Option ℕ
first_free h [] = none
first_free h (p ∷ ps) = elim (h.block p) [ none ↦ some p | some _ ↦ first_free h ps ]

first_free-free : (h : Heap) (ps : List ℕ) (p : ℕ) → first_free h ps ≡ some p → h.block p ≡ none
first_free-free h [] p e = cc
first_free-free h (q ∷ ps) p e = elim (Option-cases (h.block q)) [
  | inl free ↦
      let run : first_free h (q ∷ ps) ≡ some q = simp (first_free, free) in
      let same : q ≡ p = cc in subst (λ r. h.block r ≡ none) same free
  | inr (_, taken) ↦
      let run : first_free h (q ∷ ps) ≡ first_free h ps = simp (first_free, taken) in
      first_free-free h ps p (sym run ∙ e)
]

abbrev free_below : ℕ → Heap → Option ℕ
free_below n h = if ltb n 1000 then first_free h (1 ∷ 2 ∷ 3 ∷ []) else none

pub free_below-limit : (h : Heap) (n p : ℕ) → free_below n h ≡ some p → n < 2 ^ 32
free_below-limit h n p e = elim (Bool-cases (ltb n 1000)) [
  | inl small ↦ omega (arith, ltb→lt _ _ small)
  | inr large ↦ let run : free_below n h ≡ none = simp large in absurd (cc)
]

pub free_below-free : (h : Heap) (n p : ℕ) → free_below n h ≡ some p → h.block p ≡ none
free_below-free h n p e = elim (Bool-cases (ltb n 1000)) [
  | inl small ↦
      let run : free_below n h ≡ first_free h (1 ∷ 2 ∷ 3 ∷ []) = simp small in
      first_free-free h (1 ∷ 2 ∷ 3 ∷ []) p (sym run ∙ e)
  | inr large ↦ let run : free_below n h ≡ none = simp large in absurd (cc)
]

-- An allocator of small blocks, at the addresses 1, 2 and 3; `krealloc` always moves.
abbrev pub pool : Allocator
pool = record {
  kmalloc = λ h n. free_below n h;
  krealloc = λ h q n. free_below n h;
  junk = λ n. replicate n 170;
  length-junk = λ n. length-replicate n 170;
  kmalloc_fresh = free_below-free;
  krealloc_fresh = λ h q n p e. inr (free_below-free h n p e);
  kmalloc_limit = free_below-limit;
  krealloc_limit = λ h q n p e. free_below-limit h n p e;
}

abbrev pub fresh : Sys
fresh = record {
  heap = record { block = λ _. none; fault = false };
  dev = record { buffer = zeroed; locked = false; write_buf = none; write_buf_size = 0 };
}

fresh_is : IsOwned none fresh
unfolding fresh_device
fresh_is = fresh-IsOwned fresh (λ _. refl) refl

abbrev opened : File
opened = record { private_data = true; f_pos = 1 }

abbrev pub target_at : SeekTo
target_at = record { write_cmd = 0; write_cmd_offset = 1 }

abbrev target_past : SeekTo
target_past = record { write_cmd = 3; write_cmd_offset = 1 }

-- "ab\n", then "c".
abbrev pub one_command : Sys
one_command = (write pool fresh opened (some (97 ∷ 98 ∷ 10 ∷ [])) false 0).0

abbrev one_and_a_half : Sys
one_and_a_half = (write pool one_command opened (some (99 ∷ [])) false 0).0

pub one_command-IsWritten :
    IsWritten
      (97 ∷ 98 ∷ 10 ∷ [])
      (log fresh)
      (write pool fresh opened (some (97 ∷ 98 ∷ 10 ∷ [])) false 0)
one_command-IsWritten =
    write-IsWritten pool {s = fresh} opened (97 ∷ 98 ∷ 10 ∷ []) false 0 fresh_is refl

write-IsWritten_example :
    IsWritten (99 ∷ []) (log one_command) (write pool one_command opened (some (99 ∷ [])) false 0)
write-IsWritten_example =
    write-IsWritten pool {s = one_command} opened (99 ∷ []) false 0 one_command-IsWritten.owned
      one_command-IsWritten.unlocked

one_and_a_half-IsWritten :
    IsWritten (99 ∷ []) (log one_command) (write pool one_command opened (some (99 ∷ [])) false 0)
one_and_a_half-IsWritten =
    write-IsWritten pool {s = one_command} opened (99 ∷ []) false 0 one_command-IsWritten.owned
      one_command-IsWritten.unlocked

write-completes_example :
    ((write pool one_command opened (some (99 ∷ [])) false 0).1 ≡ done 1)
    × (log (write pool one_command opened (some (99 ∷ [])) false 0).0
        ≡ append_bytes (99 ∷ []) (log one_command))
unfolding write write_locked write_copied commit has_newline handle_write_buffer grow_write_buf
    new_write_buf handle_complete_command free_oldest add_to_device add_entry store total_entries
    allocated reallocated poke peek memcpy kfree
write-completes_example =
    write-completes pool {s = one_command} opened (99 ∷ []) 1 3 one_command-IsWritten.owned
      one_command-IsWritten.unlocked refl (omega arith) refl refl

read-IsRead_example : IsRead one_command 5 1 (read one_command opened true 5 (some 1) false 0)
read-IsRead_example =
    read-IsRead {s = one_command} opened 5 1 one_command-IsWritten.owned refl (omega arith)

llseek_lem_example :
    llseek one_command opened (2 ^ 64 - 2) 2 false
    ≡ moved_to one_command opened
        (length (stream (log one_command)))
        (target (length (stream (log one_command))) (back 2))
llseek_lem_example =
    llseek_lem {s = one_command} opened seek_end (back 2) one_command-IsWritten.owned refl
      (omega arith) (omega arith, omega arith)

pub one_command-log : (log one_command).commands ≡ (97 ∷ 98 ∷ 10 ∷ []) ∷ []
unfolding write write_locked write_copied commit has_newline handle_write_buffer grow_write_buf
    new_write_buf handle_complete_command free_oldest add_to_device add_entry store total_entries
    allocated reallocated poke peek memcpy kfree
one_command-log = refl

pub target_at-IsTarget : IsTarget (log one_command).commands target_at
target_at-IsTarget =
    subst (λ cs. IsTarget cs target_at) (sym one_command-log) (omega arith, omega arith)

few_commands : ¬ (3 < length (log one_command).commands)
few_commands h = omega (arith, ap length one_command-log, h)

unlocked_ioctl_lem_example :
    (p : ℕ) × (unlocked_ioctl one_command opened aesdchar_iocseekto target_at false false
      ≡ (unlock one_command, record opened { f_pos = p }, done 0))
    × (drop p (stream (log one_command))
        ≡ drop 1 (get_or (log one_command).commands 0 [])
          ++ flatten (drop 1 (log one_command).commands))
unlocked_ioctl_lem_example =
    unlocked_ioctl_lem {s = one_command} opened target_at one_command-IsWritten.owned refl
      target_at-IsTarget

unlocked_ioctl_refuses_example :
    unlocked_ioctl one_command opened aesdchar_iocseekto target_past false false
    ≡ (unlock one_command, opened, error einval)
unlocked_ioctl_refuses_example =
    unlocked_ioctl_refuses {s = one_command} opened target_past one_command-IsWritten.owned refl
      (λ (h : IsTarget _ target_past). absurd (few_commands h.0))

cleanup_device_frees_example :
    let t = cleanup_device one_command in
    ((p : ℕ) → t.heap.block p ≡ none)
    × (t.heap.fault ≡ false)
    × (t.dev.write_buf ≡ none)
    × All IsNull t.dev.buffer.entry
cleanup_device_frees_example = cleanup_device_frees {s = one_command} one_command-IsWritten.owned

handle_complete_command-IsCompleted_example :
    IsCompleted none one_and_a_half (handle_complete_command one_and_a_half)
unfolding write write_locked write_copied commit has_newline handle_write_buffer grow_write_buf
    new_write_buf handle_complete_command free_oldest add_to_device add_entry store total_entries
    allocated reallocated poke peek memcpy kfree
handle_complete_command-IsCompleted_example =
    handle_complete_command-IsCompleted {s = one_and_a_half} {p = 3} one_and_a_half-IsWritten.owned
      refl

abbrev nothing_loaded : Loaded
nothing_loaded = record { chrdev = false; cdev = false; mutex = false; sys = fresh }

load_lem_example :
    ((success ≡ success)
      × (success ≡ success)
      × ((load nothing_loaded success success).1 ≡ success)
      × IsReady (load nothing_loaded success success).0)
    ⊎ ((e : ℕ) × ((success ≡ failure e) ⊎ (success ≡ failure e))
        × ((load nothing_loaded success success).1 ≡ failure e)
        × IsUnloaded (load nothing_loaded success success).0)
load_lem_example = load_lem nothing_loaded success success (record {
  no_chrdev = refl;
  no_cdev = refl;
  no_mutex = refl;
  no_memory = λ p. refl;
  no_fault = refl;
})
