-- ===== src/Driver/Write/Commit.antt =====
-- The step of `aesd_write` (aesd-char-driver/char-driver/src/aesd-char-fileops.c) that looks for a
-- newline and hands a complete command on.
use mathlib.Core.Path.{subst}
use embedded_linux.Common.{
  ℕ, ◌≡◌, refl, sym, ap, ◌∙◌, true, Option, [], arith, inl, inr, if◌then◌else◌, Option-cases,
  Bool-cases,
}
use embedded_linux.Memory.{in_block, checked, peek}
use embedded_linux.Memory.Append.{checked_lem}
use embedded_linux.Driver.{Sys, on_heap}
use embedded_linux.Driver.Log.{push_command}
use embedded_linux.Driver.Buffering.{handle_complete_command}
use embedded_linux.Driver.Buffering.Complete.{handle_complete_command-IsCompleted}
use embedded_linux.Driver.Write.{has_newline, commit}
use embedded_linux.Driver.Ownership.{IsOwned, IsBackedPtr, bytes_of, log, Log}

-- A command that is complete is taken over.
abbrev pub settled : Log → Log
settled l =
    if has_newline l.pending
    then record { commands = push_command l.commands l.pending; pending = [] }
    else l

pub record IsCommitted (tmp : Option ℕ) (s t : Sys) : Type 0 where
  pub owned : IsOwned tmp t
  pub text : log t ≡ settled (log s)
  pub lock_same : t.dev.locked ≡ s.dev.locked

pub commit-IsCommitted : {tmp : Option ℕ} {s : Sys} → IsOwned tmp s → IsCommitted tmp s (commit s)
unfolding commit peek has_newline
commit-IsCommitted {tmp} {s} o = elim (Option-cases s.dev.write_buf) [
  | inl empty ↦
      let run : commit s ≡ s = simp (empty, commit) in
      let quiet : log s ≡ settled (log s) =
        simp (ap has_newline (ap (λ ptr. bytes_of s.heap ptr s.dev.write_buf_size) empty)) in
      subst (IsCommitted tmp s) (sym run) (record { owned = o; text = quiet; lock_same = refl })
  | inr (p, e) ↦
      let (len, small) = subst (λ ptr. IsBackedPtr s.heap ptr s.dev.write_buf_size) e o.pending in
      let inside : in_block s.heap p 0 s.dev.write_buf_size ≡ true = ground (arith, len) in
      let text : peek s.heap p 0 s.dev.write_buf_size ≡ (log s).pending =
        sym (ap (λ ptr. bytes_of s.heap ptr s.dev.write_buf_size) e) in
      let read : on_heap (λ h. checked (in_block h p 0 s.dev.write_buf_size) h) s ≡ s =
        ap (λ h. on_heap (λ _. h) s) (checked_lem _ s.heap inside) in
      elim (Bool-cases (has_newline (log s).pending)) [
        | inl full_line ↦
            let c = handle_complete_command-IsCompleted o e in
            let run : commit s ≡ handle_complete_command s =
              simp (e, commit, ap has_newline text ∙ full_line) (ap handle_complete_command read) in
            subst (IsCommitted tmp s) (sym run) (record {
              owned = c.owned;
              text = c.moved_on ∙ simp full_line;
              lock_same = c.lock_same;
            })
        | inr part ↦
            let run : commit s ≡ s = simp (e, commit, ap has_newline text ∙ part) read in
            subst (IsCommitted tmp s) (sym run)
              (record { owned = o; text = simp part; lock_same = refl })
      ]
]
