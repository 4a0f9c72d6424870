-- ===== src/Driver/Write/Refine.antt =====
-- `aesd_write` (aesd-char-driver/char-driver/src/aesd-char-fileops.c) against the log of commands.
use mathlib.Core.Path.{subst}
use embedded_linux.Common.{
  ℕ, ◌+◌, ◌-◌, ◌^◌, ◌≤◌, ◌<◌, ◌≡◌, refl, sym, ap, ◌∙◌, Bool, true, false, Option, not, ◌||◌, none,
  some, List, ◌++◌, arith, inl, inr, length, length-take, take, ◌==◌, Option-cases, Bool-cases,
  append-nil, drop-all, take-all, ==_iff,
}
use embedded_linux.Memory.{Heap, Allocator, bytes_at, poke, kfree, allocated}
use embedded_linux.Memory.Append.{splice, poke_lem, update_self}
use embedded_linux.Driver.{
  Errno, Ret, done, error, einval, enomem, efault, erestartsys, Sys, File, lock, unlock, on_heap,
}
use embedded_linux.Driver.Log.{append_bytes}
use embedded_linux.Driver.Buffering.{handle_write_buffer}
use embedded_linux.Driver.Buffering.Append.{IsAppended, handle_write_buffer-IsAppended}
use embedded_linux.Driver.Buffering.Install.{allocated_at}
use embedded_linux.Driver.Write.{commit, write_copied, write_locked, write}
use embedded_linux.Driver.Ownership.{IsOwned, log, Log}
use embedded_linux.Driver.Ownership.Blocks.{
  held, allocated-IsOwned, poke-IsOwned, kfree-IsOwned, set_locked-IsOwned,
}
use embedded_linux.Driver.Write.Commit.{settled, commit-IsCommitted}

-- What a call of `write` may do to the log, by its return value.
abbrev pub IsLogged : List ℕ → Log → Sys → Ret → Type 0
IsLogged bs l t (done n) = (n ≡ length bs) × (log t ≡ append_bytes bs l)
IsLogged bs l t (error e) = log t ≡ l

pub record IsWritten (bs : List ℕ) (l : Log) (out : Sys × Ret) : Type 0 where
  pub owned : IsOwned none out.0
  pub unlocked : out.0.dev.locked ≡ false
  pub logged : IsLogged bs l out.0 out.1

-- The end of every path that holds the temporary block: it is freed and the mutex released.
finish-IsWritten :
    {bs : List ℕ} {l : Log} (t : Sys) (tmp : ℕ) (r : Ret)
    → IsOwned (some tmp) t
    → IsLogged bs l t r
    → IsWritten bs l (unlock (on_heap (λ h. kfree h tmp) t), r)
finish-IsWritten t tmp (done n) o (count, text) =
    let (o', l') = kfree-IsOwned t tmp o in
    record { owned = set_locked-IsOwned false o'; unlocked = refl; logged = (count, l' ∙ text) }
finish-IsWritten t tmp (error e) o text =
    let (o', l') = kfree-IsOwned t tmp o in
    record { owned = set_locked-IsOwned false o'; unlocked = refl; logged = l' ∙ text }

module _ (a : Allocator) {l0 : Log} {s : Sys} {tmp : ℕ} (bs : List ℕ) (o : IsOwned (some tmp) s)
    (same : log s ≡ l0) (src : s.heap.block tmp ≡ some bs) (small : length bs < 2 ^ 32) where
  write_copied_by :
      (out : Sys × Option Errno)
      → handle_write_buffer a s (some tmp) (length bs) ≡ out
      → IsAppended tmp bs s out
      → IsWritten bs l0 (write_copied a s tmp (length bs))
  unfolding write_copied append_bytes
  write_copied_by (t, none) e (owned, text, _) =
      let c = commit-IsCommitted owned in
      let run : write_copied a s tmp (length bs)
          ≡ (unlock (on_heap (λ h. kfree h tmp) (commit t)), done (length bs)) =
        rw (
          ap (λ (r : Sys × Option Errno). r.1) e,
          write_copied,
          ap (λ (r : Sys × Option Errno). r.0) e,
        ) in
      subst (IsWritten bs l0) (sym run) (
        finish-IsWritten (commit t) tmp (done (length bs)) c.owned (
          refl,
          c.text
              ∙ ap settled (
                  text
                  ∙ ap (λ (l : Log). record { commands = l.commands; pending = l.pending ++ bs })
                      same),
        ))
  write_copied_by (t, some x) e back =
      let run : write_copied a s tmp (length bs)
          ≡ (unlock (on_heap (λ h. kfree h tmp) t), error x) =
        rw (
          ap (λ (r : Sys × Option Errno). r.1) e,
          write_copied,
          ap (λ (r : Sys × Option Errno). r.0) e,
        ) in
      subst (IsWritten bs l0) (sym run) (
        finish-IsWritten t tmp (error x) (subst (IsOwned (some tmp)) (sym back) o)
          (ap log back ∙ same))

-- The temporary block after the copy from user space.
module _ (a : Allocator) {s : Sys} (bs : List ℕ) (uncopied : ℕ) (o : IsOwned none s) (tmp : ℕ)
    (e : a.kmalloc s.heap (length bs) ≡ some tmp) where
  abbrev copied : Sys
  copied =
      on_heap (λ h. poke (allocated a h tmp (length bs)) tmp 0 (take (length bs - uncopied) bs)) s

  copied-IsOwned : IsOwned (some tmp) copied × (log copied ≡ log s)
  copied-IsOwned =
      let (o1, l1) = allocated-IsOwned a s (length bs) tmp e o in
      let t : Sys = on_heap (λ h. allocated a h tmp (length bs)) s in
      let at : bytes_at t.heap tmp ≡ a.junk (length bs) =
        rw (allocated_at a s.heap tmp (length bs), bytes_at) in
      let (o2, l2) =
        poke-IsOwned t tmp 0 (take (length bs - uncopied) bs)
          (omega
            (arith, length-take (length bs - uncopied) bs, ap length at, a.length-junk (length bs)))
          (held t tmp o1).0 o1 in
      (o2, l2 ∙ l1)

  -- With nothing left uncopied the block holds the user's bytes.
  copied_bytes : uncopied ≡ 0 → copied.heap.block tmp ≡ some bs
  copied_bytes z =
      let junk : List ℕ = a.junk (length bs) in
      let whole : take (length bs - uncopied) bs ≡ bs =
        take-all (length bs - uncopied) bs (omega arith) in
      let h : Heap = allocated a s.heap tmp (length bs) in
      let room : 0 + length bs ≤ length junk = omega (arith, a.length-junk (length bs)) in
      ap (λ xs. (poke h tmp 0 xs).block tmp) whole
      ∙ ap (λ (k : Heap). k.block tmp)
          (poke_lem h tmp 0 bs junk (allocated_at a s.heap tmp (length bs)) room)
      ∙ update_self h.block tmp (some (splice 0 bs junk))
      ∙ ap (λ l. some (bs ++ l))
          (drop-all (0 + length bs) junk (omega (arith, a.length-junk (length bs))))
      ∙ ap some (append-nil bs)

write_locked-IsWritten :
    (a : Allocator) {s : Sys} (bs : List ℕ) (uncopied : ℕ)
    → IsOwned none s
    → IsWritten bs (log s) (write_locked a s bs uncopied)
unfolding write_locked
write_locked-IsWritten a {s} bs uncopied o = elim (Option-cases (a.kmalloc s.heap (length bs))) [
  | inl failed ↦
      let run : write_locked a s bs uncopied ≡ (unlock s, error enomem) =
        rw (failed, write_locked) in
      subst (IsWritten bs (log s)) (sym run)
        (record { owned = set_locked-IsOwned false o; unlocked = refl; logged = refl })
  | inr (tmp, e) ↦
      let (o1, l1) = copied-IsOwned a bs uncopied o tmp e in
      let t : Sys = copied a bs uncopied o tmp e in
      elim (Bool-cases (uncopied == 0)) [
        | inl all ↦
            let z : uncopied ≡ 0 = (==_iff uncopied 0).0 all in
            let run : write_locked a s bs uncopied ≡ write_copied a t tmp (length bs) =
              rw (e, write_locked, all) in
            subst (IsWritten bs (log s)) (sym run) (
              write_copied_by a bs o1 l1 (copied_bytes a bs uncopied o tmp e z)
                (a.kmalloc_limit s.heap (length bs) tmp e) _ refl
                (handle_write_buffer-IsAppended a bs o1 (copied_bytes a bs uncopied o tmp e z)
                  (a.kmalloc_limit s.heap (length bs) tmp e)))
        | inr part ↦
            let run : write_locked a s bs uncopied
                ≡ (unlock (on_heap (λ h. kfree h tmp) t), error efault) =
              rw (e, write_locked, part) in
            subst (IsWritten bs (log s)) (sym run) (finish-IsWritten t tmp (error efault) o1 l1)
      ]
]

-- On a device whose memory is in order (`IsOwned`) and whose mutex is free, a call of `write` with
-- a buffer other than NULL, whatever its bytes, the file, the allocator's answers, an interruption
-- and the bytes left uncopied, leaves every block of memory with one owner, no fault, and the
-- mutex free. If it returns a count, that is the number of bytes given, and these bytes are
-- appended to the log; if it returns an error, the log is unchanged.
pub write-IsWritten :
    (a : Allocator) {s : Sys} (f : File) (bs : List ℕ) (interrupted : Bool) (uncopied : ℕ)
    → IsOwned none s
    → s.dev.locked ≡ false
    → IsWritten bs (log s) (write a s f (some bs) interrupted uncopied)
unfolding write
write-IsWritten a {s} f bs interrupted uncopied o free =
    let refused : (e : Errno) → IsWritten bs (log s) (s, error e) =
      λ e. record { owned = o; unlocked = free; logged = refl } in
    let l = write_locked-IsWritten a {s = lock s} bs uncopied (set_locked-IsOwned true o) in
    elim (Bool-cases (not f.private_data || length bs == 0)) [
      | inl bad ↦
          let run : write a s f (some bs) interrupted uncopied ≡ (s, error einval) =
            rw (bad, write) in
          subst (IsWritten bs (log s)) (sym run) (refused einval)
      | inr good ↦ elim (Bool-cases interrupted) [
        | inl sig ↦
            let run : write a s f (some bs) interrupted uncopied ≡ (s, error erestartsys) =
              rw (good, sig, write) in
            subst (IsWritten bs (log s)) (sym run) (refused erestartsys)
        | inr quiet ↦
            let run : write a s f (some bs) interrupted uncopied
                ≡ write_locked a (lock s) bs uncopied =
              rw (good, quiet, write) in
            subst (IsWritten bs (log s)) (sym run) l
      ]
    ]
