-- ===== src/Server/Session/Done.antt =====
-- Every branch of a client's thread gives back the mutex and its descriptors
-- (server/aesdsocket_app/src/thread_manager.c).
use mathlib.Core.Path.{subst}
use embedded_linux.Common.{
  ℕ, suc, ◌<◌, ◌≡◌, refl, ap, Bool, true, false, Option, none, some, List, [], ◌∷◌, arith, ◌⊎◌, inl,
  inr, Bool-cases, Bool-both, Option-both, length, drop,
}
use embedded_linux.Circular.{size_mod}
use embedded_linux.Memory.{Allocator}
use embedded_linux.Driver.{File, Ret-both}
use embedded_linux.Driver.Idle.{unlocked_ioctl-IsIdle, unlocked_ioctl_pos}
use embedded_linux.Driver.Write.{has_newline}
use embedded_linux.Driver.Seek.{SeekTo, aesdchar_iocseekto}
use embedded_linux.Server.{
  Answers, Client, lock_file, unlock_file, open_device, close_file, device_write, device_ioctl,
}
use embedded_linux.Server.Transfer.{write_all}
use embedded_linux.Server.Transfer.Sends.{write_all-keeps}
use embedded_linux.Server.Session.{
  Next, again, leave, next_retries, all_written, seek_opened, seek_locked, seek_command_received,
  has_prefix, seek_prefix, reply, data_opened, data_received, receive, receive_loop,
}
use embedded_linux.Server.Session.Held.{IsCalm, IsAt, device_write-IsAt, send_rest-IsAt}

-- What opening the device leaves, by whether there is a file.
abbrev IsOpened : ℕ × Bool × Option Bool → ℕ → Client → Option File → Type 0
IsOpened rest files m none = IsAt true files rest m
IsOpened rest files m (some f) = IsAt true (suc files) rest m × (f.f_pos < size_mod)

-- What a round of the loop leaves: neither the mutex nor a descriptor.
record IsDone (rest : ℕ × Bool × Option Bool) (files : ℕ) (x : Client × Next) : Type 0 where
  at_end : IsAt false files rest x.0

Next-cases : (n : Next) → (n ≡ leave) ⊎ (n ≡ again)
Next-cases leave = inl refl
Next-cases again = inr refl

-- Closing the device and giving the mutex back.
module _ {rest : ℕ × Bool × Option Bool} where
  closed :
      {locked : Bool} {files : ℕ} {m : Client}
      → IsAt locked (suc files) rest m
      → IsAt locked files rest (close_file m)
  closed h = record {
    idle = h.idle;
    mutex = h.mutex;
    open_now = omega (arith, h.open_now);
    others = h.others;
  }

  unlocked :
      {locked : Bool} {files : ℕ} {m : Client}
      → IsAt locked files rest m
      → IsAt false files rest (unlock_file m)
  unlocked h = record { idle = h.idle; mutex = refl; open_now = h.open_now; others = h.others }

  open_device-IsOpened :
      {files : ℕ} (env : Answers) (m : Client)
      → IsAt true files rest m
      → IsOpened rest files (open_device env m).0 (open_device env m).1
  unfolding open_device
  open_device-IsOpened env m h = elim (Bool-cases (env m.calls).refused) [
    | inl e ↦
        simp (open_device, e)
          (record { idle = h.idle; mutex = h.mutex; open_now = h.open_now; others = h.others })
    | inr e ↦
        simp (open_device, e)
          (
            record {
              idle = h.idle;
              mutex = h.mutex;
              open_now = ap suc h.open_now;
              others = h.others;
            },
            omega arith,
          )
  ]

  module _ {files : ℕ} (env : Answers) where
    reply-IsDone : (m : Client) → IsAt true files rest m → IsDone rest files (reply env m)
    unfolding reply
    reply-IsDone m h =
        let u : Client = (open_device env m).0 in
        let o : IsOpened rest files u (open_device env m).1 = open_device-IsOpened env m h in
        Option-both (IsDone rest files) (open_device env m).1
          (λ e. record { at_end = unlocked (subst (IsOpened rest files u) e o) })
          (λ f e.
            let (hu, small) = subst (IsOpened rest files u) e o in
            record { at_end = unlocked (closed (send_rest-IsAt env u f small hu)) })

    device_ioctl-IsAt :
        (m : Client) (f : File) (t : SeekTo)
        → f.f_pos < size_mod
        → IsAt true (suc files) rest m
        → IsAt true (suc files) rest (device_ioctl env f m t).0
          × ((device_ioctl env f m t).1.f_pos < size_mod)
    unfolding device_ioctl
    device_ioctl-IsAt m f t small h = (
      record {
        idle =
            unlocked_ioctl-IsIdle m.sys f aesdchar_iocseekto t false (env m.calls).interrupted
              h.idle;
        mutex = h.mutex;
        open_now = h.open_now;
        others = h.others;
      },
      unlocked_ioctl_pos m.sys f aesdchar_iocseekto t false (env m.calls).interrupted small,
    )

    seek_opened-IsDone :
        (m : Client) (f : File) (t : SeekTo)
        → f.f_pos < size_mod
        → IsAt true (suc files) rest m
        → IsDone rest files (seek_opened env m f t)
    unfolding seek_opened
    seek_opened-IsDone m f t small h =
        let (hu, small') = device_ioctl-IsAt m f t small h in
        Ret-both (IsDone rest files) (device_ioctl env f m t).2
          (λ e _. record { at_end = unlocked (closed hu) })
          (λ n _. record { at_end = unlocked (closed (send_rest-IsAt env _ _ small' hu)) })

    seek_locked-IsDone :
        (m : Client) (t : SeekTo) → IsAt true files rest m → IsDone rest files (seek_locked env m t)
    unfolding seek_locked
    seek_locked-IsDone m t h =
        let u : Client = (open_device env m).0 in
        let o : IsOpened rest files u (open_device env m).1 = open_device-IsOpened env m h in
        Option-both (IsDone rest files) (open_device env m).1
          (λ e. record { at_end = unlocked (subst (IsOpened rest files u) e o) })
          (λ f e.
            let (hu, small) = subst (IsOpened rest files u) e o in
            seek_opened-IsDone u f t small hu)

    lock_file-IsAt :
        (calm : IsCalm env) (m : Client)
        → IsAt false files rest m
        → IsAt (lock_file env m).1 files rest (lock_file env m).0
    unfolding lock_file
    lock_file-IsAt calm m h = elim (Bool-cases (env m.calls).refused) [
      | inl e ↦
          simp (lock_file, e)
            (record { idle = h.idle; mutex = h.mutex; open_now = h.open_now; others = h.others })
      | inr e ↦
          simp (lock_file, e)
            (record {
              idle = calm.keeps m.calls m.sys h.idle;
              mutex = refl;
              open_now = h.open_now;
              others = h.others;
            })
    ]

    seek_command_received-IsDone :
        (calm : IsCalm env) (scan : List ℕ → Option SeekTo) (m : Client) (bytes : List ℕ)
        → IsAt false files rest m
        → IsDone rest files (seek_command_received env scan m bytes)
    unfolding seek_command_received
    seek_command_received-IsDone calm scan m bytes h =
        let l = lock_file-IsAt calm m h in
        Option-both (IsDone rest files) (scan (drop 19 bytes)) (λ _. record { at_end = h })
          (λ t _.
            Bool-both (IsDone rest files) (lock_file env m).1
              (λ e. record { at_end = subst (λ b. IsAt b files rest (lock_file env m).0) e l })
              (λ e.
                seek_locked-IsDone _ t (subst (λ b. IsAt b files rest (lock_file env m).0) e l)))

    data_opened-IsDone :
        (a : Allocator) (m : Client) (f : File) (bytes : List ℕ)
        → IsAt true (suc files) rest m
        → IsDone rest files (data_opened a env m f bytes)
    unfolding data_opened
    data_opened-IsDone a m f bytes h =
        let hu =
          write_all-keeps (IsAt true (suc files) rest) (device_write a env f) (next_retries env)
            (λ v bs hv. device_write-IsAt a env f v bs hv) bytes m h in
        let u : Client = (write_all (device_write a env f) (next_retries env) m bytes).0 in
        let count = (write_all (device_write a env f) (next_retries env) m bytes).1 in
        let kept : Client × Next = (unlock_file (close_file u), again) in
        let told : Client × Next = reply env (close_file u) in
        Bool-both (IsDone rest files) (all_written count (length bytes))
          {x = (unlock_file (close_file u), leave)}
          {y = elim (has_newline bytes) [ true ↦ told | false ↦ kept ]}
          (λ _. record { at_end = unlocked (closed hu) })
          (λ _.
            Bool-both (IsDone rest files) (has_newline bytes) {x = kept} {y = told}
              (λ _. record { at_end = unlocked (closed hu) }) (λ _. reply-IsDone _ (closed hu)))

    data_received-IsDone :
        (calm : IsCalm env) (a : Allocator) (m : Client) (bytes : List ℕ)
        → IsAt false files rest m
        → IsDone rest files (data_received a env m bytes)
    unfolding data_received
    data_received-IsDone calm a m bytes h =
        let l = lock_file-IsAt calm m h in
        let v : Client = (lock_file env m).0 in
        Bool-both (IsDone rest files) (lock_file env m).1
          (λ e. record { at_end = subst (λ b. IsAt b files rest v) e l })
          (λ e.
            let u : Client = (open_device env v).0 in
            let o : IsOpened rest files u (open_device env v).1 =
              open_device-IsOpened env v (subst (λ b. IsAt b files rest v) e l) in
            Option-both (IsDone rest files) (open_device env v).1
              (λ e. record { at_end = unlocked (subst (IsOpened rest files u) e o) })
              (λ f e. data_opened-IsDone a u f bytes (subst (IsOpened rest files u) e o).0))

    receive-IsDone :
        (calm : IsCalm env) (a : Allocator) (scan : List ℕ → Option SeekTo) (m : Client)
        (bytes : List ℕ)
        → IsAt false files rest m
        → IsDone rest files (receive a env scan m bytes)
    unfolding receive
    receive-IsDone calm a scan m bytes h = elim (Bool-cases (has_prefix seek_prefix bytes)) [
      | inl e ↦ simp (receive, e) (seek_command_received-IsDone calm scan m bytes h)
      | inr e ↦ simp (receive, e) (data_received-IsDone calm a m bytes h)
    ]

    pub receive_loop-IsAt :
        (calm : IsCalm env) (a : Allocator) (scan : List ℕ → Option SeekTo) (m : Client)
        (chunks : List (List ℕ))
        → IsAt false files rest m
        → IsAt false files rest (receive_loop a env scan m chunks)
    unfolding receive_loop
    receive_loop-IsAt calm a scan m [] h = h
    receive_loop-IsAt calm a scan m ([] ∷ chunks) h = h
    receive_loop-IsAt calm a scan m ((b ∷ bytes) ∷ chunks) h =
        let hu = receive-IsDone calm a scan m (b ∷ bytes) h in
        elim (Next-cases (receive a env scan m (b ∷ bytes)).1) [
          | inl e ↦ simp (receive_loop, e) (hu.at_end)
          | inr e ↦
              simp (receive_loop, e)
                (receive_loop-IsAt calm a scan (receive a env scan m (b ∷ bytes)).0 chunks
                  hu.at_end)
        ]
