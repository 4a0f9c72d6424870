-- ===== src/Server/Session/Granted.antt =====
-- The calls of a client's thread, one by one, when the system grants them
-- (server/aesdsocket_app/src/thread_manager.c).
use embedded_linux.Common.{
  ℕ, suc, ◌-◌, ◌<◌, ◌≡◌, ap, ◌∙◌, Bool, true, false, Option, none, some, List, arith, ==_refl,
  length, drop,
}
use embedded_linux.Memory.{Allocator}
use embedded_linux.Driver.{Ret, done, Sys, File}
use embedded_linux.Driver.Write.{write, has_newline}
use embedded_linux.Driver.Seek.{SeekTo, aesdchar_iocseekto, unlocked_ioctl}
use embedded_linux.Server.{
  Answers, Client, Outcome, moved, called, lock_file, unlock_file, open_device, close_file,
  device_write, device_ioctl, outcome,
}
use embedded_linux.Server.Transfer.{write_all}
use embedded_linux.Server.Transfer.Sends.{write_all_once}
use embedded_linux.Server.Session.{
  Next, again, leave, next_retries, all_written, send_rest, seek_opened, seek_locked,
  seek_command_received, reply, data_opened, data_received,
}
use embedded_linux.Server.Session.Sent.{IsWilling}
use embedded_linux.Server.Session.Reply.{open_at}

-- The device as the thread finds it once it holds the mutex.
abbrev pub found : Answers → Client → Sys
found env m = (env m.calls).between m.sys

-- The thread holds the mutex, then has the device open too.
abbrev pub locked_by : Answers → Client → Client
locked_by env m = record (called m) { file_locked = true; sys = found env m }

abbrev pub opened_by : Client → Client
opened_by m = record (called m) { open_files = suc m.open_files }

abbrev pub held : Answers → Client → Client
held env m = opened_by (locked_by env m)

-- The thread leaves the device and the mutex.
abbrev pub released : Client → Client
released m = unlock_file (close_file m)

-- The rest of a handler, once the device was opened or not.
abbrev pub with_device : Client × Option File → (File → Client × Next) → Client × Next
with_device x rest = elim (x.1) [ none ↦ (unlock_file x.0, leave) | some f ↦ rest f ]

-- The state after the bytes went to the device.
abbrev pub stored : Allocator → Client → List ℕ → Client
stored a m bytes = record (called m) { sys = (write a m.sys (open_at 0) (some bytes) false 0).0 }

module _ (env : Answers) (w : IsWilling env) where
  pub lock_file_granted : (m : Client) → lock_file env m ≡ (locked_by env m, true)
  unfolding lock_file
  lock_file_granted m = rw (lock_file, w.granted)

  pub open_device_granted : (m : Client) → open_device env m ≡ (opened_by m, some (open_at 0))
  unfolding open_device
  open_device_granted m = rw (open_device, w.granted)

  pub data_received_opened :
      (a : Allocator) (m : Client) (bytes : List ℕ)
      → data_received a env m bytes ≡ data_opened a env (held env m) (open_at 0) bytes
  unfolding data_received
  data_received_opened a m bytes =
      ap
        (λ (x : Client × Bool). elim (x.1) [
          | false ↦ (x.0, leave)
          | true ↦
              with_device (open_device env x.0)
                (λ f. data_opened a env (open_device env x.0).0 f bytes)
        ])
        (lock_file_granted m)
      ∙ ap (λ (x : Client × Option File). with_device x (λ f. data_opened a env x.0 f bytes))
          (open_device_granted (locked_by env m))

  pub seek_command_opened :
      (scan : List ℕ → Option SeekTo) (m : Client) (bytes : List ℕ) (t : SeekTo)
      → scan (drop 19 bytes) ≡ some t
      → seek_command_received env scan m bytes ≡ seek_opened env (held env m) (open_at 0) t
  unfolding seek_command_received seek_locked
  seek_command_opened scan m bytes t e =
      ap
        (λ (o : Option SeekTo). elim o [
          | none ↦ (m, leave)
          | some t ↦ elim ((lock_file env m).1) [
            | false ↦ ((lock_file env m).0, leave)
            | true ↦ seek_locked env (lock_file env m).0 t
          ]
        ])
        e
      ∙ ap
          (λ (x : Client × Bool). elim (x.1) [
            | false ↦ (x.0, leave)
            | true ↦ seek_locked env x.0 t
          ])
          (lock_file_granted m)
      ∙ ap (λ (x : Client × Option File). with_device x (λ f. seek_opened env x.0 f t))
          (open_device_granted (locked_by env m))

  pub reply_sent :
      (m : Client) → reply env m ≡ (released (send_rest env (opened_by m) (open_at 0)), leave)
  unfolding reply
  reply_sent m =
      ap
        (λ (x : Client × Option File). with_device x (λ f. (released (send_rest env x.0 f), leave)))
        (open_device_granted m)

  pub device_ioctl_granted :
      (m : Client) (t : SeekTo) (s : Sys) (f : File) (ret : Ret)
      → unlocked_ioctl m.sys (open_at 0) aesdchar_iocseekto t false false ≡ (s, f, ret)
      → device_ioctl env (open_at 0) m t ≡ (record (called m) { sys = s }, f, ret)
  unfolding device_ioctl
  device_ioctl_granted m t s f ret e = rw (device_ioctl, w.quiet, e)

  pub write_all-stored :
      (a : Allocator) (m : Client) (bytes : List ℕ)
      → 0 < length bytes
      → (write a m.sys (open_at 0) (some bytes) false 0).1 ≡ done (length bytes)
      → write_all (device_write a env (open_at 0)) (next_retries env) m bytes
        ≡ (stored a m bytes, some (length bytes))
  unfolding device_write outcome
  write_all-stored a m bytes some_bytes ok =
      let c : ℕ = length bytes - 1 in
      let size : length bytes ≡ suc c = omega (arith, some_bytes) in
      let written : device_write a env (open_at 0) m bytes ≡ (stored a m bytes, moved (suc c)) =
        ap
          (λ (n : ℕ).
            let (s, ret) = write a m.sys (open_at 0) (some bytes) false n in
            (record (called m) { sys = s }, outcome ret))
          (w.whole m.calls)
        ∙ ap (λ (r : Ret). (stored a m bytes, outcome r)) (ok ∙ ap done size) in
      write_all_once (device_write a env (open_at 0)) (next_retries env) bytes m c size
        (ap (λ (x : Client × Outcome). x.1) written)
      ∙ ap (λ (x : Client × Outcome). (x.0, some (length bytes))) written

  pub data_opened-stored :
      (a : Allocator) (m : Client) (bytes : List ℕ)
      → 0 < length bytes
      → (write a m.sys (open_at 0) (some bytes) false 0).1 ≡ done (length bytes)
      → data_opened a env m (open_at 0) bytes ≡ elim (has_newline bytes) [
        | true ↦ reply env (close_file (stored a m bytes))
        | false ↦ (released (stored a m bytes), again)
      ]
  unfolding data_opened all_written
  data_opened-stored a m bytes some_bytes ok =
      ap
        (λ (x : Client × Option ℕ). elim (all_written x.1 (length bytes)) [
          | false ↦ (released x.0, leave)
          | true ↦ elim (has_newline bytes) [
            | true ↦ reply env (close_file x.0)
            | false ↦ (released x.0, again)
          ]
        ])
        (write_all-stored a m bytes some_bytes ok)
      ∙ rw (==_refl (length bytes))
