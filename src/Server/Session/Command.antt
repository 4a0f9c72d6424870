-- ===== src/Server/Session/Command.antt =====
-- What a client's command does (server/aesdsocket_app/src/thread_manager.c): bytes are written to
-- the device and answered with all it holds, a command to seek is answered with what stands from
-- its target on.
use mathlib.Core.Path.{subst}
use mathlib.Core.List.{flatten}
use embedded_linux.Common.{
  inl, inr, ℕ, suc, ◌<◌, ◌≡◌, refl, sym, ap, ◌∙◌, Bool, true, false, Option, some, List, [], ◌++◌,
  arith, Bool-cases, length, if◌then◌else◌, drop, append-nil, length-drop, length-append, get_or,
}
use embedded_linux.Memory.{Allocator}
use embedded_linux.Driver.{Ret, done, error, File, unlock}
use embedded_linux.Driver.Ownership.{log}
use embedded_linux.Driver.Log.{append_bytes}
use embedded_linux.Driver.Idle.{IsIdle, write-IsIdle}
use embedded_linux.Driver.Write.{write, has_newline}
use embedded_linux.Driver.Write.Refine.{IsLogged, write-IsWritten}
use embedded_linux.Driver.Read.Stream.{stream}
use embedded_linux.Driver.Seek.{SeekTo}
use embedded_linux.Driver.Seek.Command.{IsTarget, unlocked_ioctl_lem}
use embedded_linux.Server.{Answers, Client, called, close_file}
use embedded_linux.Server.Session.{
  Next, again, leave, send_rest, seek_opened, has_prefix, seek_prefix, data_received, receive,
}
use embedded_linux.Server.Session.Sent.{IsWilling, IsSent}
use embedded_linux.Server.Session.Reply.{open_at, unlock_idle, send_rest-IsSent}
use embedded_linux.Server.Session.Granted.{
  found, opened_by, held, released, data_received_opened, seek_command_opened, reply_sent,
  device_ioctl_granted, stored, data_opened-stored,
}

module _ (env : Answers) (w : IsWilling env) where
  seek_opened_lem :
      (m : Client) (t : SeekTo)
      → IsIdle m.sys
      → IsTarget (log m.sys).commands t
      → let x = seek_opened env m (open_at 0) t in
        (x.1 ≡ again)
        × IsSent m
            (drop t.write_cmd_offset (get_or (log m.sys).commands t.write_cmd [])
              ++ flatten (drop (suc t.write_cmd) (log m.sys).commands))
            x.0
  unfolding seek_opened
  seek_opened_lem m t h target =
      let command : List ℕ = get_or (log m.sys).commands t.write_cmd [] in
      let rest : List ℕ = drop t.write_cmd_offset command in
      let later : List ℕ = flatten (drop (suc t.write_cmd) (log m.sys).commands) in
      let (p, accepted, reaches) = unlocked_ioctl_lem (open_at 0) t h.owned refl target in
      let u : Client = record (called m) { sys = unlock m.sys } in
      let io = device_ioctl_granted env w m t (unlock m.sys) (open_at p) (done 0) accepted in
      let same : u.sys ≡ m.sys = unlock_idle h in
      let gone = send_rest-IsSent env w u p (subst IsIdle (sym same) h) (
        omega (
          arith,
          target.1,
          ap (λ l. length l) reaches,
          length-drop p (stream (log m.sys)),
          length-append rest later,
          length-drop t.write_cmd_offset command,
        )) in
      let run : seek_opened env m (open_at 0) t ≡ (released (send_rest env u (open_at p)), again) =
        ap
          (λ (x : Client × File × Ret). elim (x.2) [
            | error e ↦ (released x.0, leave)
            | done n ↦ (released (send_rest env x.0 x.1), again)
          ])
          io in
      subst (λ (x : Client × Next). (x.1 ≡ again) × IsSent m (rest ++ later) x.0) (sym run)
        (refl, record { sent = gone.sent ∙ ap (λ l. m.sent ++ l) reaches; sys = gone.sys ∙ same })

  log-stored :
      (a : Allocator) (m : Client) (bytes : List ℕ)
      → IsIdle m.sys
      → (write a m.sys (open_at 0) (some bytes) false 0).1 ≡ done (length bytes)
      → log (stored a m bytes).sys ≡ append_bytes bytes (log m.sys)
  log-stored a m bytes h ok =
      let written = write-IsWritten a {s = m.sys} (open_at 0) bytes false 0 h.owned h.free in
      (subst (IsLogged bytes (log m.sys) (stored a m bytes).sys) ok written.logged).1

  -- What a client is told about its bytes, by the log after them.
  abbrev IsAnswer : Client → List ℕ → Bool → Client × Next → Type 0
  IsAnswer m bytes newline x =
      (x.1 ≡ (if newline then leave else again))
      × (log x.0.sys ≡ append_bytes bytes (log (found env m)))
      × (x.0.sent
          ≡ m.sent ++ (if newline then stream (append_bytes bytes (log (found env m))) else []))

  data_received-IsAnswer :
      (a : Allocator) (m : Client) (bytes : List ℕ)
      → IsIdle (found env m)
      → 0 < length bytes
      → (write a (found env m) (open_at 0) (some bytes) false 0).1 ≡ done (length bytes)
      → IsAnswer m bytes (has_newline bytes) (data_received a env m bytes)
  data_received-IsAnswer a m bytes h some_bytes ok =
      let run =
        data_received_opened env w a m bytes
        ∙ data_opened-stored env w a (held env m) bytes some_bytes ok in
      let u : Client = stored a (held env m) bytes in
      let logged = log-stored a (held env m) bytes h ok in
      let idle = write-IsIdle a (found env m) (open_at 0) bytes false 0 h in
      let P : Client × Next → Type 0 = IsAnswer m bytes (has_newline bytes) in
      elim (Bool-cases (has_newline bytes)) [
        | inr none_ends ↦
            let end : data_received a env m bytes ≡ (released u, again) = run ∙ rw (none_ends) in
            subst P (sym end) (
              subst (λ b. IsAnswer m bytes b (released u, again)) (sym none_ends)
                (refl, logged, sym (append-nil m.sent)))
        | inl ends ↦
            let v : Client = opened_by (close_file u) in
            let gone = send_rest-IsSent env w v 0 idle (omega arith) in
            let end : data_received a env m bytes
                ≡ (released (send_rest env v (open_at 0)), leave) =
              run ∙ rw (ends) (reply_sent env w (close_file u)) in
            subst P (sym end) (
              subst (λ b. IsAnswer m bytes b (released (send_rest env v (open_at 0)), leave))
                (sym ends)
                (
                  refl,
                  ap (λ s. log s) gone.sys ∙ logged,
                  gone.sent ∙ ap (λ l. m.sent ++ stream l) logged,
                ))
      ]

-- When the system grants every call (`IsWilling`: none is refused or cut short for good, though
-- the socket may take the bytes in parts and calls may be interrupted and repeated), a thread that
-- receives bytes, at least one and not beginning with "AESDCHAR_IOCSEEKTO:", which the device, in
-- order and idle when the thread gets the mutex (`found`), accepts, appends them to the log. If
-- they hold a newline it sends the client the whole stream of the device and leaves its loop,
-- otherwise it sends nothing and goes on.
pub receive-data :
    (a : Allocator) (env : Answers) (scan : List ℕ → Option SeekTo) (m : Client) (bytes : List ℕ)
    → IsWilling env
    → IsIdle (found env m)
    → has_prefix seek_prefix bytes ≡ false
    → 0 < length bytes
    → (write a (found env m) (open_at 0) (some bytes) false 0).1 ≡ done (length bytes)
    → let x = receive a env scan m bytes in
      let l = append_bytes bytes (log (found env m)) in
      (x.1 ≡ (if has_newline bytes then leave else again))
      × (log x.0.sys ≡ l)
      × (x.0.sent ≡ m.sent ++ (if has_newline bytes then stream l else []))
unfolding receive
receive-data a env scan m bytes w h other some_bytes ok =
    let run : receive a env scan m bytes ≡ data_received a env m bytes = rw (receive, other) in
    subst (IsAnswer env w m bytes (has_newline bytes)) (sym run)
      (data_received-IsAnswer env w a m bytes h some_bytes ok)

-- When the system grants every call (`IsWilling`), a thread that receives a command to seek whose
-- numbers name a byte of a command in the device as the thread finds it with the mutex (`found`),
-- in order and idle, sends the client that command from that byte on and all the commands after
-- it, leaves the device as it was, and goes on.
pub receive-seek :
    (a : Allocator) (env : Answers) (scan : List ℕ → Option SeekTo) (m : Client) (bytes : List ℕ)
    (t : SeekTo)
    → IsWilling env
    → IsIdle (found env m)
    → has_prefix seek_prefix bytes ≡ true
    → scan (drop 19 bytes) ≡ some t
    → IsTarget (log (found env m)).commands t
    → let x = receive a env scan m bytes in
      let commands = (log (found env m)).commands in
      (x.1 ≡ again)
      × (x.0.sys ≡ found env m)
      × (x.0.sent
          ≡ m.sent
            ++ (drop t.write_cmd_offset (get_or commands t.write_cmd [])
                ++ flatten (drop (suc t.write_cmd) commands)))
unfolding receive
receive-seek a env scan m bytes t w h seek e target =
    let (goes_on, sent) = seek_opened_lem env w (held env m) t h target in
    let commands = (log (found env m)).commands in
    let run : receive a env scan m bytes ≡ seek_opened env (held env m) (open_at 0) t =
      rw (receive, seek) (seek_command_opened env w scan m bytes t e) in
    subst
      (λ (x : Client × Next).
        (x.1 ≡ again)
        × (x.0.sys ≡ found env m)
        × (x.0.sent
            ≡ m.sent
              ++ (drop t.write_cmd_offset (get_or commands t.write_cmd [])
                  ++ flatten (drop (suc t.write_cmd) commands))))
      (sym run) (goes_on, sent.sys, sent.sent)
