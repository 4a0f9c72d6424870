-- ===== src/Server/Tests.antt =====
-- A client of the server, over a device that holds "ab\n".
use mathlib.Core.List.{flatten}
use embedded_linux.Common.{
  ℕ, Bool, ◌-◌, ◌≡◌, ◌⊎◌, refl, true, false, Option, none, some, List, [], ◌∷◌, ◌++◌, arith,
  if◌then◌else◌, drop, get_or,
}
use embedded_linux.Circular.{total_entries, store, add_entry}
use embedded_linux.Memory.{allocated, reallocated, poke, peek, memcpy, kfree}
use embedded_linux.Driver.Ownership.{log}
use embedded_linux.Driver.Buffering.{
  handle_write_buffer, grow_write_buf, new_write_buf, free_oldest, add_to_device,
  handle_complete_command,
}
use embedded_linux.Driver.Write.{has_newline, commit, write_copied, write_locked, write}
use embedded_linux.Driver.Log.{append_bytes}
use embedded_linux.Driver.Read.Stream.{stream}
use embedded_linux.Driver.Seek.{SeekTo}
use embedded_linux.Driver.Idle.{IsIdle}
use embedded_linux.Driver.Tests.{
  pool, one_command, one_command-IsWritten, target_at, target_at-IsTarget,
}
use embedded_linux.Server.{Answers, Client}
use embedded_linux.Server.Session.{again, leave, has_prefix, seek_prefix, receive, handle_client}
use embedded_linux.Server.Session.Held.{IsAt}
use embedded_linux.Server.Session.Balance.{handle_client-IsAt}
use embedded_linux.Server.Session.Sent.{IsWilling}
use embedded_linux.Server.Session.Command.{receive-data, receive-seek}

-- Every call is granted; the socket takes two bytes at a time, a `write` is interrupted once.
abbrev willing : Answers
willing k = record {
  refused = false;
  interrupted = false;
  retries = 1;
  uncopied = 0;
  accepts = 2;
  between = λ s. s;
}

willing-IsWilling : IsWilling willing
willing-IsWilling = record {
  granted = λ k. refl;
  quiet = λ k. refl;
  whole = λ k. refl;
  moves = λ k. omega arith;
}

-- Two numbers of one digit.
abbrev scan_digits : List ℕ → Option SeekTo
scan_digits [] = none
scan_digits (x ∷ []) = none
scan_digits (x ∷ c ∷ []) = none
scan_digits (x ∷ c ∷ y ∷ rest) = some (record { write_cmd = x - 48; write_cmd_offset = y - 48 })

abbrev client : Client
client = record {
  sys = one_command;
  calls = 0;
  sent = [];
  file_locked = false;
  open_files = 0;
  blocks = 1;
  socket_open = true;
  node = none;
}

one_command-IsIdle : IsIdle one_command
one_command-IsIdle = record {
  owned = one_command-IsWritten.owned;
  free = one_command-IsWritten.unlocked;
}

-- "cd\n", and the command to seek to the second byte of the first command.
abbrev cd : List ℕ
cd = 99 ∷ 100 ∷ 10 ∷ []

abbrev seek_0_1 : List ℕ
seek_0_1 = seek_prefix ++ (48 ∷ 44 ∷ 49 ∷ [])

receive-data_example :
    let x = receive pool willing scan_digits client cd in
    let l = append_bytes cd (log one_command) in
    (x.1 ≡ (if has_newline cd then leave else again))
    × (log x.0.sys ≡ l)
    × (x.0.sent ≡ [] ++ (if has_newline cd then stream l else []))
unfolding has_prefix write write_locked write_copied commit has_newline handle_write_buffer
    grow_write_buf new_write_buf handle_complete_command free_oldest add_to_device add_entry store
    total_entries allocated reallocated poke peek memcpy kfree
receive-data_example =
    receive-data pool willing scan_digits client cd willing-IsWilling one_command-IsIdle refl
      (omega arith) refl

receive-seek_example :
    let x = receive pool willing scan_digits client seek_0_1 in
    let commands = (log one_command).commands in
    (x.1 ≡ again)
    × (x.0.sys ≡ one_command)
    × (x.0.sent ≡ [] ++ (drop 1 (get_or commands 0 []) ++ flatten (drop 1 commands)))
unfolding has_prefix
receive-seek_example =
    receive-seek pool willing scan_digits client seek_0_1 target_at willing-IsWilling
      one_command-IsIdle refl refl target_at-IsTarget

handle_client-IsAt_example :
    (node : Option Bool) × ((node ≡ none) ⊎ (node ≡ some true))
    × IsAt false 0
        (0, false, node)
        (handle_client pool willing scan_digits client (seek_0_1 ∷ cd ∷ []))
handle_client-IsAt_example =
    handle_client-IsAt pool willing scan_digits client (seek_0_1 ∷ cd ∷ [])
      (record { keeps = λ k s h. h })
      (record { idle = one_command-IsIdle; mutex = refl; open_now = refl; others = refl })
