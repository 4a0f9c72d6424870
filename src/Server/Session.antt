-- ===== src/Server/Session.antt =====
-- `handle_client` of server/aesdsocket_app/src/thread_manager.c.
pub mod Held
pub mod Done
pub mod Balance
pub mod Sent
pub mod Reply
pub mod Granted
pub mod Command
use embedded_linux.Common.{
  ℕ, zero, suc, ◌+◌, ◌-◌, Bool, true, false, not, Option, none, some, List, [], ◌∷◌, ◌==◌,
  if◌then◌else◌, length, take, drop,
}
use embedded_linux.Memory.{Allocator}
use embedded_linux.Driver.{Ret, done, error, Sys, File}
use embedded_linux.Driver.Write.{has_newline}
use embedded_linux.Driver.Read.{ReadOut}
use embedded_linux.Driver.Seek.{SeekTo, total_buffer_size}
use embedded_linux.Server.{
  Answers, Client, called, lock_file, unlock_file, open_device, close_file, socket_write,
  device_write, device_read, device_ioctl,
}
use embedded_linux.Server.Transfer.{write_all}

-- The loop goes on, or is left.
pub data Next : Type 0 where
  again leave : Next

-- `buffer_size - 1`
abbrev pub chunk_size : ℕ
chunk_size = 1023

abbrev pub next_retries : Answers → Client → ℕ
next_retries env m = (env m.calls).retries

-- `write_all(data->client_socket, ..)` moved the whole of n bytes.
unfoldable pub all_written : Option ℕ → ℕ → Bool
all_written none n = false
all_written (some k) n = k == n

-- `while ((n = read(file_desc, buffer, ..)) > 0) write_all(client_socket, buffer, n)`, by the
-- rounds left.
unfoldable pub send_loop : Answers → ℕ → Client → File → Client
send_loop env zero m f = m
send_loop env (suc k) m f =
    let (t, r) = device_read env f m chunk_size in
    elim (r.ret) [
      | error e ↦ t
      | done zero ↦ t
      | done (suc n) ↦
          let (u, count) = write_all (socket_write env) (next_retries env) t r.out in
          elim (all_written count (suc n)) [
            | false ↦ u
            | true ↦ elim (r.pos) [
              | none ↦ u
              | some pos ↦ send_loop env k u (record f { f_pos = pos })
            ]
          ]
    ]

-- One round more than there are bytes in the device: a read that is not the last gives a byte.
unfoldable pub send_rest : Answers → Client → File → Client
send_rest env m f = send_loop env (suc (total_buffer_size m.sys.dev.buffer)) m f

-- A command to seek, with the device open.
unfoldable pub seek_opened : Answers → Client → File → SeekTo → Client × Next
seek_opened env m f t =
    let (u, f', ret) = device_ioctl env f m t in
    elim ret [
      | error e ↦ (unlock_file (close_file u), leave)
      | done n ↦ (unlock_file (close_file (send_rest env u f')), again)
    ]

-- A command to seek, under the mutex.
unfoldable pub seek_locked : Answers → Client → SeekTo → Client × Next
seek_locked env m t =
    let (u, file) = open_device env m in
    elim file [ none ↦ (unlock_file u, leave) | some f ↦ seek_opened env u f t ]

-- `AESDCHAR_IOCSEEKTO:X,Y`; `scan` is `sscanf(.., "%u,%u", ..)`, none unless it converts both.
unfoldable pub seek_command_received :
    Answers → (List ℕ → Option SeekTo) → Client → List ℕ → Client × Next
seek_command_received env scan m bytes = elim (scan (drop 19 bytes)) [
  | none ↦ (m, leave)
  | some t ↦
      let (u, locked) = lock_file env m in
      elim locked [ false ↦ (u, leave) | true ↦ seek_locked env u t ]
]

-- The device is opened again to be read from its start, and sent to the client.
unfoldable pub reply : Answers → Client → Client × Next
reply env m =
    let (u, file) = open_device env m in
    elim file [
      | none ↦ (unlock_file u, leave)
      | some f ↦ (unlock_file (close_file (send_rest env u f)), leave)
    ]

-- Bytes to write, with the device open.
unfoldable pub data_opened : Allocator → Answers → Client → File → List ℕ → Client × Next
data_opened a env m f bytes =
    let (u, count) = write_all (device_write a env f) (next_retries env) m bytes in
    elim (all_written count (length bytes)) [
      | false ↦ (unlock_file (close_file u), leave)
      | true ↦ elim (has_newline bytes) [
        | true ↦ reply env (close_file u)
        | false ↦ (unlock_file (close_file u), again)
      ]
    ]

-- Bytes to write.
unfoldable pub data_received : Allocator → Answers → Client → List ℕ → Client × Next
data_received a env m bytes =
    let (u, locked) = lock_file env m in
    elim locked [
      | false ↦ (u, leave)
      | true ↦
          let (v, file) = open_device env u in
          elim file [ none ↦ (unlock_file v, leave) | some f ↦ data_opened a env v f bytes ]
    ]

-- "AESDCHAR_IOCSEEKTO:"
abbrev pub seek_prefix : List ℕ
seek_prefix =
    65 ∷ 69 ∷ 83 ∷ 68 ∷ 67 ∷ 72 ∷ 65 ∷ 82 ∷ 95 ∷ 73 ∷ 79 ∷ 67 ∷ 83 ∷ 69 ∷ 69 ∷ 75 ∷ 84 ∷ 79 ∷ 58
    ∷ []

-- `strncmp(buffer, "AESDCHAR_IOCSEEKTO:", 19) == 0` for the bytes of a buffer that a zero byte
-- ends.
unfoldable pub has_prefix : List ℕ → List ℕ → Bool
has_prefix [] bytes = true
has_prefix (c ∷ cs) [] = false
has_prefix (c ∷ cs) (b ∷ bs) = if c == b then has_prefix cs bs else false

-- One round of the receive loop.
unfoldable pub receive :
    Allocator → Answers → (List ℕ → Option SeekTo) → Client → List ℕ → Client × Next
receive a env scan m bytes =
    if has_prefix seek_prefix bytes
    then seek_command_received env scan m bytes
    else data_received a env m bytes

-- The receive loop: what `recv` returns, in order. Nothing, or an empty result, is the end of the
-- connection or an error.
unfoldable pub receive_loop :
    Allocator → Answers → (List ℕ → Option SeekTo) → Client → List (List ℕ) → Client
receive_loop a env scan m [] = m
receive_loop a env scan m ([] ∷ chunks) = m
receive_loop a env scan m ((b ∷ bytes) ∷ chunks) =
    let (u, next) = receive a env scan m (b ∷ bytes) in
    elim next [ leave ↦ u | again ↦ receive_loop a env scan u chunks ]

-- `add_thread_to_list(self)`: the node, unless `malloc` refuses.
unfoldable pub add_node : Answers → Client → Client
add_node env m = record (called m) { node = if (env m.calls).refused then none else some false }

-- `my_node->completed = 1`, if there is a node.
abbrev pub mark_completed : Option Bool → Option Bool
mark_completed none = none
mark_completed (some _) = some true

-- The label `cleanup`: the node, if there is one, is marked completed.
unfoldable pub finish : ℕ → Client → Client
finish blocks m = record m {
  blocks = m.blocks - blocks;
  socket_open = false;
  node = mark_completed m.node;
}

-- `handle_client(arg)`. `free(NULL)` frees nothing.
unfoldable pub handle_client :
    Allocator → Answers → (List ℕ → Option SeekTo) → Client → List (List ℕ) → Client
handle_client a env scan m chunks =
    let u = add_node env m in
    if (env u.calls).refused
    then finish 1 (called u)
    else finish 2 (receive_loop a env scan (record (called u) { blocks = suc u.blocks }) chunks)
