-- ===== src/Server.antt =====
-- The socket server of server/aesdsocket_app/src, built over the character device: the thread that
-- serves one client, and the system calls that it makes. What the system answers is `Answers`, by
-- the number of the calls made before: whether a call is refused, how often it is interrupted
-- before (the code repeats an interrupted `write`), and how many bytes it moves or leaves
-- uncopied; and what other threads did to the device before.
pub mod Transfer
pub mod Session
pub mod Threads
pub mod Main
mod Tests
use embedded_linux.Common.{
  ℕ, suc, ◌+◌, ◌-◌, Bool, true, false, Option, none, some, List, ◌++◌, if◌then◌else◌, length, min,
  take,
}
use embedded_linux.Memory.{Allocator}
use embedded_linux.Driver.{Ret, done, error, Sys, File}
use embedded_linux.Driver.Write.{write}
use embedded_linux.Driver.Read.{ReadOut, read}
use embedded_linux.Driver.Seek.{SeekTo, aesdchar_iocseekto, unlocked_ioctl}

pub record Answer : Type 0 where
  pub refused : Bool
  pub interrupted : Bool
  pub retries : ℕ
  pub uncopied : ℕ
  pub accepts : ℕ
  pub between : Sys → Sys

abbrev pub Answers : Type 0
Answers = ℕ → Answer

-- The thread's view of the system: the device, the calls made, what reached the client's socket,
-- the mutex `file_mutex`, the descriptors of the device that are open, the thread's blocks from
-- `malloc` (its `thread_data_t` and the buffer), whether the socket is open, and its node in the
-- list of threads with the flag `completed`.
pub record Client : Type 0 where
  pub sys : Sys
  pub calls : ℕ
  pub sent : List ℕ
  pub file_locked : Bool
  pub open_files : ℕ
  pub blocks : ℕ
  pub socket_open : Bool
  pub node : Option Bool

-- What a call of `write` returns when it is not interrupted.
pub data Outcome : Type 0 where
  moved : ℕ → Outcome
  failed : Outcome

abbrev pub called : Client → Client
called m = record m { calls = suc m.calls }

-- `pthread_mutex_lock(&file_mutex)`, and whether it returned 0. Until then other threads had the
-- device (`between`); no other thread of the server uses it while this one holds the mutex.
unfoldable pub lock_file : Answers → Client → Client × Bool
lock_file env m =
    if (env m.calls).refused
    then (called m, false)
    else (record (called m) { file_locked = true; sys = (env m.calls).between m.sys }, true)

abbrev pub unlock_file : Client → Client
unlock_file m = record m { file_locked = false }

-- `open(FILE_PATH, ..)`: the driver's `aesd_open` stores the device in `private_data`.
unfoldable pub open_device : Answers → Client → Client × Option File
open_device env m = if (env m.calls).refused then (called m, none) else (
  record (called m) { open_files = suc m.open_files },
  some (record { private_data = true; f_pos = 0 }),
)

abbrev pub close_file : Client → Client
close_file m = record m { open_files = m.open_files - 1 }

-- `write(fd, bytes, ..)` on the client's socket.
unfoldable pub socket_write : Answers → Client → List ℕ → Client × Outcome
socket_write env m bytes = if (env m.calls).refused then (called m, failed) else (
  record (called m) { sent = m.sent ++ take (env m.calls).accepts bytes },
  moved (min (env m.calls).accepts (length bytes)),
)

unfoldable pub outcome : Ret → Outcome
outcome (done n) = moved n
outcome (error e) = failed

-- `write(fd, bytes, ..)` on the device.
unfoldable pub device_write : Allocator → Answers → File → Client → List ℕ → Client × Outcome
device_write a env f m bytes =
    let (s, ret) = write a m.sys f (some bytes) false (env m.calls).uncopied in
    (record (called m) { sys = s }, outcome ret)

-- `read(fd, buffer, count)` on the device.
unfoldable pub device_read : Answers → File → Client → ℕ → Client × ReadOut
device_read env f m count =
    let r =
      read m.sys f true count (some f.f_pos) (env m.calls).interrupted (env m.calls).uncopied in
    (record (called m) { sys = r.sys }, r)

-- `ioctl(fd, AESDCHAR_IOCSEEKTO, &seekto)`.
unfoldable pub device_ioctl : Answers → File → Client → SeekTo → Client × File × Ret
device_ioctl env f m t =
    let (s, f', ret) =
      unlocked_ioctl m.sys f aesdchar_iocseekto t false (env m.calls).interrupted in
    (record (called m) { sys = s }, f', ret)
