-- ===== src/Server/Session/Held.antt =====
-- What a thread holds while it talks to a client, kept by every transfer
-- (server/aesdsocket_app/src/thread_manager.c).
use embedded_linux.Common.{
  ℕ, zero, suc, ◌<◌, ◌≡◌, Bool, true, false, Option, List, inl, inr, Bool-cases, Bool-both,
  Option-both, Nat-both,
}
use embedded_linux.Circular.{size_mod}
use embedded_linux.Memory.{Allocator}
use embedded_linux.Driver.{Sys, File, Ret-both}
use embedded_linux.Driver.Idle.{IsIdle, write-IsIdle, read-IsIdle, read_pos}
use embedded_linux.Driver.Read.{ReadOut, read}
use embedded_linux.Server.{Answers, Client, socket_write, device_write, device_read}
use embedded_linux.Server.Transfer.Sends.{write_all-keeps}
use embedded_linux.Server.Session.{chunk_size, next_retries, send_loop, send_rest}

-- What other threads do leaves the device between two calls in order.
pub record IsCalm (env : Answers) : Type 0 where
  pub keeps : (k : ℕ) (s : Sys) → IsIdle s → IsIdle ((env k).between s)

-- Whether the thread holds the mutex, how many descriptors of the device it has open, and the rest
-- of what it holds: its blocks, the socket, its node in the list.
pub record IsAt (locked : Bool) (files : ℕ) (rest : ℕ × Bool × Option Bool) (m : Client)
    : Type 0 where
  pub idle : IsIdle m.sys
  pub mutex : m.file_locked ≡ locked
  pub open_now : m.open_files ≡ files
  pub others : (m.blocks, m.socket_open, m.node) ≡ rest

module _ {locked : Bool} {files : ℕ} {rest : ℕ × Bool × Option Bool} where
  pub socket_write-IsAt :
      (env : Answers) (m : Client) (bytes : List ℕ)
      → IsAt locked files rest m
      → IsAt locked files rest (socket_write env m bytes).0
  unfolding socket_write
  socket_write-IsAt env m bytes h = elim (Bool-cases (env m.calls).refused) [
    | inl e ↦
        simp (e)
          (record { idle = h.idle; mutex = h.mutex; open_now = h.open_now; others = h.others })
    | inr e ↦
        simp (e)
          (record { idle = h.idle; mutex = h.mutex; open_now = h.open_now; others = h.others })
  ]

  pub device_write-IsAt :
      (a : Allocator) (env : Answers) (f : File) (m : Client) (bytes : List ℕ)
      → IsAt locked files rest m
      → IsAt locked files rest (device_write a env f m bytes).0
  unfolding device_write
  device_write-IsAt a env f m bytes h = record {
    idle = write-IsIdle a m.sys f bytes false (env m.calls).uncopied h.idle;
    mutex = h.mutex;
    open_now = h.open_now;
    others = h.others;
  }

  pub device_read-IsAt :
      (env : Answers) (f : File) (m : Client) (count : ℕ)
      → f.f_pos < size_mod
      → IsAt locked files rest m
      → IsAt locked files rest (device_read env f m count).0
  unfolding device_read
  device_read-IsAt env f m count small h = record {
    idle =
        read-IsIdle m.sys f true count f.f_pos (env m.calls).interrupted (env m.calls).uncopied
          h.idle small;
    mutex = h.mutex;
    open_now = h.open_now;
    others = h.others;
  }

  send_loop-IsAt :
      (env : Answers) (k : ℕ) (m : Client) (f : File)
      → f.f_pos < size_mod
      → IsAt locked files rest m
      → IsAt locked files rest (send_loop env k m f)
  unfolding send_loop read device_read
  send_loop-IsAt env zero m f small h = h
  send_loop-IsAt env (suc k) m f small h =
      let t : Client = (device_read env f m chunk_size).0 in
      let r : ReadOut = (device_read env f m chunk_size).1 in
      let ht : IsAt locked files rest t = device_read-IsAt env f m chunk_size small h in
      let P = IsAt locked files rest in
      Ret-both P r.ret (λ e _. ht)
        (λ n got.
          Nat-both P n (λ _. ht)
            (λ c some_bytes.
              let hu =
                write_all-keeps P (socket_write env) (next_retries env)
                  (λ v bytes hv. socket_write-IsAt env v bytes hv) r.out t ht in
              Bool-both P _ (λ _. hu)
                (λ _.
                  Option-both P r.pos (λ _. hu)
                    (λ q moved_to.
                      send_loop-IsAt env k _ (record f { f_pos = q })
                        (read_pos m.sys f true chunk_size f.f_pos (env m.calls).interrupted
                          (env m.calls).uncopied q small moved_to)
                        hu))))

  pub send_rest-IsAt :
      (env : Answers) (m : Client) (f : File)
      → f.f_pos < size_mod
      → IsAt locked files rest m
      → IsAt locked files rest (send_rest env m f)
  unfolding send_rest
  send_rest-IsAt env m f small h = send_loop-IsAt env _ m f small h
