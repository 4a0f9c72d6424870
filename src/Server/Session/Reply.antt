-- ===== src/Server/Session/Reply.antt =====
-- The answer of the server to a client (server/aesdsocket_app/src/thread_manager.c): the stream of
-- the device, from its start or from where a command to seek leads.
use mathlib.Core.Path.{subst}
use embedded_linux.Common.{
  zero-or-suc, ==_refl, ℕ, zero, suc, ◌+◌, ◌-◌, ◌≤◌, ◌<◌, ◌≡◌, refl, sym, ap, ap₂, ◌∙◌, true, some,
  List, [], ◌++◌, arith, inl, inr, length, drop, append_assoc, append-nil, length-take, length-drop,
  drop-all,
}
use embedded_linux.Circular.{size_mod}
use embedded_linux.Driver.{done, Sys, File, unlock}
use embedded_linux.Driver.Ownership.{log}
use embedded_linux.Driver.Idle.{IsIdle}
use embedded_linux.Driver.Read.{ReadOut, read}
use embedded_linux.Driver.Read.Stream.{stream}
use embedded_linux.Driver.Read.Refine.{IsRead, read-IsRead}
use embedded_linux.Driver.Seek.{total_buffer_size}
use embedded_linux.Driver.Seek.Position.{total_lem}
use embedded_linux.Server.{Answers, Client, called, socket_write, device_read}
use embedded_linux.Server.Transfer.{write_all}
use embedded_linux.Server.Session.{chunk_size, next_retries, all_written, send_loop, send_rest}
use embedded_linux.Server.Session.Sent.{IsWilling, IsSent, write_all-sends, take-drop, drop-drop}

pub unlock_idle : {s : Sys} → IsIdle s → unlock s ≡ s
unlock_idle {s} h = λ i. record s { dev = record (s.dev) { locked = sym h.free i } }

-- What one `read` of the device is, in a willing system.
abbrev pub open_at : ℕ → File
open_at pos = record { private_data = true; f_pos = pos }

-- One round of the loop, by what `read` returns.
module _ (env : Answers) (k : ℕ) (m : Client) (f : File) where
  send_loop_end :
      (device_read env f m chunk_size).1.ret ≡ done 0
      → send_loop env (suc k) m f ≡ (device_read env f m chunk_size).0
  unfolding send_loop
  send_loop_end e = rw (send_loop, e)

  send_loop_more :
      (n pos : ℕ)
      → (device_read env f m chunk_size).1.ret ≡ done (suc n)
      → (device_read env f m chunk_size).1.pos ≡ some pos
      → (write_all
          (socket_write env)
          (next_retries env)
          (device_read env f m chunk_size).0
          (device_read env f m chunk_size).1.out).1
        ≡ some (suc n)
      → send_loop env (suc k) m f
        ≡ send_loop env k
            (write_all
              (socket_write env)
              (next_retries env)
              (device_read env f m chunk_size).0
              (device_read env f m chunk_size).1.out).0
            (record f { f_pos = pos })
  unfolding send_loop all_written
  send_loop_more n pos e p c = rw (send_loop, e, c, all_written, ==_refl (suc n), p)

module _ (env : Answers) (w : IsWilling env) where
  device_read-IsRead :
      (m : Client) (pos : ℕ)
      → IsIdle m.sys
      → pos < size_mod
      → IsRead m.sys chunk_size pos (device_read env (open_at pos) m chunk_size).1
  unfolding device_read
  device_read-IsRead m pos h small =
      let r = read-IsRead {s = m.sys} (open_at pos) chunk_size pos h.owned refl small in
      subst (IsRead m.sys chunk_size pos)
        (ap₂ (λ i u. read m.sys (open_at pos) true chunk_size (some pos) i u)
          (sym (w.quiet m.calls)) (sym (w.whole m.calls)))
        r

  device_read-keeps :
      (m : Client) (pos : ℕ)
      → (device_read env (open_at pos) m chunk_size).0
        ≡ record (called m) { sys = (device_read env (open_at pos) m chunk_size).1.sys }
  unfolding device_read
  device_read-keeps m pos = refl

  send_loop-IsSent :
      (k : ℕ) (m : Client) (pos : ℕ)
      → IsIdle m.sys
      → length (stream (log m.sys)) < pos + k
      → pos ≤ length (stream (log m.sys))
      → IsSent m (drop pos (stream (log m.sys))) (send_loop env k m (open_at pos))
  send_loop-IsSent zero m pos h l p = absurd (omega arith)
  send_loop-IsSent (suc k) m pos h l p =
      let text : List ℕ = stream (log m.sys) in
      let r : ReadOut = (device_read env (open_at pos) m chunk_size).1 in
      let small = (total_lem h.owned).1 in
      let read : IsRead m.sys chunk_size pos r =
        device_read-IsRead m pos h (omega (arith, small)) in
      let t : Client = (device_read env (open_at pos) m chunk_size).0 in
      let kept : t.sent ≡ m.sent = ap (λ (c : Client). c.sent) (device_read-keeps m pos) in
      let same : t.sys ≡ m.sys =
        ap (λ (c : Client). c.sys) (device_read-keeps m pos) ∙ read.sys ∙ unlock_idle h in
      elim (zero-or-suc (length r.out)) [
        | inl z ↦
            let past : drop pos text ≡ [] = drop-all pos text (grind (arith, z, read.progress)) in
            subst (IsSent m (drop pos text))
              (sym (send_loop_end env k m (open_at pos) (read.ret ∙ ap done z)))
              (record {
                sent = kept ∙ sym (ap (λ l. m.sent ++ l) past ∙ append-nil m.sent);
                sys = same;
              })
        | inr (n, e) ↦
            let (count, gone) = write_all-sends env w r.out t in
            let u : Client = (write_all (socket_write env) (next_retries env) t r.out).0 in
            let next : ℕ = pos + length r.out in
            let at : u.sys ≡ m.sys = gone.sys ∙ same in
            let have : length r.out ≤ length text - pos = omega (
              arith,
              ap (λ l. length l) read.bytes,
              length-take (length r.out) (drop pos text),
              length-drop pos text,
            ) in
            let rest : IsSent u (drop next (stream (log u.sys)))
                (send_loop env k u (open_at next)) =
              send_loop-IsSent k u next (subst IsIdle (sym at) h)
                (omega (arith, l, e, ap (λ s. length (stream (log s))) at))
                (omega (arith, have, p, ap (λ s. length (stream (log s))) at)) in
            let run =
              send_loop_more env k m (open_at pos) n next (read.ret ∙ ap done e) read.moved
                (count ∙ ap some e) in
            subst (IsSent m (drop pos text)) (sym run) (record {
              sent =
                  rest.sent
                  ∙ ap₂ (λ p q. p ++ q) (gone.sent ∙ ap (λ l. l ++ r.out) kept)
                      (ap (λ (s : Sys). drop next (stream (log s))) at)
                  ∙ append_assoc m.sent r.out (drop next text)
                  ∙ ap (λ l. m.sent ++ l)
                      (ap₂ (λ p q. p ++ q) read.bytes (sym (drop-drop pos (length r.out) text))
                        ∙ take-drop (length r.out) (drop pos text));
              sys = rest.sys ∙ at;
            })
      ]

  pub send_rest-IsSent :
      (m : Client) (pos : ℕ)
      → IsIdle m.sys
      → pos ≤ length (stream (log m.sys))
      → IsSent m (drop pos (stream (log m.sys))) (send_rest env m (open_at pos))
  unfolding send_rest
  send_rest-IsSent m pos h p =
      send_loop-IsSent (suc (total_buffer_size m.sys.dev.buffer)) m pos h
        (omega (arith, (total_lem h.owned).0)) p
