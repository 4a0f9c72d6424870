-- ===== src/Server/Transfer.antt =====
-- `write_all` of server/aesdsocket_app/src/socket_ops.c, for any descriptor: `call` is the
-- system's `write` on it, and `retries` how often the next call is interrupted before it is
-- answered.
pub mod Sends
use embedded_linux.Common.{
  ℕ, zero, suc, ◌+◌, Bool, true, false, Option, none, some, List, ltb, if◌then◌else◌, length, drop,
}
use embedded_linux.Server.{Outcome, moved, failed}

-- The loop, by the rounds left and the interruptions still to come; the result is -1 or a count.
unfoldable pub write_loop {ℓ} :
    {M : Type ℓ} → (M → List ℕ → M × Outcome) → (M → ℕ) → List ℕ → ℕ → ℕ → M → ℕ → M × Option ℕ
write_loop call retries buf zero r m written = (m, some written)
write_loop call retries buf (suc k) (suc r) m written = elim (ltb written (length buf)) [
  | false ↦ (m, some written)
  | true ↦ write_loop call retries buf (suc k) r m written
]
write_loop call retries buf (suc k) zero m written = elim (ltb written (length buf)) [
  | false ↦ (m, some written)
  | true ↦
      let (t, out) = call m (drop written buf) in
      elim out [
        | failed ↦ (t, none)
        | moved zero ↦ (t, some written)
        | moved (suc n) ↦ write_loop call retries buf k (retries t) t (written + suc n)
      ]
]

-- `write_all(fd, buf, count)`. Every call that is answered moves a byte or is the last one.
unfoldable pub write_all {ℓ} :
    {M : Type ℓ} → (M → List ℕ → M × Outcome) → (M → ℕ) → M → List ℕ → M × Option ℕ
write_all call retries m buf = write_loop call retries buf (suc (length buf)) (retries m) m 0
