-- ===== src/Server/Session/Sent.antt =====
-- What reaches the client's socket when the system grants every call
-- (server/aesdsocket_app/src/thread_manager.c).
use mathlib.Core.Path.{subst}
use embedded_linux.Common.{
  ℕ, zero, suc, ◌+◌, ◌-◌, ◌≤◌, ◌<◌, ◌≡◌, refl, sym, ap, ap₂, ◌∙◌, false, Option, some, List, [],
  ◌∷◌, ◌++◌, arith, inl, inr, ltb, ltb→lt, Bool-cases, length, drop, take, min, append_assoc,
  append-nil, length-drop, drop-nil, take-nil, drop-all,
}
use embedded_linux.Server.{Answers, Client, Outcome, moved, called, socket_write}
use embedded_linux.Server.Transfer.{write_loop, write_all}
use embedded_linux.Server.Transfer.Sends.{write_loop_done, write_loop_retry, write_loop_moved}
use embedded_linux.Server.Session.{next_retries}

-- Every call is granted, and moves something; interruptions that are repeated may come.
pub record IsWilling (env : Answers) : Type 0 where
  pub granted : (k : ℕ) → (env k).refused ≡ false
  pub quiet : (k : ℕ) → (env k).interrupted ≡ false
  pub whole : (k : ℕ) → (env k).uncopied ≡ 0
  pub moves : (k : ℕ) → 0 < (env k).accepts

-- The bytes went to the socket, all of them, and the device was left alone.
pub record IsSent (m : Client) (bytes : List ℕ) (t : Client) : Type 0 where
  pub sent : t.sent ≡ m.sent ++ bytes
  pub sys : t.sys ≡ m.sys

pub take-drop : {A : Type 0} (n : ℕ) (xs : List A) → take n xs ++ drop n xs ≡ xs
take-drop zero xs = refl
take-drop (suc n) [] = refl
take-drop (suc n) (x ∷ xs) = ap (λ l. x ∷ l) (take-drop n xs)

pub drop-drop : {A : Type 0} (m n : ℕ) (xs : List A) → drop n (drop m xs) ≡ drop (m + n) xs
drop-drop zero n xs = ap (λ k. drop k xs) (omega arith)
drop-drop (suc m) n [] = drop-nil n ∙ sym (drop-nil (suc m + n))
drop-drop (suc m) n (x ∷ xs) =
    drop-drop m n xs ∙ ap (λ k. drop k (x ∷ xs)) {x = suc (m + n)} (omega arith)

take-min : {A : Type 0} (n : ℕ) (xs : List A) → take n xs ≡ take (min n (length xs)) xs
take-min zero xs = ap (λ k. take k xs) {x = 0} {y = min 0 (length xs)} (omega arith)
take-min (suc n) [] = sym (take-nil (min (suc n) 0))
take-min (suc n) (x ∷ xs) =
    ap (λ l. x ∷ l) (take-min n xs)
    ∙ ap (λ k. take k (x ∷ xs)) {x = suc (min n (length xs))} (omega arith)

-- All of `buf` has gone, the part from n on during this loop.
abbrev IsDelivered : List ℕ → Client → ℕ → Client × Option ℕ → Type 0
IsDelivered buf m n x = (x.1 ≡ some (length buf)) × IsSent m (drop n buf) x.0

module _ (env : Answers) (w : IsWilling env) (buf : List ℕ) where
  write_loop-sends_end :
      (k r : ℕ) (m : Client) (n : ℕ)
      → n ≤ length buf
      → ltb n (length buf) ≡ false
      → IsDelivered buf m n (write_loop (socket_write env) (next_retries env) buf (suc k) r m n)
  write_loop-sends_end k r m n l all =
      let end : n ≡ length buf = ground arith in
      let nothing : drop n buf ≡ [] = drop-all n buf (omega (arith, end)) in
      subst (IsDelivered buf m n)
        (sym (write_loop_done (socket_write env) (next_retries env) buf k r m n all))
        (
          ap (λ (k : ℕ). some k) end,
          record { sent = sym (ap (λ l. m.sent ++ l) nothing ∙ append-nil m.sent); sys = refl },
        )

  write_loop-sends :
      (k r : ℕ) (m : Client) (written : ℕ)
      → length buf < written + k
      → written ≤ length buf
      → IsDelivered buf m written
          (write_loop (socket_write env) (next_retries env) buf k r m written)
  unfolding socket_write
  write_loop-sends zero r m n h l = absurd (omega arith)
  write_loop-sends (suc k) zero m n h l = elim (Bool-cases (ltb n (length buf))) [
    | inr all ↦ write_loop-sends_end k 0 m n l all
    | inl more ↦
        let below : n < length buf = ltb→lt _ _ more in
        let x : List ℕ = drop n buf in
        let a : ℕ = (env m.calls).accepts in
        let c : ℕ = min a (length x) in
        let sizes : length x ≡ length buf - n = length-drop n buf in
        let some_moved : 0 < c = omega (arith, below, sizes, w.moves m.calls) in
        let j : ℕ = c - 1 in
        let is_suc : c ≡ suc j = omega (arith, some_moved) in
        let t : Client = record (called m) { sent = m.sent ++ take a x } in
        let call : socket_write env m x ≡ (t, moved c) = simp (socket_write, w.granted) in
        let out : (socket_write env m x).1 ≡ moved (suc j) =
          ap (λ (y : Client × Outcome). y.1) call ∙ ap moved is_suc in
        let after : (socket_write env m x).0 ≡ t = ap (λ (y : Client × Outcome). y.0) call in
        let run = write_loop_moved (socket_write env) (next_retries env) buf k m n more j out in
        let rest =
          write_loop-sends k (next_retries env t) t (n + suc j) (omega (arith, h))
            (omega (arith, below, sizes, is_suc)) in
        let text : (m.sent ++ take a x) ++ drop (n + suc j) buf ≡ m.sent ++ x =
          append_assoc m.sent (take a x) (drop (n + suc j) buf)
          ∙ ap (λ l. m.sent ++ l)
              (ap₂ (λ p q. p ++ q) (take-min a x)
                  (sym (drop-drop n (suc j) buf) ∙ ap (λ k. drop k x) (sym is_suc))
                ∙ take-drop c x) in
        subst (IsDelivered buf m n)
          (sym (
            run
            ∙ ap
                (λ u.
                  write_loop (socket_write env) (next_retries env) buf k (next_retries env u) u
                    (n + suc j))
                after))
          (rest.0, record { sent = rest.1.sent ∙ text; sys = rest.1.sys })
  ]
  write_loop-sends (suc k) (suc r) m n h l = elim (Bool-cases (ltb n (length buf))) [
    | inr all ↦ write_loop-sends_end k (suc r) m n l all
    | inl more ↦
        subst (IsDelivered buf m n)
          (sym (write_loop_retry (socket_write env) (next_retries env) buf k r m n more))
          (write_loop-sends (suc k) r m n h l)
  ]

  pub write_all-sends :
      (m : Client)
      → let x = write_all (socket_write env) (next_retries env) m buf in
        (x.1 ≡ some (length buf)) × IsSent m buf x.0
  unfolding write_all
  write_all-sends m =
      write_loop-sends (suc (length buf)) (next_retries env m) m 0 (omega arith) (omega arith)
