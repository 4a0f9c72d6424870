-- ===== src/Server/Transfer/Sends.antt =====
-- What `write_all` (server/aesdsocket_app/src/socket_ops.c) leaves, for any descriptor and then
-- for the client's socket.
use mathlib.Core.Path.{subst}
use embedded_linux.Common.{
  ℕ, zero, suc, ◌+◌, ◌≡◌, ◌⊎◌, inl, inr, refl, sym, ap, ◌∙◌, true, false, Option, none, some, List,
  arith, ltb, Bool-cases, length, drop,
}
use embedded_linux.Server.{Outcome, moved, failed}
use embedded_linux.Server.Transfer.{write_loop, write_all}

pub Outcome-cases : (o : Outcome) → (o ≡ failed) ⊎ ((o ≡ moved 0) ⊎ ((n : ℕ) × (o ≡ moved (suc n))))
Outcome-cases failed = inl refl
Outcome-cases (moved zero) = inr (inl refl)
Outcome-cases (moved (suc n)) = inr (inr (n, refl))

-- One round of the loop, by what the call returns.
module _ {ℓ} {M : Type ℓ} (call : M → List ℕ → M × Outcome) (retries : M → ℕ) (buf : List ℕ) (k : ℕ)
    (m : M) (w : ℕ) (more : ltb w (length buf) ≡ true) where
  pub write_loop_failed :
      (call m (drop w buf)).1 ≡ failed
      → write_loop call retries buf (suc k) 0 m w ≡ ((call m (drop w buf)).0, none)
  unfolding write_loop
  write_loop_failed e = rw (write_loop, more, e)

  pub write_loop_ended :
      (call m (drop w buf)).1 ≡ moved 0
      → write_loop call retries buf (suc k) 0 m w ≡ ((call m (drop w buf)).0, some w)
  unfolding write_loop
  write_loop_ended e = rw (write_loop, more, e)

  pub write_loop_moved :
      (n : ℕ)
      → (call m (drop w buf)).1 ≡ moved (suc n)
      → write_loop call retries buf (suc k) 0 m w
        ≡ write_loop call retries buf k
            (retries (call m (drop w buf)).0)
            (call m (drop w buf)).0
            (w + suc n)
  unfolding write_loop
  write_loop_moved n e = rw (write_loop, more, e)

pub write_loop_done {ℓ} :
    {M : Type ℓ} (call : M → List ℕ → M × Outcome) (retries : M → ℕ) (buf : List ℕ) (k r : ℕ)
    (m : M) (w : ℕ)
    → ltb w (length buf) ≡ false
    → write_loop call retries buf (suc k) r m w ≡ (m, some w)
unfolding write_loop
write_loop_done call retries buf k zero m w all = rw (write_loop, all)
write_loop_done call retries buf k (suc r) m w all = rw (write_loop, all)

pub write_loop_retry {ℓ} :
    {M : Type ℓ} (call : M → List ℕ → M × Outcome) (retries : M → ℕ) (buf : List ℕ) (k r : ℕ)
    (m : M) (w : ℕ)
    → ltb w (length buf) ≡ true
    → write_loop call retries buf (suc k) (suc r) m w ≡ write_loop call retries buf (suc k) r m w
unfolding write_loop
write_loop_retry call retries buf k r m w more = rw (write_loop, more)

-- What every call keeps, the loop keeps.
module _ {ℓ κ} {M : Type ℓ} (P : M → Type κ) (call : M → List ℕ → M × Outcome) (retries : M → ℕ)
    (keep : (m : M) (bytes : List ℕ) → P m → P (call m bytes).0) (buf : List ℕ) where
  write_loop-keeps :
      (k r : ℕ) (m : M) (written : ℕ) → P m → P (write_loop call retries buf k r m written).0
  unfolding write_loop
  write_loop-keeps zero r m w h = h
  write_loop-keeps (suc k) (suc r) m w h = elim (Bool-cases (ltb w (length buf))) [
    | inl more ↦
        subst (λ (x : M × Option ℕ). P x.0) (sym (write_loop_retry call retries buf k r m w more))
          (write_loop-keeps (suc k) r m w h)
    | inr all ↦
        subst (λ (x : M × Option ℕ). P x.0)
          (sym (write_loop_done call retries buf k (suc r) m w all)) h
  ]
  write_loop-keeps (suc k) zero m w h =
      let next = keep m (drop w buf) h in
      elim (Bool-cases (ltb w (length buf))) [
        | inl more ↦ elim (Outcome-cases (call m (drop w buf)).1) [
          | inl e ↦
              subst (λ (x : M × Option ℕ). P x.0)
                (sym (write_loop_failed call retries buf k m w more e)) next
          | inr (inl e) ↦
              subst (λ (x : M × Option ℕ). P x.0)
                (sym (write_loop_ended call retries buf k m w more e)) next
          | inr (inr (n, e)) ↦
              subst (λ (x : M × Option ℕ). P x.0)
                (sym (write_loop_moved call retries buf k m w more n e))
                (write_loop-keeps k _ (call m (drop w buf)).0 (w + suc n) next)
        ]
        | inr all ↦
            subst (λ (x : M × Option ℕ). P x.0) (sym (write_loop_done call retries buf k 0 m w all))
              h
      ]

  pub write_all-keeps : (m : M) → P m → P (write_all call retries m buf).0
  unfolding write_all
  write_all-keeps m h = write_loop-keeps (suc (length buf)) (retries m) m 0 h

-- A call that moves everything is the only one.
module _ {ℓ} {M : Type ℓ} (call : M → List ℕ → M × Outcome) (retries : M → ℕ) (buf : List ℕ) (m : M)
    (c : ℕ) (size : length buf ≡ suc c) (e : (call m buf).1 ≡ moved (suc c)) where
  write_loop_once :
      (r k : ℕ)
      → write_loop call retries buf (suc (suc k)) r m 0 ≡ ((call m buf).0, some (length buf))
  write_loop_once (suc r) k =
      write_loop_retry call retries buf (suc k) r m 0 (ground arith) ∙ write_loop_once r k
  write_loop_once zero k =
      let all : ltb (0 + suc c) (length buf) ≡ false = ground arith in
      write_loop_moved call retries buf (suc k) m 0 (ground arith) c e
      ∙ write_loop_done call retries buf k _ _ (0 + suc c) all
      ∙ ap (λ (n : ℕ). ((call m buf).0, some n)) {x = 0 + suc c} (omega (arith, size))

  pub write_all_once : write_all call retries m buf ≡ ((call m buf).0, some (length buf))
  unfolding write_all
  write_all_once =
      ap (λ (n : ℕ). write_loop call retries buf (suc n) (retries m) m 0) size
      ∙ write_loop_once (retries m) c
