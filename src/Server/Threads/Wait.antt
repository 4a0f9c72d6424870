-- ===== src/Server/Threads/Wait.antt =====
-- The end of a client's thread and `cleanup_thread_list`
-- (server/aesdsocket_app/src/thread_manager.c) at the same time: both take `thread_list_mutex`. A
-- state keeps who has the mutex, how far each thread is, and what the cleaner still has to join.
use embedded_linux.Common.{
  ℕ, ◌≡◌, ◌≢◌, ◌↔◌, ◌⊎◌, refl, sym, ap, ◌∙◌, Bool, true, false, List, [], ◌∷◌, arith, ◌==◌,
  if◌then◌else◌, All, inl, inr,
}

-- A thread serves its client, waits for the mutex, has it, or has returned.
pub data Phase : Type 0 where
  serving at_mutex marking returned : Phase

-- `cleanup_thread_list` waits for the mutex, joins these threads, or has returned.
pub data Cleaner : Type 0 where
  starts : List ℕ → Cleaner
  joins : List ℕ → Cleaner
  cleaned : Cleaner

pub record System : Type 0 where
  pub locked : Bool
  pub phase : ℕ → Phase
  pub cleaner : Cleaner

abbrev pub set_phase : (ℕ → Phase) → ℕ → Phase → ℕ → Phase
set_phase f t x u = if t == u then x else f u

-- A thread comes to `pthread_mutex_lock`, obtains the mutex, and unlocks it after its node is
-- marked; the cleaner obtains the mutex, is given the result of a join, and unlocks the mutex.
-- `pthread_join` returns only when the thread has returned.
pub data Step (s : System) : System → Type 0 where
  arrive :
      (t : ℕ) → s.phase t ≡ serving → Step s (record s { phase = set_phase s.phase t at_mutex })
  obtain :
      (t : ℕ)
      → s.phase t ≡ at_mutex
      → s.locked ≡ false
      → Step s (record s { locked = true; phase = set_phase s.phase t marking })
  mark :
      (t : ℕ)
      → s.phase t ≡ marking
      → Step s (record s { locked = false; phase = set_phase s.phase t returned })
  begin :
      (ts : List ℕ)
      → s.cleaner ≡ starts ts
      → s.locked ≡ false
      → Step s (record s { locked = true; cleaner = joins ts })
  join :
      (t : ℕ) (ts : List ℕ)
      → s.cleaner ≡ joins (t ∷ ts)
      → s.phase t ≡ returned
      → Step s (record s { cleaner = joins ts })
  release : s.cleaner ≡ joins [] → Step s (record s { locked = false; cleaner = cleaned })

pub data Reach (s : System) : System → Type 0 where
  here : Reach s s
  next : {t u : System} → Reach s t → Step t u → Reach s u

abbrev pub has_thread : ℕ → List ℕ → Bool
has_thread t [] = false
has_thread t (u ∷ us) = if t == u then true else has_thread t us

-- The cleaner joins these threads: it has the mutex, and no thread has.
pub record IsJoining (s : System) (ts : List ℕ) : Type 0 where
  pub at : s.cleaner ≡ joins ts
  pub locked : s.locked ≡ true
  pub alone : (t : ℕ) → s.phase t ≢ marking

-- The cleaner has a thread to join that has not returned.
abbrev IsWaiting : System → ℕ → Type 0
IsWaiting s t = (ts : List ℕ) × IsJoining s ts × (has_thread t ts ≡ true) × (s.phase t ≢ returned)

Step-IsWaiting : {s u : System} (t : ℕ) → Step s u → IsWaiting s t → IsWaiting u t
Step-IsWaiting t (arrive v e) (ts, j, i, away) = (
  ts,
  record { at = j.at; locked = j.locked; alone = λ w. ground (arith, j.alone w) },
  i,
  ground arith,
)
Step-IsWaiting t (obtain v e free) (ts, j, i, away) = absurd (cc (free, j.locked))
Step-IsWaiting t (mark v e) (ts, j, i, away) = absurd (j.alone v e)
Step-IsWaiting t (begin us e free) (ts, j, i, away) = absurd (cc (free, j.locked))
Step-IsWaiting {s} t (join v us e over) (ts, j, i, away) =
    let same : ts ≡ v ∷ us = cc (j.at, e) in
    let i' : has_thread t (v ∷ us) ≡ true = ap (has_thread t) (sym same) ∙ i in
    let apart : t ≢ v = λ x. away (ap s.phase x ∙ over) in
    (us, record { at = refl; locked = j.locked; alone = j.alone }, ground arith, away)
Step-IsWaiting t (release e) (ts, j, i, away) =
    let same : ts ≡ [] = cc (j.at, e) in absurd (cc (i, ap (has_thread t) same))

Reach-IsWaiting : {s u : System} (t : ℕ) → Reach s u → IsWaiting s t → IsWaiting u t
Reach-IsWaiting t here w = w
Reach-IsWaiting t (next r e) w = Step-IsWaiting t e (Reach-IsWaiting t r w)

Reach-step : {s t u : System} → Step s t → Reach t u → Reach s u
Reach-step e here = next here e
Reach-step e (next r f) = next (Reach-step e r) f

Phase-discrete : Discrete Phase
Phase-discrete = hlevel

-- Every thread has returned, or one has not.
All-returned :
    (s : System) (ts : List ℕ)
    → All (λ t. s.phase t ≡ returned) ts
      ⊎ ((t : ℕ) × (has_thread t ts ≡ true) × (s.phase t ≢ returned))
All-returned s [] = inl tt
All-returned s (t ∷ ts) = elim (All-returned s ts) [
  | inr (u, i, away) ↦ inr (u, ground arith, away)
  | inl all ↦ elim (Phase-discrete (s.phase t) returned) [
    | yes over ↦ inl (over, all)
    | no away ↦ inr (t, ground arith, away)
  ]
]

joins-cleaned :
    (ts : List ℕ) (s : System)
    → IsJoining s ts
    → All (λ t. s.phase t ≡ returned) ts
    → (u : System) × Reach s u × (u.cleaner ≡ cleaned)
joins-cleaned [] s j all = (_, next here (release j.at), refl)
joins-cleaned (t ∷ ts) s j (over, all) =
    let (u, r, done) =
      joins-cleaned ts (record s { cleaner = joins ts })
        (record { at = refl; locked = j.locked; alone = j.alone }) all in
    (u, Reach-step (join t ts j.at over) r, done)

-- While cleanup_thread_list joins the threads of the list, with the mutex, it can come to its end
-- exactly if all of them have returned before: a thread of the list that has not returned waits for
-- the mutex for ever, and the join waits for the thread.
pub cleaned-iff_returned :
    (s : System) (ts : List ℕ)
    → IsJoining s ts
    → ((u : System) × Reach s u × (u.cleaner ≡ cleaned)) ↔ All (λ t. s.phase t ≡ returned) ts
cleaned-iff_returned s ts j = (
  λ (u, r, done). elim (All-returned s ts) [
    | inl all ↦ all
    | inr (t, i, away) ↦
        let (us, k, i', away') = Reach-IsWaiting t r (ts, j, i, away) in absurd (cc (done, k.at))
  ],
  joins-cleaned ts s j,
)
