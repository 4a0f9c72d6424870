-- ===== src/Server/Main/Rounds.antt =====
-- The loop of `main` (server/aesdsocket.c) while no signal comes.
use embedded_linux.Common.{
  ℕ, suc, ◌-◌, ◌≡◌, inl, inr, refl, sym, ap, ◌∙◌, Bool, true, false, none, some, Option-cases, List,
  [], ◌∷◌, ◌++◌, arith, ==_refl, All, append-nil, append_assoc,
}
use embedded_linux.Server.Threads.{Pool, returns}
use embedded_linux.Server.Threads.History.{Event, swept, handle_event, run}
use embedded_linux.Server.Main.{
  Process, set_owned, close, Round, signalled, failed, no_memory, no_thread, created, accepted,
  accept_round, accept_loop,
}
use embedded_linux.Server.Main.Setup.{close_owned, set_owned_back}

-- No signal comes, and `accept` gives a descriptor that is not open.
abbrev pub IsQuiet : (ℕ → Bool) → Round → Type 0
IsQuiet owned (signalled nodes) = ⊥
IsQuiet owned failed = Unit {0}
IsQuiet owned (no_memory fd) = owned fd ≡ false
IsQuiet owned (no_thread fd) = owned fd ≡ false
IsQuiet owned (created fd es) = owned fd ≡ false

-- What happens to the list of threads, and the sockets for which a thread is created.
abbrev pub events : List Round → List Event
events [] = []
events (created fd es ∷ rs) = (es ++ (swept ∷ [])) ++ events rs
events (_ ∷ rs) = events rs

abbrev pub clients : List Round → List ℕ
clients [] = []
clients (created fd es ∷ rs) = fd ∷ clients rs
clients (_ ∷ rs) = clients rs

-- The process q serves as p does, and nothing that p had to close or free is closed, freed or left
-- over.
pub record IsServing (p q : Process) : Type 0 where
  pub socket : q.server_socket ≡ p.server_socket
  pub owned : (x : ℕ) → q.owned x ≡ p.owned x
  pub stale : q.stale_closes ≡ p.stale_closes
  pub running : q.keep_running ≡ p.keep_running
  pub destroyed : q.destroyed ≡ p.destroyed
  pub late : q.late_locks ≡ p.late_locks
  pub blocks : q.blocks ≡ p.blocks

run_nil : (size : ℕ) (p : Pool) {r : Pool} → run size [] p ≡ some r → p ≡ r
unfolding run
run_nil size p h = cc

run_event :
    (size : ℕ) (e : Event) (es : List Event) (p x : Pool)
    → handle_event size e p ≡ some x
    → run size (e ∷ es) p ≡ run size es x
unfolding run
run_event size e es p x h = rw (run, h)

run_fault :
    (size : ℕ) (e : Event) (es : List Event) (p : Pool)
    → handle_event size e p ≡ none
    → run size (e ∷ es) p ≡ none
unfolding run
run_fault size e es p h = rw (run, h)

pub run-append :
    (size : ℕ) (es fs : List Event) (p : Pool) {r : Pool}
    → run size (es ++ fs) p ≡ some r
    → (q : Pool) × (run size es p ≡ some q) × (run size fs q ≡ some r)
unfolding run
run-append size [] fs p h = (p, refl, h)
run-append size (e ∷ es) fs p h = elim (Option-cases (handle_event size e p)) [
  | inl fault ↦ absurd (cc (h, run_fault size e (es ++ fs) p fault))
  | inr (x, at) ↦
      let (q, first, later) =
        run-append size es fs x (sym (run_event size e (es ++ fs) p x at) ∙ h) in
      (q, run_event size e es p x at ∙ first, later)
]

module _ (p q : Process) (fd : ℕ) (s : IsServing p q) (fresh : p.owned fd ≡ false) where
  IsServing-returned :
      (handed : List ℕ) (threads : Pool) (blocks : ℕ)
      → blocks ≡ q.blocks
      → IsServing p (record q {
        owned = set_owned (set_owned q.owned fd true) fd false;
        handed = handed;
        threads = threads;
        blocks = blocks;
      })
  IsServing-returned handed threads blocks same = record {
    socket = s.socket;
    owned = λ x. set_owned_back q.owned fd x (s.owned fd ∙ fresh) ∙ s.owned x;
    stale = s.stale;
    running = s.running;
    destroyed = s.destroyed;
    late = s.late;
    blocks = same ∙ s.blocks;
  }

-- A new descriptor is closed again.
close-accepted :
    (fd blocks : ℕ) (q : Process)
    → close fd (record (accepted fd q) { blocks = blocks })
      ≡ record q { owned = set_owned (set_owned q.owned fd true) fd false; blocks = blocks }
close-accepted fd blocks q =
    close_owned fd (record (accepted fd q) { blocks = blocks }) (rw (==_refl fd))

-- Rounds in which no signal comes are gone through, up to the later rounds: the process serves as
-- before, has handed the new sockets over, and the list of threads went through the events.
abbrev pub Served : ℕ → Process → Process → List Round → List Round → Pool → Type 0
Served size p q rs later threads =
    (q' : Process) × (accept_loop size (rs ++ later) q ≡ accept_loop size later q')
    × IsServing p q'
    × (q'.threads ≡ threads)
    × (q'.handed ≡ q.handed ++ clients rs)

accept_loop_step :
    (size : ℕ) (x : Round) (rs : List Round) (p q : Process)
    → p.keep_running ≡ true
    → accept_round size x p ≡ returns q
    → accept_loop size (x ∷ rs) p ≡ accept_loop size rs q
unfolding accept_loop
accept_loop_step size x rs p q running e = rw (accept_loop, running, e)

pub accept_loop-Served :
    (size : ℕ) (rs later : List Round) (p q : Process) (threads : Pool)
    → p.keep_running ≡ true
    → All (IsQuiet p.owned) rs
    → IsServing p q
    → run size (events rs) q.threads ≡ some threads
    → Served size p q rs later threads
unfolding accept_round
accept_loop-Served size [] rest p q threads running quiet s e =
    (q, refl, s, run_nil size q.threads e, sym (append-nil q.handed))
accept_loop-Served size (signalled nodes ∷ rs) rest p q threads running (no_signal, quiet) s e =
    absurd no_signal
accept_loop-Served size (failed ∷ rs) rest p q threads running (ok, quiet) s e =
    let (r, at, t, same, new) = accept_loop-Served size rs rest p q threads running quiet s e in
    (r, accept_loop_step size failed (rs ++ rest) q q (s.running ∙ running) refl ∙ at, t, same, new)
accept_loop-Served size (no_memory fd ∷ rs) rest p q threads running (fresh, quiet) s e =
    let (r, at, t, same, new) =
      accept_loop-Served size rs rest p _ threads running quiet
        (IsServing-returned p q fd s fresh q.handed q.threads q.blocks refl) e in
    (
      r,
      accept_loop_step size (no_memory fd) (rs ++ rest) q _ (s.running ∙ running)
            (ap (λ x. returns x) (close-accepted fd q.blocks q))
          ∙ at,
      t,
      same,
      new,
    )
accept_loop-Served size (no_thread fd ∷ rs) rest p q threads running (fresh, quiet) s e =
    let (r, at, t, same, new) =
      accept_loop-Served size rs rest p _ threads running quiet
        (IsServing-returned p q fd s fresh q.handed q.threads (suc q.blocks - 1) (omega arith)) e in
    (
      r,
      accept_loop_step size (no_thread fd) (rs ++ rest) q _ (s.running ∙ running)
            (ap (λ x. returns x) (close-accepted fd (suc q.blocks - 1) q))
          ∙ at,
      t,
      same,
      new,
    )
accept_loop-Served size (created fd es ∷ rs) rest p q threads running (fresh, quiet) s e =
    let (pool, first, later) = run-append size (es ++ (swept ∷ [])) (events rs) q.threads e in
    let (r, at, t, same, new) =
      accept_loop-Served size rs rest p _ threads running quiet
        (IsServing-returned p q fd s fresh (q.handed ++ (fd ∷ [])) pool (suc q.blocks - 1)
          (omega arith))
        later in
    (
      r,
      accept_loop_step size (created fd es) (rs ++ rest) q _ (s.running ∙ running)
            (rw (accept_round, first) refl)
          ∙ at,
      t,
      same,
      new ∙ append_assoc q.handed (fd ∷ []) (clients rs),
    )
