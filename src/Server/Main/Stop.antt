-- ===== src/Server/Main/Stop.antt =====
-- The steps of `main` up to its end after a signal (server/aesdsocket.c).
use embedded_linux.Common.{
  ℕ, ◌≡◌, ◌≢◌, refl, sym, ap, ◌∙◌, Bool, true, false, Option, none, some, List, [], ◌∷◌, ◌==◌,
  ==_refl, ==_iff, inl, inr, Bool-cases, map,
}
use embedded_linux.Server.Threads.{Pool, returns, hangs}
use embedded_linux.Server.Threads.History.{ended, run}
use embedded_linux.Server.Main.{
  Process, set_owned, SetupAnswers, cleanup_on_signal, signal_handler, Round, signalled,
  accept_round, accept_loop, success, deadlocked, with_ending, serve, main,
}
use embedded_linux.Server.Main.Setup.{granted, opened, setup_granted}

-- The loop, when the handler of the signal has run.
loop_stops :
    (size : ℕ) (later : List Round) (p : Process)
    → p.keep_running ≡ false
    → accept_loop size later p ≡ returns p
unfolding accept_loop
loop_stops size [] p e = refl
loop_stops size (r ∷ rs) p e = simp (accept_loop, e)

-- The process that the handler of a signal cleans up.
abbrev pub stopped : Pool → Process → Process
stopped pool p = record p { threads = pool; keep_running = false }

module _ (size : ℕ) (nodes : List ℕ) (later : List Round) (p q : Process) (pool : Pool)
    (running : p.keep_running ≡ true)
    (marked : run size (map (λ a. ended a) nodes) p.threads ≡ some pool) where
  pub loop_signalled :
      cleanup_on_signal size (stopped pool p) ≡ returns q
      → q.keep_running ≡ false
      → accept_loop size (signalled nodes ∷ later) p ≡ returns q
  unfolding accept_loop accept_round signal_handler
  loop_signalled e stops =
      rw (accept_loop, running, accept_round, marked, e) (loop_stops size later q stops)

  pub loop_hangs :
      cleanup_on_signal size (stopped pool p) ≡ hangs q
      → accept_loop size (signalled nodes ∷ later) p ≡ hangs q
  unfolding accept_loop accept_round signal_handler
  loop_hangs e = rw (accept_loop, running, accept_round, marked, e)

module _ (size : ℕ) (rounds : List Round) (p q : Process) where
  pub serve_stopped :
      accept_loop size rounds p ≡ returns q
      → q.keep_running ≡ false
      → serve size rounds p ≡ with_ending success (cleanup_on_signal size q)
  unfolding serve
  serve_stopped e stops = simp (serve, e, stops)

  pub serve_hangs : accept_loop size rounds p ≡ hangs q → serve size rounds p ≡ some (q, deadlocked)
  unfolding serve
  serve_hangs e = rw (serve, e)

pub main_ready :
    (size : ℕ) (a : SetupAnswers) (detached : Option Bool) (rounds : List Round) (p : Process)
    (fd : ℕ)
    → a.socket ≡ some fd
    → granted a ≡ true
    → detached ≢ some false
    → main size a detached rounds p ≡ serve size rounds (opened fd p)
unfolding main
main_ready size a none rounds p fd e g d =
    let ready = setup_granted a p fd e g in
    rw (main, ap (λ x. x.1) ready) (ap (λ x. serve size rounds x.0) ready)
main_ready size a (some true) rounds p fd e g d =
    let ready = setup_granted a p fd e g in
    rw (main, ap (λ x. x.1) ready) (ap (λ x. serve size rounds x.0) ready)
main_ready size a (some false) rounds p fd e g d = absurd (d refl)

pub set_owned_same : (owned : ℕ → Bool) (fd : ℕ) (b : Bool) → set_owned owned fd b fd ≡ b
set_owned_same owned fd b = rw (==_refl fd)

-- The descriptor of the server is closed, the others are as before it was opened.
pub set_owned_last :
    (owned before : ℕ → Bool) (fd x : ℕ)
    → before fd ≡ false
    → owned x ≡ set_owned before fd true x
    → set_owned owned fd false x ≡ before x
set_owned_last owned before fd x fresh same = elim (Bool-cases (fd == x)) [
  | inl e ↦ rw e (sym fresh ∙ ap before ((==_iff fd x).0 e))
  | inr e ↦ rw e (same ∙ rw e refl)
]
