-- ===== src/Server/Main/Signal.antt =====
-- The end of `main` after a signal (server/aesdsocket.c): the handler cleans up, and `main` does it
-- again; or the handler waits for ever for a client's thread.
use embedded_linux.Common.{
  ℕ, suc, ◌+◌, ◌≤◌, ◌≡◌, ◌≢◌, refl, ap, ◌∙◌, Bool, true, false, Option, some, List, ◌∷◌, ◌++◌,
  arith, All, append-nil, length, map,
}
use embedded_linux.Server.Threads.{Pool}
use embedded_linux.Server.Threads.Clean.{all_completed, before_running}
use embedded_linux.Server.Threads.History.{
  Event, ended, run, Roll, record_all, ArePossible, StandsFor, run-StandsFor, length-record_all-le,
}
use embedded_linux.Server.Main.{
  Process, SetupAnswers, Round, signalled, accept_loop, success, deadlocked, with_ending, main,
}
use embedded_linux.Server.Main.Setup.{granted, opened}
use embedded_linux.Server.Main.Rounds.{
  IsQuiet, events, clients, IsServing, run-append, accept_loop-Served,
}
use embedded_linux.Server.Main.Twice.{
  stuck_left, first_left, second_left, cleanup_first, cleanup_second, cleanup_hangs,
}
use embedded_linux.Server.Main.Stop.{
  stopped, loop_signalled, loop_hangs, serve_stopped, serve_hangs, main_ready, set_owned_same,
  set_owned_last,
}

IsServing-refl : (p : Process) → IsServing p p
IsServing-refl p = record {
  socket = refl;
  owned = λ x. refl;
  stale = refl;
  running = refl;
  destroyed = refl;
  late = refl;
  blocks = refl;
}

-- What happens to the list of threads up to the clean-up, when a signal follows the rounds and these
-- nodes are marked before the handler has the mutex.
abbrev pub until_signal : List Round → List ℕ → List Event
until_signal rounds nodes = events rounds ++ map (λ a. ended a) nodes

-- The rounds are gone through, and the nodes marked: the list stands for what the events make of it.
abbrev Signalled : ℕ → List Round → List ℕ → List Round → Process → Roll → Type 0
Signalled size rounds nodes later start s =
    (q : Process) × (pool : Pool) × (accept_loop size (rounds ++ (signalled nodes ∷ later)) start
      ≡ accept_loop size (signalled nodes ∷ later) q)
    × IsServing start q
    × (q.handed ≡ start.handed ++ clients rounds)
    × (run size (map (λ a. ended a) nodes) q.threads ≡ some pool)
    × StandsFor pool s

loop-Signalled :
    (size : ℕ) (rounds later : List Round) (nodes : List ℕ) (start : Process) (r : Roll)
    → start.keep_running ≡ true
    → All (IsQuiet start.owned) rounds
    → length r.members + length (until_signal rounds nodes) ≤ size
    → ArePossible (until_signal rounds nodes) r
    → StandsFor start.threads r
    → Signalled size rounds nodes later start (record_all (until_signal rounds nodes) r)
loop-Signalled size rounds later nodes start r running quiet room possible stands =
    let marks : List Event = map (λ a. ended a) nodes in
    let (pool, ran, at) =
      run-StandsFor size (until_signal rounds nodes) start.threads r room possible stands in
    let (middle, before, after) = run-append size (events rounds) marks start.threads ran in
    let (q, loop, t, same, new) =
      accept_loop-Served size rounds (signalled nodes ∷ later) start start middle running quiet
        (IsServing-refl start) before in
    (q, pool, loop, t, new, ap (run size marks) same ∙ after, at)

module _ (size : ℕ) (a : SetupAnswers) (detached : Option Bool) (rounds later : List Round)
    (nodes : List ℕ) (p : Process) (fd : ℕ) (r : Roll) (e : a.socket ≡ some fd)
    (g : granted a ≡ true) (d : detached ≢ some false)
    (begins : (p.owned fd ≡ false) × (p.keep_running ≡ true) × (p.destroyed ≡ 0))
    (quiet : All (IsQuiet (opened fd p).owned) rounds)
    (room : length r.members + length (until_signal rounds nodes) ≤ size)
    (possible : ArePossible (until_signal rounds nodes) r) (stands : StandsFor p.threads r) where
  -- main, when the set-up succeeds and a signal comes after any rounds, and every thread in the
  -- list has marked its node before the handler has the mutex: it returns 0, with no descriptor open
  -- that was not open before, every block freed or handed to a thread, every socket handed over
  -- that a thread was created for, and every thread in the list joined. But the handler has cleaned
  -- up before main does: the descriptor of the server is closed a second time, the mutexes are
  -- destroyed twice, and the second clean-up locks a mutex that is destroyed.
  pub main-signalled :
      all_completed (record_all (until_signal rounds nodes) r).members ≡ true
      → let s = record_all (until_signal rounds nodes) r in
        (q : Process) × (main size a detached (rounds ++ (signalled nodes ∷ later)) p
          ≡ some (q, success))
        × ((x : ℕ) → q.owned x ≡ p.owned x)
        × (q.blocks ≡ p.blocks)
        × (q.handed ≡ p.handed ++ clients rounds)
        × (q.threads.head ≡ 0)
        × (q.threads.joined ≡ s.joined ++ map (λ m. m.thread) s.members)
        × (q.stale_closes ≡ suc p.stale_closes)
        × (q.destroyed ≡ 2)
        × (q.late_locks ≡ suc p.late_locks)
  main-signalled over =
      let all = rounds ++ (signalled nodes ∷ later) in
      let (fresh, running, zero) = begins in
      let s = record_all (until_signal rounds nodes) r in
      let (q, pool, loop, t, new, marked, (chain, joined)) =
        loop-Signalled size rounds later nodes (opened fd p) r running quiet room possible stands in
      let (t1, run1, cleaned1) =
        cleanup_first size (stopped pool q) fd s.members
          (omega (arith, length-record_all-le (until_signal rounds nodes) r)) over chain t.socket
          (t.owned fd ∙ set_owned_same p.owned fd true) (t.destroyed ∙ zero) in
      let left : Process = first_left (stopped pool q) fd t1 in
      let (t2, run2, cleaned2) =
        cleanup_second size left fd cleaned1.empty t.socket (set_owned_same q.owned fd false)
          (omega arith) in
      (
        second_left left t2,
        main_ready size a detached all p fd e g d
            ∙ serve_stopped size all (opened fd p) left
                (loop
                  ∙ loop_signalled size nodes later q left pool (t.running ∙ running) marked run1
                      refl)
                refl
            ∙ ap (with_ending success) run2,
        λ x. set_owned_last q.owned p.owned fd x fresh (t.owned x),
        t.blocks,
        new,
        cleaned2.empty,
        cleaned2.joined
            ∙ append-nil t1.joined
            ∙ cleaned1.joined
            ∙ ap (λ x. x ++ map (λ m. m.thread) s.members) joined,
        ap suc t.stale,
        ap (λ n. suc (suc n)) (t.destroyed ∙ zero),
        ap suc t.late,
      )

  -- main, when the set-up succeeds and a signal comes after any rounds, and a thread in the list has
  -- not marked its node before the handler has the mutex: main never ends. The handler waits for
  -- ever for the first such thread, and has joined the ones before it; the descriptor of the server
  -- is closed, once, and neither are the mutexes destroyed nor is the second clean-up begun.
  pub main-deadlocked :
      all_completed (record_all (until_signal rounds nodes) r).members ≡ false
      → let s = record_all (until_signal rounds nodes) r in
        (q : Process) × (main size a detached (rounds ++ (signalled nodes ∷ later)) p
          ≡ some (q, deadlocked))
        × ((x : ℕ) → q.owned x ≡ p.owned x)
        × (q.handed ≡ p.handed ++ clients rounds)
        × (q.threads.joined ≡ s.joined ++ before_running s.members)
        × (q.stale_closes ≡ p.stale_closes)
        × (q.destroyed ≡ 0)
        × (q.late_locks ≡ p.late_locks)
  main-deadlocked waits =
      let all = rounds ++ (signalled nodes ∷ later) in
      let (fresh, running, zero) = begins in
      let s = record_all (until_signal rounds nodes) r in
      let (q, pool, loop, t, new, marked, (chain, joined)) =
        loop-Signalled size rounds later nodes (opened fd p) r running quiet room possible stands in
      let (t1, run1, before) =
        cleanup_hangs size (stopped pool q) fd s.members
          (omega (arith, length-record_all-le (until_signal rounds nodes) r)) waits chain t.socket
          (t.owned fd ∙ set_owned_same p.owned fd true) (t.destroyed ∙ zero) in
      let left : Process = stuck_left (stopped pool q) fd t1 in
      (
        left,
        main_ready size a detached all p fd e g d
            ∙ serve_hangs size all (opened fd p) left
                (loop ∙ loop_hangs size nodes later q left pool (t.running ∙ running) marked run1),
        λ x. set_owned_last q.owned p.owned fd x fresh (t.owned x),
        new,
        before ∙ ap (λ x. x ++ before_running s.members) joined,
        t.stale,
        t.destroyed ∙ zero,
        t.late,
      )
