-- ===== src/Server/Main/Tests.antt =====
-- The server with one client, ended by a signal after the client or before it; and a server whose `bind` fails.
use embedded_linux.Common.{
  ℕ, ◌+◌, ◌≡◌, refl, true, false, none, some, List, [], ◌∷◌, ◌++◌, arith, map,
}
use embedded_linux.Server.Threads.{Pool}
use embedded_linux.Server.Threads.Clean.{before_running, IsCleaned}
use embedded_linux.Server.Threads.Kept.{kept}
use embedded_linux.Server.Threads.History.{Roll, started, set_completed, record_event, record_all}
use embedded_linux.Server.Main.{
  Process, SetupAnswers, close, setup_server_socket, Round, signalled, failed, no_memory, created,
  success, failure, deadlocked, main,
}
use embedded_linux.Server.Main.Setup.{main-refused}
use embedded_linux.Server.Main.Rounds.{clients}
use embedded_linux.Server.Main.Signal.{until_signal, main-signalled, main-deadlocked}

abbrev no_threads : Pool
no_threads = record { nodes = λ a. none; head = 0; joined = [] }

abbrev no_members : Roll
no_members = record { members = []; joined = [] }

abbrev process : Process
process = record {
  server_socket = none;
  owned = λ x. false;
  stale_closes = 0;
  keep_running = true;
  destroyed = 0;
  late_locks = 0;
  threads = no_threads;
  handed = [];
  blocks = 0;
}

abbrev bind_fails : SetupAnswers
bind_fails = record { socket = some 3; setsockopt = true; bind = false; listen = true }

abbrev all_granted : SetupAnswers
all_granted = record { socket = some 3; setsockopt = true; bind = true; listen = true }

abbrev rounds : List Round
rounds = created 4 (started (some 8) 1 ∷ []) ∷ no_memory 5 ∷ failed ∷ []

main-refused_example :
    (q : Process) × (main 0 bind_fails none [] process ≡ some (q, failure))
    × (q.stale_closes ≡ 0 + 1)
    × ((x : ℕ) → q.owned x ≡ false)
    × IsCleaned no_threads q.threads []
unfolding setup_server_socket close
main-refused_example =
    main-refused 0 bind_fails none [] process [] (omega arith) refl refl (λ fd e. refl) refl

main-signalled_example :
    let s = record_all (until_signal rounds (8 ∷ [])) no_members in
    (q : Process) × (main 3 all_granted none (rounds ++ (signalled (8 ∷ []) ∷ [])) process
      ≡ some (q, success))
    × ((x : ℕ) → q.owned x ≡ false)
    × (q.blocks ≡ 0)
    × (q.handed ≡ [] ++ clients rounds)
    × (q.threads.head ≡ 0)
    × (q.threads.joined ≡ s.joined ++ map (λ m. m.thread) s.members)
    × (q.stale_closes ≡ 1)
    × (q.destroyed ≡ 2)
    × (q.late_locks ≡ 1)
unfolding record_all record_event set_completed kept
main-signalled_example =
    main-signalled 3 all_granted none rounds [] (8 ∷ []) process 3 no_members refl refl (λ e. cc)
      (refl, refl, refl) (refl, (refl, (tt, tt))) (omega arith) (ground arith) (refl, refl) refl

main-deadlocked_example :
    let s = record_all (until_signal rounds []) no_members in
    (q : Process) × (main 3 all_granted none (rounds ++ (signalled [] ∷ [])) process
      ≡ some (q, deadlocked))
    × ((x : ℕ) → q.owned x ≡ false)
    × (q.handed ≡ [] ++ clients rounds)
    × (q.threads.joined ≡ s.joined ++ before_running s.members)
    × (q.stale_closes ≡ 0)
    × (q.destroyed ≡ 0)
    × (q.late_locks ≡ 0)
unfolding record_all record_event set_completed kept
main-deadlocked_example =
    main-deadlocked 3 all_granted none rounds [] [] process 3 no_members refl refl (λ e. cc)
      (refl, refl, refl) (refl, (refl, (tt, tt))) (omega arith) (ground arith) (refl, refl) refl
