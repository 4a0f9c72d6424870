-- ===== src/Server/Threads/Tests.antt =====
-- A list of threads: two are started, the first ends, and is taken out.
use embedded_linux.Common.{
  ◌≡◌, ◌==◌, refl, true, false, none, some, List, [], ◌∷◌, arith, ◌↔◌, All, if◌then◌else◌,
}
use embedded_linux.Server.Threads.{Pool}
use embedded_linux.Server.Threads.Kept.{kept, finished}
use embedded_linux.Server.Threads.History.{
  Event, started, ended, swept, run, Roll, set_completed, record_event, record_all, StandsFor,
  run-StandsFor,
}
use embedded_linux.Server.Threads.Wait.{
  System, Reach, at_mutex, returned, joins, cleaned, cleaned-iff_returned,
}

abbrev empty_pool : Pool
empty_pool = record { nodes = λ a. none; head = 0; joined = [] }

abbrev empty_roll : Roll
empty_roll = record { members = []; joined = [] }

abbrev history : List Event
history = started (some 8) 1 ∷ started (some 4) 2 ∷ ended 8 ∷ swept ∷ []

run-StandsFor_example :
    (q : Pool) × (run 4 history empty_pool ≡ some q) × StandsFor q (record_all history empty_roll)
unfolding record_event set_completed kept
run-StandsFor_example =
    run-StandsFor 4 history empty_pool empty_roll (omega arith) (ground arith) (refl, refl)

history_roll : record_all history empty_roll ≡ record {
  members = record { address = 4; thread = 2; completed = false } ∷ [];
  joined = 1 ∷ [];
}
unfolding record_all record_event set_completed kept finished
history_roll = refl

-- The cleaner has the mutex; the thread 1 has returned, the thread 2 comes to the mutex.
abbrev late : System
late = record {
  locked = true;
  phase = λ t. if t == 2 then at_mutex else returned;
  cleaner = joins (2 ∷ 1 ∷ []);
}

cleaned-iff_returned_example :
    ((u : System) × Reach late u × (u.cleaner ≡ cleaned))
    ↔ All (λ t. late.phase t ≡ returned) (2 ∷ 1 ∷ [])
cleaned-iff_returned_example =
    cleaned-iff_returned late (2 ∷ 1 ∷ [])
      (record { at = refl; locked = refl; alone = λ t. ground arith })

-- The thread 2 is never joined.
late_never_cleaned : ¬ ((u : System) × Reach late u × (u.cleaner ≡ cleaned))
late_never_cleaned r = cc ((cleaned-iff_returned_example.0 r).0)
