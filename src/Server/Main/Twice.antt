-- ===== src/Server/Main/Twice.antt =====
-- Two calls of cleanup_on_signal (server/aesdsocket_app/src/signal_handler.c), one after the other.
use embedded_linux.Common.{
  ℕ, suc, ◌≤◌, ◌≡◌, ◌≢◌, refl, ap, ◌∙◌, true, false, Option, none, some, List, [], ◌++◌, arith,
  ◌==◌, length,
}
use embedded_linux.Server.Threads.{Pool, returns, hangs}
use embedded_linux.Server.Threads.Chain.{Member, IsChain}
use embedded_linux.Server.Threads.Clean.{all_completed, before_running, IsCleaned}
use embedded_linux.Server.Threads.History.{run}
use embedded_linux.Server.Main.{
  Process, set_owned, close, close_server, lock_list, cleanup_on_signal,
}
use embedded_linux.Server.Main.Setup.{
  close_owned, close_stale, cleanup_on_signal-IsCleaned, cleanup_on_signal-hangs,
}

close_server_at : (p : Process) (fd : ℕ) → p.server_socket ≡ some fd → close_server p ≡ close fd p
unfolding close_server
close_server_at p fd e =
    ap (λ (x : Option ℕ). elim x as (λ _. Process) [ none ↦ p | some f ↦ close f p ]) e

lock_list_first : (p : Process) → p.destroyed ≡ 0 → lock_list p ≡ p
unfolding lock_list
lock_list_first p e = let at : (p.destroyed == 0) ≡ true = ground arith in rw (lock_list, at)

lock_list_late :
    (p : Process) → p.destroyed ≢ 0 → lock_list p ≡ record p { late_locks = suc p.late_locks }
unfolding lock_list
lock_list_late p e = let at : (p.destroyed == 0) ≡ false = ground arith in rw (lock_list, at)

-- What is left of p in a first clean-up that does not return, after one that does, and after the
-- second.
abbrev pub stuck_left : Process → ℕ → Pool → Process
stuck_left p fd threads = record p { owned = set_owned p.owned fd false; threads = threads }

abbrev pub first_left : Process → ℕ → Pool → Process
first_left p fd threads = record p {
  owned = set_owned p.owned fd false;
  threads = threads;
  destroyed = suc p.destroyed;
}

abbrev pub second_left : Process → Pool → Process
second_left p threads = record p {
  stale_closes = suc p.stale_closes;
  late_locks = suc p.late_locks;
  threads = threads;
  destroyed = suc p.destroyed;
}

module _ (size : ℕ) (p : Process) (fd : ℕ) where
  first_locked :
      p.server_socket ≡ some fd
      → p.owned fd ≡ true
      → p.destroyed ≡ 0
      → lock_list (close_server p) ≡ record p { owned = set_owned p.owned fd false }
  first_locked at own zero =
      ap lock_list (close_server_at p fd at ∙ close_owned fd p own)
      ∙ lock_list_first (record p { owned = set_owned p.owned fd false }) zero

  pub cleanup_first :
      (ms : List Member)
      → length ms ≤ size
      → all_completed ms ≡ true
      → IsChain p.threads.nodes p.threads.head ms
      → p.server_socket ≡ some fd
      → p.owned fd ≡ true
      → p.destroyed ≡ 0
      → (threads : Pool) × (cleanup_on_signal size p ≡ returns (first_left p fd threads))
        × IsCleaned p.threads threads ms
  cleanup_first ms fits over chain at own zero =
      let (threads, run, cleaned) = cleanup_on_signal-IsCleaned size p ms fits over chain in
      (
        threads,
        run
            ∙ ap
                (λ (x : Process).
                  returns (record x { threads = threads; destroyed = suc x.destroyed }))
                (first_locked at own zero),
        cleaned,
      )

  pub cleanup_hangs :
      (ms : List Member)
      → length ms ≤ size
      → all_completed ms ≡ false
      → IsChain p.threads.nodes p.threads.head ms
      → p.server_socket ≡ some fd
      → p.owned fd ≡ true
      → p.destroyed ≡ 0
      → (threads : Pool) × (cleanup_on_signal size p ≡ hangs (stuck_left p fd threads))
        × (threads.joined ≡ p.threads.joined ++ before_running ms)
  cleanup_hangs ms fits running chain at own zero =
      let (threads, run, joined) = cleanup_on_signal-hangs size p ms fits running chain in
      (
        threads,
        run
            ∙ ap (λ (x : Process). hangs (record x { threads = threads }))
                (first_locked at own zero),
        joined,
      )

  pub cleanup_second :
      p.threads.head ≡ 0
      → p.server_socket ≡ some fd
      → p.owned fd ≡ false
      → p.destroyed ≢ 0
      → (threads : Pool) × (cleanup_on_signal size p ≡ returns (second_left p threads))
        × IsCleaned p.threads threads []
  cleanup_second empty at own late =
      let (threads, run, cleaned) =
        cleanup_on_signal-IsCleaned size p [] (omega arith) refl empty in
      let stale : Process = record p { stale_closes = suc p.stale_closes } in
      let same : lock_list (close_server p) ≡ record stale { late_locks = suc p.late_locks } =
        ap lock_list (close_server_at p fd at ∙ close_stale fd p own) ∙ lock_list_late stale late in
      (
        threads,
        run
            ∙ ap
                (λ (x : Process).
                  returns (record x { threads = threads; destroyed = suc x.destroyed }))
                same,
        cleaned,
      )
