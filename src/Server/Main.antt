-- ===== src/Server/Main.antt =====
-- The main thread of the server (server/aesdsocket.c), with setup_server_socket of
-- server/aesdsocket_app/src/socket_ops.c and cleanup_on_signal and the handler of signals of
-- server/aesdsocket_app/src/signal_handler.c, built over the character device. A signal comes while
-- the main thread waits in `accept`.
pub mod Setup
pub mod Rounds
pub mod Twice
pub mod Stop
pub mod Signal
mod Tests
use embedded_linux.Common.{
  ℕ, suc, ◌-◌, Bool, true, false, not, Option, none, some, List, [], ◌∷◌, ◌++◌, ◌==◌, if◌then◌else◌,
  map,
}
use embedded_linux.Server.Threads.{Pool, Run, returns, hangs, fault, cleanup_thread_list}
use embedded_linux.Server.Threads.History.{Event, ended, swept, run}

-- `server_socket` (none is -1), the descriptors that this thread has to close, the calls of `close`
-- on another descriptor, `keep_running`, how often the mutexes were destroyed, the locks of a
-- destroyed mutex, the list of threads, the sockets that were handed to a thread, and the blocks
-- from `malloc` that are not freed nor handed.
pub record Process : Type 0 where
  pub server_socket : Option ℕ
  pub owned : ℕ → Bool
  pub stale_closes : ℕ
  pub keep_running : Bool
  pub destroyed : ℕ
  pub late_locks : ℕ
  pub threads : Pool
  pub handed : List ℕ
  pub blocks : ℕ

abbrev pub set_owned : (ℕ → Bool) → ℕ → Bool → ℕ → Bool
set_owned owned a b x = if a == x then b else owned x

-- `close(fd)`
unfoldable pub close : ℕ → Process → Process
close fd p =
    if p.owned fd
    then record p { owned = set_owned p.owned fd false }
    else record p { stale_closes = suc p.stale_closes }

-- The answers of `socket` (a new descriptor or -1), and of `setsockopt`, `bind` and `listen`.
pub record SetupAnswers : Type 0 where
  pub socket : Option ℕ
  pub setsockopt : Bool
  pub bind : Bool
  pub listen : Bool

-- The state and whether the function returned 0.
unfoldable pub setup_server_socket : SetupAnswers → Process → Process × Bool
setup_server_socket a p = elim (a.socket) [
  | none ↦ (record p { server_socket = none }, false)
  | some fd ↦
      let q = record p { server_socket = some fd; owned = set_owned p.owned fd true } in
      if not a.setsockopt
      then (close fd q, false)
      else if not a.bind
      then (close fd q, false)
      else if not a.listen
      then (close fd q, false)
      else (q, true)
]

-- `if (server_socket != -1) { shutdown(..); close(server_socket); }`
unfoldable pub close_server : Process → Process
close_server p = elim (p.server_socket) [ none ↦ p | some fd ↦ close fd p ]

-- `pthread_mutex_lock(&thread_list_mutex)` of `cleanup_thread_list`
unfoldable pub lock_list : Process → Process
lock_list p = if p.destroyed == 0 then p else record p { late_locks = suc p.late_locks }

-- `cleanup_on_signal()`, for a list of at most `size` threads.
unfoldable pub cleanup_on_signal : ℕ → Process → Run Process
cleanup_on_signal size p =
    let q = lock_list (close_server p) in
    elim (cleanup_thread_list size q.threads) [
      | fault ↦ fault
      | hangs threads ↦ hangs (record q { threads = threads })
      | returns threads ↦ returns (record q { threads = threads; destroyed = suc q.destroyed })
    ]

-- `signal_handler(signo)`
unfoldable pub signal_handler : ℕ → Process → Run Process
signal_handler size p = cleanup_on_signal size (record p { keep_running = false })

-- What `accept` and the calls after it do in one round: a signal interrupts it, and the threads of
-- these nodes mark them before the handler has the mutex; it fails; `malloc` refuses for this
-- socket; `pthread_create` fails; a thread is created, and these are the events in the list of
-- threads until the main thread has the mutex.
pub data Round : Type 0 where
  signalled : List ℕ → Round
  failed : Round
  no_memory no_thread : ℕ → Round
  created : ℕ → List Event → Round

abbrev pub accepted : ℕ → Process → Process
accepted fd p = record p { owned = set_owned p.owned fd true }

-- `malloc(sizeof(thread_data_t))` and `free(thread_data)`
abbrev pub take_block : Process → Process
take_block p = record p { blocks = suc p.blocks }

abbrev pub free_block : Process → Process
free_block p = record p { blocks = p.blocks - 1 }

-- The new thread has the socket and the block from here on.
abbrev pub hand_over : ℕ → Process → Process
hand_over fd p = record p {
  owned = set_owned p.owned fd false;
  handed = p.handed ++ (fd ∷ []);
  blocks = p.blocks - 1;
}

-- One round of the loop.
unfoldable pub accept_round : ℕ → Round → Process → Run Process
accept_round size (signalled nodes) p = elim (run size (map ended nodes) p.threads) [
  | none ↦ fault
  | some threads ↦ signal_handler size (record p { threads = threads })
]
accept_round size failed p = returns p
accept_round size (no_memory fd) p = returns (close fd (accepted fd p))
accept_round size (no_thread fd) p = returns (close fd (free_block (take_block (accepted fd p))))
accept_round size (created fd es) p = elim (run size (es ++ (swept ∷ [])) p.threads) [
  | none ↦ fault
  | some threads ↦
      returns (record (hand_over fd (take_block (accepted fd p))) { threads = threads })
]

-- `while (keep_running)`, over the rounds that there are.
unfoldable pub accept_loop : ℕ → List Round → Process → Run Process
accept_loop size [] p = returns p
accept_loop size (r ∷ rs) p = elim (p.keep_running) [
  | false ↦ returns p
  | true ↦ elim (accept_round size r p) [
    | fault ↦ fault
    | hangs q ↦ hangs q
    | returns q ↦ accept_loop size rs q
  ]
]

-- `main` has returned 0 or -1, waits in `accept`, or waits for ever in a join of the clean-up.
pub data Ending : Type 0 where
  success failure waiting deadlocked : Ending

abbrev pub with_ending : Ending → Run Process → Option (Process × Ending)
with_ending e fault = none
with_ending e (hangs p) = some (p, deadlocked)
with_ending e (returns p) = some (p, e)

-- The loop, and the clean-up behind it.
unfoldable pub serve : ℕ → List Round → Process → Option (Process × Ending)
serve size rounds p = elim (accept_loop size rounds p) [
  | fault ↦ none
  | hangs q ↦ some (q, deadlocked)
  | returns q ↦
      if q.keep_running then some (q, waiting) else with_ending success (cleanup_on_signal size q)
]

-- `main(argc, argv)`; `detached` is the answer of `daemon`, if it is called.
unfoldable pub main :
    ℕ → SetupAnswers → Option Bool → List Round → Process → Option (Process × Ending)
main size a detached rounds p =
    let (q, ready) = setup_server_socket a p in
    elim ready [
      | false ↦ with_ending failure (cleanup_on_signal size q)
      | true ↦ elim detached [
        | none ↦ serve size rounds q
        | some true ↦ serve size rounds q
        | some false ↦ with_ending failure (cleanup_on_signal size q)
      ]
    ]
