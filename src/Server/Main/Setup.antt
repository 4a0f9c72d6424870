-- ===== src/Server/Main/Setup.antt =====
-- `cleanup_on_signal`, and `main` when setup_server_socket fails (server/aesdsocket.c,
-- server/aesdsocket_app/src).
use mathlib.Core.Path.{subst}
use embedded_linux.Common.{
  ℕ, suc, ◌+◌, ◌≤◌, ◌≡◌, refl, sym, ap, ◌∙◌, ◌++◌, Bool, true, false, ◌&&◌, inl, inr, Bool-cases,
  Option, none, some, List, arith, ◌==◌, ==_refl, ==_iff, length,
}
use embedded_linux.Server.Threads.{Pool, returns, hangs, cleanup_thread_list}
use embedded_linux.Server.Threads.Chain.{Member, IsChain}
use embedded_linux.Server.Threads.Clean.{
  all_completed, before_running, IsCleaned, cleanup_thread_list-IsCleaned,
  cleanup_thread_list-hangs,
}
use embedded_linux.Server.Main.{
  Process, set_owned, close, SetupAnswers, setup_server_socket, close_server, lock_list,
  cleanup_on_signal, Round, failure, main, with_ending,
}

pub close_owned :
    (fd : ℕ) (p : Process)
    → p.owned fd ≡ true
    → close fd p ≡ record p { owned = set_owned p.owned fd false }
unfolding close
close_owned fd p e = rw (close, e)

pub close_stale :
    (fd : ℕ) (p : Process)
    → p.owned fd ≡ false
    → close fd p ≡ record p { stale_closes = suc p.stale_closes }
unfolding close
close_stale fd p e = rw (close, e)

pub close_server-threads : (p : Process) → (close_server p).threads ≡ p.threads
unfolding close_server close
close_server-threads p = ground arith

pub lock_list-threads : (p : Process) → (lock_list p).threads ≡ p.threads
unfolding lock_list
lock_list-threads p = ground arith

-- cleanup_on_signal returns, for a list of at most `size` threads that all have marked their nodes,
-- with the descriptor of the server closed, the list empty and all of its threads joined.
pub cleanup_on_signal-IsCleaned :
    (size : ℕ) (p : Process) (ms : List Member)
    → length ms ≤ size
    → all_completed ms ≡ true
    → IsChain p.threads.nodes p.threads.head ms
    → (threads : Pool) × (cleanup_on_signal size p
        ≡ returns (record (lock_list (close_server p)) {
          threads = threads;
          destroyed = suc (lock_list (close_server p)).destroyed;
        }))
      × IsCleaned p.threads threads ms
unfolding cleanup_on_signal
cleanup_on_signal-IsCleaned size p ms fits over chain =
    let (q, e, cleaned) = cleanup_thread_list-IsCleaned size p.threads ms fits over chain in
    let same = lock_list-threads (close_server p) ∙ close_server-threads p in
    let e' : cleanup_thread_list size (lock_list (close_server p)).threads ≡ returns q =
      ap (cleanup_thread_list size) same ∙ e in
    (q, rw (cleanup_on_signal, e') refl, cleaned)

-- cleanup_on_signal never returns, if a thread of the list has not marked its node.
pub cleanup_on_signal-hangs :
    (size : ℕ) (p : Process) (ms : List Member)
    → length ms ≤ size
    → all_completed ms ≡ false
    → IsChain p.threads.nodes p.threads.head ms
    → (threads : Pool) × (cleanup_on_signal size p
        ≡ hangs (record (lock_list (close_server p)) { threads = threads }))
      × (threads.joined ≡ p.threads.joined ++ before_running ms)
unfolding cleanup_on_signal
cleanup_on_signal-hangs size p ms fits running chain =
    let (q, e, joined) = cleanup_thread_list-hangs size p.threads ms fits running chain in
    let same = lock_list-threads (close_server p) ∙ close_server-threads p in
    let e' : cleanup_thread_list size (lock_list (close_server p)).threads ≡ hangs q =
      ap (cleanup_thread_list size) same ∙ e in
    (q, rw (cleanup_on_signal, e') refl, joined)

-- The number of descriptors that `socket` gave.
abbrev pub count : Option ℕ → ℕ
count none = 0
count (some fd) = 1

-- `setsockopt`, `bind` and `listen` are granted.
abbrev pub granted : SetupAnswers → Bool
granted a = a.setsockopt && (a.bind && a.listen)

-- The process with the descriptor of the server open, and with it closed again.
abbrev pub opened : ℕ → Process → Process
opened fd p = record p { server_socket = some fd; owned = set_owned p.owned fd true }

abbrev reclosed : ℕ → Process → Process
reclosed fd p = record p {
  server_socket = some fd;
  owned = set_owned (set_owned p.owned fd true) fd false;
}

module _ (a : SetupAnswers) (p : Process) where
  setup_none :
      a.socket ≡ none → setup_server_socket a p ≡ (record p { server_socket = none }, false)
  unfolding setup_server_socket
  setup_none e = rw (setup_server_socket, e)

  pub setup_granted :
      (fd : ℕ)
      → a.socket ≡ some fd
      → granted a ≡ true
      → setup_server_socket a p ≡ (opened fd p, true)
  unfolding setup_server_socket
  setup_granted fd e g =
      let s : a.setsockopt ≡ true = ground arith in
      let b : a.bind ≡ true = ground arith in
      let l : a.listen ≡ true = ground arith in rw (setup_server_socket, e, s, b, l)

  setup_refused :
      (fd : ℕ)
      → a.socket ≡ some fd
      → granted a ≡ false
      → setup_server_socket a p ≡ (reclosed fd p, false)
  unfolding setup_server_socket
  setup_refused fd e g =
      let at : set_owned p.owned fd true fd ≡ true = rw (==_refl fd) in
      let again : close fd (opened fd p) ≡ reclosed fd p = close_owned fd (opened fd p) at in
      elim (Bool-cases a.setsockopt) [
        | inr s ↦ rw (setup_server_socket, e, s) (ap (λ x. (x, false)) again)
        | inl s ↦ elim (Bool-cases a.bind) [
          | inr b ↦ rw (setup_server_socket, e, s, b) (ap (λ x. (x, false)) again)
          | inl b ↦
              let l : a.listen ≡ false = ground arith in
              rw (setup_server_socket, e, s, b, l) (ap (λ x. (x, false)) again)
        ]
      ]

pub set_owned_back :
    (owned : ℕ → Bool) (fd x : ℕ)
    → owned fd ≡ false
    → set_owned (set_owned owned fd true) fd false x ≡ owned x
set_owned_back owned fd x fresh = elim (Bool-cases (fd == x)) [
  | inl e ↦ rw e (sym fresh ∙ ap owned ((==_iff fd x).0 e))
  | inr e ↦ rw e refl
]

main_failed :
    (size : ℕ) (a : SetupAnswers) (detached : Option Bool) (rounds : List Round) (p r : Process)
    → setup_server_socket a p ≡ (r, false)
    → main size a detached rounds p ≡ with_ending failure (cleanup_on_signal size r)
unfolding main
main_failed size a detached rounds p r e =
    let at = ap (λ x. x.1) e in
    rw (main, at) (ap (λ x. with_ending failure (cleanup_on_signal size x.0)) e)

pub lock_list-close :
    (p : Process) → ((lock_list p).stale_closes ≡ p.stale_closes) × ((lock_list p).owned ≡ p.owned)
unfolding lock_list
lock_list-close p = elim (Bool-cases (p.destroyed == 0)) [
  | inl e ↦ rw e (refl, refl)
  | inr e ↦ rw e (refl, refl)
]

-- What main ends with, from the process that the set-up leaves.
Refused : ℕ → SetupAnswers → Option Bool → List Round → Process → List Member → ℕ → Type 0
Refused size a detached rounds p ms n =
    (q : Process) × (main size a detached rounds p ≡ some (q, failure))
    × (q.stale_closes ≡ p.stale_closes + n)
    × ((x : ℕ) → q.owned x ≡ p.owned x)
    × IsCleaned p.threads q.threads ms

main_cleaned :
    (size : ℕ) (a : SetupAnswers) (detached : Option Bool) (rounds : List Round) (p r : Process)
    (ms : List Member) (n : ℕ)
    → length ms ≤ size
    → all_completed ms ≡ true
    → IsChain p.threads.nodes p.threads.head ms
    → setup_server_socket a p ≡ (r, false)
    → r.threads ≡ p.threads
    → (close_server r).stale_closes ≡ p.stale_closes + n
    → ((x : ℕ) → (close_server r).owned x ≡ p.owned x)
    → Refused size a detached rounds p ms n
unfolding Refused
main_cleaned size a detached rounds p r ms n fits over chain e same stale owned =
    let (threads, run, cleaned) =
      cleanup_on_signal-IsCleaned size r ms fits over
        (subst (λ t. IsChain t.nodes t.head ms) (sym same) chain) in
    let (keeps, owns) = lock_list-close (close_server r) in
    (
      _,
      main_failed size a detached rounds p r e ∙ ap (with_ending failure) run,
      keeps ∙ stale,
      λ x. ap (λ f. f x) owns ∙ owned x,
      subst (λ t. IsCleaned t threads ms) same cleaned,
    )

main-Refused :
    (size : ℕ) (a : SetupAnswers) (detached : Option Bool) (rounds : List Round) (p : Process)
    (ms : List Member) (socket : Option ℕ)
    → length ms ≤ size
    → all_completed ms ≡ true
    → IsChain p.threads.nodes p.threads.head ms
    → ((fd : ℕ) → a.socket ≡ some fd → p.owned fd ≡ false)
    → (setup_server_socket a p).1 ≡ false
    → a.socket ≡ socket
    → Refused size a detached rounds p ms (count socket)
unfolding close_server
main-Refused size a detached rounds p ms none fits over chain fresh refused e =
    main_cleaned size a detached rounds p (record p { server_socket = none }) ms 0 fits over chain
      (setup_none a p e) refl (omega arith) (λ x. refl)
main-Refused size a detached rounds p ms (some fd) fits over chain fresh refused e =
    elim (Bool-cases (granted a)) [
      | inl g ↦ absurd (cc (refused, ap (λ x. x.1) (setup_granted a p fd e g)))
      | inr g ↦
          let again = close_stale fd (reclosed fd p) (rw (==_refl fd)) in
          main_cleaned size a detached rounds p (reclosed fd p) ms 1 fits over chain
            (setup_refused a p fd e g) refl (ap (λ x. x.stale_closes) again ∙ omega arith)
            (λ x. ap (λ y. y.owned x) again ∙ set_owned_back p.owned fd x (fresh fd e))
    ]

-- main, when setup_server_socket fails, returns -1 with no descriptor open that was not open before
-- and with the threads of the list joined, if all of them have marked their nodes. If `socket` succeeded, so that a later call failed, the
-- descriptor is closed a second time: setup_server_socket closes it and leaves its number in
-- `server_socket`, and cleanup_on_signal closes that.
pub main-refused :
    (size : ℕ) (a : SetupAnswers) (detached : Option Bool) (rounds : List Round) (p : Process)
    (ms : List Member)
    → length ms ≤ size
    → all_completed ms ≡ true
    → IsChain p.threads.nodes p.threads.head ms
    → ((fd : ℕ) → a.socket ≡ some fd → p.owned fd ≡ false)
    → (setup_server_socket a p).1 ≡ false
    → (q : Process) × (main size a detached rounds p ≡ some (q, failure))
      × (q.stale_closes ≡ p.stale_closes + count a.socket)
      × ((x : ℕ) → q.owned x ≡ p.owned x)
      × IsCleaned p.threads q.threads ms
unfolding Refused
main-refused size a detached rounds p ms fits over chain fresh refused =
    main-Refused size a detached rounds p ms a.socket fits over chain fresh refused refl
