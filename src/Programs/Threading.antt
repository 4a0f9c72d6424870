-- ===== src/Programs/Threading.antt =====
-- `threadfunc` and `start_thread_obtaining_mutex` (examples/threading/threading.c).
use embedded_linux.Common.{
  ℕ, suc, ◌*◌, ◌-◌, ◌≡◌, refl, Bool, true, false, not, ◌&&◌, Option, none, some, List, [], ◌∷◌,
  arith, if◌then◌else◌,
}

pub record ThreadData : Type 0 where
  pub wait_to_obtain_ms : ℕ
  pub wait_to_release_ms : ℕ
  pub thread_complete_success : Bool

-- What the thread does: it sleeps for microseconds, obtains the mutex, gives it back.
pub data Act : Type 0 where
  sleeps : ℕ → Act
  obtains releases : Act

-- `threadfunc(thread_param)`: whether `pthread_mutex_lock` and `pthread_mutex_unlock` return 0.
unfoldable pub threadfunc : Bool → Bool → ThreadData → ThreadData × List Act
threadfunc locks unlocks d =
    if not locks
    then (record d { thread_complete_success = false }, sleeps (d.wait_to_obtain_ms * 1000) ∷ [])
    else if not unlocks
    then (
      record d { thread_complete_success = false },
      sleeps (d.wait_to_obtain_ms * 1000) ∷ obtains ∷ sleeps (d.wait_to_release_ms * 1000) ∷ [],
    )
    else (
      record d { thread_complete_success = true },
      sleeps (d.wait_to_obtain_ms * 1000)
          ∷ obtains
          ∷ sleeps (d.wait_to_release_ms * 1000)
          ∷ releases
          ∷ [],
    )

-- `thread_data_create(..)`, where `malloc` is granted or not.
unfoldable pub thread_data_create : Bool → ℕ → ℕ → Option ThreadData
thread_data_create granted obtain release =
    if granted
    then some (record {
      wait_to_obtain_ms = obtain;
      wait_to_release_ms = release;
      thread_complete_success = false;
    })
    else none

-- The blocks of the caller, the data that a new thread was given, and the result.
pub record Started : Type 0 where
  pub blocks : ℕ
  pub thread : Option ThreadData
  pub result : Bool

-- `start_thread_obtaining_mutex(..)`, where `pthread_create` returns 0 or not.
unfoldable pub start_thread_obtaining_mutex : Bool → Bool → ℕ → ℕ → ℕ → Started
start_thread_obtaining_mutex granted creates obtain release blocks =
    elim (thread_data_create granted obtain release) [
      | none ↦ record { blocks = blocks; thread = none; result = false }
      | some d ↦
          if not creates
          then record { blocks = suc blocks - 1; thread = none; result = false }
          else record { blocks = suc blocks; thread = some d; result = true }
    ]

-- The thread holds the mutex after these acts.
pub holds : Bool → List Act → Bool
holds h [] = h
holds h (sleeps n ∷ acts) = holds h acts
holds h (obtains ∷ acts) = holds true acts
holds h (releases ∷ acts) = holds false acts

-- The thread reports success exactly if it obtained the mutex and gave it back, and it ends with
-- the mutex only if it obtained it and the release was refused.
pub threadfunc_lem :
    (locks unlocks : Bool) (d : ThreadData)
    → let (t, acts) = threadfunc locks unlocks d in
      (t.thread_complete_success ≡ (locks && unlocks))
      × (holds false acts ≡ (locks && not unlocks))
      × (t.wait_to_obtain_ms ≡ d.wait_to_obtain_ms)
      × (t.wait_to_release_ms ≡ d.wait_to_release_ms)
unfolding threadfunc holds
threadfunc_lem false u d = (refl, refl, refl, refl)
threadfunc_lem true false d = (refl, refl, refl, refl)
threadfunc_lem true true d = (refl, refl, refl, refl)

-- The function returns true exactly if both calls are granted; the block is then the thread's, and
-- else no block is left.
pub start_thread_obtaining_mutex_lem :
    (granted creates : Bool) (obtain release blocks : ℕ)
    → let s = start_thread_obtaining_mutex granted creates obtain release blocks in
      (s.result ≡ (granted && creates))
      × (s.blocks ≡ (if granted && creates then suc blocks else blocks))
unfolding start_thread_obtaining_mutex thread_data_create
start_thread_obtaining_mutex_lem false creates obtain release blocks = (refl, refl)
start_thread_obtaining_mutex_lem true false obtain release blocks = (refl, omega arith)
start_thread_obtaining_mutex_lem true true obtain release blocks = (refl, refl)
