-- ===== src/Server/Threads/Kept.antt =====
-- What `remove_completed_threads` (server/aesdsocket_app/src/thread_manager.c) keeps and takes out.
use embedded_linux.Common.{
  ℕ, ◌≡◌, refl, true, false, none, List, [], ◌∷◌, ◌++◌, arith, if◌then◌else◌,
}
use embedded_linux.Server.Threads.{Pool}
use embedded_linux.Server.Threads.Chain.{Member, has, SameOutside}

-- The members that stay, and the threads of the others, in order.
unfoldable pub kept : List Member → List Member
kept [] = []
kept (m ∷ ms) = if m.completed then kept ms else m ∷ kept ms

unfoldable pub finished : List Member → List ℕ
finished [] = []
finished (m ∷ ms) = if m.completed then m.thread ∷ finished ms else finished ms

pub has-kept : (a : ℕ) (ms : List Member) → has a ms ≡ false → has a (kept ms) ≡ false
unfolding kept
has-kept a [] h = refl
has-kept a (m ∷ ms) h = ground (arith, has-kept a ms)

-- What removing leaves: the nodes of the members that stay, and no other of the list's.
pub record IsSwept (p q : Pool) (ms ks : List Member) (ts : List ℕ) : Type 0 where
  pub joined : q.joined ≡ p.joined ++ ts
  pub freed : (a : ℕ) → has a ms ≡ true → has a ks ≡ false → q.nodes a ≡ none
  pub same : SameOutside ms p.nodes q.nodes

pub kept_running :
    (m : Member) (ms : List Member) → m.completed ≡ false → kept (m ∷ ms) ≡ m ∷ kept ms
unfolding kept
kept_running m ms e = rw (kept, e)

pub kept_over : (m : Member) (ms : List Member) → m.completed ≡ true → kept (m ∷ ms) ≡ kept ms
unfolding kept
kept_over m ms e = rw (kept, e)

pub finished_running :
    (m : Member) (ms : List Member) → m.completed ≡ false → finished (m ∷ ms) ≡ finished ms
unfolding finished
finished_running m ms e = rw (finished, e)

pub finished_over :
    (m : Member) (ms : List Member)
    → m.completed ≡ true
    → finished (m ∷ ms) ≡ m.thread ∷ finished ms
unfolding finished
finished_over m ms e = rw (finished, e)
