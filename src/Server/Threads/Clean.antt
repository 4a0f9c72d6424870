-- ===== src/Server/Threads/Clean.antt =====
-- `cleanup_thread_list` (server/aesdsocket_app/src/thread_manager.c) on a list of threads.
use embedded_linux.Common.{
  ℕ, zero, suc, ◌<◌, ◌≤◌, ◌≡◌, ◌≢◌, refl, sym, ap, ◌∙◌, Bool, true, false, ◌&&◌, inl, inr,
  Bool-cases, none, some, List, [], ◌∷◌, ◌++◌, arith, ◌==◌, if◌then◌else◌, length, append-nil,
  append_assoc, map,
}
use embedded_linux.Server.Threads.{
  ThreadNode, Pool, returns, hangs, join_and_free, cleanup_loop, cleanup_thread_list,
}
use embedded_linux.Server.Threads.Chain.{
  Member, node_of, has, IsChain, SameOutside, put-other, put-same, IsChain-put,
}

-- Every thread of the list has marked its node; and the threads before the first that has not.
abbrev pub all_completed : List Member → Bool
all_completed [] = true
all_completed (m ∷ ms) = m.completed && all_completed ms

abbrev pub before_running : List Member → List ℕ
before_running [] = []
before_running (m ∷ ms) = if m.completed then m.thread ∷ before_running ms else []

-- No member is left, and every thread was joined.
pub record IsCleaned (p q : Pool) (ms : List Member) : Type 0 where
  pub empty : q.head ≡ 0
  pub joined : q.joined ≡ p.joined ++ map (λ m. m.thread) ms
  pub freed : (a : ℕ) → has a ms ≡ true → q.nodes a ≡ none
  pub same : SameOutside ms p.nodes q.nodes

module _ (k : ℕ) (p : Pool) where
  cleanup_loop_end : p.head ≡ 0 → cleanup_loop (suc k) p ≡ returns p
  unfolding cleanup_loop
  cleanup_loop_end e = let at : (p.head == 0) ≡ true = ground (arith, e) in rw (cleanup_loop, at)

  cleanup_loop_join :
      (n : ThreadNode)
      → p.head ≢ 0
      → p.nodes p.head ≡ some n
      → n.completed ≡ true
      → cleanup_loop (suc k) p
        ≡ cleanup_loop k (join_and_free (record p { head = n.next }) p.head n)
  unfolding cleanup_loop join_and_free
  cleanup_loop_join n live e over =
      let at : (p.head == 0) ≡ false = ground (arith, live) in rw (cleanup_loop, at, e, over)

  cleanup_loop_wait :
      (n : ThreadNode)
      → p.head ≢ 0
      → p.nodes p.head ≡ some n
      → n.completed ≡ false
      → cleanup_loop (suc k) p ≡ hangs (record p { head = n.next })
  unfolding cleanup_loop
  cleanup_loop_wait n live e over =
      let at : (p.head == 0) ≡ false = ground (arith, live) in rw (cleanup_loop, at, e, over)

  -- One round, at a member whose thread has marked its node.
  cleanup_loop_member :
      (m : Member) (next : ℕ)
      → p.head ≡ m.address
      → m.address ≢ 0
      → p.nodes m.address ≡ some (node_of m next)
      → m.completed ≡ true
      → cleanup_loop (suc k) p
        ≡ cleanup_loop k (join_and_free (record p { head = next }) m.address (node_of m next))
  cleanup_loop_member m next at here e over =
      cleanup_loop_join (node_of m next) (λ z. here (sym at ∙ z)) (ap p.nodes at ∙ e) over
      ∙ ap (λ x. cleanup_loop k (join_and_free (record p { head = next }) x (node_of m next))) at

cleanup_loop-IsCleaned :
    (ms : List Member) (k : ℕ) (p : Pool)
    → length ms < k
    → all_completed ms ≡ true
    → IsChain p.nodes p.head ms
    → (q : Pool) × (cleanup_loop k p ≡ returns q) × IsCleaned p q ms
unfolding join_and_free
cleanup_loop-IsCleaned ms zero p fuel over chain = absurd (omega arith)
cleanup_loop-IsCleaned [] (suc k) p fuel over chain = (
  p,
  cleanup_loop_end k p chain,
  record {
    empty = chain;
    joined = sym (append-nil p.joined);
    freed = λ a i. absurd (cc);
    same = λ a o. refl;
  },
)
cleanup_loop-IsCleaned (m ∷ ms) (suc k) p fuel over (at, here, fresh, next, e, rest) =
    let p' : Pool = join_and_free (record p { head = next }) m.address (node_of m next) in
    let run = cleanup_loop_member k p m next at here e (ground arith) in
    let (q, eq, cleaned) =
      cleanup_loop-IsCleaned ms k p' (omega arith) (ground arith)
        (IsChain-put _ next m.address none ms rest fresh) in
    let gone : q.nodes m.address ≡ none =
      cleaned.same m.address fresh ∙ put-same p.nodes m.address none in
    (
      q,
      run ∙ eq,
      record {
        empty = cleaned.empty;
        joined = cleaned.joined ∙ append_assoc p.joined (m.thread ∷ []) (map (λ x. x.thread) ms);
        freed = λ a i. elim (Bool-cases (a == m.address)) [
          | inl at ↦ ap q.nodes {x = a} {y = m.address} (ground arith) ∙ gone
          | inr other ↦ cleaned.freed a (ground arith)
        ];
        same = λ a o.
            cleaned.same a (ground arith) ∙ put-other p.nodes m.address a none (ground arith);
      },
    )

cleanup_loop-hangs :
    (ms : List Member) (k : ℕ) (p : Pool)
    → length ms < k
    → all_completed ms ≡ false
    → IsChain p.nodes p.head ms
    → (q : Pool) × (cleanup_loop k p ≡ hangs q) × (q.joined ≡ p.joined ++ before_running ms)
unfolding join_and_free
cleanup_loop-hangs ms zero p fuel some_running chain = absurd (omega arith)
cleanup_loop-hangs [] (suc k) p fuel some_running chain = absurd (cc)
cleanup_loop-hangs (m ∷ ms) (suc k) p fuel some_running (at, here, fresh, next, e, rest) =
    elim (Bool-cases m.completed) [
      | inr running ↦ (
        record p { head = next },
        cleanup_loop_wait k p (node_of m next) (λ z. here (sym at ∙ z)) (ap p.nodes at ∙ e) running,
        rw running (sym (append-nil p.joined)),
      )
      | inl over ↦
          let (q, eq, joined) =
            cleanup_loop-hangs ms k
              (join_and_free (record p { head = next }) m.address (node_of m next)) (omega arith)
              (ground arith) (IsChain-put _ next m.address none ms rest fresh) in
          (
            q,
            cleanup_loop_member k p m next at here e over ∙ eq,
            rw over (joined ∙ append_assoc p.joined (m.thread ∷ []) (before_running ms)),
          )
    ]

-- cleanup_thread_list, on a list of at most `size` nodes that all are marked, returns with an empty
-- list; it joins every thread of the list, each once, in order, frees every node of the list, and
-- leaves every other address as it was.
pub cleanup_thread_list-IsCleaned :
    (size : ℕ) (p : Pool) (ms : List Member)
    → length ms ≤ size
    → all_completed ms ≡ true
    → IsChain p.nodes p.head ms
    → (q : Pool) × (cleanup_thread_list size p ≡ returns q) × IsCleaned p q ms
unfolding cleanup_thread_list
cleanup_thread_list-IsCleaned size p ms fits over chain =
    cleanup_loop-IsCleaned ms (suc size) p (omega arith) over chain

-- cleanup_thread_list, on a list of at most `size` nodes of which one is not marked, never returns;
-- it has joined the threads before the first such node, each once, in order.
pub cleanup_thread_list-hangs :
    (size : ℕ) (p : Pool) (ms : List Member)
    → length ms ≤ size
    → all_completed ms ≡ false
    → IsChain p.nodes p.head ms
    → (q : Pool) × (cleanup_thread_list size p ≡ hangs q)
      × (q.joined ≡ p.joined ++ before_running ms)
unfolding cleanup_thread_list
cleanup_thread_list-hangs size p ms fits some_running chain =
    cleanup_loop-hangs ms (suc size) p (omega arith) some_running chain
