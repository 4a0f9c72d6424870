-- ===== src/Server/Threads/Remove.antt =====
-- `remove_completed_threads` (server/aesdsocket_app/src/thread_manager.c) on a list of threads.
use mathlib.Core.Path.{subst}
use embedded_linux.Common.{
  ℕ, zero, suc, ◌<◌, ◌≤◌, ◌≡◌, ◌≢◌, refl, sym, ap, ◌∙◌, false, inl, inr, Bool-cases, Option, none,
  some, List, [], ◌∷◌, ◌++◌, arith, ◌==◌, length, append-nil, append_assoc,
}
use embedded_linux.Server.Threads.{
  Pool, unlink, join_and_free, remove_loop, remove_completed_threads,
}
use embedded_linux.Server.Threads.Chain.{
  Member, node_of, has, IsChain, put-other, put-same, IsChain-put,
}
use embedded_linux.Server.Threads.Kept.{
  kept, finished, IsSwept, kept_running, kept_over, finished_running, finished_over,
}
use embedded_linux.Server.Threads.Loop.{
  remove_loop_end, remove_loop_keep, remove_loop_drop, remove_loop-After,
}

-- The loop while no member that stays was met: `thread_list_head` is at `current`.
abbrev Swept : Pool → List Member → List Member → List ℕ → Option Pool → Type 0
Swept p ms ks ts r = (q : Pool) × (r ≡ some q) × IsChain q.nodes q.head ks × IsSwept p q ms ks ts

Swept-drop :
    (p p' : Pool) (m : Member) (ms ks : List Member) (ts : List ℕ) (r : Option Pool)
    → has m.address ms ≡ false
    → p'.joined ≡ p.joined ++ (m.thread ∷ [])
    → p'.nodes m.address ≡ none
    → ((a : ℕ) → a ≢ m.address → p'.nodes a ≡ p.nodes a)
    → Swept p' ms ks ts r
    → Swept p (m ∷ ms) ks (m.thread ∷ ts) r
Swept-drop p p' m ms ks ts r fresh joined' gone same' (q, e, chain, swept) =
    let gone' : q.nodes m.address ≡ none = swept.same m.address fresh ∙ gone in
    (
      q,
      e,
      chain,
      record {
        joined =
            swept.joined ∙ ap (λ l. l ++ ts) joined' ∙ append_assoc p.joined (m.thread ∷ []) ts;
        freed = λ a i o. elim (Bool-cases (a == m.address)) [
          | inl at ↦ ap q.nodes {x = a} {y = m.address} (ground arith) ∙ gone'
          | inr other ↦ swept.freed a (ground arith) o
        ];
        same = λ a o. swept.same a (ground arith) ∙ same' a (ground arith);
      },
    )

remove_loop-Swept :
    (ms : List Member) (k : ℕ) (p : Pool)
    → length ms < k
    → IsChain p.nodes p.head ms
    → Swept p ms (kept ms) (finished ms) (remove_loop k p 0 p.head)
unfolding kept finished join_and_free unlink
remove_loop-Swept ms zero p fuel chain = absurd (omega arith)
remove_loop-Swept [] (suc k) p fuel chain = (
  p,
  remove_loop_end k p 0 p.head chain,
  chain,
  record { joined = sym (append-nil p.joined); freed = λ a i o. absurd (cc); same = λ a o. refl },
)
remove_loop-Swept (m ∷ ms) (suc k) p fuel (at, here, fresh, next, e, rest) =
    let e' : p.nodes p.head ≡ some (node_of m next) = ap p.nodes at ∙ e in
    let here' : p.head ≢ 0 = λ z. here (sym at ∙ z) in
    elim (Bool-cases m.completed) [
      | inr running ↦
          let run = remove_loop_keep k p 0 p.head (node_of m next) here' e' running in
          let (q, eq, chain, head, swept) =
            remove_loop-After ms k p m next (omega arith) here fresh e rest in
          let found : Swept p (m ∷ ms) (m ∷ kept ms) (finished ms)
              (remove_loop k p m.address next) =
            (q, eq, subst (λ x. IsChain q.nodes x (m ∷ kept ms)) (sym (head ∙ at)) chain, swept) in
          let run' : remove_loop (suc k) p 0 p.head ≡ remove_loop k p m.address next =
            run ∙ ap (λ x. remove_loop k p x next) at in
          rw (kept_running m ms running, finished_running m ms running, run') found
      | inl over ↦
          let p' : Pool = join_and_free (record p { head = next }) m.address (node_of m next) in
          let run =
            remove_loop_drop k p 0 p.head (node_of m next) (record p { head = next }) here' e' over
              refl in
          let ih =
            remove_loop-Swept ms k p' (omega arith)
              (IsChain-put _ next m.address none ms rest fresh) in
          let found : Swept p (m ∷ ms) (kept ms) (m.thread ∷ finished ms)
              (remove_loop k p' 0 next) =
            Swept-drop p p' m ms (kept ms) (finished ms) _ fresh refl (put-same _ m.address none)
              (λ a i. put-other _ m.address a none (ground arith)) ih in
          let run' : remove_loop (suc k) p 0 p.head ≡ remove_loop k p' 0 next =
            run
            ∙ ap
                (λ x.
                  remove_loop k (join_and_free (record p { head = next }) x (node_of m next)) 0
                    next)
                at in
          rw (kept_over m ms over, finished_over m ms over, run') found
    ]

-- remove_completed_threads, on a list of at most `size` nodes, returns with exactly the threads
-- that are not completed left in the list, in their order; it joins the completed threads, each
-- once, in their order, frees their nodes, and leaves every address outside the list as it was.
pub remove_completed_threads-IsSwept :
    (size : ℕ) (p : Pool) (ms : List Member)
    → length ms ≤ size
    → IsChain p.nodes p.head ms
    → (q : Pool) × (remove_completed_threads size p ≡ some q)
      × IsChain q.nodes q.head (kept ms)
      × IsSwept p q ms (kept ms) (finished ms)
unfolding remove_completed_threads
remove_completed_threads-IsSwept size p ms fits chain =
    remove_loop-Swept ms (suc size) p (omega arith) chain
