-- ===== src/Server/Threads/Loop.antt =====
-- The loop of `remove_completed_threads` behind a thread that stays
-- (server/aesdsocket_app/src/thread_manager.c).
use embedded_linux.Common.{
  ℕ, zero, suc, ◌<◌, ◌≡◌, ◌≢◌, refl, sym, ap, ◌∙◌, true, false, inl, inr, Bool-cases, Option, none,
  some, List, [], ◌∷◌, ◌++◌, arith, ◌==◌, length, append-nil, append_assoc,
}
use embedded_linux.Server.Threads.{ThreadNode, Pool, put, unlink, join_and_free, remove_loop}
use embedded_linux.Server.Threads.Chain.{
  Member, node_of, has, IsChain, put-other, put-same, IsChain-put,
}
use embedded_linux.Server.Threads.Kept.{
  kept, finished, has-kept, IsSwept, kept_running, kept_over, finished_running, finished_over,
}

module _ (k : ℕ) (p : Pool) (prev current : ℕ) where
  pub remove_loop_end : current ≡ 0 → remove_loop (suc k) p prev current ≡ some p
  unfolding remove_loop
  remove_loop_end e = let at : (current == 0) ≡ true = ground (arith, e) in rw (remove_loop, at)

  pub remove_loop_keep :
      (n : ThreadNode)
      → current ≢ 0
      → p.nodes current ≡ some n
      → n.completed ≡ false
      → remove_loop (suc k) p prev current ≡ remove_loop k p current n.next
  unfolding remove_loop
  remove_loop_keep n live e running =
      let at : (current == 0) ≡ false = ground (arith, live) in rw (remove_loop, at, e, running)

  pub remove_loop_drop :
      (n : ThreadNode) (q : Pool)
      → current ≢ 0
      → p.nodes current ≡ some n
      → n.completed ≡ true
      → unlink p prev n.next ≡ some q
      → remove_loop (suc k) p prev current ≡ remove_loop k (join_and_free q current n) prev n.next
  unfolding remove_loop join_and_free
  remove_loop_drop n q live e over u =
      let at : (current == 0) ≡ false = ground (arith, live) in rw (remove_loop, at, e, over, u)

unlink-node :
    (p : Pool) (prev next : ℕ) (n : ThreadNode)
    → prev ≢ 0
    → p.nodes prev ≡ some n
    → unlink p prev next
      ≡ some (record p { nodes = put p.nodes prev (some (record n { next = next })) })
unfolding unlink
unlink-node p prev next n live e =
    let at : (prev == 0) ≡ false = ground (arith, live) in rw (unlink, at, e)

-- The loop behind a member that stays.
abbrev pub After : Pool → Member → List Member → List Member → List ℕ → Option Pool → Type 0
After p c ms ks ts r =
    (q : Pool) × (r ≡ some q)
    × IsChain q.nodes c.address (c ∷ ks)
    × (q.head ≡ p.head)
    × IsSwept p q (c ∷ ms) (c ∷ ks) ts

After-keep :
    (p : Pool) (c m : Member) (ms ks : List Member) (ts : List ℕ) (r : Option Pool)
    → c.address ≢ 0
    → has c.address (m ∷ ms) ≡ false
    → has c.address ks ≡ false
    → p.nodes c.address ≡ some (node_of c m.address)
    → After p m ms ks ts r
    → After p c (m ∷ ms) (m ∷ ks) ts r
After-keep p c m ms ks ts r live out out' node (q, e, chain, head, swept) = (
  q,
  e,
  (refl, live, ground arith, m.address, swept.same c.address out ∙ node, chain),
  head,
  record {
    joined = swept.joined;
    freed = λ a i o. swept.freed a (ground arith) (ground arith);
    same = λ a o. swept.same a (ground arith);
  },
)

After-drop :
    (p p' : Pool) (c m : Member) (ms ks : List Member) (ts : List ℕ) (r : Option Pool)
    → c.address ≢ m.address
    → has m.address ms ≡ false
    → has m.address ks ≡ false
    → p'.head ≡ p.head
    → p'.joined ≡ p.joined ++ (m.thread ∷ [])
    → p'.nodes m.address ≡ none
    → ((a : ℕ) → a ≢ c.address → a ≢ m.address → p'.nodes a ≡ p.nodes a)
    → After p' c ms ks ts r
    → After p c (m ∷ ms) ks (m.thread ∷ ts) r
After-drop p p' c m ms ks ts r apart fresh fresh' head' joined' gone same'
      (q, e, chain, head, swept) =
    let gone' : q.nodes m.address ≡ none = swept.same m.address (ground arith) ∙ gone in
    (
      q,
      e,
      chain,
      head ∙ head',
      record {
        joined =
            swept.joined ∙ ap (λ l. l ++ ts) joined' ∙ append_assoc p.joined (m.thread ∷ []) ts;
        freed = λ a i o. elim (Bool-cases (a == m.address)) [
          | inl at ↦ ap q.nodes {x = a} {y = m.address} (ground arith) ∙ gone'
          | inr other ↦ swept.freed a (ground arith) o
        ];
        same = λ a o. swept.same a (ground arith) ∙ same' a (ground arith) (ground arith);
      },
    )

-- The pool after the node behind `prev` was unlinked, joined and freed.
abbrev dropped : Pool → Member → Member → ℕ → Pool
dropped p c m next =
    join_and_free (record p { nodes = put p.nodes c.address (some (node_of c next)) }) m.address
      (node_of m next)

pub remove_loop-After :
    (ms : List Member) (k : ℕ) (p : Pool) (c : Member) (current : ℕ)
    → length ms < k
    → c.address ≢ 0
    → has c.address ms ≡ false
    → p.nodes c.address ≡ some (node_of c current)
    → IsChain p.nodes current ms
    → After p c ms (kept ms) (finished ms) (remove_loop k p c.address current)
unfolding kept finished join_and_free
remove_loop-After ms zero p c current fuel live out node chain = absurd (omega arith)
remove_loop-After [] (suc k) p c current fuel live out node chain = (
  p,
  remove_loop_end k p c.address current chain,
  (refl, live, refl, current, node, chain),
  refl,
  record { joined = sym (append-nil p.joined); freed = λ a i o. absurd (cc); same = λ a o. refl },
)
remove_loop-After (m ∷ ms) (suc k) p c current fuel live out node (at, here, fresh, next, e, rest) =
    let e' : p.nodes current ≡ some (node_of m next) = ap p.nodes at ∙ e in
    let here' : current ≢ 0 = λ z. here (sym at ∙ z) in
    elim (Bool-cases m.completed) [
      | inr running ↦
          let ih = remove_loop-After ms k p m next (omega arith) here fresh e rest in
          let run = remove_loop_keep k p c.address current (node_of m next) here' e' running in
          let found : After p c (m ∷ ms) (m ∷ kept ms) (finished ms)
              (remove_loop k p m.address next) =
            After-keep p c m ms (kept ms) (finished ms) _ live out
              (has-kept c.address ms (ground arith)) (node ∙ ap (λ x. some (node_of c x)) at) ih in
          rw (kept_running m ms running, finished_running m ms running, run, at) found
      | inl over ↦
          let out' : has c.address ms ≡ false = ground arith in
          let apart : c.address ≢ m.address = ground arith in
          let p' : Pool = dropped p c m next in
          let u = unlink-node p c.address next (node_of c current) live node in
          let run = remove_loop_drop k p c.address current (node_of m next) _ here' e' over u in
          let ih =
            remove_loop-After ms k p' c next (omega arith) live out'
              (put-other _ m.address c.address none (ground arith) ∙ put-same _ c.address _)
              (IsChain-put _ next m.address none ms (IsChain-put _ next c.address _ ms rest out')
                fresh) in
          let found : After p c (m ∷ ms) (kept ms) (m.thread ∷ finished ms)
              (remove_loop k p' c.address next) =
            After-drop p p' c m ms (kept ms) (finished ms) _ apart fresh (has-kept _ ms fresh) refl
              refl (put-same _ m.address none)
              (λ a i j.
                put-other _ m.address a none (ground arith)
                ∙ put-other _ c.address a _ (ground arith))
              ih in
          rw (kept_over m ms over, finished_over m ms over, run, at) found
    ]
