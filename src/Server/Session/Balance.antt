-- ===== src/Server/Session/Balance.antt =====
-- Whatever the system answers, a client's thread (server/aesdsocket_app/src/thread_manager.c)
-- leaves the device in order and gives back what it took.
use mathlib.Core.Path.{subst}
use embedded_linux.Common.{
  ℕ, suc, ◌-◌, ◌≡◌, refl, sym, ap, Bool, true, false, Option, none, some, List, ◌⊎◌, inl, inr,
  Bool-cases, if◌then◌else◌,
}
use embedded_linux.Memory.{Allocator}
use embedded_linux.Driver.Seek.{SeekTo}
use embedded_linux.Server.{Answers, Client}
use embedded_linux.Server.Session.{receive_loop, add_node, mark_completed, finish, handle_client}
use embedded_linux.Server.Session.Done.{receive_loop-IsAt}
use embedded_linux.Server.Session.Held.{IsCalm, IsAt}

node_marked : (o : Option Bool) → (mark_completed o ≡ none) ⊎ (mark_completed o ≡ some true)
node_marked none = inl refl
node_marked (some b) = inr refl

finish-IsAt :
    (blocks n : ℕ) (open_now : Bool) (flag : Option Bool) (m : Client)
    → IsAt false 0 (n, open_now, flag) m
    → IsAt false 0 (n - blocks, false, mark_completed flag) (finish blocks m)
unfolding finish
finish-IsAt blocks n open_now flag m h = record {
  idle = h.idle;
  mutex = h.mutex;
  open_now = h.open_now;
  others = ap (λ (r : ℕ × Bool × Option Bool). (r.0 - blocks, false, mark_completed r.2)) h.others;
}

-- `handle_client`, whatever the client sends and the system answers, and whatever other threads do
-- while it does not hold the mutex, as long as they leave the device in order (`IsCalm`): a thread
-- that starts with its one block, an open socket and neither the mutex nor a descriptor, on a
-- device that is in order, ends with no block, the socket closed, neither the mutex nor a
-- descriptor, its node (if it got one) marked completed, and the device in order.
pub handle_client-IsAt :
    (a : Allocator) (env : Answers) (scan : List ℕ → Option SeekTo) (m : Client)
    (chunks : List (List ℕ))
    → IsCalm env
    → IsAt false 0 (1, true, none) m
    → (node : Option Bool) × ((node ≡ none) ⊎ (node ≡ some true))
      × IsAt false 0 (0, false, node) (handle_client a env scan m chunks)
unfolding handle_client add_node
handle_client-IsAt a env scan m chunks calm h =
    let node : Option Bool = if (env m.calls).refused then none else some false in
    let started : (n : ℕ) (k : ℕ)
        → n ≡ k
        → IsAt false 0 (k, true, node)
            (record m { calls = suc (suc m.calls); blocks = n; node = node }) =
      λ n k e. record {
        idle = h.idle;
        mutex = h.mutex;
        open_now = h.open_now;
        others = λ i. (e i, (h.others i).1, node);
      } in
    let one : m.blocks ≡ 1 = ap (λ (r : ℕ × Bool × Option Bool). r.0) h.others in
    let began : ℕ → Client = λ n. record m { calls = suc (suc m.calls); blocks = n; node = node } in
    (
      mark_completed node,
      node_marked node,
      elim (Bool-cases (env (suc m.calls)).refused) [
        | inl e ↦
            let run : handle_client a env scan m chunks ≡ finish 1 (began m.blocks) =
              simp (handle_client, add_node, e) in
            subst (IsAt false 0 (0, false, mark_completed node)) (sym run)
              (finish-IsAt 1 1 true node _ (started m.blocks 1 one))
        | inr e ↦
            let run : handle_client a env scan m chunks
                ≡ finish 2 (receive_loop a env scan (began (suc m.blocks)) chunks) =
              simp (handle_client, add_node, e) in
            subst (IsAt false 0 (0, false, mark_completed node)) (sym run) (
              finish-IsAt 2 2 true node _ (
                receive_loop-IsAt env calm a scan _ chunks (started (suc m.blocks) 2 (ap suc one))))
      ],
    )
