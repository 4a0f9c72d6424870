-- ===== src/Server/Threads.antt =====
-- The list of threads of server/aesdsocket_app/src/thread_manager.c: nodes at addresses, linked by
-- `next` from `thread_list_head`. An operation is none where the code would use a node that is not
-- live.
pub mod Chain
pub mod Kept
pub mod Loop
pub mod Remove
pub mod Clean
pub mod History
pub mod Wait
mod Tests
use embedded_linux.Common.{
  ℕ, zero, suc, Bool, true, false, Option, none, some, List, [], ◌∷◌, ◌++◌, ◌==◌, if◌then◌else◌,
}

-- `thread_node_t`; the address 0 is NULL.
pub record ThreadNode : Type 0 where
  pub thread : ℕ
  pub next : ℕ
  pub completed : Bool

-- The nodes, `thread_list_head`, and the threads that were joined, in order.
pub record Pool : Type 0 where
  pub nodes : ℕ → Option ThreadNode
  pub head : ℕ
  pub joined : List ℕ

unfoldable pub put : (ℕ → Option ThreadNode) → ℕ → Option ThreadNode → ℕ → Option ThreadNode
put nodes a n b = if a == b then n else nodes b

-- `malloc` gives a new address, or refuses.
unfoldable pub add_thread_to_list : Option ℕ → ℕ → Pool → Pool × ℕ
add_thread_to_list none thread p = (p, 0)
add_thread_to_list (some a) thread p = (
  record p {
    nodes = put p.nodes a (some (record { thread = thread; next = p.head; completed = false }));
    head = a;
  },
  a,
)

-- `my_node->completed = 1` of `handle_client`, for the node at `a`.
unfoldable pub complete : ℕ → Pool → Option Pool
complete a p = elim (p.nodes a) [
  | none ↦ none
  | some n ↦ some (record p { nodes = put p.nodes a (some (record n { completed = true })) })
]

-- `prev->next = next`, or `thread_list_head = next` without a `prev`.
unfoldable pub unlink : Pool → ℕ → ℕ → Option Pool
unlink p prev next = elim (prev == 0) [
  | true ↦ some (record p { head = next })
  | false ↦ elim (p.nodes prev) [
    | none ↦ none
    | some n ↦ some (record p { nodes = put p.nodes prev (some (record n { next = next })) })
  ]
]

-- `pthread_join(to_free->thread, NULL)` and `free(to_free)`.
unfoldable pub join_and_free : Pool → ℕ → ThreadNode → Pool
join_and_free p a n = record p { nodes = put p.nodes a none; joined = p.joined ++ (n.thread ∷ []) }

-- The loop of `remove_completed_threads`, by the rounds left.
unfoldable pub remove_loop : ℕ → Pool → ℕ → ℕ → Option Pool
remove_loop zero p prev current = none
remove_loop (suc k) p prev current = elim (current == 0) [
  | true ↦ some p
  | false ↦ elim (p.nodes current) [
    | none ↦ none
    | some n ↦ elim (n.completed) [
      | false ↦ remove_loop k p current n.next
      | true ↦ elim (unlink p prev n.next) [
        | none ↦ none
        | some q ↦ remove_loop k (join_and_free q current n) prev n.next
      ]
    ]
  ]
]

-- `remove_completed_threads()`, for a list of at most `size` nodes.
unfoldable pub remove_completed_threads : ℕ → Pool → Option Pool
remove_completed_threads size p = remove_loop (suc size) p 0 p.head

-- A call returns, waits in a join for ever, or uses a node that is not live.
pub data Run {ℓ} (A : Type ℓ) : Type ℓ where
  returns : A → Run A
  hangs : A → Run A
  fault : Run A

-- The loop of `cleanup_thread_list`, by the rounds left. The caller has `thread_list_mutex`, which a
-- thread takes to mark its node before it returns: the join of a thread whose node is not marked
-- never returns.
unfoldable pub cleanup_loop : ℕ → Pool → Run Pool
cleanup_loop zero p = fault
cleanup_loop (suc k) p = elim (p.head == 0) [
  | true ↦ returns p
  | false ↦ elim (p.nodes p.head) [
    | none ↦ fault
    | some n ↦ elim (n.completed) [
      | true ↦ cleanup_loop k (join_and_free (record p { head = n.next }) p.head n)
      | false ↦ hangs (record p { head = n.next })
    ]
  ]
]

-- `cleanup_thread_list()`, for a list of at most `size` nodes.
unfoldable pub cleanup_thread_list : ℕ → Pool → Run Pool
cleanup_thread_list size p = cleanup_loop (suc size) p
