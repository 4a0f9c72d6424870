-- ===== src/Server/Threads/Chain.antt =====
-- What a chain of nodes stands for (server/aesdsocket_app/src/thread_manager.c).
use embedded_linux.Common.{
  ℕ, ◌≡◌, ◌≢◌, ap, ◌∙◌, Bool, true, false, ◌||◌, Option, some, List, [], ◌∷◌, arith, ◌==◌,
}
use embedded_linux.Server.Threads.{ThreadNode, put}

-- A thread in the list: the address of its node, and what the node says of it.
pub record Member : Type 0 where
  pub address : ℕ
  pub thread : ℕ
  pub completed : Bool

abbrev pub node_of : Member → ℕ → ThreadNode
node_of m next = record { thread = m.thread; next = next; completed = m.completed }

abbrev pub has : ℕ → List Member → Bool
has a [] = false
has a (m ∷ ms) = (a == m.address) || has a ms

-- From p the nodes lead through distinct live nodes to NULL.
abbrev pub IsChain : (ℕ → Option ThreadNode) → ℕ → List Member → Type 0
IsChain nodes p [] = p ≡ 0
IsChain nodes p (m ∷ ms) =
    (p ≡ m.address)
    × (m.address ≢ 0)
    × (has m.address ms ≡ false)
    × (next : ℕ) × (nodes m.address ≡ some (node_of m next))
    × IsChain nodes next ms

-- Only the addresses of these members may differ.
abbrev pub SameOutside : List Member → (ℕ → Option ThreadNode) → (ℕ → Option ThreadNode) → Type 0
SameOutside ms nodes nodes' = (a : ℕ) → has a ms ≡ false → nodes' a ≡ nodes a

pub put-other :
    (nodes : ℕ → Option ThreadNode) (a b : ℕ) (n : Option ThreadNode)
    → a ≢ b
    → put nodes a n b ≡ nodes b
unfolding put
put-other nodes a b n apart = ground arith

pub put-same : (nodes : ℕ → Option ThreadNode) (a : ℕ) (n : Option ThreadNode) → put nodes a n a ≡ n
unfolding put
put-same nodes a n = ground arith

-- A chain stays one if its own nodes stay.
pub IsChain-frame :
    (nodes nodes' : ℕ → Option ThreadNode) (p : ℕ) (ms : List Member)
    → IsChain nodes p ms
    → ((a : ℕ) → has a ms ≡ true → nodes' a ≡ nodes a)
    → IsChain nodes' p ms
IsChain-frame nodes nodes' p [] h same = h
IsChain-frame nodes nodes' p (m ∷ ms) (at, live, out, next, node, rest) same = (
  at,
  live,
  out,
  next,
  same m.address (ground arith) ∙ node,
  IsChain-frame nodes nodes' next ms rest (λ a i. same a (ground arith)),
)

pub IsChain-put :
    (nodes : ℕ → Option ThreadNode) (p a : ℕ) (n : Option ThreadNode) (ms : List Member)
    → IsChain nodes p ms
    → has a ms ≡ false
    → IsChain (put nodes a n) p ms
IsChain-put nodes p a n ms h out =
    IsChain-frame nodes (put nodes a n) p ms h
      (λ b i. put-other nodes a b n (λ e. absurd (cc (out, i, ap (λ x. has x ms) e))))
