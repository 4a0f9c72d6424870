-- ===== src/Server/Threads/History.antt =====
-- The list of threads through the life of the server (server/aesdsocket_app/src/thread_manager.c):
-- clients come, end, and are taken out.
use mathlib.Core.Path.{subst}
use native.Mathlib.Decide.{ℕ_discrete}
use embedded_linux.Common.{
  ℕ, suc, ◌+◌, ◌≤◌, ◌≡◌, ◌≢◌, refl, sym, ap, ◌∙◌, true, false, Option, none, some, List, [], ◌∷◌,
  ◌++◌, arith, ◌==◌, if◌then◌else◌, length,
}
use embedded_linux.Server.Threads.{
  ThreadNode, Pool, put, add_thread_to_list, complete, remove_completed_threads,
}
use embedded_linux.Server.Threads.Chain.{
  Member, node_of, has, IsChain, put-other, put-same, IsChain-put,
}
use embedded_linux.Server.Threads.Kept.{kept, finished}
use embedded_linux.Server.Threads.Remove.{remove_completed_threads-IsSwept}

-- A client's thread adds itself, with the answer of `malloc`; the thread of a node ends;
-- `remove_completed_threads` runs.
pub data Event : Type 0 where
  started : Option ℕ → ℕ → Event
  ended : ℕ → Event
  swept : Event

unfoldable pub handle_event : ℕ → Event → Pool → Option Pool
handle_event size (started a thread) p = some (add_thread_to_list a thread p).0
handle_event size (ended a) p = complete a p
handle_event size swept p = remove_completed_threads size p

unfoldable pub run : ℕ → List Event → Pool → Option Pool
run size [] p = some p
run size (e ∷ es) p = elim (handle_event size e p) [ none ↦ none | some q ↦ run size es q ]

-- What the list promises: the members, the newest first, and the threads that were joined.
pub record Roll : Type 0 where
  pub members : List Member
  pub joined : List ℕ

unfoldable pub set_completed : ℕ → List Member → List Member
set_completed a [] = []
set_completed a (m ∷ ms) =
    if a == m.address then record m { completed = true } ∷ ms else m ∷ set_completed a ms

unfoldable pub record_event : Event → Roll → Roll
record_event (started none thread) r = r
record_event (started (some a) thread) r = record r {
  members = record { address = a; thread = thread; completed = false } ∷ r.members;
}
record_event (ended a) r = record r { members = set_completed a r.members }
record_event swept r = record { members = kept r.members; joined = r.joined ++ finished r.members }

unfoldable pub record_all : List Event → Roll → Roll
record_all [] r = r
record_all (e ∷ es) r = record_all es (record_event e r)

-- `malloc` gives no NULL and no block in use; a thread ends whose node is in the list.
abbrev IsPossible : Event → List Member → Type 0
IsPossible (started none thread) ms = Unit {0}
IsPossible (started (some a) thread) ms = (a ≢ 0) × (has a ms ≡ false)
IsPossible (ended a) ms = has a ms ≡ true
IsPossible swept ms = Unit {0}

abbrev pub ArePossible : List Event → Roll → Type 0
ArePossible [] r = Unit {0}
ArePossible (e ∷ es) r = IsPossible e r.members × ArePossible es (record_event e r)

-- The nodes stand for the roll.
abbrev pub StandsFor : Pool → Roll → Type 0
StandsFor p r = IsChain p.nodes p.head r.members × (p.joined ≡ r.joined)

add_thread_to_list-StandsFor :
    (a thread : ℕ) (p : Pool) (r : Roll)
    → a ≢ 0
    → has a r.members ≡ false
    → StandsFor p r
    → StandsFor (add_thread_to_list (some a) thread p).0 (record_event (started (some a) thread) r)
unfolding add_thread_to_list record_event
add_thread_to_list-StandsFor a thread p r live out (chain, joined) = (
  (
    refl,
    live,
    out,
    p.head,
    put-same p.nodes a _,
    IsChain-put p.nodes p.head a _ r.members chain out,
  ),
  joined,
)

has-set_completed : (a b : ℕ) (ms : List Member) → has b (set_completed a ms) ≡ has b ms
unfolding set_completed
has-set_completed a b [] = refl
has-set_completed a b (m ∷ ms) = ground (arith, has-set_completed a b ms)

set_completed_here :
    (a : ℕ) (m : Member) (ms : List Member)
    → a ≡ m.address
    → set_completed a (m ∷ ms) ≡ record m { completed = true } ∷ ms
unfolding set_completed
set_completed_here a m ms at = ground arith

set_completed_later :
    (a : ℕ) (m : Member) (ms : List Member)
    → a ≢ m.address
    → set_completed a (m ∷ ms) ≡ m ∷ set_completed a ms
unfolding set_completed
set_completed_later a m ms at = ground arith

-- The node of a member is marked.
complete-IsChain :
    (ms : List Member) (a : ℕ) (nodes : ℕ → Option ThreadNode) (here : ℕ)
    → has a ms ≡ true
    → IsChain nodes here ms
    → (n : ThreadNode) × (nodes a ≡ some n)
      × IsChain (put nodes a (some (record n { completed = true }))) here (set_completed a ms)
complete-IsChain [] a nodes here i chain = absurd (cc)
complete-IsChain (m ∷ ms) a nodes here i (at, live, fresh, next, node, rest) =
    elim (ℕ_discrete a m.address) [
      | yes e ↦
          let found : nodes a ≡ some (node_of m next) = ap nodes e ∙ node in
          let marked : Option ThreadNode =
            some (record { thread = m.thread; next = next; completed = true }) in
          (
            node_of m next,
            found,
            subst (IsChain (put nodes a marked) here) (sym (set_completed_here a m ms e)) (
              at,
              live,
              fresh,
              next,
              ap (put nodes a marked) (sym e) ∙ put-same nodes a marked,
              IsChain-put nodes next a marked ms rest (ap (λ x. has x ms) e ∙ fresh),
            ),
          )
      | no apart ↦
          let (n, found, chain) = complete-IsChain ms a nodes next (ground arith) rest in
          let marked : Option ThreadNode = some (record n { completed = true }) in
          (
            n,
            found,
            subst (IsChain (put nodes a marked) here) (sym (set_completed_later a m ms apart)) (
              at,
              live,
              has-set_completed a m.address ms ∙ fresh,
              next,
              put-other nodes a m.address marked apart ∙ node,
              chain,
            ),
          )
    ]

complete-StandsFor :
    (a : ℕ) (p : Pool) (r : Roll)
    → has a r.members ≡ true
    → StandsFor p r
    → (q : Pool) × (complete a p ≡ some q) × StandsFor q (record_event (ended a) r)
unfolding complete record_event
complete-StandsFor a p r i (chain, joined) =
    let (n, found, chain') = complete-IsChain r.members a p.nodes p.head i chain in
    (
      record p { nodes = put p.nodes a (some (record n { completed = true })) },
      rw (complete, found),
      (chain', joined),
    )

pub length-kept-le : (ms : List Member) → length (kept ms) ≤ length ms
unfolding kept
length-kept-le [] = omega arith
length-kept-le (m ∷ ms) = ground (arith, length-kept-le ms)

pub length-set_completed : (a : ℕ) (ms : List Member) → length (set_completed a ms) ≡ length ms
unfolding set_completed
length-set_completed a [] = refl
length-set_completed a (m ∷ ms) = ground (arith, length-set_completed a ms)

-- One event, with room for the list.
handle_event-StandsFor :
    (size : ℕ) (e : Event) (p : Pool) (r : Roll)
    → length r.members ≤ size
    → IsPossible e r.members
    → StandsFor p r
    → (q : Pool) × (handle_event size e p ≡ some q) × StandsFor q (record_event e r)
unfolding handle_event record_event
handle_event-StandsFor size (started none thread) p r fits ok stands =
    (p, ap (λ x. some x) (unfold add_thread_to_list in refl), stands)
handle_event-StandsFor size (started (some a) thread) p r fits (live, out) stands =
    (_, refl, add_thread_to_list-StandsFor a thread p r live out stands)
handle_event-StandsFor size (ended a) p r fits i stands = complete-StandsFor a p r i stands
handle_event-StandsFor size swept p r fits ok (chain, joined) =
    let (q, e, chain', s) = remove_completed_threads-IsSwept size p r.members fits chain in
    (q, e, (chain', s.joined ∙ ap (λ l. l ++ finished r.members) joined))

pub length-record_event-le :
    (e : Event) (r : Roll) → length (record_event e r).members ≤ suc (length r.members)
unfolding record_event
length-record_event-le (started none thread) r = omega arith
length-record_event-le (started (some a) thread) r = omega arith
length-record_event-le (ended a) r = omega (arith, length-set_completed a r.members)
length-record_event-le swept r = omega (arith, length-kept-le r.members)

pub length-record_all-le :
    (es : List Event) (r : Roll) → length (record_all es r).members ≤ length r.members + length es
unfolding record_all
length-record_all-le [] r = omega arith
length-record_all-le (e ∷ es) r =
    omega (arith, length-record_all-le es (record_event e r), length-record_event-le e r)

-- From a pool whose nodes stand for a roll, any history of possible events runs, with a bound on
-- the list's length that is at least the roll's and the events' lengths together: no operation uses
-- a node that was freed, and at the end the nodes stand for what the events make of the roll.
pub run-StandsFor :
    (size : ℕ) (es : List Event) (p : Pool) (r : Roll)
    → length r.members + length es ≤ size
    → ArePossible es r
    → StandsFor p r
    → (q : Pool) × (run size es p ≡ some q) × StandsFor q (record_all es r)
unfolding run record_all
run-StandsFor size [] p r fits ok stands = (p, refl, stands)
run-StandsFor size (e ∷ es) p r fits (now, later) stands =
    let (q, eq, stands') = handle_event-StandsFor size e p r (omega arith) now stands in
    let (q', eq', stands'') =
      run-StandsFor size es q (record_event e r) (omega (arith, length-record_event-le e r)) later
        stands' in
    (q', rw (run, eq) eq', stands'')
