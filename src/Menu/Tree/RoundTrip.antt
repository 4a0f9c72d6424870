-- ===== src/Menu/Tree/RoundTrip.antt =====
-- What `makeTree` of docs/html/menu.js writes, read back.
use embedded_linux.Common.{
  ℕ, zero, suc, ◌≤◌, ◌≡◌, refl, sym, ap, ◌∙◌, true, Option, none, some, [], ◌∷◌, ◌++◌, arith,
  append-nil, append_assoc,
}
use embedded_linux.Common.Codes.{drop_prefix, lacks, before-append, from-append}
use embedded_linux.Search.{Str}
use embedded_linux.Menu.Tree.{
  Children, leaf, children, Items, nil, cons, link_url, list_open, list_close, item_open, link_end,
  link_close, item_close, make_tree, make_items,
}
use embedded_linux.Menu.Tree.Read.{
  ◌>>=◌, read_link, read_tree, read_items, resolved, resolved_items, IsQuotable, AreQuotable, size,
  size_items,
}

read_link_lem :
    (url name rest : Str)
    → lacks 34 url ≡ true
    → lacks 60 name ≡ true
    → read_link (url ++ (link_end ++ (name ++ (link_close ++ rest)))) ≡ some (name, url, rest)
unfolding read_link
read_link_lem url name rest u n = simp (
  before-append 34 url (62 ∷ (name ++ (link_close ++ rest))) u,
  from-append 34 url (62 ∷ (name ++ (link_close ++ rest))) u,
  before-append 60 name (47 ∷ 97 ∷ 62 ∷ rest) n,
  from-append 60 name (47 ∷ 97 ∷ 62 ∷ rest) n,
)

-- A printed item and what follows it, bracketed as the reader takes them.
item_regroup :
    (a b c d e f g h rest : Str)
    → ((a ++ (b ++ (c ++ (d ++ (e ++ (f ++ g)))))) ++ h) ++ rest
      ≡ a ++ (b ++ (c ++ (d ++ (e ++ (f ++ (g ++ (h ++ rest)))))))
item_regroup a b c d e f g h rest = simp (append_assoc)

list_regroup : (a b c rest : Str) → (a ++ (b ++ c)) ++ rest ≡ a ++ (b ++ (c ++ rest))
list_regroup a b c rest = simp (append_assoc)

read_tree_children :
    (k : ℕ) (s rest : Str) (items : Items)
    → read_items k s ≡ some (items, list_close ++ rest)
    → read_tree (suc k) (list_open ++ s) ≡ some (children items, rest)
unfolding read_tree
read_tree_children k s rest items h =
    ap (λ x. x >>= λ r. drop_prefix list_close r.1 >>= λ u. some (children r.0, u)) h

read_items_cons :
    (k : ℕ) (s t u rest name url : Str) (below : Children) (items : Items)
    → read_link s ≡ some (name, url, t)
    → read_tree k t ≡ some (below, item_close ++ u)
    → read_items k u ≡ some (items, rest)
    → read_items (suc k) (item_open ++ s) ≡ some (cons name url below items, rest)
unfolding read_items
read_items_cons k s t u rest name url below items link tree later =
    ap
      (λ x. x >>= λ l. read_tree k l.2 >>= λ c. drop_prefix item_close c.1 >>= λ v.
        read_items k v >>= λ r. some (cons l.0 l.1 c.0 r.0, r.1))
      link
    ∙ ap
        (λ x. x >>= λ c. drop_prefix item_close c.1 >>= λ v.
          read_items k v >>= λ r. some (cons name url c.0 r.0, r.1))
        tree
    ∙ ap (λ x. x >>= λ r. some (cons name url below r.0, r.1)) later

read_tree_leaf :
    (k : ℕ) (rest : Str)
    → drop_prefix list_open rest ≡ none
    → read_tree (suc k) rest ≡ some (leaf, rest)
unfolding read_tree
read_tree_leaf k rest h =
    ap
      (λ (x : Option Str). elim x as (λ _. Option (Children × Str)) [
        | none ↦ some (leaf, rest)
        | some t ↦
            read_items k t >>= λ r. drop_prefix list_close r.1 >>= λ u. some (children r.0, u)
      ])
      h

read_items_nil :
    (k : ℕ) (rest : Str)
    → drop_prefix item_open rest ≡ none
    → read_items (suc k) rest ≡ some (nil, rest)
unfolding read_items
read_items_nil k rest h =
    ap
      (λ (x : Option Str). elim x as (λ _. Option (Items × Str)) [
        | none ↦ some (nil, rest)
        | some t ↦ read_link t >>= λ l. read_tree k l.2 >>= λ c. drop_prefix item_close c.1 >>= λ u.
            read_items k u >>= λ r. some (cons l.0 l.1 c.0 r.0, r.1)
      ])
      h

mutual
  unfolding make_tree make_items resolved resolved_items

  read_tree-print :
      (rel_path : Str) (t : Children) (k : ℕ) (rest : Str)
      → size t ≤ k
      → IsQuotable rel_path t
      → drop_prefix list_open rest ≡ none
      → read_tree k (make_tree rel_path t ++ rest) ≡ some (resolved rel_path t, rest)
  read_tree-print rel_path leaf zero rest fuel q h = absurd (omega arith)
  read_tree-print rel_path (children items) zero rest fuel q h = absurd (omega arith)
  read_tree-print rel_path leaf (suc k) rest fuel q h = read_tree_leaf k rest h
  read_tree-print rel_path (children items) (suc k) rest fuel q h =
      ap (read_tree (suc k)) (list_regroup list_open (make_items rel_path items) list_close rest)
      ∙ read_tree_children k (make_items rel_path items ++ (list_close ++ rest)) rest
          (resolved_items rel_path items)
          (read_items-print rel_path items k (list_close ++ rest) (omega arith) q refl)

  read_items-print :
      (rel_path : Str) (items : Items) (k : ℕ) (rest : Str)
      → size_items items ≤ k
      → AreQuotable rel_path items
      → drop_prefix item_open rest ≡ none
      → read_items k (make_items rel_path items ++ rest)
        ≡ some (resolved_items rel_path items, rest)
  read_items-print rel_path nil zero rest fuel q h = absurd (omega arith)
  read_items-print rel_path (cons text link below items) zero rest fuel q h = absurd (omega arith)
  read_items-print rel_path nil (suc k) rest fuel q h = read_items_nil k rest h
  read_items-print rel_path (cons text link below items) (suc k) rest fuel (n, u, q, qs) h =
      let later = make_items rel_path items ++ rest in
      let tree = make_tree rel_path below ++ (item_close ++ later) in
      ap (read_items (suc k)) (
        item_regroup item_open (link_url rel_path link) link_end text link_close
          (make_tree rel_path below) item_close (make_items rel_path items) rest)
      ∙ read_items_cons k _ tree later rest text (link_url rel_path link) (resolved rel_path below)
          (resolved_items rel_path items) (read_link_lem (link_url rel_path link) text tree u n)
          (read_tree-print rel_path below k (item_close ++ later) (omega arith) q refl)
          (read_items-print rel_path items k rest (omega arith) qs h)

-- A reader of nested lists of links gets back, from what makeTree writes for a menu, exactly that
-- menu with the addresses that its links have on the page, and nothing is left over; this for texts
-- without `<` and addresses without a quotation mark, and with at least the rounds that `size`
-- counts for the menu.
pub read_tree-make_tree :
    (rel_path : Str) (t : Children) (k : ℕ)
    → size t ≤ k
    → IsQuotable rel_path t
    → read_tree k (make_tree rel_path t) ≡ some (resolved rel_path t, [])
read_tree-make_tree rel_path t k fuel q =
    ap (read_tree k) (sym (append-nil (make_tree rel_path t)))
    ∙ read_tree-print rel_path t k [] fuel q refl
