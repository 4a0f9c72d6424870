-- ===== src/Menu/Tree/Read.antt =====
-- A reader of the markup that `makeTree` of docs/html/menu.js writes.
use embedded_linux.Common.{ℕ, zero, suc, ◌+◌, ◌≡◌, true, Option, none, some}
use embedded_linux.Common.Codes.{drop_prefix, before, from, lacks}
use embedded_linux.Search.{Str}
use embedded_linux.Menu.Tree.{
  Children, leaf, children, Items, nil, cons, link_url, list_open, list_close, item_open, link_end,
  link_close, item_close,
}

infixl 5 ◌>>=◌
abbrev pub ◌>>=◌ : {A B : Type 0} → Option A → (A → Option B) → Option B
none >>= f = none
some a >>= f = f a

-- The address and the text of a link, and what follows it.
unfoldable pub read_link : Str → Option (Str × Str × Str)
read_link s = do
  let url = before 34 s
  t ← drop_prefix link_end (from 34 s)
  let name = before 60 t
  u ← drop_prefix link_close (from 60 t)
  some (name, url, u)

-- A list, or nothing if none begins here; items as long as one begins.
unfoldable mutual
  pub read_tree : ℕ → Str → Option (Children × Str)
  read_tree zero s = none
  read_tree (suc k) s = elim (drop_prefix list_open s) [
    | none ↦ some (leaf, s)
    | some t ↦ read_items k t >>= λ r. drop_prefix list_close r.1 >>= λ u. some (children r.0, u)
  ]

  pub read_items : ℕ → Str → Option (Items × Str)
  read_items zero s = none
  read_items (suc k) s = elim (drop_prefix item_open s) [
    | none ↦ some (nil, s)
    | some t ↦ read_link t >>= λ l. read_tree k l.2 >>= λ c.
        drop_prefix item_close c.1 >>= λ u. read_items k u >>= λ r. some (cons l.0 l.1 c.0 r.0, r.1)
  ]

-- The menu with the addresses that its links have on the page.
unfoldable mutual
  pub resolved : Str → Children → Children
  resolved rel_path leaf = leaf
  resolved rel_path (children items) = children (resolved_items rel_path items)

  pub resolved_items : Str → Items → Items
  resolved_items rel_path nil = nil
  resolved_items rel_path (cons text link below items) =
      cons text (link_url rel_path link) (resolved rel_path below) (resolved_items rel_path items)

-- No `<` in a text and no quotation mark in an address.
abbrev mutual
  pub IsQuotable : Str → Children → Type 0
  IsQuotable rel_path leaf = Unit {0}
  IsQuotable rel_path (children items) = AreQuotable rel_path items

  pub AreQuotable : Str → Items → Type 0
  AreQuotable rel_path nil = Unit {0}
  AreQuotable rel_path (cons text link below items) =
      (lacks 60 text ≡ true)
      × (lacks 34 (link_url rel_path link) ≡ true)
      × IsQuotable rel_path below
      × AreQuotable rel_path items

-- The rounds that a menu takes.
abbrev mutual
  pub size : Children → ℕ
  size leaf = 1
  size (children items) = suc (size_items items)

  pub size_items : Items → ℕ
  size_items nil = 1
  size_items (cons text link below items) = suc (size below + size_items items)
