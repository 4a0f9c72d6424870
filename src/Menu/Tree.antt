-- ===== src/Menu/Tree.antt =====
-- The markup of a menu: `makeTree` and the text of the search box in docs/html/menu.js, and the
-- menu of docs/html/menudata.js.
pub mod Read
pub mod RoundTrip
use embedded_linux.Common.{ℕ, Bool, true, false, List, [], ◌∷◌, ◌++◌, ◌==◌, if◌then◌else◌}
use embedded_linux.Common.Codes.{codes}
use embedded_linux.Search.{Str}

-- `data.children`, if there is one; an item is its text, its address, its own children, and the
-- items after it.
mutual
  pub data Children : Type 0 where
    leaf : Children
    children : Items → Children

  pub data Items : Type 0 where
    nil : Items
    cons : Str → Str → Children → Items → Items

-- `link.substring(0,1)=='^'`: the address as it stands, else below `relPath`.
unfoldable pub link_url : Str → Str → Str
link_url rel_path [] = rel_path ++ []
link_url rel_path (c ∷ link) = if c == 94 then link else rel_path ++ (c ∷ link)

abbrev pub list_open : Str
list_open = codes "<ul>"

abbrev pub list_close : Str
list_close = codes "</ul>"

abbrev pub item_open : Str
item_open = codes "<li><a href=\""

abbrev pub link_end : Str
link_end = codes "\">"

abbrev pub link_close : Str
link_close = codes "</a>"

abbrev pub item_close : Str
item_close = codes "</li>"

-- `makeTree(data,relPath)`, and its loop.
unfoldable mutual
  pub make_tree : Str → Children → Str
  make_tree rel_path leaf = []
  make_tree rel_path (children items) = list_open ++ (make_items rel_path items ++ list_close)

  pub make_items : Str → Items → Str
  make_items rel_path nil = []
  make_items rel_path (cons text link below items) =
      (item_open
        ++ (link_url rel_path link
            ++ (link_end ++ (text ++ (link_close ++ (make_tree rel_path below ++ item_close))))))
      ++ make_items rel_path items

-- `menudata`
abbrev pub menudata : Children
menudata = children (cons (codes "Main Page") (codes "index.html") leaf nil)
