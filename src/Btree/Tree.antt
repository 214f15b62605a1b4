-- ===== src/Btree/Tree.antt =====
-- src/libchidb/btree.c: the search trees that the nodes of a file form. `index` says which of the two
-- kinds of B-tree it is.
use chidb.Prelude.{ℕ, suc, ◌≡◌, Bool, Option, none, some, List, [], ◌∷◌, leb, ◌==◌, if◌then◌else◌}
use Prim.Native.Nat.{max}
use chidb.Pager.{Pager, page_bytes}
use chidb.Pager.Laws.{IsPage}
use chidb.Node.PageType
use chidb.Node.{BTreeNode, load_node}
use chidb.Node.Entries.{IsNode, Entry, entries}
use chidb.Node.Load.{IsHeader}

-- The children of an internal node: one in front of each entry, and the one of the right page.
mutual
  pub data Tree : Type 0 where
    leaf : List Entry → Tree
    node : Kids → Tree

  pub data Kids : Type 0 where
    last : Tree → Kids
    more : Tree → Entry → Kids → Kids

unfoldable mutual
  pub depth : Tree → ℕ
  depth (leaf es) = 1
  depth (node ks) = suc (depth_kids ks)

  pub depth_kids : Kids → ℕ
  depth_kids (last t) = depth t
  depth_kids (more t e ks) = max (depth t) (depth_kids ks)

-- The entry with the key, if there is one.
unfoldable pub lookup : ℕ → List Entry → Option Entry
lookup key [] = none
lookup key (e ∷ es) = if e.key == key then some e else lookup key es

-- The descent to the first child whose key is at least `key`.
unfoldable mutual
  pub search_tree : ℕ → Tree → Option Entry
  search_tree key (leaf es) = lookup key es
  search_tree key (node ks) = search_kids key ks

  pub search_kids : ℕ → Kids → Option Entry
  search_kids key (last t) = search_tree key t
  search_kids key (more t e ks) =
      let below = search_tree key t in
      let above = search_kids key ks in if leb key e.key then below else above

abbrev pub leaf_type : Bool → ℕ
leaf_type index = if index then PageType.index_leaf else PageType.table_leaf

abbrev pub internal_type : Bool → ℕ
internal_type index = if index then PageType.index_internal else PageType.table_internal

-- The node in a page.
abbrev pub node_at : Pager → ℕ → BTreeNode
node_at p npage = load_node (record { npage = npage; data_ = page_bytes p npage })

-- A page that the pager accepts and that holds a well-formed node.
pub record IsNodeAt (p : Pager) (npage type : ℕ) : Type 0 where
  pub is_page : IsPage p npage
  pub type_is : (node_at p npage).type ≡ type
  pub is_node : IsNode p.page_size (node_at p npage)
  pub is_header : IsHeader (node_at p npage)

-- From a page on, the file holds a tree.
mutual
  pub data Holds (p : Pager) (index : Bool) : ℕ → Tree → Type 0 where
    leaf_at :
        {npage : ℕ} {es : List Entry}
        → IsNodeAt p npage (leaf_type index)
        → entries (node_at p npage) ≡ es
        → Holds p index npage (leaf es)
    node_in :
        {npage : ℕ} {ks : Kids}
        → IsNodeAt p npage (internal_type index)
        → HoldsKids p index (node_at p npage).right_page (entries (node_at p npage)) ks
        → Holds p index npage (node ks)

  pub data HoldsKids (p : Pager) (index : Bool) : ℕ → List Entry → Kids → Type 0 where
    last_at : {right : ℕ} {t : Tree} → Holds p index right t → HoldsKids p index right [] (last t)
    more_at :
        {right : ℕ} {e : Entry} {es : List Entry} {t : Tree} {ks : Kids}
        → Holds p index e.child_page t
        → HoldsKids p index right es ks
        → HoldsKids p index right (e ∷ es) (more t e ks)
