-- ===== src/Btree/Insert.antt =====
-- src/libchidb/btree.c: `chidb_Btree_insert` on a tree whose root is a leaf with room for the cell.
use chidb.Prelude.{
  ℕ, suc, ◌≡◌, ◌≢◌, refl, subst, ◌∙◌, Bool, true, false, none, some, List, ◌==◌, if◌then◌else◌,
  arith,
}
use chidb.Run.{Code, ok, err}
use chidb.Pager.{Pager}
use chidb.Pager.Laws.{IsPager, IsPage}
use chidb.Node.PageType
use chidb.Node.{BTreeNode, BTreeCell, is_internal}
use chidb.Node.Cells.{CellFits}
use chidb.Node.Entries.{Entry, entry, entries}
use chidb.Node.Insert.{insert_at}
use chidb.Node.Position.{lower_bound}
use chidb.Btree.{get_node_by_page, is_full, make_room, insert_leaf, insert_non_full, insert, find}
use chidb.Btree.Tree.{IsNodeAt, node_at, lookup, leaf_type, leaf, Holds, leaf_at}
use chidb.Btree.Find.{get_node_by_page-ok, Finds, find-leaf_at}
use chidb.Btree.LeafInsert.{
  IsAscending, IsAscending-insert_at, lookup-insert_at, pager_after, insert_leaf-new,
  insert_leaf-old, entries-after, after-IsNodeAt, node_at-after_ne, after-IsPager,
}

leaf-not_internal : (index : Bool) → is_internal (leaf_type index) ≡ false
unfolding is_internal
leaf-not_internal true = refl
leaf-not_internal false = refl

-- A root leaf with room is not split.
insert-insert_leaf :
    (p : Pager) (npage fuel : ℕ) (btn : BTreeNode) (c : BTreeCell)
    → get_node_by_page npage p ≡ ok btn p
    → is_internal btn.type ≡ false
    → is_full btn c ≡ false
    → insert (suc fuel) npage c p ≡ insert_leaf btn c p
unfolding insert make_room insert_non_full
insert-insert_leaf p npage fuel btn c loaded not_internal room = ground arith

module _ (p : Pager) (valid : IsPager p) (index : Bool) (nroot : ℕ)
    (at : IsNodeAt p nroot (leaf_type index)) (c : BTreeCell) (fits : CellFits (leaf_type index) c)
    (room : is_full (node_at p nroot) c ≡ false) (asc : IsAscending (entries (node_at p nroot)))
    (fuel : ℕ) where
  as_leaf : insert (suc fuel) nroot c p ≡ insert_leaf (node_at p nroot) c p
  as_leaf =
      insert-insert_leaf p nroot fuel (node_at p nroot) c (get_node_by_page-ok p nroot at.is_page)
        (rw at.type_is (leaf-not_internal index)) room

  abbrev after : Pager
  after = pager_after p valid nroot (leaf_type index) at c fits room asc

  abbrev new_entries : List Entry
  new_entries =
      insert_at (lower_bound c.key (entries (node_at p nroot))) (entry c)
        (entries (node_at p nroot))

  insert-after :
      lookup c.key (entries (node_at p nroot)) ≡ none → insert (suc fuel) nroot c p ≡ ok tt after
  insert-after new =
      as_leaf ∙ insert_leaf-new p valid nroot (leaf_type index) at c fits room asc new

  -- The insertion of a new key into a well-formed root leaf with room, whose keys ascend, succeeds. The file then
  -- holds the leaf with the new entry at its key's place, and its keys still ascend.
  pub insert-Holds :
      lookup c.key (entries (node_at p nroot)) ≡ none
      → (p' : Pager) × (insert (suc fuel) nroot c p ≡ ok tt p')
        × IsPager p'
        × Holds p' index nroot (leaf new_entries)
        × IsAscending new_entries
  unfolding entry
  insert-Holds new = (
    after,
    insert-after new,
    after-IsPager p valid nroot (leaf_type index) at c fits room asc,
    leaf_at (after-IsNodeAt p valid nroot (leaf_type index) at c fits room asc)
        (entries-after p valid nroot (leaf_type index) at c fits room asc),
    IsAscending-insert_at (entry c) (entries (node_at p nroot)) asc new,
  )

  -- The same insertion keeps the node in every other page.
  pub node_at-insert_ne :
      lookup c.key (entries (node_at p nroot)) ≡ none
      → (n : ℕ) → IsPage p n
      → n ≢ nroot
      → (p' : Pager) × (insert (suc fuel) nroot c p ≡ ok tt p') × (node_at p' n ≡ node_at p n)
  node_at-insert_ne new n is other = (
    after,
    insert-after new,
    node_at-after_ne p valid nroot (leaf_type index) at c fits room asc n is other,
  )

  -- Into a tree of one leaf in key order that has room for the cell, the insertion of a key that the leaf has fails with
  -- `CHIDB_EDUPLICATE`, and the file stays as it was. A full leaf is not covered: it is split before the keys are compared.
  pub insert_duplicate :
      (e : Entry)
      → lookup c.key (entries (node_at p nroot)) ≡ some e
      → insert (suc fuel) nroot c p ≡ err Code.eduplicate p
  insert_duplicate e old =
      as_leaf ∙ insert_leaf-old p valid nroot (leaf_type index) at c fits room asc e old

-- After the insertion of a new row into a table that fits its root leaf, a search for its key finds the row, and
-- a search for any other key finds what it found before.
pub find-insert :
    (p : Pager) (valid : IsPager p) (nroot : ℕ) (at : IsNodeAt p nroot PageType.table_leaf)
    (c : BTreeCell) (fits : CellFits PageType.table_leaf c)
    (room : is_full (node_at p nroot) c ≡ false) (asc : IsAscending (entries (node_at p nroot)))
    (fuel key : ℕ)
    → lookup c.key (entries (node_at p nroot)) ≡ none
    → (p' : Pager) × (insert (suc fuel) nroot c p ≡ ok tt p')
      × Finds p'
          (if c.key == key then some (entry c) else lookup key (entries (node_at p nroot)))
          (find (suc fuel) nroot key p')
unfolding entry
find-insert p valid nroot at c fits room asc fuel key new = (
  after p valid false nroot at c fits room asc fuel,
  insert-after p valid false nroot at c fits room asc fuel new,
  subst
      (λ o.
        Finds (after p valid false nroot at c fits room asc fuel) o
          (find (suc fuel) nroot key (after p valid false nroot at c fits room asc fuel)))
      (lookup-insert_at (entry c) (entries (node_at p nroot)) key new)
      (find-leaf_at _ key (suc fuel) nroot
        (after-IsNodeAt p valid nroot PageType.table_leaf at c fits room asc)
        (entries-after p valid nroot PageType.table_leaf at c fits room asc) (omega arith)),
)
