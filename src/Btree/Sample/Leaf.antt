-- ===== src/Btree/Sample/Leaf.antt =====
-- The left leaf of the sample table, for the insertion of a row with the key 5 or 3.
use chidb.Prelude.{◌≡◌, refl, false, none, some, arith}
use chidb.Node.PageType
use chidb.Node.{cell_size}
use chidb.Node.Cells.{CellFits}
use chidb.Node.Entries.{entry, entries}
use chidb.Btree.{is_full}
use chidb.Btree.Tree.{lookup, node_at}
use chidb.Btree.LeafInsert.{IsAscending}
use chidb.Btree.Sample.{with_left, left-entries, row_of, row-CellFits, left_free_space, left_type}

pub left-IsAscending : IsAscending (entries (node_at with_left 2))
left-IsAscending = rw left-entries (tt, tt)

-- The leaf has 43 bytes left, and a row takes 11 and its offset 2.
pub left_has_room : is_full (node_at with_left 2) (row_of 5) ≡ false
unfolding is_full cell_size
left_has_room = ground (arith, left_free_space, left_type)

pub five_is_new : lookup 5 (entries (node_at with_left 2)) ≡ none
unfolding lookup entry
five_is_new = rw left-entries refl

pub three_is_old : lookup 3 (entries (node_at with_left 2)) ≡ some (entry (row_of 3))
unfolding lookup entry
three_is_old = rw left-entries refl

pub three_has_room : is_full (node_at with_left 2) (row_of 3) ≡ false
unfolding is_full cell_size
three_has_room = ground (arith, left_free_space, left_type)

pub row_five-CellFits : CellFits PageType.table_leaf (row_of 5)
row_five-CellFits = row-CellFits 2 5 (omega arith, omega arith) (omega arith)
