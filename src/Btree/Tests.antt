-- ===== src/Btree/Tests.antt =====
-- src/libchidb/btree.c on the sample table.
use chidb.Prelude.{◌≤◌, ◌≡◌, refl, false, some, inl, inr, arith, if◌then◌else◌, ◌==◌}
use chidb.Run.{Code, ok, err}
use chidb.Bytes.{zeros}
use chidb.Pager.{Pager, MemPage, page_bytes, read_page, write_page}
use chidb.Pager.Laws.{IsPager, trim, read_page-write_page}
use chidb.Node.PageType
use chidb.Node.{
  BTreeNode, cell_size, empty_node, insert_cell, find_position, parse_cell, write_cell,
  node_header_base, node_header_size, is_internal,
}
use chidb.Node.Cells.{CellFits, parse_cell-write_cell}
use chidb.Node.Entries.{IsNode, entry, entries}
use chidb.Node.Insert.{insert_at, Fits, insert_cell-insert_at}
use chidb.Node.Position.{lower_bound, find_position-lower_bound}
use chidb.Btree.{get_node_by_page, write_node, insert, find}
use chidb.Btree.Tree.{leaf, depth, lookup, node_at, Holds}
use chidb.Btree.Find.{Finds}
use chidb.Btree.Order.{rows, IsOrdered, find-lookup}
use chidb.Btree.Write.{get_node_by_page-write_node}
use chidb.Btree.LeafInsert.{IsAscending}
use chidb.Btree.Insert.{insert-Holds, node_at-insert_ne, insert_duplicate, find-insert}
use chidb.Btree.Sample.Leaf.{
  left-IsAscending, left_has_room, five_is_new, three_is_old, three_has_room, row_five-CellFits,
}
use chidb.Btree.Sample.{
  with_left, with_left-IsPager, left_at, row_of, row-CellFits, table, two_rows, fresh,
  fresh-IsPager, left, page2_in, left-IsNode, left-IsHeader, table-Holds,
}

two_rows-IsOrdered : IsOrdered two_rows
unfolding IsOrdered rows entry
two_rows-IsOrdered = (tt, (omega arith, tt), (omega arith, tt), tt)

two_rows-depth : depth two_rows ≤ 2
unfolding depth
two_rows-depth = omega arith

find-lookup_example : Finds table (lookup 9 (rows two_rows)) (find 2 4 9 table)
find-lookup_example = find-lookup table 9 table-Holds two_rows-IsOrdered 2 two_rows-depth

insert-Holds_example :
    (p' : Pager) × (insert 1 2 (row_of 5) with_left ≡ ok tt p')
    × IsPager p'
    × Holds p' false 2 (
        leaf (
          insert_at
            (lower_bound 5 (entries (node_at with_left 2)))
            (entry (row_of 5))
            (entries (node_at with_left 2))))
    × IsAscending (
        insert_at
          (lower_bound 5 (entries (node_at with_left 2)))
          (entry (row_of 5))
          (entries (node_at with_left 2)))
insert-Holds_example =
    insert-Holds with_left with_left-IsPager false 2 left_at (row_of 5) row_five-CellFits
      left_has_room left-IsAscending 0 five_is_new

node_at-insert_ne_example :
    (p' : Pager) × (insert 1 2 (row_of 5) with_left ≡ ok tt p')
    × (node_at p' 3 ≡ node_at with_left 3)
node_at-insert_ne_example =
    node_at-insert_ne with_left with_left-IsPager false 2 left_at (row_of 5) row_five-CellFits
      left_has_room left-IsAscending 0 five_is_new 3 (omega arith, omega arith) (omega arith)

insert_duplicate_example : insert 1 2 (row_of 3) with_left ≡ err Code.eduplicate with_left
insert_duplicate_example =
    insert_duplicate with_left with_left-IsPager false 2 left_at (row_of 3)
      (row-CellFits 2 3 (omega arith, omega arith) (omega arith)) three_has_room left-IsAscending 0
      (entry (row_of 3)) three_is_old

find-insert_example :
    (p' : Pager) × (insert 1 2 (row_of 5) with_left ≡ ok tt p')
    × Finds p'
        (if 5 == 3 then some (entry (row_of 5)) else lookup 3 (entries (node_at with_left 2)))
        (find 1 2 3 p')
find-insert_example =
    find-insert with_left with_left-IsPager 2 left_at (row_of 5) row_five-CellFits left_has_room
      left-IsAscending 0 3 five_is_new

get_node_by_page-write_node_example :
    (p' : Pager) × (page : MemPage) × (write_node left fresh ≡ ok tt p')
    × (get_node_by_page left.page.npage p' ≡ ok (record left { page = page }) p')
    × (entries (record left { page = page }) ≡ entries left)
get_node_by_page-write_node_example =
    get_node_by_page-write_node fresh fresh-IsPager left page2_in left-IsNode left-IsHeader

row_five-fits_left : CellFits left.type (row_of 5)
unfolding empty_node
row_five-fits_left = row_five-CellFits

row_five_in : Fits left (row_of 5)
unfolding empty_node node_header_base node_header_size is_internal cell_size
row_five_in = omega arith

left_count : 1 ≤ left.n_cells
left_count = omega arith

insert_cell-insert_at_example :
    (b : BTreeNode) × (insert_cell left 1 (row_of 5) ≡ some b)
    × (entries b ≡ insert_at 1 (entry (row_of 5)) (entries left))
    × IsNode 64 b
insert_cell-insert_at_example =
    insert_cell-insert_at 64 left 1 (row_of 5) left-IsNode row_five-fits_left row_five_in left_count

find_position-lower_bound_example : find_position left 5 ≡ lower_bound 5 (entries left)
find_position-lower_bound_example = find_position-lower_bound left 5

parse_cell-write_cell_example :
    entry (parse_cell PageType.table_leaf (write_cell PageType.table_leaf zeros 53 (row_of 5)) 53)
    ≡ entry (row_of 5)
parse_cell-write_cell_example =
    parse_cell-write_cell zeros 53 (row_of 5) PageType.table_leaf (inr (inl refl)) row_five-CellFits

read_page-write_page_example :
    (p' : Pager) × (write_page (record { npage = 2; data_ = λ i. 7 }) fresh ≡ ok tt p')
    × (read_page 3 p'
        ≡ ok
            (record { npage = 3; data_ = if 3 == 2 then trim 64 (λ i. 7) else page_bytes fresh 3 })
            p')
read_page-write_page_example =
    read_page-write_page fresh-IsPager (record { npage = 2; data_ = λ i. 7 })
      (omega arith, omega arith) 3 (omega arith, omega arith)
