-- ===== src/Dbm/Ops/Tests.antt =====
-- src/libchidb/dbm-ops.c: Insert of the rows 5 and 3 into a leaf that has the row 3.
use chidb.Prelude.{ℕ, ◌≡◌, refl, false, none, some, arith, if◌then◌else◌, ◌==◌, []}
use chidb.Run.{Code, ok, err}
use chidb.Pager.{Pager}
use chidb.Node.Entries.{entry, entries}
use chidb.Btree.{find}
use chidb.Btree.Tree.{lookup, node_at}
use chidb.Btree.Find.{Finds}
use chidb.Btree.Sample.{with_left, with_left-IsPager, left_at, row_of, row-CellFits}
use chidb.Btree.Sample.Leaf.{
  left-IsAscending, left_has_room, five_is_new, three_is_old, three_has_room, row_five-CellFits,
}
use chidb.Cursor.{Cursor, CursorType}
use chidb.Dbm.{
  Opcode, DbmOp, Register, Stmt, noop_op, stmt_init, realloc_ops, realloc_reg, realloc_cur,
  fill_from, get_reg, get_int, int_value, get_cur, get_slot, open_cursor, is_open,
}
use chidb.Dbm.Ops.{op_insert}
use chidb.Dbm.Ops.Insert.{row_cell, IsInsertion, HasRoom, op_insert_duplicate, find-op_insert}

abbrev leaf_cursor : Cursor
leaf_cursor = record { type = CursorType.write; root = 2; is_index = false; rows = []; pos = none }

-- The record in register 1 and the key in register 2.
abbrev inserting : ℕ → Stmt
inserting key = record (stmt_init with_left) {
  reg = λ r. if r == 1 then Register.binary (λ i. 7) 3 else Register.int32 key;
  cursors = λ c. some leaf_cursor;
}

abbrev insert_op : DbmOp
insert_op = record noop_op { opcode = Opcode.insert; p1 = 0; p2 = 1; p3 = 2 }

inserting-IsInsertion : (key : ℕ) → IsInsertion insert_op (inserting key) leaf_cursor (λ i. 7) 3 key
unfolding get_reg get_int int_value get_cur get_slot open_cursor is_open stmt_init realloc_ops
    realloc_reg realloc_cur fill_from
inserting-IsInsertion key = record { cursor_in = refl; record_in = refl; key_in = refl }

five-HasRoom : HasRoom (inserting 5).pager 2 (row_cell 5 (λ i. 7) 3)
unfolding stmt_init realloc_ops realloc_reg realloc_cur
five-HasRoom = record {
  valid = with_left-IsPager;
  at = left_at;
  fits = row_five-CellFits;
  room = left_has_room;
  asc = left-IsAscending;
}

three-HasRoom : HasRoom (inserting 3).pager 2 (row_cell 3 (λ i. 7) 3)
unfolding stmt_init realloc_ops realloc_reg realloc_cur
three-HasRoom = record {
  valid = with_left-IsPager;
  at = left_at;
  fits = row-CellFits 2 3 (omega arith, omega arith) (omega arith);
  room = three_has_room;
  asc = left-IsAscending;
}

op_insert_duplicate_example :
    op_insert 1 insert_op (inserting 3) ≡ err Code.econstraint (inserting 3)
unfolding stmt_init realloc_ops realloc_reg realloc_cur
op_insert_duplicate_example =
    op_insert_duplicate insert_op (inserting 3) leaf_cursor (λ i. 7) 3 3 (inserting-IsInsertion 3)
      three-HasRoom 0 (entry (row_of 3)) three_is_old

find-op_insert_example :
    (p' : Pager) × (op_insert 1 insert_op (inserting 5)
      ≡ ok tt (record (inserting 5) { pager = p' }))
    × Finds p'
        (if 5 == 3
          then some (entry (row_of 5))
          else lookup 3 (entries (node_at (inserting 5).pager 2)))
        (find 1 2 3 p')
unfolding stmt_init realloc_ops realloc_reg realloc_cur
find-op_insert_example =
    find-op_insert insert_op (inserting 5) leaf_cursor (λ i. 7) 3 5 (inserting-IsInsertion 5)
      five-HasRoom 0 3 five_is_new
