-- ===== src/Dbm/Ops.antt =====
-- src/libchidb/dbm-ops.c: the instruction handlers. The functions on B-trees take `fuel`.
pub mod Compare
pub mod Insert
pub mod Records
mod Tests
use chidb.Prelude.{
  ℕ, zero, suc, ◌+◌, ◌-◌, ◌%◌, ◌^◌, Bool, true, false, not, Option, none, some, List, [], ◌∷◌, ltb,
  leb, ◌==◌, if◌then◌else◌, get_elem?,
}
use chidb.Bytes.{Bytes}
use chidb.Run.{Code, Run, ok, err, fault, out_of_fuel, Cmd, pure, ◌>>=◌, ◌>>◌, undefined}
use chidb.Pager.{Pager}
use chidb.Node.PageType
use chidb.Btree.{new_node, insert_in_table, insert_in_index}
use chidb.Cursor.{
  Cursor, CursorRow, CursorType, cursor_open, cursor_close, rewind, next, prev, seek_eq, seek_gt,
  seek_ge, seek_lt, seek_le,
}
use chidb.Record.{
  SqlType, DbRecord, DbRecordBuffer, create_empty, append_int32, append_null, append_string,
  finalize, pack, get_type, get_int8, get_int16, get_int32, get_string,
}
use chidb.Record.Unpack.{unpack}
use chidb.Dbm.{
  Opcode, DbmOp, Register, Stmt, get_reg, get_int, set_reg, ensure_reg, ensure_cur, get_cur,
  set_cur, jump_if, on_pager,
}
use chidb.Dbm.Values.{
  int32_lt, Sign, compare_int32, strcmp, reg_compare, defined, compare_regs, is_negative,
  is_positive, is_zero, extend, c_string, field_value, append_reg, append_regs, binary_value,
}

unfoldable pub op_open : ℕ → CursorType → DbmOp → Cmd Stmt (Unit {0})
op_open fuel type op = do
  ensure_cur op.p1
  root ← get_int op.p2
  cur ← on_pager (cursor_open fuel root type)
  set_cur op.p1 cur

unfoldable pub op_close : DbmOp → Cmd Stmt (Unit {0})
op_close op = do cur ← get_cur op.p1; set_cur op.p1 (cursor_close cur)

-- A move of the cursor, and a jump if it gave `value`.
unfoldable pub move_cursor : (Cursor → Bool × Cursor) → Bool → DbmOp → Cmd Stmt (Unit {0})
move_cursor move value op = do
  cur ← get_cur op.p1
  set_cur op.p1 (move cur).1
  jump_if (if value then (move cur).0 else not (move cur).0) op.p2

unfoldable pub op_rewind : DbmOp → Cmd Stmt (Unit {0})
unfolding move_cursor
op_rewind = move_cursor rewind true

unfoldable pub op_next : DbmOp → Cmd Stmt (Unit {0})
unfolding move_cursor
op_next = move_cursor next true

unfoldable pub op_prev : DbmOp → Cmd Stmt (Unit {0})
unfolding move_cursor
op_prev = move_cursor prev true

-- The five seeks read the key first and jump if nothing is found.
unfoldable pub op_seek : (Cursor → ℕ → Bool × Cursor) → DbmOp → Cmd Stmt (Unit {0})
unfolding move_cursor
op_seek seek op = do k ← get_int op.p3; move_cursor (λ cur. seek cur k) false op

-- `cur->keys[cur->pos]`, and the other arrays at the same place.
unfoldable pub current_row : ℕ → Cmd Stmt CursorRow
current_row c = do cur ← get_cur c; i ← defined cur.pos; defined (get_elem? cur.rows i)

-- `ensure_reg`, and a register that is set.
unfoldable pub put_reg : ℕ → Register → Cmd Stmt (Unit {0})
put_reg r v = do ensure_reg r; set_reg r v

-- The record of a row. An index has no data, and a record that ends past its cell is undefined.
unfoldable pub row_record : Cursor → CursorRow → Option DbRecord
row_record cur row = if cur.is_index then none else elim (unpack row.data_) [
  | none ↦ none
  | some dbr ↦ if leb dbr.packed_len row.size then some dbr else none
]

-- A field of no valid type leaves the register as it is.
unfoldable pub put_field : ℕ → Option Register → Cmd Stmt (Unit {0})
put_field r none = ensure_reg r
put_field r (some v) = put_reg r v

-- A field past the last is undefined.
unfoldable pub column_of : DbRecord → ℕ → Cmd Stmt (Option Register)
column_of dbr field = if ltb field dbr.nfields then pure (field_value dbr field) else undefined

unfoldable pub op_column : DbmOp → Cmd Stmt (Unit {0})
op_column op = do
  cur ← get_cur op.p1
  row ← current_row op.p1
  dbr ← defined (row_record cur row)
  v ← column_of dbr (op.p2 % 2 ^ 8)
  put_field op.p3 v

unfoldable pub op_key : DbmOp → Cmd Stmt (Unit {0})
unfolding put_reg
op_key op = do row ← current_row op.p1; put_reg op.p2 (Register.int32 row.key)

unfoldable pub op_integer : DbmOp → Cmd Stmt (Unit {0})
unfolding put_reg
op_integer op = put_reg op.p2 (Register.int32 op.p1)

-- `strdup` of NULL is undefined.
unfoldable pub op_string : DbmOp → Cmd Stmt (Unit {0})
unfolding put_reg
op_string op = do s ← defined op.p4; put_reg op.p2 (Register.string s)

unfoldable pub op_null : DbmOp → Cmd Stmt (Unit {0})
unfolding put_reg
op_null op = put_reg op.p2 Register.null

unfoldable pub op_result_row : DbmOp → Cmd Stmt (Unit {0})
op_result_row op s = err Code.row (record s { start_rr = op.p1; n_rr = op.p2 })

-- A negative `p2` makes no round.
unfoldable pub op_make_record : DbmOp → Cmd Stmt (Unit {0})
unfolding put_reg
op_make_record op = do
  b ← append_regs op.p1 (if ltb op.p2 (2 ^ 31) then op.p2 else 0) (create_empty (op.p2 % 2 ^ 8))
  put_reg op.p3 (Register.binary (pack (finalize b)) (finalize b).packed_len)

-- `rc == CHIDB_EDUPLICATE ? CHIDB_ECONSTRAINT : rc`
unfoldable pub as_constraint : Code → Code
as_constraint Code.eduplicate = Code.econstraint
as_constraint Code.noheader = Code.noheader
as_constraint Code.epageno = Code.epageno
as_constraint Code.ecellno = Code.ecellno
as_constraint Code.ecorruptheader = Code.ecorruptheader
as_constraint Code.enotfound = Code.enotfound
as_constraint Code.enomem = Code.enomem
as_constraint Code.eio = Code.eio
as_constraint Code.econstraint = Code.econstraint
as_constraint Code.einvalidsql = Code.einvalidsql
as_constraint Code.row = Code.row
as_constraint Code.done = Code.done

unfoldable pub translated : {A : Type 0} → Run Pager A → Run Pager A
translated (ok a s) = ok a s
translated (err c s) = err (as_constraint c) s
translated fault = fault
translated out_of_fuel = out_of_fuel

unfoldable pub as_constraint_of : {A : Type 0} → Cmd Pager A → Cmd Pager A
as_constraint_of m p = translated (m p)

unfoldable pub op_insert : ℕ → DbmOp → Cmd Stmt (Unit {0})
op_insert fuel op = do
  cur ← get_cur op.p1
  rec ← get_reg op.p2
  bin ← defined (binary_value rec)
  key ← get_int op.p3
  on_pager (as_constraint_of (insert_in_table fuel cur.root key bin.0 (bin.1 % 2 ^ 16)))

-- A jump if the order of the registers given passes the test.
unfoldable pub op_compare : (Sign → Bool) → ℕ → ℕ → DbmOp → Cmd Stmt (Unit {0})
unfolding compare_regs
op_compare test a b op = do sign ← compare_regs a b; jump_if (test sign) op.p2

unfoldable pub op_idx : (ℕ → ℕ → Bool) → DbmOp → Cmd Stmt (Unit {0})
op_idx test op = do row ← current_row op.p1; k ← get_int op.p3; jump_if (test row.key k) op.p2

unfoldable pub op_idx_pkey : DbmOp → Cmd Stmt (Unit {0})
unfolding put_reg
op_idx_pkey op = do row ← current_row op.p1; put_reg op.p2 (Register.int32 row.pkey)

unfoldable pub op_idx_insert : ℕ → DbmOp → Cmd Stmt (Unit {0})
op_idx_insert fuel op = do
  cur ← get_cur op.p1
  idx_key ← get_int op.p2
  p_key ← get_int op.p3
  on_pager (as_constraint_of (insert_in_index fuel cur.root idx_key p_key))

-- `CreateTable` and `CreateIndex`, by the type of the new node.
unfoldable pub op_create : ℕ → DbmOp → Cmd Stmt (Unit {0})
unfolding put_reg
op_create type op = do root ← on_pager (new_node type); put_reg op.p1 (Register.int32 root)

-- A deep copy and a shared one hold the same value: no instruction writes into a string.
unfoldable pub op_copy : DbmOp → Cmd Stmt (Unit {0})
op_copy op = do ensure_reg op.p1; ensure_reg op.p2; v ← get_reg op.p1; set_reg op.p2 v

unfoldable pub op_halt : DbmOp → Cmd Stmt (Unit {0})
op_halt op s = ok tt (record s { pc = s.end_op })

-- The dispatch table.
unfoldable pub dispatch : ℕ → Opcode → DbmOp → Cmd Stmt (Unit {0})
dispatch fuel Opcode.noop op = pure tt
dispatch fuel Opcode.open_read op = op_open fuel CursorType.read op
dispatch fuel Opcode.open_write op = op_open fuel CursorType.write op
dispatch fuel Opcode.close op = op_close op
dispatch fuel Opcode.rewind op = op_rewind op
dispatch fuel Opcode.next op = op_next op
dispatch fuel Opcode.prev op = op_prev op
dispatch fuel Opcode.seek op = op_seek seek_eq op
dispatch fuel Opcode.seek_gt op = op_seek seek_gt op
dispatch fuel Opcode.seek_ge op = op_seek seek_ge op
dispatch fuel Opcode.seek_lt op = op_seek seek_lt op
dispatch fuel Opcode.seek_le op = op_seek seek_le op
dispatch fuel Opcode.column op = op_column op
dispatch fuel Opcode.key op = op_key op
dispatch fuel Opcode.integer op = op_integer op
dispatch fuel Opcode.string op = op_string op
dispatch fuel Opcode.null op = op_null op
dispatch fuel Opcode.result_row op = op_result_row op
dispatch fuel Opcode.make_record op = op_make_record op
dispatch fuel Opcode.insert op = op_insert fuel op
dispatch fuel Opcode.eq op = op_compare is_zero op.p1 op.p3 op
dispatch fuel Opcode.ne op = op_compare (λ sign. not (is_zero sign)) op.p1 op.p3 op
dispatch fuel Opcode.lt op = op_compare is_negative op.p3 op.p1 op
dispatch fuel Opcode.le op = op_compare (λ sign. not (is_positive sign)) op.p3 op.p1 op
dispatch fuel Opcode.gt op = op_compare is_positive op.p3 op.p1 op
dispatch fuel Opcode.ge op = op_compare (λ sign. not (is_negative sign)) op.p3 op.p1 op
dispatch fuel Opcode.idx_gt op = op_idx (λ key k. ltb k key) op
dispatch fuel Opcode.idx_ge op = op_idx (λ key k. leb k key) op
dispatch fuel Opcode.idx_lt op = op_idx (λ key k. ltb key k) op
dispatch fuel Opcode.idx_le op = op_idx (λ key k. leb key k) op
dispatch fuel Opcode.idx_pkey op = op_idx_pkey op
dispatch fuel Opcode.idx_insert op = op_idx_insert fuel op
dispatch fuel Opcode.create_table op = op_create PageType.table_leaf op
dispatch fuel Opcode.create_index op = op_create PageType.index_leaf op
dispatch fuel Opcode.copy op = op_copy op
dispatch fuel Opcode.scopy op = op_copy op
dispatch fuel Opcode.halt op = op_halt op

unfoldable pub op_handle : ℕ → DbmOp → Cmd Stmt (Unit {0})
op_handle fuel op = dispatch fuel op.opcode op
