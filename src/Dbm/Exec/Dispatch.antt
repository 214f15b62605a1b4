-- ===== src/Dbm/Exec/Dispatch.antt =====
-- src/libchidb/dbm-ops.c: every instruction goes on to the next one, jumps to its address `p2` or ends the program.
use chidb.Prelude.{
  ℕ, zero, suc, ◌+◌, refl, inl, inr, Bool, true, false, Option, none, some, ltb, Bool-cases,
}
use chidb.Cursor.{Cursor, CursorType}
use chidb.Record.{DbRecord, DbRecordBuffer}
use chidb.Dbm.{Opcode, DbmOp, Register, Stmt}
use chidb.Dbm.Ops.{
  op_open, op_close, move_cursor, op_rewind, op_next, op_prev, op_seek, current_row, op_column,
  put_field, column_of, put_reg, op_key, op_integer, op_string, op_null, op_result_row,
  op_make_record, op_insert, op_compare, op_idx, op_idx_pkey, op_idx_insert, op_create, op_copy,
  op_halt, dispatch, op_handle,
}
use chidb.Dbm.Values.{compare_regs, Sign, append_regs}
use chidb.Dbm.Exec.Control.{
  Ends, Controlled, Keeps, Controls, Controls-of_Keeps, Keeps-then, Controls-then, pure-Keeps,
  undefined-Keeps, defined-Keeps, get_reg-Keeps, get_int-Keeps, get_cur-Keeps, ensure_reg-Keeps,
  ensure_cur-Keeps, set_reg-Keeps, set_cur-Keeps, on_pager-Keeps, jump_if-Controls,
}

put_reg-Keeps : (r : ℕ) (v : Register) → Keeps (put_reg r v)
unfolding put_reg
put_reg-Keeps r v = Keeps-then (ensure_reg-Keeps r) λ u. set_reg-Keeps r v

put_field-Keeps : (r : ℕ) (v : Option Register) → Keeps (put_field r v)
unfolding put_field
put_field-Keeps r none = ensure_reg-Keeps r
put_field-Keeps r (some v) = put_reg-Keeps r v

current_row-Keeps : (c : ℕ) → Keeps (current_row c)
unfolding current_row
current_row-Keeps c =
    Keeps-then (get_cur-Keeps c) λ cur. Keeps-then (defined-Keeps cur.pos) λ i. defined-Keeps _

column_of-Keeps : (dbr : DbRecord) (field : ℕ) → Keeps (column_of dbr field)
unfolding column_of
column_of-Keeps dbr field = elim (Bool-cases (ltb field dbr.nfields)) [
  | inl e ↦ rw e (pure-Keeps _)
  | inr e ↦ rw e undefined-Keeps
]

compare_regs-Keeps : (a b : ℕ) → Keeps (compare_regs a b)
unfolding compare_regs
compare_regs-Keeps a b =
    Keeps-then (get_reg-Keeps a) λ x. Keeps-then (get_reg-Keeps b) λ y. defined-Keeps _

append_regs-Keeps : (r k : ℕ) (b : DbRecordBuffer) → Keeps (append_regs r k b)
unfolding append_regs
append_regs-Keeps r zero b = pure-Keeps b
append_regs-Keeps r (suc k) b =
    Keeps-then (get_reg-Keeps r)
      λ v. Keeps-then (defined-Keeps _) λ b'. append_regs-Keeps (r + 1) k b'

module _ (op : DbmOp) where
  op_open-Keeps : (fuel : ℕ) (type : CursorType) → Keeps (op_open fuel type op)
  unfolding op_open
  op_open-Keeps fuel type = Keeps-then (ensure_cur-Keeps op.p1) λ u.
      Keeps-then (get_int-Keeps op.p2)
        λ root. Keeps-then (on_pager-Keeps _) λ cur. set_cur-Keeps op.p1 cur

  op_close-Keeps : Keeps (op_close op)
  unfolding op_close
  op_close-Keeps = Keeps-then (get_cur-Keeps op.p1) λ cur. set_cur-Keeps op.p1 _

  move_cursor-Controls :
      (move : Cursor → Bool × Cursor) (value : Bool)
      → Controls (some op.p2) (move_cursor move value op)
  unfolding move_cursor
  move_cursor-Controls move value =
      Controls-then (get_cur-Keeps op.p1)
        λ cur. Controls-then (set_cur-Keeps op.p1 _) λ u. jump_if-Controls op.p2 _

  op_seek-Controls : (seek : Cursor → ℕ → Bool × Cursor) → Controls (some op.p2) (op_seek seek op)
  unfolding op_seek
  op_seek-Controls seek =
      Controls-then (get_int-Keeps op.p3) λ k. move_cursor-Controls (λ cur. seek cur k) false

  op_column-Keeps : Keeps (op_column op)
  unfolding op_column
  op_column-Keeps = Keeps-then (get_cur-Keeps op.p1) λ cur.
      Keeps-then (current_row-Keeps op.p1) λ row.
        Keeps-then (defined-Keeps _)
          λ dbr. Keeps-then (column_of-Keeps dbr _) λ v. put_field-Keeps op.p3 v

  op_key-Keeps : Keeps (op_key op)
  unfolding op_key
  op_key-Keeps = Keeps-then (current_row-Keeps op.p1) λ row. put_reg-Keeps op.p2 _

  op_string-Keeps : Keeps (op_string op)
  unfolding op_string
  op_string-Keeps = Keeps-then (defined-Keeps op.p4) λ s. put_reg-Keeps op.p2 _

  op_result_row-Keeps : Keeps (op_result_row op)
  unfolding op_result_row
  op_result_row-Keeps = record { keeps = λ s. record { pc = refl; ops = refl; end_op = refl } }

  op_make_record-Keeps : Keeps (op_make_record op)
  unfolding op_make_record
  op_make_record-Keeps = Keeps-then (append_regs-Keeps op.p1 _ _) λ b. put_reg-Keeps op.p3 _

  op_insert-Keeps : (fuel : ℕ) → Keeps (op_insert fuel op)
  unfolding op_insert
  op_insert-Keeps fuel = Keeps-then (get_cur-Keeps op.p1) λ cur.
      Keeps-then (get_reg-Keeps op.p2) λ rec.
        Keeps-then (defined-Keeps _) λ bin. Keeps-then (get_int-Keeps op.p3) λ key. on_pager-Keeps _

  op_compare-Controls :
      (test : Sign → Bool) (a b : ℕ) → Controls (some op.p2) (op_compare test a b op)
  unfolding op_compare
  op_compare-Controls test a b =
      Controls-then (compare_regs-Keeps a b) λ sign. jump_if-Controls op.p2 _

  op_idx-Controls : (test : ℕ → ℕ → Bool) → Controls (some op.p2) (op_idx test op)
  unfolding op_idx
  op_idx-Controls test =
      Controls-then (current_row-Keeps op.p1)
        λ row. Controls-then (get_int-Keeps op.p3) λ k. jump_if-Controls op.p2 _

  op_idx_pkey-Keeps : Keeps (op_idx_pkey op)
  unfolding op_idx_pkey
  op_idx_pkey-Keeps = Keeps-then (current_row-Keeps op.p1) λ row. put_reg-Keeps op.p2 _

  op_idx_insert-Keeps : (fuel : ℕ) → Keeps (op_idx_insert fuel op)
  unfolding op_idx_insert
  op_idx_insert-Keeps fuel = Keeps-then (get_cur-Keeps op.p1) λ cur.
      Keeps-then (get_int-Keeps op.p2) λ i. Keeps-then (get_int-Keeps op.p3) λ k. on_pager-Keeps _

  op_create-Keeps : (type : ℕ) → Keeps (op_create type op)
  unfolding op_create
  op_create-Keeps type = Keeps-then (on_pager-Keeps _) λ root. put_reg-Keeps op.p1 _

  op_copy-Keeps : Keeps (op_copy op)
  unfolding op_copy
  op_copy-Keeps = Keeps-then (ensure_reg-Keeps op.p1) λ u.
      Keeps-then (ensure_reg-Keeps op.p2)
        λ u'. Keeps-then (get_reg-Keeps op.p1) λ v. set_reg-Keeps op.p2 v

  op_halt-Controls : Controls none (op_halt op)
  unfolding op_halt
  op_halt-Controls = record {
    controls = λ s. record { pc = inr (inr refl); ops = refl; end_op = refl };
  }

-- The address that an instruction may jump to.
abbrev pub jump_target : Opcode → ℕ → Option ℕ
jump_target Opcode.rewind p2 = some p2
jump_target Opcode.next p2 = some p2
jump_target Opcode.prev p2 = some p2
jump_target Opcode.seek p2 = some p2
jump_target Opcode.seek_gt p2 = some p2
jump_target Opcode.seek_ge p2 = some p2
jump_target Opcode.seek_lt p2 = some p2
jump_target Opcode.seek_le p2 = some p2
jump_target Opcode.eq p2 = some p2
jump_target Opcode.ne p2 = some p2
jump_target Opcode.lt p2 = some p2
jump_target Opcode.le p2 = some p2
jump_target Opcode.gt p2 = some p2
jump_target Opcode.ge p2 = some p2
jump_target Opcode.idx_gt p2 = some p2
jump_target Opcode.idx_ge p2 = some p2
jump_target Opcode.idx_lt p2 = some p2
jump_target Opcode.idx_le p2 = some p2
jump_target _ p2 = none

dispatch-Controls :
    (fuel : ℕ) (opcode : Opcode) (op : DbmOp)
    → Controls (jump_target opcode op.p2) (dispatch fuel opcode op)
unfolding dispatch op_rewind op_next op_prev op_integer op_null
dispatch-Controls fuel Opcode.noop op = Controls-of_Keeps (pure-Keeps tt)
dispatch-Controls fuel Opcode.open_read op =
    Controls-of_Keeps (op_open-Keeps op fuel CursorType.read)
dispatch-Controls fuel Opcode.open_write op =
    Controls-of_Keeps (op_open-Keeps op fuel CursorType.write)
dispatch-Controls fuel Opcode.close op = Controls-of_Keeps (op_close-Keeps op)
dispatch-Controls fuel Opcode.rewind op = move_cursor-Controls op _ true
dispatch-Controls fuel Opcode.next op = move_cursor-Controls op _ true
dispatch-Controls fuel Opcode.prev op = move_cursor-Controls op _ true
dispatch-Controls fuel Opcode.seek op = op_seek-Controls op _
dispatch-Controls fuel Opcode.seek_gt op = op_seek-Controls op _
dispatch-Controls fuel Opcode.seek_ge op = op_seek-Controls op _
dispatch-Controls fuel Opcode.seek_lt op = op_seek-Controls op _
dispatch-Controls fuel Opcode.seek_le op = op_seek-Controls op _
dispatch-Controls fuel Opcode.column op = Controls-of_Keeps (op_column-Keeps op)
dispatch-Controls fuel Opcode.key op = Controls-of_Keeps (op_key-Keeps op)
dispatch-Controls fuel Opcode.integer op = Controls-of_Keeps (put_reg-Keeps op.p2 _)
dispatch-Controls fuel Opcode.string op = Controls-of_Keeps (op_string-Keeps op)
dispatch-Controls fuel Opcode.null op = Controls-of_Keeps (put_reg-Keeps op.p2 _)
dispatch-Controls fuel Opcode.result_row op = Controls-of_Keeps (op_result_row-Keeps op)
dispatch-Controls fuel Opcode.make_record op = Controls-of_Keeps (op_make_record-Keeps op)
dispatch-Controls fuel Opcode.insert op = Controls-of_Keeps (op_insert-Keeps op fuel)
dispatch-Controls fuel Opcode.eq op = op_compare-Controls op _ op.p1 op.p3
dispatch-Controls fuel Opcode.ne op = op_compare-Controls op _ op.p1 op.p3
dispatch-Controls fuel Opcode.lt op = op_compare-Controls op _ op.p3 op.p1
dispatch-Controls fuel Opcode.le op = op_compare-Controls op _ op.p3 op.p1
dispatch-Controls fuel Opcode.gt op = op_compare-Controls op _ op.p3 op.p1
dispatch-Controls fuel Opcode.ge op = op_compare-Controls op _ op.p3 op.p1
dispatch-Controls fuel Opcode.idx_gt op = op_idx-Controls op _
dispatch-Controls fuel Opcode.idx_ge op = op_idx-Controls op _
dispatch-Controls fuel Opcode.idx_lt op = op_idx-Controls op _
dispatch-Controls fuel Opcode.idx_le op = op_idx-Controls op _
dispatch-Controls fuel Opcode.idx_pkey op = Controls-of_Keeps (op_idx_pkey-Keeps op)
dispatch-Controls fuel Opcode.idx_insert op = Controls-of_Keeps (op_idx_insert-Keeps op fuel)
dispatch-Controls fuel Opcode.create_table op = Controls-of_Keeps (op_create-Keeps op _)
dispatch-Controls fuel Opcode.create_index op = Controls-of_Keeps (op_create-Keeps op _)
dispatch-Controls fuel Opcode.copy op = Controls-of_Keeps (op_copy-Keeps op)
dispatch-Controls fuel Opcode.scopy op = Controls-of_Keeps (op_copy-Keeps op)
dispatch-Controls fuel Opcode.halt op = op_halt-Controls op

-- However an instruction ends, the program is the same, and the program counter is where it was (behind the
-- instruction), at `p2` if the instruction is one that jumps, or at the end of the program.
pub op_handle-Controlled :
    (depth : ℕ) (op : DbmOp) (s : Stmt)
    → Ends (Controlled (jump_target op.opcode op.p2) s) (op_handle depth op s)
unfolding op_handle
op_handle-Controlled depth op s = (dispatch-Controls depth op.opcode op).controls s
