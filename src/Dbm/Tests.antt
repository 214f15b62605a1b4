-- ===== src/Dbm/Tests.antt =====
-- src/libchidb/dbm.c and dbm-ops.c on small programs.
use chidb.Prelude.{
  List, ◌≤◌, false, [], ◌∷◌, none, codes, ◌+◌, ℕ, zero, suc, ◌-◌, ◌<◌, ◌≡◌, ◌≢◌, ◌⊎◌, some, arith,
}
use chidb.Bytes.{Bytes}
use chidb.Record.{DbRecord}
use chidb.Record.Unpack.{unpack}
use chidb.Record.Values.{IsValue}
use chidb.Dbm.Ops.{op_make_record}
use chidb.Dbm.Values.{field_value}
use chidb.Dbm.Ops.Records.{IsField, IsFieldRow, row_at, field_value-op_make_record}
use chidb.Run.{ok, out_of_fuel}
use chidb.Btree.Sample.{table}
use chidb.Dbm.{
  Register, Opcode, DbmOp, Stmt, stmt_init, noop_op, realloc_ops, realloc_reg, realloc_cur,
}
use chidb.Dbm.Ops.{op_handle}
use chidb.Dbm.{get_reg}
use chidb.Dbm.Ops.Compare.{ltb_ℤ, op_handle-order_of}
use chidb.Prelude.{if◌then◌else◌, ◌==◌, refl}
use chidb.Cursor.{Cursor, CursorRow, CursorType}
use chidb.Dbm.{is_open}
use chidb.Btree.Tree.{Holds, depth}
use chidb.Btree.Sample.{two_rows, table-Holds}
use chidb.Cursor.Shown.{shown_rows, in_order}
use chidb.Dbm.{get_int, int_value}
use chidb.Dbm.Ops.{op_open}
use chidb.Dbm.Exec.Yields.{keys}
use chidb.Dbm.Exec.Table.{IsPrepared, op_open-Yields}
use chidb.Dbm.Exec.Scan.{scan_ops, IsScanning}
use chidb.Dbm.Exec.Yields.{Yields, scan-Yields}
use chidb.Dbm.Exec.{exec}
use chidb.Dbm.Exec.Control.{Ends, Controlled}
use chidb.Dbm.Exec.Dispatch.{op_handle-Controlled}
use chidb.Dbm.Exec.Stops.{IsForward, MeetsDepth, exec_stops}

-- Two integers, a jump over the next instruction if the second is smaller, and the end.
abbrev compare_program : ℕ → DbmOp
compare_program zero = record noop_op { opcode = Opcode.integer; p1 = 3; p2 = 0 }
compare_program (suc zero) = record noop_op { opcode = Opcode.integer; p1 = 5; p2 = 1 }
compare_program (suc (suc zero)) = record noop_op { opcode = Opcode.lt; p1 = 0; p2 = 4; p3 = 1 }
compare_program (suc (suc (suc zero))) = record noop_op { opcode = Opcode.null; p2 = 2 }
compare_program (suc (suc (suc (suc n)))) = record noop_op { opcode = Opcode.halt }

abbrev comparing : Stmt
comparing = record (stmt_init table) { ops = compare_program; end_op = 5 }

comparing-IsForward : IsForward comparing
comparing-IsForward zero t h e = absurd cc
comparing-IsForward (suc zero) t h e = absurd cc
comparing-IsForward (suc (suc zero)) t h e = omega (arith, some_inj 4 t e)
  where
    some_inj : (a b : ℕ) → some a ≡ some b → a ≡ b
    some_inj a b e = cc
comparing-IsForward (suc (suc (suc zero))) t h e = absurd cc
comparing-IsForward (suc (suc (suc (suc n)))) t h e = absurd cc

comparing_starts : comparing.end_op - comparing.pc < 6
unfolding stmt_init realloc_ops realloc_reg realloc_cur
comparing_starts = omega arith

exec_stops_example : (exec 2 6 comparing ≢ out_of_fuel) ⊎ MeetsDepth 2 comparing
exec_stops_example = exec_stops 2 6 comparing comparing-IsForward comparing_starts

op_handle-Controlled_example :
    Ends (Controlled (some 4) comparing) (op_handle 2 (compare_program 2) comparing)
op_handle-Controlled_example = op_handle-Controlled 2 (compare_program 2) comparing

-- The registers 1 to 3 hold NULL, an integer and a text.
abbrev filled : ℕ → Register
filled zero = Register.unspecified
filled (suc zero) = Register.null
filled (suc (suc zero)) = Register.int32 300
filled (suc (suc (suc n))) = Register.string (codes "abc")

abbrev recording : Stmt
recording = record (stmt_init table) { reg = filled }

abbrev record_op : DbmOp
record_op = record noop_op { opcode = Opcode.make_record; p1 = 1; p2 = 3; p3 = 5 }

filled-IsField : (i : ℕ) → i < 3 → IsField (filled (1 + i))
filled-IsField zero h = tt
filled-IsField (suc zero) h = tt
filled-IsField (suc (suc zero)) h = (omega arith, (omega arith, (omega arith, tt)))
filled-IsField (suc (suc (suc n))) h = absurd (omega arith)

filled-IsValue : (i : ℕ) → i < 3 → IsValue (row_at recording 1 i)
filled-IsValue zero h = tt
filled-IsValue (suc zero) h = omega arith
filled-IsValue (suc (suc zero)) h = omega arith
filled-IsValue (suc (suc (suc n))) h = absurd (omega arith)

filled-IsFieldRow : IsFieldRow recording 1 3
unfolding stmt_init realloc_ops realloc_reg realloc_cur
filled-IsFieldRow = record {
  there = omega arith;
  signed = omega arith;
  fields = filled-IsField;
  row = record { values = filled-IsValue; header_lt = omega arith; data_lt = omega arith };
}

field_value-op_make_record_example :
    (s' : Stmt) × (d : Bytes) × (r : DbRecord) × (op_make_record record_op recording ≡ ok tt s')
    × (s'.reg 5 ≡ Register.binary d r.packed_len)
    × (unpack d ≡ some r)
    × (r.nfields ≡ 3)
    × ((i : ℕ) → i < 3 → field_value r i ≡ some (filled (1 + i)))
field_value-op_make_record_example =
    field_value-op_make_record record_op recording filled-IsFieldRow (omega arith)

-- 3 and -1 in the registers 0 and 1.
abbrev with_ints : Stmt
with_ints = record (stmt_init table) {
  reg = λ r. Register.int32 (if r == 0 then 3 else 0xffff_ffff);
}

abbrev lt_op : DbmOp
lt_op = record noop_op { opcode = Opcode.lt; p1 = 0; p2 = 7; p3 = 1 }

int_in : (r : ℕ) → r < 2 → get_reg r with_ints ≡ ok (with_ints.reg r) with_ints
unfolding get_reg stmt_init realloc_ops realloc_reg realloc_cur
int_in r h = ground arith

op_handle-order_of_example : op_handle 1 lt_op with_ints ≡ ok tt (record with_ints { pc = 7 })
op_handle-order_of_example =
    op_handle-order_of 1 lt_op with_ints 3 0xffff_ffff ltb_ℤ (int_in 0 (omega arith))
      (int_in 1 (omega arith)) (omega arith) (omega arith) refl

abbrev row_seven : CursorRow
row_seven = record { key = 7; data_ = λ i. 0; size = 0; pkey = 0 }

abbrev two_keys : Cursor
two_keys = record {
  type = CursorType.read;
  root = 2;
  is_index = false;
  rows = row_seven ∷ record row_seven { key = 9 } ∷ [];
  pos = none;
}

abbrev scanning_two : Stmt
scanning_two = record (stmt_init table) {
  ops = scan_ops;
  end_op = 5;
  n_rr = 1;
  n_cols = 1;
  cursors = λ c. some two_keys;
}

two_keys-IsScanning : IsScanning two_keys 0 scanning_two
unfolding stmt_init realloc_ops realloc_reg realloc_cur is_open
two_keys-IsScanning = record {
  pc_is = refl;
  ops_is = refl;
  end_is = refl;
  runs = refl;
  start_is = refl;
  count_is = refl;
  cols_is = refl;
  slot = refl;
  slots = omega arith;
  regs = omega arith;
  opened = refl;
}

scan-Yields_example : Yields 1 3 scanning_two (7 ∷ 9 ∷ [])
scan-Yields_example = scan-Yields 1 0 two_keys scanning_two two_keys-IsScanning

-- Register 5 names the root of the sample table, in page 4.
abbrev at_start : Stmt
at_start = record (stmt_init table) {
  ops = scan_ops;
  end_op = 5;
  n_rr = 1;
  n_cols = 1;
  reg = λ r. Register.int32 4;
}

at_start-IsPrepared : IsPrepared at_start
unfolding stmt_init realloc_ops realloc_reg realloc_cur
at_start-IsPrepared = record {
  pc_is = refl;
  ops_is = refl;
  end_is = refl;
  runs = refl;
  start_is = refl;
  count_is = refl;
  cols_is = refl;
  slots = omega arith;
  regs = omega arith;
}

abbrev open_op : DbmOp
open_op = record noop_op { opcode = Opcode.open_read; p2 = 5 }

root_in : get_int 5 at_start ≡ ok 4 at_start
unfolding get_int get_reg int_value stmt_init realloc_ops realloc_reg realloc_cur
root_in = refl

at_start-Holds : Holds at_start.pager false 4 two_rows
unfolding stmt_init realloc_ops realloc_reg realloc_cur
at_start-Holds = table-Holds

two_rows_deep : depth two_rows ≤ 2
unfolding depth
two_rows_deep = omega arith

op_open-Yields_example :
    (rs : List CursorRow) × (s' : Stmt) × (op_open 2 CursorType.read open_op at_start ≡ ok tt s')
    × (shown_rows rs ≡ in_order false two_rows)
    × Yields 2 3 s' (keys rs)
op_open-Yields_example =
    op_open-Yields at_start at_start-IsPrepared open_op refl 4 root_in false two_rows at_start-Holds
      2 0 two_rows_deep
