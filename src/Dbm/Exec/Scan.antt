-- ===== src/Dbm/Exec/Scan.antt =====
-- src/libchidb/dbm.c: a program that scans a table and gives the key of every row.
use chidb.Prelude.{
  ℕ, zero, suc, ◌+◌, ◌<◌, ◌≡◌, refl, ap, ◌∙◌, Bool, true, false, Option, some, arith, if◌then◌else◌,
  get_elem?,
}
use chidb.Run.{Code, Run, ok, err, and_then}
use chidb.Cursor.{CursorRow, Cursor}
use chidb.Dbm.{
  Opcode, DbmOp, Register, Stmt, noop_op, get_slot, open_cursor, get_cur, set_cur, is_open, set_at,
  set_reg, ensure_reg, jump, jump_if,
}
use chidb.Dbm.Ops.{move_cursor, current_row, put_reg, op_key, op_result_row, dispatch, op_handle}
use chidb.Dbm.Values.{defined}
use chidb.Dbm.Exec.{exec_loop}
use chidb.Dbm.Exec.Stops.{at_next, loop-round}
use chidb.Api.{row_register, register_int, is_column, column_int}

-- Over the cursor 0: the key of every row goes to register 0 and out as a result row.
abbrev pub scan_ops : ℕ → DbmOp
scan_ops zero = record noop_op { opcode = Opcode.rewind; p2 = 4 }
scan_ops (suc zero) = record noop_op { opcode = Opcode.key }
scan_ops (suc (suc zero)) = record noop_op { opcode = Opcode.result_row; p2 = 1 }
scan_ops (suc (suc (suc zero))) = record noop_op { opcode = Opcode.next; p2 = 1 }
scan_ops (suc (suc (suc (suc n)))) = record noop_op { opcode = Opcode.halt }

-- A statement that runs the program with the open cursor `cur`, and has a place for the row of one column. Like the
-- statements that the program compiles, it counts that column before there is a row.
pub record IsScanning (cur : Cursor) (pc : ℕ) (s : Stmt) : Type 0 where
  pub pc_is : s.pc ≡ pc
  pub ops_is : s.ops ≡ scan_ops
  pub end_is : s.end_op ≡ 5
  pub runs : s.explain ≡ false
  pub start_is : s.start_rr ≡ 0
  pub count_is : s.n_rr ≡ 1
  pub cols_is : s.n_cols ≡ 1
  pub slot : s.cursors 0 ≡ some cur
  pub slots : 0 < s.n_cursors
  pub regs : 0 < s.n_reg
  pub opened : is_open cur.type ≡ true

module _ (depth fuel : ℕ) (cur : Cursor) (pc : ℕ) (s : Stmt) (scanning : IsScanning cur pc s)
    (inside : pc < 5) where
  round :
      exec_loop depth (suc fuel) s
      ≡ and_then (op_handle depth (scan_ops pc) (at_next s)) (λ u s'. exec_loop depth fuel s')
  round =
      loop-round depth fuel s (omega (arith, scanning.pc_is, scanning.end_is))
      ∙ ap
          (λ (op : DbmOp).
            and_then (op_handle depth op (at_next s)) (λ u s'. exec_loop depth fuel s'))
          fetched
    where
      fetched : s.ops s.pc ≡ scan_ops pc
      fetched = rw (scanning.ops_is, scanning.pc_is) refl

  pub round-ok :
      (s' : Stmt)
      → op_handle depth (scan_ops pc) (at_next s) ≡ ok tt s'
      → exec_loop depth (suc fuel) s ≡ exec_loop depth fuel s'
  round-ok s' e =
      round ∙ ap (λ (r : Run Stmt (Unit {0})). and_then r (λ u s'. exec_loop depth fuel s')) e

  pub round-err :
      (c : Code) (s' : Stmt)
      → op_handle depth (scan_ops pc) (at_next s) ≡ err c s'
      → exec_loop depth (suc fuel) s ≡ err c s'
  round-err c s' e =
      round ∙ ap (λ (r : Run Stmt (Unit {0})). and_then r (λ u s'. exec_loop depth fuel s')) e

-- The cursor of a statement that is in the program.
module _ (cur : Cursor) (pc : ℕ) (s : Stmt) (scanning : IsScanning cur pc s) where
  cursor_in : get_cur 0 (at_next s) ≡ ok cur (at_next s)
  unfolding get_cur get_slot open_cursor
  cursor_in = ground (arith, scanning.slot, scanning.slots, scanning.opened)

  -- The statement after a move of the cursor and a jump, or none.
  abbrev pub moved : Cursor → ℕ → Stmt
  moved cur' address = record s { pc = address; cursors = set_at s.cursors 0 (some cur') }

  pub moved-IsScanning :
      (pos : Option ℕ) (address pc' : ℕ)
      → address ≡ pc'
      → IsScanning (record cur { pos = pos }) pc' (moved (record cur { pos = pos }) address)
  unfolding set_at
  moved-IsScanning pos address pc' e = record {
    pc_is = e;
    ops_is = scanning.ops_is;
    end_is = scanning.end_is;
    runs = scanning.runs;
    start_is = scanning.start_is;
    count_is = scanning.count_is;
    cols_is = scanning.cols_is;
    slot = refl;
    slots = scanning.slots;
    regs = scanning.regs;
    opened = scanning.opened;
  }

  pub move_cursor-moved :
      (move : Cursor → Bool × Cursor) (op : DbmOp) (b : Bool) (cur' : Cursor)
      → op.p1 ≡ 0
      → move cur ≡ (b, cur')
      → move_cursor move true op (at_next s) ≡ ok tt (moved cur' (if b then op.p2 else s.pc + 1))
  unfolding move_cursor set_cur jump_if jump
  move_cursor-moved move op true cur' p1_is e =
      rw (p1_is) (rw (cursor_in) (rw (e) (ground (arith, scanning.slots))))
  move_cursor-moved move op false cur' p1_is e =
      rw (p1_is) (rw (cursor_in) (rw (e) (ground (arith, scanning.slots))))

  -- The statement after Key has put a key into register 0.
  abbrev keyed : ℕ → Stmt
  keyed key = record s { pc = s.pc + 1; reg = set_at s.reg 0 (Register.int32 key) }

  op_key-keyed :
      (row : CursorRow) (i : ℕ) (op : DbmOp)
      → op.p1 ≡ 0
      → op.p2 ≡ 0
      → cur.pos ≡ some i
      → get_elem? cur.rows i ≡ some row
      → op_key op (at_next s) ≡ ok tt (keyed row.key)
  unfolding op_key current_row defined put_reg ensure_reg set_reg
  op_key-keyed row i op p1_is p2_is at e =
      rw (p1_is) (rw (p2_is) (rw (cursor_in) (rw (at) (rw (e) (ground (arith, scanning.regs))))))

-- From Key on: the result row with the key of the row that the cursor is on.
module _ (depth fuel : ℕ) (cur : Cursor) (s : Stmt) (row : CursorRow) (i : ℕ)
    (scanning : IsScanning cur 1 s) (at : cur.pos ≡ some i)
    (row_is : get_elem? cur.rows i ≡ some row) where
  -- The statement with the result row.
  abbrev pub shown : Stmt
  shown = record (keyed cur 1 s scanning row.key) { pc = s.pc + 1 + 1; start_rr = 0; n_rr = 1 }

  keyed-IsScanning : IsScanning cur 2 (keyed cur 1 s scanning row.key)
  keyed-IsScanning = record {
    pc_is = omega (arith, scanning.pc_is);
    ops_is = scanning.ops_is;
    end_is = scanning.end_is;
    runs = scanning.runs;
    start_is = scanning.start_is;
    count_is = scanning.count_is;
    cols_is = scanning.cols_is;
    slot = scanning.slot;
    slots = scanning.slots;
    regs = scanning.regs;
    opened = scanning.opened;
  }

  pub row_rounds : exec_loop depth (suc (suc fuel)) s ≡ err Code.row shown
  unfolding op_handle dispatch op_result_row
  row_rounds =
      round-ok depth (suc fuel) cur 1 s scanning (omega arith) (keyed cur 1 s scanning row.key)
        (op_key-keyed cur 1 s scanning row i (scan_ops 1) refl refl at row_is)
      ∙ round-err depth fuel cur 2 (keyed cur 1 s scanning row.key) keyed-IsScanning (omega arith)
          Code.row _ refl

  pub shown-IsScanning : IsScanning cur 3 shown
  shown-IsScanning = record {
    pc_is = omega (arith, scanning.pc_is);
    ops_is = scanning.ops_is;
    end_is = scanning.end_is;
    runs = scanning.runs;
    start_is = refl;
    count_is = refl;
    cols_is = scanning.cols_is;
    slot = scanning.slot;
    slots = scanning.slots;
    regs = scanning.regs;
    opened = scanning.opened;
  }

  pub shown_column : column_int shown 0 ≡ some row.key
  unfolding column_int row_register register_int is_column set_at
  shown_column = rw (scanning.runs) (ground (arith, scanning.cols_is, scanning.regs))
