-- ===== src/Dbm/Exec/Table.antt =====
-- src/libchidb/dbm-ops.c, dbm.c: OpenRead on a file that holds a table, and the scanning program.
use chidb.Prelude.{ℕ, suc, ◌≤◌, ◌<◌, ◌≡◌, refl, Bool, true, false, none, some, List, arith}
use chidb.Run.{ok}
use chidb.Btree.Tree.{Tree, Holds, depth}
use chidb.Cursor.{CursorRow, Cursor, CursorType, cursor_open}
use chidb.Cursor.Shown.{shown_rows, in_order}
use chidb.Cursor.Collect.{cursor_open-in_order}
use chidb.Dbm.{DbmOp, Stmt, get_int, ensure_cur, set_cur, set_at, is_open, on_pager, with_pager}
use chidb.Dbm.Ops.{op_open}
use chidb.Dbm.Exec.Scan.{scan_ops, IsScanning}
use chidb.Dbm.Exec.Yields.{Yields, keys, scan-Yields}

-- A statement at the start of the scanning program, before its cursor is opened.
pub record IsPrepared (s : Stmt) : Type 0 where
  pub pc_is : s.pc ≡ 0
  pub ops_is : s.ops ≡ scan_ops
  pub end_is : s.end_op ≡ 5
  pub runs : s.explain ≡ false
  pub start_is : s.start_rr ≡ 0
  pub count_is : s.n_rr ≡ 1
  pub cols_is : s.n_cols ≡ 1
  pub slots : 0 < s.n_cursors
  pub regs : 0 < s.n_reg

-- The statement with the cursor in slot 0.
abbrev with_cursor : Stmt → Cursor → Stmt
with_cursor s cur = record s { cursors = set_at s.cursors 0 (some cur) }

module _ (s : Stmt) (prepared : IsPrepared s) (op : DbmOp) (p1_is : op.p1 ≡ 0) (root : ℕ)
    (root_in : get_int op.p2 s ≡ ok root s) where
  ensured : ensure_cur 0 s ≡ ok tt s
  unfolding ensure_cur
  ensured = ground (arith, prepared.slots)

  op_open-with_cursor :
      (fuel : ℕ) (type : CursorType) (cur : Cursor)
      → cursor_open fuel root type s.pager ≡ ok cur s.pager
      → op_open fuel type op s ≡ ok tt (with_cursor s cur)
  unfolding op_open on_pager with_pager set_cur
  op_open-with_cursor fuel type cur e =
      rw p1_is (rw ensured (rw root_in (rw e (ground (arith, prepared.slots)))))

  with_cursor-IsScanning :
      (cur : Cursor) → is_open cur.type ≡ true → IsScanning cur 0 (with_cursor s cur)
  unfolding set_at
  with_cursor-IsScanning cur opened = record {
    pc_is = prepared.pc_is;
    ops_is = prepared.ops_is;
    end_is = prepared.end_is;
    runs = prepared.runs;
    start_is = prepared.start_is;
    count_is = prepared.count_is;
    cols_is = prepared.cols_is;
    slot = refl;
    slots = prepared.slots;
    regs = prepared.regs;
    opened = opened;
  }

  -- On a file that holds a B-tree with its root in the page that a register names, OpenRead succeeds with fuel for
  -- the tree, and the scanning program then gives the keys of the entries of the tree, in order, and ends.
  pub op_open-Yields :
      (index : Bool) (t : Tree)
      → Holds s.pager index root t
      → (levels rounds : ℕ) → depth t ≤ levels
      → (rs : List CursorRow) × (s' : Stmt) × (op_open levels CursorType.read op s ≡ ok tt s')
        × (shown_rows rs ≡ in_order index t)
        × Yields levels (suc (suc (suc rounds))) s' (keys rs)
  unfolding is_open
  op_open-Yields index t h levels rounds deep =
      let (rs, e, shows) = cursor_open-in_order s.pager index h CursorType.read levels deep in
      let cur : Cursor = record {
        type = CursorType.read;
        root = root;
        is_index = index;
        rows = rs;
        pos = none;
      } in
      (
        rs,
        with_cursor s cur,
        op_open-with_cursor levels CursorType.read cur e,
        shows,
        scan-Yields levels rounds cur (with_cursor s cur) (with_cursor-IsScanning cur refl),
      )
