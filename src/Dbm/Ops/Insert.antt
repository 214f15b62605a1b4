-- ===== src/Dbm/Ops/Insert.antt =====
-- src/libchidb/dbm-ops.c: Insert on a table that fits one leaf.
use chidb.Prelude.{ℕ, suc, ◌%◌, ◌^◌, ◌≡◌, refl, ap, ◌∙◌, false, none, some, ◌==◌, if◌then◌else◌}
use chidb.Bytes.{Bytes}
use chidb.Run.{Code, Run, ok, err}
use chidb.Pager.{Pager}
use chidb.Pager.Laws.{IsPager}
use chidb.Node.PageType
use chidb.Node.{BTreeCell}
use chidb.Node.Cells.{CellFits}
use chidb.Node.Entries.{Entry, entry, entries}
use chidb.Btree.{is_full, insert, insert_in_table, find}
use chidb.Btree.Tree.{IsNodeAt, node_at, lookup}
use chidb.Btree.Find.{Finds}
use chidb.Btree.LeafInsert.{IsAscending}
use chidb.Btree.Insert.{insert_duplicate, find-insert}
use chidb.Cursor.{Cursor}
use chidb.Dbm.{DbmOp, Register, Stmt, get_reg, get_int, get_cur, with_pager, on_pager}
use chidb.Dbm.Ops.{op_insert, as_constraint, translated, as_constraint_of}
use chidb.Dbm.Values.{binary_value, defined}

-- The cell that a row is inserted with.
abbrev pub row_cell : ℕ → Bytes → ℕ → BTreeCell
row_cell key d n = record {
  type = PageType.table_leaf;
  key = key;
  child_page = 0;
  key_pk = 0;
  data_size = n % 2 ^ 16;
  data_ = d;
}

-- The cursor is open, and the registers hold the record and the key.
pub record IsInsertion (op : DbmOp) (s : Stmt) (cur : Cursor) (d : Bytes) (n key : ℕ) : Type 0 where
  pub cursor_in : get_cur op.p1 s ≡ ok cur s
  pub record_in : get_reg op.p2 s ≡ ok (Register.binary d n) s
  pub key_in : get_int op.p3 s ≡ ok key s

-- The table is one leaf, in key order, and has room for the row.
pub record HasRoom (p : Pager) (nroot : ℕ) (c : BTreeCell) : Type 0 where
  pub valid : IsPager p
  pub at : IsNodeAt p nroot PageType.table_leaf
  pub fits : CellFits PageType.table_leaf c
  pub room : is_full (node_at p nroot) c ≡ false
  pub asc : IsAscending (entries (node_at p nroot))

module _ (op : DbmOp) (s : Stmt) (cur : Cursor) (d : Bytes) (n key : ℕ)
    (ready : IsInsertion op s cur d n key)
    (has_room : HasRoom s.pager cur.root (row_cell key d n)) where
  op_insert-insert :
      (fuel : ℕ)
      → op_insert fuel op s
        ≡ with_pager s (translated (insert fuel cur.root (row_cell key d n) s.pager))
  unfolding op_insert defined binary_value on_pager as_constraint_of insert_in_table
  op_insert-insert fuel = rw (ready.cursor_in) (rw (ready.record_in) (rw (ready.key_in) refl))

  after_insert :
      (fuel : ℕ) (r : Run Pager (Unit {0}))
      → insert fuel cur.root (row_cell key d n) s.pager ≡ r
      → op_insert fuel op s ≡ with_pager s (translated r)
  after_insert fuel r e =
      op_insert-insert fuel ∙ ap (λ (r : Run Pager (Unit {0})). with_pager s (translated r)) e

  -- In a table of one leaf in key order with room for the row, Insert with a key that the table has ends with CHIDB_ECONSTRAINT, and neither the file nor the machine changes.
  pub op_insert_duplicate :
      (fuel : ℕ) (e : Entry)
      → lookup key (entries (node_at s.pager cur.root)) ≡ some e
      → op_insert (suc fuel) op s ≡ err Code.econstraint s
  unfolding with_pager translated as_constraint
  op_insert_duplicate fuel e old = after_insert (suc fuel) _ (
      insert_duplicate s.pager has_room.valid false cur.root has_room.at (row_cell key d n)
        has_room.fits has_room.room has_room.asc fuel e old)

  -- In a table of one leaf in key order with room for the row, Insert with a new key succeeds and changes the file only, where a search for the key then finds the row with
  -- the record of the register, and a search for any other key finds what it found before.
  pub find-op_insert :
      (fuel sought : ℕ)
      → lookup key (entries (node_at s.pager cur.root)) ≡ none
      → (p' : Pager) × (op_insert (suc fuel) op s ≡ ok tt (record s { pager = p' }))
        × Finds p'
            (if key == sought
              then some (entry (row_cell key d n))
              else lookup sought (entries (node_at s.pager cur.root)))
            (find (suc fuel) cur.root sought p')
  unfolding with_pager translated
  find-op_insert fuel sought new =
      let (p', e, finds) =
        find-insert s.pager has_room.valid cur.root has_room.at (row_cell key d n) has_room.fits
          has_room.room has_room.asc fuel sought new in
      (p', after_insert (suc fuel) (ok tt p') e, finds)
