-- ===== src/Codegen/Scan/Row.antt =====
-- src/libchidb/codegen.c, dbm-ops.c: the row that a cursor is on, and how a compiled scan reads and checks it.
use chidb.Prelude.{
  ℕ, ◌%◌, ◌^◌, ◌≤◌, ◌<◌, ◌≡◌, ◌⊎◌, refl, inl, inr, Bool, true, false, none, some, List, arith, ltb,
  get_elem?,
}
use chidb.Run.{ok}
use chidb.Cursor.{CursorRow, Cursor}
use chidb.Record.{DbRecord}
use chidb.Dbm.{Opcode, DbmOp, Stmt, get_slot, open_cursor, get_cur}
use chidb.Dbm.Ops.{
  put_reg, current_row, row_record, column_of, put_field, op_key, op_column, dispatch, op_handle,
}
use chidb.Dbm.Values.{defined, field_value}
use chidb.Dbm.Exec.Stops.{at_next}
use chidb.Sql.{DataType, Condition, Column}
use chidb.Optimizer.Rows.{all_of}
use chidb.Optimizer.Meaning.{Value, Env, holds}
use chidb.Codegen.{op_of, column_count, column_index_by_name, column_is_primary_key, read_op}
use chidb.Codegen.Checks.{value_register}
use chidb.Codegen.Conjuncts.{ResolvedCmp}
use chidb.Codegen.Scan.State.{Running}

-- A value of a column of the type. There are no values of the types that codegen.c does not know.
pub data HasType : DataType → Value → Type 0 where
  int_value : {n : ℕ} → HasType DataType.int_type (Value.int n)
  text_value : {s : List ℕ} → HasType DataType.text_type (Value.text s)

-- The value of a column in the row: the key, or what the record of the row has.
abbrev pub ColumnIs : Cursor → List Column → CursorRow → ℕ → Value → Type 0
ColumnIs cur cols row i v =
    ((column_is_primary_key cols i ≡ true) × (v ≡ Value.int row.key))
    ⊎ ((column_is_primary_key cols i ≡ false)
        × ((dbr : DbRecord) × (row_record cur row ≡ some dbr)
            × (i < dbr.nfields)
            × (field_value dbr i ≡ some (value_register v))))

-- The values of all columns of the row, each of the type of its column.
pub record RowIs (cur : Cursor) (cols : List Column) (row : CursorRow) (vs : ℕ → Value)
    : Type 0 where
  pub columns : (i : ℕ) → i < column_count cols → ColumnIs cur cols row i (vs i)
  pub types :
      (name : List ℕ) (i : ℕ) (type : DataType)
      → column_index_by_name cols name ≡ some (i, type)
      → HasType type (vs i)

-- The values of a row as the environment of a condition on the one table.
unfoldable pub row_env : List Column → (ℕ → Value) → Env
row_env cols vs ref = elim (column_index_by_name cols ref.column_name) [
  | none ↦ none
  | some (i, type) ↦ some (vs i)
]

-- All conditions hold for the values.
abbrev pub passes : List Column → (ℕ → Value) → List Condition → Bool
passes cols vs cs = all_of (λ c. holds c (row_env cols vs)) cs

-- The cursor of a statement that runs the program.
module _ (prog : List DbmOp) (cmps : List ResolvedCmp) (nout : ℕ) (cur : Cursor) (pc : ℕ) (s : Stmt)
    (h : Running prog cmps nout cur pc s) where
  pub cursor_in : get_cur 0 (at_next s) ≡ ok cur (at_next s)
  unfolding get_cur get_slot open_cursor
  cursor_in = ground (arith, h.slot, h.slots, h.opened)

  module _ (cols : List Column) (few : column_count cols ≤ 2 ^ 8) (row : CursorRow) (k : ℕ)
      (at : cur.pos ≡ some k) (row_is : get_elem? cur.rows k ≡ some row) where
    row_in : current_row 0 (at_next s) ≡ ok row (at_next s)
    unfolding current_row defined
    row_in = rw (cursor_in, at, row_is) refl

    op_column-put_reg :
        (i r : ℕ) (dbr : DbRecord) (v : Value)
        → i < column_count cols
        → row_record cur row ≡ some dbr
        → i < dbr.nfields
        → field_value dbr i ≡ some (value_register v)
        → op_column (op_of Opcode.column 0 i r) (at_next s)
          ≡ put_reg r (value_register v) (at_next s)
    unfolding op_column column_of put_field defined
    op_column-put_reg i r dbr v i_lt e field_lt value =
        let small : i % 2 ^ 8 ≡ i = omega arith in
        let inside : ltb i dbr.nfields ≡ true = ground arith in
        rw (cursor_in) (rw (row_in) (rw (e, small) (rw (inside) (rw (value) refl))))

    pub read_op-put_reg :
        (depth i r : ℕ) (v : Value)
        → i < column_count cols
        → ColumnIs cur cols row i v
        → op_handle depth (read_op cols 0 i r) (at_next s)
          ≡ put_reg r (value_register v) (at_next s)
    unfolding read_op op_handle dispatch op_key
    read_op-put_reg depth i r v i_lt (inl (pk, is)) = rw (pk, is) (rw row_in refl)
    read_op-put_reg depth i r v i_lt (inr (pk, (dbr, e, field_lt, value))) =
        rw pk (op_column-put_reg i r dbr v i_lt e field_lt value)
