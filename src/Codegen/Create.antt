-- ===== src/Codegen/Create.antt =====
-- src/libchidb/codegen.c: the programs of CREATE TABLE and CREATE INDEX.
use chidb.Prelude.{ℕ, Bool, true, false, none, some, List, [], ◌∷◌, ◌++◌, codes, if◌then◌else◌}
use chidb.Run.{Code, Run, ok, err, fault}
use chidb.Dbm.{Opcode, DbmOp, Stmt}
use chidb.Schema.{SchemaItem, find_table, next_key}
use chidb.Sql.{DataType, Column, Table, Index, Parser}
use chidb.Optimizer.{table_columns}
use chidb.Codegen.{
  Emitter, emit, emits, patch, op_of, unpatched, string_op, column_count, column_index_by_name,
  read_op,
}

abbrev pub start : Stmt → Emitter
start s = record { stmt = s; pc = 0 }

-- The row of the schema, up to the record: its columns are in the registers 1 to 5, the root page in 4.
abbrev pub schema_row_ops : Opcode → List ℕ → List ℕ → List ℕ → List ℕ → ℕ → List DbmOp
schema_row_ops create type name table_name sql key =
    op_of Opcode.integer 1 0 0
    ∷ op_of Opcode.open_write 0 0 5
    ∷ op_of create 4 0 0
    ∷ string_op type 1
    ∷ string_op name 2
    ∷ string_op table_name 3
    ∷ string_op sql 5
    ∷ op_of Opcode.make_record 1 5 6
    ∷ op_of Opcode.integer key 7 0
    ∷ op_of Opcode.insert 0 6 7
    ∷ op_of Opcode.close 0 0 0
    ∷ []

unfoldable pub codegen_create_table : List SchemaItem → Stmt → Table → List ℕ → Run Stmt (Unit {0})
codegen_create_table schema s table sql = elim (find_table schema table.name) [
  | some item ↦ err Code.einvalidsql s
  | none ↦
      let e : Emitter = emits (start s) (
        schema_row_ops Opcode.create_table (codes "table") table.name table.name sql
          (next_key schema)
        ++ op_of Opcode.halt 0 0 0 ∷ []) in
      ok tt (record e.stmt { schema_change = true })
]

-- The program from the new index on: `index_loop` enters every row of the table.
unfoldable pub emit_create_index : Stmt → SchemaItem → List Column → ℕ → Index → List ℕ → ℕ → Stmt
emit_create_index s tbl cols col index sql key =
    let opened : Emitter = emits (start s) (
      schema_row_ops Opcode.create_index (codes "index") index.name index.table_name sql key
      ++ op_of Opcode.open_write 2 4 0
        ∷ op_of Opcode.integer tbl.root_page 8 0
        ∷ op_of Opcode.open_read 1 8 (column_count cols)
        ∷ []) in
    let rewound : Emitter = emit opened (op_of Opcode.rewind 1 unpatched 0) in
    let looped : Emitter = emits rewound (
      read_op cols 1 col 9
      ∷ op_of Opcode.key 1 10 0
      ∷ op_of Opcode.idx_insert 2 9 10
      ∷ op_of Opcode.next 1 rewound.pc 0
      ∷ []) in
    let closed : Emitter =
      emits (patch looped opened.pc looped.pc)
        (op_of Opcode.close 1 0 0 ∷ op_of Opcode.close 2 0 0 ∷ op_of Opcode.halt 0 0 0 ∷ []) in
    record closed.stmt { schema_change = true }

abbrev is_int : DataType → Bool
is_int DataType.int_type = true
is_int _ = false

-- The column must be there, and an integer.
unfoldable pub codegen_create_index :
    Parser → List SchemaItem → Stmt → Index → List ℕ → Run Stmt (Unit {0})
unfolding emit_create_index
codegen_create_index parse schema s index sql = elim (find_table schema index.table_name) [
  | none ↦ err Code.einvalidsql s
  | some tbl ↦ elim (table_columns parse tbl) [
    | none ↦ fault
    | some cols ↦ elim (column_index_by_name cols index.column_name) [
      | none ↦ err Code.einvalidsql s
      | some (col, type) ↦
          if is_int type
          then ok tt (emit_create_index s tbl cols col index sql (next_key schema))
          else err Code.einvalidsql s
    ]
  ]
]
