-- ===== src/Codegen/Insert.antt =====
-- src/libchidb/codegen.c: the program of INSERT.
use chidb.Prelude.{
  ℕ, suc, ◌+◌, Bool, true, false, ◌&&◌, Option, none, some, List, [], ◌∷◌, ◌++◌, ◌==◌, get_elem?,
  codes, if◌then◌else◌,
}
use chidb.Run.{Code, Run, ok, err, fault}
use chidb.Dbm.{Opcode, DbmOp, Stmt}
use chidb.Schema.{SchemaItem, find_table, str_eq, str_case_eq}
use chidb.Sql.{Literal, Column, Insert, Create, StatementKind, Parser}
use chidb.Optimizer.{table_columns}
use chidb.Codegen.{
  emits, op_of, literal_op, literal_matches_type, column_count, column_index_by_name,
  primary_key_index,
}
use chidb.Codegen.Create.{start}

-- As many values as columns, each of the type of its column.
unfoldable pub values_match : List Literal → List Column → Bool
values_match [] [] = true
values_match (l ∷ ls) (c ∷ cs) = literal_matches_type l c.type && values_match ls cs
values_match _ _ = false

-- `val.ival`: the union holds an integer only for TYPE_INT.
unfoldable pub ival_of : Literal → Option ℕ
ival_of (Literal.lit_int n) = some n
ival_of _ = none

-- Null in the place of the primary key `pk`, and the literals for the other columns, from the column `i` on.
unfoldable pub value_ops : ℕ → ℕ → List Literal → List DbmOp
value_ops pk i [] = []
value_ops pk i (l ∷ ls) =
    (if i == pk then op_of Opcode.null 0 (2 + i) 0 else literal_op l (2 + i))
    ∷ value_ops pk (suc i) ls

unfoldable pub kind_column : StatementKind → Option (List ℕ)
kind_column (StatementKind.stmt_create (Create.create_index index)) = some index.column_name
kind_column _ = none

-- The column of the index that a text creates.
unfoldable pub index_column : Parser → List ℕ → Option (List ℕ)
unfolding kind_column
index_column parse sql = elim (parse sql) [ none ↦ none | some s ↦ kind_column s.stmt ]

-- The new entry of one index.
abbrev pub index_entry_ops : ℕ → ℕ → ℕ → ℕ → List DbmOp
index_entry_ops root r_root cursor r_key =
    op_of Opcode.integer root r_root 0
    ∷ op_of Opcode.open_write cursor r_root 0
    ∷ op_of Opcode.idx_insert cursor r_key 1
    ∷ op_of Opcode.close cursor 0 0
    ∷ []

abbrev pub is_index_of : SchemaItem → List ℕ → Bool
is_index_of item table = str_eq item.type (codes "index") && str_case_eq item.table_name table

-- The loop over the schema: one register and one cursor for each index of the table. A text that creates no index is
-- undefined, `none`.
unfoldable pub index_ops :
    Parser → List Column → ℕ → List ℕ → ℕ → ℕ → List SchemaItem → Option (List DbmOp)
index_ops parse cols pk table r cursor [] = some []
index_ops parse cols pk table r cursor (item ∷ items) =
    let skipped = index_ops parse cols pk table r cursor items in
    let rest = index_ops parse cols pk table (suc r) (suc cursor) items in
    if is_index_of item table
    then elim (index_column parse item.sql) [
      | none ↦ none
      | some name ↦ elim (column_index_by_name cols name) [
        | none ↦ skipped
        | some (i, type) ↦ elim rest [
          | none ↦ none
          | some ops ↦
              some (index_entry_ops item.root_page r cursor (if i == pk then 1 else 2 + i) ++ ops)
        ]
      ]
    ]
    else skipped

-- The row: the key in register 1, the columns from register 2 on, and the record after them.
abbrev pub row_ops : ℕ → List Column → ℕ → ℕ → List Literal → List DbmOp
row_ops root cols pk key values =
    op_of Opcode.integer root 0 0
      ∷ op_of Opcode.open_write 0 0 (column_count cols)
      ∷ op_of Opcode.integer key 1 0
      ∷ []
    ++ value_ops pk 0 values
    ++ op_of Opcode.make_record 2 (column_count cols) (2 + column_count cols)
      ∷ op_of Opcode.insert 0 (2 + column_count cols) 1
      ∷ []

abbrev pub end_ops : List DbmOp
end_ops = op_of Opcode.close 0 0 0 ∷ op_of Opcode.halt 0 0 0 ∷ []

unfoldable pub emit_insert :
    Parser → List SchemaItem → Stmt → SchemaItem → List Column → Insert → Run Stmt (Unit {0})
unfolding ival_of
emit_insert parse schema s tbl cols insert =
    let pk : ℕ = primary_key_index cols in
    elim (get_elem? insert.values pk) [
      | none ↦ fault
      | some l ↦ elim (ival_of l) [
        | none ↦ fault
        | some key ↦
            elim (index_ops parse cols pk insert.table_name (2 + column_count cols + 1) 1 schema) [
              | none ↦ fault
              | some ops ↦
                  ok tt
                    (emits (start s)
                      (row_ops tbl.root_page cols pk key insert.values ++ ops ++ end_ops)).stmt
            ]
      ]
    ]

unfoldable pub codegen_insert : Parser → List SchemaItem → Stmt → Insert → Run Stmt (Unit {0})
unfolding emit_insert values_match
codegen_insert parse schema s insert = elim (find_table schema insert.table_name) [
  | none ↦ err Code.einvalidsql s
  | some tbl ↦ elim (table_columns parse tbl) [
    | none ↦ fault
    | some cols ↦
        if values_match insert.values cols
        then emit_insert parse schema s tbl cols insert
        else err Code.einvalidsql s
  ]
]
