-- ===== src/Api.antt =====
-- src/libchidb/api.c: stepping through a statement and reading its columns. A column number is an `int` by its bits: a
-- negative one, from 2^31 on, is never below the number of columns.
pub mod Explain
pub mod Prepare
mod Tests
use chidb.Prelude.{
  ℕ, ◌+◌, ◌-◌, ◌*◌, ◌%◌, ◌^◌, Bool, Option, none, some, List, [], ltb, leb, ◌==◌, if◌then◌else◌,
  ◌&&◌, get_elem?, length, codes,
}
use chidb.Run.{Code, Run, ok, err, fault, out_of_fuel, Cmd}
use chidb.Pager.{DbFile, Pager}
use chidb.Record.{sql_null_code, integer_4byte_code, text_code}
use chidb.Btree.Open.{open_file}
use chidb.Dbm.{Opcode, DbmOp, Register, Stmt}
use chidb.Dbm.Exec.{exec}
use chidb.Schema.{SchemaItem, schema_load}

unfoldable pub opcode_to_str : Opcode → List ℕ
opcode_to_str Opcode.noop = codes "Noop"
opcode_to_str Opcode.open_read = codes "OpenRead"
opcode_to_str Opcode.open_write = codes "OpenWrite"
opcode_to_str Opcode.close = codes "Close"
opcode_to_str Opcode.rewind = codes "Rewind"
opcode_to_str Opcode.next = codes "Next"
opcode_to_str Opcode.prev = codes "Prev"
opcode_to_str Opcode.seek = codes "Seek"
opcode_to_str Opcode.seek_gt = codes "SeekGt"
opcode_to_str Opcode.seek_ge = codes "SeekGe"
opcode_to_str Opcode.seek_lt = codes "SeekLt"
opcode_to_str Opcode.seek_le = codes "SeekLe"
opcode_to_str Opcode.column = codes "Column"
opcode_to_str Opcode.key = codes "Key"
opcode_to_str Opcode.integer = codes "Integer"
opcode_to_str Opcode.string = codes "String"
opcode_to_str Opcode.null = codes "Null"
opcode_to_str Opcode.result_row = codes "ResultRow"
opcode_to_str Opcode.make_record = codes "MakeRecord"
opcode_to_str Opcode.insert = codes "Insert"
opcode_to_str Opcode.eq = codes "Eq"
opcode_to_str Opcode.ne = codes "Ne"
opcode_to_str Opcode.lt = codes "Lt"
opcode_to_str Opcode.le = codes "Le"
opcode_to_str Opcode.gt = codes "Gt"
opcode_to_str Opcode.ge = codes "Ge"
opcode_to_str Opcode.idx_gt = codes "IdxGt"
opcode_to_str Opcode.idx_ge = codes "IdxGe"
opcode_to_str Opcode.idx_lt = codes "IdxLt"
opcode_to_str Opcode.idx_le = codes "IdxLe"
opcode_to_str Opcode.idx_pkey = codes "IdxPKey"
opcode_to_str Opcode.idx_insert = codes "IdxInsert"
opcode_to_str Opcode.create_table = codes "CreateTable"
opcode_to_str Opcode.create_index = codes "CreateIndex"
opcode_to_str Opcode.copy = codes "Copy"
opcode_to_str Opcode.scopy = codes "SCopy"
opcode_to_str Opcode.halt = codes "Halt"

-- A statement and the schema of its database.
pub record Session : Type 0 where
  pub stmt : Stmt
  pub schema : List SchemaItem

-- An opened database: its pager and its schema.
pub record Chidb : Type 0 where
  pub pager : Pager
  pub schema : List SchemaItem

-- What `chidb_schema_load` leaves, in a database.
unfoldable pub with_schema : Pager → Run (List SchemaItem) (Unit {0}) → Run Chidb (Unit {0})
with_schema p (ok u items) = ok tt (record { pager = p; schema = items })
with_schema p (err c items) = err c (record { pager = p; schema = items })
with_schema p fault = fault
with_schema p out_of_fuel = out_of_fuel

unfoldable pub with_file : ℕ → Run Pager (Unit {0}) → Run Chidb (Unit {0})
unfolding with_schema
with_file depth (ok u p) = with_schema p (schema_load depth p [])
with_file depth (err c p) = err c (record { pager = p; schema = [] })
with_file depth fault = fault
with_file depth out_of_fuel = out_of_fuel

-- `chidb_open`; `none` is CHIDB_EIO.
unfoldable pub open_database : ℕ → Option DbFile → Bool → Option (Run Chidb (Unit {0}))
unfolding with_file
open_database depth existing creatable = elim (open_file existing creatable) [
  | none ↦ none
  | some r ↦ some (with_file depth r)
]

-- The reload of the schema; its return code is ignored.
unfoldable pub reloaded : Stmt → Run (List SchemaItem) (Unit {0}) → Run Session (Unit {0})
reloaded s (ok u items) = err Code.done (record { stmt = s; schema = items })
reloaded s (err c items) = err Code.done (record { stmt = s; schema = items })
reloaded s fault = fault
reloaded s out_of_fuel = out_of_fuel

-- What follows `chidb_stmt_exec`.
unfoldable pub stepped : ℕ → List SchemaItem → Run Stmt (Unit {0}) → Run Session (Unit {0})
unfolding reloaded
stepped depth schema (ok u s) = ok u (record { stmt = s; schema = schema })
stepped depth schema (err Code.done s) =
    if s.schema_change
    then reloaded s (schema_load depth s.pager schema)
    else err Code.done (record { stmt = s; schema = schema })
stepped depth schema (err c s) = err c (record { stmt = s; schema = schema })
stepped depth schema fault = fault
stepped depth schema out_of_fuel = out_of_fuel

-- `pc` is at most `end_op` in an EXPLAIN statement.
unfoldable pub step : ℕ → ℕ → Cmd Session (Unit {0})
unfolding stepped
step depth fuel c =
    if c.stmt.explain
    then if c.stmt.pc == c.stmt.end_op
      then err Code.done c
      else err Code.row (record c { stmt = record c.stmt { pc = (c.stmt.pc + 1) % 2 ^ 32 } })
    else stepped depth c.schema (exec depth fuel c.stmt)

unfoldable pub column_count : Stmt → ℕ
column_count s = if s.explain then 6 else s.n_cols

-- SQL_NOTVALID, which is -1, by its bits.
abbrev pub notvalid_code : ℕ
notvalid_code = 0xffff_ffff

-- The type code of a text.
unfoldable pub text_type : List ℕ → ℕ
text_type s = (2 * length s + text_code) % 2 ^ 32

unfoldable pub register_type : Register → ℕ
unfolding text_type
register_type Register.unspecified = notvalid_code
register_type (Register.binary d n) = notvalid_code
register_type Register.null = sql_null_code
register_type (Register.int32 v) = integer_4byte_code
register_type (Register.string s) = text_type s

-- `stmt->reg[stmt->startRR + col]`, with the sum in `uint32_t`; a register that is not there is undefined, `none`.
unfoldable pub row_register : Stmt → ℕ → Option Register
row_register s col =
    let r = (s.start_rr + col) % 2 ^ 32 in if ltb r s.n_reg then some (s.reg r) else none

unfoldable pub is_column : Stmt → ℕ → Bool
is_column s col = ltb col (2 ^ 31) && ltb col s.n_cols

-- The instruction that an EXPLAIN statement stands on. Before the first step it is undefined.
unfoldable pub explained_op : Stmt → Option DbmOp
explained_op s = if ltb 0 s.pc && leb s.pc s.n_ops then some (s.ops (s.pc - 1)) else none

unfoldable pub explained_type : DbmOp → ℕ → ℕ
unfolding text_type
explained_type op col =
    if col == 0
    then integer_4byte_code
    else if col == 1
    then text_type (opcode_to_str op.opcode)
    else if ltb col 5
    then integer_4byte_code
    else if col == 5
    then elim op.p4 [ none ↦ sql_null_code | some s ↦ text_type s ]
    else notvalid_code

unfoldable pub column_type : Stmt → ℕ → Option ℕ
unfolding register_type explained_type
column_type s col =
    if s.explain
    then elim (explained_op s) [ none ↦ none | some op ↦ some (explained_type op col) ]
    else if is_column s col
    then elim (row_register s col) [ none ↦ none | some r ↦ some (register_type r) ]
    else some notvalid_code

-- The inner `none` is NULL.
unfoldable pub explained_name : ℕ → Option (List ℕ)
explained_name col =
    if col == 0
    then some (codes "addr")
    else if col == 1
    then some (codes "opcode")
    else if col == 2
    then some (codes "p1")
    else if col == 3
    then some (codes "p2")
    else if col == 4
    then some (codes "p3")
    else if col == 5
    then some (codes "p4")
    else none

unfoldable pub column_name : Stmt → ℕ → Option (List ℕ)
unfolding explained_name
column_name s col =
    if s.explain then explained_name col else if is_column s col then get_elem? s.cols col else none

unfoldable pub register_int : Register → ℕ
register_int Register.unspecified = 0
register_int (Register.binary d n) = 0
register_int Register.null = 0
register_int (Register.int32 v) = v
register_int (Register.string s) = 0

unfoldable pub explained_int : Stmt → DbmOp → ℕ → ℕ
explained_int s op col =
    if col == 0
    then s.pc - 1
    else if col == 2
    then op.p1
    else if col == 3
    then op.p2
    else if col == 4
    then op.p3
    else 0

unfoldable pub column_int : Stmt → ℕ → Option ℕ
unfolding register_int explained_int
column_int s col =
    if s.explain
    then elim (explained_op s) [ none ↦ none | some op ↦ some (explained_int s op col) ]
    else if is_column s col
    then elim (row_register s col) [ none ↦ none | some r ↦ some (register_int r) ]
    else some 0

unfoldable pub register_text : Register → Option (List ℕ)
register_text Register.unspecified = none
register_text (Register.binary d n) = none
register_text Register.null = none
register_text (Register.int32 v) = none
register_text (Register.string s) = some s

unfoldable pub explained_text : DbmOp → ℕ → Option (List ℕ)
explained_text op col =
    if col == 1 then some (opcode_to_str op.opcode) else if col == 5 then op.p4 else none

unfoldable pub column_text : Stmt → ℕ → Option (Option (List ℕ))
unfolding register_text explained_text
column_text s col =
    if s.explain
    then elim (explained_op s) [ none ↦ none | some op ↦ some (explained_text op col) ]
    else if is_column s col
    then elim (row_register s col) [ none ↦ none | some r ↦ some (register_text r) ]
    else some none
