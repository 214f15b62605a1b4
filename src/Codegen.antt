-- ===== src/Codegen.antt =====
-- src/libchidb/codegen.c: the instructions of a statement, as they are written into the program of the machine, and the
-- columns of a table. The children model the kinds of statements.
pub mod Checks
pub mod Compare
pub mod Conjuncts
pub mod Create
pub mod Insert
pub mod Join
pub mod Layout
pub mod Scan
pub mod Select
pub mod Statement
mod Tests
use chidb.Prelude.{
  ℕ, zero, suc, ◌+◌, ◌%◌, ◌^◌, Bool, true, false, ◌&&◌, ◌||◌, Option, none, some, List, [], ◌∷◌,
  length, ◌==◌, if◌then◌else◌,
}
use chidb.Dbm.{Opcode, DbmOp, Stmt, set_op, set_at}
use chidb.Dbm.Values.{c_string}
use chidb.Schema.{str_case_eq}
use chidb.Sql.{DataType, Literal, Constraint, Column}

-- A statement and `pc`, the address of the next instruction.
pub record Emitter : Type 0 where
  pub stmt : Stmt
  pub pc : ℕ

-- The address that `emit` returns is `pc` before.
unfoldable pub emit : Emitter → DbmOp → Emitter
emit e op = record { stmt = set_op e.stmt op e.pc; pc = e.pc + 1 }

-- A sequence of calls of `emit`.
unfoldable pub emits : Emitter → List DbmOp → Emitter
unfolding emit
emits e [] = e
emits e (op ∷ ops) = emits (emit e op) ops

-- `stmt->ops[address].p2 = target`
unfoldable pub patch : Emitter → ℕ → ℕ → Emitter
unfolding set_at
patch e address target = record e {
  stmt = record e.stmt {
    ops = set_at e.stmt.ops address (record (e.stmt.ops address) { p2 = target });
  };
}

unfoldable pub patch_all : Emitter → List ℕ → ℕ → Emitter
unfolding patch
patch_all e [] target = e
patch_all e (address ∷ rest) target = patch_all (patch e address target) rest target

abbrev pub op_of : Opcode → ℕ → ℕ → ℕ → DbmOp
op_of o a b c = record { opcode = o; p1 = a; p2 = b; p3 = c; p4 = none }

-- The target of a jump that is patched later, -1.
abbrev pub unpatched : ℕ
unpatched = 0xffff_ffff

abbrev pub string_op : List ℕ → ℕ → DbmOp
string_op s r = record {
  opcode = Opcode.string;
  p1 = length s % 2 ^ 32;
  p2 = r;
  p3 = 0;
  p4 = some s;
}

-- `emit_literal`. The pointer of a TYPE_DOUBLE literal is not valid; no literal of that type is emitted, as it matches
-- the type of no column.
unfoldable pub literal_op : Literal → ℕ → DbmOp
literal_op (Literal.lit_int n) r = op_of Opcode.integer n r 0
literal_op (Literal.lit_char c) r = string_op (c_string (c ∷ [])) r
literal_op (Literal.lit_text s) r = string_op s r
literal_op (Literal.lit_double n) r = record (op_of Opcode.string 0 r 0) { p4 = none }

unfoldable pub literal_matches_type : Literal → DataType → Bool
literal_matches_type (Literal.lit_int n) DataType.int_type = true
literal_matches_type (Literal.lit_text s) DataType.text_type = true
literal_matches_type (Literal.lit_char c) DataType.text_type = true
literal_matches_type _ _ = false

unfoldable pub column_count : List Column → ℕ
column_count [] = 0
column_count (c ∷ cs) = suc (column_count cs)

abbrev next_index : Option (ℕ × DataType) → Option (ℕ × DataType)
next_index none = none
next_index (some (i, type)) = some (suc i, type)

-- The index of the first column with the name, and its type.
unfoldable pub column_index_by_name : List Column → List ℕ → Option (ℕ × DataType)
column_index_by_name [] name = none
column_index_by_name (c ∷ cs) name =
    let rest = next_index (column_index_by_name cs name) in
    if str_case_eq c.name name then some (0, c.type) else rest

unfoldable pub has_primary_key : List Constraint → Bool
has_primary_key [] = false
has_primary_key (Constraint.primary_key ∷ ks) = true
has_primary_key (_ ∷ ks) = has_primary_key ks

unfoldable pub column_is_primary_key : List Column → ℕ → Bool
unfolding has_primary_key
column_is_primary_key [] i = false
column_is_primary_key (c ∷ cs) zero = has_primary_key c.constraints
column_is_primary_key (c ∷ cs) (suc i) = column_is_primary_key cs i

unfoldable pub column_name_at : List Column → ℕ → Option (List ℕ)
column_name_at [] i = none
column_name_at (c ∷ cs) zero = some c.name
column_name_at (c ∷ cs) (suc i) = column_name_at cs i

-- The loop: the first primary key among the columns that are left, whose first has the index `i`.
unfoldable pub primary_key_from : List Column → ℕ → Option ℕ
unfolding has_primary_key
primary_key_from [] i = none
primary_key_from (c ∷ cs) i =
    let rest = primary_key_from cs (suc i) in if has_primary_key c.constraints then some i else rest

-- The first column where there is no primary key.
unfoldable pub primary_key_index : List Column → ℕ
unfolding primary_key_from
primary_key_index cols = elim (primary_key_from cols 0) [ none ↦ 0 | some i ↦ i ]

-- Key or Column, by the column.
unfoldable pub read_op : List Column → ℕ → ℕ → ℕ → DbmOp
unfolding column_is_primary_key
read_op cols cursor i r =
    if column_is_primary_key cols i
    then op_of Opcode.key cursor r 0
    else op_of Opcode.column cursor i r
