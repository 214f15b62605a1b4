-- ===== src/Dbm.antt =====
-- src/libchidb/dbm.c, dbm-types.h: the database machine, its program, registers and cursors. A signed parameter of
-- an instruction is given by its 32 bits; it indexes an array only below 2^31.
pub mod Exec
pub mod Ops
mod Tests
pub mod Values
use chidb.Prelude.{
  ℕ, zero, suc, ◌+◌, ◌%◌, ◌^◌, Bool, true, false, ◌&&◌, ◌||◌, not, Option, none, some, List, [],
  ◌∷◌, ltb, leb, ◌==◌, if◌then◌else◌,
}
use chidb.Bytes.{Bytes}
use chidb.Run.{Run, ok, err, fault, out_of_fuel, and_then, Cmd, pure, ◌>>=◌, undefined}
use chidb.Pager.{Pager}
use chidb.Cursor.{Cursor, CursorType}

pub data Opcode : Type 0 where
  noop open_read open_write close rewind next prev seek seek_gt seek_ge seek_lt seek_le column key
        integer string null result_row make_record insert eq ne lt le gt ge idx_gt idx_ge idx_lt
        idx_le idx_pkey idx_insert create_table create_index copy scopy halt :
      Opcode

-- `p4` is a string or NULL.
pub record DbmOp : Type 0 where
  pub opcode : Opcode
  pub p1 : ℕ
  pub p2 : ℕ
  pub p3 : ℕ
  pub p4 : Option (List ℕ)

-- A register with its type. An integer is given by its 32 bits.
pub data Register : Type 0 where
  unspecified null : Register
  int32 : ℕ → Register
  string : List ℕ → Register
  binary : Bytes → ℕ → Register

-- `pager` stands for `db`: the machine uses the B-tree file of its database only. A cursor that was never
-- opened is `none`.
pub record Stmt : Type 0 where
  pub pager : Pager
  pub explain : Bool
  pub schema_change : Bool
  pub pc : ℕ
  pub ops : ℕ → DbmOp
  pub n_ops : ℕ
  pub end_op : ℕ
  pub reg : ℕ → Register
  pub n_reg : ℕ
  pub cursors : ℕ → Option Cursor
  pub n_cursors : ℕ
  pub start_rr : ℕ
  pub n_rr : ℕ
  pub cols : List (List ℕ)
  pub n_cols : ℕ

abbrev pub noop_op : DbmOp
noop_op = record { opcode = Opcode.noop; p1 = 0; p2 = 0; p3 = 0; p4 = none }

-- The array `a`, whose places from `n` to `size` are new and hold `v`.
unfoldable pub fill_from {ℓ} : {A : Type ℓ} → (ℕ → A) → ℕ → ℕ → A → ℕ → A
fill_from a n size v i = if leb n i && ltb i size then v else a i

unfoldable pub realloc_ops : Stmt → ℕ → Stmt
unfolding fill_from
realloc_ops s size = record s { ops = fill_from s.ops s.n_ops size noop_op; n_ops = size }

unfoldable pub realloc_reg : Stmt → ℕ → Stmt
unfolding fill_from
realloc_reg s size = record s {
  reg = fill_from s.reg s.n_reg size Register.unspecified;
  n_reg = size;
}

unfoldable pub realloc_cur : Stmt → ℕ → Stmt
unfolding fill_from
realloc_cur s size = record s {
  cursors = fill_from s.cursors s.n_cursors size none;
  n_cursors = size;
}

-- The arrays are empty before they are allocated.
unfoldable pub stmt_init : Pager → Stmt
unfolding realloc_ops realloc_reg realloc_cur
stmt_init p =
    realloc_cur
      (realloc_reg
        (realloc_ops
          (record {
            pager = p;
            explain = false;
            schema_change = false;
            pc = 0;
            ops = λ i. noop_op;
            n_ops = 0;
            end_op = 0;
            reg = λ i. Register.unspecified;
            n_reg = 0;
            cursors = λ i. none;
            n_cursors = 0;
            start_rr = 0;
            n_rr = 0;
            cols = [];
            n_cols = 0;
          })
          50)
        10)
      10

unfoldable pub set_at {ℓ} : {A : Type ℓ} → (ℕ → A) → ℕ → A → ℕ → A
set_at a i v j = if j == i then v else a j

unfoldable pub set_op : Stmt → DbmOp → ℕ → Stmt
unfolding set_at realloc_ops
set_op s op pos =
    let s' = if leb s.n_ops pos then realloc_ops s (pos + 1) else s in
    record s' {
      ops = set_at s'.ops pos op;
      end_op = if leb s'.end_op pos then pos + 1 else s'.end_op;
    }

-- `stmt->reg[r]` as a value: a register that is not there is undefined.
unfoldable pub get_reg : ℕ → Cmd Stmt Register
get_reg r s = if ltb r s.n_reg && ltb r (2 ^ 31) then ok (s.reg r) s else fault

-- `r->value.i`: the union holds another value unless the register is an integer.
unfoldable pub int_value : Register → Cmd Stmt ℕ
int_value (Register.int32 n) = pure n
int_value Register.unspecified = undefined
int_value Register.null = undefined
int_value (Register.string cs) = undefined
int_value (Register.binary d n) = undefined

unfoldable pub get_int : ℕ → Cmd Stmt ℕ
get_int r = do v ← get_reg r; int_value v

unfoldable pub set_reg : ℕ → Register → Cmd Stmt (Unit {0})
unfolding set_at
set_reg r v s =
    if ltb r s.n_reg && ltb r (2 ^ 31) then ok tt (record s { reg = set_at s.reg r v }) else fault

unfoldable pub ensure_reg : ℕ → Cmd Stmt (Unit {0})
ensure_reg r s = ok tt (if leb s.n_reg r then realloc_reg s (r + 1) else s)

unfoldable pub ensure_cur : ℕ → Cmd Stmt (Unit {0})
ensure_cur c s = ok tt (if leb s.n_cursors c then realloc_cur s (c + 1) else s)

unfoldable pub is_open : CursorType → Bool
is_open CursorType.unspecified = false
is_open CursorType.read = true
is_open CursorType.write = true

unfoldable pub get_slot : ℕ → Cmd Stmt (Option Cursor)
get_slot c s = if ltb c s.n_cursors && ltb c (2 ^ 31) then ok (s.cursors c) s else fault

-- An open cursor: the fields of any other are not set, or their memory was freed.
unfoldable pub open_cursor : Option Cursor → Cmd Stmt Cursor
open_cursor none = undefined
open_cursor (some cur) = if is_open cur.type then pure cur else undefined

-- `&stmt->cursors[c]`
unfoldable pub get_cur : ℕ → Cmd Stmt Cursor
get_cur c = do slot ← get_slot c; open_cursor slot

unfoldable pub set_cur : ℕ → Cursor → Cmd Stmt (Unit {0})
unfolding set_at
set_cur c cur s =
    if ltb c s.n_cursors && ltb c (2 ^ 31)
    then ok tt (record s { cursors = set_at s.cursors c (some cur) })
    else fault

unfoldable pub jump : ℕ → Cmd Stmt (Unit {0})
jump address s = ok tt (record s { pc = address })

unfoldable pub jump_if : Bool → ℕ → Cmd Stmt (Unit {0})
jump_if true address s = jump address s
jump_if false address s = ok tt s

-- A command on the pager, of a machine.
unfoldable pub with_pager : {A : Type 0} → Stmt → Run Pager A → Run Stmt A
with_pager s (ok a p) = ok a (record s { pager = p })
with_pager s (err c p) = err c (record s { pager = p })
with_pager s fault = fault
with_pager s out_of_fuel = out_of_fuel

unfoldable pub on_pager : {A : Type 0} → Cmd Pager A → Cmd Stmt A
unfolding with_pager
on_pager m s = with_pager s (m s.pager)
