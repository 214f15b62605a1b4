-- ===== src/Codegen/Join.antt =====
-- src/libchidb/codegen.c: the program of a SELECT on the natural join of two tables: how it finds the rows, what it shows, and its registers.
pub mod Parts
pub mod Program
use chidb.Prelude.{
  ℕ, zero, suc, ◌+◌, ◌*◌, Bool, true, false, ◌&&◌, ◌||◌, not, Option, none, some, List, [], ◌∷◌,
  ◌++◌, length, ◌==◌, codes, if◌then◌else◌,
}
use chidb.Run.{Code, Run, ok, err, fault}
use chidb.Dbm.{Opcode, DbmOp, Stmt}
use chidb.Schema.{SchemaItem, find_table}
use chidb.Sql.{Term, Expression, ListedExpression, Condition, Column, TableReference, Sra, Parser}
use chidb.Optimizer.{table_columns}
use chidb.Codegen.{
  Emitter, emit, emits, patch, patch_all, op_of, unpatched, literal_op, column_count,
  column_index_by_name, column_name_at, read_op,
}
use chidb.Codegen.Create.{start}
use chidb.Codegen.Conjuncts.{
  RCol, ResolvedCmp, ColResolver, IndexSeekKind, index_seek_opcode, index_seek_walks_forward,
  resolve_conjuncts, resolve_join_column, filter_literals, filter_checks, check_addresses, rcol_op,
}
use chidb.Codegen.Select.{
  SeekPlan, seek_plan, advance_op, is_eq, bound_ops, bound_literal, bound_address, is_star,
  plan_index, with_output,
}

-- How the rows of one side are found: `scan`, `eq_seek` with an index, and `range_seek` with an index, perhaps an upper
-- bound, the seek and the direction.
pub data SideAccess : Type 0 where
  scan : SideAccess
  eq_seek : SchemaItem → ResolvedCmp → SideAccess
  range_seek : SchemaItem → ResolvedCmp → Option ResolvedCmp → Opcode → Bool → SideAccess

abbrev pub access_with : SchemaItem → SeekPlan → SideAccess
access_with idx plan =
    if is_eq plan.kind
    then SideAccess.eq_seek idx plan.primary
    else SideAccess.range_seek idx plan.primary plan.bound2 (index_seek_opcode plan.kind)
        (index_seek_walks_forward plan.kind)

unfoldable pub plan_side_access :
    Parser → List SchemaItem → List ℕ → List Column → List ResolvedCmp → SideAccess
unfolding seek_plan
plan_side_access parse schema table cols cmps = elim (seek_plan cmps) [
  | none ↦ SideAccess.scan
  | some plan ↦ elim (plan_index parse schema table cols plan) [
    | none ↦ SideAccess.scan
    | some idx ↦ access_with idx plan
  ]
]

-- 1 for an index, or for an upper bound, and 0 for none.
abbrev pub uses_index : SideAccess → ℕ
uses_index SideAccess.scan = 0
uses_index _ = 1

abbrev pub bound_of : SideAccess → Option ResolvedCmp
bound_of (SideAccess.range_seek idx cmp bound2 o forward) = bound2
bound_of _ = none

abbrev pub count_of : Option ResolvedCmp → ℕ
count_of none = 0
count_of (some cmp) = 1

-- The conjuncts that are left to check, which a seek consumes.
abbrev pub left_to_check : SideAccess → List ResolvedCmp → List ResolvedCmp
left_to_check SideAccess.scan cmps = cmps
left_to_check _ cmps = []

-- The columns that the tables share, by their indices in both.
unfoldable pub join_pairs : ℕ → List Column → List Column → List (ℕ × ℕ)
join_pairs i [] cols2 = []
join_pairs i (c ∷ cs) cols2 =
    let rest = join_pairs (suc i) cs cols2 in
    elim (column_index_by_name cols2 c.name) [ none ↦ rest | some (j, type) ↦ (i, j) ∷ rest ]

unfoldable pub is_join_column : List (ℕ × ℕ) → ℕ → Bool
is_join_column [] i = false
is_join_column (p ∷ ps) i = (p.1 == i) || is_join_column ps i

unfoldable pub left_columns : ℕ → List Column → List RCol
left_columns i [] = []
left_columns i (c ∷ cs) = record { side = 0; idx = i } ∷ left_columns (suc i) cs

-- The columns of the right table that are no join columns.
unfoldable pub right_columns : List (ℕ × ℕ) → ℕ → List Column → List RCol
unfolding is_join_column
right_columns pairs i [] = []
right_columns pairs i (c ∷ cs) =
    let rest = right_columns pairs (suc i) cs in
    if is_join_column pairs i then rest else record { side = 1; idx = i } ∷ rest

abbrev pub output_rcol : ColResolver → Expression → Option RCol
output_rcol resolve (Expression.term (Term.column_ref ref)) = elim (resolve ref) [
  | none ↦ none
  | some (rc, type) ↦ some rc
]
output_rcol resolve _ = none

unfoldable pub output_rcols : ColResolver → List ListedExpression → Option (List RCol)
output_rcols resolve [] = some []
output_rcols resolve (e ∷ es) =
    let rest = output_rcols resolve es in
    elim (output_rcol resolve e.expr) [
      | none ↦ none
      | some rc ↦ elim rest [ none ↦ none | some rcs ↦ some (rc ∷ rcs) ]
    ]

unfoldable pub joined_output :
    Bool → ColResolver → List Column → List Column → List ListedExpression → Option (List RCol)
unfolding join_pairs left_columns right_columns output_rcols
joined_output true resolve cols1 cols2 es =
    some (left_columns 0 cols1 ++ right_columns (join_pairs 0 cols1 cols2) 0 cols2)
joined_output false resolve cols1 cols2 es = output_rcols resolve es

unfoldable pub rcol_names : List Column → List Column → List RCol → Option (List (List ℕ))
rcol_names cols1 cols2 [] = some []
rcol_names cols1 cols2 (rc ∷ rcs) =
    let rest = rcol_names cols1 cols2 rcs in
    elim (column_name_at (if rc.side == 0 then cols1 else cols2) rc.idx) [
      | none ↦ none
      | some name ↦ elim rest [ none ↦ none | some names ↦ some (name ∷ names) ]
    ]

-- One side of a join: its table and columns, its access, and the conjuncts left to check.
pub record JoinSide : Type 0 where
  pub tbl : SchemaItem
  pub cols : List Column
  pub access : SideAccess
  pub cmps : List ResolvedCmp

-- The registers, in the order of their declarations.
pub record JoinRegs : Type 0 where
  pub r_idxroot1 : ℕ
  pub r_root1 : ℕ
  pub r_idxroot2 : ℕ
  pub r_root2 : ℕ
  pub r_lit1 : ℕ
  pub r_pkey1 : ℕ
  pub r_lit1b : ℕ
  pub r_lit2 : ℕ
  pub r_pkey2 : ℕ
  pub r_lit2b : ℕ
  pub r_lit_base : ℕ
  pub r_tmp_a : ℕ
  pub r_tmp_b : ℕ
  pub r_out0 : ℕ

-- A register that an access does not use has the number of the next that is used; no instruction names it.
unfoldable pub join_regs : JoinSide → JoinSide → List ResolvedCmp → JoinRegs
join_regs a b top =
    let u1 : ℕ = uses_index a.access in
    let u2 : ℕ = uses_index b.access in
    let b1 : ℕ = count_of (bound_of a.access) in
    let b2 : ℕ = count_of (bound_of b.access) in
    let lit1 : ℕ = u1 + 1 + u2 + 1 in
    let lit2 : ℕ = lit1 + 2 * u1 + b1 in
    let base : ℕ = lit2 + 2 * u2 + b2 in
    let tmp : ℕ = base + (length a.cmps + length b.cmps + length top) in
    record {
      r_idxroot1 = 0;
      r_root1 = u1;
      r_idxroot2 = u1 + 1;
      r_root2 = u1 + 1 + u2;
      r_lit1 = lit1;
      r_pkey1 = lit1 + u1;
      r_lit1b = lit1 + 2 * u1;
      r_lit2 = lit2;
      r_pkey2 = lit2 + u2;
      r_lit2b = lit2 + 2 * u2;
      r_lit_base = base;
      r_tmp_a = tmp;
      r_tmp_b = tmp + 1;
      r_out0 = tmp + 2;
    }
