-- ===== src/Codegen/Conjuncts.antt =====
-- src/libchidb/codegen.c: conditions as lists of comparisons of a column with a literal, and how an index serves them.
use chidb.Prelude.{
  ℕ, ◌+◌, Bool, true, false, ◌&&◌, Option, none, some, List, [], ◌∷◌, ◌==◌, if◌then◌else◌,
}
use chidb.Dbm.{Opcode, DbmOp}
use chidb.Sql.{
  DataType, Literal, ColumnReference, Term, Expression, CompType, Condition, Column, TableReference,
}
use chidb.Optimizer.{is_named, flatten_conjuncts}
use chidb.Codegen.{literal_op, literal_matches_type, column_index_by_name, read_op, op_of}

-- A column of one of two tables, 0 or 1.
pub record RCol : Type 0 where
  pub side : ℕ
  pub idx : ℕ

-- `op` jumps when the comparison is false.
pub record ResolvedCmp : Type 0 where
  pub col : RCol
  pub op : Opcode
  pub lit : Literal

abbrev pub ColResolver : Type 0
ColResolver = ColumnReference → Option (RCol × DataType)

pub data IndexSeekKind : Type 0 where
  index_eq index_gt index_ge index_lt index_le : IndexSeekKind

unfoldable pub index_seek_kind : Opcode → Option IndexSeekKind
index_seek_kind Opcode.ne = some IndexSeekKind.index_eq
index_seek_kind Opcode.le = some IndexSeekKind.index_gt
index_seek_kind Opcode.lt = some IndexSeekKind.index_ge
index_seek_kind Opcode.ge = some IndexSeekKind.index_lt
index_seek_kind Opcode.gt = some IndexSeekKind.index_le
index_seek_kind _ = none

unfoldable pub index_seek_opcode : IndexSeekKind → Opcode
index_seek_opcode IndexSeekKind.index_eq = Opcode.seek
index_seek_opcode IndexSeekKind.index_gt = Opcode.seek_gt
index_seek_opcode IndexSeekKind.index_ge = Opcode.seek_ge
index_seek_opcode IndexSeekKind.index_lt = Opcode.seek_lt
index_seek_opcode IndexSeekKind.index_le = Opcode.seek_le

unfoldable pub index_seek_walks_forward : IndexSeekKind → Bool
index_seek_walks_forward IndexSeekKind.index_gt = true
index_seek_walks_forward IndexSeekKind.index_ge = true
index_seek_walks_forward _ = false

abbrev pub is_upper : IndexSeekKind → Bool
is_upper IndexSeekKind.index_lt = true
is_upper IndexSeekKind.index_le = true
is_upper _ = false

-- The lower and the upper bound, in place of their indices.
unfoldable pub bounds_of :
    IndexSeekKind → IndexSeekKind → ResolvedCmp → ResolvedCmp → Option (ResolvedCmp × ResolvedCmp)
unfolding index_seek_walks_forward
bounds_of k0 k1 c0 c1 =
    if index_seek_walks_forward k0 && is_upper k1
    then some (c0, c1)
    else if index_seek_walks_forward k1 && is_upper k0
    then some (c1, c0)
    else none

unfoldable pub detect_range_pair : List ResolvedCmp → Option (ResolvedCmp × ResolvedCmp)
unfolding bounds_of index_seek_kind
detect_range_pair (c0 ∷ c1 ∷ []) = elim (index_seek_kind c0.op) [
  | none ↦ none
  | some k0 ↦ elim (index_seek_kind c1.op) [
    | none ↦ none
    | some k1 ↦
        if (c0.col.side == c1.col.side) && (c0.col.idx == c1.col.idx)
        then bounds_of k0 k1 c0 c1
        else none
  ]
]
detect_range_pair _ = none

-- The column, the other operand, and whether they are the other way round.
unfoldable pub operands : Expression → Expression → Option (ColumnReference × Expression × Bool)
operands (Expression.term (Term.column_ref ref)) e2 = some (ref, e2, false)
operands e1 (Expression.term (Term.column_ref ref)) = some (ref, e1, true)
operands _ _ = none

unfoldable pub flip_comp : CompType → CompType
flip_comp CompType.cond_lt = CompType.cond_gt
flip_comp CompType.cond_gt = CompType.cond_lt
flip_comp CompType.cond_leq = CompType.cond_geq
flip_comp CompType.cond_geq = CompType.cond_leq
flip_comp CompType.cond_eq = CompType.cond_eq

unfoldable pub negated_op : CompType → Opcode
negated_op CompType.cond_eq = Opcode.ne
negated_op CompType.cond_gt = Opcode.le
negated_op CompType.cond_geq = Opcode.lt
negated_op CompType.cond_lt = Opcode.ge
negated_op CompType.cond_leq = Opcode.gt

unfoldable pub resolved_with :
    ColResolver → CompType → ColumnReference → Expression → Bool → Option ResolvedCmp
unfolding flip_comp negated_op
resolved_with resolve c ref (Expression.term (Term.literal lit)) flipped = elim (resolve ref) [
  | none ↦ none
  | some (col, type) ↦
      if literal_matches_type lit type
      then some
          (record { col = col; op = negated_op (if flipped then flip_comp c else c); lit = lit })
      else none
]
resolved_with resolve c ref _ flipped = none

unfoldable pub resolve_comparison : ColResolver → Condition → Option ResolvedCmp
unfolding operands resolved_with
resolve_comparison resolve (Condition.cond_comp c e1 e2) = elim (operands e1 e2) [
  | none ↦ none
  | some (ref, e, flipped) ↦ resolved_with resolve c ref e flipped
]
resolve_comparison resolve _ = none

unfoldable pub resolve_list : ColResolver → List Condition → Option (List ResolvedCmp)
unfolding resolve_comparison
resolve_list resolve [] = some []
resolve_list resolve (c ∷ cs) =
    let rest = resolve_list resolve cs in
    elim (resolve_comparison resolve c) [
      | none ↦ none
      | some cmp ↦ elim rest [ none ↦ none | some cmps ↦ some (cmp ∷ cmps) ]
    ]

-- `flatten_conjuncts` of codegen.c is the one of optimizer.c.
unfoldable pub resolve_conjuncts : ColResolver → Option Condition → Option (List ResolvedCmp)
unfolding resolve_list
resolve_conjuncts resolve none = some []
resolve_conjuncts resolve (some cond) = resolve_list resolve (flatten_conjuncts cond)

abbrev pub on_side : ℕ → Option (ℕ × DataType) → Option (RCol × DataType)
on_side side none = none
on_side side (some (i, type)) = some (record { side = side; idx = i }, type)

unfoldable pub resolve_single_column : List Column → ColResolver
resolve_single_column cols ref = on_side 0 (column_index_by_name cols ref.column_name)

unfoldable pub resolve_join_column :
    List Column → List Column → TableReference → TableReference → ColResolver
resolve_join_column cols1 cols2 t1 t2 ref = elim ref.table_name [
  | some q ↦
      if is_named q t1
      then on_side 0 (column_index_by_name cols1 ref.column_name)
      else if is_named q t2
      then on_side 1 (column_index_by_name cols2 ref.column_name)
      else none
  | none ↦ elim (column_index_by_name cols1 ref.column_name) [
    | some (i, type) ↦ some (record { side = 0; idx = i }, type)
    | none ↦ on_side 1 (column_index_by_name cols2 ref.column_name)
  ]
]

-- The literals, each into its own register.
unfoldable pub filter_literals : List ResolvedCmp → ℕ → List DbmOp
filter_literals [] r = []
filter_literals (cmp ∷ cmps) r = literal_op cmp.lit r ∷ filter_literals cmps (r + 1)

-- `emit_rcol`: the column of the cursor 0 or 1.
unfoldable pub rcol_op : RCol → List Column → List Column → ℕ → DbmOp
unfolding read_op
rcol_op rc cols1 cols2 r =
    if rc.side == 0 then read_op cols1 0 rc.idx r else read_op cols2 1 rc.idx r

-- A column is read into a register and compared, for every comparison. The jumps go to one address.
unfoldable pub filter_checks : List ResolvedCmp → List Column → List Column → ℕ → ℕ → ℕ → List DbmOp
unfolding rcol_op
filter_checks [] cols1 cols2 r_lit r_tmp target = []
filter_checks (cmp ∷ cmps) cols1 cols2 r_lit r_tmp target =
    rcol_op cmp.col cols1 cols2 r_tmp
    ∷ op_of cmp.op r_lit target r_tmp
    ∷ filter_checks cmps cols1 cols2 (r_lit + 1) r_tmp target

-- The addresses of the jumps of the checks that start at `pc`.
unfoldable pub check_addresses : List ResolvedCmp → ℕ → List ℕ
check_addresses [] pc = []
check_addresses (cmp ∷ cmps) pc = (pc + 1) ∷ check_addresses cmps (pc + 1 + 1)
