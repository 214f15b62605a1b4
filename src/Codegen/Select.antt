-- ===== src/Codegen/Select.antt =====
-- src/libchidb/codegen.c: the programs of a SELECT on one table, a scan of the table or a walk over an index.
use chidb.Prelude.{
  ℕ, suc, ◌+◌, Bool, true, false, Option, none, some, List, [], ◌∷◌, ◌++◌, length, codes,
  if◌then◌else◌,
}
use chidb.Run.{Code, Run, ok, err, fault}
use chidb.Dbm.{Opcode, DbmOp, Stmt}
use chidb.Schema.{SchemaItem, find_table, find_index_on, str_eq}
use chidb.Sql.{Term, Expression, ListedExpression, Condition, Column, TableReference, Parser}
use chidb.Optimizer.{table_columns}
use chidb.Codegen.{
  Emitter, emit, emits, patch, patch_all, op_of, unpatched, literal_op, column_count,
  column_index_by_name, column_name_at, read_op,
}
use chidb.Codegen.Create.{start}
use chidb.Codegen.Insert.{index_column}
use chidb.Codegen.Conjuncts.{
  ResolvedCmp, IndexSeekKind, index_seek_kind, index_seek_opcode, index_seek_walks_forward,
  detect_range_pair, resolve_conjuncts, resolve_single_column, filter_literals, filter_checks,
  check_addresses,
}

-- `emit_output_columns`
unfoldable pub output_columns : ℕ → List Column → List ℕ → ℕ → List DbmOp
output_columns cursor cols [] r = []
output_columns cursor cols (i ∷ is) r =
    read_op cols cursor i r ∷ output_columns cursor cols is (r + 1)

abbrev pub output_ops : ℕ → List Column → List ℕ → ℕ → List DbmOp
output_ops cursor cols out r =
    output_columns cursor cols out r ++ op_of Opcode.result_row r (length out) 0 ∷ []

-- `strdup` of the name of a column that is not there is undefined, `none`.
unfoldable pub column_names : List Column → List ℕ → Option (List (List ℕ))
column_names cols [] = some []
column_names cols (i ∷ is) =
    let rest = column_names cols is in
    elim (column_name_at cols i) [
      | none ↦ none
      | some name ↦ elim rest [ none ↦ none | some names ↦ some (name ∷ names) ]
    ]

abbrev pub with_output : Stmt → ℕ → Option (List (List ℕ)) → Run Stmt (Unit {0})
with_output s nout none = fault
with_output s nout (some names) = ok tt (record s { n_cols = nout; n_rr = nout; cols = names })

unfoldable pub set_output_columns : Stmt → List Column → List ℕ → Run Stmt (Unit {0})
unfolding column_names
set_output_columns s cols out = with_output s (length out) (column_names cols out)

-- How an index serves a condition: the comparison that it seeks, its kind, and the upper bound of a range.
pub record SeekPlan : Type 0 where
  pub primary : ResolvedCmp
  pub bound2 : Option ResolvedCmp
  pub kind : IndexSeekKind

abbrev plan_with : ResolvedCmp → Option ResolvedCmp → Option IndexSeekKind → Option SeekPlan
plan_with cmp bound2 none = none
plan_with cmp bound2 (some kind) = some (record { primary = cmp; bound2 = bound2; kind = kind })

-- One comparison, or the two bounds of a range.
unfoldable pub seek_plan : List ResolvedCmp → Option SeekPlan
unfolding detect_range_pair
seek_plan (cmp ∷ []) = plan_with cmp none (index_seek_kind cmp.op)
seek_plan cmps = elim (detect_range_pair cmps) [
  | none ↦ none
  | some (lo, hi) ↦ plan_with lo (some hi) (index_seek_kind lo.op)
]

abbrev pub advance_op : Bool → Opcode
advance_op true = Opcode.next
advance_op false = Opcode.prev

abbrev pub is_eq : IndexSeekKind → Bool
is_eq IndexSeekKind.index_eq = true
is_eq _ = false

-- The check of the upper bound: its jump is the second instruction.
abbrev pub bound_ops : ℕ → List Column → Option ResolvedCmp → ℕ → ℕ → List DbmOp
bound_ops cursor cols none r_lit r_tmp = []
bound_ops cursor cols (some cmp) r_lit r_tmp =
    read_op cols cursor cmp.col.idx r_tmp ∷ op_of cmp.op r_lit unpatched r_tmp ∷ []

abbrev pub bound_literal : Option ResolvedCmp → ℕ → List DbmOp
bound_literal none r = []
bound_literal (some cmp) r = literal_op cmp.lit r ∷ []

-- The address of that jump, if there is one, where the check starts at `pc`.
abbrev pub bound_address : Option ResolvedCmp → ℕ → List ℕ
bound_address none pc = []
bound_address (some cmp) pc = (pc + 1) ∷ []

abbrev pub first_output : Option ResolvedCmp → ℕ
first_output none = 4
first_output (some cmp) = 6

unfoldable pub codegen_select_indexed :
    Stmt → SchemaItem → SchemaItem → List Column → List ℕ → SeekPlan → Run Stmt (Unit {0})
unfolding set_output_columns output_columns
codegen_select_indexed s tbl idx cols out plan =
    let opened : Emitter = emits (start s) (
      op_of Opcode.integer idx.root_page 0 0
        ∷ op_of Opcode.open_read 0 0 0
        ∷ op_of Opcode.integer tbl.root_page 1 0
        ∷ op_of Opcode.open_read 1 1 (column_count cols)
        ∷ literal_op plan.primary.lit 2
        ∷ []
      ++ bound_literal plan.bound2 4) in
    let sought : Emitter = emit opened (op_of (index_seek_opcode plan.kind) 0 unpatched 2) in
    let keyed : Emitter = emit sought (op_of Opcode.idx_pkey 0 3 0) in
    let placed : Emitter = emit keyed (op_of Opcode.seek 1 unpatched 3) in
    let bounded : Emitter = emits placed (bound_ops 1 cols plan.bound2 4 5) in
    let shown : Emitter = emits bounded (output_ops 1 cols out (first_output plan.bound2)) in
    let advanced : Emitter =
      if is_eq plan.kind
      then shown
      else emit shown (op_of (advance_op (index_seek_walks_forward plan.kind)) 0 sought.pc 0) in
    let patched : Emitter = patch advanced keyed.pc shown.pc in
    let stopped : Emitter = patch_all patched (bound_address plan.bound2 placed.pc) advanced.pc in
    let closed : Emitter =
      emits stopped
        (op_of Opcode.close 1 0 0 ∷ op_of Opcode.close 0 0 0 ∷ op_of Opcode.halt 0 0 0 ∷ []) in
    set_output_columns (patch closed opened.pc advanced.pc).stmt cols out

abbrev pub r_tmp_of : List ResolvedCmp → ℕ
r_tmp_of cmps = 1 + length cmps

abbrev pub r_out_of : List ResolvedCmp → ℕ
r_out_of [] = 1
r_out_of (cmp ∷ cmps) = r_tmp_of (cmp ∷ cmps) + 1

unfoldable pub codegen_select_scan :
    Stmt → SchemaItem → List Column → List ℕ → List ResolvedCmp → Run Stmt (Unit {0})
unfolding set_output_columns output_columns filter_checks filter_literals check_addresses
codegen_select_scan s tbl cols out cmps =
    let opened : Emitter = emits (start s) (
      op_of Opcode.integer tbl.root_page 0 0
      ∷ op_of Opcode.open_read 0 0 (column_count cols)
      ∷ filter_literals cmps 1) in
    let rewound : Emitter = emit opened (op_of Opcode.rewind 0 unpatched 0) in
    let checked : Emitter =
      emits rewound (filter_checks cmps cols [] 1 (r_tmp_of cmps) unpatched) in
    let shown : Emitter = emits checked (output_ops 0 cols out (r_out_of cmps)) in
    let advanced : Emitter = emit shown (op_of Opcode.next 0 rewound.pc 0) in
    let patched : Emitter =
      patch (patch_all advanced (check_addresses cmps rewound.pc) shown.pc) opened.pc advanced.pc in
    let closed : Emitter =
      emits patched (op_of Opcode.close 0 0 0 ∷ op_of Opcode.halt 0 0 0 ∷ []) in
    set_output_columns closed.stmt cols out

-- A list of one expression, a column with the name `*`. An empty list is undefined, `none`.
abbrev pub is_star_term : Expression → Bool
is_star_term (Expression.term (Term.column_ref ref)) = str_eq ref.column_name (codes "*")
is_star_term _ = false

unfoldable pub is_star : List ListedExpression → Option Bool
is_star [] = none
is_star (e ∷ []) = some (is_star_term e.expr)
is_star _ = some false

unfoldable pub indices : ℕ → List Column → List ℕ
indices i [] = []
indices i (c ∷ cs) = i ∷ indices (suc i) cs

-- A plain column, and nothing else; its qualifier is not looked at.
unfoldable pub output_index : List Column → Expression → Option ℕ
output_index cols (Expression.term (Term.column_ref ref)) =
    elim (column_index_by_name cols ref.column_name) [ none ↦ none | some (i, type) ↦ some i ]
output_index cols _ = none

unfoldable pub output_indices : List Column → List ListedExpression → Option (List ℕ)
unfolding output_index
output_indices cols [] = some []
output_indices cols (e ∷ es) =
    let rest = output_indices cols es in
    elim (output_index cols e.expr) [
      | none ↦ none
      | some i ↦ elim rest [ none ↦ none | some is ↦ some (i ∷ is) ]
    ]

module _ (parse : Parser) (schema : List SchemaItem) where
  -- The index for a plan, if there is one on its column. The name of a column that is not there is undefined.
  abbrev pub plan_index : List ℕ → List Column → SeekPlan → Option SchemaItem
  plan_index table cols plan = elim (column_name_at cols plan.primary.col.idx) [
    | none ↦ none
    | some name ↦ find_index_on (index_column parse) schema table name
  ]

  unfoldable pub emit_select :
      Stmt → SchemaItem → List ℕ → List Column → List ℕ → List ResolvedCmp → Run Stmt (Unit {0})
  unfolding seek_plan codegen_select_indexed codegen_select_scan
  emit_select s tbl table cols out cmps = elim (seek_plan cmps) [
    | none ↦ codegen_select_scan s tbl cols out cmps
    | some plan ↦ elim (plan_index table cols plan) [
      | none ↦ codegen_select_scan s tbl cols out cmps
      | some idx ↦ codegen_select_indexed s tbl idx cols out plan
    ]
  ]

  abbrev pub selected_columns : Bool → List Column → List ListedExpression → Option (List ℕ)
  selected_columns true cols es = some (indices 0 cols)
  selected_columns false cols es = output_indices cols es

  -- `codegen_select` on a table.
  unfoldable pub codegen_select_table :
      Stmt → TableReference → List ListedExpression → Option Condition → Run Stmt (Unit {0})
  unfolding emit_select is_star indices output_indices
  codegen_select_table s t es cond = elim (find_table schema t.table_name) [
    | none ↦ err Code.einvalidsql s
    | some tbl ↦ elim (table_columns parse tbl) [
      | none ↦ fault
      | some cols ↦ elim (is_star es) [
        | none ↦ fault
        | some star ↦ elim (selected_columns star cols es) [
          | none ↦ err Code.einvalidsql s
          | some out ↦ elim (resolve_conjuncts (resolve_single_column cols) cond) [
            | none ↦ err Code.einvalidsql s
            | some cmps ↦ emit_select s tbl t.table_name cols out cmps
          ]
        ]
      ]
    ]
  ]
