-- ===== src/Codegen/Join/Program.antt =====
-- src/libchidb/codegen.c: `codegen_select_join`.
use chidb.Prelude.{ℕ, ◌+◌, Option, none, some, List, [], ◌∷◌, ◌++◌, length}
use chidb.Run.{Code, Run, err, fault}
use chidb.Dbm.{Opcode, Stmt}
use chidb.Schema.{SchemaItem, find_table}
use chidb.Sql.{ListedExpression, Condition, Column, TableReference, Sra, Parser}
use chidb.Optimizer.{table_columns}
use chidb.Codegen.{Emitter, emits, patch_all, op_of, unpatched}
use chidb.Codegen.Create.{start}
use chidb.Codegen.Conjuncts.{
  RCol, ResolvedCmp, ColResolver, resolve_conjuncts, resolve_join_column, filter_literals,
  filter_checks, check_addresses,
}
use chidb.Codegen.Select.{is_star, with_output}
use chidb.Codegen.Join.{
  SideAccess, JoinSide, JoinRegs, plan_side_access, left_to_check, join_pairs, joined_output,
  rcol_names, join_regs,
}
use chidb.Codegen.Join.Parts.{
  open_side, seek_literals, place_once, placed_addresses, begin_loop, entry_ops, entry_address,
  entry_bound_address, end_loop, loop_address, pair_checks, pair_addresses, output_rcol_ops,
  close_index,
}

-- The cursors are 0 and 1 for the tables and 2 and 3 for their indexes.
unfoldable pub emit_join :
    Stmt → JoinSide → JoinSide → List ResolvedCmp → List (ℕ × ℕ) → List RCol → Stmt
emit_join s a b top pairs out =
    let rs : JoinRegs = join_regs a b top in
    let opened : Emitter = emits (start s) (
      open_side a 2 0 rs.r_idxroot1 rs.r_root1
      ++ open_side b 3 1 rs.r_idxroot2 rs.r_root2
      ++ seek_literals a.access rs.r_lit1 rs.r_lit1b
      ++ seek_literals b.access rs.r_lit2 rs.r_lit2b) in
    let placed1 : Emitter = emits opened (place_once a.access 2 0 rs.r_lit1 rs.r_pkey1) in
    let placed : Emitter = emits placed1 (place_once b.access 3 1 rs.r_lit2 rs.r_pkey2) in
    let loaded : Emitter = emits placed (
      filter_literals a.cmps rs.r_lit_base
      ++ filter_literals b.cmps (rs.r_lit_base + length a.cmps)
      ++ filter_literals top (rs.r_lit_base + length a.cmps + length b.cmps)) in
    let begun1 : Emitter = emits loaded (begin_loop a.access 2 0 rs.r_lit1) in
    let outer : Emitter = emits begun1 (
      filter_checks a.cmps a.cols b.cols rs.r_lit_base rs.r_tmp_a unpatched
      ++ entry_ops a 2 0 rs.r_pkey1 rs.r_lit1b rs.r_tmp_a) in
    let begun2 : Emitter = emits outer (begin_loop b.access 3 1 rs.r_lit2) in
    let inner : Emitter = emits begun2 (entry_ops b 3 1 rs.r_pkey2 rs.r_lit2b rs.r_tmp_a) in
    let paired : Emitter = emits inner (pair_checks pairs a.cols b.cols rs.r_tmp_a rs.r_tmp_b) in
    let checked : Emitter =
      emits paired
        (filter_checks b.cmps a.cols b.cols (rs.r_lit_base + length a.cmps) rs.r_tmp_a unpatched) in
    let topped : Emitter = emits checked (
      filter_checks top a.cols b.cols (rs.r_lit_base + length a.cmps + length b.cmps) rs.r_tmp_a
        unpatched) in
    let shown : Emitter = emits topped (
      output_rcol_ops out a.cols b.cols rs.r_out0
      ++ op_of Opcode.result_row rs.r_out0 (length out) 0 ∷ []) in
    let inner_end : Emitter = emits shown (end_loop b.access 3 1 begun2.pc) in
    let inner_patched : Emitter =
      patch_all
        (patch_all
          (patch_all inner_end
            (pair_addresses pairs inner.pc
              ++ check_addresses b.cmps paired.pc
              ++ check_addresses top checked.pc)
            shown.pc)
          (loop_address b.access outer.pc) inner_end.pc)
        (entry_bound_address b.access begun2.pc) inner_end.pc in
    let outer_end : Emitter = emits inner_patched (end_loop a.access 2 0 begun1.pc) in
    let outer_patched : Emitter =
      patch_all (patch_all outer_end (check_addresses a.cmps begun1.pc) inner_end.pc)
        (loop_address a.access loaded.pc) outer_end.pc in
    let patched : Emitter =
      patch_all outer_patched
        (placed_addresses a.access opened.pc
          ++ placed_addresses b.access placed1.pc
          ++ entry_address a.access begun1.pc
          ++ entry_bound_address a.access begun1.pc
          ++ entry_address b.access begun2.pc)
        outer_end.pc in
    (emits patched (
      op_of Opcode.close 1 0 0 ∷ close_index b.access 3
      ++ op_of Opcode.close 0 0 0 ∷ close_index a.access 2
      ++ op_of Opcode.halt 0 0 0 ∷ [])).stmt

-- A table, with the condition of a selection of it.
abbrev pub table_side : Sra → Option (TableReference × Option Condition)
table_side (Sra.table t) = some (t, none)
table_side (Sra.select (Sra.table t) c) = some (t, some c)
table_side _ = none

abbrev side_of :
    Parser → List SchemaItem → SchemaItem → List ℕ → List Column → List ResolvedCmp → JoinSide
side_of parse schema tbl table cols cmps =
    let access : SideAccess = plan_side_access parse schema table cols cmps in
    record { tbl = tbl; cols = cols; access = access; cmps = left_to_check access cmps }

abbrev pub all_conjuncts :
    ColResolver
    → Option Condition
    → Option Condition
    → Option Condition
    → Option (List ResolvedCmp × List ResolvedCmp × List ResolvedCmp)
all_conjuncts resolve c1 c2 c = elim (resolve_conjuncts resolve c1) [
  | none ↦ none
  | some cmps1 ↦ elim (resolve_conjuncts resolve c2) [
    | none ↦ none
    | some cmps2 ↦ elim (resolve_conjuncts resolve c) [
      | none ↦ none
      | some top ↦ some (cmps1, cmps2, top)
    ]
  ]
]

module _ (parse : Parser) (schema : List SchemaItem) where
  -- From the columns of both tables on.
  unfoldable pub select_join_columns :
      Stmt
      → TableReference
      → TableReference
      → Option Condition
      → Option Condition
      → SchemaItem
      → SchemaItem
      → List Column
      → List Column
      → List ListedExpression
      → Option Condition
      → Run Stmt (Unit {0})
  unfolding emit_join plan_side_access
  select_join_columns s t1 t2 c1 c2 tbl1 tbl2 cols1 cols2 es cond =
      let resolve : ColResolver = resolve_join_column cols1 cols2 t1 t2 in
      elim (is_star es) [
        | none ↦ fault
        | some star ↦ elim (joined_output star resolve cols1 cols2 es) [
          | none ↦ err Code.einvalidsql s
          | some out ↦ elim (all_conjuncts resolve c1 c2 cond) [
            | none ↦ err Code.einvalidsql s
            | some (cmps1, cmps2, top) ↦
                with_output
                  (emit_join s (side_of parse schema tbl1 t1.table_name cols1 cmps1)
                    (side_of parse schema tbl2 t2.table_name cols2 cmps2) top
                    (join_pairs 0 cols1 cols2) out)
                  (length out) (rcol_names cols1 cols2 out)
          ]
        ]
      ]

  abbrev select_join_tables :
      Stmt
      → TableReference
      → TableReference
      → Option Condition
      → Option Condition
      → List ListedExpression
      → Option Condition
      → Run Stmt (Unit {0})
  select_join_tables s t1 t2 c1 c2 es cond = elim (find_table schema t1.table_name) [
    | none ↦ err Code.einvalidsql s
    | some tbl1 ↦ elim (find_table schema t2.table_name) [
      | none ↦ err Code.einvalidsql s
      | some tbl2 ↦ elim (table_columns parse tbl1) [
        | none ↦ fault
        | some cols1 ↦ elim (table_columns parse tbl2) [
          | none ↦ fault
          | some cols2 ↦ select_join_columns s t1 t2 c1 c2 tbl1 tbl2 cols1 cols2 es cond
        ]
      ]
    ]
  ]

  unfoldable pub codegen_select_join :
      Stmt → Sra → Sra → List ListedExpression → Option Condition → Run Stmt (Unit {0})
  unfolding select_join_columns
  codegen_select_join s sra1 sra2 es cond = elim (table_side sra1) [
    | none ↦ err Code.einvalidsql s
    | some (t1, c1) ↦ elim (table_side sra2) [
      | none ↦ err Code.einvalidsql s
      | some (t2, c2) ↦ select_join_tables s t1 t2 c1 c2 es cond
    ]
  ]
