-- ===== src/Codegen/Scan/Whole.antt =====
-- src/libchidb/codegen.c: from a SELECT on one table, as it was parsed, to the rows that its program gives.
use chidb.Prelude.{
  ℕ, ◌≤◌, ◌≡◌, refl, sym, ap, ◌∙◌, Bool, true, false, inl, inr, Option, none, some, List, ◌∷◌, All,
  arith, Option-cases,
}
use chidb.Run.{ok}
use chidb.Btree.Tree.{Tree, Holds, depth}
use chidb.Cursor.{CursorRow, CursorType, cursor_open}
use chidb.Cursor.Shown.{shown_rows, in_order}
use chidb.Dbm.{Stmt}
use chidb.Schema.{SchemaItem, find_table, find_index_on}
use chidb.Sql.{
  ListedExpression, Condition, Column, TableReference, Projection, Sra, StatementKind, Statement,
  Parser,
}
use chidb.Optimizer.Meaning.{Value}
use chidb.Codegen.Conjuncts.{ResolvedCmp, resolve_conjuncts, resolve_single_column}
use chidb.Codegen.Scan.Loop.{ResultRows}
use chidb.Codegen.Scan.Query.{selected, IsEmpty, codegen_select_scan-ResultRows}
use chidb.Codegen.Scan.Values.{RowHas}
use chidb.Codegen.Insert.{index_column}
use chidb.Codegen.{column_name_at}
use chidb.Codegen.Scan.Asked.{Asks, asks_all, asks_named, find_table-first}
use chidb.Codegen.Scan.Found.{
  Asks-lt, output_indices-AsksNamed, is_star-AsksNamed, is_star-all, indices-all,
  resolve_conjuncts-IsFilter,
}
use chidb.Codegen.Scan.Start.{Fits, table_cursor}
use chidb.Codegen.Select.{
  SeekPlan, seek_plan, plan_index, is_star, selected_columns, codegen_select_scan, emit_select,
  codegen_select_table,
}
use chidb.Codegen.Statement.{codegen_select, stmt_codegen}
use chidb.Codegen.Scan.Question.{
  IsQuery, no_index_found, column_name_at-get_elem?, table_columns-Creates,
}

-- A query of one table, with a condition or without one.
abbrev pub from_table : TableReference → Option Condition → Sra
from_table t none = Sra.table t
from_table t (some cond) = Sra.select (Sra.table t) cond

abbrev pub select_statement :
    TableReference → Option Condition → Projection → Bool → List ℕ → Statement
select_statement t cond fields explain text = record {
  explain = explain;
  text = text;
  stmt = StatementKind.stmt_select (Sra.project (from_table t cond) fields);
}

module _ (parse : Parser) (schema : List SchemaItem) (ref : TableReference)
    (es : List ListedExpression) (cond : Option Condition) (tbl : SchemaItem) (cols : List Column)
    (out : List ℕ) (n : ℕ) (query : IsQuery parse schema ref es cond tbl cols out n) where
  no_plan_index : (plan : SeekPlan) → plan_index parse schema ref.table_name cols plan ≡ none
  no_plan_index plan = elim (Option-cases (column_name_at cols plan.primary.col.idx)) [
    | inl e ↦ rw (e, plan_index) refl
    | inr (name, e) ↦
        let (c, at, named) = column_name_at-get_elem? cols plan.primary.col.idx name e in
        rw (e, plan_index)
          (ap (find_index_on (index_column parse) schema ref.table_name) (sym named)
            ∙ no_index_found parse schema ref.table_name c.name
                (query.no_index plan.primary.col.idx c at))
  ]

  emit_select-scan :
      (s : Stmt) (cmps : List ResolvedCmp)
      → emit_select parse schema s tbl ref.table_name cols out cmps
        ≡ codegen_select_scan s tbl cols out cmps
  unfolding emit_select
  emit_select-scan s cmps = elim (Option-cases (seek_plan cmps)) [
    | inl e ↦ rw (e, emit_select) refl
    | inr (plan, e) ↦ rw (e, no_plan_index plan, emit_select) refl
  ]

  -- The columns that the statement asks for, by the test for `*` and what it leads to.
  asked :
      (star : Bool) × (is_star es ≡ some star)
      × (selected_columns parse schema star cols es ≡ some out)
  asked = asked_by es out query.asks
    where
      asked_by :
          (es : List ListedExpression) (out : List ℕ)
          → Asks cols es out
          → (star : Bool) × (is_star es ≡ some star)
            × (selected_columns parse schema star cols es ≡ some out)
      asked_by es out (asks_all {e} {ref = r} is_ref star) =
          (true, is_star-all e r is_ref star, ap (λ (is : List ℕ). some is) (indices-all cols))
      asked_by es out (asks_named {e} {es = es'} {out = out'} named) = (
        false,
        is_star-AsksNamed cols e es' out' named,
        output_indices-AsksNamed cols (e ∷ es') out' named,
      )

  codegen_select_table-scan :
      (s : Stmt) (cmps : List ResolvedCmp)
      → resolve_conjuncts (resolve_single_column cols) cond ≡ some cmps
      → codegen_select_table parse schema s ref es cond ≡ codegen_select_scan s tbl cols out cmps
  unfolding codegen_select_table
  codegen_select_table-scan s cmps resolves =
      let (i, at, named, before) = query.table_is in
      let found : find_table schema ref.table_name ≡ some tbl =
        find_table-first schema ref.table_name i tbl at named before in
      let (star, stars, selects) = asked in
      rw
        (
          found,
          table_columns-Creates parse tbl cols query.creates,
          stars,
          selects,
          resolves,
          codegen_select_table,
        )
        (emit_select-scan s cmps)

codegen_select-table :
    (parse : Parser) (schema : List SchemaItem) (s : Stmt) (t : TableReference)
    (cond : Option Condition) (fields : Projection)
    → codegen_select parse schema s (Sra.project (from_table t cond) fields)
      ≡ codegen_select_table parse schema s t fields.expr_list cond
unfolding codegen_select
codegen_select-table parse schema s t none fields = refl
codegen_select-table parse schema s t (some c) fields = refl

-- A parsed SELECT of `*` or of plain columns from one table, without a condition or with one of comparisons of columns
-- with literals of their types joined by AND, is compiled into an empty statement, on a file in which the table is a
-- B-tree of no more than `levels` levels. The table is the first in the schema with the name, and no index is on
-- any of its columns. Every row of the table has a value, not NULL and of the type of its column, in every column, there
-- are at most 256 columns, and the registers have numbers below 2^31. Then the code generator succeeds, and
-- chidb_stmt_exec gives result rows with the columns asked for, each the first with its name or all of them in order,
-- of the rows for which the condition of the statement holds, all of them, each once and in the order of the tree from
-- left to right, and then ends with CHIDB_DONE.
pub stmt_codegen-ResultRows :
    (parse : Parser) (schema : List SchemaItem) (s : Stmt) (ref : TableReference)
    (cond : Option Condition) (fields : Projection) (explain : Bool) (text : List ℕ)
    (tbl : SchemaItem) (cols : List Column) (out : List ℕ) (n : ℕ) (t : Tree) (levels : ℕ)
    (value : CursorRow → ℕ → Value)
    → IsEmpty s
    → IsQuery parse schema ref fields.expr_list cond tbl cols out n
    → Holds s.pager false tbl.root_page t
    → depth t ≤ levels
    → ((rs : List CursorRow)
        → cursor_open levels tbl.root_page CursorType.read s.pager
          ≡ ok (table_cursor tbl.root_page rs) s.pager
        → All (λ row. RowHas (table_cursor tbl.root_page rs) cols row (value row)) rs)
    → (rs : List CursorRow) × (s' : Stmt) × (stmt_codegen parse schema s
          (select_statement ref cond fields explain text)
        ≡ ok tt s')
      × (shown_rows rs ≡ in_order false t)
      × ResultRows levels s' (selected cols out cond value rs)
unfolding stmt_codegen
stmt_codegen-ResultRows parse schema s ref cond fields explain text tbl cols out n t levels value
      empty query holds_t deep values =
    let (cmps, resolves, count) = resolve_conjuncts-IsFilter cols cond n query.filter in
    let fits : Fits cols out cmps = record {
      few = query.few;
      in_range = Asks-lt cols fields.expr_list out query.asks;
      small = omega (arith, count, query.small);
    } in
    let (rs, s', compiled, shows, results) =
      codegen_select_scan-ResultRows s tbl cols out cond cmps t levels value empty resolves fits
        holds_t deep values in
    (
      rs,
      s',
      codegen_select-table parse schema s ref cond fields
          ∙ codegen_select_table-scan parse schema ref fields.expr_list cond tbl cols out n query s
              cmps resolves
          ∙ compiled,
      shows,
      results,
    )
