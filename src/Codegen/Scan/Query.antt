-- ===== src/Codegen/Scan/Query.antt =====
-- src/libchidb/codegen.c, dbm.c: a SELECT that scans a table gives the rows that its condition selects.
use chidb.Prelude.{
  ℕ, zero, suc, ◌≤◌, ◌<◌, ◌≡◌, refl, sym, ap, subst, ◌∙◌, Bool, true, false, Option, none, some,
  List, [], ◌∷◌, All, arith, length, if◌then◌else◌,
}
use chidb.Run.{ok}
use chidb.Btree.Tree.{Tree, Holds, depth}
use chidb.Cursor.{CursorRow, Cursor, CursorType, cursor_open}
use chidb.Cursor.Shown.{shown_rows, in_order}
use chidb.Cursor.Collect.{cursor_open-in_order}
use chidb.Dbm.{Stmt}
use chidb.Schema.{SchemaItem}
use chidb.Sql.{Condition, Column}
use chidb.Optimizer.{flatten_conjuncts}
use chidb.Optimizer.Buckets.{ev-flatten}
use chidb.Optimizer.Meaning.{Value, Env, holds}
use chidb.Optimizer.Pushed.{holds-and}
use chidb.Codegen.{column_name_at}
use chidb.Codegen.Conjuncts.{ResolvedCmp, resolve_list, resolve_conjuncts, resolve_single_column}
use chidb.Codegen.Scan.{codegen_select_scan-HasProgram}
use chidb.Codegen.Scan.Checked.{Resolved, resolve_list-Resolved}
use chidb.Codegen.Scan.Loop.{ResultRows, values_of, query_results}
use chidb.Codegen.Scan.Row.{RowIs, row_env, passes}
use chidb.Codegen.Scan.Values.{RowHas, RowHas-RowIs, query_env, row_env-query_env}
use chidb.Codegen.Scan.Start.{Fits, table_cursor, start-ResultRows}
use chidb.Codegen.Select.{column_names, codegen_select_scan}

-- The condition of a query, if it has one, holds.
abbrev pub where_holds : Option Condition → Env → Bool
where_holds none env = true
where_holds (some c) env = holds c env

-- What the query means: of every row for which the condition holds, the columns that are asked for.
abbrev pub selected :
    List Column
    → List ℕ
    → Option Condition
    → (CursorRow → ℕ → Value)
    → List CursorRow
    → List (List Value)
selected cols out cond value [] = []
selected cols out cond value (row ∷ rows) =
    let rest = selected cols out cond value rows in
    if where_holds cond (query_env cols (value row)) then values_of (value row) out ∷ rest else rest

abbrev conjuncts : Option Condition → List Condition
conjuncts none = []
conjuncts (some c) = flatten_conjuncts c

passes-conjuncts :
    (cols : List Column) (vs : ℕ → Value) (cond : Option Condition)
    → passes cols vs (conjuncts cond) ≡ where_holds cond (query_env cols vs)
passes-conjuncts cols vs none = refl
passes-conjuncts cols vs (some c) =
    sym (ev-flatten (λ c. holds c (row_env cols vs)) (holds-and (row_env cols vs)) c)
    ∙ ap (holds c) (row_env-query_env cols vs)

query_results-selected :
    (cols : List Column) (out : List ℕ) (cond : Option Condition) (value : CursorRow → ℕ → Value)
    (rows : List CursorRow)
    → query_results cols out (conjuncts cond) value rows ≡ selected cols out cond value rows
query_results-selected cols out cond value [] = refl
query_results-selected cols out cond value (row ∷ rows) =
    rw (passes-conjuncts cols (value row) cond, query_results-selected cols out cond value rows)
      refl

resolve_conjuncts-Resolved :
    (cols : List Column) (cond : Option Condition) (cmps : List ResolvedCmp)
    → resolve_conjuncts (resolve_single_column cols) cond ≡ some cmps
    → Resolved cols (conjuncts cond) cmps
unfolding resolve_conjuncts resolve_list
resolve_conjuncts-Resolved cols none cmps e = resolve_list-Resolved cols [] cmps e
resolve_conjuncts-Resolved cols (some c) cmps e =
    resolve_list-Resolved cols (flatten_conjuncts c) cmps e

column_name_at-some :
    (cols : List Column) (i : ℕ)
    → i < length cols
    → (name : List ℕ) × (column_name_at cols i ≡ some name)
unfolding column_name_at
column_name_at-some [] i h = absurd (omega arith)
column_name_at-some (c ∷ cs) zero h = (c.name, refl)
column_name_at-some (c ∷ cs) (suc i) h = column_name_at-some cs i (omega arith)

column_names-some :
    (cols : List Column) (out : List ℕ)
    → All (λ i. i < length cols) out
    → (names : List (List ℕ)) × (column_names cols out ≡ some names)
unfolding column_names
column_names-some cols [] h = ([], refl)
column_names-some cols (i ∷ is) (i_lt, h) =
    let (name, e) = column_name_at-some cols i i_lt in
    let (names, es) = column_names-some cols is h in (name ∷ names, rw (e, es, column_names) refl)

each_of_them :
    (cols : List Column) (cur : Cursor) (value : CursorRow → ℕ → Value) (rs : List CursorRow)
    → All (λ row. RowHas cur cols row (value row)) rs
    → All (λ row. RowIs cur cols row (value row)) rs
each_of_them cols cur value [] h = tt
each_of_them cols cur value (row ∷ rs) (first, rest) =
    (RowHas-RowIs cur cols row (value row) first, each_of_them cols cur value rs rest)

-- A statement without a program yet.
pub record IsEmpty (s : Stmt) : Type 0 where
  pub pc_is : s.pc ≡ 0
  pub end_is : s.end_op ≡ 0
  pub slots : 0 < s.n_cursors

-- A SELECT on one table, of columns that the table has, is compiled to a scan, into an empty statement on a file in
-- which the table is a B-tree of no more than `levels` levels. Every row of the table has a value, not NULL and of the
-- type of its column, in every column, where a column that is PRIMARY KEY has the key of the row. There are at most
-- 256 columns, the comparisons are those that resolve_conjuncts takes the condition for, and the registers have
-- numbers below 2^31. Then chidb_stmt_exec gives result rows with the columns asked for of the rows for which the
-- condition holds, a name in it being the first column with it, all of them, each once and in the order of the tree
-- from left to right, and then ends with CHIDB_DONE. There is enough fuel for every run.
pub codegen_select_scan-ResultRows :
    (s : Stmt) (tbl : SchemaItem) (cols : List Column) (out : List ℕ) (cond : Option Condition)
    (cmps : List ResolvedCmp) (t : Tree) (levels : ℕ) (value : CursorRow → ℕ → Value)
    → IsEmpty s
    → resolve_conjuncts (resolve_single_column cols) cond ≡ some cmps
    → Fits cols out cmps
    → Holds s.pager false tbl.root_page t
    → depth t ≤ levels
    → ((rs : List CursorRow)
        → cursor_open levels tbl.root_page CursorType.read s.pager
          ≡ ok (table_cursor tbl.root_page rs) s.pager
        → All (λ row. RowHas (table_cursor tbl.root_page rs) cols row (value row)) rs)
    → (rs : List CursorRow) × (s' : Stmt) × (codegen_select_scan s tbl cols out cmps ≡ ok tt s')
      × (shown_rows rs ≡ in_order false t)
      × ResultRows levels s' (selected cols out cond value rs)
codegen_select_scan-ResultRows s tbl cols out cond cmps t levels value empty resolves fits holds_t
      deep values =
    let (rs, opens, shows) =
      cursor_open-in_order s.pager false holds_t CursorType.read levels deep in
    let (names, named) = column_names-some cols out fits.in_range in
    let (u, compiled, has) =
      codegen_select_scan-HasProgram tbl cols out cmps s empty.end_is names named in
    let s' : Stmt = record u { n_cols = length out; n_rr = length out; cols = names } in
    (
      rs,
      s',
      compiled,
      shows,
      subst (ResultRows levels s') (query_results-selected cols out cond value rs) (
          start-ResultRows tbl cols out cmps fits s' (has.machine.pc ∙ empty.pc_is)
            (omega (arith, has.machine.n_cursors, empty.slots)) has.ops_are has.end_is refl refl
            levels rs
            (subst
              (λ p.
                cursor_open levels tbl.root_page CursorType.read p
                ≡ ok (table_cursor tbl.root_page rs) p)
              (sym has.machine.pager) opens)
            (conjuncts cond) (resolve_conjuncts-Resolved cols cond cmps resolves) value
            (each_of_them cols (table_cursor tbl.root_page rs) value rs (values rs opens))),
    )
