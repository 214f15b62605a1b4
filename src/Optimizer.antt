-- ===== src/Optimizer.antt =====
-- src/libchidb/optimizer.c: `chidb_stmt_optimize`, which pushes the selections of a natural join to its sides. What the
-- parser makes of the text of a table is a parameter.
pub mod Buckets
pub mod Meaning
pub mod Pushed
pub mod Query
pub mod Rows
pub mod Same
mod Tests
use chidb.Prelude.{
  Bool, true, false, ◌&&◌, ◌||◌, not, Option, none, some, List, [], ◌∷◌, ◌++◌, ℕ, if◌then◌else◌,
}
use chidb.Schema.{SchemaItem, str_case_eq, find_table}
use chidb.Sql.{
  DataType, Literal, ColumnReference, Term, Expression, CompType, Condition, Constraint, Column,
  Table, TableReference, Create, Projection, Sra, StatementKind, Statement, Parser,
}

-- 0, 1 and -1.
pub data Side : Type 0 where
  left right top : Side

-- A string that equals the name or the alias, if there is one.
unfoldable pub is_named : List ℕ → TableReference → Bool
is_named s t =
    str_case_eq s t.table_name || elim t.alias [ none ↦ false | some alias ↦ str_case_eq s alias ]

unfoldable pub has_column : List Column → List ℕ → Bool
has_column [] name = false
has_column (c ∷ cs) name =
    let rest = has_column cs name in if str_case_eq c.name name then true else rest

module _ (t1 t2 : TableReference) (cols1 cols2 : List Column) where
  unfoldable pub classify_column_side : ColumnReference → Side
  unfolding is_named has_column
  classify_column_side ref = elim ref.table_name [
    | some name ↦
        if is_named name t1 then Side.left else if is_named name t2 then Side.right else Side.top
    | none ↦
        if has_column cols1 ref.column_name && not (has_column cols2 ref.column_name)
        then Side.left
        else if has_column cols2 ref.column_name && not (has_column cols1 ref.column_name)
        then Side.right
        else Side.top
  ]

  -- A comparison of a column with a literal, or of a literal with a column.
  unfoldable pub classify_leaf : Condition → Side
  unfolding classify_column_side
  classify_leaf
        (Condition.cond_comp c
          (Expression.term (Term.column_ref ref))
          (Expression.term (Term.literal l))) =
      classify_column_side ref
  classify_leaf
        (Condition.cond_comp c
          (Expression.term (Term.literal l))
          (Expression.term (Term.column_ref ref))) =
      classify_column_side ref
  classify_leaf _ = Side.top

unfoldable pub flatten_conjuncts : Condition → List Condition
flatten_conjuncts (Condition.cond_and c1 c2) = flatten_conjuncts c1 ++ flatten_conjuncts c2
flatten_conjuncts (Condition.cond_comp c e1 e2) = Condition.cond_comp c e1 e2 ∷ []
flatten_conjuncts (Condition.cond_or c1 c2) = Condition.cond_or c1 c2 ∷ []
flatten_conjuncts (Condition.cond_not c) = Condition.cond_not c ∷ []
flatten_conjuncts (Condition.cond_in e ls) = Condition.cond_in e ls ∷ []

-- The loop, from the first condition on.
unfoldable pub fold_and : Condition → List Condition → Condition
fold_and result [] = result
fold_and result (c ∷ cs) = fold_and (Condition.cond_and result c) cs

unfoldable pub is_side : Side → Side → Bool
is_side Side.left Side.left = true
is_side Side.right Side.right = true
is_side Side.top Side.top = true
is_side _ _ = false

-- The conjuncts of one side, in their order.
unfoldable pub bucket : (Condition → Side) → Side → List Condition → List Condition
unfolding is_side
bucket classify side [] = []
bucket classify side (c ∷ cs) =
    let rest = bucket classify side cs in if is_side (classify c) side then c ∷ rest else rest

-- `n > 0 ? SRASelect (sra, fold_and (list, n)) : sra`
unfoldable pub select_all : List Condition → Sra → Sra
select_all [] sra = sra
select_all (c ∷ cs) sra = Sra.select sra (fold_and c cs)

-- The columns of a table by its text; a text that creates no table is undefined, `none`.
unfoldable pub columns_of : StatementKind → Option (List Column)
columns_of (StatementKind.stmt_create (Create.create_table table)) = some table.columns
columns_of _ = none

unfoldable pub table_columns : Parser → SchemaItem → Option (List Column)
unfolding columns_of
table_columns parse item = elim (parse item.sql) [ none ↦ none | some s ↦ columns_of s.stmt ]

unfoldable pub push_buckets :
    List Condition
    → List Condition
    → List Condition
    → TableReference
    → TableReference
    → Projection
    → Sra
    → Sra
unfolding select_all
push_buckets [] [] rest t1 t2 fields old = old
push_buckets side1 side2 rest t1 t2 fields old =
    Sra.project
      (select_all rest
        (Sra.natural_join (select_all side1 (Sra.table t1)) (select_all side2 (Sra.table t2))))
      fields

-- The query with the conditions of `cond` pushed, where the columns are known.
unfoldable pub push_conjuncts :
    TableReference → TableReference → List Column → List Column → Condition → Projection → Sra → Sra
unfolding push_buckets bucket classify_leaf
push_conjuncts t1 t2 cols1 cols2 cond fields old =
    let list : List Condition = flatten_conjuncts cond in
    let classify : Condition → Side = classify_leaf t1 t2 cols1 cols2 in
    push_buckets (bucket classify Side.left list) (bucket classify Side.right list)
      (bucket classify Side.top list) t1 t2 fields old

-- The one shape that is rewritten, a selection over the natural join of two tables.
unfoldable pub optimize_select : Parser → List SchemaItem → Sra → Option Sra
unfolding push_conjuncts table_columns
optimize_select parse schema
      (Sra.project (Sra.select (Sra.natural_join (Sra.table t1) (Sra.table t2)) cond) fields) =
    let old : Sra =
      Sra.project (Sra.select (Sra.natural_join (Sra.table t1) (Sra.table t2)) cond) fields in
    elim (find_table schema t1.table_name) [
      | none ↦ some old
      | some tbl1 ↦ elim (find_table schema t2.table_name) [
        | none ↦ some old
        | some tbl2 ↦ elim (table_columns parse tbl1) [
          | none ↦ none
          | some cols1 ↦ elim (table_columns parse tbl2) [
            | none ↦ none
            | some cols2 ↦ some (push_conjuncts t1 t2 cols1 cols2 cond fields old)
          ]
        ]
      ]
    ]
optimize_select parse schema sra = some sra

unfoldable pub stmt_optimize : Parser → List SchemaItem → Statement → Option Statement
unfolding optimize_select
stmt_optimize parse schema s = elim s.stmt [
  | StatementKind.stmt_select sra ↦ elim (optimize_select parse schema sra) [
    | none ↦ none
    | some sra' ↦ some (record s { stmt = StatementKind.stmt_select sra' })
  ]
  | StatementKind.stmt_create c ↦ some s
  | StatementKind.stmt_insert i ↦ some s
  | StatementKind.stmt_delete d ↦ some s
]
