-- ===== src/Optimizer/Meaning.antt =====
-- What a query on one table or on the natural join of two means, as the rows that it selects. Independent of
-- optimizer.c and codegen.c.
use chidb.Prelude.{ℕ, Bool, true, false, ◌&&◌, Option, none, some, List, [], ◌∷◌, if◌then◌else◌}
use chidb.Schema.{SchemaItem, str_case_eq, find_table}
use chidb.Dbm.Values.{Sign, compare_int32, strcmp, c_string}
use chidb.Sql.{
  Literal, ColumnReference, Term, Expression, CompType, Condition, Column, TableReference,
  Projection, Sra, Parser,
}
use chidb.Optimizer.{is_named, has_column, table_columns}
use chidb.Optimizer.Rows.{keep, joined}

-- The values of columns. NULL, and a value that there is not, is `none`.
pub data Value : Type 0 where
  int : ℕ → Value
  text : List ℕ → Value

abbrev pub Row : Type 0
Row = List (Option Value)

abbrev pub Env : Type 0
Env = ColumnReference → Option Value

-- The value in the first column with the name.
unfoldable pub value_in : List Column → Row → List ℕ → Option Value
value_in [] row name = none
value_in (c ∷ cs) [] name = none
value_in (c ∷ cs) (v ∷ vs) name =
    let rest = value_in cs vs name in if str_case_eq c.name name then v else rest

-- A column of one table, qualified by it or not.
unfoldable pub table_env : TableReference → List Column → Row → Env
table_env t cols row ref = elim ref.table_name [
  | none ↦ value_in cols row ref.column_name
  | some name ↦ if is_named name t then value_in cols row ref.column_name else none
]

-- A column of a join. A qualifier names the first table if it can; without one, a name that both tables have is
-- that of a join column, equal in both rows.
unfoldable pub join_env :
    TableReference → TableReference → List Column → List Column → Row × Row → Env
join_env t1 t2 cols1 cols2 rows ref = elim ref.table_name [
  | none ↦
      if has_column cols1 ref.column_name
      then value_in cols1 rows.0 ref.column_name
      else value_in cols2 rows.1 ref.column_name
  | some name ↦
      if is_named name t1
      then value_in cols1 rows.0 ref.column_name
      else if is_named name t2
      then value_in cols2 rows.1 ref.column_name
      else none
]

unfoldable pub literal_value : Literal → Option Value
literal_value (Literal.lit_int n) = some (Value.int n)
literal_value (Literal.lit_double n) = none
literal_value (Literal.lit_char c) = some (Value.text (c_string (c ∷ [])))
literal_value (Literal.lit_text s) = some (Value.text s)

-- Of the expressions, columns and literals have a value; the code generator takes no other in a condition.
unfoldable pub expression_value : Env → Expression → Option Value
expression_value env (Expression.term (Term.column_ref ref)) = env ref
expression_value env (Expression.term (Term.literal l)) = literal_value l
expression_value env _ = none

unfoldable pub value_order : Option Value → Option Value → Option Sign
value_order (some (Value.int a)) (some (Value.int b)) = some (compare_int32 a b)
value_order (some (Value.text s)) (some (Value.text t)) = some (strcmp s t)
value_order _ _ = none

unfoldable pub has_order : CompType → Sign → Bool
has_order CompType.cond_eq Sign.zero_sign = true
has_order CompType.cond_eq _ = false
has_order CompType.cond_lt Sign.negative = true
has_order CompType.cond_lt _ = false
has_order CompType.cond_gt Sign.positive = true
has_order CompType.cond_gt _ = false
has_order CompType.cond_leq Sign.positive = false
has_order CompType.cond_leq _ = true
has_order CompType.cond_geq Sign.negative = false
has_order CompType.cond_geq _ = true

-- The three truth values of SQL: `none` is unknown.
abbrev pub and_3 : Option Bool → Option Bool → Option Bool
and_3 (some false) y = some false
and_3 (some true) y = y
and_3 none (some false) = some false
and_3 none _ = none

abbrev pub not_3 : Option Bool → Option Bool
not_3 none = none
not_3 (some true) = some false
not_3 (some false) = some true

abbrev pub or_3 : Option Bool → Option Bool → Option Bool
or_3 x y = not_3 (and_3 (not_3 x) (not_3 y))

unfoldable pub comp_truth : CompType → Option Value → Option Value → Option Bool
comp_truth c v w = elim (value_order v w) [ none ↦ none | some sign ↦ some (has_order c sign) ]

unfoldable pub in_truth : Option Value → List Literal → Option Bool
in_truth v [] = some false
in_truth v (l ∷ ls) = or_3 (comp_truth CompType.cond_eq v (literal_value l)) (in_truth v ls)

unfoldable pub truth : Env → Condition → Option Bool
truth env (Condition.cond_comp c e1 e2) =
    comp_truth c (expression_value env e1) (expression_value env e2)
truth env (Condition.cond_and c1 c2) = and_3 (truth env c1) (truth env c2)
truth env (Condition.cond_or c1 c2) = or_3 (truth env c1) (truth env c2)
truth env (Condition.cond_not c) = not_3 (truth env c)
truth env (Condition.cond_in e ls) = in_truth (expression_value env e) ls

abbrev pub is_true : Option Bool → Bool
is_true none = false
is_true (some b) = b

-- A selection keeps the rows for which its condition is true, neither false nor unknown.
unfoldable pub holds : Condition → Env → Bool
holds c env = is_true (truth env c)

-- Two rows join if the values are equal in every column that the tables share.
unfoldable pub rows_join : List Column → Row → List Column → Row → Bool
rows_join [] row1 cols2 row2 = true
rows_join (c ∷ cs) [] cols2 row2 = true
rows_join (c ∷ cs) (v ∷ vs) cols2 row2 =
    let rest = rows_join cs vs cols2 row2 in
    if has_column cols2 c.name
    then is_true (comp_truth CompType.cond_eq v (value_in cols2 row2 c.name)) && rest
    else rest

-- A table of a query: how it is referred to, its columns and its rows.
pub record Source : Type 0 where
  pub ref : TableReference
  pub columns : List Column
  pub rows : List Row

-- The rows of every table come from the parameter `stored`.
module _ (parse : Parser) (schema : List SchemaItem) (stored : List ℕ → List Row) where
  unfoldable pub source_of : TableReference → Option Source
  source_of t = elim (find_table schema t.table_name) [
    | none ↦ none
    | some tbl ↦ elim (table_columns parse tbl) [
      | none ↦ none
      | some cols ↦ some (record { ref = t; columns = cols; rows = stored t.table_name })
    ]
  ]

  abbrev pub selected_in : Condition → Source → Source
  selected_in c src = record src {
    rows = keep (λ row. holds c (table_env src.ref src.columns row)) src.rows;
  }

  -- A table, or a selection of one.
  unfoldable pub side_source : Sra → Option Source
  side_source (Sra.table t) = source_of t
  side_source (Sra.select (Sra.table t) c) = elim (source_of t) [
    | none ↦ none
    | some src ↦ some (selected_in c src)
  ]
  side_source _ = none

-- The result of a join: what evaluates its columns and the pairs of rows.
pub record Joined : Type 0 where
  pub env : Row × Row → Env
  pub rows : List (Row × Row)

abbrev pub join_sources : Source → Source → Joined
join_sources a b = record {
  env = join_env a.ref b.ref a.columns b.columns;
  rows = joined (λ row1 row2. rows_join a.columns row1 b.columns row2) a.rows b.rows;
}

abbrev pub both_sources : Option Source → Option Source → Option Joined
both_sources none b = none
both_sources (some a) none = none
both_sources (some a) (some b) = some (join_sources a b)

abbrev pub selected_of : Condition → Option Joined → Option Joined
selected_of c none = none
selected_of c (some j) = some (record j { rows = keep (λ rows. holds c (j.env rows)) j.rows })

module _ (parse : Parser) (schema : List SchemaItem) (stored : List ℕ → List Row) where
  unfoldable pub join_rows : Sra → Option Joined
  join_rows (Sra.natural_join a b) =
      both_sources (side_source parse schema stored a) (side_source parse schema stored b)
  join_rows (Sra.select (Sra.natural_join a b) c) =
      selected_of c
        (both_sources (side_source parse schema stored a) (side_source parse schema stored b))
  join_rows _ = none

  -- What a query projects, and from which rows, if it is one on a natural join of two tables.
  unfoldable pub query_rows : Sra → Option (Projection × Joined)
  query_rows (Sra.project sra fields) = elim (join_rows sra) [
    | none ↦ none
    | some j ↦ some (fields, j)
  ]
  query_rows _ = none
