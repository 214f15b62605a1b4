-- ===== src/Optimizer/Tests.antt =====
-- src/libchidb/optimizer.c on a query over two tables that share a column.
use chidb.Prelude.{
  ℕ, ◌≡◌, refl, inl, inr, false, none, some, List, [], ◌∷◌, codes, if◌then◌else◌, Bool-cases,
}
use chidb.Schema.{SchemaItem, find_table, str_eq, str_case_eq, to_lower}
use chidb.Sql.{
  DataType, Literal, Term, Expression, CompType, Condition, Column, Create, OrderBy, Projection,
  Sra, StatementKind, Statement, Parser,
}
use chidb.Optimizer.{
  is_named, has_column, classify_column_side, classify_leaf, flatten_conjuncts, fold_and, is_side,
  bucket, select_all, columns_of, table_columns, push_buckets, push_conjuncts, optimize_select,
  stmt_optimize,
}
use chidb.Optimizer.Meaning.{Value, Row}
use chidb.Optimizer.Same.{HasTexts, SameStatement, stmt_optimize-SameStatement}

abbrev int_column : List ℕ → Column
int_column name = record { name = name; type = DataType.int_type; constraints = [] }

abbrev numbers : SchemaItem
numbers = record {
  type = codes "table";
  name = codes "numbers";
  table_name = codes "numbers";
  root_page = 2;
  sql = codes "n";
  key = 1;
}

abbrev letters : SchemaItem
letters = record numbers {
  name = codes "letters";
  table_name = codes "letters";
  root_page = 3;
  sql = codes "l";
  key = 2;
}

abbrev schema : List SchemaItem
schema = numbers ∷ letters ∷ []

abbrev creation : List ℕ → List Column → Statement
creation name cols = record {
  explain = false;
  text = codes "";
  stmt = StatementKind.stmt_create (Create.create_table (record { name = name; columns = cols }));
}

-- A parser that knows two texts: `numbers (id, n)`, and `letters (id, l)` for any other.
abbrev parse : Parser
parse sql =
    if str_eq sql (codes "n")
    then some (creation (codes "numbers") (int_column (codes "id") ∷ int_column (codes "n") ∷ []))
    else some (creation (codes "letters") (int_column (codes "id") ∷ int_column (codes "l") ∷ []))

parse-HasTexts : HasTexts parse schema
unfolding table_columns columns_of
parse-HasTexts name item e = elim (Bool-cases (str_eq item.sql (codes "n"))) [
  | inl at ↦ (int_column (codes "id") ∷ int_column (codes "n") ∷ [], rw (at, table_columns) refl)
  | inr at ↦ (int_column (codes "id") ∷ int_column (codes "l") ∷ [], rw (at, table_columns) refl)
]

abbrev named_column : List ℕ → Expression
named_column name =
    Expression.term (Term.column_ref (record { table_name = none; column_name = name }))

abbrev number : ℕ → Expression
number n = Expression.term (Term.literal (Literal.lit_int n))

abbrev n_is_3 : Condition
n_is_3 = Condition.cond_comp CompType.cond_eq (named_column (codes "n")) (number 3)

abbrev l_below_5 : Condition
l_below_5 = Condition.cond_comp CompType.cond_gt (number 5) (named_column (codes "L"))

abbrev id_above_1 : Condition
id_above_1 = Condition.cond_comp CompType.cond_gt (named_column (codes "id")) (number 1)

abbrev table_ref : List ℕ → Sra
table_ref name = Sra.table (record { table_name = name; alias = none })

abbrev fields : Projection
fields = record {
  expr_list = record { expr = named_column (codes "id"); alias = none } ∷ [];
  order_by = [];
  distinct = false;
  asc_desc = OrderBy.asc;
  group_by = [];
}

abbrev query_on : Sra → Statement
query_on sra = record {
  explain = false;
  text = codes "";
  stmt = StatementKind.stmt_select (Sra.project sra fields);
}

-- id > 1 AND n = 3 AND 5 > L
abbrev query : Statement
query = query_on (
    Sra.select (Sra.natural_join (table_ref (codes "Numbers")) (table_ref (codes "letters")))
      (Condition.cond_and (Condition.cond_and id_above_1 n_is_3) l_below_5))

optimized :
    stmt_optimize parse schema query
    ≡ some (
        query_on (
          Sra.select
            (Sra.natural_join
              (Sra.select (table_ref (codes "Numbers")) n_is_3)
              (Sra.select (table_ref (codes "letters")) l_below_5))
            id_above_1))
unfolding stmt_optimize optimize_select find_table str_eq str_case_eq to_lower table_columns
    columns_of push_conjuncts push_buckets bucket is_side classify_leaf classify_column_side
    is_named has_column flatten_conjuncts fold_and select_all
optimized = refl

abbrev stored : List ℕ → List Row
stored name = (some (Value.int 2) ∷ some (Value.int 3) ∷ []) ∷ []

stmt_optimize-SameStatement_example :
    (s' : Statement) × (stmt_optimize parse schema query ≡ some s')
    × SameStatement parse schema stored query s'
stmt_optimize-SameStatement_example =
    stmt_optimize-SameStatement parse schema stored parse-HasTexts query
