-- ===== src/Codegen/Scan/Tests.antt =====
-- src/libchidb/codegen.c: a SELECT on the table of one column, compiled and run.
use chidb.Prelude.{ℕ, ◌<◌, ◌≡◌, refl, ap, none, some, List, [], ◌∷◌, arith, codes, false}
use chidb.Run.{ok}
use chidb.Btree.Sample.{table, two_rows}
use chidb.Cursor.{CursorRow}
use chidb.Cursor.Shown.{shown_rows, in_order}
use chidb.Dbm.{Stmt, stmt_init}
use chidb.Schema.Lookup.{lower}
use chidb.Schema.{SchemaItem, to_lower}
use chidb.Optimizer.Meaning.{literal_value}
use chidb.Sql.{
  DataType, Constraint, Column, Term, Expression, Create, TableReference, Projection, OrderBy,
  StatementKind, Parser,
}
use chidb.Codegen.Scan.Loop.{ResultRows}
use chidb.Codegen.Scan.Query.{selected, codegen_select_scan-ResultRows}
use chidb.Codegen.Scan.Start.{table_cursor}
use chidb.Codegen.Select.{codegen_select_scan}
use chidb.Codegen.Scan.Asked.{IsFirstNamed, asks_named, column_first}
use chidb.Codegen.Scan.Row.{int_value}
use chidb.Codegen.Scan.Program.{IsScan, codegen_select_scan-IsScan}
use chidb.Codegen.Layout.{SameMachine}
use chidb.Codegen.Scan.Whole.{select_statement, stmt_codegen-ResultRows}
use chidb.Codegen.Scan.Question.{IsQuery}
use chidb.Codegen.Statement.{stmt_codegen}
use chidb.Codegen.Scan.Sample.{
  numbers, columns, above_3, comparisons, comparisons_are, no_program_yet, columns-Fits, table_in,
  deep_enough, key_value, every_row,
}

codegen_select_scan-ResultRows_example :
    (rs : List CursorRow) × (s' : Stmt) × (codegen_select_scan
        (stmt_init table)
        numbers
        columns
        (0 ∷ [])
        comparisons
      ≡ ok tt s')
    × (shown_rows rs ≡ in_order false two_rows)
    × ResultRows 2 s' (selected columns (0 ∷ []) (some above_3) key_value rs)
codegen_select_scan-ResultRows_example =
    codegen_select_scan-ResultRows (stmt_init table) numbers columns (0 ∷ []) (some above_3)
      comparisons two_rows 2 key_value no_program_yet comparisons_are columns-Fits table_in
      (omega (arith, deep_enough)) (λ rs e. every_row (table_cursor 4 rs) rs)

codegen_select_scan-IsScan_example :
    (t : Stmt) × (codegen_select_scan (stmt_init table) numbers columns (0 ∷ []) comparisons
      ≡ ok tt t)
    × IsScan numbers columns (0 ∷ []) comparisons t 1 1
    × SameMachine (stmt_init table) t
codegen_select_scan-IsScan_example =
    codegen_select_scan-IsScan numbers columns (0 ∷ []) comparisons (stmt_init table)
      no_program_yet.end_is (omega arith, tt) ((refl, omega arith), tt)

-- The text of the table, whatever it is, is that of its creation.
abbrev parse_numbers : Parser
parse_numbers text = some (record {
  explain = false;
  text = text;
  stmt =
      StatementKind.stmt_create
        (Create.create_table (record { name = codes "numbers"; columns = columns }));
})

abbrev numbers_ref : TableReference
numbers_ref = record { table_name = codes "numbers"; alias = none }

abbrev only_id : Projection
only_id = record {
  expr_list =
      record {
        expr =
            Expression.term
              (Term.column_ref (record { table_name = none; column_name = codes "id" }));
        alias = none;
      }
      ∷ [];
  order_by = [];
  distinct = false;
  asc_desc = OrderBy.asc;
  group_by = [];
}

-- Another table in front of it.
abbrev two_tables : List SchemaItem
two_tables = record numbers { name = codes "words"; root_page = 9 } ∷ numbers ∷ []

abbrev first_letter : List ℕ → ℕ
first_letter [] = 0
first_letter (c ∷ cs) = c

letters_differ : (a b : ℕ) → b < a → ¬ (a ≡ b)
letters_differ a b h e = absurd (omega arith)

abbrev id_column : Column
id_column = record {
  name = codes "id";
  type = DataType.int_type;
  constraints = Constraint.primary_key ∷ [];
}

id_column-IsFirstNamed : IsFirstNamed columns (codes "id") 0 id_column
id_column-IsFirstNamed = (refl, refl, tt)

only_id-IsQuery :
    IsQuery parse_numbers two_tables numbers_ref only_id.expr_list
      (some above_3)
      numbers
      columns
      (0 ∷ [])
      1
unfolding to_lower literal_value
only_id-IsQuery = record {
  table_is = (1, refl, (refl, refl), ((λ h. words_numbers h.1), tt));
  creates = (_, _, refl, refl, refl);
  no_index = λ i c e. ((λ h. table_index h.0.0), ((λ h. table_index h.0.0), tt));
  asks = asks_named ((_, _, refl, (λ e. cc), id_column-IsFirstNamed), tt);
  filter = column_first 0 _ id_column-IsFirstNamed (_, refl, int_value);
  few = omega arith;
  small = omega arith;
}
  where
    table_index : ¬ (codes "table" ≡ codes "index")
    table_index e = letters_differ 116 105 (omega arith) (ap first_letter e)

    words_numbers : ¬ (lower (codes "words") ≡ lower (codes "numbers"))
    words_numbers e = letters_differ 119 110 (omega arith) (ap first_letter e)

stmt_codegen-ResultRows_example :
    (rs : List CursorRow) × (s' : Stmt) × (stmt_codegen parse_numbers two_tables
        (stmt_init table)
        (select_statement numbers_ref (some above_3) only_id false (codes "q"))
      ≡ ok tt s')
    × (shown_rows rs ≡ in_order false two_rows)
    × ResultRows 2 s' (selected columns (0 ∷ []) (some above_3) key_value rs)
stmt_codegen-ResultRows_example =
    stmt_codegen-ResultRows parse_numbers two_tables (stmt_init table) numbers_ref (some above_3)
      only_id false (codes "q") numbers columns (0 ∷ []) 1 two_rows 2 key_value no_program_yet
      only_id-IsQuery table_in (omega (arith, deep_enough))
      (λ rs e. every_row (table_cursor 4 rs) rs)
