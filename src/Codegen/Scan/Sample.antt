-- ===== src/Codegen/Scan/Sample.antt =====
-- src/libchidb/codegen.c: a scan of a table with one column, its key.
use chidb.Prelude.{
  ℕ, zero, suc, ◌<◌, ◌≡◌, refl, subst, inl, none, some, List, [], ◌∷◌, All, arith, codes, false,
}
use chidb.Btree.Sample.{table, two_rows, table-Holds}
use chidb.Btree.Tree.{Holds, depth}
use chidb.Cursor.{CursorRow, Cursor}
use chidb.Dbm.{stmt_init, realloc_ops, realloc_reg, realloc_cur, Opcode}
use chidb.Schema.{SchemaItem, str_case_eq, to_lower}
use chidb.Sql.{DataType, Literal, Term, Expression, CompType, Condition, Constraint, Column}
use chidb.Optimizer.{flatten_conjuncts}
use chidb.Optimizer.Meaning.{Value}
use chidb.Codegen.{column_index_by_name, literal_matches_type}
use chidb.Codegen.Conjuncts.{
  ResolvedCmp, operands, flip_comp, negated_op, resolved_with, resolve_comparison, resolve_list,
  resolve_conjuncts, resolve_single_column,
}
use chidb.Codegen.Scan.Query.{IsEmpty}
use chidb.Codegen.Scan.Values.{RowHas, HasValue}
use chidb.Codegen.Scan.Row.{HasType, int_value}
use chidb.Codegen.Scan.Start.{Fits}

abbrev pub numbers : SchemaItem
numbers = record {
  type = codes "table";
  name = codes "numbers";
  table_name = codes "numbers";
  root_page = 4;
  sql = codes "n";
  key = 1;
}

abbrev pub columns : List Column
columns =
    record {
      name = codes "id";
      type = DataType.int_type;
      constraints = Constraint.primary_key ∷ [];
    }
    ∷ []

-- id > 3
abbrev pub above_3 : Condition
above_3 =
    Condition.cond_comp CompType.cond_gt
      (Expression.term (Term.column_ref (record { table_name = none; column_name = codes "id" })))
      (Expression.term (Term.literal (Literal.lit_int 3)))

abbrev pub comparisons : List ResolvedCmp
comparisons =
    record { col = record { side = 0; idx = 0 }; op = Opcode.le; lit = Literal.lit_int 3 } ∷ []

pub comparisons_are :
    resolve_conjuncts (resolve_single_column columns) (some above_3) ≡ some comparisons
unfolding resolve_conjuncts resolve_list flatten_conjuncts resolve_comparison operands resolved_with
    flip_comp negated_op resolve_single_column column_index_by_name str_case_eq to_lower
    literal_matches_type
comparisons_are = refl

pub no_program_yet : IsEmpty (stmt_init table)
unfolding stmt_init realloc_ops realloc_reg realloc_cur
no_program_yet = record { pc_is = refl; end_is = refl; slots = omega arith }

pub columns-Fits : Fits columns (0 ∷ []) comparisons
columns-Fits = record { few = omega arith; in_range = (omega arith, tt); small = omega arith }

pub table_in : Holds (stmt_init table).pager false 4 two_rows
unfolding stmt_init realloc_ops realloc_reg realloc_cur
table_in = table-Holds

pub deep_enough : depth two_rows < 3
unfolding depth
deep_enough = omega arith

-- The one column is the key.
abbrev pub key_value : CursorRow → ℕ → Value
key_value row i = Value.int row.key

key-RowHas : (cur : Cursor) (row : CursorRow) → RowHas cur columns row (key_value row)
key-RowHas cur row zero c e =
    subst
      (λ (c : Column).
        HasValue cur row 0 c (Value.int row.key) × HasType c.type (Value.int row.key))
      (column_is e) (inl ((0, refl), refl), int_value)
  where
    id_column : Column
    id_column = record {
      name = codes "id";
      type = DataType.int_type;
      constraints = Constraint.primary_key ∷ [];
    }

    column_is : some id_column ≡ some c → id_column ≡ c
    column_is p = cc
key-RowHas cur row (suc i) c e = absurd cc

pub every_row :
    (cur : Cursor) (rs : List CursorRow) → All (λ row. RowHas cur columns row (key_value row)) rs
every_row cur [] = tt
every_row cur (row ∷ rs) = (key-RowHas cur row, every_row cur rs)
