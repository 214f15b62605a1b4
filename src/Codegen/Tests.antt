-- ===== src/Codegen/Tests.antt =====
-- src/libchidb/codegen.c on a table of two integer columns.
use chidb.Prelude.{
  ℕ, zero, suc, ◌≡◌, refl, false, none, some, List, [], ◌∷◌, codes, if◌then◌else◌, ◌==◌,
}
use chidb.Run.{Run, ok, err, fault, out_of_fuel}
use chidb.Btree.Sample.{table}
use chidb.Dbm.{
  Opcode, DbmOp, Register, Stmt, get_reg, stmt_init, set_op, set_at, realloc_ops, realloc_reg,
  realloc_cur, fill_from,
}
use chidb.Dbm.Ops.{op_handle}
use chidb.Schema.{SchemaItem, find_table, find_index_on, str_eq, str_case_eq, to_lower}
use chidb.Sql.{
  DataType, Literal, Term, Expression, CompType, Condition, Constraint, Column, Create, OrderBy,
  Sra, StatementKind, Statement, Parser,
}
use chidb.Optimizer.{flatten_conjuncts, columns_of, table_columns}
use chidb.Optimizer.Meaning.{Value, Env, holds, literal_value}
use chidb.Codegen.{
  emit, emits, patch, patch_all, op_of, literal_op, literal_matches_type, column_count,
  column_index_by_name, has_primary_key, column_is_primary_key, column_name_at, read_op,
}
use chidb.Codegen.Compare.{ints, checked, resolve_comparison-op_handle}
use chidb.Codegen.Conjuncts.{
  ResolvedCmp, index_seek_kind, detect_range_pair, operands, flip_comp, negated_op, resolved_with,
  resolve_comparison, resolve_list, resolve_conjuncts, resolve_single_column, filter_literals,
  rcol_op, filter_checks, check_addresses,
}
use chidb.Codegen.Insert.{kind_column, index_column}
use chidb.Codegen.Select.{
  output_columns, column_names, set_output_columns, seek_plan, codegen_select_scan, is_star,
  indices, emit_select, codegen_select_table,
}
use chidb.Codegen.Statement.{codegen_select, stmt_codegen}

abbrev numbers : SchemaItem
numbers = record {
  type = codes "table";
  name = codes "numbers";
  table_name = codes "numbers";
  root_page = 2;
  sql = codes "n";
  key = 1;
}

abbrev columns : List Column
columns =
    record {
      name = codes "id";
      type = DataType.int_type;
      constraints = Constraint.primary_key ∷ [];
    }
    ∷ record { name = codes "n"; type = DataType.int_type; constraints = [] }
    ∷ []

abbrev parse : Parser
parse sql = some (record {
  explain = false;
  text = codes "";
  stmt =
      StatementKind.stmt_create
        (Create.create_table (record { name = codes "numbers"; columns = columns }));
})

abbrev named_column : List ℕ → Expression
named_column name =
    Expression.term (Term.column_ref (record { table_name = none; column_name = name }))

-- 3 < n
abbrev above_3 : Condition
above_3 =
    Condition.cond_comp CompType.cond_lt (Expression.term (Term.literal (Literal.lit_int 3)))
      (named_column (codes "n"))

abbrev query : Statement
query = record {
  explain = false;
  text = codes "";
  stmt = StatementKind.stmt_select (
      Sra.project
        (Sra.select (Sra.table (record { table_name = codes "numbers"; alias = none })) above_3)
        (record {
          expr_list = record { expr = named_column (codes "*"); alias = none } ∷ [];
          order_by = [];
          distinct = false;
          asc_desc = OrderBy.asc;
          group_by = [];
        }));
}

-- The first instructions of a statement that was compiled.
abbrev listed : ℕ → (ℕ → DbmOp) → ℕ → List DbmOp
listed zero ops i = []
listed (suc n) ops i = ops i ∷ listed n ops (suc i)

abbrev program : ℕ → Run Stmt (Unit {0}) → List DbmOp
program n (ok u s) = listed n s.ops 0
program n (err c s) = []
program n fault = []
program n out_of_fuel = []

expected_listing :
    program 12 (stmt_codegen parse (numbers ∷ []) (stmt_init table) query)
    ≡ op_of Opcode.integer 2 0 0
      ∷ op_of Opcode.open_read 0 0 2
      ∷ op_of Opcode.integer 3 1 0
      ∷ op_of Opcode.rewind 0 10 0
      ∷ op_of Opcode.column 0 1 2
      ∷ op_of Opcode.le 1 9 2
      ∷ op_of Opcode.key 0 3 0
      ∷ op_of Opcode.column 0 1 4
      ∷ op_of Opcode.result_row 3 2 0
      ∷ op_of Opcode.next 0 4 0
      ∷ op_of Opcode.close 0 0 0
      ∷ op_of Opcode.halt 0 0 0
      ∷ []
unfolding stmt_codegen codegen_select codegen_select_table find_table str_eq str_case_eq to_lower
    table_columns columns_of is_star indices resolve_conjuncts resolve_list flatten_conjuncts
    resolve_comparison operands resolved_with flip_comp negated_op resolve_single_column
    column_index_by_name literal_matches_type emit_select seek_plan detect_range_pair
    index_seek_kind column_name_at find_index_on index_column kind_column codegen_select_scan emits
    emit set_op set_at realloc_ops fill_from filter_literals literal_op filter_checks rcol_op
    read_op column_is_primary_key has_primary_key output_columns check_addresses patch_all patch
    set_output_columns column_names column_count stmt_init realloc_reg realloc_cur
expected_listing = refl

abbrev cmp : ResolvedCmp
cmp = record { col = record { side = 0; idx = 1 }; op = Opcode.le; lit = Literal.lit_int 3 }

-- The literal in register 1 and the column in register 2.
abbrev checking : Stmt
checking = record (stmt_init table) {
  reg = λ r. if r == 1 then Register.int32 3 else Register.int32 7;
}

abbrev seven : Env
seven ref = some (Value.int 7)

resolved : resolve_comparison (resolve_single_column columns) above_3 ≡ some cmp
unfolding resolve_comparison operands resolved_with flip_comp negated_op resolve_single_column
    column_index_by_name str_case_eq to_lower literal_matches_type
resolved = refl

literal_3 : literal_value cmp.lit ≡ some (Value.int 3)
unfolding literal_value
literal_3 = refl

column_in : get_reg 2 checking ≡ ok (Register.int32 7) checking
unfolding get_reg stmt_init realloc_ops realloc_reg realloc_cur
column_in = refl

literal_in : get_reg 1 checking ≡ ok (Register.int32 3) checking
unfolding get_reg stmt_init realloc_ops realloc_reg realloc_cur
literal_in = refl

resolve_comparison-op_handle_example :
    op_handle 1 (op_of Opcode.le 1 9 2) checking ≡ ok tt (checked (holds above_3 seven) 9 checking)
resolve_comparison-op_handle_example =
    resolve_comparison-op_handle (resolve_single_column columns) above_3 cmp resolved seven
      (Value.int 7) (Value.int 3) (λ ref type e. refl) literal_3 ints 1 checking 1 9 2 column_in
      literal_in
