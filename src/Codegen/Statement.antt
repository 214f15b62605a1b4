-- ===== src/Codegen/Statement.antt =====
-- src/libchidb/codegen.c: `chidb_stmt_codegen`.
use chidb.Prelude.{Option, none, some, List}
use chidb.Run.{Code, Run, err}
use chidb.Dbm.{Stmt}
use chidb.Schema.{SchemaItem}
use chidb.Sql.{ListedExpression, Condition, Create, Sra, StatementKind, Statement, Parser}
use chidb.Codegen.Create.{codegen_create_table, codegen_create_index}
use chidb.Codegen.Insert.{codegen_insert}
use chidb.Codegen.Select.{codegen_select_table}
use chidb.Codegen.Join.Program.{codegen_select_join}

module _ (parse : Parser) (schema : List SchemaItem) where
  -- What is projected, and the condition of a selection of it.
  abbrev select_from : Stmt → Sra → List ListedExpression → Option Condition → Run Stmt (Unit {0})
  select_from s (Sra.table t) es cond = codegen_select_table parse schema s t es cond
  select_from s (Sra.natural_join a b) es cond = codegen_select_join parse schema s a b es cond
  select_from s _ es cond = err Code.einvalidsql s

  unfoldable pub codegen_select : Stmt → Sra → Run Stmt (Unit {0})
  unfolding codegen_select_table codegen_select_join
  codegen_select s (Sra.project (Sra.select inner cond) fields) =
      select_from s inner fields.expr_list (some cond)
  codegen_select s (Sra.project inner fields) = select_from s inner fields.expr_list none
  codegen_select s _ = err Code.einvalidsql s

  unfoldable pub stmt_codegen : Stmt → Statement → Run Stmt (Unit {0})
  unfolding codegen_select codegen_create_table codegen_create_index codegen_insert
  stmt_codegen s sql_stmt = elim sql_stmt.stmt [
    | StatementKind.stmt_create (Create.create_table t) ↦
        codegen_create_table schema s t sql_stmt.text
    | StatementKind.stmt_create (Create.create_index i) ↦
        codegen_create_index parse schema s i sql_stmt.text
    | StatementKind.stmt_insert i ↦ codegen_insert parse schema s i
    | StatementKind.stmt_select sra ↦ codegen_select s sra
    | StatementKind.stmt_delete d ↦ err Code.einvalidsql s
  ]
