-- ===== src/Api/Prepare.antt =====
-- src/libchidb/api.c: `chidb_prepare`.
use chidb.Prelude.{Bool, ℕ, Option, none, some, List}
use chidb.Run.{Code, Run, ok, err, fault, out_of_fuel}
use chidb.Dbm.{Stmt, stmt_init}
use chidb.Schema.{SchemaItem}
use chidb.Sql.{Statement, Parser}
use chidb.Optimizer.{stmt_optimize}
use chidb.Codegen.Statement.{stmt_codegen}
use chidb.Api.{Session, Chidb}

-- The flag of the statement that was parsed, whatever the code generator returns.
abbrev pub with_explain : Bool → List SchemaItem → Run Stmt (Unit {0}) → Run Session (Unit {0})
with_explain explain schema (ok u s) =
    ok u (record { stmt = record s { explain = explain }; schema = schema })
with_explain explain schema (err c s) =
    err c (record { stmt = record s { explain = explain }; schema = schema })
with_explain explain schema fault = fault
with_explain explain schema out_of_fuel = out_of_fuel

abbrev pub compiled : Parser → Chidb → Statement → Option Statement → Run Session (Unit {0})
compiled parse db sql_stmt none = fault
compiled parse db sql_stmt (some sql_stmt_opt) =
    with_explain sql_stmt.explain db.schema
      (stmt_codegen parse db.schema (stmt_init db.pager) sql_stmt_opt)

unfoldable pub prepare : Parser → Chidb → List ℕ → Run Session (Unit {0})
unfolding stmt_optimize stmt_codegen
prepare parse db sql = elim (parse sql) [
  | none ↦ err Code.einvalidsql (record { stmt = stmt_init db.pager; schema = db.schema })
  | some sql_stmt ↦ compiled parse db sql_stmt (stmt_optimize parse db.schema sql_stmt)
]
