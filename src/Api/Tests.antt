-- ===== src/Api/Tests.antt =====
-- src/libchidb/api.c on an EXPLAIN statement of two instructions.
use chidb.Prelude.{ℕ, suc, ◌<◌, ◌≡◌, refl, true, [], arith}
use chidb.Run.{Code, err}
use chidb.Btree.Sample.{table}
use chidb.Dbm.{Opcode, noop_op, stmt_init, realloc_ops, realloc_reg, realloc_cur}
use chidb.Api.{Session, step}
use chidb.Api.Explain.{RowSteps, ExplainsOp, IsExplaining, step-explained}

abbrev two_ops : Session
two_ops = record {
  stmt = record (stmt_init table) {
    explain = true;
    ops = λ i. record noop_op { opcode = Opcode.integer; p1 = i };
    end_op = 2;
  };
  schema = [];
}

two_ops-IsExplaining : IsExplaining two_ops.stmt
unfolding stmt_init realloc_ops realloc_reg realloc_cur
two_ops-IsExplaining = record {
  explain = refl;
  pc = refl;
  ops_end = omega arith;
  end_lt = omega arith;
}

step-explained_example :
    ((i : ℕ)
      → i < 2
      → (c' : Session) × RowSteps 1 9 two_ops (suc i) c'
        × ExplainsOp c'.stmt i (record noop_op { opcode = Opcode.integer; p1 = i }))
    × ((c' : Session) × RowSteps 1 9 two_ops 2 c' × (step 1 9 c' ≡ err Code.done c'))
step-explained_example = step-explained 1 9 two_ops two_ops-IsExplaining
