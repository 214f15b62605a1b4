-- ===== src/Dbm/Exec.antt =====
-- src/libchidb/dbm.c: `chidb_stmt_exec`. A program may run for ever, so the loop takes fuel, one unit for an instruction.
pub mod Control
pub mod Dispatch
pub mod Scan
pub mod Stops
pub mod Table
pub mod Yields
use chidb.Prelude.{ℕ, zero, suc, ◌+◌, ltb, ◌==◌, if◌then◌else◌}
use chidb.Run.{Code, Run, ok, err, fault, out_of_fuel, and_then, Cmd}
use chidb.Dbm.{Stmt}
use chidb.Dbm.Ops.{op_handle}

-- The program counter is below `end_op` when it is increased, so it does not wrap.
unfoldable pub exec_loop : ℕ → ℕ → Cmd Stmt (Unit {0})
exec_loop depth zero s = out_of_fuel
exec_loop depth (suc fuel) s =
    let step =
      and_then (op_handle depth (s.ops s.pc) (record s { pc = s.pc + 1 }))
        λ u s'. exec_loop depth fuel s' in
    if ltb s.pc s.end_op then step else ok tt s

-- The `assert`, which ends the process if it fails, and the return code.
unfoldable pub finish : Code → Cmd Stmt (Unit {0})
finish c s = if s.n_rr == s.n_cols then err c s else fault

unfoldable pub ended : Run Stmt (Unit {0}) → Run Stmt (Unit {0})
unfolding finish
ended (ok u s) = finish Code.done s
ended (err c s) = finish c s
ended fault = fault
ended out_of_fuel = out_of_fuel

-- Every run ends with a return code: CHIDB_DONE, CHIDB_ROW or an error.
unfoldable pub exec : ℕ → ℕ → Cmd Stmt (Unit {0})
unfolding ended
exec depth fuel s = ended (exec_loop depth fuel s)
