-- ===== src/Api/Explain.antt =====
-- src/libchidb/api.c: stepping through an EXPLAIN statement.
use chidb.Prelude.{
  ℕ, zero, suc, ◌+◌, ◌-◌, ◌%◌, ◌^◌, ◌≤◌, ◌<◌, ◌≡◌, refl, ap, subst, true, some, arith,
}
use chidb.Run.{Code, err}
use chidb.Dbm.{DbmOp, Stmt}
use chidb.Api.{
  Session, opcode_to_str, step, explained_op, explained_int, explained_text, column_int,
  column_text,
}

-- The session after some steps that each gave CHIDB_ROW.
pub data RowSteps (depth fuel : ℕ) (c : Session) : ℕ → Session → Type 0 where
  none_yet : RowSteps depth fuel c 0 c
  one_more :
      {i : ℕ} {c' c'' : Session}
      → RowSteps depth fuel c i c'
      → step depth fuel c' ≡ err Code.row c''
      → RowSteps depth fuel c (suc i) c''

-- The columns of the row are those of an instruction, at an address.
pub record ExplainsOp (s : Stmt) (address : ℕ) (op : DbmOp) : Type 0 where
  pub addr : column_int s 0 ≡ some address
  pub opcode : column_text s 1 ≡ some (some (opcode_to_str op.opcode))
  pub p1 : column_int s 2 ≡ some op.p1
  pub p2 : column_int s 3 ≡ some op.p2
  pub p3 : column_int s 4 ≡ some op.p3
  pub p4 : column_text s 5 ≡ some op.p4

-- An EXPLAIN statement before its first step. Its program lies in the array.
pub record IsExplaining (s : Stmt) : Type 0 where
  pub explain : s.explain ≡ true
  pub pc : s.pc ≡ 0
  pub ops_end : s.end_op ≤ s.n_ops
  pub end_lt : s.end_op < 2 ^ 32

module _ (depth fuel : ℕ) (c : Session) (fresh : IsExplaining c.stmt) where
  abbrev at_pc : ℕ → Session
  at_pc i = record c { stmt = record c.stmt { pc = i } }

  step-row : (i : ℕ) → i < c.stmt.end_op → step depth fuel (at_pc i) ≡ err Code.row (at_pc (suc i))
  unfolding step
  step-row i h = rw (fresh.explain) (rw (wraps) (ground arith))
    where
      wraps : (i + 1) % 2 ^ 32 ≡ suc i
      wraps = omega (arith, fresh.end_lt)

  step-done : step depth fuel (at_pc c.stmt.end_op) ≡ err Code.done (at_pc c.stmt.end_op)
  unfolding step
  step-done = rw (fresh.explain) (ground arith)

  rows_to : (i : ℕ) → i ≤ c.stmt.end_op → RowSteps depth fuel c i (at_pc i)
  rows_to zero h = subst (RowSteps depth fuel c 0) (ap at_pc fresh.pc) none_yet
  rows_to (suc i) h = one_more (rows_to i (omega arith)) (step-row i h)

  op_at : (i : ℕ) → i < c.stmt.end_op → explained_op (at_pc (suc i)).stmt ≡ some (c.stmt.ops i)
  unfolding explained_op
  op_at i h = rw before (ground (arith, fresh.ops_end))
    where
      before : suc i - 1 ≡ i
      before = omega arith

  columns_at : (i : ℕ) → i < c.stmt.end_op → ExplainsOp (at_pc (suc i)).stmt i (c.stmt.ops i)
  unfolding column_int column_text explained_int explained_text explained_op
  columns_at i h = rw (fresh.explain) (record {
    addr = rw (op_at i h) (ap (λ (n : ℕ). some n) (omega arith));
    opcode = rw (op_at i h) refl;
    p1 = rw (op_at i h) refl;
    p2 = rw (op_at i h) refl;
    p3 = rw (op_at i h) refl;
    p4 = rw (op_at i h) refl;
  })

  -- The steps of an EXPLAIN statement each give a row, for one instruction of the program after the other with its
  -- address, name and parameters, and the step after the last row gives CHIDB_DONE.
  pub step-explained :
      ((i : ℕ)
        → i < c.stmt.end_op
        → (c' : Session) × RowSteps depth fuel c (suc i) c' × ExplainsOp c'.stmt i (c.stmt.ops i))
      × ((c' : Session) × RowSteps depth fuel c c.stmt.end_op c'
          × (step depth fuel c' ≡ err Code.done c'))
  step-explained = (
    λ i h. (at_pc (suc i), rows_to (suc i) h, columns_at i h),
    (at_pc c.stmt.end_op, rows_to c.stmt.end_op (omega arith), step-done),
  )
