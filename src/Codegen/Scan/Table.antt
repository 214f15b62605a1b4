-- ===== src/Codegen/Scan/Table.antt =====
-- src/libchidb/codegen.c, dbm.c: the rows that the loop of a compiled scan gives.
use chidb.Prelude.{
  ℕ, suc, ◌+◌, ◌%◌, ◌^◌, ◌≡◌, refl, sym, ap, subst, ◌∙◌, inr, true, false, none, some, List, [],
  ◌∷◌, arith, get_elem?, length, length-append, All,
}
use chidb.Run.{Code}
use chidb.Cursor.{CursorRow, Cursor, rewind, next}
use chidb.Dbm.{Opcode, DbmOp, Register, Stmt}
use chidb.Dbm.Ops.{op_rewind, op_next, op_result_row, dispatch, op_handle}
use chidb.Dbm.Exec.Yields.{next_last, next_row, rewind_empty, rewind_first, behind_first}
use chidb.Api.{row_register}
use chidb.Sql.{Condition, Column}
use chidb.Optimizer.Meaning.{Value}
use chidb.Codegen.{op_of}
use chidb.Codegen.Checks.{value_register}
use chidb.Codegen.Conjuncts.{ResolvedCmp, filter_checks}
use chidb.Codegen.Scan.Check.{Runs, inside, here}
use chidb.Codegen.Scan.Checked.{
  Lies, Lies-first, Lies-rest, Lies-left, Lies-right, Resolved, checks-Finishes, outputs-Finishes,
}
use chidb.Codegen.Scan.Row.{RowIs, passes}
use chidb.Codegen.Scan.State.{InRegister, Finishes, step-Finishes, err-Finishes}
use chidb.Codegen.Scan.Loop.{
  Answers, Finishes-ResultRows, RowIs-moved, moved, moved-Runs, move_cursor-moved, close-Finishes,
  ScanLoop, values_of, query_results, get_elem?-values_of, length-values_of,
}
use chidb.Codegen.Select.{output_columns}

module _ (prog : List DbmOp) (cmps : List ResolvedCmp) (cols : List Column) (out : List ℕ)
    (loop nxt r_out : ℕ) (plan : ScanLoop prog cmps cols out loop nxt r_out)
    (conds : List Condition) (resolved : Resolved cols conds cmps) (value : CursorRow → ℕ → Value)
    (depth : ℕ) where
  abbrev results : List CursorRow → List (List Value)
  results = query_results cols out conds value

  abbrev At : Cursor → ℕ → Stmt → Type 0
  At = Runs prog cmps (length out)

  row_register-shown :
      (s : Stmt) (j : ℕ) (v : Register)
      → InRegister s (r_out + j) v
      → row_register (record s { pc = s.pc + 1; start_rr = r_out; n_rr = length out }) j ≡ some v
  unfolding row_register
  row_register-shown s j v h =
      let index : (r_out + j) % 2 ^ 32 ≡ r_out + j = omega (arith, h.small) in
      rw index (ground (arith, h.there, h.value))

  -- The result row, from the registers of the outputs.
  row-Finishes :
      (cur : Cursor) (pc : ℕ) (s : Stmt) (vs : ℕ → Value) (rest : List (List Value))
      → At cur pc s
      → get_elem? prog pc ≡ some (op_of Opcode.result_row r_out (length out) 0)
      → pc + 1 ≡ nxt
      → ((j i : ℕ) → get_elem? out j ≡ some i → InRegister s (r_out + j) (value_register (vs i)))
      → ((s' : Stmt) → At cur nxt s' → Finishes depth (Answers depth rest) s')
      → Finishes depth (Answers depth (values_of vs out ∷ rest)) s
  unfolding op_handle dispatch op_result_row
  row-Finishes cur pc s vs rest h op_is next_is outs later =
      let shown : Stmt = record s { pc = s.pc + 1; start_rr = r_out; n_rr = length out } in
      let at_nxt : At cur nxt shown = record {
        pc_is = omega (arith, h.pc_is);
        ops_are = h.ops_are;
        end_is = h.end_is;
        count_is = refl;
        cols_is = h.cols_is;
        slot = h.slot;
        slots = h.slots;
        opened = h.opened;
        literals = λ j cmp w e g.
            let old : InRegister s (1 + j) (value_register w) = h.literals j cmp w e g in
            record { there = old.there; small = old.small; value = old.value };
      } in
      err-Finishes depth prog (Answers depth (values_of vs out ∷ rest)) s _ h.ops_are
        (here prog cmps (length out) cur pc s h _ op_is)
        (inside prog cmps (length out) cur pc s h _ op_is) Code.row shown refl
        (inr (
          shown,
          values_of vs out,
          rest,
          refl,
          refl,
          sym h.cols_is,
          (
            sym (length-values_of vs out),
            λ j v e.
                let (i, at, is) = get_elem?-values_of vs out j v e in
                row_register-shown s j (value_register (vs i)) (outs j i at)
                ∙ ap (λ (x : Value). some (value_register x)) is,
          ),
          Finishes-ResultRows depth rest shown (later shown at_nxt),
        ))

  -- From the first check on, with the cursor on a row.
  loop-Finishes :
      (cur : Cursor) (i : ℕ) (s : Stmt) (row : CursorRow) (rest : List CursorRow)
      → cur.pos ≡ some i
      → get_elem? cur.rows i ≡ some row
      → RowIs cur cols row (value row)
      → At cur loop s
      → ((s' : Stmt) → At cur nxt s' → Finishes depth (Answers depth (results rest)) s')
      → Finishes depth (Answers depth (results (row ∷ rest))) s
  loop-Finishes cur i s row rest at row_is values h later =
      let pc_out : ℕ = loop + length (filter_checks cmps cols [] 1 (1 + length cmps) nxt) in
      let reads : List DbmOp = output_columns 0 cols out r_out in
      let shows : List DbmOp = op_of Opcode.result_row r_out (length out) 0 ∷ [] in
      let one : List (List Value) = values_of (value row) out ∷ results rest in
      checks-Finishes prog cmps (length out) cur cols plan.few row i at row_is (value row) values
        depth (Answers depth (results (row ∷ rest))) conds cmps loop 0 1 nxt s resolved refl
        (λ j. ap (get_elem? cmps) (omega arith)) plan.small plan.checks_at h
        (λ s' e runs.
          subst (λ rows. Finishes depth (Answers depth rows) s') (passed e)
            (outputs-Finishes prog cmps (length out) cur cols plan.few row i at row_is (value row)
              values depth (Answers depth one) out pc_out r_out s' plan.in_range plan.behind
              plan.small_out (Lies-left prog pc_out reads shows plan.outputs_at) runs
              (λ t runs' outs kept.
                row-Finishes cur (pc_out + length reads) t (value row) (results rest) runs'
                  (Lies-first prog (pc_out + length reads) _ []
                    (Lies-right prog pc_out reads shows plan.outputs_at))
                  (omega (arith, plan.next_is, length-append reads shows)) outs later)))
        (λ s' e runs.
          subst (λ rows. Finishes depth (Answers depth rows) s') (missed e) (later s' runs))
    where
      passed :
          passes cols (value row) conds ≡ true
          → values_of (value row) out ∷ results rest ≡ results (row ∷ rest)
      passed e = rw e refl

      missed : passes cols (value row) conds ≡ false → results rest ≡ results (row ∷ rest)
      missed e = rw e refl

  -- The rest of the rows lies behind the row `i` of the cursor.
  abbrev Behind : Cursor → ℕ → List CursorRow → Type 0
  Behind cur i rest =
      ((j : ℕ) → get_elem? cur.rows (i + j) ≡ get_elem? rest j)
      × (length cur.rows ≡ i + length rest)

  abbrev next_op : DbmOp
  next_op = op_of Opcode.next 0 loop 0

  abbrev end_ops : List DbmOp
  end_ops = op_of Opcode.close 0 0 0 ∷ op_of Opcode.halt 0 0 0 ∷ []

  -- From Next on.
  next-Finishes :
      (rest : List CursorRow) (cur : Cursor) (i : ℕ) (s : Stmt)
      → All (λ row. RowIs cur cols row (value row)) rest
      → cur.pos ≡ some i
      → Behind cur (i + 1) rest
      → At cur nxt s
      → Finishes depth (Answers depth (results rest)) s
  unfolding op_handle dispatch op_next
  next-Finishes [] cur i s rows at (behind, count) h =
      let next_at : get_elem? prog nxt ≡ some next_op =
        Lies-first prog nxt next_op end_ops plan.closing_at in
      step-Finishes depth prog (Answers depth []) s next_op h.ops_are
        (here prog cmps (length out) cur nxt s h next_op next_at)
        (inside prog cmps (length out) cur nxt s h next_op next_at) _
        (move_cursor-moved prog cmps (length out) cur nxt s h next next_op false cur.pos refl
          (next_last cur i at (omega arith)))
        (close-Finishes prog cmps (length out) (record cur { pos = cur.pos }) (s.pc + 1)
          (moved prog cmps (length out) cur nxt s h cur.pos (s.pc + 1))
          (moved-Runs prog cmps (length out) cur nxt s h cur.pos (s.pc + 1)) depth
          (subst (λ n. Lies prog n end_ops) (ap (λ (n : ℕ). n + 1) (sym h.pc_is))
            (Lies-rest prog nxt next_op end_ops plan.closing_at)))
  next-Finishes (row ∷ rest) cur i s (this, rows) at (behind, count) h =
      let next_at : get_elem? prog nxt ≡ some next_op =
        Lies-first prog nxt next_op end_ops plan.closing_at in
      let cur' : Cursor = record cur { pos = some (i + 1) } in
      step-Finishes depth prog (Answers depth (results (row ∷ rest))) s next_op h.ops_are
        (here prog cmps (length out) cur nxt s h next_op next_at)
        (inside prog cmps (length out) cur nxt s h next_op next_at) _
        (move_cursor-moved prog cmps (length out) cur nxt s h next next_op true (some (i + 1)) refl
          (next_row cur i at (omega arith)))
        (loop-Finishes cur' (i + 1) _ row rest refl
          (ap (get_elem? cur.rows) (omega arith) ∙ behind 0)
          (RowIs-moved cur (some (i + 1)) cols row (value row) this)
          (moved-Runs prog cmps (length out) cur nxt s h (some (i + 1)) loop)
          (λ t runs.
            next-Finishes rest cur' (i + 1) t (all_moved rest rows) refl
              (λ j. ap (get_elem? cur.rows) (omega arith) ∙ behind (suc j), omega arith) runs))
    where
      all_moved :
          (rest : List CursorRow)
          → All (λ row. RowIs cur cols row (value row)) rest
          → All (λ row. RowIs (record cur { pos = some (i + 1) }) cols row (value row)) rest
      all_moved [] rows = tt
      all_moved (row ∷ rest) (this, rows) =
          (RowIs-moved cur (some (i + 1)) cols row (value row) this, all_moved rest rows)

  -- From Rewind on, in front of the loop.
  pub rewind-Finishes :
      (rows : List CursorRow) (cur : Cursor) (pc : ℕ) (s : Stmt)
      → cur.rows ≡ rows
      → All (λ row. RowIs cur cols row (value row)) rows
      → pc + 1 ≡ loop
      → get_elem? prog pc ≡ some (op_of Opcode.rewind 0 (nxt + 1) 0)
      → At cur pc s
      → Finishes depth (Answers depth (results rows)) s
  unfolding op_handle dispatch op_rewind
  rewind-Finishes [] cur pc s rows_are values loop_is rewind_at h =
      step-Finishes depth prog (Answers depth []) s _ h.ops_are
        (here prog cmps (length out) cur pc s h _ rewind_at)
        (inside prog cmps (length out) cur pc s h _ rewind_at) _
        (move_cursor-moved prog cmps (length out) cur pc s h rewind
          (op_of Opcode.rewind 0 (nxt + 1) 0) true none refl (rewind_empty cur rows_are))
        (close-Finishes prog cmps (length out) (record cur { pos = none }) (nxt + 1)
          (moved prog cmps (length out) cur pc s h none (nxt + 1))
          (moved-Runs prog cmps (length out) cur pc s h none (nxt + 1)) depth
          (Lies-rest prog nxt next_op end_ops plan.closing_at))
  rewind-Finishes (row ∷ rest) cur pc s rows_are (this, values) loop_is rewind_at h =
      let first : Cursor = record cur { pos = some 0 } in
      let start : Stmt = moved prog cmps (length out) cur pc s h (some 0) (s.pc + 1) in
      let at_loop : s.pc + 1 ≡ loop = omega (arith, h.pc_is) in
      step-Finishes depth prog (Answers depth (results (row ∷ rest))) s _ h.ops_are
        (here prog cmps (length out) cur pc s h _ rewind_at)
        (inside prog cmps (length out) cur pc s h _ rewind_at) start
        (move_cursor-moved prog cmps (length out) cur pc s h rewind
          (op_of Opcode.rewind 0 (nxt + 1) 0) false (some 0) refl
          (rewind_first cur row rest rows_are))
        (loop-Finishes first 0 start row rest refl
          (ap (λ (rows : List CursorRow). get_elem? rows 0) rows_are)
          (RowIs-moved cur (some 0) cols row (value row) this)
          (subst (λ n. At first n start) at_loop
            (moved-Runs prog cmps (length out) cur pc s h (some 0) (s.pc + 1)))
          (λ t runs.
            next-Finishes rest first 0 t (all_moved rest values) refl
              (behind_first first row rest rows_are, ap length rows_are ∙ omega arith) runs))
    where
      all_moved :
          (rest : List CursorRow)
          → All (λ row. RowIs cur cols row (value row)) rest
          → All (λ row. RowIs (record cur { pos = some 0 }) cols row (value row)) rest
      all_moved [] rows = tt
      all_moved (row ∷ rest) (this, rows) =
          (RowIs-moved cur (some 0) cols row (value row) this, all_moved rest rows)
