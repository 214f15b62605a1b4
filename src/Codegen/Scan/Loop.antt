-- ===== src/Codegen/Scan/Loop.antt =====
-- src/libchidb/codegen.c, dbm.c: the loop of a compiled scan over the rows of a cursor.
use chidb.Prelude.{
  ℕ, zero, suc, ◌+◌, ◌^◌, ◌≤◌, ◌<◌, ◌≡◌, ◌⊎◌, refl, sym, ap, subst, ◌∙◌, inl, inr, Bool, true,
  false, Option, some, List, [], ◌∷◌, arith, if◌then◌else◌, get_elem?, length, All,
}
use chidb.Run.{Code, Run, ok, err}
use chidb.Cursor.{CursorRow, Cursor, cursor_close}
use chidb.Dbm.{Opcode, DbmOp, Stmt, set_cur, set_at, jump, jump_if}
use chidb.Dbm.Ops.{move_cursor, op_close, op_halt, row_record, dispatch, op_handle}
use chidb.Dbm.Exec.{finish, ended, exec}
use chidb.Dbm.Exec.Stops.{at_next, loop-done}
use chidb.Api.{row_register}
use chidb.Sql.{Condition, Column}
use chidb.Optimizer.Meaning.{Value}
use chidb.Codegen.{op_of, column_count}
use chidb.Codegen.Checks.{value_register}
use chidb.Codegen.Conjuncts.{ResolvedCmp, filter_checks}
use chidb.Codegen.Layout.{get_elem?-lt}
use chidb.Codegen.Scan.Check.{Runs, inside, here}
use chidb.Codegen.Scan.Checked.{Lies, Lies-first, Lies-rest}
use chidb.Codegen.Scan.Row.{RowIs, passes, cursor_in}
use chidb.Codegen.Scan.State.{InRegister, Finishes, add_fuel, step-Finishes, Running}
use chidb.Codegen.Select.{output_ops}

-- The statement has a result row with the values.
abbrev pub Shows : Stmt → List Value → Type 0
Shows s vs =
    (s.n_rr ≡ length vs)
    × ((j : ℕ) (v : Value) → get_elem? vs j ≡ some v → row_register s j ≡ some (value_register v))

-- Runs, each with enough fuel, that give result rows with these values, one after the other, and then end.
pub data ResultRows (depth : ℕ) : Stmt → List (List Value) → Type 0 where
  no_rows :
      {s s' : Stmt} (n : ℕ)
      → ((k : ℕ) → exec depth (add_fuel n k) s ≡ err Code.done s')
      → ResultRows depth s []
  one_row :
      {s s' : Stmt} {vs : List Value} {rest : List (List Value)} (n : ℕ)
      → ((k : ℕ) → exec depth (add_fuel n k) s ≡ err Code.row s')
      → Shows s' vs
      → ResultRows depth s' rest
      → ResultRows depth s (vs ∷ rest)

-- The end of one run that gives the first of the rows, or ends where there are none.
abbrev pub Answers : ℕ → List (List Value) → Run Stmt (Unit {0}) → Type 0
Answers depth rows r =
    ((t : Stmt) × (r ≡ ok tt t) × (rows ≡ []) × (t.n_rr ≡ t.n_cols))
    ⊎ ((t : Stmt) × (vs : List Value) × (rest : List (List Value)) × (r ≡ err Code.row t)
        × (rows ≡ vs ∷ rest)
        × (t.n_rr ≡ t.n_cols)
        × Shows t vs
        × ResultRows depth t rest)

pub Finishes-ResultRows :
    (depth : ℕ) (rows : List (List Value)) (s : Stmt)
    → Finishes depth (Answers depth rows) s
    → ResultRows depth s rows
unfolding exec ended finish
Finishes-ResultRows depth rows s (n, r, runs, inl (t, r_is, rows_are, count)) =
    subst (ResultRows depth s) (sym rows_are)
      (no_rows {s' = t} n (λ k. ground (arith, runs k, r_is, count)))
Finishes-ResultRows depth rows s
      (n, r, runs, inr (t, vs, rest, r_is, rows_are, count, shows, later)) =
    subst (ResultRows depth s) (sym rows_are)
      (one_row {s' = t} n (λ k. ground (arith, runs k, r_is, count)) shows later)

pub RowIs-moved :
    (cur : Cursor) (pos : Option ℕ) (cols : List Column) (row : CursorRow) (vs : ℕ → Value)
    → RowIs cur cols row vs
    → RowIs (record cur { pos = pos }) cols row vs
unfolding row_record
RowIs-moved cur pos cols row vs h = record { columns = h.columns; types = h.types }

module _ (prog : List DbmOp) (cmps : List ResolvedCmp) (nout : ℕ) (cur : Cursor) (pc : ℕ) (s : Stmt)
    (h : Running prog cmps nout cur pc s) where
  -- The statement after a move of the cursor, at an address.
  abbrev pub moved : Option ℕ → ℕ → Stmt
  moved pos address = record s {
    pc = address;
    cursors = set_at s.cursors 0 (some (record cur { pos = pos }));
  }

  pub moved-Runs :
      (pos : Option ℕ) (address : ℕ)
      → Runs prog cmps nout (record cur { pos = pos }) address (moved pos address)
  unfolding set_at
  moved-Runs pos address = record {
    pc_is = refl;
    ops_are = h.ops_are;
    end_is = h.end_is;
    count_is = h.count_is;
    cols_is = h.cols_is;
    slot = refl;
    slots = h.slots;
    opened = h.opened;
    literals = λ j cmp w e g.
        let old : InRegister s (1 + j) (value_register w) = h.literals j cmp w e g in
        record { there = old.there; small = old.small; value = old.value };
  }

  pub move_cursor-moved :
      (move : Cursor → Bool × Cursor) (op : DbmOp) (b : Bool) (pos : Option ℕ)
      → op.p1 ≡ 0
      → move cur ≡ (b, record cur { pos = pos })
      → move_cursor move true op (at_next s) ≡ ok tt (moved pos (if b then op.p2 else s.pc + 1))
  unfolding move_cursor set_cur jump_if jump
  move_cursor-moved move op true pos p1_is e =
      rw (p1_is) (rw (cursor_in prog cmps nout cur pc s h) (rw (e) (ground (arith, h.slots))))
  move_cursor-moved move op false pos p1_is e =
      rw (p1_is) (rw (cursor_in prog cmps nout cur pc s h) (rw (e) (ground (arith, h.slots))))

  -- From Close on.
  pub close-Finishes :
      (depth : ℕ)
      → Lies prog pc (op_of Opcode.close 0 0 0 ∷ op_of Opcode.halt 0 0 0 ∷ [])
      → Finishes depth (Answers depth []) s
  unfolding op_handle dispatch op_close op_halt set_cur
  close-Finishes depth lies =
      let close_op : DbmOp = op_of Opcode.close 0 0 0 in
      let halt_op : DbmOp = op_of Opcode.halt 0 0 0 in
      let closed : Stmt = record s {
        pc = s.pc + 1;
        cursors = set_at s.cursors 0 (some (cursor_close cur));
      } in
      let done : Stmt = record s {
        pc = s.end_op;
        cursors = set_at s.cursors 0 (some (cursor_close cur));
      } in
      let close_at : get_elem? prog pc ≡ some close_op =
        Lies-first prog pc close_op (halt_op ∷ []) lies in
      let halt_at : get_elem? prog (pc + 1) ≡ some halt_op =
        Lies-first prog (pc + 1) halt_op [] (Lies-rest prog pc close_op (halt_op ∷ []) lies) in
      step-Finishes depth prog (Answers depth []) s close_op h.ops_are
        (here prog cmps nout cur pc s h close_op close_at)
        (inside prog cmps nout cur pc s h close_op close_at) closed
        (rw (cursor_in prog cmps nout cur pc s h) (ground (arith, h.slots)))
        (step-Finishes depth prog (Answers depth []) closed halt_op h.ops_are
          (ap (get_elem? prog) (ap (λ (n : ℕ). n + 1) h.pc_is) ∙ halt_at)
          (omega (arith, h.pc_is, h.end_is, get_elem?-lt prog (pc + 1) halt_op halt_at)) done refl
          (
            1,
            ok tt done,
            λ k. loop-done depth k done (omega arith),
            inl (done, refl, refl, h.count_is ∙ sym h.cols_is),
          ))

-- A query on one table: its program and where the parts of the loop are.
pub record ScanLoop (prog : List DbmOp) (cmps : List ResolvedCmp) (cols : List Column)
    (out : List ℕ) (loop nxt r_out : ℕ) : Type 0 where
  pub few : column_count cols ≤ 2 ^ 8
  pub in_range : All (λ i. i < column_count cols) out
  pub behind : length cmps < r_out
  pub small : 1 + length cmps < 2 ^ 31
  pub small_out : r_out + length out ≤ 2 ^ 31
  pub checks_at : Lies prog loop (filter_checks cmps cols [] 1 (1 + length cmps) nxt)
  pub outputs_at :
      Lies prog
        (loop + length (filter_checks cmps cols [] 1 (1 + length cmps) nxt))
        (output_ops 0 cols out r_out)
  pub next_is :
      nxt
      ≡ loop
        + length (filter_checks cmps cols [] 1 (1 + length cmps) nxt)
        + length (output_ops 0 cols out r_out)
  pub closing_at :
      Lies prog nxt
        (op_of Opcode.next 0 loop 0 ∷ op_of Opcode.close 0 0 0 ∷ op_of Opcode.halt 0 0 0 ∷ [])

abbrev pub values_of : (ℕ → Value) → List ℕ → List Value
values_of vs [] = []
values_of vs (i ∷ is) = vs i ∷ values_of vs is

-- The rows of the query: those that pass all conditions, each with the columns that are asked for.
module _ (cols : List Column) (out : List ℕ) (conds : List Condition)
    (value : CursorRow → ℕ → Value) where
  abbrev pub query_results : List CursorRow → List (List Value)
  query_results [] = []
  query_results (row ∷ rows) =
      let rest = query_results rows in
      if passes cols (value row) conds then values_of (value row) out ∷ rest else rest

pub get_elem?-values_of :
    (vs : ℕ → Value) (out : List ℕ) (j : ℕ) (v : Value)
    → get_elem? (values_of vs out) j ≡ some v
    → (i : ℕ) × (get_elem? out j ≡ some i) × (vs i ≡ v)
get_elem?-values_of vs [] j v e = absurd cc
get_elem?-values_of vs (i ∷ is) zero v e = (i, refl, cc)
get_elem?-values_of vs (i ∷ is) (suc j) v e = get_elem?-values_of vs is j v e

pub length-values_of : (vs : ℕ → Value) (out : List ℕ) → length (values_of vs out) ≡ length out
length-values_of vs [] = refl
length-values_of vs (i ∷ is) = ap suc (length-values_of vs is)
