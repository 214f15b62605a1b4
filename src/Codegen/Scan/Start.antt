-- ===== src/Codegen/Scan/Start.antt =====
-- src/libchidb/codegen.c, dbm.c: a compiled scan, from its first instruction on.
use chidb.Prelude.{
  ℕ, suc, ◌+◌, ◌^◌, ◌≤◌, ◌<◌, ◌≡◌, refl, sym, ap, subst, ◌∙◌, true, false, none, some, List, [],
  ◌∷◌, ◌++◌, arith, ltb, leb, get_elem?, length, length-append, All,
}
use chidb.Run.{Run, ok}
use chidb.Cursor.{CursorRow, Cursor, CursorType, cursor_open}
use chidb.Dbm.{
  Opcode, DbmOp, Register, Stmt, get_reg, int_value, get_int, ensure_cur, set_cur, set_at, is_open,
  with_pager, on_pager,
}
use chidb.Dbm.Ops.{op_integer, op_open, dispatch, op_handle}
use chidb.Dbm.Exec.Stops.{at_next}
use chidb.Schema.{SchemaItem}
use chidb.Sql.{Condition, Column}
use chidb.Optimizer.Meaning.{Value}
use chidb.Codegen.{op_of, unpatched, column_count}
use chidb.Codegen.Conjuncts.{ResolvedCmp, filter_literals, filter_checks}
use chidb.Codegen.Layout.{get_elem?-lt}
use chidb.Codegen.Scan.{scan_program, opening, outputs, addr_loop, addr_next, closing}
use chidb.Codegen.Scan.Check.{Runs}
use chidb.Codegen.Scan.Checked.{Lies, Lies-first, Lies-rest, Lies-left, Lies-right, Resolved}
use chidb.Codegen.Scan.Load.{Resolved-HasLiteral, load-Finishes}
use chidb.Codegen.Scan.Loop.{Answers, ResultRows, Finishes-ResultRows, ScanLoop, query_results}
use chidb.Codegen.Scan.Row.{RowIs}
use chidb.Codegen.Scan.State.{put_reg-Puts, Finishes, step-Finishes}
use chidb.Codegen.Scan.Values.{length-column_count}
use chidb.Codegen.Scan.Table.{rewind-Finishes}
use chidb.Codegen.Select.{r_out_of}

length-filter_checks :
    (cmps : List ResolvedCmp) (cols : List Column) (r_lit r_tmp a b : ℕ)
    → length (filter_checks cmps cols [] r_lit r_tmp a)
      ≡ length (filter_checks cmps cols [] r_lit r_tmp b)
unfolding filter_checks
length-filter_checks [] cols r_lit r_tmp a b = refl
length-filter_checks (cmp ∷ cmps) cols r_lit r_tmp a b =
    ap (λ (n : ℕ). suc (suc n)) (length-filter_checks cmps cols (r_lit + 1) r_tmp a b)

-- The cursor of a table with these rows, as it is opened.
abbrev pub table_cursor : ℕ → List CursorRow → Cursor
table_cursor root rs = record {
  type = CursorType.read;
  root = root;
  is_index = false;
  rows = rs;
  pos = none;
}

-- The sizes that the machine's numbers hold.
pub record Fits (cols : List Column) (out : List ℕ) (cmps : List ResolvedCmp) : Type 0 where
  pub few : length cols ≤ 2 ^ 8
  pub in_range : All (λ i. i < length cols) out
  pub small : length cmps + length out + 2 < 2 ^ 31

module _ (tbl : SchemaItem) (cols : List Column) (out : List ℕ) (cmps : List ResolvedCmp)
    (fits : Fits cols out cmps) where
  abbrev prog : List DbmOp
  prog = scan_program tbl cols out cmps

  abbrev nxt : ℕ
  nxt = addr_next tbl cols out cmps

  abbrev before : List DbmOp
  before = opening tbl cols out cmps

  abbrev checks : List DbmOp
  checks = filter_checks cmps cols [] 1 (1 + length cmps) nxt

  abbrev rewind_op : DbmOp
  rewind_op = op_of Opcode.rewind 0 (nxt + 1) 0

  abbrev shows : List DbmOp
  shows = outputs tbl cols out cmps

  whole : Lies prog 0 prog
  whole j x e = ap (get_elem? prog) (omega arith) ∙ e

  through_outputs : Lies prog 0 (before ++ rewind_op ∷ checks ++ shows)
  through_outputs =
      Lies-left prog 0 (before ++ rewind_op ∷ checks ++ shows) (closing tbl cols out cmps) whole

  through_checks : Lies prog 0 (before ++ rewind_op ∷ checks)
  through_checks = Lies-left prog 0 (before ++ rewind_op ∷ checks) shows through_outputs

  from_rewind : Lies prog (0 + length before) (rewind_op ∷ checks)
  from_rewind = Lies-right prog 0 before (rewind_op ∷ checks) through_checks

  check_count : length checks ≡ length (filter_checks cmps cols [] 1 (1 + length cmps) unpatched)
  check_count = length-filter_checks cmps cols 1 (1 + length cmps) nxt unpatched

  r_out-lt : (cs : List ResolvedCmp) → (length cs < r_out_of cs) × (r_out_of cs ≤ length cs + 2)
  r_out-lt [] = (omega arith, omega arith)
  r_out-lt (c ∷ cs) = (omega arith, omega arith)

  scan_loop : ScanLoop prog cmps cols out (addr_loop tbl cols out cmps) nxt (r_out_of cmps)
  scan_loop = record {
    few = omega (arith, fits.few, length-column_count cols);
    in_range = subst (λ n. All (λ i. i < n) out) (sym (length-column_count cols)) fits.in_range;
    behind = (r_out-lt cmps).0;
    small = omega (arith, fits.small);
    small_out = omega (arith, fits.small, (r_out-lt cmps).1);
    checks_at =
        subst (λ n. Lies prog n checks) (omega arith)
          (Lies-rest prog (0 + length before) rewind_op checks from_rewind);
    outputs_at =
        subst (λ n. Lies prog n shows) (omega (arith, length-append before (rewind_op ∷ checks)))
          (Lies-right prog 0 (before ++ rewind_op ∷ checks) shows through_outputs);
    next_is = omega (arith, check_count);
    closing_at =
        subst (λ n. Lies prog n (closing tbl cols out cmps))
          (omega (
            arith,
            check_count,
            length-append (before ++ rewind_op ∷ checks) shows,
            length-append before (rewind_op ∷ checks),
          ))
          (Lies-right prog 0 (before ++ rewind_op ∷ checks ++ shows) (closing tbl cols out cmps)
            whole);
  }

  module _ (s : Stmt) (pc_is : s.pc ≡ 0) (slots : 0 < s.n_cursors)
      (ops_are : (i : ℕ) (x : DbmOp) → get_elem? prog i ≡ some x → s.ops i ≡ x)
      (end_is : s.end_op ≡ length prog) (count_is : s.n_rr ≡ length out)
      (cols_is : s.n_cols ≡ length out) (depth : ℕ) (rs : List CursorRow)
      (opens : cursor_open depth tbl.root_page CursorType.read s.pager
        ≡ ok (table_cursor tbl.root_page rs) s.pager) where
    abbrev root_op : DbmOp
    root_op = op_of Opcode.integer tbl.root_page 0 0

    abbrev open_op : DbmOp
    open_op = op_of Opcode.open_read 0 0 (column_count cols)

    -- The statement after OpenRead, with the root page in register 0.
    abbrev opened : (ℕ → Register) → ℕ → Stmt
    opened f n = record s {
      pc = 2;
      reg = f;
      n_reg = n;
      cursors = set_at s.cursors 0 (some (table_cursor tbl.root_page rs));
    }

    open_op-opened :
        (f : ℕ → Register) (n : ℕ)
        → 0 < n
        → f 0 ≡ Register.int32 tbl.root_page
        → op_handle depth open_op (record s { pc = 1 + 1; reg = f; n_reg = n }) ≡ ok tt (opened f n)
    unfolding op_handle dispatch op_open ensure_cur get_int get_reg int_value on_pager with_pager
        set_cur
    open_op-opened f n there root_in =
        let ensured : leb s.n_cursors 0 ≡ false = ground (arith, slots) in
        let in_regs : ltb 0 n ≡ true = ground (arith, there) in
        let in_slots : ltb 0 s.n_cursors ≡ true = ground (arith, slots) in
        rw ensured (rw in_regs (rw root_in (rw opens (rw in_slots refl))))

    opened-Runs :
        (f : ℕ → Register) (n : ℕ)
        → Runs prog [] (length out) (table_cursor tbl.root_page rs) 2 (opened f n)
    unfolding set_at is_open
    opened-Runs f n = record {
      pc_is = refl;
      ops_are = ops_are;
      end_is = end_is;
      count_is = count_is;
      cols_is = cols_is;
      slot = refl;
      slots = slots;
      opened = refl;
      literals = λ j cmp w e g. absurd cc;
    }

    module _ (conds : List Condition) (resolved : Resolved cols conds cmps)
        (value : CursorRow → ℕ → Value)
        (values : All (λ row. RowIs (table_cursor tbl.root_page rs) cols row (value row)) rs) where
      abbrev Gives : Run Stmt (Unit {0}) → Type 0
      Gives = Answers depth (query_results cols out conds value rs)

      opening_at : Lies prog 0 before
      opening_at = Lies-left prog 0 before (rewind_op ∷ checks) through_checks

      opened-Finishes : (f : ℕ → Register) (n : ℕ) → Finishes depth Gives (opened f n)
      opened-Finishes f n =
          load-Finishes prog (length out) (table_cursor tbl.root_page rs) depth Gives cmps [] 2 1
            (opened f n) refl (opened-Runs f n)
            (Lies-rest prog 1 open_op (filter_literals cmps 1)
              (Lies-rest prog 0 root_op (open_op ∷ filter_literals cmps 1) opening_at))
            (Resolved-HasLiteral cols conds cmps resolved) (omega (arith, fits.small))
            (λ t runs.
              rewind-Finishes prog cmps cols out (addr_loop tbl cols out cmps) nxt (r_out_of cmps)
                scan_loop conds resolved value depth rs (table_cursor tbl.root_page rs)
                (length before) t refl values refl
                (Lies-first prog (length before) rewind_op checks
                  (subst (λ n. Lies prog n (rewind_op ∷ checks)) (omega arith) from_rewind))
                (subst (λ n. Runs prog cmps (length out) (table_cursor tbl.root_page rs) n t)
                  (omega arith) runs))

      pub start-ResultRows : ResultRows depth s (query_results cols out conds value rs)
      unfolding op_handle dispatch op_integer
      start-ResultRows =
          let (f, n, e, p) =
            put_reg-Puts (at_next s) 0 (Register.int32 tbl.root_page) (omega arith) in
          let root_at : get_elem? prog 0 ≡ some root_op =
            Lies-first prog 0 root_op (open_op ∷ filter_literals cmps 1) opening_at in
          let open_at : get_elem? prog 1 ≡ some open_op =
            Lies-first prog 1 open_op (filter_literals cmps 1)
              (Lies-rest prog 0 root_op (open_op ∷ filter_literals cmps 1) opening_at) in
          Finishes-ResultRows depth (query_results cols out conds value rs) s (
            step-Finishes depth prog Gives s root_op ops_are (ap (get_elem? prog) pc_is ∙ root_at)
              (omega (arith, pc_is, end_is, get_elem?-lt prog 0 root_op root_at))
              (record s { pc = 1; reg = f; n_reg = n })
              (e ∙ ap (λ (m : ℕ). ok tt (record s { pc = m + 1; reg = f; n_reg = n })) pc_is)
              (step-Finishes depth prog Gives (record s { pc = 1; reg = f; n_reg = n }) open_op
                ops_are open_at (omega (arith, end_is, get_elem?-lt prog 1 open_op open_at))
                (opened f n) (open_op-opened f n p.there p.new) (opened-Finishes f n)))
