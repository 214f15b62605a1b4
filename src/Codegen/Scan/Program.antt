-- ===== src/Codegen/Scan/Program.antt =====
-- src/libchidb/codegen.c: the program of a SELECT that scans a table, address by address.
use chidb.Prelude.{
  ℕ, suc, ◌+◌, ◌*◌, ◌<◌, ◌≡◌, refl, sym, ap, subst, ◌∙◌, some, List, [], ◌∷◌, ◌++◌, arith,
  get_elem?, length, length-append, All,
}
use chidb.Run.{ok}
use chidb.Dbm.{Opcode, DbmOp, Stmt}
use chidb.Schema.{SchemaItem}
use chidb.Sql.{Column}
use chidb.Codegen.{op_of, literal_op, unpatched}
use chidb.Codegen.Conjuncts.{ResolvedCmp, filter_checks}
use chidb.Codegen.Layout.{SameMachine}
use chidb.Codegen.Scan.{
  codegen_select_scan-HasProgram, scan_program, opening, outputs, addr_next, closing,
}
use chidb.Codegen.Scan.Checked.{Lies, Lies-rest, Lies-left, Lies-right}
use chidb.Codegen.Scan.Values.{length-column_count}
use chidb.Codegen.Select.{output_columns, r_out_of, codegen_select_scan}
use chidb.Codegen.Scan.Instructions.{
  Reads, Loads, first_shown, IsOn, literal_op-Loads, read_op-Reads, rcol_op-Reads,
  filter_literals-at, length-filter_literals, length-filter_checks, length-output_columns,
  filter_checks-at, output_columns-at, column_names-named, All-get_elem?, r_out_of-first_shown,
}

-- With `n` comparisons and `m` columns that are shown: the literals are in the registers from 1 on, the column that is
-- compared is in the register behind them. A comparison that fails jumps to Next, Next to the first comparison, and
-- Rewind from an empty table behind Next.
pub record IsScan (tbl : SchemaItem) (cols : List Column) (out : List ℕ) (cmps : List ResolvedCmp)
    (t : Stmt) (n m : ℕ) : Type 0 where
  pub root_at : t.ops 0 ≡ op_of Opcode.integer tbl.root_page 0 0
  pub open_at : t.ops 1 ≡ op_of Opcode.open_read 0 0 (length cols)
  pub literals_at :
      (j : ℕ) (cmp : ResolvedCmp)
      → get_elem? cmps j ≡ some cmp
      → Loads (1 + j) cmp.lit (t.ops (2 + j))
  pub rewind_at : t.ops (2 + n) ≡ op_of Opcode.rewind 0 (5 + 3 * n + m) 0
  pub compared_at :
      (j : ℕ) (cmp : ResolvedCmp)
      → get_elem? cmps j ≡ some cmp
      → Reads cols cmp.col.idx (1 + n) (t.ops (3 + n + 2 * j))
  pub jumps_at :
      (j : ℕ) (cmp : ResolvedCmp)
      → get_elem? cmps j ≡ some cmp
      → t.ops (4 + n + 2 * j) ≡ op_of cmp.op (1 + j) (4 + 3 * n + m) (1 + n)
  pub shown_at :
      (j i : ℕ)
      → get_elem? out j ≡ some i
      → Reads cols i (first_shown n + j) (t.ops (3 + 3 * n + j))
  pub row_at : t.ops (3 + 3 * n + m) ≡ op_of Opcode.result_row (first_shown n) m 0
  pub next_at : t.ops (4 + 3 * n + m) ≡ op_of Opcode.next 0 (3 + n) 0
  pub close_at : t.ops (5 + 3 * n + m) ≡ op_of Opcode.close 0 0 0
  pub halt_at : t.ops (6 + 3 * n + m) ≡ op_of Opcode.halt 0 0 0
  pub end_is : t.end_op ≡ 7 + 3 * n + m
  pub row_size : (t.n_cols ≡ m) × (t.n_rr ≡ m) × (length t.cols ≡ m)
  pub names_are :
      (j i : ℕ) (c : Column)
      → get_elem? out j ≡ some i
      → get_elem? cols i ≡ some c
      → get_elem? t.cols j ≡ some c.name

module _ (tbl : SchemaItem) (cols : List Column) (out : List ℕ) (cmps : List ResolvedCmp) where
  abbrev prog : List DbmOp
  prog = scan_program tbl cols out cmps

  abbrev nxt : ℕ
  nxt = addr_next tbl cols out cmps

  abbrev before : List DbmOp
  before = opening tbl cols out cmps

  abbrev checks : List DbmOp
  checks = filter_checks cmps cols [] 1 (1 + length cmps) nxt

  abbrev shows : List DbmOp
  shows = outputs tbl cols out cmps

  abbrev ending : List DbmOp
  ending = closing tbl cols out cmps

  abbrev rewind_op : DbmOp
  rewind_op = op_of Opcode.rewind 0 (nxt + 1) 0

  length-before : length before ≡ 2 + length cmps
  length-before = omega (arith, length-filter_literals cmps 1)

  length-shows : length shows ≡ length out + 1
  length-shows = omega (
    arith,
    length-append (output_columns 0 cols out (r_out_of cmps))
        (op_of Opcode.result_row (r_out_of cmps) (length out) 0 ∷ []),
    length-output_columns cols out (r_out_of cmps),
  )

  nxt_is : nxt ≡ 4 + 3 * length cmps + length out
  nxt_is = omega (
    arith,
    length-before,
    length-shows,
    length-filter_checks cmps cols 1 (1 + length cmps) unpatched,
  )

  length-checks : length checks ≡ 2 * length cmps
  length-checks = length-filter_checks cmps cols 1 (1 + length cmps) nxt

  all_before : length (before ++ rewind_op ∷ checks) ≡ 3 + 3 * length cmps
  all_before =
      omega (arith, length-append before (rewind_op ∷ checks), length-before, length-checks)

  through_shows : length (before ++ rewind_op ∷ checks ++ shows) ≡ 4 + 3 * length cmps + length out
  through_shows =
      omega (arith, length-append (before ++ rewind_op ∷ checks) shows, all_before, length-shows)

  length-prog : length prog ≡ 7 + 3 * length cmps + length out
  length-prog =
      omega (arith, length-append (before ++ rewind_op ∷ checks ++ shows) ending, through_shows)

  whole : Lies prog 0 prog
  whole j x e = ap (get_elem? prog) (omega arith) ∙ e

  up_to_shows : Lies prog 0 (before ++ rewind_op ∷ checks ++ shows)
  up_to_shows = Lies-left prog 0 (before ++ rewind_op ∷ checks ++ shows) ending whole

  up_to_checks : Lies prog 0 (before ++ rewind_op ∷ checks)
  up_to_checks = Lies-left prog 0 (before ++ rewind_op ∷ checks) shows up_to_shows

  opening_at : Lies prog 0 before
  opening_at = Lies-left prog 0 before (rewind_op ∷ checks) up_to_checks

  from_rewind : Lies prog (2 + length cmps) (rewind_op ∷ checks)
  from_rewind =
      subst (λ n. Lies prog n (rewind_op ∷ checks)) (omega (arith, length-before))
        (Lies-right prog 0 before (rewind_op ∷ checks) up_to_checks)

  from_checks : Lies prog (3 + length cmps) checks
  from_checks =
      subst (λ n. Lies prog n checks) (omega arith)
        (Lies-rest prog (2 + length cmps) rewind_op checks from_rewind)

  from_shows : Lies prog (3 + 3 * length cmps) shows
  from_shows =
      subst (λ n. Lies prog n shows) (omega (arith, all_before))
        (Lies-right prog 0 (before ++ rewind_op ∷ checks) shows up_to_shows)

  from_ending : Lies prog (4 + 3 * length cmps + length out) ending
  from_ending =
      subst (λ n. Lies prog n ending) (omega (arith, through_shows))
        (Lies-right prog 0 (before ++ rewind_op ∷ checks ++ shows) ending whole)

  shown_columns : Lies prog (3 + 3 * length cmps) (output_columns 0 cols out (r_out_of cmps))
  shown_columns =
      Lies-left prog (3 + 3 * length cmps) (output_columns 0 cols out (r_out_of cmps))
        (op_of Opcode.result_row (r_out_of cmps) (length out) 0 ∷ []) from_shows

  result_row_at :
      Lies prog
        (3 + 3 * length cmps + length out)
        (op_of Opcode.result_row (r_out_of cmps) (length out) 0 ∷ [])
  result_row_at =
      subst (λ n. Lies prog n (op_of Opcode.result_row (r_out_of cmps) (length out) 0 ∷ []))
        (omega (arith, length-output_columns cols out (r_out_of cmps)))
        (Lies-right prog (3 + 3 * length cmps) (output_columns 0 cols out (r_out_of cmps))
          (op_of Opcode.result_row (r_out_of cmps) (length out) 0 ∷ []) from_shows)

  module _ (t : Stmt) (ops_are : (i : ℕ) (x : DbmOp) → get_elem? prog i ≡ some x → t.ops i ≡ x)
      (in_range : All (λ i. i < length cols) out) (on : All (IsOn cols) cmps) where
    -- What stands at an address of a part of the program.
    op_at :
        (pc j address : ℕ) (ops : List DbmOp) (x : DbmOp)
        → Lies prog pc ops
        → get_elem? ops j ≡ some x
        → address ≡ pc + j
        → t.ops address ≡ x
    op_at pc j address ops x lies e same = ops_are address x (ap (get_elem? prog) same ∙ lies j x e)

    literal_at :
        (j : ℕ) (cmp : ResolvedCmp)
        → get_elem? cmps j ≡ some cmp
        → Loads (1 + j) cmp.lit (t.ops (2 + j))
    literal_at j cmp e =
        subst (Loads (1 + j) cmp.lit)
          (sym (
            op_at 0 (suc (suc j)) (2 + j) before (literal_op cmp.lit (1 + j)) opening_at
              (filter_literals-at cmps 1 j cmp e) (omega arith)))
          (literal_op-Loads cmp.lit (1 + j))

    check_at :
        (j : ℕ) (cmp : ResolvedCmp)
        → get_elem? cmps j ≡ some cmp
        → Reads cols cmp.col.idx (1 + length cmps) (t.ops (3 + length cmps + 2 * j))
          × (t.ops (4 + length cmps + 2 * j)
              ≡ op_of cmp.op (1 + j) (4 + 3 * length cmps + length out) (1 + length cmps))
    check_at j cmp e =
        let (reads, jumps) =
          filter_checks-at cmps cols 1 (1 + length cmps) nxt prog (3 + length cmps) from_checks j
            cmp e in
        (
          subst (Reads cols cmp.col.idx (1 + length cmps)) (sym (ops_are _ _ reads)) (
              rcol_op-Reads cols cmp (1 + length cmps) (All-get_elem? (IsOn cols) cmps j cmp on e)),
          ap t.ops (omega arith)
              ∙ ops_are _ _ jumps
              ∙ ap (λ (n : ℕ). op_of cmp.op (1 + j) n (1 + length cmps)) nxt_is,
        )

    column_shown :
        (j i : ℕ)
        → get_elem? out j ≡ some i
        → Reads cols i (first_shown (length cmps) + j) (t.ops (3 + 3 * length cmps + j))
    column_shown j i e =
        subst (λ (r : ℕ). Reads cols i (r + j) (t.ops (3 + 3 * length cmps + j)))
          (r_out_of-first_shown cmps)
          (subst (Reads cols i (r_out_of cmps + j))
            (sym
              (ops_are _ _ (shown_columns j _ (output_columns-at cols out (r_out_of cmps) j i e))))
            (read_op-Reads cols i (r_out_of cmps + j)
              (All-get_elem? (λ i. i < length cols) out j i in_range e)))

  -- A SELECT that scans a table, with columns that are there and comparisons of columns of the table, is compiled
  -- without an error into a statement without a program, to the program that `IsScan` gives address by address: the
  -- instruction that reads each column (Key for a column that is PRIMARY KEY, else Column) and that loads each literal,
  -- their registers, and the target of every jump. The columns that are shown have their names. The file, the program
  -- counter, the registers and the cursors are as before.
  pub codegen_select_scan-IsScan :
      (s : Stmt)
      → s.end_op ≡ 0
      → All (λ i. i < length cols) out
      → All (IsOn cols) cmps
      → (t : Stmt) × (codegen_select_scan s tbl cols out cmps ≡ ok tt t)
        × IsScan tbl cols out cmps t (length cmps) (length out)
        × SameMachine s t
  codegen_select_scan-IsScan s empty in_range on =
      let (names, named, count, names_are) = column_names-named cols out in_range in
      let (u, compiled, has) =
        codegen_select_scan-HasProgram tbl cols out cmps s empty names named in
      let t : Stmt = record u { n_cols = length out; n_rr = length out; cols = names } in
      (
        t,
        compiled,
        record {
          root_at = op_at t has.ops_are in_range on 0 0 0 before _ opening_at refl (omega arith);
          open_at =
              op_at t has.ops_are in_range on 0 1 1 before _ opening_at refl (omega arith)
              ∙ ap (λ (n : ℕ). op_of Opcode.open_read 0 0 n) (length-column_count cols);
          literals_at = literal_at t has.ops_are in_range on;
          rewind_at =
              op_at t has.ops_are in_range on (2 + length cmps) 0 (2 + length cmps)
                (rewind_op ∷ checks) rewind_op from_rewind refl (omega arith)
              ∙ ap (λ (n : ℕ). op_of Opcode.rewind 0 n 0) (omega (arith, nxt_is));
          compared_at = λ j cmp e. (check_at t has.ops_are in_range on j cmp e).0;
          jumps_at = λ j cmp e. (check_at t has.ops_are in_range on j cmp e).1;
          shown_at = column_shown t has.ops_are in_range on;
          row_at =
              op_at t has.ops_are in_range on (3 + 3 * length cmps + length out) 0
                (3 + 3 * length cmps + length out)
                (op_of Opcode.result_row (r_out_of cmps) (length out) 0 ∷ []) _ result_row_at refl
                (omega arith)
              ∙ ap (λ (r : ℕ). op_of Opcode.result_row r (length out) 0)
                  (r_out_of-first_shown cmps);
          next_at =
              op_at t has.ops_are in_range on (4 + 3 * length cmps + length out) 0
                (4 + 3 * length cmps + length out) ending _ from_ending refl (omega arith)
              ∙ ap (λ (n : ℕ). op_of Opcode.next 0 n 0) (omega (arith, length-before));
          close_at =
              op_at t has.ops_are in_range on (4 + 3 * length cmps + length out) 1
                (5 + 3 * length cmps + length out) ending _ from_ending refl (omega arith);
          halt_at =
              op_at t has.ops_are in_range on (4 + 3 * length cmps + length out) 2
                (6 + 3 * length cmps + length out) ending _ from_ending refl (omega arith);
          end_is = has.end_is ∙ length-prog;
          row_size = (refl, refl, count);
          names_are = names_are;
        },
        record {
          pager = has.machine.pager;
          pc = has.machine.pc;
          reg = has.machine.reg;
          n_reg = has.machine.n_reg;
          cursors = has.machine.cursors;
          n_cursors = has.machine.n_cursors;
        },
      )
