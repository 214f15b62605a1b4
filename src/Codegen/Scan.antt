-- ===== src/Codegen/Scan.antt =====
-- src/libchidb/codegen.c: the program of a SELECT that scans a table.
pub mod Check
pub mod Checked
pub mod Loop
pub mod Table
mod Tests
pub mod Asked
pub mod Found
pub mod Program
pub mod Instructions
pub mod Query
pub mod Question
pub mod Values
pub mod Whole
pub mod Row
pub mod Sample
pub mod Load
pub mod Start
pub mod State
use mathlib.Core.List.{append_assoc, append-nil}
use chidb.Prelude.{
  ℕ, zero, suc, ◌+◌, ◌≡◌, refl, sym, ap, subst, ◌∙◌, Option, some, List, [], ◌∷◌, ◌++◌, arith,
  length, get_elem?, length-append,
}
use chidb.Run.{Run, ok}
use chidb.Dbm.{Opcode, DbmOp, Stmt}
use chidb.Schema.{SchemaItem}
use chidb.Sql.{Column}
use chidb.Codegen.{Emitter, emit, emits, patch, patch_all, op_of, unpatched, column_count}
use chidb.Codegen.Conjuncts.{ResolvedCmp, rcol_op, filter_literals, filter_checks, check_addresses}
use chidb.Codegen.Create.{start}
use chidb.Codegen.Layout.{
  SameMachine, Lays, set_target, set_targets, emit-Lays, emits-Lays, patch-Lays, patch_all-Lays,
}
use chidb.Codegen.Select.{
  output_ops, column_names, set_output_columns, r_tmp_of, r_out_of, codegen_select_scan,
}

-- The statement holds the program; its registers and cursors are those of `s`.
pub record HasProgram (s : Stmt) (xs : List DbmOp) (t : Stmt) : Type 0 where
  pub end_is : t.end_op ≡ length xs
  pub ops_are : (i : ℕ) (x : DbmOp) → get_elem? xs i ≡ some x → t.ops i ≡ x
  pub machine : SameMachine s t

set_target-append :
    (xs ys : List DbmOp) (x : DbmOp) (target : ℕ)
    → set_target (xs ++ x ∷ ys) (length xs) target ≡ xs ++ record x { p2 = target } ∷ ys
set_target-append [] ys x target = refl
set_target-append (z ∷ zs) ys x target =
    ap (λ (l : List DbmOp). z ∷ l) (set_target-append zs ys x target)

module _ (tbl : SchemaItem) (cols : List Column) (out : List ℕ) (cmps : List ResolvedCmp) where
  abbrev checks : ℕ → List DbmOp
  checks target = filter_checks cmps cols [] 1 (r_tmp_of cmps) target

  abbrev pub outputs : List DbmOp
  outputs = output_ops 0 cols out (r_out_of cmps)

  -- What comes before the loop.
  abbrev pub opening : List DbmOp
  opening =
      op_of Opcode.integer tbl.root_page 0 0
      ∷ op_of Opcode.open_read 0 0 (column_count cols)
      ∷ filter_literals cmps 1

  abbrev pub addr_loop : ℕ
  addr_loop = length opening + 1

  abbrev pub addr_next : ℕ
  addr_next = addr_loop + length (checks unpatched) + length outputs

  abbrev pub closing : List DbmOp
  closing =
      op_of Opcode.next 0 addr_loop 0 ∷ op_of Opcode.close 0 0 0 ∷ op_of Opcode.halt 0 0 0 ∷ []

  -- Every jump has its target: a check goes to Next, Next to the first check and Rewind behind Next.
  abbrev pub scan_program : List DbmOp
  scan_program =
      opening ++ op_of Opcode.rewind 0 (addr_next + 1) 0 ∷ checks addr_next ++ outputs ++ closing

set_target_behind :
    (xs ys : List DbmOp) (x y : DbmOp) (target : ℕ)
    → set_target (xs ++ x ∷ y ∷ ys) (suc (length xs)) target
      ≡ xs ++ x ∷ record y { p2 = target } ∷ ys
set_target_behind [] ys x y target = refl
set_target_behind (z ∷ zs) ys x y target =
    ap (λ (l : List DbmOp). z ∷ l) (set_target_behind zs ys x y target)

-- The checks with their target, in a program in which it was not known.
set_targets-filter_checks :
    (cmps : List ResolvedCmp) (cols : List Column) (r_lit r_tmp target : ℕ) (xs ys : List DbmOp)
    → set_targets
        (xs ++ (filter_checks cmps cols [] r_lit r_tmp unpatched ++ ys))
        (check_addresses cmps (length xs))
        target
      ≡ xs ++ (filter_checks cmps cols [] r_lit r_tmp target ++ ys)
unfolding filter_checks check_addresses
set_targets-filter_checks [] cols r_lit r_tmp target xs ys = refl
set_targets-filter_checks (cmp ∷ cmps) cols r_lit r_tmp target xs ys =
    let read : DbmOp = rcol_op cmp.col cols [] r_tmp in
    let jump : DbmOp = op_of cmp.op r_lit target r_tmp in
    let two : List DbmOp = xs ++ read ∷ jump ∷ [] in
    let rest : ℕ → List DbmOp = λ t. filter_checks cmps cols [] (r_lit + 1) r_tmp t ++ ys in
    let count : length xs + 1 + 1 ≡ length two =
      omega (arith, length-append xs (read ∷ jump ∷ [])) in
    ap
      (λ (address : ℕ).
        set_targets
          (set_target (xs ++ read ∷ op_of cmp.op r_lit unpatched r_tmp ∷ rest unpatched) address
            target)
          (check_addresses cmps (length xs + 1 + 1)) target)
      (omega arith)
    ∙ ap (λ (l : List DbmOp). set_targets l (check_addresses cmps (length xs + 1 + 1)) target)
        (set_target_behind xs (rest unpatched) read (op_of cmp.op r_lit unpatched r_tmp) target
          ∙ sym (append_assoc xs (read ∷ jump ∷ []) (rest unpatched)))
    ∙ ap (λ (pc : ℕ). set_targets (two ++ rest unpatched) (check_addresses cmps pc) target) count
    ∙ set_targets-filter_checks cmps cols (r_lit + 1) r_tmp target two ys
    ∙ append_assoc xs (read ∷ jump ∷ []) (rest target)

module _ (tbl : SchemaItem) (cols : List Column) (out : List ℕ) (cmps : List ResolvedCmp) where
  abbrev rewind_op : ℕ → DbmOp
  rewind_op target = op_of Opcode.rewind 0 target 0

  abbrev before : List DbmOp
  before = opening tbl cols out cmps ++ rewind_op unpatched ∷ []

  abbrev next_op : DbmOp
  next_op = op_of Opcode.next 0 (addr_loop tbl cols out cmps) 0

  abbrev emitted : List DbmOp
  emitted =
      before ++ checks tbl cols out cmps unpatched ++ outputs tbl cols out cmps ++ next_op ∷ []

  -- The list that is emitted, with its jumps patched, is the program.
  patched_list :
      set_target
          (set_targets emitted (check_addresses cmps (length before)) (addr_next tbl cols out cmps))
          (length (opening tbl cols out cmps))
          (addr_next tbl cols out cmps + 1)
        ++ op_of Opcode.close 0 0 0 ∷ op_of Opcode.halt 0 0 0 ∷ []
      ≡ scan_program tbl cols out cmps
  patched_list =
      let open_ops : List DbmOp = opening tbl cols out cmps in
      let c : ℕ → List DbmOp = checks tbl cols out cmps in
      let o : List DbmOp = outputs tbl cols out cmps in
      let target : ℕ = addr_next tbl cols out cmps in
      let tail : List DbmOp = o ++ next_op ∷ [] in
      let ends : List DbmOp = op_of Opcode.close 0 0 0 ∷ op_of Opcode.halt 0 0 0 ∷ [] in
      let marked : set_targets emitted (check_addresses cmps (length before)) target
          ≡ open_ops ++ rewind_op unpatched ∷ (c target ++ tail) =
        ap (λ (l : List DbmOp). set_targets l (check_addresses cmps (length before)) target)
          (simp append_assoc)
        ∙ set_targets-filter_checks cmps cols 1 (r_tmp_of cmps) target before tail
        ∙ append_assoc open_ops (rewind_op unpatched ∷ []) (c target ++ tail) in
      ap (λ (l : List DbmOp). set_target l (length open_ops) (target + 1) ++ ends) marked
      ∙ ap (λ (l : List DbmOp). l ++ ends)
          (set_target-append open_ops (c target ++ tail) (rewind_op unpatched) (target + 1))
      ∙ simp append_assoc

  module _ (s : Stmt) (empty : s.end_op ≡ 0) where
    start-Lays : Lays s [] (start s)
    start-Lays = record {
      pc_is = refl;
      end_is = empty;
      fits = omega arith;
      ops_are = λ i x e. absurd cc;
      machine = record {
        pager = refl;
        pc = refl;
        reg = refl;
        n_reg = refl;
        cursors = refl;
        n_cursors = refl;
      };
    }

    abbrev opened : Emitter
    opened = emits (start s) (opening tbl cols out cmps)

    abbrev rewound : Emitter
    rewound = emit opened (rewind_op unpatched)

    abbrev checked : Emitter
    checked = emits rewound (checks tbl cols out cmps unpatched)

    abbrev shown : Emitter
    shown = emits checked (outputs tbl cols out cmps)

    abbrev advanced : Emitter
    advanced = emit shown (op_of Opcode.next 0 rewound.pc 0)

    abbrev closed : Emitter
    closed =
        emits
          (patch (patch_all advanced (check_addresses cmps rewound.pc) shown.pc) opened.pc
            advanced.pc)
          (op_of Opcode.close 0 0 0 ∷ op_of Opcode.halt 0 0 0 ∷ [])

    opened-Lays : Lays s (opening tbl cols out cmps) opened
    opened-Lays = emits-Lays s [] (opening tbl cols out cmps) (start s) start-Lays

    rewound-Lays : Lays s before rewound
    rewound-Lays = emit-Lays s (opening tbl cols out cmps) opened (rewind_op unpatched) opened-Lays

    checked-Lays : Lays s (before ++ checks tbl cols out cmps unpatched) checked
    checked-Lays = emits-Lays s before (checks tbl cols out cmps unpatched) rewound rewound-Lays

    shown-Lays :
        Lays s (before ++ checks tbl cols out cmps unpatched ++ outputs tbl cols out cmps) shown
    shown-Lays =
        emits-Lays s (before ++ checks tbl cols out cmps unpatched) (outputs tbl cols out cmps)
          checked checked-Lays

    rewound_pc : rewound.pc ≡ addr_loop tbl cols out cmps
    rewound_pc =
        rewound-Lays.pc_is ∙ length-append (opening tbl cols out cmps) (rewind_op unpatched ∷ [])

    shown_pc : shown.pc ≡ addr_next tbl cols out cmps
    shown_pc = omega (
      arith,
      shown-Lays.pc_is,
      rewound_pc,
      rewound-Lays.pc_is,
      length-append (before ++ checks tbl cols out cmps unpatched) (outputs tbl cols out cmps),
      length-append before (checks tbl cols out cmps unpatched),
    )

    advanced-Lays : Lays s emitted advanced
    advanced-Lays =
        subst
          (λ pc.
            Lays s
              (before
                ++ checks tbl cols out cmps unpatched
                ++ outputs tbl cols out cmps
                ++ op_of Opcode.next 0 pc 0 ∷ [])
              advanced)
          rewound_pc (emit-Lays s _ shown (op_of Opcode.next 0 rewound.pc 0) shown-Lays)

    closed-Lays : Lays s (scan_program tbl cols out cmps) closed
    unfolding emit
    closed-Lays =
        let marked : Lays s (set_targets emitted (check_addresses cmps rewound.pc) shown.pc)
            (patch_all advanced (check_addresses cmps rewound.pc) shown.pc) =
          patch_all-Lays s emitted advanced (check_addresses cmps rewound.pc) shown.pc
            advanced-Lays in
        let list : ℕ → ℕ → ℕ → ℕ → List DbmOp = λ loop next first last.
          set_target (set_targets emitted (check_addresses cmps loop) next) first last
          ++ op_of Opcode.close 0 0 0 ∷ op_of Opcode.halt 0 0 0 ∷ [] in
        subst (λ xs. Lays s xs closed)
          (ap (λ (n : ℕ). list n shown.pc opened.pc advanced.pc) rewound-Lays.pc_is
            ∙ ap (λ (n : ℕ). list (length before) n opened.pc (n + 1)) shown_pc
            ∙ ap
                (λ (n : ℕ).
                  list (length before) (addr_next tbl cols out cmps) n
                    (addr_next tbl cols out cmps + 1))
                opened-Lays.pc_is
            ∙ patched_list)
          (emits-Lays s _ (op_of Opcode.close 0 0 0 ∷ op_of Opcode.halt 0 0 0 ∷ [])
            (patch (patch_all advanced (check_addresses cmps rewound.pc) shown.pc) opened.pc
              advanced.pc)
            (patch-Lays s _ (patch_all advanced (check_addresses cmps rewound.pc) shown.pc)
              opened.pc advanced.pc marked))

    -- The statement of a SELECT that scans a table, from a statement without a program: the program opens the
    -- table and loads the literals, and then for every row makes the checks, each with a jump to Next, reads the
    -- columns and gives the row. Rewind goes to the end from an empty table. Nothing else of the machine changes.
    pub codegen_select_scan-HasProgram :
        (names : List (List ℕ))
        → column_names cols out ≡ some names
        → (t : Stmt) × (codegen_select_scan s tbl cols out cmps
            ≡ ok tt (record t { n_cols = length out; n_rr = length out; cols = names }))
          × HasProgram s (scan_program tbl cols out cmps) t
    unfolding codegen_select_scan set_output_columns
    codegen_select_scan-HasProgram names e = (
      closed.stmt,
      rw e refl,
      record {
        end_is = closed-Lays.end_is;
        ops_are = closed-Lays.ops_are;
        machine = closed-Lays.machine;
      },
    )
