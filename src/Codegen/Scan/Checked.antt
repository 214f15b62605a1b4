-- ===== src/Codegen/Scan/Checked.antt =====
-- src/libchidb/codegen.c, dbm.c: all checks of a row and its output, run by the machine.
use chidb.Prelude.{
  ℕ, zero, suc, ◌+◌, ◌^◌, ◌≤◌, ◌<◌, ◌≡◌, refl, sym, ap, subst, ◌∙◌, inl, inr, Bool, true, false,
  none, some, List, [], ◌∷◌, ◌++◌, arith, get_elem?, length, All, Option-cases,
}
use chidb.Run.{Run}
use chidb.Cursor.{CursorRow, Cursor}
use chidb.Dbm.{DbmOp, Register, Stmt}
use chidb.Sql.{Condition, Column}
use chidb.Optimizer.Meaning.{Value}
use chidb.Codegen.{op_of, column_count, read_op}
use chidb.Codegen.Checks.{value_register}
use chidb.Codegen.Conjuncts.{
  ResolvedCmp, resolve_comparison, resolve_list, resolve_single_column, rcol_op, filter_checks,
}
use chidb.Codegen.Scan.Check.{Runs, read-Finishes, check-Finishes}
use chidb.Codegen.Scan.Row.{RowIs, passes}
use chidb.Codegen.Scan.State.{InRegister, Finishes}
use chidb.Codegen.Select.{output_columns}

-- The instructions are in the program from `pc` on.
abbrev pub Lies : List DbmOp → ℕ → List DbmOp → Type 0
Lies prog pc ops = (j : ℕ) (x : DbmOp) → get_elem? ops j ≡ some x → get_elem? prog (pc + j) ≡ some x

module _ (prog : List DbmOp) (pc : ℕ) where
  pub Lies-first :
      (op : DbmOp) (ops : List DbmOp) → Lies prog pc (op ∷ ops) → get_elem? prog pc ≡ some op
  Lies-first op ops h = ap (get_elem? prog) (omega arith) ∙ h 0 op refl

  pub Lies-rest : (op : DbmOp) (ops : List DbmOp) → Lies prog pc (op ∷ ops) → Lies prog (pc + 1) ops
  Lies-rest op ops h j x e = ap (get_elem? prog) (omega arith) ∙ h (suc j) x e

  pub Lies-left : (xs ys : List DbmOp) → Lies prog pc (xs ++ ys) → Lies prog pc xs
  Lies-left xs ys h j x e = h j x (extended xs j x e)
    where
      extended :
          (xs : List DbmOp) (j : ℕ) (x : DbmOp)
          → get_elem? xs j ≡ some x
          → get_elem? (xs ++ ys) j ≡ some x
      extended [] j x e = absurd cc
      extended (z ∷ zs) zero x e = e
      extended (z ∷ zs) (suc j) x e = extended zs j x e

pub get_elem?-behind :
    (xs ys : List DbmOp) (j : ℕ) → get_elem? (xs ++ ys) (length xs + j) ≡ get_elem? ys j
get_elem?-behind [] ys j = ap (get_elem? ys) (omega arith)
get_elem?-behind (z ∷ zs) ys j = ap (get_elem? (z ∷ (zs ++ ys))) index ∙ get_elem?-behind zs ys j
  where
    index : suc (length zs) + j ≡ suc (length zs + j)
    index = omega arith

pub Lies-right :
    (prog : List DbmOp) (pc : ℕ) (xs ys : List DbmOp)
    → Lies prog pc (xs ++ ys)
    → Lies prog (pc + length xs) ys
Lies-right prog pc xs ys h j x e =
    ap (get_elem? prog) (omega arith) ∙ h (length xs + j) x (get_elem?-behind xs ys j ∙ e)

-- The conditions and their comparisons, one by one.
pub data Resolved (cols : List Column) : List Condition → List ResolvedCmp → Type 0 where
  no_more : Resolved cols [] []
  one_more :
      {c : Condition} {cs : List Condition} {cmp : ResolvedCmp} {cmps : List ResolvedCmp}
      → resolve_comparison (resolve_single_column cols) c ≡ some cmp
      → Resolved cols cs cmps
      → Resolved cols (c ∷ cs) (cmp ∷ cmps)

pub resolve_list-Resolved :
    (cols : List Column) (cs : List Condition) (cmps : List ResolvedCmp)
    → resolve_list (resolve_single_column cols) cs ≡ some cmps
    → Resolved cols cs cmps
unfolding resolve_list
resolve_list-Resolved cols [] cmps e = subst (Resolved cols []) (some_inj e) no_more
  where
    some_inj : {a b : List ResolvedCmp} → some a ≡ some b → a ≡ b
    some_inj p = cc
resolve_list-Resolved cols (c ∷ cs) cmps e =
    elim (Option-cases (resolve_comparison (resolve_single_column cols) c)) [
      | inl n ↦ absurd (none-some (sym (rw (n, resolve_list) refl) ∙ e))
      | inr (cmp, r) ↦ elim (Option-cases (resolve_list (resolve_single_column cols) cs)) [
        | inl n ↦ absurd (none-some (sym (rw (r, n, resolve_list) refl) ∙ e))
        | inr (rest, rs) ↦
            subst (Resolved cols (c ∷ cs)) (some_inj (sym (rw (r, rs, resolve_list) refl) ∙ e))
              (one_more r (resolve_list-Resolved cols cs rest rs))
      ]
    ]
  where
    some_inj : {a b : List ResolvedCmp} → some a ≡ some b → a ≡ b
    some_inj p = cc

    none-some : ¬ (none ≡ some cmps)
    none-some p = cc

module _ (prog : List DbmOp) (cmps : List ResolvedCmp) (nout : ℕ) (cur : Cursor)
    (cols : List Column) (few : column_count cols ≤ 2 ^ 8) (row : CursorRow) (k : ℕ)
    (at : cur.pos ≡ some k) (row_is : get_elem? cur.rows k ≡ some row) (vs : ℕ → Value)
    (values : RowIs cur cols row vs) (depth : ℕ) (P : Run Stmt (Unit {0}) → Type 0) where
  abbrev all_pass : List Condition → Bool
  all_pass cs = passes cols vs cs

  -- The checks from the comparison `j` on: behind them if all conditions hold, or at the target.
  pub checks-Finishes :
      (cs : List Condition) (rest : List ResolvedCmp) (pc j r target : ℕ) (s : Stmt)
      → Resolved cols cs rest
      → r ≡ 1 + j
      → ((i : ℕ) → get_elem? cmps (j + i) ≡ get_elem? rest i)
      → 1 + length cmps < 2 ^ 31
      → Lies prog pc (filter_checks rest cols [] r (1 + length cmps) target)
      → Runs prog cmps nout cur pc s
      → ((s' : Stmt)
          → all_pass cs ≡ true
          → Runs prog cmps nout cur
              (pc + length (filter_checks rest cols [] r (1 + length cmps) target))
              s'
          → Finishes depth P s')
      → ((s' : Stmt)
          → all_pass cs ≡ false
          → Runs prog cmps nout cur target s'
          → Finishes depth P s')
      → Finishes depth P s
  unfolding filter_checks
  checks-Finishes cs rest pc j r target s no_more r_is same small lies h pass miss =
      pass s refl (subst (λ n. Runs prog cmps nout cur n s) (omega arith) h)
  checks-Finishes cs rest pc j r target s
        (one_more {c} {cs = cs'} {cmp} {cmps = rest'} compiles more) r_is same small lies h pass
        miss =
      let read : DbmOp = rcol_op cmp.col cols [] (1 + length cmps) in
      let jump : DbmOp = op_of cmp.op r target (1 + length cmps) in
      let ops : List DbmOp = filter_checks rest' cols [] (r + 1) (1 + length cmps) target in
      let lies' : Lies prog (pc + 1) (jump ∷ ops) = Lies-rest prog pc read (jump ∷ ops) lies in
      check-Finishes prog cmps nout cur cols few row k at row_is vs values depth P pc s c cmp j
        target h compiles (ap (get_elem? cmps) (omega arith) ∙ same 0)
        (Lies-first prog pc read (jump ∷ ops) lies)
        (Lies-first prog (pc + 1) jump ops lies'
          ∙ ap (λ (n : ℕ). some (op_of cmp.op n target (1 + length cmps))) r_is)
        small
        (λ s' e runs.
          checks-Finishes cs' rest' (pc + 1 + 1) (j + 1) (r + 1) target s' more (omega arith)
            (λ i. shifted i ∙ same (suc i)) small (Lies-rest prog (pc + 1) jump ops lies') runs
            (λ t all runs'.
              pass t (rw e all) (subst (λ n. Runs prog cmps nout cur n t) (two_more ops) runs'))
            (λ t some_false. miss t (rw e some_false)))
        (λ s' e runs. miss s' (rw e refl) runs)
    where
      two_more : (ops : List DbmOp) → pc + 1 + 1 + length ops ≡ pc + suc (suc (length ops))
      two_more ops = omega arith

      shifted : (i : ℕ) → get_elem? cmps (j + 1 + i) ≡ get_elem? cmps (j + suc i)
      shifted i = ap (get_elem? cmps) (omega arith)

  -- The outputs from the column in `r` on: they are all in their registers, and those before are as they were.
  pub outputs-Finishes :
      (out : List ℕ) (pc r : ℕ) (s : Stmt)
      → All (λ i. i < column_count cols) out
      → length cmps < r
      → r + length out ≤ 2 ^ 31
      → Lies prog pc (output_columns 0 cols out r)
      → Runs prog cmps nout cur pc s
      → ((s' : Stmt)
          → Runs prog cmps nout cur (pc + length (output_columns 0 cols out r)) s'
          → ((j i : ℕ) → get_elem? out j ≡ some i → InRegister s' (r + j) (value_register (vs i)))
          → ((j : ℕ) (v : Register) → j < r → InRegister s j v → InRegister s' j v)
          → Finishes depth P s')
      → Finishes depth P s
  unfolding output_columns
  outputs-Finishes [] pc r s in_range behind small lies h rest =
      rest s (subst (λ n. Runs prog cmps nout cur n s) (omega arith) h) (λ j i e. absurd cc)
        (λ j v j_lt old. old)
  outputs-Finishes (i ∷ is) pc r s (i_lt, in_range) behind small lies h rest =
      let ops : List DbmOp = output_columns 0 cols is (r + 1) in
      read-Finishes prog cmps nout cur cols few row k at row_is vs values depth P pc s i r h
        (Lies-first prog pc (read_op cols 0 i r) ops lies) i_lt behind (omega arith)
        (λ s' runs new old.
          outputs-Finishes is (pc + 1) (r + 1) s' in_range (omega arith) (omega arith)
            (Lies-rest prog pc (read_op cols 0 i r) ops lies) runs
            (λ t runs' outs kept.
              rest t (subst (λ n. Runs prog cmps nout cur n t) (one_further ops) runs')
                (all_outs t outs (kept r (value_register (vs i)) (omega arith) new))
                (λ j v j_lt was. kept j v (omega arith) (old j v j_lt was))))
    where
      one_further : (ops : List DbmOp) → pc + 1 + length ops ≡ pc + suc (length ops)
      one_further ops = omega arith

      all_outs :
          (t : Stmt)
          → ((j i' : ℕ)
              → get_elem? is j ≡ some i'
              → InRegister t (r + 1 + j) (value_register (vs i')))
          → InRegister t r (value_register (vs i))
          → (j i' : ℕ) → get_elem? (i ∷ is) j ≡ some i'
          → InRegister t (r + j) (value_register (vs i'))
      all_outs t outs first zero i' e =
          subst (λ n. InRegister t n (value_register (vs i'))) (omega arith)
            (subst (λ n. InRegister t r (value_register (vs n))) (index_is i i' e) first)
        where
          index_is : (a b : ℕ) → some a ≡ some b → a ≡ b
          index_is a b p = cc
      all_outs t outs first (suc j) i' e =
          subst (λ n. InRegister t n (value_register (vs i'))) (omega arith) (outs j i' e)
