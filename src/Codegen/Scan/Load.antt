-- ===== src/Codegen/Scan/Load.antt =====
-- src/libchidb/codegen.c, dbm.c: the literals of a compiled scan are loaded.
use mathlib.Core.List.{append_assoc, append-nil}
use chidb.Prelude.{
  ℕ, suc, ◌+◌, ◌^◌, ◌≤◌, ◌<◌, ◌≡◌, sym, ap, subst, ◌∙◌, inl, inr, some, List, [], ◌∷◌, ◌++◌, arith,
  get_elem?, length, length-append, All,
}
use chidb.Run.{Run}
use chidb.Cursor.{Cursor}
use chidb.Dbm.{DbmOp, Register, Stmt}
use chidb.Dbm.Ops.{put_reg, op_integer, op_string, dispatch, op_handle}
use chidb.Dbm.Values.{defined}
use chidb.Dbm.Exec.Stops.{at_next}
use chidb.Sql.{Literal, Condition, Column}
use chidb.Optimizer.Meaning.{Value, literal_value}
use chidb.Codegen.{literal_op}
use chidb.Codegen.Checks.{value_register}
use chidb.Codegen.Compare.{Compiles, resolve_comparison-Compiles}
use chidb.Codegen.Conjuncts.{ResolvedCmp, resolve_single_column, filter_literals}
use chidb.Codegen.Layout.{get_elem?-lt, get_elem?-snoc}
use chidb.Codegen.Scan.Check.{Runs, inside, here, literal_value-HasType}
use chidb.Codegen.Scan.Checked.{Lies, Lies-first, Lies-rest, Resolved, no_more, one_more}
use chidb.Codegen.Scan.State.{InRegister, Puts, put_reg-Puts, Finishes, step-Finishes}

-- The literal of the comparison has a value.
abbrev pub HasLiteral : ResolvedCmp → Type 0
HasLiteral cmp = (w : Value) × (literal_value cmp.lit ≡ some w)

pub Resolved-HasLiteral :
    (cols : List Column) (cs : List Condition) (cmps : List ResolvedCmp)
    → Resolved cols cs cmps
    → All HasLiteral cmps
Resolved-HasLiteral cols cs cmps no_more = tt
Resolved-HasLiteral cols cs cmps' (one_more {c} {cs = cs'} {cmp} {cmps} compiles more) =
    let h : Compiles (resolve_single_column cols) c cmp =
      resolve_comparison-Compiles (resolve_single_column cols) c cmp compiles in
    let (w, is, type) = literal_value-HasType cmp.lit h.type h.matches in
    ((w, is), Resolved-HasLiteral cols cs' cmps more)

literal_op-put_reg :
    (depth : ℕ) (lit : Literal) (r : ℕ) (w : Value) (s : Stmt)
    → literal_value lit ≡ some w
    → op_handle depth (literal_op lit r) s ≡ put_reg r (value_register w) s
unfolding literal_op literal_value op_handle dispatch op_integer op_string defined
literal_op-put_reg depth (Literal.lit_int n) r w s e =
    ap (λ (v : Value). put_reg r (value_register v) s) (some_inj e)
  where
    some_inj : {a b : Value} → some a ≡ some b → a ≡ b
    some_inj p = cc
literal_op-put_reg depth (Literal.lit_char c) r w s e =
    ap (λ (v : Value). put_reg r (value_register v) s) (some_inj e)
  where
    some_inj : {a b : Value} → some a ≡ some b → a ≡ b
    some_inj p = cc
literal_op-put_reg depth (Literal.lit_text t) r w s e =
    ap (λ (v : Value). put_reg r (value_register v) s) (some_inj e)
  where
    some_inj : {a b : Value} → some a ≡ some b → a ≡ b
    some_inj p = cc
literal_op-put_reg depth (Literal.lit_double n) r w s e = absurd cc

module _ (prog : List DbmOp) (nout : ℕ) (cur : Cursor) (depth : ℕ)
    (P : Run Stmt (Unit {0}) → Type 0) where
  -- One more literal, behind those that are loaded.
  loaded-Runs :
      (done : List ResolvedCmp) (cmp : ResolvedCmp) (pc : ℕ) (s : Stmt) (w : Value)
      (f : ℕ → Register) (n : ℕ)
      → Runs prog done nout cur pc s
      → literal_value cmp.lit ≡ some w
      → 1 + length done < 2 ^ 31
      → Puts (at_next s) (1 + length done) (value_register w) f n
      → Runs prog (done ++ cmp ∷ []) nout cur (pc + 1) (record (at_next s) { reg = f; n_reg = n })
  loaded-Runs done cmp pc s w f n h lit_is small p = record {
    pc_is = omega (arith, h.pc_is);
    ops_are = h.ops_are;
    end_is = h.end_is;
    count_is = h.count_is;
    cols_is = h.cols_is;
    slot = h.slot;
    slots = h.slots;
    opened = h.opened;
    literals = λ j cmp' w' e g. elim (get_elem?-snoc done cmp j cmp' e) [
      | inl old_at ↦
          let old : InRegister s (1 + j) (value_register w') = h.literals j cmp' w' old_at g in
          record {
            there = omega (arith, old.there, p.more);
            small = old.small;
            value =
                p.old (1 + j) old.there (inl (omega (arith, get_elem?-lt done j cmp' old_at)))
                ∙ old.value;
          }
      | inr (last, is) ↦ record {
        there = omega (arith, p.there, last);
        small = omega (arith, last);
        value =
            ap f (ap (λ (n : ℕ). 1 + n) last)
            ∙ p.new
            ∙ ap value_register
                (some_inj (sym lit_is ∙ ap (λ (c : ResolvedCmp). literal_value c.lit) is ∙ g));
      }
    ];
  }
    where
      some_inj : {a b : Value} → some a ≡ some b → a ≡ b
      some_inj p = cc

  pub load-Finishes :
      (rest done : List ResolvedCmp) (pc r : ℕ) (s : Stmt)
      → r ≡ 1 + length done
      → Runs prog done nout cur pc s
      → Lies prog pc (filter_literals rest r)
      → All HasLiteral rest
      → r + length rest ≤ 2 ^ 31
      → ((s' : Stmt)
          → Runs prog (done ++ rest) nout cur (pc + length (filter_literals rest r)) s'
          → Finishes depth P s')
      → Finishes depth P s
  unfolding filter_literals
  load-Finishes [] done pc r s r_is h lies lits small later = later s (
      subst (λ cs. Runs prog cs nout cur (pc + 0) s) (sym (append-nil done))
        (subst (λ n. Runs prog done nout cur n s) (omega arith) h))
  load-Finishes (cmp ∷ rest) done pc r s r_is h lies ((w, lit_is), lits) small later =
      let ops : List DbmOp = filter_literals rest (r + 1) in
      let op : DbmOp = literal_op cmp.lit r in
      let op_at : get_elem? prog pc ≡ some op = Lies-first prog pc op ops lies in
      let (f, n, e, p) =
        put_reg-Puts (at_next s) (1 + length done) (value_register w) (omega arith) in
      let s' : Stmt = record (at_next s) { reg = f; n_reg = n } in
      step-Finishes depth prog P s op h.ops_are (here prog done nout cur pc s h op op_at)
        (inside prog done nout cur pc s h op op_at) s'
        (literal_op-put_reg depth cmp.lit r w (at_next s) lit_is
          ∙ ap (λ (n : ℕ). put_reg n (value_register w) (at_next s)) r_is
          ∙ e)
        (load-Finishes rest (done ++ cmp ∷ []) (pc + 1) (r + 1) s'
          (omega (arith, length-append done (cmp ∷ [])))
          (loaded-Runs done cmp pc s w f n h lit_is (omega arith) p) (Lies-rest prog pc op ops lies)
          lits (omega arith)
          (λ t runs. later t (
            subst (λ cs. Runs prog cs nout cur (pc + suc (length ops)) t)
              (append_assoc done (cmp ∷ []) rest)
              (subst (λ n. Runs prog (done ++ cmp ∷ [] ++ rest) nout cur n t) (one_more_op ops)
                runs))))
    where
      one_more_op : (ops : List DbmOp) → pc + 1 + length ops ≡ pc + suc (length ops)
      one_more_op ops = omega arith
