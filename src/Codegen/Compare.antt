-- ===== src/Codegen/Compare.antt =====
-- src/libchidb/codegen.c, dbm-ops.c: a compiled comparison and what the machine does with it.
use chidb.Prelude.{
  ℕ, ◌≡◌, refl, sym, ap, subst, ◌∙◌, Bool, true, false, not, none, some, List, if◌then◌else◌,
  Bool-cases, inl, inr, Option-cases,
}
use chidb.Run.{ok}
use chidb.Dbm.{Opcode, DbmOp, Register, Stmt, get_reg, jump, jump_if}
use chidb.Dbm.Ops.{op_compare, dispatch, op_handle}
use chidb.Dbm.Values.{Sign, compare_int32, strcmp, reg_compare, compare_regs, defined, is_zero}
use chidb.Sql.{DataType, Literal, ColumnReference, Term, Expression, CompType, Condition}
use chidb.Optimizer.Meaning.{
  Value, Env, literal_value, expression_value, value_order, has_order, comp_truth, truth, holds,
}
use chidb.Codegen.{op_of, literal_matches_type}
use chidb.Codegen.Checks.{
  value_register, opposite, jumps_on, jumps_on-negated_op, has_order-opposite, value_order-opposite,
}
use chidb.Codegen.Conjuncts.{
  ResolvedCmp, ColResolver, operands, flip_comp, negated_op, resolved_with, resolve_comparison,
}

-- Two integers or two texts.
pub data SameType : Value → Value → Type 0 where
  ints : {a b : ℕ} → SameType (Value.int a) (Value.int b)
  texts : {s t : List ℕ} → SameType (Value.text s) (Value.text t)

SameType-order :
    (v w : Value) → SameType v w → (sign : Sign) × (value_order (some v) (some w) ≡ some sign)
unfolding value_order
SameType-order v w (ints {a} {b}) = (compare_int32 a b, refl)
SameType-order v w (texts {s} {t}) = (strcmp s t, refl)

reg_compare-value_order :
    (v w : Value)
    → reg_compare (value_register v) (value_register w) ≡ value_order (some v) (some w)
unfolding reg_compare value_order
reg_compare-value_order (Value.int a) (Value.int b) = refl
reg_compare-value_order (Value.int a) (Value.text b) = refl
reg_compare-value_order (Value.text a) (Value.int b) = refl
reg_compare-value_order (Value.text a) (Value.text b) = refl

-- The state after a check that passes, or that jumps.
abbrev pub checked : Bool → ℕ → Stmt → Stmt
checked b target s = if b then s else record s { pc = target }

jump_if-checked :
    (b : Bool) (target : ℕ) (s : Stmt) → jump_if (not b) target s ≡ ok tt (checked b target s)
unfolding jump_if jump
jump_if-checked true target s = refl
jump_if-checked false target s = refl

op_compare-sign :
    (test : Sign → Bool) (a b : ℕ) (op : DbmOp) (s : Stmt) (x y : Register) (sign : Sign)
    → get_reg a s ≡ ok x s
    → get_reg b s ≡ ok y s
    → reg_compare x y ≡ some sign
    → op_compare test a b op s ≡ jump_if (test sign) op.p2 s
unfolding op_compare compare_regs defined
op_compare-sign test a b op s x y sign h g e = rw (h, g, e) refl

zero_opposite : (sign : Sign) → is_zero (opposite sign) ≡ is_zero sign
zero_opposite Sign.negative = refl
zero_opposite Sign.zero_sign = refl
zero_opposite Sign.positive = refl

module _ (depth : ℕ) (s : Stmt) (r_lit target r_tmp : ℕ) (v w : Value)
    (column_in : get_reg r_tmp s ≡ ok (value_register v) s)
    (literal_in : get_reg r_lit s ≡ ok (value_register w) s) (sign : Sign)
    (ordered : value_order (some v) (some w) ≡ some sign) where
  column_first : reg_compare (value_register v) (value_register w) ≡ some sign
  column_first = reg_compare-value_order v w ∙ ordered

  literal_first : reg_compare (value_register w) (value_register v) ≡ some (opposite sign)
  literal_first = reg_compare-value_order w v ∙ value_order-opposite v w sign ordered

  jumps :
      (c : CompType)
      → op_handle depth (op_of (negated_op c) r_lit target r_tmp) s
        ≡ jump_if (jumps_on (negated_op c) sign) target s
  unfolding op_handle dispatch negated_op
  jumps CompType.cond_eq =
      op_compare-sign _ r_lit r_tmp _ s _ _ (opposite sign) literal_in column_in literal_first
      ∙ ap (λ (b : Bool). jump_if (not b) target s) (zero_opposite sign)
  jumps CompType.cond_gt =
      op_compare-sign _ r_tmp r_lit _ s _ _ sign column_in literal_in column_first
  jumps CompType.cond_geq =
      op_compare-sign _ r_tmp r_lit _ s _ _ sign column_in literal_in column_first
  jumps CompType.cond_lt =
      op_compare-sign _ r_tmp r_lit _ s _ _ sign column_in literal_in column_first
  jumps CompType.cond_leq =
      op_compare-sign _ r_tmp r_lit _ s _ _ sign column_in literal_in column_first

  negated_op-checked :
      (c : CompType)
      → op_handle depth (op_of (negated_op c) r_lit target r_tmp) s
        ≡ ok tt (checked (has_order c sign) target s)
  negated_op-checked c =
      jumps c
      ∙ ap (λ (b : Bool). jump_if b target s) (jumps_on-negated_op c sign)
      ∙ jump_if-checked (has_order c sign) target s

-- A condition that is compiled: the instruction tests `c` on a column and a literal, as the condition does.
pub record Compiles (resolve : ColResolver) (cond : Condition) (cmp : ResolvedCmp) : Type 0 where
  pub c : CompType
  pub ref : ColumnReference
  pub type : DataType
  pub op_is : cmp.op ≡ negated_op c
  pub resolves : resolve ref ≡ some (cmp.col, type)
  pub matches : literal_matches_type cmp.lit type ≡ true
  pub tests :
      (env : Env) (v w : Value) (sign : Sign)
      → env ref ≡ some v
      → literal_value cmp.lit ≡ some w
      → value_order (some v) (some w) ≡ some sign
      → holds cond env ≡ has_order c sign

module _ (resolve : ColResolver) (c : CompType) (ref : ColumnReference) (lit : Literal) where
  abbrev column_term : Expression
  column_term = Expression.term (Term.column_ref ref)

  abbrev literal_term : Expression
  literal_term = Expression.term (Term.literal lit)

  tests_column :
      (env : Env) (v w : Value) (sign : Sign)
      → env ref ≡ some v
      → literal_value lit ≡ some w
      → value_order (some v) (some w) ≡ some sign
      → holds (Condition.cond_comp c column_term literal_term) env ≡ has_order c sign
  unfolding holds truth expression_value comp_truth
  tests_column env v w sign ev ew e = rw (ev, ew, e, comp_truth) refl

  tests_flipped :
      (env : Env) (v w : Value) (sign : Sign)
      → env ref ≡ some v
      → literal_value lit ≡ some w
      → value_order (some v) (some w) ≡ some sign
      → holds (Condition.cond_comp c literal_term column_term) env ≡ has_order (flip_comp c) sign
  unfolding holds truth expression_value comp_truth
  tests_flipped env v w sign ev ew e =
      rw (ev, ew, value_order-opposite v w sign e, comp_truth) (has_order-opposite c sign)

  abbrev chosen : Bool → CompType
  chosen flipped = if flipped then flip_comp c else c

  from_resolved :
      (cond : Condition) (cmp : ResolvedCmp) (flipped : Bool)
      → ((env : Env) (v w : Value) (sign : Sign)
          → env ref ≡ some v
          → literal_value lit ≡ some w
          → value_order (some v) (some w) ≡ some sign
          → holds cond env ≡ has_order (chosen flipped) sign)
      → resolved_with resolve c ref literal_term flipped ≡ some cmp
      → Compiles resolve cond cmp
  unfolding resolved_with
  from_resolved cond cmp flipped same e = elim (Option-cases (resolve ref)) [
    | inl n ↦ absurd (none-some (sym (rw (n, resolved_with) refl) ∙ e))
    | inr ((col, type), r) ↦ elim (Bool-cases (literal_matches_type lit type)) [
      | inl m ↦
          subst (Compiles resolve cond) (some_inj (sym (rw (r, m, resolved_with) refl) ∙ e))
            (record {
              c = chosen flipped;
              ref = ref;
              type = type;
              op_is = refl;
              resolves = r;
              matches = m;
              tests = same;
            })
      | inr m ↦ absurd (none-some (sym (rw (r, m, resolved_with) refl) ∙ e))
    ]
  ]
    where
      some_inj : {a b : ResolvedCmp} → some a ≡ some b → a ≡ b
      some_inj p = cc

      none-some : ¬ (none ≡ some cmp)
      none-some p = cc

pub resolve_comparison-Compiles :
    (resolve : ColResolver) (cond : Condition) (cmp : ResolvedCmp)
    → resolve_comparison resolve cond ≡ some cmp
    → Compiles resolve cond cmp
unfolding resolve_comparison operands resolved_with
resolve_comparison-Compiles resolve
      (Condition.cond_comp c
        (Expression.term (Term.column_ref ref))
        (Expression.term (Term.literal lit)))
      cmp e =
    from_resolved resolve c ref lit _ cmp false (tests_column resolve c ref lit) e
resolve_comparison-Compiles resolve
      (Condition.cond_comp c (Expression.term (Term.column_ref ref)) e2) cmp e =
    absurd cc
resolve_comparison-Compiles resolve
      (Condition.cond_comp c
        (Expression.term (Term.literal lit))
        (Expression.term (Term.column_ref ref)))
      cmp e =
    from_resolved resolve c ref lit _ cmp true (tests_flipped resolve c ref lit) e
resolve_comparison-Compiles resolve
      (Condition.cond_comp c e1 (Expression.term (Term.column_ref ref))) cmp e =
    absurd cc
resolve_comparison-Compiles resolve _ cmp e = absurd cc

-- For a condition that chidb compiles to an instruction, where the registers that the instruction names hold the
-- value of the column and that of the literal, of the same type: the machine passes on to the next instruction if
-- the condition holds, and jumps to the target if it does not, and nothing else changes.
pub resolve_comparison-op_handle :
    (resolve : ColResolver) (cond : Condition) (cmp : ResolvedCmp)
    → resolve_comparison resolve cond ≡ some cmp
    → (env : Env) (v w : Value)
    → ((ref : ColumnReference) (type : DataType)
        → resolve ref ≡ some (cmp.col, type)
        → env ref ≡ some v)
    → literal_value cmp.lit ≡ some w
    → SameType v w
    → (depth : ℕ) (s : Stmt) (r_lit target r_tmp : ℕ) → get_reg r_tmp s ≡ ok (value_register v) s
    → get_reg r_lit s ≡ ok (value_register w) s
    → op_handle depth (op_of cmp.op r_lit target r_tmp) s
      ≡ ok tt (checked (holds cond env) target s)
resolve_comparison-op_handle resolve cond cmp e env v w reads lit_is same depth s r_lit target r_tmp
      column_in literal_in =
    let h : Compiles resolve cond cmp = resolve_comparison-Compiles resolve cond cmp e in
    let (sign, ordered) = SameType-order v w same in
    ap (λ (o : Opcode). op_handle depth (op_of o r_lit target r_tmp) s) h.op_is
    ∙ negated_op-checked depth s r_lit target r_tmp v w column_in literal_in sign ordered h.c
    ∙ ap (λ (b : Bool). ok tt (checked b target s))
        (sym (h.tests env v w sign (reads h.ref h.type h.resolves) lit_is ordered))
