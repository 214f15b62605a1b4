-- ===== src/Optimizer/Pushed.antt =====
-- src/libchidb/optimizer.c: a query has the same rows after its conditions are pushed.
use chidb.Prelude.{
  ℕ, ◌≡◌, inl, inr, refl, Bool, true, false, ◌&&◌, Option, none, some, List, if◌then◌else◌,
  Bool-cases, subst,
}
use chidb.Sql.{ColumnReference, Term, Expression, Condition, Column, TableReference}
use chidb.Optimizer.{Side, is_named, has_column, classify_column_side, classify_leaf}
use chidb.Optimizer.Meaning.{
  Env, Row, value_in, table_env, join_env, expression_value, truth, and_3, is_true, holds,
}

pub holds-and :
    (env : Env) (a b : Condition)
    → holds (Condition.cond_and a b) env ≡ (holds a env && holds b env)
unfolding holds truth
holds-and env a b = both (truth env a) (truth env b)
  where
    both : (x y : Option Bool) → is_true (and_3 x y) ≡ (is_true x && is_true y)
    both (some true) y = refl
    both (some false) y = refl
    both none none = refl
    both none (some true) = refl
    both none (some false) = refl

module _ (t1 t2 : TableReference) (cols1 cols2 : List Column) (row1 row2 : Row) where
  abbrev Reads : Side → ColumnReference → Type 0
  Reads Side.left ref = table_env t1 cols1 row1 ref ≡ join_env t1 t2 cols1 cols2 (row1, row2) ref
  Reads Side.right ref = table_env t2 cols2 row2 ref ≡ join_env t1 t2 cols1 cols2 (row1, row2) ref
  Reads Side.top ref = Unit

  -- A column of one side reads the row of that side, in the join too.
  named-Reads :
      (q : Option (List ℕ)) (name : List ℕ)
      → Reads
          (classify_column_side t1 t2 cols1 cols2 (record { table_name = q; column_name = name }))
          (record { table_name = q; column_name = name })
  unfolding classify_column_side table_env join_env
  named-Reads none name = elim (Bool-cases (has_column cols1 name)) [
    | inl in1 ↦ elim (Bool-cases (has_column cols2 name)) [
      | inl in2 ↦ rw (in1, in2) tt
      | inr in2 ↦ rw (in1, in2) (in_first in1)
    ]
    | inr in1 ↦ elim (Bool-cases (has_column cols2 name)) [
      | inl in2 ↦ rw (in1, in2) (in_second in1)
      | inr in2 ↦ rw (in1, in2) tt
    ]
  ]
    where
      in_first :
          has_column cols1 name ≡ true
          → value_in cols1 row1 name
            ≡ (if has_column cols1 name then value_in cols1 row1 name else value_in cols2 row2 name)
      in_first e = rw e refl

      in_second :
          has_column cols1 name ≡ false
          → value_in cols2 row2 name
            ≡ (if has_column cols1 name then value_in cols1 row1 name else value_in cols2 row2 name)
      in_second e = rw e refl
  named-Reads (some q) name = elim (Bool-cases (is_named q t1)) [
    | inl at1 ↦ rw at1 (at_first at1)
    | inr at1 ↦ elim (Bool-cases (is_named q t2)) [
      | inl at2 ↦ rw (at1, at2) (at_second at1 at2)
      | inr at2 ↦ rw (at1, at2) tt
    ]
  ]
    where
      at_first :
          is_named q t1 ≡ true
          → table_env t1 cols1 row1 (record { table_name = some q; column_name = name })
            ≡ join_env t1 t2 cols1 cols2
                (row1, row2)
                (record { table_name = some q; column_name = name })
      at_first e = rw e refl

      at_second :
          is_named q t1 ≡ false
          → is_named q t2 ≡ true
          → table_env t2 cols2 row2 (record { table_name = some q; column_name = name })
            ≡ join_env t1 t2 cols1 cols2
                (row1, row2)
                (record { table_name = some q; column_name = name })
      at_second e e' = rw (e, e') refl

  abbrev pub env_of : Side → Env
  env_of Side.left = table_env t1 cols1 row1
  env_of Side.right = table_env t2 cols2 row2
  env_of Side.top = join_env t1 t2 cols1 cols2 (row1, row2)

  env_of-join_env :
      (side : Side) (ref : ColumnReference)
      → classify_column_side t1 t2 cols1 cols2 ref ≡ side
      → env_of side ref ≡ join_env t1 t2 cols1 cols2 (row1, row2) ref
  env_of-join_env Side.left ref e =
      subst (λ side. Reads side ref) e (named-Reads ref.table_name ref.column_name)
  env_of-join_env Side.right ref e =
      subst (λ side. Reads side ref) e (named-Reads ref.table_name ref.column_name)
  env_of-join_env Side.top ref e = refl

  -- A conjunct that is pushed means the same for the row of its side alone.
  pub holds-env_of :
      (side : Side) (c : Condition)
      → classify_leaf t1 t2 cols1 cols2 c ≡ side
      → holds c (env_of side) ≡ holds c (join_env t1 t2 cols1 cols2 (row1, row2))
  unfolding holds truth classify_leaf expression_value
  holds-env_of Side.top c e = refl
  holds-env_of side
        (Condition.cond_comp c
          (Expression.term (Term.column_ref ref))
          (Expression.term (Term.literal l)))
        e =
      rw (env_of-join_env side ref e) refl
  holds-env_of side
        (Condition.cond_comp c
          (Expression.term (Term.literal l))
          (Expression.term (Term.column_ref ref)))
        e =
      rw (env_of-join_env side ref e) refl
  holds-env_of _ _ e = absurd cc
