-- ===== src/Optimizer/Query.antt =====
-- src/libchidb/optimizer.c: the queries before and after `chidb_stmt_optimize`.
use chidb.Prelude.{
  ℕ, ◌≡◌, ◌⊎◌, inl, inr, refl, sym, ap, ap₂, ◌∙◌, Bool, true, false, ◌&&◌, some, List, [], ◌∷◌,
}
use chidb.Schema.{SchemaItem}
use chidb.Sql.{Condition, TableReference, Projection, Sra, Parser}
use chidb.Optimizer.{
  Side, classify_leaf, flatten_conjuncts, fold_and, bucket, select_all, push_buckets,
  push_conjuncts,
}
use chidb.Optimizer.Rows.{keep, all_of, joined, keep-true, keep-joined, joined-congr, joined-keep}
use chidb.Optimizer.Buckets.{ev-flatten, ev-fold_and, all_of-bucket, all_of-bucket_congr}
use chidb.Optimizer.Meaning.{
  Env, Row, table_env, join_env, holds, rows_join, Source, source_of, side_source, Joined,
  join_sources, both_sources, join_rows, query_rows,
}
use chidb.Optimizer.Pushed.{holds-and, env_of, holds-env_of}

-- All conditions of a list, of one row or pair of rows.
abbrev all_hold : List Condition → Env → Bool
all_hold cs env = all_of (λ c. holds c env) cs

keep-congr :
    {A : Type 0} (p q : A → Bool) (xs : List A) → ((x : A) → p x ≡ q x) → keep p xs ≡ keep q xs
keep-congr p q [] same = refl
keep-congr p q (x ∷ xs) same = rw (same x, keep-congr p q xs same) refl

all_hold-fold_and :
    (c : Condition) (cs : List Condition) (env : Env)
    → holds (fold_and c cs) env ≡ all_hold (c ∷ cs) env
all_hold-fold_and c cs env = ev-fold_and (λ c. holds c env) (holds-and env) c cs

outer : (p q n r : Bool) → (p && (q && (n && r))) ≡ (n && (p && (q && r)))
outer true true n r = refl
outer true false true r = refl
outer true false false r = refl
outer false q true r = refl
outer false q false r = refl

module _ (parse : Parser) (schema : List SchemaItem) (stored : List ℕ → List Row) where
  side_source-select_all :
      (t : TableReference) (src : Source) (cs : List Condition)
      → source_of parse schema stored t ≡ some src
      → side_source parse schema stored (select_all cs (Sra.table t))
        ≡ some (record src {
          rows = keep (λ row. all_hold cs (table_env src.ref src.columns row)) src.rows;
        })
  unfolding select_all side_source
  side_source-select_all t src [] e =
      e ∙ ap (λ (rows : List Row). some (record src { rows = rows })) (sym (keep-true src.rows))
  side_source-select_all t src (c ∷ cs) e =
      rw (e, side_source)
        (ap (λ (rows : List Row). some (record src { rows = rows }))
          (keep-congr _ _ src.rows λ row. all_hold-fold_and c cs _))

  join_rows-select_all :
      (a b : Sra) (j : Joined) (cs : List Condition)
      → both_sources (side_source parse schema stored a) (side_source parse schema stored b)
        ≡ some j
      → join_rows parse schema stored (select_all cs (Sra.natural_join a b))
        ≡ some (record j { rows = keep (λ rows. all_hold cs (j.env rows)) j.rows })
  unfolding select_all join_rows
  join_rows-select_all a b j [] e =
      e ∙ ap (λ (rows : List (Row × Row)). some (record j { rows = rows })) (sym (keep-true j.rows))
  join_rows-select_all a b j (c ∷ cs) e = rw e (
      ap (λ (rows : List (Row × Row)). some (record j { rows = rows }))
        (keep-congr _ _ j.rows λ rows. all_hold-fold_and c cs _))

  module _ (a b : Source) (cond : Condition) where
    abbrev classify : Condition → Side
    classify = classify_leaf a.ref b.ref a.columns b.columns

    abbrev part : Side → List Condition
    part side = bucket classify side (flatten_conjuncts cond)

    abbrev env_at : Row → Row → Env
    env_at row1 row2 = join_env a.ref b.ref a.columns b.columns (row1, row2)

    part-holds :
        (side : Side) (row1 row2 : Row)
        → all_hold (part side) (env_of a.ref b.ref a.columns b.columns row1 row2 side)
          ≡ all_hold (part side) (env_at row1 row2)
    part-holds side row1 row2 =
        all_of-bucket_congr classify
          (λ c. holds c (env_of a.ref b.ref a.columns b.columns row1 row2 side))
          (λ c. holds c (env_at row1 row2)) side (flatten_conjuncts cond)
          (holds-env_of a.ref b.ref a.columns b.columns row1 row2 side)

    -- The condition of the join, by its three parts.
    parts-hold :
        (row1 row2 : Row)
        → holds cond (env_at row1 row2) ≡ (
            all_hold (part Side.left) (table_env a.ref a.columns row1)
            && (all_hold (part Side.right) (table_env b.ref b.columns row2)
                && all_hold (part Side.top) (env_at row1 row2)))
    parts-hold row1 row2 =
        ev-flatten (λ c. holds c (env_at row1 row2)) (holds-and (env_at row1 row2)) cond
        ∙ all_of-bucket classify (λ c. holds c (env_at row1 row2)) (flatten_conjuncts cond)
        ∙ ap₂ (λ (p q : Bool). p && (q && all_hold (part Side.top) (env_at row1 row2)))
            (sym (part-holds Side.left row1 row2)) (sym (part-holds Side.right row1 row2))

    abbrev join_test : Row → Row → Bool
    join_test row1 row2 = rows_join a.columns row1 b.columns row2

    abbrev left_test : Row → Bool
    left_test row = all_hold (part Side.left) (table_env a.ref a.columns row)

    abbrev right_test : Row → Bool
    right_test row = all_hold (part Side.right) (table_env b.ref b.columns row)

    abbrev top_test : Row × Row → Bool
    top_test rows = all_hold (part Side.top) (env_at rows.0 rows.1)

    pushed_rows :
        keep top_test (joined join_test (keep left_test a.rows) (keep right_test b.rows))
        ≡ keep (λ rows. holds cond (env_at rows.0 rows.1)) (joined join_test a.rows b.rows)
    pushed_rows =
        keep-joined join_test top_test (keep left_test a.rows) (keep right_test b.rows)
        ∙ joined-keep (λ row1 row2. join_test row1 row2 && top_test (row1, row2)) left_test
            right_test a.rows b.rows
        ∙ joined-congr _ (λ row1 row2. join_test row1 row2 && holds cond (env_at row1 row2)) a.rows
            b.rows
            (λ row1 row2.
              outer (left_test row1) (right_test row2) (join_test row1 row2) (top_test (row1, row2))
              ∙ ap (λ (x : Bool). join_test row1 row2 && x) (sym (parts-hold row1 row2)))
        ∙ sym (keep-joined join_test (λ rows. holds cond (env_at rows.0 rows.1)) a.rows b.rows)

    pushed : Projection → Sra
    pushed fields =
        Sra.project
          (select_all (part Side.top) (
            Sra.natural_join (select_all (part Side.left) (Sra.table a.ref))
              (select_all (part Side.right) (Sra.table b.ref))))
          fields

    abbrev pub written : Projection → Sra
    written fields =
        Sra.project (Sra.select (Sra.natural_join (Sra.table a.ref) (Sra.table b.ref)) cond) fields

    -- What the query selects, as it was written.
    abbrev pub meant : Joined
    meant = record {
      env = join_env a.ref b.ref a.columns b.columns;
      rows = keep (λ rows. holds cond (env_at rows.0 rows.1)) (joined join_test a.rows b.rows);
    }

    module _ (source_a : source_of parse schema stored a.ref ≡ some a)
        (source_b : source_of parse schema stored b.ref ≡ some b) (fields : Projection) where
      pub query_rows-written :
          query_rows parse schema stored (written fields) ≡ some (fields, meant)
      unfolding query_rows join_rows side_source
      query_rows-written = rw (source_a, source_b, query_rows, join_rows, side_source) refl

      sides :
          both_sources
            (side_source parse schema stored (select_all (part Side.left) (Sra.table a.ref)))
            (side_source parse schema stored (select_all (part Side.right) (Sra.table b.ref)))
          ≡ some (
              join_sources
                (record a { rows = keep left_test a.rows })
                (record b { rows = keep right_test b.rows }))
      sides =
          ap₂ both_sources (side_source-select_all a.ref a (part Side.left) source_a)
            (side_source-select_all b.ref b (part Side.right) source_b)

      query_rows-pushed : query_rows parse schema stored (pushed fields) ≡ some (fields, meant)
      unfolding query_rows pushed
      query_rows-pushed =
          rw (join_rows-select_all _ _ _ (part Side.top) sides, query_rows)
            (ap (λ (rows : List (Row × Row)). some (fields, record meant { rows = rows }))
              pushed_rows)

      -- The result of `push_conjuncts` is one of the two.
      push_conjuncts-cases :
          (push_conjuncts a.ref b.ref a.columns b.columns cond fields (written fields)
            ≡ written fields)
          ⊎ (push_conjuncts a.ref b.ref a.columns b.columns cond fields (written fields)
              ≡ pushed fields)
      unfolding push_conjuncts pushed
      push_conjuncts-cases = either (part Side.left) (part Side.right)
        where
          either :
              (l r : List Condition)
              → (push_buckets l r (part Side.top) a.ref b.ref fields (written fields)
                  ≡ written fields)
                ⊎ (push_buckets l r (part Side.top) a.ref b.ref fields (written fields)
                    ≡ Sra.project
                        (select_all (part Side.top) (
                          Sra.natural_join
                            (select_all l (Sra.table a.ref))
                            (select_all r (Sra.table b.ref))))
                        fields)
          either [] [] = inl refl
          either [] (c ∷ cs) = inr refl
          either (c ∷ cs) r = inr refl

      pub query_rows-push_conjuncts :
          query_rows parse schema stored
            (push_conjuncts a.ref b.ref a.columns b.columns cond fields (written fields))
          ≡ some (fields, meant)
      query_rows-push_conjuncts = elim push_conjuncts-cases [
        | inl e ↦ ap (query_rows parse schema stored) e ∙ query_rows-written
        | inr e ↦ ap (query_rows parse schema stored) e ∙ query_rows-pushed
      ]
