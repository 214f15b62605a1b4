-- ===== src/Optimizer/Same.antt =====
-- src/libchidb/optimizer.c: `chidb_stmt_optimize` keeps what a statement means.
use chidb.Prelude.{ℕ, ◌≡◌, ◌⊎◌, inl, inr, refl, Bool, some, List, Option-cases}
use chidb.Schema.{SchemaItem, find_table}
use chidb.Sql.{Condition, Column, TableReference, Projection, Sra, StatementKind, Statement, Parser}
use chidb.Optimizer.{table_columns, push_conjuncts, optimize_select, stmt_optimize}
use chidb.Optimizer.Meaning.{Row, Source, source_of, Joined, query_rows}
use chidb.Optimizer.Query.{meant, query_rows-written, query_rows-push_conjuncts}

-- Every table of the schema has a text that the parser takes for the creation of a table.
abbrev pub HasTexts : Parser → List SchemaItem → Type 0
HasTexts parse schema =
    (name : List ℕ) (item : SchemaItem)
    → find_table schema name ≡ some item
    → (cols : List Column) × (table_columns parse item ≡ some cols)

module _ (parse : Parser) (schema : List SchemaItem) (stored : List ℕ → List Row) where
  -- The query is as before, or both are on a join of two tables and project the same from the same rows in the
  -- same order.
  abbrev pub SameQuery : Sra → Sra → Type 0
  SameQuery sra sra' =
      (sra' ≡ sra)
      ⊎ ((m : Projection × Joined) × (query_rows parse schema stored sra ≡ some m)
          × (query_rows parse schema stored sra' ≡ some m))

  abbrev pub SameKind : StatementKind → StatementKind → Type 0
  SameKind (StatementKind.stmt_select sra) (StatementKind.stmt_select sra') = SameQuery sra sra'
  SameKind k k' = k' ≡ k

  abbrev pub SameStatement : Statement → Statement → Type 0
  SameStatement s s' = (s'.explain ≡ s.explain) × (s'.text ≡ s.text) × SameKind s.stmt s'.stmt

  module _ (texts : HasTexts parse schema) where
    abbrev Result : Sra → Type 0
    Result sra = (sra' : Sra) × (optimize_select parse schema sra ≡ some sra') × SameQuery sra sra'

    module _ (t1 t2 : TableReference) (cond : Condition) (fields : Projection) where
      abbrev query : Sra
      query = Sra.project (Sra.select (Sra.natural_join (Sra.table t1) (Sra.table t2)) cond) fields

      found_both :
          (tbl1 tbl2 : SchemaItem) (cols1 cols2 : List Column)
          → find_table schema t1.table_name ≡ some tbl1
          → find_table schema t2.table_name ≡ some tbl2
          → table_columns parse tbl1 ≡ some cols1
          → table_columns parse tbl2 ≡ some cols2
          → Result query
      unfolding optimize_select source_of
      found_both tbl1 tbl2 cols1 cols2 f1 f2 c1 c2 =
          let a : Source = record { ref = t1; columns = cols1; rows = stored t1.table_name } in
          let b : Source = record { ref = t2; columns = cols2; rows = stored t2.table_name } in
          let source_a : source_of parse schema stored t1 ≡ some a = rw (f1, c1, source_of) refl in
          let source_b : source_of parse schema stored t2 ≡ some b = rw (f2, c2, source_of) refl in
          (
            push_conjuncts t1 t2 cols1 cols2 cond fields query,
            rw (f1, f2, c1, c2, optimize_select) refl,
            inr (
              (fields, meant parse schema stored a b cond),
              query_rows-written parse schema stored a b cond source_a source_b fields,
              query_rows-push_conjuncts parse schema stored a b cond source_a source_b fields,
            ),
          )

      query-Result : Result query
      unfolding optimize_select
      query-Result = elim (Option-cases (find_table schema t1.table_name)) [
        | inl e ↦ (query, rw (e, optimize_select) refl, inl refl)
        | inr (tbl1, f1) ↦ elim (Option-cases (find_table schema t2.table_name)) [
          | inl e ↦ (query, rw (f1, e, optimize_select) refl, inl refl)
          | inr (tbl2, f2) ↦
              let (cols1, c1) = texts t1.table_name tbl1 f1 in
              let (cols2, c2) = texts t2.table_name tbl2 f2 in
              found_both tbl1 tbl2 cols1 cols2 f1 f2 c1 c2
        ]
      ]

    select-Result : (sra : Sra) → Result sra
    unfolding optimize_select
    select-Result
          (Sra.project (Sra.select (Sra.natural_join (Sra.table t1) (Sra.table t2)) cond) fields) =
        query-Result t1 t2 cond fields
    select-Result sra = (sra, refl, inl refl)

    -- Where every table of the schema has a text that the parser takes for its creation, chidb_stmt_optimize gives a
    -- statement with the same text and EXPLAIN flag, and it is the same statement, or both are queries on the
    -- natural join of two tables that project the same expressions from the same pairs of rows in the same order,
    -- whatever rows the tables have.
    pub stmt_optimize-SameStatement :
        (s : Statement)
        → (s' : Statement) × (stmt_optimize parse schema s ≡ some s') × SameStatement s s'
    unfolding stmt_optimize
    stmt_optimize-SameStatement s = by_kind s.explain s.text s.stmt
      where
        by_kind :
            (explain : Bool) (text : List ℕ) (k : StatementKind)
            → (s' : Statement) × (stmt_optimize parse schema
                  (record { explain = explain; text = text; stmt = k })
                ≡ some s')
              × SameStatement (record { explain = explain; text = text; stmt = k }) s'
        by_kind explain text (StatementKind.stmt_select sra) =
            let (sra', e, same) = select-Result sra in
            (
              record { explain = explain; text = text; stmt = StatementKind.stmt_select sra' },
              rw (e, stmt_optimize) refl,
              (refl, refl, same),
            )
        by_kind explain text k =
            (record { explain = explain; text = text; stmt = k }, refl, (refl, refl, refl))
