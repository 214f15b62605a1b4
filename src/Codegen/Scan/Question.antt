-- ===== src/Codegen/Scan/Question.antt =====
-- src/libchidb/codegen.c: a query on one table, and that the schema has its table and no index for it.
use chidb.Prelude.{
  ℕ, zero, suc, ◌+◌, ◌^◌, ◌≤◌, ◌<◌, ◌≡◌, refl, sym, ap, ◌∙◌, inl, inr, Option, none, some, List, [],
  ◌∷◌, All, take, get_elem?, length, Option-cases,
}
use chidb.Schema.{SchemaItem, find_index_on}
use chidb.Sql.{
  ListedExpression, Condition, Column, TableReference, Table, Index, Create, StatementKind,
  Statement, Parser,
}
use chidb.Optimizer.{table_columns}
use chidb.Codegen.Scan.Instructions.{All-get_elem?}
use chidb.Codegen.Insert.{kind_column, index_column}
use chidb.Codegen.{column_name_at}
use chidb.Codegen.Scan.Asked.{Asks, IsFilter}
use chidb.Schema.Lookup.{lower, IsTableNamed, IsIndexOf, IsIndexOn, find-FindsFirst}

-- The text of the table creates these columns.
abbrev pub Creates : Parser → SchemaItem → List Column → Type 0
Creates parse tbl cols =
    (st : Statement) × (table : Table) × (parse tbl.sql ≡ some st)
    × (st.stmt ≡ StatementKind.stmt_create (Create.create_table table))
    × (table.columns ≡ cols)

-- The item is an index of the table on the column with the name.
abbrev pub Indexes : Parser → List ℕ → List ℕ → SchemaItem → Type 0
Indexes parse table name item =
    IsIndexOf table item
    × ((st : Statement) × (index : Index) × (parse item.sql ≡ some st)
        × (st.stmt ≡ StatementKind.stmt_create (Create.create_index index))
        × (lower index.column_name ≡ lower name))

-- A query on one table: the table is the first in the schema with the name, with these columns and no index on any of
-- them; the query asks for columns that there are, and its condition has `n` simple comparisons.
pub record IsQuery (parse : Parser) (schema : List SchemaItem) (ref : TableReference)
    (es : List ListedExpression) (cond : Option Condition) (tbl : SchemaItem) (cols : List Column)
    (out : List ℕ) (n : ℕ) : Type 0 where
  pub table_is :
      (i : ℕ) × (get_elem? schema i ≡ some tbl)
      × IsTableNamed ref.table_name tbl
      × All (λ item. ¬ IsTableNamed ref.table_name item) (take i schema)
  pub creates : Creates parse tbl cols
  pub no_index :
      (i : ℕ) (c : Column)
      → get_elem? cols i ≡ some c
      → All (λ item. ¬ Indexes parse ref.table_name c.name item) schema
  pub asks : Asks cols es out
  pub filter : IsFilter cols cond n
  pub few : length cols ≤ 2 ^ 8
  pub small : n + length out + 2 < 2 ^ 31

kind_column-some :
    (kind : StatementKind) (name : List ℕ)
    → kind_column kind ≡ some name
    → (index : Index) × (kind ≡ StatementKind.stmt_create (Create.create_index index))
      × (index.column_name ≡ name)
unfolding kind_column
kind_column-some (StatementKind.stmt_create (Create.create_index index)) name e =
    (index, refl, some_inj e)
  where
    some_inj : some index.column_name ≡ some name → index.column_name ≡ name
    some_inj p = cc
kind_column-some (StatementKind.stmt_create (Create.create_table t)) name e = absurd cc
kind_column-some (StatementKind.stmt_select sra) name e = absurd cc
kind_column-some (StatementKind.stmt_insert i) name e = absurd cc
kind_column-some (StatementKind.stmt_delete d) name e = absurd cc

IsIndexOn-Indexes :
    (parse : Parser) (table name : List ℕ) (item : SchemaItem)
    → IsIndexOn (index_column parse) table name item
    → Indexes parse table name item
unfolding index_column
IsIndexOn-Indexes parse table name item (of_table, (column, e, same)) =
    elim (Option-cases (parse item.sql)) [
      | inl f ↦ absurd (none-some (sym (rw (f, index_column) refl) ∙ e))
      | inr (st, f) ↦
          let (index, is, named) =
            kind_column-some st.stmt column (sym (rw (f, index_column) refl) ∙ e) in
          (of_table, (st, index, f, is, ap lower named ∙ same))
    ]
  where
    none-some : ¬ (none ≡ some column)
    none-some p = cc

pub no_index_found :
    (parse : Parser) (schema : List SchemaItem) (table name : List ℕ)
    → All (λ item. ¬ Indexes parse table name item) schema
    → find_index_on (index_column parse) schema table name ≡ none
no_index_found parse schema table name missing =
    elim (find-FindsFirst (index_column parse) schema table name).1 [
      | inl (e, h) ↦ e
      | inr (i, item, e, at, is, before) ↦ absurd (
          All-get_elem? (λ item. ¬ Indexes parse table name item) schema i item missing at
            (IsIndexOn-Indexes parse table name item is))
    ]

pub column_name_at-get_elem? :
    (cols : List Column) (i : ℕ) (name : List ℕ)
    → column_name_at cols i ≡ some name
    → (c : Column) × (get_elem? cols i ≡ some c) × (c.name ≡ name)
unfolding column_name_at
column_name_at-get_elem? [] i name e = absurd cc
column_name_at-get_elem? (c ∷ cs) zero name e = (c, refl, some_inj e)
  where
    some_inj : some c.name ≡ some name → c.name ≡ name
    some_inj p = cc
column_name_at-get_elem? (c ∷ cs) (suc i) name e = column_name_at-get_elem? cs i name e

pub table_columns-Creates :
    (parse : Parser) (tbl : SchemaItem) (cols : List Column)
    → Creates parse tbl cols
    → table_columns parse tbl ≡ some cols
unfolding table_columns
table_columns-Creates parse tbl cols (st, table, e, is, same) =
    rw (e, is, table_columns) (ap (λ (cs : List Column). some cs) same)
