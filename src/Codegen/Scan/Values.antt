-- ===== src/Codegen/Scan/Values.antt =====
-- src/libchidb/codegen.c: what a row of a table has in each of its columns, by the columns' own descriptions, apart from
-- the lookups of codegen.c, which give the same.
use chidb.Prelude.{
  ℕ, zero, suc, ◌<◌, ◌≡◌, ◌⊎◌, refl, ap, subst, ◌∙◌, inl, inr, Bool, Option, none, some, List, [],
  ◌∷◌, arith, get_elem?, length, Bool-cases, Option-cases,
}
use chidb.Cursor.{CursorRow, Cursor}
use chidb.Record.{DbRecord}
use chidb.Dbm.Ops.{row_record}
use chidb.Dbm.Values.{field_value}
use chidb.Schema.{str_case_eq}
use chidb.Schema.Lookup.{Decided}
use chidb.Sql.{ColumnReference, DataType, Constraint, Column}
use chidb.Optimizer.Meaning.{Value, Row, Env, value_in}
use chidb.Codegen.{
  column_count, next_index, column_index_by_name, has_primary_key, column_is_primary_key,
}
use chidb.Codegen.Checks.{value_register}
use chidb.Codegen.Scan.Row.{HasType, ColumnIs, RowIs, row_env}

-- PRIMARY KEY is among the constraints.
abbrev pub IsKey : List Constraint → Type 0
IsKey ks = (k : ℕ) × (get_elem? ks k ≡ some Constraint.primary_key)

-- A column that is the key has the key of the row, any other one the field of the row's record with its number.
abbrev pub HasValue : Cursor → CursorRow → ℕ → Column → Value → Type 0
HasValue cur row i c v =
    (IsKey c.constraints × (v ≡ Value.int row.key))
    ⊎ ((¬ IsKey c.constraints)
        × ((dbr : DbRecord) × (row_record cur row ≡ some dbr)
            × (i < dbr.nfields)
            × (field_value dbr i ≡ some (value_register v))))

-- The row has these values in its columns, each of the type of its column.
abbrev pub RowHas : Cursor → List Column → CursorRow → (ℕ → Value) → Type 0
RowHas cur cols row vs =
    (i : ℕ) (c : Column)
    → get_elem? cols i ≡ some c
    → HasValue cur row i c (vs i) × HasType c.type (vs i)

-- The values, in the order of the columns.
abbrev pub table_row : List Column → (ℕ → Value) → Row
table_row [] vs = []
table_row (c ∷ cs) vs = some (vs 0) ∷ table_row cs (λ i. vs (suc i))

-- A name stands for the value in the first column with the name.
abbrev pub query_env : List Column → (ℕ → Value) → Env
query_env cols vs ref = value_in cols (table_row cols vs) ref.column_name

further : (k : Constraint) (ks : List Constraint) → IsKey ks → IsKey (k ∷ ks)
further k ks (n, e) = (suc n, e)

other-Decided :
    (k : Constraint) (ks : List Constraint) (b : Bool)
    → ¬ (k ≡ Constraint.primary_key)
    → Decided b (IsKey ks)
    → Decided b (IsKey (k ∷ ks))
other-Decided k ks b other (inl (e, h)) = inl (e, further k ks h)
other-Decided k ks b other (inr (e, h)) = inr (e, miss)
  where
    some_inj : some k ≡ some Constraint.primary_key → k ≡ Constraint.primary_key
    some_inj p = cc

    miss : ¬ IsKey (k ∷ ks)
    miss (zero, at) = other (some_inj at)
    miss (suc n, at) = h (n, at)

pub has_primary_key-Decided : (ks : List Constraint) → Decided (has_primary_key ks) (IsKey ks)
unfolding has_primary_key
has_primary_key-Decided [] = inr (refl, λ h. no_constraint h)
  where
    no_constraint : ¬ IsKey []
    no_constraint (k, e) = cc
has_primary_key-Decided (Constraint.primary_key ∷ ks) = inl (refl, (0, refl))
has_primary_key-Decided (Constraint.not_null ∷ ks) =
    other-Decided _ ks _ (λ e. cc) (has_primary_key-Decided ks)
has_primary_key-Decided (Constraint.unique ∷ ks) =
    other-Decided _ ks _ (λ e. cc) (has_primary_key-Decided ks)
has_primary_key-Decided (Constraint.auto_increment ∷ ks) =
    other-Decided _ ks _ (λ e. cc) (has_primary_key-Decided ks)
has_primary_key-Decided (Constraint.foreign_key r ∷ ks) =
    other-Decided _ ks _ (λ e. cc) (has_primary_key-Decided ks)
has_primary_key-Decided (Constraint.default_value l ∷ ks) =
    other-Decided _ ks _ (λ e. cc) (has_primary_key-Decided ks)
has_primary_key-Decided (Constraint.check c ∷ ks) =
    other-Decided _ ks _ (λ e. cc) (has_primary_key-Decided ks)
has_primary_key-Decided (Constraint.size n ∷ ks) =
    other-Decided _ ks _ (λ e. cc) (has_primary_key-Decided ks)

pub column_is_primary_key-Decided :
    (cols : List Column) (i : ℕ) (c : Column)
    → get_elem? cols i ≡ some c
    → Decided (column_is_primary_key cols i) (IsKey c.constraints)
unfolding column_is_primary_key
column_is_primary_key-Decided [] i c e = absurd cc
column_is_primary_key-Decided (d ∷ ds) zero c e =
    subst (λ (c : Column). Decided (has_primary_key d.constraints) (IsKey c.constraints)) (same e)
      (has_primary_key-Decided d.constraints)
  where
    same : some d ≡ some c → d ≡ c
    same p = cc
column_is_primary_key-Decided (d ∷ ds) (suc i) c e = column_is_primary_key-Decided ds i c e

pub length-column_count : (cols : List Column) → column_count cols ≡ length cols
unfolding column_count
length-column_count [] = refl
length-column_count (c ∷ cs) = ap suc (length-column_count cs)

pub column_at :
    (cols : List Column) (i : ℕ) → i < length cols → (c : Column) × (get_elem? cols i ≡ some c)
column_at [] i h = absurd (omega arith)
column_at (c ∷ cs) zero h = (c, refl)
column_at (c ∷ cs) (suc i) h = column_at cs i (omega arith)

-- A column that is found by its name is there, and has the type.
abbrev IsAt : List Column → Option (ℕ × DataType) → Type 0
IsAt cols none = Unit
IsAt cols (some (i, type)) = (c : Column) × (get_elem? cols i ≡ some c) × (c.type ≡ type)

next_index-IsAt :
    (c : Column) (cs : List Column) (o : Option (ℕ × DataType))
    → IsAt cs o
    → IsAt (c ∷ cs) (next_index o)
next_index-IsAt c cs none h = tt
next_index-IsAt c cs (some (i, type)) h = h

column_index_by_name-IsAt :
    (cols : List Column) (name : List ℕ) → IsAt cols (column_index_by_name cols name)
unfolding column_index_by_name
column_index_by_name-IsAt [] name = tt
column_index_by_name-IsAt (c ∷ cs) name = elim (Bool-cases (str_case_eq c.name name)) [
  | inl e ↦ rw (e, column_index_by_name) (c, refl, refl)
  | inr e ↦
      rw (e, column_index_by_name)
        (next_index-IsAt c cs (column_index_by_name cs name) (column_index_by_name-IsAt cs name))
]

pub RowHas-RowIs :
    (cur : Cursor) (cols : List Column) (row : CursorRow) (vs : ℕ → Value)
    → RowHas cur cols row vs
    → RowIs cur cols row vs
RowHas-RowIs cur cols row vs has = record {
  columns = λ i i_lt.
      let (c, at) = column_at cols i (omega (arith, i_lt, length-column_count cols)) in
      column_is i c at (has i c at).0 (column_is_primary_key-Decided cols i c at);
  types = λ name i type e.
      let (c, at, is) = subst (IsAt cols) e (column_index_by_name-IsAt cols name) in
      subst (λ type. HasType type (vs i)) is (has i c at).1;
}
  where
    column_is :
        (i : ℕ) (c : Column)
        → get_elem? cols i ≡ some c
        → HasValue cur row i c (vs i)
        → Decided (column_is_primary_key cols i) (IsKey c.constraints)
        → ColumnIs cur cols row i (vs i)
    column_is i c at (inl (key, v)) (inl (e, h)) = inl (e, v)
    column_is i c at (inl (key, v)) (inr (e, h)) = absurd (h key)
    column_is i c at (inr (no_key, v)) (inl (e, h)) = absurd (no_key h)
    column_is i c at (inr (no_key, v)) (inr (e, h)) = inr (e, v)

-- What a name stands for, by the code's lookup.
abbrev value_at : (ℕ → Value) → Option (ℕ × DataType) → Option Value
value_at vs none = none
value_at vs (some (i, type)) = some (vs i)

value_at-next_index :
    (vs : ℕ → Value) (o : Option (ℕ × DataType))
    → value_at vs (next_index o) ≡ value_at (λ i. vs (suc i)) o
value_at-next_index vs none = refl
value_at-next_index vs (some (i, type)) = refl

value_in-value_at :
    (cols : List Column) (vs : ℕ → Value) (name : List ℕ)
    → value_at vs (column_index_by_name cols name) ≡ value_in cols (table_row cols vs) name
unfolding column_index_by_name value_in
value_in-value_at [] vs name = refl
value_in-value_at (c ∷ cs) vs name = elim (Bool-cases (str_case_eq c.name name)) [
  | inl e ↦ rw (e, column_index_by_name, value_in) refl
  | inr e ↦
      rw (e, column_index_by_name, value_in)
        (value_at-next_index vs (column_index_by_name cs name)
          ∙ value_in-value_at cs (λ i. vs (suc i)) name)
]

row_env-value_at :
    (cols : List Column) (vs : ℕ → Value) (ref : ColumnReference)
    → row_env cols vs ref ≡ value_at vs (column_index_by_name cols ref.column_name)
unfolding row_env
row_env-value_at cols vs ref = elim (Option-cases (column_index_by_name cols ref.column_name)) [
  | inl e ↦ rw (e, row_env) refl
  | inr ((i, type), e) ↦ rw (e, row_env) refl
]

pub row_env-query_env : (cols : List Column) (vs : ℕ → Value) → row_env cols vs ≡ query_env cols vs
row_env-query_env cols vs = λ i ref. at ref i
  where
    at : (ref : ColumnReference) → row_env cols vs ref ≡ query_env cols vs ref
    at ref = row_env-value_at cols vs ref ∙ value_in-value_at cols vs ref.column_name
