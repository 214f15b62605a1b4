-- ===== src/Codegen/Scan/Asked.antt =====
-- src/libchidb/codegen.c: what a SELECT on one table asks for, in the terms of its text, and that the lookups and checks
-- of the code find it.
use chidb.Prelude.{
  ℕ, zero, suc, ◌+◌, ◌≡◌, sym, ap, subst, ◌∙◌, inl, inr, Bool, true, false, ◌&&◌, Option, none,
  some, List, [], ◌∷◌, All, take, get_elem?, length, codes,
}
use chidb.Schema.{SchemaItem, str_eq, str_case_eq, find_table}
use chidb.Schema.Lookup.{
  lower, Decided, str_eq-Decided, str_case_eq-Decided, and-Decided, IsTableNamed,
}
use chidb.Sql.{
  DataType, Literal, ColumnReference, Term, Expression, ListedExpression, CompType, Condition,
  Column,
}
use chidb.Optimizer.Meaning.{Value, literal_value}
use chidb.Codegen.{column_index_by_name, next_index}
use chidb.Codegen.Scan.Row.{HasType}

-- The first column with the name, with letters compared without their case.
abbrev pub IsFirstNamed : List Column → List ℕ → ℕ → Column → Type 0
IsFirstNamed cols name i c =
    (get_elem? cols i ≡ some c)
    × (lower c.name ≡ lower name)
    × All (λ (d : Column). ¬ (lower d.name ≡ lower name)) (take i cols)

-- The expressions are plain columns, each the first one with its name. A qualifier counts for nothing.
abbrev pub AsksNamed : List Column → List ListedExpression → List ℕ → Type 0
AsksNamed cols [] [] = Unit
AsksNamed cols [] (i ∷ is) = ⊥
AsksNamed cols (e ∷ es) [] = ⊥
AsksNamed cols (e ∷ es) (i ∷ is) =
    ((ref : ColumnReference) × (c : Column) × (e.expr ≡ Expression.term (Term.column_ref ref))
      × (¬ (ref.column_name ≡ codes "*"))
      × IsFirstNamed cols ref.column_name i c)
    × AsksNamed cols es is

abbrev pub count_up : ℕ → ℕ → List ℕ
count_up i zero = []
count_up i (suc n) = i ∷ count_up (suc i) n

-- The columns that are asked for: all of them by `*`, or those that are named.
pub data Asks (cols : List Column) : List ListedExpression → List ℕ → Type 0 where
  asks_all :
      {e : ListedExpression} {ref : ColumnReference}
      → e.expr ≡ Expression.term (Term.column_ref ref)
      → ref.column_name ≡ codes "*"
      → Asks cols (e ∷ []) (count_up 0 (length cols))
  asks_named :
      {e : ListedExpression} {es : List ListedExpression} {out : List ℕ}
      → AsksNamed cols (e ∷ es) out
      → Asks cols (e ∷ es) out

-- The literal has a value of the type.
abbrev pub IsOfType : Literal → DataType → Type 0
IsOfType l type = (v : Value) × (literal_value l ≡ some v) × HasType type v

-- Comparisons of columns with literals of their types, either way round, joined by AND, and their number.
pub data IsSimple (cols : List Column) : Condition → ℕ → Type 0 where
  simple_and :
      {a b : Condition} {m n : ℕ}
      → IsSimple cols a m
      → IsSimple cols b n
      → IsSimple cols (Condition.cond_and a b) (m + n)
  column_first :
      {op : CompType} {ref : ColumnReference} {l : Literal} (i : ℕ) (c : Column)
      → IsFirstNamed cols ref.column_name i c
      → IsOfType l c.type
      → IsSimple cols
          (Condition.cond_comp op
            (Expression.term (Term.column_ref ref))
            (Expression.term (Term.literal l)))
          1
  literal_first :
      {op : CompType} {ref : ColumnReference} {l : Literal} (i : ℕ) (c : Column)
      → IsFirstNamed cols ref.column_name i c
      → IsOfType l c.type
      → IsSimple cols
          (Condition.cond_comp op
            (Expression.term (Term.literal l))
            (Expression.term (Term.column_ref ref)))
          1

abbrev pub IsFilter : List Column → Option Condition → ℕ → Type 0
IsFilter cols none n = 0 ≡ n
IsFilter cols (some c) n = IsSimple cols c n

-- A test that is decided comes out as it has to.
pub is_true : (b : Bool) (P : Type 0) → Decided b P → P → b ≡ true
is_true b P (inl (e, h)) p = e
is_true b P (inr (e, h)) p = absurd (h p)

pub is_false : (b : Bool) (P : Type 0) → Decided b P → ¬ P → b ≡ false
is_false b P (inl (e, h)) miss = absurd (miss h)
is_false b P (inr (e, h)) miss = e

pub column_index_by_name-first :
    (cols : List Column) (name : List ℕ) (i : ℕ) (c : Column)
    → IsFirstNamed cols name i c
    → column_index_by_name cols name ≡ some (i, c.type)
unfolding column_index_by_name
column_index_by_name-first [] name i c (at, same, before) = absurd cc
column_index_by_name-first (d ∷ ds) name zero c (at, same, before) =
    let named : str_case_eq d.name name ≡ true =
      is_true _ _ (str_case_eq-Decided d.name name)
        (ap (λ (c : Column). lower c.name) (head_is at) ∙ same) in
    rw (named, column_index_by_name) (ap (λ (c : Column). some (0, c.type)) (head_is at))
  where
    head_is : some d ≡ some c → d ≡ c
    head_is p = cc
column_index_by_name-first (d ∷ ds) name (suc i) c (at, same, (miss, before)) =
    let not_named : str_case_eq d.name name ≡ false =
      is_false _ _ (str_case_eq-Decided d.name name) miss in
    rw (not_named, column_index_by_name)
      (ap next_index (column_index_by_name-first ds name i c (at, same, before)))

pub find_table-first :
    (items : List SchemaItem) (name : List ℕ) (i : ℕ) (tbl : SchemaItem)
    → get_elem? items i ≡ some tbl
    → IsTableNamed name tbl
    → All (λ item. ¬ IsTableNamed name item) (take i items)
    → find_table items name ≡ some tbl
unfolding find_table
find_table-first [] name i tbl at named before = absurd cc
find_table-first (item ∷ items) name zero tbl at named before =
    let is : (str_eq item.type (codes "table") && str_case_eq item.name name) ≡ true =
      is_true _ (IsTableNamed name item)
        (and-Decided _ _ _ _ (str_eq-Decided item.type (codes "table"))
          (str_case_eq-Decided item.name name))
        (subst (IsTableNamed name) (sym (head_is at)) named) in
    rw (is, find_table) at
  where
    head_is : some item ≡ some tbl → item ≡ tbl
    head_is p = cc
find_table-first (item ∷ items) name (suc i) tbl at named (miss, before) =
    let is_not : (str_eq item.type (codes "table") && str_case_eq item.name name) ≡ false =
      is_false _ (IsTableNamed name item)
        (and-Decided _ _ _ _ (str_eq-Decided item.type (codes "table"))
          (str_case_eq-Decided item.name name))
        miss in
    rw (is_not, find_table) (find_table-first items name i tbl at named before)
