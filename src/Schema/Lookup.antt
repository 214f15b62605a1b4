-- ===== src/Schema/Lookup.antt =====
-- src/libchidb/util.c: what the lookups in a schema find, and the key of a new row of it.
use chidb.Prelude.{
  ℕ, suc, ◌+◌, ◌-◌, ◌%◌, ◌^◌, ◌≤◌, ◌<◌, ◌≡◌, ◌≢◌, ◌⊎◌, refl, sym, ap, ap₂, subst, ◌∙◌, inl, inr,
  Bool, true, false, ◌&&◌, Option, none, some, List, [], ◌∷◌, All, take, get_elem?, arith, ltb,
  ◌==◌, if◌then◌else◌, codes,
}
use chidb.Schema.{
  SchemaItem, str_eq, to_lower, str_case_eq, find_table, find_index_on, max_key, next_key,
}

-- A text in lower case.
abbrev pub lower : List ℕ → List ℕ
lower [] = []
lower (c ∷ cs) = to_lower c ∷ lower cs

abbrev pub Decided : Bool → Type 0 → Type 0
Decided b P = ((b ≡ true) × P) ⊎ ((b ≡ false) × (¬ P))

head_eq : {x y : ℕ} {xs ys : List ℕ} → x ∷ xs ≡ y ∷ ys → (x ≡ y) × (xs ≡ ys)
head_eq e = (cc, cc)

eq-Decided : (c d : ℕ) → Decided (c == d) (c ≡ d)
eq-Decided c d = ground arith

-- A test of the first characters and one of the rest.
both-Decided :
    (b b' : Bool) (x y : ℕ) (xs ys : List ℕ)
    → Decided b (x ≡ y)
    → Decided b' (xs ≡ ys)
    → Decided (b && b') (x ∷ xs ≡ y ∷ ys)
both-Decided b b' x y xs ys (inl (e, h)) (inl (e', h')) = inl (rw (e, e') refl, ap₂ ◌∷◌ h h')
both-Decided b b' x y xs ys (inl (e, h)) (inr (e', h')) =
    inr (rw (e, e') refl, λ g. h' (head_eq g).1)
both-Decided b b' x y xs ys (inr (e, h)) r = inr (rw e refl, λ g. h (head_eq g).0)

pub str_eq-Decided : (s t : List ℕ) → Decided (str_eq s t) (s ≡ t)
unfolding str_eq
str_eq-Decided [] [] = inl (refl, refl)
str_eq-Decided [] (d ∷ ds) = inr (refl, λ e. cc)
str_eq-Decided (c ∷ cs) [] = inr (refl, λ e. cc)
str_eq-Decided (c ∷ cs) (d ∷ ds) =
    both-Decided _ _ c d cs ds (eq-Decided c d) (str_eq-Decided cs ds)

pub str_case_eq-Decided : (s t : List ℕ) → Decided (str_case_eq s t) (lower s ≡ lower t)
unfolding str_case_eq
str_case_eq-Decided [] [] = inl (refl, refl)
str_case_eq-Decided [] (d ∷ ds) = inr (refl, λ e. cc)
str_case_eq-Decided (c ∷ cs) [] = inr (refl, λ e. cc)
str_case_eq-Decided (c ∷ cs) (d ∷ ds) =
    both-Decided _ _ (to_lower c) (to_lower d) (lower cs) (lower ds)
      (eq-Decided (to_lower c) (to_lower d)) (str_case_eq-Decided cs ds)

-- A table with the name, whatever the case of its letters.
abbrev pub IsTableNamed : List ℕ → SchemaItem → Type 0
IsTableNamed name item = (item.type ≡ codes "table") × (lower item.name ≡ lower name)

abbrev pub IsIndexOf : List ℕ → SchemaItem → Type 0
IsIndexOf table item = (item.type ≡ codes "index") × (lower item.table_name ≡ lower table)

-- An index on the column of the table, by what the parser makes of its text.
abbrev pub IsIndexOn : (List ℕ → Option (List ℕ)) → List ℕ → List ℕ → SchemaItem → Type 0
IsIndexOn index_column table column item =
    IsIndexOf table item
    × ((name : List ℕ) × (index_column item.sql ≡ some name) × (lower name ≡ lower column))

-- The result is the first item with the property, or there is none.
abbrev pub FindsFirst : (SchemaItem → Type 0) → List SchemaItem → Option SchemaItem → Type 0
FindsFirst P items result =
    ((result ≡ none) × All (λ item. ¬ P item) items)
    ⊎ ((i : ℕ) × (item : SchemaItem) × (result ≡ some item)
        × (get_elem? items i ≡ some item)
        × P item
        × All (λ item. ¬ P item) (take i items))

module _ (P : SchemaItem → Type 0) where
  finds_here :
      (item : SchemaItem) (items : List SchemaItem)
      → P item
      → FindsFirst P (item ∷ items) (some item)
  finds_here item items h = inr (0, item, refl, refl, h, tt)

  finds_later :
      (item : SchemaItem) (items : List SchemaItem) (r : Option SchemaItem)
      → ¬ P item
      → FindsFirst P items r
      → FindsFirst P (item ∷ items) r
  finds_later item items r miss (inl (e, no_item)) = inl (e, (miss, no_item))
  finds_later item items r miss (inr (i, found, e, at, h, before)) =
      inr (suc i, found, e, at, h, (miss, before))

  finds_if :
      (b : Bool) (item : SchemaItem) (items : List SchemaItem) (r : Option SchemaItem)
      → Decided b (P item)
      → FindsFirst P items r
      → FindsFirst P (item ∷ items) (if b then some item else r)
  finds_if b item items r (inl (e, h)) rest = rw e (finds_here item items h)
  finds_if b item items r (inr (e, h)) rest = rw e (finds_later item items r h rest)

pub and-Decided :
    (b b' : Bool) (P Q : Type 0) → Decided b P → Decided b' Q → Decided (b && b') (P × Q)
and-Decided b b' P Q (inl (e, h)) (inl (e', h')) = inl (rw (e, e') refl, (h, h'))
and-Decided b b' P Q (inl (e, h)) (inr (e', h')) = inr (rw (e, e') refl, λ (p, q). h' q)
and-Decided b b' P Q (inr (e, h)) r = inr (rw e refl, λ (p, q). h p)

find_table-FindsFirst :
    (items : List SchemaItem) (name : List ℕ)
    → FindsFirst (IsTableNamed name) items (find_table items name)
unfolding find_table
find_table-FindsFirst [] name = inl (refl, tt)
find_table-FindsFirst (item ∷ items) name =
    finds_if (IsTableNamed name) _ item items _
      (and-Decided _ _ _ _ (str_eq-Decided item.type (codes "table"))
        (str_case_eq-Decided item.name name))
      (find_table-FindsFirst items name)

module _ (index_column : List ℕ → Option (List ℕ)) (table column : List ℕ) where
  abbrev names_column : Option (List ℕ) → Bool
  names_column none = false
  names_column (some name) = str_case_eq name column

  names_column-Decided :
      (o : Option (List ℕ))
      → Decided (names_column o) ((name : List ℕ) × (o ≡ some name) × (lower name ≡ lower column))
  names_column-Decided none = inr (refl, λ (name, e, h). none-ne-some name e)
    where
      none-ne-some : (name : List ℕ) → none ≢ some name
      none-ne-some name e = cc
  names_column-Decided (some name) = elim (str_case_eq-Decided name column) [
    | inl (e, h) ↦ inl (e, (name, refl, h))
    | inr (e, h) ↦ inr (e, λ (name', e', h'). h (ap lower (some_inj name name' e') ∙ h'))
  ]
    where
      some_inj : (s t : List ℕ) → some s ≡ some t → s ≡ t
      some_inj s t e = cc

  -- The two tests of an item as one.
  one_test :
      (b : Bool) (o : Option (List ℕ)) (item : SchemaItem) (r : Option SchemaItem)
      → (if b
          then elim o [ none ↦ r | some name ↦ if str_case_eq name column then some item else r ]
          else r)
        ≡ (if b && names_column o then some item else r)
  one_test true none item r = refl
  one_test true (some name) item r = refl
  one_test false o item r = refl

  find_index_on-FindsFirst :
      (items : List SchemaItem)
      → FindsFirst
          (IsIndexOn index_column table column)
          items
          (find_index_on index_column items table column)
  unfolding find_index_on
  find_index_on-FindsFirst [] = inl (refl, tt)
  find_index_on-FindsFirst (item ∷ items) =
      subst (FindsFirst (IsIndexOn index_column table column) (item ∷ items))
        (sym
          (one_test _ (index_column item.sql) item (find_index_on index_column items table column)))
        (finds_if (IsIndexOn index_column table column) _ item items _
          (and-Decided _ _ _ _
            (and-Decided _ _ _ _ (str_eq-Decided item.type (codes "index"))
              (str_case_eq-Decided item.table_name table))
            (names_column-Decided (index_column item.sql)))
          (find_index_on-FindsFirst items))

-- The two lookups give the first item that they are asked for, a table by its name or an index by its table and
-- column, with letters compared without their case, or nothing if there is none.
pub find-FindsFirst :
    (index_column : List ℕ → Option (List ℕ)) (items : List SchemaItem) (table column : List ℕ)
    → FindsFirst (IsTableNamed table) items (find_table items table)
      × FindsFirst
          (IsIndexOn index_column table column)
          items
          (find_index_on index_column items table column)
find-FindsFirst index_column items table column =
    (find_table-FindsFirst items table, find_index_on-FindsFirst index_column table column items)

-- The larger of the two, as the loop takes it.
larger : ℕ → ℕ → ℕ
larger m k = if ltb m k then k else m

larger-bounds : (m k : ℕ) → (m ≤ larger m k) × (k ≤ larger m k)
unfolding larger
larger-bounds m k = ground arith

larger-lt : (m k bound : ℕ) → m < bound → k < bound → larger m k < bound
unfolding larger
larger-lt m k bound h g = ground arith

max_key-le : (m : ℕ) (items : List SchemaItem) → m ≤ max_key m items
unfolding max_key larger
max_key-le m [] = omega arith
max_key-le m (item ∷ items) =
    omega (arith, larger-bounds m item.key, max_key-le (larger m item.key) items)

max_key-All : (m : ℕ) (items : List SchemaItem) → All (λ item. item.key ≤ max_key m items) items
unfolding max_key larger
max_key-All m [] = tt
max_key-All m (item ∷ items) = (
  omega (arith, larger-bounds m item.key, max_key-le (larger m item.key) items),
  max_key-All (larger m item.key) items,
)

max_key-lt :
    (m bound : ℕ) (items : List SchemaItem)
    → m < bound
    → All (λ item. item.key < bound) items
    → max_key m items < bound
unfolding max_key larger
max_key-lt m bound [] h small = h
max_key-lt m bound (item ∷ items) h (key_lt, small) =
    max_key-lt (larger m item.key) bound items (larger-lt m item.key bound h key_lt) small

All-lt :
    (m bound : ℕ) (items : List SchemaItem)
    → m < bound
    → All (λ item. item.key ≤ m) items
    → All (λ item. item.key < bound) items
All-lt m bound [] h le = tt
All-lt m bound (item ∷ items) h (key_le, le) = (omega arith, All-lt m bound items h le)

-- When no row of the schema has the last key, 2^32 - 1, the key for a new row is above that of every row.
pub next_key-All :
    (items : List SchemaItem)
    → All (λ item. item.key < 2 ^ 32 - 1) items
    → All (λ item. item.key < next_key items) items
unfolding next_key
next_key-All items small =
    All-lt (max_key 0 items) ((max_key 0 items + 1) % 2 ^ 32) items
      (omega (arith, max_key-lt 0 (2 ^ 32 - 1) items (omega arith) small)) (max_key-All 0 items)
