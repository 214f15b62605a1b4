-- ===== src/Node/Entries.antt =====
-- src/libchidb/btree.c: the list of entries that a node holds, and when its page is well formed.
use chidb.Prelude.{
  ℕ, zero, suc, ◌+◌, ◌*◌, ◌^◌, ◌≤◌, ◌<◌, ◌≡◌, ◌⊎◌, refl, sym, ap, ap₂, subst, inl, inr, arith, List,
  [], ◌∷◌, if◌then◌else◌, ◌==◌,
}
use chidb.Bytes.{Bytes, get_varint32}
use chidb.Bytes.Laws.{get4byte-same, get_varint32-same}
use chidb.Node.PageType
use chidb.Node.{BTreeNode, BTreeCell, parse_cell, cell_offset}

-- The bytes of a payload.
unfoldable pub slice : Bytes → ℕ → List ℕ
slice d zero = []
slice d (suc n) = d 0 ∷ slice (λ k. d (suc k)) n

pub slice-same : (d e : Bytes) (n : ℕ) → ((k : ℕ) → k < n → d k ≡ e k) → slice d n ≡ slice e n
unfolding slice
slice-same d e zero h = refl
slice-same d e (suc n) h =
    ap₂ ◌∷◌ (h 0 (omega arith)) (slice-same _ _ n λ k l. h (suc k) (omega arith))

-- A cell without its place in a page.
pub record Entry : Type 0 where
  pub key : ℕ
  pub child_page : ℕ
  pub key_pk : ℕ
  pub payload : List ℕ

unfoldable pub entry : BTreeCell → Entry
entry c = record {
  key = c.key;
  child_page = c.child_page;
  key_pk = c.key_pk;
  payload = slice c.data_ c.data_size;
}

abbrev pub IsType : ℕ → Type 0
IsType type =
    (type ≡ PageType.table_internal)
    ⊎ ((type ≡ PageType.table_leaf)
        ⊎ ((type ≡ PageType.index_internal) ⊎ (type ≡ PageType.index_leaf)))

pub IsType-cases :
    (P : ℕ → Type 0)
    → P PageType.table_internal
    → P PageType.table_leaf
    → P PageType.index_internal
    → P PageType.index_leaf
    → (type : ℕ) → IsType type
    → P type
IsType-cases P a b c d type (inl t) = subst P (sym t) a
IsType-cases P a b c d type (inr (inl t)) = subst P (sym t) b
IsType-cases P a b c d type (inr (inr (inl t))) = subst P (sym t) c
IsType-cases P a b c d type (inr (inr (inr t))) = subst P (sym t) d

-- The bytes that a cell takes in its page.
unfoldable pub stored_size : ℕ → Bytes → ℕ → ℕ
stored_size type d offset =
    if type == PageType.table_internal
    then 8
    else if type == PageType.table_leaf
    then 8 + get_varint32 d offset
    else if type == PageType.index_internal
    then 16
    else if type == PageType.index_leaf
    then 12
    else 0

-- Two pages agree on the bytes of a cell.
abbrev pub SameOn : Bytes → Bytes → ℕ → ℕ → Type 0
SameOn d e from size = (j : ℕ) → from ≤ j → j < from + size → d j ≡ e j

module _ (d e : Bytes) (o : ℕ) where
  same-table_leaf :
      SameOn d e o (8 + get_varint32 d o)
      → entry (parse_cell PageType.table_leaf d o) ≡ entry (parse_cell PageType.table_leaf e o)
  unfolding entry parse_cell
  same-table_leaf same = ground (
    arith,
    get_varint32-same d e o (λ j h g. same j h (omega arith)),
    get_varint32-same d e (o + 4) (λ j h g. same j (omega arith) (omega arith)),
    slice-same (λ k. d (o + 8 + k)) (λ k. e (o + 8 + k)) (get_varint32 d o)
        (λ k l. same (o + 8 + k) (omega arith) (omega arith)),
  )

  same-table_internal :
      SameOn d e o 8
      → entry (parse_cell PageType.table_internal d o)
        ≡ entry (parse_cell PageType.table_internal e o)
  unfolding entry parse_cell
  same-table_internal same = ground (
    arith,
    get4byte-same d e o (λ j h g. same j h (omega arith)),
    get_varint32-same d e (o + 4) (λ j h g. same j (omega arith) (omega arith)),
  )

  same-index_internal :
      SameOn d e o 16
      → entry (parse_cell PageType.index_internal d o)
        ≡ entry (parse_cell PageType.index_internal e o)
  unfolding entry parse_cell
  same-index_internal same = ground (
    arith,
    get4byte-same d e o (λ j h g. same j h (omega arith)),
    get4byte-same d e (o + 8) (λ j h g. same j (omega arith) (omega arith)),
    get4byte-same d e (o + 12) (λ j h g. same j (omega arith) (omega arith)),
  )

  same-index_leaf :
      SameOn d e o 12
      → entry (parse_cell PageType.index_leaf d o) ≡ entry (parse_cell PageType.index_leaf e o)
  unfolding entry parse_cell
  same-index_leaf same = ground (
    arith,
    get4byte-same d e (o + 4) (λ j h g. same j (omega arith) (omega arith)),
    get4byte-same d e (o + 8) (λ j h g. same j (omega arith) (omega arith)),
  )

  -- What a cell holds depends on its own bytes only.
  pub entry-same :
      (type : ℕ)
      → IsType type
      → SameOn d e o (stored_size type d o)
      → entry (parse_cell type d o) ≡ entry (parse_cell type e o)
  unfolding stored_size
  entry-same =
      IsType-cases
        (λ type.
          SameOn d e o (stored_size type d o)
          → entry (parse_cell type d o) ≡ entry (parse_cell type e o))
        same-table_internal same-table_leaf same-index_internal same-index_leaf

module _ (d e : Bytes) (o : ℕ) where
  pub stored_size-same :
      (type : ℕ)
      → IsType type
      → SameOn d e o (stored_size type d o)
      → stored_size type e o ≡ stored_size type d o
  unfolding stored_size
  stored_size-same =
      IsType-cases
        (λ type. SameOn d e o (stored_size type d o) → stored_size type e o ≡ stored_size type d o)
        (λ same. refl)
        (λ same.
          ap (λ (t : ℕ). 8 + t) (sym (get_varint32-same d e o λ j h g. same j h (omega arith))))
        (λ same. refl) (λ same. refl)

-- The first `n` values of a function.
unfoldable pub tabulate {ℓ} : {A : Type ℓ} → (ℕ → A) → ℕ → List A
tabulate f zero = []
tabulate f (suc n) = f 0 ∷ tabulate (λ i. f (suc i)) n

pub tabulate-same {ℓ} :
    {A : Type ℓ} (f g : ℕ → A) (n : ℕ) → ((i : ℕ) → i < n → f i ≡ g i) → tabulate f n ≡ tabulate g n
unfolding tabulate
tabulate-same f g zero h = refl
tabulate-same f g (suc n) h =
    ap₂ ◌∷◌ (h 0 (omega arith)) (tabulate-same _ _ n λ i l. h (suc i) (omega arith))

unfoldable pub entry_at : BTreeNode → ℕ → Entry
entry_at btn i = entry (parse_cell btn.type btn.page.data_ (cell_offset btn i))

-- The entries of a node, in the order of its cell offset array.
unfoldable pub entries : BTreeNode → List Entry
entries btn = tabulate (entry_at btn) btn.n_cells

-- A node in a page of `page_size` bytes: its cell offset array ends at `free_offset`, and its cells
-- lie between `cells_offset` and the end of the page.
pub record IsNode (page_size : ℕ) (btn : BTreeNode) : Type 0 where
  pub is_type : IsType btn.type
  pub size_lt : page_size < 2 ^ 16
  pub array_end : btn.free_offset ≡ btn.celloffset_array + btn.n_cells * 2
  pub array_le : btn.free_offset ≤ btn.cells_offset
  pub cells_le : btn.cells_offset ≤ page_size
  pub cell_from : (i : ℕ) → i < btn.n_cells → btn.cells_offset ≤ cell_offset btn i
  pub cell_to :
      (i : ℕ)
      → i < btn.n_cells
      → cell_offset btn i + stored_size btn.type btn.page.data_ (cell_offset btn i) ≤ page_size
