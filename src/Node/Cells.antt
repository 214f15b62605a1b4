-- ===== src/Node/Cells.antt =====
-- src/libchidb/btree.c: a cell that `chidb_Btree_insertCell` writes, read back by `chidb_Btree_getCell`.
use chidb.Prelude.{ℕ, ◌+◌, ◌^◌, ◌≤◌, ◌<◌, ◌≡◌, ◌⊎◌, refl, ap, ◌∙◌, inl, arith, if◌then◌else◌, ◌==◌}
use chidb.Bytes.{Bytes, put4byte, get_varint32, put_varint32}
use chidb.Bytes.Laws.{
  get4byte-same, get_varint32-same, get4byte-put4byte, get_varint32-put_varint32, put4byte-frame,
  put_varint32-frame, memcpy-frame, memcpy_copies,
}
use chidb.Node.PageType
use chidb.Node.{BTreeCell, cell_size, parse_cell, write_cell}
use chidb.Node.Entries.{IsType, IsType-cases, slice, slice-same, entry, stored_size}

-- The numbers of a cell fit the format of the page type, and the fields of other formats are not set.
abbrev pub CellFits : ℕ → BTreeCell → Type 0
CellFits type c =
    if type == PageType.table_internal
    then (c.child_page < 2 ^ 32) × (c.key < 2 ^ 28) × (c.key_pk ≡ 0) × (c.data_size ≡ 0)
    else if type == PageType.table_leaf
    then (c.key < 2 ^ 28) × (10 + c.data_size < 2 ^ 16) × (c.child_page ≡ 0) × (c.key_pk ≡ 0)
    else if type == PageType.index_internal
    then (c.child_page < 2 ^ 32) × (c.key < 2 ^ 32) × (c.key_pk < 2 ^ 32) × (c.data_size ≡ 0)
    else (c.key < 2 ^ 32) × (c.key_pk < 2 ^ 32) × (c.child_page ≡ 0) × (c.data_size ≡ 0)

module _ (d : Bytes) (o : ℕ) (c : BTreeCell) where
  leaf_size :
      c.data_size < 2 ^ 28 → get_varint32 (write_cell PageType.table_leaf d o c) o ≡ c.data_size
  unfolding write_cell
  leaf_size h = ground (
    arith,
    get_varint32-same (write_cell PageType.table_leaf d o c) (put_varint32 d o c.data_size) o
        (λ j l g.
          memcpy-frame _ (o + 8) c.data_ 0 c.data_size j (inl (omega arith))
          ∙ put_varint32-frame _ (o + 4) c.key j (inl (omega arith))),
    get_varint32-put_varint32 d o c.data_size,
  )

  leaf_key : c.key < 2 ^ 28 → get_varint32 (write_cell PageType.table_leaf d o c) (o + 4) ≡ c.key
  unfolding write_cell
  leaf_key h = ground (
    arith,
    get_varint32-same (write_cell PageType.table_leaf d o c)
        (put_varint32 (put_varint32 d o c.data_size) (o + 4) c.key) (o + 4)
        (λ j l g. memcpy-frame _ (o + 8) c.data_ 0 c.data_size j (inl (omega arith))),
    get_varint32-put_varint32 (put_varint32 d o c.data_size) (o + 4) c.key,
  )

  leaf_data :
      (k : ℕ) → k < c.data_size → write_cell PageType.table_leaf d o c (o + 8 + k) ≡ c.data_ k
  unfolding write_cell
  leaf_data k h = ground (
    arith,
    memcpy_copies (put_varint32 (put_varint32 d o c.data_size) (o + 4) c.key) (o + 8) c.data_ 0
        c.data_size k,
  )

  parse-write_table_leaf :
      CellFits PageType.table_leaf c
      → entry (parse_cell PageType.table_leaf (write_cell PageType.table_leaf d o c) o) ≡ entry c
  unfolding entry parse_cell
  parse-write_table_leaf h = ground (
    arith,
    leaf_size,
    leaf_key,
    slice-same (λ k. write_cell PageType.table_leaf d o c (o + 8 + k)) c.data_ c.data_size
        leaf_data,
  )

  parse-write_table_internal :
      CellFits PageType.table_internal c
      → entry (parse_cell PageType.table_internal (write_cell PageType.table_internal d o c) o)
        ≡ entry c
  unfolding entry parse_cell write_cell slice
  parse-write_table_internal h = ground (
    arith,
    get4byte-same (put_varint32 (put4byte d o c.child_page) (o + 4) c.key)
        (put4byte d o c.child_page) o
        (λ j l g. put_varint32-frame _ (o + 4) c.key j (inl (omega arith))),
    get4byte-put4byte d o c.child_page,
    get_varint32-put_varint32 (put4byte d o c.child_page) (o + 4) c.key,
    ap (slice c.data_) (h.3),
  )

  parse-write_index_internal :
      CellFits PageType.index_internal c
      → entry (parse_cell PageType.index_internal (write_cell PageType.index_internal d o c) o)
        ≡ entry c
  unfolding entry parse_cell write_cell slice
  parse-write_index_internal h = ground (
    arith,
    get4byte-same (put4byte (put4byte (put4byte d o c.child_page) (o + 8) c.key) (o + 12) c.key_pk)
        (put4byte d o c.child_page) o
        (λ j l g.
          put4byte-frame _ (o + 12) c.key_pk j (inl (omega arith))
          ∙ put4byte-frame _ (o + 8) c.key j (inl (omega arith))),
    get4byte-put4byte d o c.child_page,
    get4byte-same (put4byte (put4byte (put4byte d o c.child_page) (o + 8) c.key) (o + 12) c.key_pk)
        (put4byte (put4byte d o c.child_page) (o + 8) c.key) (o + 8)
        (λ j l g. put4byte-frame _ (o + 12) c.key_pk j (inl (omega arith))),
    get4byte-put4byte (put4byte d o c.child_page) (o + 8) c.key,
    get4byte-put4byte (put4byte (put4byte d o c.child_page) (o + 8) c.key) (o + 12) c.key_pk,
    ap (slice c.data_) (h.3),
  )

  parse-write_index_leaf :
      CellFits PageType.index_leaf c
      → entry (parse_cell PageType.index_leaf (write_cell PageType.index_leaf d o c) o) ≡ entry c
  unfolding entry parse_cell write_cell slice
  parse-write_index_leaf h = ground (
    arith,
    get4byte-same (put4byte (put4byte d (o + 4) c.key) (o + 8) c.key_pk) (put4byte d (o + 4) c.key)
        (o + 4) (λ j l g. put4byte-frame _ (o + 8) c.key_pk j (inl (omega arith))),
    get4byte-put4byte d (o + 4) c.key,
    get4byte-put4byte (put4byte d (o + 4) c.key) (o + 8) c.key_pk,
    ap (slice c.data_) (h.3),
  )

  -- A cell is read back as it was written.
  pub parse_cell-write_cell :
      (type : ℕ)
      → IsType type
      → CellFits type c
      → entry (parse_cell type (write_cell type d o c) o) ≡ entry c
  parse_cell-write_cell =
      IsType-cases
        (λ type. CellFits type c → entry (parse_cell type (write_cell type d o c) o) ≡ entry c)
        parse-write_table_internal parse-write_table_leaf parse-write_index_internal
        parse-write_index_leaf

  pub stored_size-write_cell :
      (type : ℕ)
      → IsType type
      → CellFits type c
      → stored_size type (write_cell type d o c) o ≡ cell_size type c
  unfolding stored_size cell_size
  stored_size-write_cell =
      IsType-cases
        (λ type. CellFits type c → stored_size type (write_cell type d o c) o ≡ cell_size type c)
        (λ h. refl) (λ h. ground (arith, leaf_size)) (λ h. refl) (λ h. refl)

  -- The cell changes the bytes of its place only.
  pub write_cell-frame :
      (type : ℕ)
      → IsType type
      → CellFits type c
      → (j : ℕ) → (j < o) ⊎ (o + cell_size type c ≤ j)
      → write_cell type d o c j ≡ d j
  unfolding write_cell cell_size
  write_cell-frame =
      IsType-cases
        (λ type.
          CellFits type c
          → (j : ℕ) → (j < o) ⊎ (o + cell_size type c ≤ j)
          → write_cell type d o c j ≡ d j)
        (λ h j out.
          put_varint32-frame _ (o + 4) c.key j (omega arith)
          ∙ put4byte-frame d o c.child_page j (omega arith))
        (λ h j out.
          memcpy-frame _ (o + 8) c.data_ 0 c.data_size j (omega arith)
          ∙ put_varint32-frame _ (o + 4) c.key j (omega arith)
          ∙ put_varint32-frame d o c.data_size j (omega arith))
        (λ h j out.
          put4byte-frame _ (o + 12) c.key_pk j (omega arith)
          ∙ put4byte-frame _ (o + 8) c.key j (omega arith)
          ∙ put4byte-frame d o c.child_page j (omega arith))
        (λ h j out.
          put4byte-frame _ (o + 8) c.key_pk j (omega arith)
          ∙ put4byte-frame d (o + 4) c.key j (omega arith))
