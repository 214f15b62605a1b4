-- ===== src/Node/Load.antt =====
-- src/libchidb/btree.c: a node that `chidb_Btree_writeNode` writes is loaded as it was by
-- `chidb_Btree_getNodeByPage`.
use chidb.Prelude.{
  ℕ, ◌+◌, ◌%◌, ◌^◌, ◌≤◌, ◌<◌, ◌≡◌, refl, sym, ◌∙◌, inl, inr, arith, true, false, Bool-cases,
}
use chidb.Bytes.{Bytes, store, get2byte, put2byte, get4byte, put4byte}
use chidb.Bytes.Laws.{
  get2byte-same, get4byte-same, get2byte-put2byte, get4byte-put4byte, put4byte-frame,
}
use chidb.Pager.{MemPage}
use chidb.Pager.Laws.{trim}
use chidb.Node.{
  BTreeNode, is_internal, node_header_base, node_header_size, cell_offset, load_node, store_node,
}
use chidb.Node.Entries.{
  IsNode, SameOn, stored_size, stored_size-same, entry-same, tabulate-same, entries, entry_at,
}

-- The fields of a node agree with the place of its page and its type.
pub record IsHeader (btn : BTreeNode) : Type 0 where
  pub array_at : btn.celloffset_array ≡ node_header_base btn.page.npage + node_header_size btn.type
  pub right_page_lt : btn.right_page < 2 ^ 32
  pub leaf_right_page : is_internal btn.type ≡ false → btn.right_page ≡ 0

module _ (d : Bytes) (base type free n cells right : ℕ) where
  -- The header of a leaf, and of an internal node.
  abbrev leaf_page : Bytes
  leaf_page =
      store
        (put2byte (put2byte (put2byte (store d base type) (base + 1) free) (base + 3) n) (base + 5)
          cells)
        (base + 7) 0

  abbrev internal_page : Bytes
  internal_page = put4byte leaf_page (base + 8) right

  leaf_type : leaf_page base ≡ type
  unfolding store put2byte
  leaf_type = ground arith

  leaf_free : get2byte leaf_page (base + 1) ≡ free % 2 ^ 16
  leaf_free =
      get2byte-same _ _ (base + 1) same ∙ get2byte-put2byte (store d base type) (base + 1) free
    where
      same :
          (j : ℕ)
          → base + 1 ≤ j
          → j < base + 1 + 2
          → leaf_page j ≡ put2byte (store d base type) (base + 1) free j
      same j h g = unfold store put2byte in ground arith

  leaf_n_cells : get2byte leaf_page (base + 3) ≡ n % 2 ^ 16
  leaf_n_cells =
      get2byte-same _ _ (base + 3) same
      ∙ get2byte-put2byte (put2byte (store d base type) (base + 1) free) (base + 3) n
    where
      same :
          (j : ℕ)
          → base + 3 ≤ j
          → j < base + 3 + 2
          → leaf_page j ≡ put2byte (put2byte (store d base type) (base + 1) free) (base + 3) n j
      same j h g = unfold store put2byte in ground arith

  leaf_cells : get2byte leaf_page (base + 5) ≡ cells % 2 ^ 16
  leaf_cells =
      get2byte-same _ _ (base + 5) same
      ∙ get2byte-put2byte (put2byte (put2byte (store d base type) (base + 1) free) (base + 3) n)
          (base + 5) cells
    where
      same :
          (j : ℕ)
          → base + 5 ≤ j
          → j < base + 5 + 2
          → leaf_page j
            ≡ put2byte
                (put2byte (put2byte (store d base type) (base + 1) free) (base + 3) n)
                (base + 5)
                cells
                j
      same j h g = unfold store in ground arith

  leaf_frame : (j : ℕ) → base + 8 ≤ j → leaf_page j ≡ d j
  unfolding store put2byte
  leaf_frame j h = ground arith

  internal_same : (j : ℕ) → j < base + 8 → internal_page j ≡ leaf_page j
  internal_same j h = put4byte-frame leaf_page (base + 8) right j (inl h)

  internal_frame : (j : ℕ) → base + 12 ≤ j → internal_page j ≡ d j
  internal_frame j h =
      put4byte-frame leaf_page (base + 8) right j (inr (omega arith)) ∙ leaf_frame j (omega arith)

-- The fields that a load finds.
module _ (page : MemPage) (btn : BTreeNode)
    (type_is : page.data_ (node_header_base page.npage) ≡ btn.type)
    (free_is : get2byte page.data_ (node_header_base page.npage + 1) ≡ btn.free_offset)
    (count_is : get2byte page.data_ (node_header_base page.npage + 3) ≡ btn.n_cells)
    (cells_is : get2byte page.data_ (node_header_base page.npage + 5) ≡ btn.cells_offset) where
  load_internal :
      is_internal btn.type ≡ true
      → get4byte page.data_ (node_header_base page.npage + 8) ≡ btn.right_page
      → btn.celloffset_array ≡ node_header_base page.npage + 12
      → load_node page ≡ record btn { page = page }
  unfolding load_node
  load_internal e right array = rw (type_is, e) (ground (arith, array))

  load_leaf :
      is_internal btn.type ≡ false
      → btn.right_page ≡ 0
      → btn.celloffset_array ≡ node_header_base page.npage + 8
      → load_node page ≡ record btn { page = page }
  unfolding load_node
  load_leaf e right array = rw (type_is, e) (ground (arith, array))

module _ (btn : BTreeNode) (page_size : ℕ) (is : IsNode page_size btn) (header : IsHeader btn) where
  open is use {is_type, size_lt, array_end, array_le, cells_le, cell_from, cell_to}
  open header use {array_at, right_page_lt, leaf_right_page}

  -- The page as it is found in the file after the write.
  abbrev pub stored_page : MemPage
  stored_page = record { npage = btn.page.npage; data_ = trim page_size (store_node btn).data_ }

  abbrev base : ℕ
  base = node_header_base btn.page.npage

  abbrev as_leaf : Bytes
  as_leaf = leaf_page btn.page.data_ base btn.type btn.free_offset btn.n_cells btn.cells_offset 0

  abbrev as_internal : Bytes
  as_internal =
      internal_page btn.page.data_ base btn.type btn.free_offset btn.n_cells btn.cells_offset
        btn.right_page

  stored_internal :
      is_internal btn.type ≡ true → (j : ℕ) → j < page_size → stored_page.data_ j ≡ as_internal j
  unfolding store_node
  stored_internal internal j h = rw internal (ground arith)

  stored_leaf :
      is_internal btn.type ≡ false → (j : ℕ) → j < page_size → stored_page.data_ j ≡ as_leaf j
  unfolding store_node
  stored_leaf leaf j h = rw leaf (ground arith)

  header_in : base + 8 ≤ btn.celloffset_array
  unfolding node_header_size
  header_in = ground (arith, array_at)

  header_in_internal : is_internal btn.type ≡ true → btn.celloffset_array ≡ base + 12
  unfolding node_header_size
  header_in_internal e = rw array_at (rw e refl)

  header_in_leaf : is_internal btn.type ≡ false → btn.celloffset_array ≡ base + 8
  unfolding node_header_size
  header_in_leaf e = rw array_at (rw e refl)

  -- The header fields of the stored page agree with those of the leaf header.
  stored_header : (j : ℕ) → j < base + 8 → stored_page.data_ j ≡ as_leaf j
  stored_header j h = elim (Bool-cases (is_internal btn.type)) [
    | inl e ↦ stored_internal e j (omega (arith, header_in)) ∙ internal_same _ _ _ _ _ _ _ j h
    | inr e ↦ stored_leaf e j (omega (arith, header_in))
  ]

  stored_type : stored_page.data_ base ≡ btn.type
  stored_type = stored_header base (omega arith) ∙ leaf_type _ _ _ _ _ _ 0

  stored_free : get2byte stored_page.data_ (base + 1) ≡ btn.free_offset
  stored_free =
      get2byte-same _ as_leaf _ (λ j h g. stored_header j (omega arith))
      ∙ leaf_free _ _ _ _ _ _ 0
      ∙ omega arith

  stored_n_cells : get2byte stored_page.data_ (base + 3) ≡ btn.n_cells
  stored_n_cells =
      get2byte-same _ as_leaf _ (λ j h g. stored_header j (omega arith))
      ∙ leaf_n_cells _ _ _ _ _ _ 0
      ∙ omega arith

  stored_cells : get2byte stored_page.data_ (base + 5) ≡ btn.cells_offset
  stored_cells =
      get2byte-same _ as_leaf _ (λ j h g. stored_header j (omega arith))
      ∙ leaf_cells _ _ _ _ _ _ 0
      ∙ omega arith

  stored_right :
      is_internal btn.type ≡ true → get4byte stored_page.data_ (base + 8) ≡ btn.right_page
  stored_right e =
      get4byte-same _ as_internal _
        (λ j h g. stored_internal e j (omega (arith, header_in_internal e)))
      ∙ get4byte-put4byte _ (base + 8) btn.right_page
      ∙ omega arith

  -- Loading the page gives the node back, over the page as it was stored.
  pub load_node-store_node : load_node stored_page ≡ record btn { page = stored_page }
  load_node-store_node = elim (Bool-cases (is_internal btn.type)) [
    | inl e ↦
        load_internal stored_page btn stored_type stored_free stored_n_cells stored_cells e
          (stored_right e) (header_in_internal e)
    | inr e ↦
        load_leaf stored_page btn stored_type stored_free stored_n_cells stored_cells e
          (leaf_right_page e) (header_in_leaf e)
  ]

  array_in : base + 8 ≤ btn.celloffset_array
  array_in = header_in

  -- The cells and their offsets are not touched by the header.
  pub stored_body :
      (j : ℕ) → btn.celloffset_array ≤ j → j < page_size → btn.page.data_ j ≡ stored_page.data_ j
  stored_body j h g = elim (Bool-cases (is_internal btn.type)) [
    | inl e ↦ sym (
        stored_internal e j g
        ∙ internal_frame _ _ _ _ _ _ _ j (omega (arith, header_in_internal e)))
    | inr e ↦ sym (stored_leaf e j g ∙ leaf_frame _ _ _ _ _ _ 0 j (omega (arith, header_in_leaf e)))
  ]

-- Two pages with the same array and the same cells hold the same entries.
module _ (btn : BTreeNode) (page_size : ℕ) (is : IsNode page_size btn) (page : MemPage)
    (same : (j : ℕ)
      → btn.celloffset_array ≤ j
      → j < page_size
      → btn.page.data_ j ≡ page.data_ j) where
  open is use {is_type, size_lt, array_end, array_le, cells_le, cell_from, cell_to}

  same_offset :
      (i : ℕ) → i < btn.n_cells → cell_offset (record btn { page = page }) i ≡ cell_offset btn i
  unfolding cell_offset
  same_offset i h = sym (get2byte-same _ _ _ λ j l g. same j (omega arith) (omega arith))

  same_cell :
      (i : ℕ)
      → i < btn.n_cells
      → SameOn btn.page.data_ page.data_
          (cell_offset btn i)
          (stored_size btn.type btn.page.data_ (cell_offset btn i))
  same_cell i h j l g = same j (omega (arith, cell_from i h)) (omega (arith, cell_to i h))

  same_entry : (i : ℕ) → i < btn.n_cells → entry_at (record btn { page = page }) i ≡ entry_at btn i
  unfolding entry_at
  same_entry i h =
      rw (same_offset i h)
        (sym (entry-same _ _ (cell_offset btn i) btn.type is_type (same_cell i h)))

  pub entries-same_page : entries (record btn { page = page }) ≡ entries btn
  unfolding entries
  entries-same_page = tabulate-same _ _ btn.n_cells same_entry

  pub IsNode-same_page : IsNode page_size (record btn { page = page })
  IsNode-same_page = record {
    is_type = is_type;
    size_lt = size_lt;
    array_end = array_end;
    array_le = array_le;
    cells_le = cells_le;
    cell_from = λ i h. rw (same_offset i h) (cell_from i h);
    cell_to = λ i h.
        rw
          (
            same_offset i h,
            stored_size-same _ _ (cell_offset btn i) btn.type is_type (same_cell i h),
          )
          (cell_to i h);
  }
