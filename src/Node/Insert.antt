-- ===== src/Node/Insert.antt =====
-- src/libchidb/btree.c: `chidb_Btree_insertCell` inserts an entry into the list of the node's entries.
use chidb.Prelude.{
  ℕ, zero, suc, ◌+◌, ◌-◌, ◌*◌, ◌%◌, ◌^◌, ◌≤◌, ◌<◌, ◌≡◌, ◌⊎◌, sym, ap, ap₂, ◌∙◌, subst, inl, inr,
  arith, some, List, [], ◌∷◌, eq-cases,
}
use chidb.Bytes.{Bytes, get2byte, put2byte}
use chidb.Bytes.Laws.{get2byte-same, get2byte-put2byte, get2byte-put2byte_ne, put2byte-frame}
use chidb.Node.{
  BTreeNode, BTreeCell, cell_size, cell_offset, write_cell, shift_offsets, insert_cell,
}
use chidb.Node.Cells.{CellFits, parse_cell-write_cell, stored_size-write_cell, write_cell-frame}
use chidb.Node.Shift.{shift_offsets-frame, shift_offsets_moves}
use chidb.Node.Entries.{
  IsNode, entry, entry-same, stored_size, stored_size-same, SameOn, tabulate, tabulate-same,
  entry_at, entries,
}

-- `x` at position `i` of a list.
unfoldable pub insert_at {ℓ} : {A : Type ℓ} → ℕ → A → List A → List A
insert_at zero x xs = x ∷ xs
insert_at (suc i) x [] = x ∷ []
insert_at (suc i) x (y ∷ ys) = y ∷ insert_at i x ys

tabulate-insert_at {ℓ} :
    {A : Type ℓ} (n p : ℕ) (f g : ℕ → A) (x : A)
    → p ≤ n
    → ((i : ℕ) → i < p → f i ≡ g i)
    → f p ≡ x
    → ((i : ℕ) → p ≤ i → i < n → f (suc i) ≡ g i)
    → tabulate f (suc n) ≡ insert_at p x (tabulate g n)
unfolding tabulate insert_at
tabulate-insert_at n zero f g x h lo at hi =
    ap₂ ◌∷◌ at (tabulate-same _ _ n λ i l. hi i (omega arith) l)
tabulate-insert_at zero (suc p) f g x h lo at hi = absurd (omega arith)
tabulate-insert_at (suc n) (suc p) f g x h lo at hi = ap₂ ◌∷◌ (lo 0 (omega arith)) (
    tabulate-insert_at n p (λ i. f (suc i)) (λ i. g (suc i)) x (omega arith)
      (λ i l. lo (suc i) (omega arith)) at (λ i l m. hi (suc i) (omega arith) (omega arith)))

-- The node that `chidb_Btree_insertCell` leaves.
module _ (btn : BTreeNode) (pos : ℕ) (cell : BTreeCell) where
  abbrev new_offset : ℕ
  new_offset = btn.cells_offset - cell_size btn.type cell

  -- The page with the cell, with the array moved, and with the new entry of the array.
  abbrev page1 : Bytes
  page1 = write_cell btn.type btn.page.data_ new_offset cell

  abbrev page2 : Bytes
  page2 = shift_offsets page1 btn.celloffset_array pos (btn.n_cells - pos)

  abbrev page3 : Bytes
  page3 = put2byte page2 (btn.celloffset_array + pos * 2) new_offset

  abbrev pub inserted : BTreeNode
  inserted = record btn {
    page = record { npage = btn.page.npage; data_ = page3 };
    cells_offset = new_offset;
    n_cells = btn.n_cells + 1;
    free_offset = btn.free_offset + 2;
  }

-- There is room for the cell and its entry in the array.
abbrev pub Fits : BTreeNode → BTreeCell → Type 0
Fits btn cell = cell_size btn.type cell + 2 + btn.free_offset ≤ btn.cells_offset

module _ (page_size : ℕ) (btn : BTreeNode) (pos : ℕ) (cell : BTreeCell) (is : IsNode page_size btn)
    (cell_fits : CellFits btn.type cell) (fits : Fits btn cell) (pos_le : pos ≤ btn.n_cells) where
  open is use {is_type, size_lt, array_end, array_le, cells_le, cell_from, cell_to}

  offset_wraps :
      (btn.cells_offset + 2 ^ 16 - cell_size btn.type cell) % 2 ^ 16 ≡ new_offset btn pos cell
  offset_wraps = omega arith

  count_wraps : (btn.n_cells + 1) % 2 ^ 16 ≡ btn.n_cells + 1
  count_wraps = omega arith

  free_wraps : (btn.free_offset + 2) % 2 ^ 16 ≡ btn.free_offset + 2
  free_wraps = omega arith

  pub insert_cell-inserted : insert_cell btn pos cell ≡ some (inserted btn pos cell)
  unfolding insert_cell
  insert_cell-inserted = rw (offset_wraps, count_wraps, free_wraps) (ground arith)

  -- Where the page stays as it was.
  page1-frame :
      (j : ℕ)
      → (j < new_offset btn pos cell) ⊎ (btn.cells_offset ≤ j)
      → page1 btn pos cell j ≡ btn.page.data_ j
  page1-frame j out =
      write_cell-frame btn.page.data_ _ cell btn.type is_type cell_fits j (omega arith)

  page3-frame :
      (j : ℕ)
      → (j < btn.celloffset_array + pos * 2) ⊎ (btn.free_offset + 2 ≤ j)
      → page3 btn pos cell j ≡ page1 btn pos cell j
  page3-frame j out =
      put2byte-frame _ (btn.celloffset_array + pos * 2) _ j (omega arith)
      ∙ shift_offsets-frame btn.celloffset_array pos _ (btn.n_cells - pos) j (omega arith)

  cells_stay : (j : ℕ) → btn.cells_offset ≤ j → page3 btn pos cell j ≡ btn.page.data_ j
  cells_stay j h = page3-frame j (omega arith) ∙ page1-frame j (inr h)

  -- The array, entry by entry.
  page1_slot :
      (i : ℕ)
      → i < btn.n_cells
      → get2byte (page1 btn pos cell) (btn.celloffset_array + i * 2) ≡ cell_offset btn i
  unfolding cell_offset
  page1_slot i h = get2byte-same _ _ _ λ j l g. page1-frame j (omega arith)

  slot_lt : (i : ℕ) → i < btn.n_cells → cell_offset btn i < 2 ^ 16
  slot_lt i h = omega (arith, cell_to i h)

  slot_below : (i : ℕ) → i < pos → cell_offset (inserted btn pos cell) i ≡ cell_offset btn i
  unfolding cell_offset
  slot_below i h =
      get2byte-same _ _ _ λ j l g. page3-frame j (omega arith) ∙ page1-frame j (omega arith)

  slot_self : cell_offset (inserted btn pos cell) pos ≡ new_offset btn pos cell
  unfolding cell_offset
  slot_self =
      get2byte-put2byte (page2 btn pos cell) (btn.celloffset_array + pos * 2)
        (new_offset btn pos cell)
      ∙ omega arith

  slot_above :
      (i : ℕ)
      → pos ≤ i
      → i < btn.n_cells
      → cell_offset (inserted btn pos cell) (suc i) ≡ cell_offset btn i
  unfolding cell_offset
  slot_above i h g = ground (
    arith,
    get2byte-put2byte_ne (page2 btn pos cell) (btn.celloffset_array + pos * 2)
        (new_offset btn pos cell) (btn.celloffset_array + suc i * 2),
    shift_offsets_moves btn.celloffset_array pos (page1 btn pos cell) (btn.n_cells - pos)
        (λ m l. rw (page1_slot (pos + m) (omega arith)) (slot_lt (pos + m) (omega arith))) (i - pos)
        (omega arith),
    page1_slot i g,
    same_slot i h,
  )
    where
      same_slot : (i : ℕ) → pos ≤ i → pos + (i - pos) ≡ i
      same_slot i h = omega arith

  -- An old cell is at its old place.
  old_cell :
      (i : ℕ)
      → i < btn.n_cells
      → SameOn btn.page.data_
          (page3 btn pos cell)
          (cell_offset btn i)
          (stored_size btn.type btn.page.data_ (cell_offset btn i))
  old_cell i h j l g = sym (cells_stay j (omega (arith, cell_from i h)))

  old_entry :
      (i m : ℕ)
      → i < btn.n_cells
      → cell_offset (inserted btn pos cell) m ≡ cell_offset btn i
      → entry_at (inserted btn pos cell) m ≡ entry_at btn i
  unfolding entry_at
  old_entry i m h e = rw e (
      sym (
        entry-same btn.page.data_ (page3 btn pos cell) (cell_offset btn i) btn.type is_type
          (old_cell i h)))

  -- The new cell is at the new offset.
  new_cell :
      SameOn
        (page1 btn pos cell)
        (page3 btn pos cell)
        (new_offset btn pos cell)
        (stored_size btn.type (page1 btn pos cell) (new_offset btn pos cell))
  new_cell j l g = sym (page3-frame j (inr (omega arith)))

  new_entry : entry_at (inserted btn pos cell) pos ≡ entry cell
  unfolding entry_at
  new_entry = rw slot_self (
      sym (
        entry-same (page1 btn pos cell) (page3 btn pos cell) (new_offset btn pos cell) btn.type
          is_type new_cell)
      ∙ parse_cell-write_cell btn.page.data_ (new_offset btn pos cell) cell btn.type is_type
          cell_fits)

  -- `chidb_Btree_insertCell` puts the entry of the cell at the position that it is given.
  pub entries-inserted : entries (inserted btn pos cell) ≡ insert_at pos (entry cell) (entries btn)
  unfolding entries
  entries-inserted =
      ap (tabulate (entry_at (inserted btn pos cell))) one_more
      ∙ tabulate-insert_at btn.n_cells pos (entry_at (inserted btn pos cell)) (entry_at btn)
          (entry cell) pos_le (λ i h. old_entry i i (omega arith) (slot_below i h)) new_entry
          (λ i h g. old_entry i (suc i) g (slot_above i h g))
    where
      one_more : btn.n_cells + 1 ≡ suc btn.n_cells
      one_more = omega arith

  old_size :
      (i m : ℕ)
      → i < btn.n_cells
      → cell_offset (inserted btn pos cell) m ≡ cell_offset btn i
      → stored_size btn.type (page3 btn pos cell) (cell_offset (inserted btn pos cell) m)
        ≡ stored_size btn.type btn.page.data_ (cell_offset btn i)
  old_size i m h e = rw e (
      stored_size-same btn.page.data_ (page3 btn pos cell) (cell_offset btn i) btn.type is_type
        (old_cell i h))

  new_size :
      stored_size btn.type (page3 btn pos cell) (new_offset btn pos cell) ≡ cell_size btn.type cell
  new_size =
      stored_size-same (page1 btn pos cell) (page3 btn pos cell) (new_offset btn pos cell) btn.type
        is_type new_cell
      ∙ stored_size-write_cell btn.page.data_ (new_offset btn pos cell) cell btn.type is_type
          cell_fits

  abbrev InPage : ℕ → Type 0
  InPage i =
      (new_offset btn pos cell ≤ cell_offset (inserted btn pos cell) i)
      × (cell_offset (inserted btn pos cell) i
            + stored_size btn.type (page3 btn pos cell) (cell_offset (inserted btn pos cell) i)
          ≤ page_size)

  old-InPage :
      (i m : ℕ)
      → i < btn.n_cells
      → cell_offset (inserted btn pos cell) m ≡ cell_offset btn i
      → InPage m
  old-InPage i m h e = omega (arith, e, cell_from i h, cell_to i h, old_size i m h e)

  new-InPage : InPage pos
  new-InPage = rw slot_self (omega (arith, new_size))

  in_page : (i : ℕ) → i < btn.n_cells + 1 → InPage i
  in_page i h = elim (eq-cases i pos) [
    | inl e ↦ subst InPage (sym e) new-InPage
    | inr (inl l) ↦ old-InPage i i (omega arith) (slot_below i l)
    | inr (inr g) ↦ above i g h
  ]
    where
      above : (i : ℕ) → pos < i → i < btn.n_cells + 1 → InPage i
      above zero g h = absurd (omega arith)
      above (suc m) g h =
          old-InPage m (suc m) (omega arith) (slot_above m (omega arith) (omega arith))

  pub inserted-IsNode : IsNode page_size (inserted btn pos cell)
  inserted-IsNode = record {
    is_type = is_type;
    size_lt = size_lt;
    array_end = omega arith;
    array_le = omega arith;
    cells_le = omega arith;
    cell_from = λ i h. (in_page i h).0;
    cell_to = λ i h. (in_page i h).1;
  }

  -- `chidb_Btree_insertCell` into a well-formed node with room for the cell, at a position up to the number of its
  -- cells, succeeds. The node then holds the cell's entry at that position among the entries it had, in
  -- their order, and is well formed.
  pub insert_cell-insert_at :
      (b : BTreeNode) × (insert_cell btn pos cell ≡ some b)
      × (entries b ≡ insert_at pos (entry cell) (entries btn))
      × IsNode page_size b
  insert_cell-insert_at =
      (inserted btn pos cell, insert_cell-inserted, entries-inserted, inserted-IsNode)
