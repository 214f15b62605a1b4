-- ===== src/Node.antt =====
-- src/libchidb/btree.h, btree.c: one node of a B-tree in its page. `celloffset_array` is the offset of
-- the array in the page. A `BTreeCell` has the fields of all arms of the C union; the functions
-- read those of the arm that the node's type names, and the others are 0. The `data` of a table leaf cell
-- points into the page: it is the buffer that begins at that byte.
pub mod Cells
pub mod Entries
pub mod Insert
pub mod Shift
pub mod Load
pub mod PageType
pub mod Position
use chidb.Prelude.{
  ℕ, zero, suc, ◌+◌, ◌-◌, ◌*◌, ◌%◌, ◌^◌, Bool, true, false, ◌||◌, Option, none, some, leb, ltb,
  ◌==◌, if◌then◌else◌, List, [], ◌∷◌,
}
use chidb.Bytes.{
  Bytes, zeros, store, memcpy, get2byte, put2byte, get4byte, put4byte, get_varint32, put_varint32,
}
use chidb.Pager.{MemPage}
use PageType

pub record BTreeNode : Type 0 where
  pub page : MemPage
  pub type : ℕ
  pub free_offset : ℕ
  pub n_cells : ℕ
  pub cells_offset : ℕ
  pub right_page : ℕ
  pub celloffset_array : ℕ

pub record BTreeCell : Type 0 where
  pub type : ℕ
  pub key : ℕ
  pub child_page : ℕ
  pub key_pk : ℕ
  pub data_size : ℕ
  pub data_ : Bytes

unfoldable pub node_header_base : ℕ → ℕ
node_header_base npage = if npage == 1 then 100 else 0

unfoldable pub is_internal : ℕ → Bool
is_internal type = type == PageType.table_internal || type == PageType.index_internal

unfoldable pub is_index : ℕ → Bool
is_index type = type == PageType.index_internal || type == PageType.index_leaf

unfoldable pub node_header_size : ℕ → ℕ
node_header_size type = if is_internal type then 12 else 8

-- In `uint16_t`.
unfoldable pub cell_size : ℕ → BTreeCell → ℕ
cell_size type cell =
    if type == PageType.table_internal
    then 8
    else if type == PageType.table_leaf
    then (8 + cell.data_size) % 2 ^ 16
    else if type == PageType.index_internal
    then 16
    else if type == PageType.index_leaf
    then 12
    else 0

-- In `uint16_t`, where a difference below 0 wraps.
unfoldable pub node_free_space : BTreeNode → ℕ
node_free_space btn = (btn.cells_offset + 2 ^ 16 - btn.free_offset) % 2 ^ 16

-- The `switch` of `chidb_Btree_getCell` at the cell's offset. For any other page type it sets no
-- field.
unfoldable pub parse_cell : ℕ → Bytes → ℕ → BTreeCell
parse_cell type d offset =
    if type == PageType.table_internal
    then record {
      type = type;
      key = get_varint32 d (offset + 4);
      child_page = get4byte d offset;
      key_pk = 0;
      data_size = 0;
      data_ = zeros;
    }
    else if type == PageType.table_leaf
    then record {
      type = type;
      key = get_varint32 d (offset + 4);
      child_page = 0;
      key_pk = 0;
      data_size = get_varint32 d offset;
      data_ = λ k. d (offset + 8 + k);
    }
    else if type == PageType.index_internal
    then record {
      type = type;
      key = get4byte d (offset + 8);
      child_page = get4byte d offset;
      key_pk = get4byte d (offset + 12);
      data_size = 0;
      data_ = zeros;
    }
    else if type == PageType.index_leaf
    then record {
      type = type;
      key = get4byte d (offset + 4);
      child_page = 0;
      key_pk = get4byte d (offset + 8);
      data_size = 0;
      data_ = zeros;
    }
    else record { type = type; key = 0; child_page = 0; key_pk = 0; data_size = 0; data_ = zeros }

-- The offset that the cell offset array holds for a cell.
unfoldable pub cell_offset : BTreeNode → ℕ → ℕ
cell_offset btn ncell = get2byte btn.page.data_ (btn.celloffset_array + ncell * 2)

-- `none` is CHIDB_ECELLNO.
unfoldable pub get_cell : BTreeNode → ℕ → Option BTreeCell
unfolding cell_offset
get_cell btn ncell =
    if leb btn.n_cells ncell
    then none
    else some (parse_cell btn.type btn.page.data_ (cell_offset btn ncell))

-- The `switch` of `chidb_Btree_insertCell` at the new cell's offset.
unfoldable pub write_cell : ℕ → Bytes → ℕ → BTreeCell → Bytes
write_cell type d offset cell =
    if type == PageType.table_internal
    then put_varint32 (put4byte d offset cell.child_page) (offset + 4) cell.key
    else if type == PageType.table_leaf
    then memcpy (put_varint32 (put_varint32 d offset cell.data_size) (offset + 4) cell.key)
        (offset + 8) cell.data_ 0 cell.data_size
    else if type == PageType.index_internal
    then put4byte (put4byte (put4byte d offset cell.child_page) (offset + 8) cell.key) (offset + 12)
        cell.key_pk
    else if type == PageType.index_leaf
    then put4byte (put4byte d (offset + 4) cell.key) (offset + 8) cell.key_pk
    else d

-- `for (i = n_cells; i > ncell; i--)` moves entry `i - 1` of the array to `i`; `k` is `i - ncell`.
unfoldable pub shift_offsets : Bytes → ℕ → ℕ → ℕ → Bytes
shift_offsets d array ncell zero = d
shift_offsets d array ncell (suc k) =
    shift_offsets (put2byte d (array + (ncell + suc k) * 2) (get2byte d (array + (ncell + k) * 2)))
      array ncell k

-- `none` is CHIDB_ECELLNO. The numbers are `uint16_t`.
unfoldable pub insert_cell : BTreeNode → ℕ → BTreeCell → Option BTreeNode
insert_cell btn ncell cell =
    if ltb btn.n_cells ncell
    then none
    else let size = cell_size btn.type cell in
      let offset = (btn.cells_offset + 2 ^ 16 - size) % 2 ^ 16 in
      let array = btn.celloffset_array in
      let d = write_cell btn.type btn.page.data_ offset cell in
      let d = shift_offsets d array ncell (btn.n_cells - ncell) in
      let d = put2byte d (array + ncell * 2) offset in
      some (record btn {
        page = record { npage = btn.page.npage; data_ = d };
        cells_offset = offset;
        n_cells = (btn.n_cells + 1) % 2 ^ 16;
        free_offset = (btn.free_offset + 2) % 2 ^ 16;
      })

-- The loop of `find_position` from cell `i` on, with `k` cells left. No cell below `n_cells` is
-- refused by `get_cell`.
unfoldable pub position_from : BTreeNode → ℕ → ℕ → ℕ → ℕ
position_from btn key i zero = i
position_from btn key i (suc k) =
    let rest = position_from btn key (i + 1) k in
    elim (get_cell btn i) [ none ↦ i | some c ↦ if leb key c.key then i else rest ]

unfoldable pub find_position : BTreeNode → ℕ → ℕ
unfolding position_from
find_position btn key = position_from btn key 0 btn.n_cells

-- The child that a descent at position `i` takes: that of cell `i`, or the right page.
unfoldable pub child_at : BTreeNode → ℕ → Option ℕ
child_at btn i =
    if i == btn.n_cells
    then some btn.right_page
    else elim (get_cell btn i) [ none ↦ none | some c ↦ some c.child_page ]

-- The fields that `chidb_Btree_getNodeByPage` reads from the page.
unfoldable pub load_node : MemPage → BTreeNode
load_node page =
    let base = node_header_base page.npage in
    let d = page.data_ in
    let type = d base in
    record {
      page = page;
      type = type;
      free_offset = get2byte d (base + 1);
      n_cells = get2byte d (base + 3);
      cells_offset = get2byte d (base + 5);
      right_page = if is_internal type then get4byte d (base + 8) else 0;
      celloffset_array = if is_internal type then base + 12 else base + 8;
    }

-- The page that `chidb_Btree_writeNode` writes.
unfoldable pub store_node : BTreeNode → MemPage
store_node btn =
    let base = node_header_base btn.page.npage in
    let d = store btn.page.data_ base btn.type in
    let d = put2byte d (base + 1) btn.free_offset in
    let d = put2byte d (base + 3) btn.n_cells in
    let d = put2byte d (base + 5) btn.cells_offset in
    let d = store d (base + 7) 0 in
    let d = if is_internal btn.type then put4byte d (base + 8) btn.right_page else d in
    record { npage = btn.page.npage; data_ = d }

-- The fields that `chidb_Btree_initEmptyNode` sets in a loaded node.
unfoldable pub empty_node : MemPage → ℕ → ℕ → BTreeNode
empty_node page type page_size =
    let free = node_header_base page.npage + node_header_size type in
    record {
      page = page;
      type = type;
      free_offset = free;
      n_cells = 0;
      cells_offset = page_size;
      right_page = 0;
      celloffset_array = free;
    }
