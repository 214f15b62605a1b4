-- ===== src/Btree.antt =====
-- src/libchidb/btree.c: the functions on B-trees. Each is a command on the pager. The recursive ones
-- take fuel, which bounds the levels that they go down. Allocation succeeds, and the release of
-- nodes is not modelled.
pub mod Find
pub mod Insert
pub mod LeafInsert
pub mod Open
pub mod Order
pub mod Sample
mod Tests
pub mod Tree
pub mod Write
use chidb.Prelude.{
  ℕ, zero, suc, ◌+◌, ◌/◌, ◌%◌, ◌^◌, Bool, true, false, ◌&&◌, ◌||◌, not, Option, none, some, List,
  [], ◌∷◌, leb, ltb, ◌==◌, if◌then◌else◌, get_elem?, take, drop,
}
use chidb.Bytes.{Bytes, zeros, store, memcpy, get2byte, put2byte, get4byte, put4byte}
use chidb.Run.{
  Code, Run, ok, err, and_then, Cmd, pure, fail, ◌>>=◌, ◌>>◌, unchecked, ignore, undefined, no_fuel,
}
use chidb.Pager.{
  DbFile, Pager, pager_open, set_page_size, read_header, allocate_page, read_page, write_page,
}
use chidb.Node.PageType
use chidb.Node.{
  BTreeNode, BTreeCell, is_internal, is_index, cell_size, node_free_space, get_cell, insert_cell,
  find_position, child_at, load_node, store_node, empty_node,
}

unfoldable pub get_node_by_page : ℕ → Cmd Pager BTreeNode
get_node_by_page npage = do page ← read_page npage; pure (load_node page)

unfoldable pub write_node : BTreeNode → Cmd Pager (Unit {0})
write_node btn = write_page (store_node btn)

unfoldable pub init_empty_node : ℕ → ℕ → Cmd Pager (Unit {0})
init_empty_node npage type p =
    and_then (get_node_by_page npage p)
      λ btn p'. write_node (empty_node btn.page type p'.page_size) p'

unfoldable pub new_node : ℕ → Cmd Pager ℕ
new_node type = do npage ← allocate_page; init_empty_node npage type; pure npage

-- The cells of a node, as `chidb_Btree_getCell` reads them, from cell `i` on.
unfoldable pub cells_from : BTreeNode → ℕ → ℕ → List BTreeCell
cells_from btn i zero = []
cells_from btn i (suc k) =
    let rest = cells_from btn (i + 1) k in elim (get_cell btn i) [ none ↦ [] | some c ↦ c ∷ rest ]

-- `chidb_Btree_insertCell` of each cell, at the positions from `i` on; its return code is ignored.
unfoldable pub insert_cells : BTreeNode → ℕ → List BTreeCell → BTreeNode
insert_cells btn i [] = btn
insert_cells btn i (c ∷ cs) =
    insert_cells (elim (insert_cell btn i c) [ none ↦ btn | some b ↦ b ]) (i + 1) cs

-- The loop of `chidb_Btree_find` over a leaf.
unfoldable pub find_cell : BTreeNode → ℕ → ℕ → ℕ → Option BTreeCell
find_cell btn key i zero = none
find_cell btn key i (suc k) =
    let rest = find_cell btn key (i + 1) k in
    elim (get_cell btn i) [ none ↦ none | some c ↦ if c.key == key then some c else rest ]

-- The page that a descent for `key` goes to.
unfoldable pub child_for : BTreeNode → ℕ → Cmd Pager ℕ
child_for btn key = elim (child_at btn (find_position btn key)) [
  | none ↦ undefined
  | some child ↦ pure child
]

-- The size, in `uint16_t`, and the bytes of the entry.
unfoldable pub find : ℕ → ℕ → ℕ → Cmd Pager (ℕ × Bytes)
unfolding get_node_by_page
find zero nroot key = no_fuel
find (suc fuel) nroot key = do
  btn ← get_node_by_page nroot
  if btn.type == PageType.table_leaf
      then elim (find_cell btn key 0 btn.n_cells) [
        | none ↦ fail Code.enotfound
        | some c ↦ pure (c.data_size % 2 ^ 16, c.data_)
      ]
      else (do child ← child_for btn key; find fuel child key)

-- `node_free_space (node) < (uint16_t) (needed + 2)`
unfoldable pub is_full : BTreeNode → BTreeCell → Bool
is_full btn btc = ltb (node_free_space btn) ((cell_size btn.type btc + 2) % 2 ^ 16)

-- Whether the cell at the insertion point has the key already.
unfoldable pub is_duplicate : BTreeNode → ℕ → ℕ → Bool
is_duplicate btn pos key = elim (get_cell btn pos) [
  | none ↦ false
  | some existing ↦ existing.key == key
]

-- The leaf branch of `chidb_Btree_insertNonFull`.
unfoldable pub insert_leaf : BTreeNode → BTreeCell → Cmd Pager (Unit {0})
insert_leaf btn btc =
    let pos = find_position btn btc.key in
    if is_duplicate btn pos btc.key
    then fail Code.eduplicate
    else elim (insert_cell btn pos btc) [ none ↦ fail Code.ecellno | some b ↦ write_node b ]

-- The cell with the median key and the page of the lower half that goes to the parent.
unfoldable pub promoted_cell : ℕ → BTreeCell → ℕ → BTreeCell
promoted_cell type median nM = record {
  type = if is_index type then PageType.index_internal else PageType.table_internal;
  key = median.key;
  child_page = nM;
  key_pk = if is_index type then median.key_pk else 0;
  data_size = 0;
  data_ = zeros;
}

-- A node with the cells given, over an empty node in its page; an internal one gets a right page.
unfoldable pub fill_node : ℕ → ℕ → List BTreeCell → ℕ → Cmd Pager (Unit {0})
fill_node npage type cells right_page = do
  btn ← unchecked (get_node_by_page npage)
  let filled = insert_cells btn 0 cells
  ignore (
      write_node
        (record filled { right_page = if is_internal type then right_page else filled.right_page }))

-- The last part of `chidb_Btree_split`: the median goes to the parent, which is written also if it
-- takes no cell.
unfoldable pub promote : ℕ → ℕ → BTreeCell → Cmd Pager (Unit {0})
promote npage_parent parent_ncell promoted = do
  parent ← get_node_by_page npage_parent
  elim (insert_cell parent parent_ncell promoted) [
    | none ↦ (do ignore (write_node parent); fail Code.ecellno)
    | some parent' ↦ ignore (write_node parent')
  ]

-- A leaf keeps the median cell in its lower half. An empty node has no median.
unfoldable pub split : ℕ → ℕ → ℕ → Cmd Pager ℕ
split npage_parent npage_child parent_ncell = do
  child ← get_node_by_page npage_child
  let type = child.type
  let m = child.n_cells / 2
  let cells = cells_from child 0 child.n_cells
  elim (get_elem? cells m) [
    | none ↦ undefined
    | some median ↦ (do
      nM ← new_node type
      fill_node nM type (take (if is_internal type then m else m + 1) cells) median.child_page
      ignore (init_empty_node npage_child type)
      fill_node npage_child type (drop (m + 1) cells) child.right_page
      promote npage_parent parent_ncell (promoted_cell type median nM)
      pure nM)
  ]

-- The child that the insertion goes on in: a full one is split first, and the descent is made again.
unfoldable pub choose_child : ℕ → BTreeNode → BTreeCell → Cmd Pager ℕ
choose_child npage btn btc = do
  child_page ← child_for btn btc.key
  child ← get_node_by_page child_page
  if is_full child btc
      then (do
        split npage child_page (find_position btn btc.key)
        btn ← get_node_by_page npage
        child_for btn btc.key)
      else pure child_page

unfoldable pub insert_non_full : ℕ → ℕ → BTreeCell → Cmd Pager (Unit {0})
insert_non_full zero npage btc = no_fuel
insert_non_full (suc fuel) npage btc = do
  btn ← get_node_by_page npage
  if is_internal btn.type
      then (do child ← choose_child npage btn btc; insert_non_full fuel child btc)
      else insert_leaf btn btc

-- The root keeps its page: its content moves to a new page, which is then split under it.
unfoldable pub split_root : ℕ → ℕ → Cmd Pager ℕ
split_root nroot type = do
  nC ← new_node type
  rootN ← unchecked (get_node_by_page nroot)
  C ← unchecked (get_node_by_page nC)
  let copy = insert_cells C 0 (cells_from rootN 0 rootN.n_cells)
  ignore (write_node (record copy { right_page = rootN.right_page }))
  ignore (
      init_empty_node nroot
        (if is_index type then PageType.index_internal else PageType.table_internal))
  rootN ← unchecked (get_node_by_page nroot)
  ignore (write_node (record rootN { right_page = nC }))
  split nroot nC 0

-- Splits a root that is full.
unfoldable pub make_room : ℕ → BTreeNode → BTreeCell → Cmd Pager (Unit {0})
make_room nroot root btc =
    if is_full root btc then (do nC2 ← split_root nroot root.type; pure tt) else pure tt

unfoldable pub insert : ℕ → ℕ → BTreeCell → Cmd Pager (Unit {0})
insert fuel nroot btc = do
  root ← get_node_by_page nroot
  make_room nroot root btc
  insert_non_full fuel nroot btc

unfoldable pub insert_in_table : ℕ → ℕ → ℕ → Bytes → ℕ → Cmd Pager (Unit {0})
insert_in_table fuel nroot key bytes size = insert fuel nroot (record {
  type = PageType.table_leaf;
  key = key;
  child_page = 0;
  key_pk = 0;
  data_size = size;
  data_ = bytes;
})

unfoldable pub insert_in_index : ℕ → ℕ → ℕ → ℕ → Cmd Pager (Unit {0})
insert_in_index fuel nroot key_idx key_pk = insert fuel nroot (record {
  type = PageType.index_leaf;
  key = key_idx;
  child_page = 0;
  key_pk = key_pk;
  data_size = 0;
  data_ = zeros;
})
