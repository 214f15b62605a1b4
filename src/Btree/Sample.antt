-- ===== src/Btree/Sample.antt =====
-- A table B-tree with two leaves, in a file of pages of 64 bytes.
pub mod Leaf
use chidb.Prelude.{
  ℕ, ◌+◌, ◌^◌, ◌≤◌, ◌<◌, ◌≡◌, ◌≢◌, refl, ap, ◌∙◌, true, false, [], ◌∷◌, inl, inr, arith,
}
use chidb.Bytes.{zeros}
use chidb.Pager.{Pager, MemPage}
use chidb.Pager.Laws.{IsPager, IsPage}
use chidb.Node.PageType
use chidb.Node.{
  BTreeNode, BTreeCell, is_internal, node_header_base, node_header_size, cell_size, node_free_space,
  empty_node,
}
use chidb.Node.Cells.{CellFits}
use chidb.Node.Entries.{IsNode, entry, tabulate, entries}
use chidb.Node.Insert.{insert_at, inserted, Fits, entries-inserted, inserted-IsNode}
use chidb.Node.Load.{IsHeader}
use chidb.Node.Position.{empty_node-entries, empty_node-IsNode, empty_node-IsHeader}
use chidb.Btree.Tree.{
  Tree, leaf, node, last, more, IsNodeAt, node_at, Holds, leaf_at, node_in, last_at, more_at,
}
use chidb.Btree.Write.{
  with_node, entries-with_node, node_at-with_node, with_node-IsNodeAt, with_node-IsPager,
  inserted-IsHeader, IsNodeAt-with_node_ne, node_at-with_node_ne,
}

abbrev pub fresh : Pager
fresh = record { file = record { size = 256; bytes = zeros }; page_size = 64; n_pages = 4 }

pub fresh-IsPager : IsPager fresh
fresh-IsPager = record {
  page_size_pos = omega arith;
  page_size_lt = omega arith;
  addressable = omega arith;
  n_pages_lt = omega arith;
}

abbrev pub blank : ℕ → MemPage
blank npage = record { npage = npage; data_ = zeros }

abbrev pub row_of : ℕ → BTreeCell
row_of key = record {
  type = PageType.table_leaf;
  key = key;
  child_page = 0;
  key_pk = 0;
  data_size = 3;
  data_ = λ i. 7;
}

-- An empty leaf, and a leaf with one row.
module _ (npage key : ℕ) (in_file : (2 ≤ npage) × (npage ≤ 4)) (key_lt : key < 2 ^ 28) where
  abbrev pub no_rows : BTreeNode
  no_rows = empty_node (blank npage) PageType.table_leaf 64

  room_for_header : node_header_base npage + node_header_size PageType.table_leaf ≤ 64
  unfolding node_header_base node_header_size is_internal
  room_for_header = ground arith

  pub no_rows-IsNode : IsNode 64 no_rows
  no_rows-IsNode =
      empty_node-IsNode (blank npage) PageType.table_leaf 64 (inr (inl refl)) room_for_header
        (omega arith)

  abbrev pub one_row : BTreeNode
  one_row = inserted no_rows 0 (row_of key)

  pub row-CellFits : CellFits PageType.table_leaf (row_of key)
  row-CellFits = (key_lt, omega arith, refl, refl)

  pub row_in : Fits no_rows (row_of key)
  unfolding empty_node node_header_base node_header_size is_internal cell_size
  row_in = ground arith

  pub one_row-IsNode : IsNode 64 one_row
  unfolding empty_node
  one_row-IsNode =
      inserted-IsNode 64 no_rows 0 (row_of key) no_rows-IsNode row-CellFits row_in (omega arith)

  pub one_row-IsHeader : IsHeader one_row
  one_row-IsHeader = inserted-IsHeader no_rows 0 (row_of key) (
      empty_node-IsHeader (blank npage) PageType.table_leaf 64 (inr (inl refl)) room_for_header
        (omega arith))

  pub one_row-entries : entries one_row ≡ entry (row_of key) ∷ []
  unfolding insert_at empty_node
  one_row-entries =
      entries-inserted 64 no_rows 0 (row_of key) no_rows-IsNode row-CellFits row_in (omega arith)
      ∙ ap (insert_at 0 (entry (row_of key))) (
          empty_node-entries (blank npage) PageType.table_leaf 64 (inr (inl refl)) room_for_header
            (omega arith))

-- Row 3 in page 2, row 9 in page 3, and over them the root in page 4, whose one key is 3.
abbrev pub separator : BTreeCell
separator = record {
  type = PageType.table_internal;
  key = 3;
  child_page = 2;
  key_pk = 0;
  data_size = 0;
  data_ = zeros;
}

abbrev pub no_children : BTreeNode
no_children = record (empty_node (blank 4) PageType.table_internal 64) { right_page = 3 }

pub no_children-IsNode : IsNode 64 no_children
unfolding empty_node node_header_base node_header_size is_internal
no_children-IsNode = record {
  is_type = inl refl;
  size_lt = omega arith;
  array_end = refl;
  array_le = omega arith;
  cells_le = omega arith;
  cell_from = λ i h. absurd (omega arith);
  cell_to = λ i h. absurd (omega arith);
}

pub no_children-IsHeader : IsHeader no_children
unfolding empty_node is_internal
no_children-IsHeader = record {
  array_at = refl;
  right_page_lt = omega arith;
  leaf_right_page = λ e. absurd (true-ne-false e);
}
  where
    true-ne-false : true ≢ false
    true-ne-false e = cc

abbrev pub root : BTreeNode
root = inserted no_children 0 separator

pub separator-CellFits : CellFits no_children.type separator
unfolding empty_node
separator-CellFits = (omega arith, omega arith, refl, refl)

pub separator_in : Fits no_children separator
unfolding empty_node node_header_base node_header_size is_internal cell_size
separator_in = omega arith

pub root-IsNode : IsNode 64 root
root-IsNode =
    inserted-IsNode 64 no_children 0 separator no_children-IsNode separator-CellFits separator_in
      (omega arith)

pub root-IsHeader : IsHeader root
root-IsHeader = inserted-IsHeader no_children 0 separator no_children-IsHeader

pub root-entries : entries root ≡ entry separator ∷ []
unfolding insert_at entries empty_node tabulate
root-entries =
    entries-inserted 64 no_children 0 separator no_children-IsNode separator-CellFits separator_in
      (omega arith)

abbrev pub left : BTreeNode
left = one_row 2 3 (omega arith, omega arith) (omega arith)

abbrev pub right : BTreeNode
right = one_row 3 9 (omega arith, omega arith) (omega arith)

pub page2_in : IsPage fresh left.page.npage
unfolding empty_node
page2_in = (omega arith, omega arith)

page3_in : IsPage fresh right.page.npage
unfolding empty_node
page3_in = (omega arith, omega arith)

page4_in : IsPage fresh root.page.npage
unfolding empty_node
page4_in = (omega arith, omega arith)

pub left-IsNode : IsNode 64 left
left-IsNode = one_row-IsNode 2 3 (omega arith, omega arith) (omega arith)

pub left-IsHeader : IsHeader left
left-IsHeader = one_row-IsHeader 2 3 (omega arith, omega arith) (omega arith)

right-IsNode : IsNode 64 right
right-IsNode = one_row-IsNode 3 9 (omega arith, omega arith) (omega arith)

right-IsHeader : IsHeader right
right-IsHeader = one_row-IsHeader 3 9 (omega arith, omega arith) (omega arith)

abbrev pub with_left : Pager
with_left = with_node fresh left

pub with_left-IsPager : IsPager with_left
with_left-IsPager = with_node-IsPager fresh fresh-IsPager left page2_in left-IsNode left-IsHeader

pub left_at : IsNodeAt with_left 2 PageType.table_leaf
unfolding empty_node
left_at = with_node-IsNodeAt fresh fresh-IsPager left page2_in left-IsNode left-IsHeader

pub left-entries : entries (node_at with_left 2) ≡ entry (row_of 3) ∷ []
unfolding empty_node
left-entries =
    entries-with_node fresh fresh-IsPager left page2_in left-IsNode left-IsHeader
    ∙ one_row-entries 2 3 (omega arith, omega arith) (omega arith)

pub left_type : (node_at with_left 2).type ≡ PageType.table_leaf
left_type = left_at.type_is

pub left_free_space : node_free_space (node_at with_left 2) ≡ 43
unfolding empty_node node_free_space cell_size node_header_base node_header_size is_internal
left_free_space =
    ap node_free_space
      (node_at-with_node fresh fresh-IsPager left page2_in left-IsNode left-IsHeader)

abbrev with_right : Pager
with_right = with_node with_left right

with_right-IsPager : IsPager with_right
with_right-IsPager =
    with_node-IsPager with_left with_left-IsPager right page3_in right-IsNode right-IsHeader

right_at : IsNodeAt with_right 3 PageType.table_leaf
unfolding empty_node
right_at = with_node-IsNodeAt with_left with_left-IsPager right page3_in right-IsNode right-IsHeader

abbrev pub table : Pager
table = with_node with_right root

root_at : IsNodeAt table 4 PageType.table_internal
unfolding empty_node
root_at = with_node-IsNodeAt with_right with_right-IsPager root page4_in root-IsNode root-IsHeader

table-entries : entries (node_at table 4) ≡ entry separator ∷ []
unfolding empty_node
table-entries =
    entries-with_node with_right with_right-IsPager root page4_in root-IsNode root-IsHeader
    ∙ root-entries

table_right_page : (node_at table 4).right_page ≡ 3
unfolding empty_node
table_right_page =
    ap (λ b. b.right_page)
      (node_at-with_node with_right with_right-IsPager root page4_in root-IsNode root-IsHeader)

-- The writes of the other pages keep the two leaves.
left_before_root : node_at with_right 2 ≡ node_at with_left 2
unfolding empty_node
left_before_root =
    node_at-with_node_ne with_left with_left-IsPager right page3_in right-IsNode right-IsHeader 2
      left_at.is_page (omega arith)

left_below : Holds table false 2 (leaf (entry (row_of 3) ∷ []))
unfolding empty_node
left_below =
    leaf_at
      (IsNodeAt-with_node_ne with_right with_right-IsPager root page4_in root-IsNode root-IsHeader 2
        _
        (IsNodeAt-with_node_ne with_left with_left-IsPager right page3_in right-IsNode
          right-IsHeader 2 _ left_at (omega arith))
        (omega arith))
      (ap entries (
          node_at-with_node_ne with_right with_right-IsPager root page4_in root-IsNode root-IsHeader
            2 left_at.is_page (omega arith)
          ∙ left_before_root)
        ∙ left-entries)

right-entries : entries (node_at with_right 3) ≡ entry (row_of 9) ∷ []
unfolding empty_node
right-entries =
    entries-with_node with_left with_left-IsPager right page3_in right-IsNode right-IsHeader
    ∙ one_row-entries 3 9 (omega arith, omega arith) (omega arith)

right_below : Holds table false 3 (leaf (entry (row_of 9) ∷ []))
unfolding empty_node
right_below =
    leaf_at
      (IsNodeAt-with_node_ne with_right with_right-IsPager root page4_in root-IsNode root-IsHeader 3
        _ right_at (omega arith))
      (ap entries (
          node_at-with_node_ne with_right with_right-IsPager root page4_in root-IsNode root-IsHeader
            3 right_at.is_page (omega arith))
        ∙ right-entries)

abbrev pub two_rows : Tree
two_rows =
    node
      (more (leaf (entry (row_of 3) ∷ [])) (entry separator) (last (leaf (entry (row_of 9) ∷ []))))

pub table-Holds : Holds table false 4 two_rows
unfolding entry
table-Holds =
    node_in root_at
      (rw (table-entries, table_right_page) (more_at left_below (last_at right_below)))
