-- ===== src/Btree/Open/Create.antt =====
-- src/libchidb/btree.c: the file that `chidb_Btree_open` creates is accepted when it is opened again.
use mathlib.Core.Path.{fun_ext}
use chidb.Prelude.{ℕ, ◌+◌, ◌≤◌, ◌<◌, ◌≡◌, refl, ap, ◌∙◌, Bool, some, [], inl, inr, arith}
use chidb.Bytes.{Bytes, store, get2byte, put2byte, get4byte, put4byte}
use chidb.Run.{Code, code_value, ok, err}
use chidb.Pager.{
  DbFile, Pager, MemPage, fread, fwrite, page_offset, page_bytes, pager_open, get_real_db_size,
  set_page_size, read_header, allocate_page,
}
use chidb.Pager.Laws.{
  IsPager, IsPage, trim, written, read_page-ok, write_page-ok, written-IsPager,
  page_bytes-written_self,
}
use chidb.Node.PageType
use chidb.Node.{
  BTreeNode, empty_node, store_node, load_node, node_header_base, node_header_size, is_internal,
}
use chidb.Node.Entries.{IsNode, entries}
use chidb.Node.Load.{IsHeader}
use chidb.Node.Position.{empty_node-entries, empty_node-IsNode, empty_node-IsHeader}
use chidb.Btree.{init_empty_node}
use chidb.Btree.Find.{get_node_by_page-ok}
use chidb.Btree.Tree.{IsNodeAt, node_at}
use chidb.Btree.Write.{with_node, write_node-ok, entries-with_node, with_node-IsNodeAt}
use chidb.Btree.Open.{
  starts_with, put_bytes, header_is_valid, header_page, create_file, check_header, load_file,
  open_file,
}

-- The header of the first page passes the check.
header_page-valid : header_is_valid (trim 100 header_page) ≡ some 1024
unfolding header_is_valid header_page starts_with put_bytes get2byte put2byte get4byte put4byte
    store
header_page-valid = refl

module _ (f : DbFile) (short : f.size < 100) where
  abbrev first : Pager
  first = record { file = f; page_size = 1024; n_pages = 1 }

  first-IsPager : IsPager first
  first-IsPager = record {
    page_size_pos = omega arith;
    page_size_lt = omega arith;
    addressable = omega arith;
    n_pages_lt = omega arith;
  }

  one_in : IsPage first 1
  one_in = (omega arith, omega arith)

  abbrev page1 : MemPage
  page1 = record { npage = 1; data_ = header_page }

  abbrev with_header : Pager
  with_header = written first page1

  with_header-IsPager : IsPager with_header
  with_header-IsPager = written-IsPager first-IsPager page1 one_in

  abbrev root : BTreeNode
  root =
      empty_node (record { npage = 1; data_ = page_bytes with_header 1 }) PageType.table_leaf 1024

  room : node_header_base 1 + node_header_size PageType.table_leaf ≤ 1024
  unfolding node_header_base node_header_size is_internal
  room = omega arith

  root-IsNode : IsNode 1024 root
  root-IsNode = empty_node-IsNode _ PageType.table_leaf 1024 (inr (inl refl)) room (omega arith)

  root-IsHeader : IsHeader root
  root-IsHeader = empty_node-IsHeader _ PageType.table_leaf 1024 (inr (inl refl)) room (omega arith)

  root_in : IsPage with_header root.page.npage
  unfolding empty_node
  root_in = one_in

  abbrev pub created : Pager
  created = with_node with_header root

  init_root : init_empty_node 1 PageType.table_leaf with_header ≡ ok tt created
  unfolding init_empty_node load_node
  init_root =
      rw (get_node_by_page-ok with_header 1 one_in)
        (write_node-ok with_header with_header-IsPager root root_in root-IsNode root-IsHeader)

  created-IsNodeAt : IsNodeAt created 1 PageType.table_leaf
  unfolding empty_node
  created-IsNodeAt =
      with_node-IsNodeAt with_header with_header-IsPager root root_in root-IsNode root-IsHeader

  created-entries : entries (node_at created 1) ≡ []
  unfolding empty_node
  created-entries =
      entries-with_node with_header with_header-IsPager root root_in root-IsNode root-IsHeader
      ∙ empty_node-entries _ PageType.table_leaf 1024 (inr (inl refl)) room (omega arith)

  abbrev unread : Pager
  unread = record { file = f; page_size = 0; n_pages = 0 }

  no_header : read_header unread ≡ err Code.noheader unread
  unfolding read_header
  no_header = ground arith

  sized : set_page_size 1024 unread ≡ ok tt (record { file = f; page_size = 1024; n_pages = 0 })
  unfolding set_page_size get_real_db_size
  sized = ground arith

  one_page : allocate_page (record { file = f; page_size = 1024; n_pages = 0 }) ≡ ok 1 first
  unfolding allocate_page
  one_page = refl

  create : create_file unread ≡ ok tt created
  unfolding create_file
  create = ground (
    arith,
    sized,
    one_page,
    read_page-ok {p = first} 1 one_in,
    write_page-ok first-IsPager page1 one_in,
    init_root,
  )

  load : load_file unread ≡ ok tt created
  unfolding load_file code_value
  load = ground (arith, no_header, create)

  created_size : created.file.size ≡ 1024
  unfolding fwrite page_offset store_node empty_node
  created_size = omega arith

  header_byte : (j : ℕ) → j < 100 → page_bytes with_header 1 j ≡ header_page j
  header_byte j h =
      ap (λ (d : Bytes). d j) (page_bytes-written_self first-IsPager page1 one_in) ∙ ground arith

  stored_byte : (j : ℕ) → j < 100 → (store_node root).data_ j ≡ header_page j
  unfolding store_node empty_node node_header_base is_internal store put2byte
  stored_byte j h = ground (arith, header_byte j h)

  created_byte : (j : ℕ) → j < 100 → created.file.bytes j ≡ header_page j
  unfolding fwrite page_offset store_node
  created_byte j h = ground (arith, stored_byte j h)

  created_header : fread created.file 0 100 ≡ trim 100 header_page
  unfolding fread
  created_header = fun_ext λ j. ground (arith, created_size, created_byte j)

  abbrev unread_again : Pager
  unread_again = record { file = created.file; page_size = 0; n_pages = 0 }

  read_again : read_header unread_again ≡ ok (trim 100 header_page) unread_again
  unfolding read_header
  read_again = ground (arith, created_size, created_header)

  sized_again : set_page_size 1024 unread_again ≡ ok tt created
  unfolding set_page_size get_real_db_size
  sized_again = ground (arith, created_size)

  load_again : load_file unread_again ≡ ok tt created
  unfolding load_file check_header
  load_again = ground (arith, read_again, header_page-valid, sized_again)

-- `chidb_Btree_open` on a file of fewer than 100 bytes, such as a new one, succeeds: page 1 then holds a well-formed
-- empty table leaf. Opening the file that it leaves succeeds too, with the same pager, so the header that is written
-- is one that is accepted.
pub open_file-create :
    (f : DbFile) (creatable : Bool)
    → f.size < 100
    → (p : Pager) × (open_file (some f) creatable ≡ some (ok tt p))
      × IsNodeAt p 1 PageType.table_leaf
      × (entries (node_at p 1) ≡ [])
      × (open_file (some p.file) creatable ≡ some (ok tt p))
unfolding open_file pager_open
open_file-create f creatable short = (
  created f short,
  ap some (load f short),
  created-IsNodeAt f short,
  created-entries f short,
  ap some (load_again f short),
)
