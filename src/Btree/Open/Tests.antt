-- ===== src/Btree/Open/Tests.antt =====
-- src/libchidb/btree.c: `chidb_Btree_open` on an empty file and on a file with another header.
use chidb.Prelude.{◌≡◌, refl, true, some, [], arith}
use chidb.Bytes.{zeros}
use chidb.Run.{Code, ok, err}
use chidb.Pager.{DbFile, Pager, pager_open, read_header, fread}
use chidb.Node.PageType
use chidb.Node.Entries.{entries}
use chidb.Btree.Tree.{IsNodeAt, node_at}
use chidb.Btree.Open.{open_file, load_file, check_header, header_is_valid, starts_with}
use chidb.Btree.Open.Create.{open_file-create}

abbrev empty_file : DbFile
empty_file = record { size = 0; bytes = zeros }

abbrev zero_file : DbFile
zero_file = record { size = 2048; bytes = zeros }

zeros_refused :
    open_file (some zero_file) true
    ≡ some (err Code.ecorruptheader (record { file = zero_file; page_size = 0; n_pages = 0 }))
unfolding open_file pager_open load_file read_header check_header header_is_valid starts_with fread
zeros_refused = refl

open_file-create_example :
    (p : Pager) × (open_file (some empty_file) true ≡ some (ok tt p))
    × IsNodeAt p 1 PageType.table_leaf
    × (entries (node_at p 1) ≡ [])
    × (open_file (some p.file) true ≡ some (ok tt p))
open_file-create_example = open_file-create empty_file true (omega arith)
