-- ===== src/Btree/Open.antt =====
-- src/libchidb/btree.c: `chidb_Btree_open`, which reads the file header or writes the first one.
pub mod Create
mod Tests
use chidb.Prelude.{ℕ, ◌+◌, Bool, true, ◌&&◌, Option, none, some, List, [], ◌∷◌, ◌==◌, if◌then◌else◌}
use chidb.Bytes.{Bytes, zeros, store, get2byte, put2byte, get4byte, put4byte}
use chidb.Run.{Code, code_value, Run, ok, err, fault, out_of_fuel, Cmd, fail, ◌>>=◌, ◌>>◌, ignore}
use chidb.Pager.{
  DbFile, Pager, pager_open, set_page_size, read_header, allocate_page, read_page, write_page,
}
use chidb.Node.PageType
use chidb.Btree.{init_empty_node}

abbrev pub default_page_size : ℕ
default_page_size = 1024

-- `memcmp` with "SQLite format 3" and its final 0, and `memcpy` of them.
abbrev magic : List ℕ
magic = 83 ∷ 81 ∷ 76 ∷ 105 ∷ 116 ∷ 101 ∷ 32 ∷ 102 ∷ 111 ∷ 114 ∷ 109 ∷ 97 ∷ 116 ∷ 32 ∷ 51 ∷ 0 ∷ []

unfoldable pub starts_with : Bytes → ℕ → List ℕ → Bool
starts_with d i [] = true
starts_with d i (b ∷ bs) = (d i == b) && starts_with d (i + 1) bs

unfoldable pub put_bytes : Bytes → ℕ → List ℕ → Bytes
put_bytes d i [] = d
put_bytes d i (b ∷ bs) = put_bytes (store d i b) (i + 1) bs

-- The page size, if the header is valid.
unfoldable pub header_is_valid : Bytes → Option ℕ
header_is_valid h =
    if starts_with h 0 magic
      && ((h 18 == 1)
          && ((h 19 == 1) && ((h 20 == 0) && ((h 21 == 64) && ((h 22 == 32) && (h 23 == 32))))))
      && ((get4byte h 24 == 0) && ((get4byte h 32 == 0) && (get4byte h 36 == 0)))
      && ((get4byte h 40 == 0) && (get4byte h 44 == 1))
      && ((get4byte h 48 == 20000) && (get4byte h 52 == 0))
      && ((get4byte h 56 == 1) && ((get4byte h 60 == 0) && (get4byte h 64 == 0)))
    then some (get2byte h 16)
    else none

-- The first page of a new file, without its node.
unfoldable pub header_page : Bytes
header_page =
    let d = put_bytes zeros 0 magic in
    let d = put2byte d 16 default_page_size in
    let d = store (store (store (store (store d 18 1) 19 1) 21 64) 22 32) 23 32 in
    put4byte (put4byte (put4byte d 44 1) 48 20000) 56 1

-- The branch for an empty or a new file. The page size was set before.
unfoldable pub create_file : Cmd Pager (Unit {0})
create_file = do
  ignore (set_page_size default_page_size)
  ignore allocate_page
  page1 ← read_page 1
  write_page (record page1 { data_ = header_page })
  init_empty_node 1 PageType.table_leaf

-- The branch for a file with a header.
unfoldable pub check_header : Bytes → Cmd Pager (Unit {0})
check_header header = elim (header_is_valid header) [
  | none ↦ fail Code.ecorruptheader
  | some page_size ↦ ignore (set_page_size page_size)
]

-- After `chidb_Pager_open`. The code 1 is CHIDB_NOHEADER.
unfoldable pub load_file : Cmd Pager (Unit {0})
load_file p = elim (read_header p) [
  | ok header p' ↦ check_header header p'
  | err c p' ↦ if code_value c == 1 then create_file p' else err c p'
  | fault ↦ fault
  | out_of_fuel ↦ out_of_fuel
]

-- `none` is CHIDB_EIO, with no pager.
unfoldable pub open_file : Option DbFile → Bool → Option (Run Pager (Unit {0}))
open_file existing creatable = elim (pager_open existing creatable) [
  | none ↦ none
  | some p ↦ some (load_file p)
]
