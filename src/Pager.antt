-- ===== src/Pager.antt =====
-- src/libchidb/pager.c, pager.h: paged access to the database file. The `FILE` is its size and its
-- bytes; `fseek`, `fread` and `fwrite` are given by their effect on it. Memory allocation and the
-- transfers themselves succeed; `fread` past the end of the file reads less.
pub mod Laws
use Prim.Native.Nat.{max}
use chidb.Prelude.{
  ℕ, ◌+◌, ◌-◌, ◌*◌, ◌/◌, ◌%◌, ◌^◌, Bool, true, false, ◌&&◌, ◌||◌, Option, none, some, leb, ltb,
  ◌==◌, if◌then◌else◌,
}
use chidb.Bytes.{Bytes, zeros, memcpy}
use chidb.Run.{Code, Run, ok, err, fault, and_then, Cmd, pure, fail}

pub record DbFile : Type 0 where
  pub size : ℕ
  pub bytes : Bytes

pub record Pager : Type 0 where
  pub file : DbFile
  pub page_size : ℕ
  pub n_pages : ℕ

pub record MemPage : Type 0 where
  pub npage : ℕ
  pub data_ : Bytes

-- `fseek (f, off); fread (p, 1, n, f)` into a buffer of zeros.
unfoldable pub fread : DbFile → ℕ → ℕ → Bytes
fread f off n j = if ltb j n && ltb (off + j) f.size then f.bytes (off + j) else 0

-- `fseek (f, off); fwrite (p, 1, n, f)`: a gap behind the old end of the file is filled with zeros.
unfoldable pub fwrite : DbFile → ℕ → ℕ → Bytes → DbFile
fwrite f off n p = record {
  size = max f.size (off + n);
  bytes = λ j.
      if leb off j && ltb j (off + n) then p (j - off) else if ltb j f.size then f.bytes j else 0;
}

-- `existing` is the file that `fopen (filename, "r+")` finds, and `creatable` says whether
-- `fopen (filename, "w+")` succeeds. The page size and the page count are not set yet.
unfoldable pub pager_open : Option DbFile → Bool → Option Pager
pager_open (some f) creatable = some (record { file = f; page_size = 0; n_pages = 0 })
pager_open none creatable =
    if creatable
    then some (record { file = record { size = 0; bytes = zeros }; page_size = 0; n_pages = 0 })
    else none

-- `buf.st_size / pager->page_size`, which is undefined for a page size of 0.
unfoldable pub get_real_db_size : Cmd Pager ℕ
get_real_db_size p = if p.page_size == 0 then fault else ok (p.file.size / p.page_size % 2 ^ 32) p

unfoldable pub set_page_size : ℕ → Cmd Pager (Unit {0})
unfolding get_real_db_size
set_page_size pagesize p =
    and_then (get_real_db_size (record p { page_size = pagesize }))
      λ n p'. ok tt (record p' { n_pages = n })

unfoldable pub read_header : Cmd Pager Bytes
read_header p = if ltb p.file.size 100 then err Code.noheader p else ok (fread p.file 0 100) p

unfoldable pub allocate_page : Cmd Pager ℕ
allocate_page p = let n = (p.n_pages + 1) % 2 ^ 32 in ok n (record p { n_pages = n })

-- `(npage - 1) * pager->page_size` in `uint32_t`.
unfoldable pub page_offset : Pager → ℕ → ℕ
page_offset p npage = (npage + (2 ^ 32 - 1)) % 2 ^ 32 * p.page_size % 2 ^ 32

unfoldable pub page_bytes : Pager → ℕ → Bytes
page_bytes p npage = fread p.file (page_offset p npage) p.page_size

unfoldable pub read_page : ℕ → Cmd Pager MemPage
read_page npage p =
    if ltb p.n_pages npage || leb npage 0
    then err Code.epageno p
    else ok (record { npage = npage; data_ = page_bytes p npage }) p

unfoldable pub write_page : MemPage → Cmd Pager (Unit {0})
write_page page p =
    if ltb p.n_pages page.npage
    then err Code.epageno p
    else ok tt (record p { file = fwrite p.file (page_offset p page.npage) p.page_size page.data_ })

-- The memory of a page that is released is not modelled; the page number is checked.
unfoldable pub release_mem_page : MemPage → Cmd Pager (Unit {0})
release_mem_page page p = if ltb p.n_pages page.npage then err Code.epageno p else ok tt p
