-- ===== src/Pager/Laws.antt =====
-- src/libchidb/pager.c as a map from page numbers to pages.
use mathlib.Core.Path.{fun_ext}
use chidb.Prelude.{
  ℕ, ◌+◌, ◌-◌, ◌*◌, ◌%◌, ◌^◌, ◌≤◌, ◌<◌, ◌≡◌, ◌≢◌, ◌⊎◌, refl, ap, ◌∙◌, arith, ltb, ◌==◌,
  if◌then◌else◌, eq-cases, inl, inr,
}
use chidb.Bytes.{Bytes}
use chidb.Run.{Code, ok, err}
use chidb.Pager.{
  DbFile, Pager, MemPage, fread, fwrite, page_offset, page_bytes, read_page, write_page,
  allocate_page,
}

-- Page sizes fit 16 bits, and the whole file can be addressed by 32-bit offsets.
pub record IsPager (p : Pager) : Type 0 where
  pub page_size_pos : 0 < p.page_size
  pub page_size_lt : p.page_size < 2 ^ 16
  pub addressable : p.n_pages * p.page_size ≤ 2 ^ 32
  pub n_pages_lt : p.n_pages < 2 ^ 32

-- A page number that the pager accepts.
abbrev pub IsPage : Pager → ℕ → Type 0
IsPage p n = (1 ≤ n) × (n ≤ p.n_pages)

-- The bytes of a buffer that belong to a page.
abbrev pub trim : ℕ → Bytes → Bytes
trim size d j = if ltb j size then d j else 0

module _ {p : Pager} (valid : IsPager p) where
  open valid use {page_size_pos, addressable, n_pages_lt}

  product_lt : (n : ℕ) → IsPage p n → (n - 1) * p.page_size < 2 ^ 32
  product_lt n is = grind arith

  wrapped_pred : (n : ℕ) → IsPage p n → (n + (2 ^ 32 - 1)) % 2 ^ 32 ≡ n - 1
  wrapped_pred n is = omega arith

  page_offset_lem : (n : ℕ) → IsPage p n → page_offset p n ≡ (n - 1) * p.page_size
  unfolding page_offset
  page_offset_lem n is = rw (wrapped_pred n is) (omega (arith, product_lt n is))

-- A file that was written is read back, and only there it has changed.
fread-fwrite_self : (f : DbFile) (off n : ℕ) (d : Bytes) → fread (fwrite f off n d) off n ≡ trim n d
unfolding fread fwrite
fread-fwrite_self f off n d = fun_ext λ j. ground (arith, ap d (add-sub off j))
  where
    add-sub : (off j : ℕ) → off + j - off ≡ j
    add-sub off j = omega arith

fread-fwrite_ne :
    (f : DbFile) (off at n : ℕ) (d : Bytes)
    → (at + n ≤ off) ⊎ (off + n ≤ at)
    → fread (fwrite f off n d) at n ≡ fread f at n
unfolding fread fwrite
fread-fwrite_ne f off at n d apart = fun_ext λ j. ground arith

-- Two pages do not overlap.
below : (a b s : ℕ) → 1 ≤ a → a < b → (a - 1) * s + s ≤ (b - 1) * s
below a b s ha h = grind arith

apart :
    (a b s : ℕ)
    → 1 ≤ a
    → 1 ≤ b
    → a ≢ b
    → ((a - 1) * s + s ≤ (b - 1) * s) ⊎ ((b - 1) * s + s ≤ (a - 1) * s)
apart a b s ha hb ne = elim (eq-cases a b) [
  | inl e ↦ absurd (ne e)
  | inr (inl h) ↦ inl (below a b s ha h)
  | inr (inr h) ↦ inr (below b a s hb h)
]

module _ {p : Pager} where
  -- An accepted page is read whole; every other number is refused, with the file unchanged.
  pub read_page-ok :
      (n : ℕ) → IsPage p n → read_page n p ≡ ok (record { npage = n; data_ = page_bytes p n }) p
  unfolding read_page
  read_page-ok n is = ground arith

  pub read_page-epageno : (n : ℕ) → (n ≡ 0) ⊎ (p.n_pages < n) → read_page n p ≡ err Code.epageno p
  unfolding read_page
  read_page-epageno n out = ground arith

abbrev pub written : Pager → MemPage → Pager
written p page = record p { file = fwrite p.file (page_offset p page.npage) p.page_size page.data_ }

module _ {p : Pager} (valid : IsPager p) (page : MemPage) (is : IsPage p page.npage) where
  pub write_page-ok : write_page page p ≡ ok tt (written p page)
  unfolding write_page
  write_page-ok = ground arith

  -- A page that was written is read back.
  pub page_bytes-written_self : page_bytes (written p page) page.npage ≡ trim p.page_size page.data_
  unfolding page_bytes page_offset
  page_bytes-written_self = fread-fwrite_self p.file _ p.page_size page.data_

  pages_apart :
      (n : ℕ)
      → IsPage p n
      → n ≢ page.npage
      → (page_offset p n + p.page_size ≤ page_offset p page.npage)
        ⊎ (page_offset p page.npage + p.page_size ≤ page_offset p n)
  pages_apart n other ne =
      rw (page_offset_lem valid n other, page_offset_lem valid page.npage is)
        (apart n page.npage p.page_size other.0 is.0 ne)

  -- Writing a page leaves every other page as it was.
  pub page_bytes-written_ne :
      (n : ℕ) → IsPage p n → n ≢ page.npage → page_bytes (written p page) n ≡ page_bytes p n
  unfolding page_bytes page_offset
  page_bytes-written_ne n other ne =
      fread-fwrite_ne p.file _ _ p.page_size page.data_ (pages_apart n other ne)

  -- The pager stays valid, and accepts the same pages.
  pub written-IsPager : IsPager (written p page)
  written-IsPager = record {
    page_size_pos = valid.page_size_pos;
    page_size_lt = valid.page_size_lt;
    addressable = valid.addressable;
    n_pages_lt = valid.n_pages_lt;
  }

  accepted_after : (n : ℕ) → IsPage p n → IsPage (written p page) n
  accepted_after n is = is

  -- The write of an accepted page succeeds. A read of any accepted page then gives the bytes that were written
  -- there, cut to the page size, or for another page what it held before.
  pub read_page-write_page :
      (n : ℕ)
      → IsPage p n
      → (p' : Pager) × (write_page page p ≡ ok tt p')
        × (read_page n p'
            ≡ ok
                (record {
                  npage = n;
                  data_ = if n == page.npage then trim p.page_size page.data_ else page_bytes p n;
                })
                p')
  read_page-write_page n other = (
    written p page,
    write_page-ok,
    read_page-ok {p = written p page} n (accepted_after n other)
        ∙ ap (λ (d : Bytes). ok (record { npage = n; data_ = d }) (written p page)) bytes_after,
  )
    where
      bytes_after :
          page_bytes (written p page) n
          ≡ (if n == page.npage then trim p.page_size page.data_ else page_bytes p n)
      bytes_after = elim (eq-cases n page.npage) [
        | inl e ↦ rw e (ground (arith, page_bytes-written_self))
        | inr (inl l) ↦ ground (arith, page_bytes-written_ne n other (λ e. omega arith))
        | inr (inr g) ↦ ground (arith, page_bytes-written_ne n other (λ e. omega arith))
      ]

-- The pager after `chidb_Pager_allocatePage`.
abbrev pub allocated : Pager → Pager
allocated p = record p { n_pages = p.n_pages + 1 }

-- There is room for one more page.
abbrev pub HasRoom : Pager → Type 0
HasRoom p = ((p.n_pages + 1) * p.page_size ≤ 2 ^ 32) × (p.n_pages + 1 < 2 ^ 32)

module _ {p : Pager} (valid : IsPager p) (room : HasRoom p) where
  pub allocate_page-ok : allocate_page p ≡ ok (p.n_pages + 1) (allocated p)
  unfolding allocate_page
  allocate_page-ok = ground arith

  pub allocated-IsPager : IsPager (allocated p)
  allocated-IsPager = record {
    page_size_pos = valid.page_size_pos;
    page_size_lt = valid.page_size_lt;
    addressable = room.0;
    n_pages_lt = room.1;
  }

  -- A new page leaves the pages before it as they were.
  pub page_bytes-allocated : (n : ℕ) → page_bytes (allocated p) n ≡ page_bytes p n
  unfolding page_bytes page_offset
  page_bytes-allocated n = refl
