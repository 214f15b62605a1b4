-- ===== src/Record/Fields.antt =====
-- src/libchidb/record.c: a value that was appended is read back from its field.
use chidb.Prelude.{
  ℕ, ◌+◌, ◌-◌, ◌*◌, ◌/◌, ◌%◌, ◌^◌, ◌≤◌, ◌<◌, ◌≡◌, refl, ap, ◌∙◌, some, List, [], ◌∷◌, arith, length,
}
use chidb.Bytes.{Bytes, memcpy, get4byte, put4byte}
use chidb.Bytes.Laws.{get4byte-put4byte, memcpy_copies}
use chidb.Node.Entries.{slice, slice-same}
use chidb.Record.{
  SqlType, DbRecord, DbRecordBuffer, integer_4byte_code, text_code, set_elem, grown, appended,
  append_int32, append_string, char_at, get_type, get_int32, get_string_length, get_string,
}

-- There is a field left, and the buffer has room for `n` bytes, after it grew if it has to.
abbrev pub HasSpace : DbRecordBuffer → ℕ → Type 0
HasSpace b n = (b.field < b.dbr.nfields) × (b.offset + n ≤ grown b n)

-- The record with the value.
abbrev with_field : DbRecordBuffer → ℕ → Bytes → DbRecord
with_field b code d = record b.dbr {
  data_ = d;
  types = set_elem b.dbr.types b.field code;
  offsets = set_elem b.dbr.offsets b.field b.offset;
}

abbrev after : DbRecordBuffer → ℕ → ℕ → Bytes → ℕ → DbRecordBuffer
after b code n d h = record {
  dbr = with_field b code d;
  buf_size = grown b n;
  field = (b.field + 1) % 2 ^ 8;
  offset = (b.offset + n) % 2 ^ 32;
  header_size = (b.header_size + h) % 2 ^ 8;
}

appended-after :
    (b : DbRecordBuffer) (code n : ℕ) (d : Bytes) (h : ℕ)
    → HasSpace b n
    → appended b code n d h ≡ some (after b code n d h)
unfolding appended
appended-after b code n d h (field_lt, room) = ground arith

set_self : (a : ℕ → ℕ) (i v : ℕ) → set_elem a i v i ≡ v
unfolding set_elem
set_self a i v = ground arith

pub slice-char_at : (v : List ℕ) → slice (char_at v) (length v) ≡ v
unfolding slice char_at
slice-char_at [] = refl
slice-char_at (c ∷ cs) = ap (◌∷◌ c) (slice-char_at cs)

module _ (b : DbRecordBuffer) where
  -- With a field left and room in the buffer, an appended four-byte integer succeeds, and its field reads as such
  -- an integer with the same 32 bits.
  pub get_int32-append_int32 :
      (v : ℕ)
      → HasSpace b 4
      → (b' : DbRecordBuffer) × (append_int32 b v ≡ some b')
        × (get_type b'.dbr b.field ≡ SqlType.integer_4byte)
        × (get_int32 b'.dbr b.field ≡ v % 2 ^ 32)
  unfolding append_int32 get_type get_int32
  get_int32-append_int32 v space = (
    after b integer_4byte_code 4 (put4byte b.dbr.data_ b.offset v) 1,
    appended-after b integer_4byte_code 4 _ 1 space,
    ground (arith, set_self b.dbr.types b.field integer_4byte_code),
    ap (get4byte (put4byte b.dbr.data_ b.offset v)) (set_self b.dbr.offsets b.field b.offset)
        ∙ get4byte-put4byte b.dbr.data_ b.offset v,
  )

  string_bytes :
      (v : List ℕ)
      → slice (λ k. memcpy b.dbr.data_ b.offset (char_at v) 0 (length v) (b.offset + k)) (length v)
        ≡ v
  string_bytes v =
      slice-same _ (char_at v) (length v) (λ k h.
        memcpy_copies b.dbr.data_ b.offset (char_at v) 0 (length v) k h
        ∙ ap (char_at v) (omega arith))
      ∙ slice-char_at v

  abbrev string_code : List ℕ → ℕ
  string_code v = (length v * 2 + text_code) % 2 ^ 32

  string_length :
      (v : List ℕ)
      → length v * 2 + 13 < 2 ^ 32
      → (string_code v + (2 ^ 32 - 13)) % 2 ^ 32 / 2 ≡ length v
  string_length v h = omega arith

  string_type :
      (v : List ℕ) (d : Bytes)
      → length v * 2 + 13 < 2 ^ 32
      → get_type (with_field b (string_code v) d) b.field ≡ SqlType.text
  unfolding get_type
  string_type v d h = ground (arith, set_self b.dbr.types b.field (string_code v))

  -- With a field left and room in the buffer, an appended string whose type code fits 32 bits succeeds, and its
  -- field reads as a text with the same bytes.
  pub get_string-append_string :
      (v : List ℕ)
      → length v * 2 + 13 < 2 ^ 32
      → HasSpace b (length v)
      → (b' : DbRecordBuffer) × (append_string b v ≡ some b')
        × (get_type b'.dbr b.field ≡ SqlType.text)
        × (get_string b'.dbr b.field ≡ v)
  unfolding append_string get_string get_string_length
  get_string-append_string v small space = (
    after b (string_code v) (length v) (memcpy b.dbr.data_ b.offset (char_at v) 0 (length v)) 4,
    appended-after b (string_code v) (length v) _ 4 space,
    string_type v _ small,
    rw
        (
          set_self b.dbr.types b.field (string_code v),
          set_self b.dbr.offsets b.field b.offset,
          string_length v small,
        )
        (string_bytes v),
  )
