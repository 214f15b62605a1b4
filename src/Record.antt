-- ===== src/Record.antt =====
-- src/libchidb/record.c, record.h: database records, how they are built from values, read and packed.
-- An integer is given by its bits, and a C string by the list of its bytes without the final 0.
pub mod Build
pub mod Create
pub mod Fields
pub mod Header
pub mod RoundTrip
pub mod Rows
pub mod Values
pub mod Unpack
mod Tests
use chidb.Prelude.{
  ℕ, zero, suc, ◌+◌, ◌-◌, ◌/◌, ◌%◌, ◌^◌, Bool, true, false, ◌*◌, ◌&&◌, Option, none, some, List, [],
  ◌∷◌, ltb, leb, ◌==◌, if◌then◌else◌, length,
}
use chidb.Bytes.{Bytes, zeros, store, memcpy, get2byte, put2byte, get4byte, put4byte, put_varint32}
use chidb.Node.Entries.{slice}

pub data SqlType : Type 0 where
  sql_null integer_1byte integer_2byte integer_4byte text notvalid : SqlType

-- The codes of the types. A string of `n` bytes has the code `2 * n + 13`.
abbrev pub sql_null_code : ℕ
sql_null_code = 0

abbrev pub integer_1byte_code : ℕ
integer_1byte_code = 1

abbrev pub integer_2byte_code : ℕ
integer_2byte_code = 2

abbrev pub integer_4byte_code : ℕ
integer_4byte_code = 4

abbrev pub text_code : ℕ
text_code = 13

pub record DbRecord : Type 0 where
  pub data_ : Bytes
  pub data_len : ℕ
  pub nfields : ℕ
  pub packed_len : ℕ
  pub types : ℕ → ℕ
  pub offsets : ℕ → ℕ

pub record DbRecordBuffer : Type 0 where
  pub dbr : DbRecord
  pub buf_size : ℕ
  pub field : ℕ
  pub offset : ℕ
  pub header_size : ℕ

-- `a[i] = v`.
unfoldable pub set_elem : (ℕ → ℕ) → ℕ → ℕ → ℕ → ℕ
set_elem a i v j = if j == i then v else a j

-- What the allocated arrays hold at first is not used; here it is 0.
unfoldable pub create_empty : ℕ → DbRecordBuffer
create_empty nfields = record {
  dbr = record {
    data_ = zeros;
    data_len = 0;
    nfields = nfields;
    packed_len = 0;
    types = zeros;
    offsets = zeros;
  };
  buf_size = 1024;
  field = 0;
  offset = 0;
  header_size = 1;
}

-- The size of the buffer when `n` more bytes are written: it grows once, in `uint16_t`.
unfoldable pub grown : DbRecordBuffer → ℕ → ℕ
grown b n = if ltb b.buf_size (b.offset + n) then (b.buf_size + 1024) % 2 ^ 16 else b.buf_size

-- What the functions that append have in common: the value's bytes are `d` over the old ones, `n` of them, and
-- its type takes `h` bytes of the header. A write past one of the arrays is undefined, `none`.
unfoldable pub appended : DbRecordBuffer → ℕ → ℕ → Bytes → ℕ → Option DbRecordBuffer
appended b code n d h =
    if ltb b.field b.dbr.nfields && leb (b.offset + n) (grown b n)
    then some (record {
      dbr = record b.dbr {
        data_ = d;
        types = set_elem b.dbr.types b.field code;
        offsets = set_elem b.dbr.offsets b.field b.offset;
      };
      buf_size = grown b n;
      field = (b.field + 1) % 2 ^ 8;
      offset = (b.offset + n) % 2 ^ 32;
      header_size = (b.header_size + h) % 2 ^ 8;
    })
    else none

unfoldable pub append_int8 : DbRecordBuffer → ℕ → Option DbRecordBuffer
append_int8 b v = appended b integer_1byte_code 1 (store b.dbr.data_ b.offset (v % 2 ^ 8)) 1

unfoldable pub append_int16 : DbRecordBuffer → ℕ → Option DbRecordBuffer
append_int16 b v = appended b integer_2byte_code 2 (put2byte b.dbr.data_ b.offset v) 1

unfoldable pub append_int32 : DbRecordBuffer → ℕ → Option DbRecordBuffer
append_int32 b v = appended b integer_4byte_code 4 (put4byte b.dbr.data_ b.offset v) 1

-- The offset of a null value is 0.
unfoldable pub append_null : DbRecordBuffer → Option DbRecordBuffer
append_null b =
    if ltb b.field b.dbr.nfields
    then some (record b {
      dbr = record b.dbr {
        types = set_elem b.dbr.types b.field sql_null_code;
        offsets = set_elem b.dbr.offsets b.field 0;
      };
      field = (b.field + 1) % 2 ^ 8;
      header_size = (b.header_size + 1) % 2 ^ 8;
    })
    else none

-- The bytes of a string.
unfoldable pub char_at : List ℕ → Bytes
char_at [] j = 0
char_at (c ∷ cs) zero = c
char_at (c ∷ cs) (suc j) = char_at cs j

unfoldable pub append_string : DbRecordBuffer → List ℕ → Option DbRecordBuffer
append_string b v =
    appended b ((length v * 2 + text_code) % 2 ^ 32) (length v)
      (memcpy b.dbr.data_ b.offset (char_at v) 0 (length v)) 4

unfoldable pub finalize : DbRecordBuffer → DbRecord
finalize b = record b.dbr {
  nfields = b.field;
  data_len = b.offset;
  packed_len = (b.header_size + b.offset) % 2 ^ 32;
}

-- `(types[field] - 13) % 2 == 0` in `uint32_t`.
unfoldable pub get_type : DbRecord → ℕ → SqlType
get_type dbr field =
    let code = dbr.types field in
    if code == sql_null_code
    then SqlType.sql_null
    else if code == integer_1byte_code
    then SqlType.integer_1byte
    else if code == integer_2byte_code
    then SqlType.integer_2byte
    else if code == integer_4byte_code
    then SqlType.integer_4byte
    else if (code + (2 ^ 32 - text_code)) % 2 ^ 32 % 2 == 0
    then SqlType.text
    else SqlType.notvalid

unfoldable pub get_int8 : DbRecord → ℕ → ℕ
get_int8 dbr field = dbr.data_ (dbr.offsets field)

unfoldable pub get_int16 : DbRecord → ℕ → ℕ
get_int16 dbr field = get2byte dbr.data_ (dbr.offsets field)

unfoldable pub get_int32 : DbRecord → ℕ → ℕ
get_int32 dbr field = get4byte dbr.data_ (dbr.offsets field)

unfoldable pub get_string_length : DbRecord → ℕ → ℕ
get_string_length dbr field = (dbr.types field + (2 ^ 32 - text_code)) % 2 ^ 32 / 2

unfoldable pub get_string : DbRecord → ℕ → List ℕ
get_string dbr field = slice (λ k. dbr.data_ (dbr.offsets field + k)) (get_string_length dbr field)

unfoldable pub is_text : SqlType → Bool
is_text SqlType.text = true
is_text SqlType.sql_null = false
is_text SqlType.integer_1byte = false
is_text SqlType.integer_2byte = false
is_text SqlType.integer_4byte = false
is_text SqlType.notvalid = false

-- The types of `k` fields from field `i` on, at `header_pos` in `uint8_t`.
unfoldable pub pack_types : DbRecord → Bytes → ℕ → ℕ → ℕ → Bytes
pack_types dbr p header_pos i zero = p
pack_types dbr p header_pos i (suc k) =
    let as_text =
      pack_types dbr (put_varint32 p header_pos (dbr.types i)) ((header_pos + 4) % 2 ^ 8) (i + 1)
        k in
    let as_byte =
      pack_types dbr (store p header_pos (dbr.types i % 2 ^ 8)) ((header_pos + 1) % 2 ^ 8) (i + 1)
        k in
    if is_text (get_type dbr i) then as_text else as_byte

-- The bytes of the new buffer are 0 here before they are written.
unfoldable pub pack : DbRecord → Bytes
pack dbr =
    let p = store zeros 0 ((dbr.packed_len + 2 ^ 32 - dbr.data_len) % 2 ^ 8) in
    let p = pack_types dbr p 1 0 dbr.nfields in memcpy p (p 0) dbr.data_ 0 dbr.data_len
