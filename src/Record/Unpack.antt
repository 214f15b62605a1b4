-- ===== src/Record/Unpack.antt =====
-- src/libchidb/record.c: `chidb_DBRecord_unpack`. The raw record is a buffer, with the pointer at offset 0.
use Prim.Native.Nat.{bit_and}
use chidb.Prelude.{ℕ, zero, suc, ◌+◌, ◌%◌, ◌^◌, Option, none, some, ltb, ◌==◌, if◌then◌else◌}
use chidb.Bytes.{Bytes, zeros, memcpy, get_varint32}
use chidb.Record.{SqlType, DbRecord, set_elem, get_type, get_string_length}

-- The `while` loop over the header, with `nfields` types read. The array has `slots` places left, of 255: a write past
-- it is undefined, `none`. `header_pos` is a `uint8_t`.
unfoldable pub unpack_types : ℕ → Bytes → ℕ → ℕ → ℕ → (ℕ → ℕ) → Option (ℕ × (ℕ → ℕ))
unpack_types zero raw header_size header_pos nfields types =
    if ltb header_pos header_size then none else some (nfields, types)
unpack_types (suc slots) raw header_size header_pos nfields types =
    let wide =
      unpack_types slots raw header_size ((header_pos + 4) % 2 ^ 8) (nfields + 1)
        (set_elem types nfields (get_varint32 raw header_pos)) in
    let narrow =
      unpack_types slots raw header_size ((header_pos + 1) % 2 ^ 8) (nfields + 1)
        (set_elem types nfields (raw header_pos)) in
    let more = if bit_and (raw header_pos) 0x80 == 0 then narrow else wide in
    if ltb header_pos header_size then more else some (nfields, types)

-- What a field adds to the offset. Its string length is an `int`.
unfoldable pub field_size : DbRecord → ℕ → ℕ
field_size dbr i = elim (get_type dbr i) [
  | SqlType.sql_null ↦ 0
  | SqlType.integer_1byte ↦ 1
  | SqlType.integer_2byte ↦ 2
  | SqlType.integer_4byte ↦ 4
  | SqlType.text ↦ get_string_length dbr i
  | SqlType.notvalid ↦ 0
]

-- The `for` loop over the fields, from field `i` on, with the offset in `uint32_t`; it gives the last offset too.
unfoldable pub unpack_offsets : DbRecord → ℕ → ℕ → ℕ → ℕ × DbRecord
unpack_offsets dbr offset i zero = (offset, dbr)
unpack_offsets dbr offset i (suc k) =
    unpack_offsets (record dbr { offsets = set_elem dbr.offsets i offset })
      ((offset + field_size dbr i) % 2 ^ 32) (i + 1) k

-- What the allocated arrays hold at first is not used; here it is 0.
unfoldable pub typed_record : ℕ → (ℕ → ℕ) → DbRecord
typed_record nfields types = record {
  data_ = zeros;
  data_len = 0;
  nfields = nfields;
  packed_len = 0;
  types = types;
  offsets = zeros;
}

unfoldable pub with_data : Bytes → ℕ → ℕ × DbRecord → DbRecord
with_data raw header_size (offset, dbr) = record dbr {
  data_len = offset;
  packed_len = (header_size + offset) % 2 ^ 32;
  data_ = memcpy zeros 0 raw header_size offset;
}

unfoldable pub unpack : Bytes → Option DbRecord
unpack raw = elim (unpack_types 255 raw (raw 0) 1 0 zeros) [
  | none ↦ none
  | some (nfields, types) ↦
      some (with_data raw (raw 0) (unpack_offsets (typed_record nfields types) 0 0 nfields))
]
