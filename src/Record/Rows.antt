-- ===== src/Record/Rows.antt =====
-- src/libchidb/record.c: a row of values through the packed form of a record.
use chidb.Prelude.{
  ℕ, zero, suc, ◌+◌, ◌^◌, ◌≤◌, ◌<◌, ◌≡◌, ◌≢◌, refl, sym, ap, ap₂, ◌∙◌, arith, some, List, length,
}
use chidb.Bytes.{get2byte, get4byte}
use chidb.Node.Entries.{slice-same}
use chidb.Record.Fields.{slice-char_at}
use chidb.Record.{
  SqlType, DbRecord, DbRecordBuffer, create_empty, char_at, finalize, get_type, get_int8, get_int16,
  get_int32, get_string_length, get_string, is_text, pack,
}
use chidb.Record.Header.{width, header_to, offset_to}
use chidb.Record.RoundTrip.{IsPackable, SameFields, unpack-pack}
use chidb.Record.Unpack.{field_size, unpack}
use chidb.Record.Values.{
  Value, null_value, int8_value, int16_value, int32_value, text_value, append_values, code_of,
  width_of, size_of, head_of, data_of, IsValue, BytesAt, BytesAt-same, IsBuilt, data_of-le,
  create_empty-IsBuilt,
}
use chidb.Record.Build.{IsRow, append_values-IsBuilt}

abbrev pub type_of : Value → SqlType
type_of null_value = SqlType.sql_null
type_of (int8_value x) = SqlType.integer_1byte
type_of (int16_value x) = SqlType.integer_2byte
type_of (int32_value x) = SqlType.integer_4byte
type_of (text_value cs) = SqlType.text

-- What the accessors say of a field.
abbrev pub Reads : Value → DbRecord → ℕ → Type 0
Reads null_value r i = get_type r i ≡ SqlType.sql_null
Reads (int8_value x) r i = (get_type r i ≡ SqlType.integer_1byte) × (get_int8 r i ≡ x)
Reads (int16_value x) r i = (get_type r i ≡ SqlType.integer_2byte) × (get_int16 r i ≡ x)
Reads (int32_value x) r i = (get_type r i ≡ SqlType.integer_4byte) × (get_int32 r i ≡ x)
Reads (text_value cs) r i = (get_type r i ≡ SqlType.text) × (get_string r i ≡ cs)

module _ (dbr : DbRecord) (i : ℕ) where
  get_type-code_of : (x : Value) → IsValue x → dbr.types i ≡ code_of x → get_type dbr i ≡ type_of x
  unfolding get_type
  get_type-code_of null_value h e = rw e refl
  get_type-code_of (int8_value x) h e = rw e refl
  get_type-code_of (int16_value x) h e = rw e refl
  get_type-code_of (int32_value x) h e = rw e refl
  get_type-code_of (text_value cs) h e = rw e (ground arith)

  string_length-code_of :
      (cs : List ℕ)
      → length cs ≤ 1024
      → dbr.types i ≡ code_of (text_value cs)
      → get_string_length dbr i ≡ length cs
  unfolding get_string_length
  string_length-code_of cs h e = rw e (omega arith)

  width-code_of : (x : Value) → get_type dbr i ≡ type_of x → width dbr i ≡ width_of x
  unfolding is_text
  width-code_of null_value e = rw e refl
  width-code_of (int8_value x) e = rw e refl
  width-code_of (int16_value x) e = rw e refl
  width-code_of (int32_value x) e = rw e refl
  width-code_of (text_value cs) e = rw e refl

  field_size-code_of :
      (x : Value)
      → IsValue x
      → dbr.types i ≡ code_of x
      → get_type dbr i ≡ type_of x
      → field_size dbr i ≡ size_of x
  unfolding field_size
  field_size-code_of null_value h c e = rw (field_size, e) refl
  field_size-code_of (int8_value x) h c e = rw (field_size, e) refl
  field_size-code_of (int16_value x) h c e = rw (field_size, e) refl
  field_size-code_of (int32_value x) h c e = rw (field_size, e) refl
  field_size-code_of (text_value cs) h c e = rw (field_size, e) (string_length-code_of cs h c)

  -- The bytes of a value at the offset of its field, and its type code, make up the field.
  Reads-BytesAt :
      (x : Value) (o : ℕ)
      → IsValue x
      → dbr.types i ≡ code_of x
      → (x ≢ null_value → dbr.offsets i ≡ o)
      → BytesAt x dbr.data_ o
      → Reads x dbr i
  unfolding get_int8 get_int16 get_int32 get_string
  Reads-BytesAt null_value o h c at bytes = get_type-code_of null_value h c
  Reads-BytesAt (int8_value x) o h c at bytes =
      (get_type-code_of (int8_value x) h c, ap dbr.data_ (at (λ e. cc)) ∙ bytes)
  Reads-BytesAt (int16_value x) o h c at bytes =
      (get_type-code_of (int16_value x) h c, ap (get2byte dbr.data_) (at (λ e. cc)) ∙ bytes)
  Reads-BytesAt (int32_value x) o h c at bytes =
      (get_type-code_of (int32_value x) h c, ap (get4byte dbr.data_) (at (λ e. cc)) ∙ bytes)
  Reads-BytesAt (text_value cs) o h c at bytes = (
    get_type-code_of (text_value cs) h c,
    rw (at (λ e. cc), string_length-code_of cs h c)
        (slice-same (λ k. dbr.data_ (o + k)) (char_at cs) (length cs) bytes ∙ slice-char_at cs),
  )

-- The record of a buffer that holds a whole row.
module _ (v : ℕ → Value) (n : ℕ) (row : IsRow v n) (b : DbRecordBuffer)
    (built : IsBuilt v n b) where
  abbrev final : DbRecord
  final = finalize b

  final-types : (i : ℕ) → i < n → final.types i ≡ code_of (v i)
  unfolding finalize
  final-types = built.type_at

  final-type : (i : ℕ) → i < n → get_type final i ≡ type_of (v i)
  final-type i h = get_type-code_of final i (v i) (row.values i h) (final-types i h)

  final-header_to : (i : ℕ) → i ≤ n → header_to final i ≡ head_of v i
  final-header_to zero h = refl
  final-header_to (suc i) h =
      ap₂ ◌+◌ (final-header_to i (omega arith)) (width-code_of final i (v i) (final-type i h))

  final-offset_to : (i : ℕ) → i ≤ n → offset_to final i ≡ data_of v i
  final-offset_to zero h = refl
  final-offset_to (suc i) h =
      ap₂ ◌+◌ (final-offset_to i (omega arith))
        (field_size-code_of final i (v i) (row.values i h) (final-types i h) (final-type i h))

  final-nfields : final.nfields ≡ n
  unfolding finalize
  final-nfields = built.field

  final-data_len : final.data_len ≡ data_of v n
  unfolding finalize
  final-data_len = built.offset

  final-header : header_to final final.nfields ≡ head_of v n
  final-header = ap (header_to final) final-nfields ∙ final-header_to n (omega arith)

  final-data_to : offset_to final final.nfields ≡ data_of v n
  final-data_to = ap (offset_to final) final-nfields ∙ final-offset_to n (omega arith)

  final-packed_len : final.packed_len ≡ head_of v n + data_of v n
  unfolding finalize
  final-packed_len = omega (arith, built.header_size, built.offset, row.header_lt, row.data_lt)

  null-type : (x : Value) → x ≡ null_value → type_of x ≡ SqlType.sql_null
  null-type x e = rw e refl

  type-null : (x : Value) → type_of x ≡ SqlType.sql_null → x ≡ null_value
  type-null null_value e = refl
  type-null (int8_value x) e = absurd cc
  type-null (int16_value x) e = absurd cc
  type-null (int32_value x) e = absurd cc
  type-null (text_value cs) e = absurd cc

  final-offsets :
      (i : ℕ) → i < n → get_type final i ≢ SqlType.sql_null → final.offsets i ≡ data_of v i
  unfolding finalize
  final-offsets i h g = built.offset_at i h λ e. g (final-type i h ∙ null-type (v i) e)

  code_of-lt : (x : Value) → IsValue x → code_of x < 2 ^ 28
  code_of-lt null_value h = omega arith
  code_of-lt (int8_value x) h = omega arith
  code_of-lt (int16_value x) h = omega arith
  code_of-lt (int32_value x) h = omega arith
  code_of-lt (text_value cs) h = omega arith

  type_of-valid : (x : Value) → type_of x ≢ SqlType.notvalid
  type_of-valid null_value e = cc
  type_of-valid (int8_value x) e = cc
  type_of-valid (int16_value x) e = cc
  type_of-valid (int32_value x) e = cc
  type_of-valid (text_value cs) e = cc

  final-IsPackable : IsPackable final
  final-IsPackable = record {
    typed = record {
      valid = λ i h e. type_of-valid (v i) (sym (final-type i (omega (arith, final-nfields))) ∙ e);
      code_lt = λ i h.
          rw (final-types i (omega (arith, final-nfields)))
            (code_of-lt (v i) (row.values i (omega (arith, final-nfields))));
      header_lt = omega (arith, final-header, row.header_lt);
    };
    offset_is = λ i h g.
        final-offsets i (omega (arith, final-nfields)) g
        ∙ sym (final-offset_to i (omega (arith, final-nfields)));
    data_len_is = final-data_len ∙ sym final-data_to;
    packed_len_is = final-packed_len ∙ omega (arith, final-header, final-data_len);
    packed_len_lt = omega (arith, final-packed_len, row.header_lt, row.data_lt);
  }

  -- The fields of a record with the same fields, at their places in the same data.
  same-Reads : (r : DbRecord) → SameFields final r → (i : ℕ) → i < n → Reads (v i) r i
  unfolding finalize
  same-Reads r same i h =
      Reads-BytesAt r i (v i) (data_of v i) (row.values i h)
        (same.types i (omega (arith, built.field)) ∙ built.type_at i h)
        (λ g.
          same.offsets i (omega (arith, built.field))
            (λ e. g (type-null (v i) (sym (final-type i h) ∙ e)))
          ∙ built.offset_at i h g)
        (BytesAt-same (v i) b.dbr.data_ r.data_ (data_of v i)
          (λ j l. same.data_ j (omega (arith, built.offset, data_of-le v (suc i) n h)))
          (built.bytes_at i h))

-- A row of values that fits a record is built, packed and unpacked without an error, and the record that comes
-- back has the same number of fields and packed length, and every field of it reads as its value.
pub unpack-append_values :
    (v : ℕ → Value) (n : ℕ)
    → IsRow v n
    → (b : DbRecordBuffer) × (r : DbRecord) × (append_values v 0 n (create_empty n) ≡ some b)
      × (unpack (pack (finalize b)) ≡ some r)
      × (r.nfields ≡ n)
      × (r.packed_len ≡ (finalize b).packed_len)
      × ((i : ℕ) → i < n → Reads (v i) r i)
unfolding create_empty
unpack-append_values v n row =
    let (b, is_b, built) =
      append_values-IsBuilt v n row 0 n (create_empty n) (omega arith) (create_empty-IsBuilt v n)
        refl in
    let (r, is_r, same) = unpack-pack (finalize b) (final-IsPackable v n row b built) in
    (
      b,
      r,
      is_b,
      is_r,
      same.nfields ∙ final-nfields v n row b built,
      same.packed_len,
      same-Reads v n row b built r same,
    )
