-- ===== src/Record/Tests.antt =====
-- src/libchidb/record.c on a record of two fields.
use chidb.Record.Values.{
  Value, null_value, int8_value, int32_value, text_value, IsValue, append_values,
}
use chidb.Record.Build.{IsRow}
use chidb.Record.Rows.{Reads, unpack-append_values}
use chidb.Record.Unpack.{unpack}
use chidb.Prelude.{ℕ, zero, suc, ◌<◌, codes, ◌≡◌, ◌%◌, ◌^◌, refl, arith, some, [], ◌∷◌}
use chidb.Bytes.{store, put_varint32, varint_word, memcpy}
use chidb.Record.{
  SqlType, DbRecord, DbRecordBuffer, create_empty, finalize, grown, append_int32, append_string,
  pack, pack_types, get_type, is_text, get_int32, get_string,
}
use chidb.Record.Fields.{HasSpace, get_int32-append_int32, get_string-append_string}

abbrev empty_buffer : DbRecordBuffer
empty_buffer = record {
  dbr = record {
    data_ = λ i. 0;
    data_len = 0;
    nfields = 2;
    packed_len = 0;
    types = λ i. 0;
    offsets = λ i. 0;
  };
  buf_size = 1024;
  field = 0;
  offset = 0;
  header_size = 1;
}

created_empty : create_empty 2 ≡ empty_buffer
unfolding create_empty
created_empty = refl

-- The header of a record with one null field is the two bytes 2 and 0.
abbrev one_null : DbRecord
one_null = record {
  data_ = λ i. 0;
  data_len = 0;
  nfields = 1;
  packed_len = 2;
  types = λ i. 0;
  offsets = λ i. 0;
}

packed_null : pack one_null 0 ≡ 2
unfolding pack pack_types get_type is_text store memcpy put_varint32 varint_word
packed_null = refl

space_for_integer : HasSpace empty_buffer 4
unfolding grown
space_for_integer = (omega arith, omega arith)

get_int32-append_int32_example :
    (b' : DbRecordBuffer) × (append_int32 empty_buffer 0xffff_fffe ≡ some b')
    × (get_type b'.dbr 0 ≡ SqlType.integer_4byte)
    × (get_int32 b'.dbr 0 ≡ 0xffff_fffe % 2 ^ 32)
get_int32-append_int32_example = get_int32-append_int32 empty_buffer 0xffff_fffe space_for_integer

space_for_string : HasSpace empty_buffer 2
unfolding grown
space_for_string = (omega arith, omega arith)

get_string-append_string_example :
    (b' : DbRecordBuffer) × (append_string empty_buffer (104 ∷ 105 ∷ []) ≡ some b')
    × (get_type b'.dbr 0 ≡ SqlType.text)
    × (get_string b'.dbr 0 ≡ 104 ∷ 105 ∷ [])
get_string-append_string_example =
    get_string-append_string empty_buffer (104 ∷ 105 ∷ []) (omega arith) space_for_string

-- NULL, 7 in one byte, 300 in four and a text.
abbrev sample_row : ℕ → Value
sample_row zero = null_value
sample_row (suc zero) = int8_value 7
sample_row (suc (suc zero)) = int32_value 300
sample_row (suc (suc (suc n))) = text_value (codes "abc")

sample-IsValue : (i : ℕ) → i < 4 → IsValue (sample_row i)
sample-IsValue zero h = tt
sample-IsValue (suc zero) h = omega arith
sample-IsValue (suc (suc zero)) h = omega arith
sample-IsValue (suc (suc (suc n))) h = omega arith

sample-IsRow : IsRow sample_row 4
sample-IsRow = record { values = sample-IsValue; header_lt = omega arith; data_lt = omega arith }

unpack-append_values_example :
    (b : DbRecordBuffer) × (r : DbRecord) × (append_values sample_row 0 4 (create_empty 4) ≡ some b)
    × (unpack (pack (finalize b)) ≡ some r)
    × (r.nfields ≡ 4)
    × (r.packed_len ≡ (finalize b).packed_len)
    × ((i : ℕ) → i < 4 → Reads (sample_row i) r i)
unpack-append_values_example = unpack-append_values sample_row 4 sample-IsRow
