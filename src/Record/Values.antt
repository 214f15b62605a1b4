-- ===== src/Record/Values.antt =====
-- src/libchidb/record.c: a row of values, and the buffer after some of them were appended.
use chidb.Prelude.{
  ℕ, zero, suc, ◌+◌, ◌*◌, ◌^◌, ◌≤◌, ◌<◌, ◌≡◌, ◌≢◌, refl, ◌∙◌, arith, Option, none, some, List,
  length, rising-le,
}
use chidb.Bytes.{Bytes, get2byte, get4byte}
use chidb.Bytes.Laws.{get2byte-same, get4byte-same}
use chidb.Record.{
  DbRecordBuffer, sql_null_code, integer_1byte_code, integer_2byte_code, integer_4byte_code,
  text_code, create_empty, set_elem, append_int8, append_int16, append_int32, append_null,
  append_string, char_at,
}

pub data Value : Type 0 where
  null_value : Value
  int8_value : ℕ → Value
  int16_value : ℕ → Value
  int32_value : ℕ → Value
  text_value : List ℕ → Value

-- What one call appends.
unfoldable pub append_value : Value → DbRecordBuffer → Option DbRecordBuffer
append_value null_value b = append_null b
append_value (int8_value x) b = append_int8 b x
append_value (int16_value x) b = append_int16 b x
append_value (int32_value x) b = append_int32 b x
append_value (text_value cs) b = append_string b cs

-- The values `i`, `i + 1` and so on, `k` of them.
unfoldable pub append_values : (ℕ → Value) → ℕ → ℕ → DbRecordBuffer → Option DbRecordBuffer
append_values v i zero b = some b
append_values v i (suc k) b = elim (append_value (v i) b) [
  | none ↦ none
  | some b' ↦ append_values v (suc i) k b'
]

-- The type code of a value, its bytes in the header and its bytes in the data.
abbrev pub code_of : Value → ℕ
code_of null_value = sql_null_code
code_of (int8_value x) = integer_1byte_code
code_of (int16_value x) = integer_2byte_code
code_of (int32_value x) = integer_4byte_code
code_of (text_value cs) = length cs * 2 + text_code

abbrev pub width_of : Value → ℕ
width_of null_value = 1
width_of (int8_value x) = 1
width_of (int16_value x) = 1
width_of (int32_value x) = 1
width_of (text_value cs) = 4

abbrev pub size_of : Value → ℕ
size_of null_value = 0
size_of (int8_value x) = 1
size_of (int16_value x) = 2
size_of (int32_value x) = 4
size_of (text_value cs) = length cs

-- The header and the data of the first `i` values.
abbrev pub head_of : (ℕ → Value) → ℕ → ℕ
head_of v zero = 1
head_of v (suc i) = head_of v i + width_of (v i)

abbrev pub data_of : (ℕ → Value) → ℕ → ℕ
data_of v zero = 0
data_of v (suc i) = data_of v i + size_of (v i)

-- An integer fits its width, and a text grows the buffer at most once.
abbrev pub IsValue : Value → Type 0
IsValue null_value = Unit
IsValue (int8_value x) = x < 2 ^ 8
IsValue (int16_value x) = x < 2 ^ 16
IsValue (int32_value x) = x < 2 ^ 32
IsValue (text_value cs) = length cs ≤ 1024

-- The bytes from `o` on are those of the value.
abbrev pub BytesAt : Value → Bytes → ℕ → Type 0
BytesAt null_value d o = Unit
BytesAt (int8_value x) d o = d o ≡ x
BytesAt (int16_value x) d o = get2byte d o ≡ x
BytesAt (int32_value x) d o = get4byte d o ≡ x
BytesAt (text_value cs) d o = (k : ℕ) → k < length cs → d (o + k) ≡ char_at cs k

pub BytesAt-same :
    (x : Value) (d e : Bytes) (o : ℕ)
    → ((j : ℕ) → j < o + size_of x → e j ≡ d j)
    → BytesAt x d o
    → BytesAt x e o
BytesAt-same null_value d e o same h = tt
BytesAt-same (int8_value x) d e o same h = same o (omega arith) ∙ h
BytesAt-same (int16_value x) d e o same h = get2byte-same e d o (λ j from to. same j to) ∙ h
BytesAt-same (int32_value x) d e o same h = get4byte-same e d o (λ j from to. same j to) ∙ h
BytesAt-same (text_value cs) d e o same h = λ k l. same (o + k) (omega arith) ∙ h k l

-- The buffer after the first `i` of the values.
pub record IsBuilt (v : ℕ → Value) (i : ℕ) (b : DbRecordBuffer) : Type 0 where
  pub field : b.field ≡ i
  pub header_size : b.header_size ≡ head_of v i
  pub offset : b.offset ≡ data_of v i
  pub room : b.offset ≤ b.buf_size
  pub spare : b.buf_size ≤ b.offset + 1024
  pub type_at : (j : ℕ) → j < i → b.dbr.types j ≡ code_of (v j)
  pub offset_at : (j : ℕ) → j < i → v j ≢ null_value → b.dbr.offsets j ≡ data_of v j
  pub bytes_at : (j : ℕ) → j < i → BytesAt (v j) b.dbr.data_ (data_of v j)

pub data_of-le : (v : ℕ → Value) (i n : ℕ) → i ≤ n → data_of v i ≤ data_of v n
data_of-le v = rising-le (data_of v) λ i. omega arith

pub head_of-le : (v : ℕ → Value) (i n : ℕ) → i ≤ n → head_of v i ≤ head_of v n
head_of-le v = rising-le (head_of v) λ i. omega arith

width_of-pos : (x : Value) → 0 < width_of x
width_of-pos null_value = omega arith
width_of-pos (int8_value x) = omega arith
width_of-pos (int16_value x) = omega arith
width_of-pos (int32_value x) = omega arith
width_of-pos (text_value cs) = omega arith

pub index-head_of : (v : ℕ → Value) (i : ℕ) → i < head_of v i
index-head_of v zero = omega arith
index-head_of v (suc i) = omega (arith, index-head_of v i, width_of-pos (v i))

pub set_same : (a : ℕ → ℕ) (i x : ℕ) → set_elem a i x i ≡ x
unfolding set_elem
set_same a i x = ground arith

pub set_other : (a : ℕ → ℕ) (i x j : ℕ) → j < i → set_elem a i x j ≡ a j
unfolding set_elem
set_other a i x j h = ground arith

pub create_empty-IsBuilt : (v : ℕ → Value) (n : ℕ) → IsBuilt v 0 (create_empty n)
unfolding create_empty
create_empty-IsBuilt v n = record {
  field = refl;
  header_size = refl;
  offset = refl;
  room = omega arith;
  spare = omega arith;
  type_at = λ j h. absurd (omega arith);
  offset_at = λ j h. absurd (omega arith);
  bytes_at = λ j h. absurd (omega arith);
}
