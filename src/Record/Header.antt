-- ===== src/Record/Header.antt =====
-- src/libchidb/record.c: the header that `chidb_DBRecord_pack` writes.
use Prim.Native.Nat.{bit_and}
use chidb.Prelude.{
  ℕ, zero, suc, ◌+◌, ◌%◌, ◌^◌, ◌≤◌, ◌<◌, ◌≡◌, ◌≢◌, inl, inr, refl, ap, ap₂, subst, ◌∙◌, Bool, true,
  false, arith, if◌then◌else◌, le-cases, Bool-cases, rising-le,
}
use chidb.Bytes.{Bytes, store, get_varint32, put_varint32}
use chidb.Bytes.Laws.{
  get_varint32-put_varint32, put_varint32-top, top_bit, put_varint32-frame, get_varint32-same,
}
use chidb.Record.{SqlType, DbRecord, get_type, is_text, pack_types}
use chidb.Record.Unpack.{field_size}

-- The bytes that the type of a field takes in the header, and where they begin.
abbrev pub width : DbRecord → ℕ → ℕ
width dbr i = if is_text (get_type dbr i) then 4 else 1

abbrev pub header_to : DbRecord → ℕ → ℕ
header_to dbr zero = 1
header_to dbr (suc i) = header_to dbr i + width dbr i

-- Where the data of a field begins.
abbrev pub offset_to : DbRecord → ℕ → ℕ
offset_to dbr zero = 0
offset_to dbr (suc i) = offset_to dbr i + field_size dbr i

-- The type codes are valid and fit the 28 bits of a variable-length integer, and the header fits the byte
-- that holds its size.
pub record IsTyped (dbr : DbRecord) : Type 0 where
  pub valid : (i : ℕ) → i < dbr.nfields → get_type dbr i ≢ SqlType.notvalid
  pub code_lt : (i : ℕ) → i < dbr.nfields → dbr.types i < 2 ^ 28
  pub header_lt : header_to dbr dbr.nfields < 2 ^ 8

-- What the bytes from `pos` on are for a type code.
abbrev pub TypeAt : Bool → Bytes → ℕ → ℕ → Type 0
TypeAt true d pos code = (get_varint32 d pos ≡ code) × (bit_and (d pos) 0x80 ≢ 0)
TypeAt false d pos code = (d pos ≡ code) × (bit_and (d pos) 0x80 ≡ 0)

pub TypeAt-same :
    (text : Bool) (d e : Bytes) (pos code : ℕ)
    → ((j : ℕ) → pos ≤ j → j < pos + (if text then 4 else 1) → e j ≡ d j)
    → TypeAt text d pos code
    → TypeAt text e pos code
TypeAt-same true d e pos code same (at_pos, top) =
    (get_varint32-same e d pos same ∙ at_pos, rw (same pos (omega arith) (omega arith)) top)
TypeAt-same false d e pos code same (at_pos, top) =
    rw (same pos (omega arith) (omega arith)) (at_pos, top)

-- The type code of a field, written at `pos`.
abbrev with_type : DbRecord → Bytes → ℕ → ℕ → Bytes
with_type dbr p pos i =
    if is_text (get_type dbr i)
    then put_varint32 p pos (dbr.types i)
    else store p pos (dbr.types i % 2 ^ 8)

text_at :
    (p : Bytes) (pos code : ℕ) → code < 2 ^ 28 → TypeAt true (put_varint32 p pos code) pos code
text_at p pos code small = (
  get_varint32-put_varint32 p pos code ∙ omega arith,
  rw (top_bit (put_varint32 p pos code pos)) (rw (put_varint32-top p pos code) (λ e. omega arith)),
)

byte_at :
    (p : Bytes) (pos code : ℕ) → code < 2 ^ 7 → TypeAt false (store p pos (code % 2 ^ 8)) pos code
unfolding store
byte_at p pos code small =
    (ground arith, rw (top_bit (store p pos (code % 2 ^ 8) pos)) (ground arith))

module _ (dbr : DbRecord) (typed : IsTyped dbr) where
  -- The code of a valid type other than a text is below 128.
  code_of_byte : (i : ℕ) → i < dbr.nfields → is_text (get_type dbr i) ≡ false → dbr.types i < 2 ^ 7
  unfolding get_type is_text
  code_of_byte i h e = ground (arith, typed.valid i h)

  with_type-TypeAt :
      (p : Bytes) (pos i : ℕ)
      → i < dbr.nfields
      → TypeAt (is_text (get_type dbr i)) (with_type dbr p pos i) pos (dbr.types i)
  with_type-TypeAt p pos i h = elim (Bool-cases (is_text (get_type dbr i))) [
    | inl e ↦ rw e (text_at p pos (dbr.types i) (typed.code_lt i h))
    | inr e ↦ rw e (byte_at p pos (dbr.types i) (code_of_byte i h e))
  ]

  with_type-frame : (p : Bytes) (pos i j : ℕ) → j < pos → with_type dbr p pos i j ≡ p j
  unfolding store
  with_type-frame p pos i j h = elim (Bool-cases (is_text (get_type dbr i))) [
    | inl e ↦ rw e (put_varint32-frame p pos (dbr.types i) j (inl h))
    | inr e ↦ rw e (ground arith)
  ]

  header_to-add_suc : (i k : ℕ) → header_to dbr (i + suc k) ≡ header_to dbr (suc i + k)
  header_to-add_suc i k = ap (header_to dbr) (omega arith)

  header_to-step : (i : ℕ) → header_to dbr i < header_to dbr (suc i)
  header_to-step i = ground arith

  header_to-rises : (i n : ℕ) → i ≤ n → header_to dbr i ≤ header_to dbr n
  header_to-rises = rising-le (header_to dbr) λ i. omega arith

  pub header_to-le : (i : ℕ) → i ≤ dbr.nfields → header_to dbr i ≤ header_to dbr dbr.nfields
  header_to-le i h = header_to-rises i dbr.nfields h

  rest_fits : (i k : ℕ) → header_to dbr (i + suc k) < 2 ^ 8 → header_to dbr (suc i + k) < 2 ^ 8
  rest_fits i k h = subst (λ n. n < 2 ^ 8) (header_to-add_suc i k) h

  next_fits : (i k : ℕ) → header_to dbr (i + suc k) < 2 ^ 8 → header_to dbr (suc i) < 2 ^ 8
  next_fits i k h = omega (arith, rest_fits i k h, header_to-rises (suc i) (suc i + k))

  -- One round of the loop that writes the types.
  pack_types-round :
      (p : Bytes) (i k : ℕ)
      → header_to dbr (suc i) < 2 ^ 8
      → pack_types dbr p (header_to dbr i) i (suc k)
        ≡ pack_types dbr (with_type dbr p (header_to dbr i) i) (header_to dbr (suc i)) (suc i) k
  unfolding pack_types
  pack_types-round p i k h = elim (Bool-cases (is_text (get_type dbr i))) [
    | inl e ↦ rw e (
        ap₂ (λ (n m : ℕ). pack_types dbr (put_varint32 p (header_to dbr i) (dbr.types i)) n m k)
          (ground (arith, h, e)) (omega arith))
    | inr e ↦ rw e (
        ap₂ (λ (n m : ℕ). pack_types dbr (store p (header_to dbr i) (dbr.types i % 2 ^ 8)) n m k)
          (ground (arith, h, e)) (omega arith))
  ]

  pub pack_types-frame :
      (p : Bytes) (i k j : ℕ)
      → header_to dbr (i + k) < 2 ^ 8
      → j < header_to dbr i
      → pack_types dbr p (header_to dbr i) i k j ≡ p j
  unfolding pack_types
  pack_types-frame p i zero j fits h = refl
  pack_types-frame p i (suc k) j fits h =
      ap (λ (q : Bytes). q j) (pack_types-round p i k (next_fits i k fits))
      ∙ pack_types-frame (with_type dbr p (header_to dbr i) i) (suc i) k j (rest_fits i k fits)
          (omega (arith, header_to-step i))
      ∙ with_type-frame p (header_to dbr i) i j h

  -- The bytes of the type of every field stand at their place in the header.
  pub pack_types-TypeAt :
      (p : Bytes) (i k j : ℕ)
      → i + k ≤ dbr.nfields
      → header_to dbr (i + k) < 2 ^ 8
      → i ≤ j
      → j < i + k
      → TypeAt
          (is_text (get_type dbr j))
          (pack_types dbr p (header_to dbr i) i k)
          (header_to dbr j)
          (dbr.types j)
  pack_types-TypeAt p i zero j fields fits from to = absurd (omega arith)
  pack_types-TypeAt p i (suc k) j fields fits from to =
      rw (pack_types-round p i k (next_fits i k fits)) (elim (le-cases j i) [
        | inl here ↦
            subst
              (λ n.
                TypeAt (is_text (get_type dbr n))
                  (pack_types dbr (with_type dbr p (header_to dbr i) i) (header_to dbr (suc i))
                    (suc i) k)
                  (header_to dbr n) (dbr.types n))
              (omega arith)
              (TypeAt-same (is_text (get_type dbr i)) _ _ (header_to dbr i) (dbr.types i)
                (λ n from' to'.
                  pack_types-frame (with_type dbr p (header_to dbr i) i) (suc i) k n
                    (rest_fits i k fits) to')
                (with_type-TypeAt p (header_to dbr i) i (omega arith)))
        | inr later ↦
            pack_types-TypeAt (with_type dbr p (header_to dbr i) i) (suc i) k j (omega arith)
              (rest_fits i k fits) later (omega arith)
      ])
