-- ===== src/Record/RoundTrip.antt =====
-- src/libchidb/record.c: `chidb_DBRecord_unpack` after `chidb_DBRecord_pack`.
use Prim.Native.Nat.{bit_and}
use chidb.Prelude.{
  ℕ, zero, suc, ◌+◌, ◌-◌, ◌%◌, ◌^◌, ◌≤◌, ◌<◌, ◌≡◌, ◌≢◌, inl, inr, refl, sym, ap, ap₂, subst, ◌∙◌,
  arith, eq-cases, Bool-cases, some, rising-le,
}
use chidb.Bytes.{Bytes, zeros, store, memcpy, get_varint32}
use chidb.Bytes.Laws.{memcpy-frame, memcpy_copies}
use chidb.Record.{
  SqlType, DbRecord, get_type, get_string_length, is_text, set_elem, pack_types, pack,
}
use chidb.Record.Header.{
  header_to, offset_to, IsTyped, TypeAt, TypeAt-same, header_to-le, pack_types-frame,
  pack_types-TypeAt,
}
use chidb.Record.Unpack.{unpack_types, field_size, unpack_offsets, typed_record, with_data, unpack}

-- The raw bytes begin with the header of the record.
record HasHeader (dbr : DbRecord) (raw : Bytes) : Type 0 where
  size : raw 0 ≡ header_to dbr dbr.nfields
  type_at :
      (i : ℕ)
      → i < dbr.nfields
      → TypeAt (is_text (get_type dbr i)) raw (header_to dbr i) (dbr.types i)

-- One round of the loop that reads the types, by the top bit of the byte.
module _ (raw : Bytes) (slots header_size pos n : ℕ) (types : ℕ → ℕ)
    (more : pos < header_size) where
  wide_round :
      bit_and (raw pos) 0x80 ≢ 0
      → pos + 4 < 2 ^ 8
      → unpack_types (suc slots) raw header_size pos n types
        ≡ unpack_types slots raw header_size
            (pos + 4)
            (suc n)
            (set_elem types n (get_varint32 raw pos))
  unfolding unpack_types
  wide_round top small = rw (wraps, next_field) (ground arith)
    where
      wraps : (pos + 4) % 2 ^ 8 ≡ pos + 4
      wraps = omega arith

      next_field : n + 1 ≡ suc n
      next_field = omega arith

  narrow_round :
      bit_and (raw pos) 0x80 ≡ 0
      → pos + 1 < 2 ^ 8
      → unpack_types (suc slots) raw header_size pos n types
        ≡ unpack_types slots raw header_size (pos + 1) (suc n) (set_elem types n (raw pos))
  unfolding unpack_types
  narrow_round top small = rw (wraps, next_field) (ground arith)
    where
      wraps : (pos + 1) % 2 ^ 8 ≡ pos + 1
      wraps = omega arith

      next_field : n + 1 ≡ suc n
      next_field = omega arith

types_end :
    (slots : ℕ) (raw : Bytes) (header_size n : ℕ) (types : ℕ → ℕ)
    → unpack_types slots raw header_size header_size n types ≡ some (n, types)
unfolding unpack_types
types_end zero raw header_size n types = ground arith
types_end (suc slots) raw header_size n types = ground arith

set_known :
    {a : ℕ → ℕ} (i : ℕ) (types : ℕ → ℕ)
    → ((j : ℕ) → j < i → types j ≡ a j)
    → (j : ℕ) → j < suc i
    → set_elem types i (a i) j ≡ a j
unfolding set_elem
set_known {a = a} i types known j h = elim (eq-cases j i) [
  | inl e ↦ rw e (ground arith)
  | inr (inl lt) ↦ ground (arith, known j lt)
  | inr (inr gt) ↦ absurd (omega arith)
]

module _ (dbr : DbRecord) (typed : IsTyped dbr) (raw : Bytes) (header : HasHeader dbr raw) where
  header_to-lt : (i : ℕ) → i < dbr.nfields → header_to dbr i < header_to dbr dbr.nfields
  header_to-lt i h = ground (arith, header_to-le dbr typed (suc i) h)

  header_small : (i : ℕ) → i < dbr.nfields → header_to dbr (suc i) < 2 ^ 8
  header_small i h = omega (arith, header_to-le dbr typed (suc i) h, typed.header_lt)

  -- One round of the loop that reads the types.
  unpack_types-round :
      (slots i : ℕ) (types : ℕ → ℕ)
      → i < dbr.nfields
      → unpack_types (suc slots) raw (header_to dbr dbr.nfields) (header_to dbr i) i types
        ≡ unpack_types slots raw
            (header_to dbr dbr.nfields)
            (header_to dbr (suc i))
            (suc i)
            (set_elem types i (dbr.types i))
  unpack_types-round slots i types h = elim (Bool-cases (is_text (get_type dbr i))) [
    | inl e ↦
        let (code, top) =
          subst (λ b. TypeAt b raw (header_to dbr i) (dbr.types i)) e (header.type_at i h) in
        let wide : header_to dbr i + 4 ≡ header_to dbr (suc i) = rw e refl in
        wide_round raw slots _ (header_to dbr i) i types (header_to-lt i h) top
          (rw wide (header_small i h))
        ∙ ap₂
            (λ (n c : ℕ).
              unpack_types slots raw (header_to dbr dbr.nfields) n (suc i) (set_elem types i c))
            wide code
    | inr e ↦
        let (code, top) =
          subst (λ b. TypeAt b raw (header_to dbr i) (dbr.types i)) e (header.type_at i h) in
        let narrow : header_to dbr i + 1 ≡ header_to dbr (suc i) = rw e refl in
        narrow_round raw slots _ (header_to dbr i) i types (header_to-lt i h) top
          (rw narrow (header_small i h))
        ∙ ap₂
            (λ (n c : ℕ).
              unpack_types slots raw (header_to dbr dbr.nfields) n (suc i) (set_elem types i c))
            narrow code
  ]

  unpack_types-reads :
      (slots i k : ℕ) (types : ℕ → ℕ)
      → dbr.nfields ≡ i + k
      → k ≤ slots
      → ((j : ℕ) → j < i → types j ≡ dbr.types j)
      → (ts : ℕ → ℕ) × (unpack_types slots raw (header_to dbr dbr.nfields) (header_to dbr i) i types
          ≡ some (dbr.nfields, ts))
        × ((j : ℕ) → j < dbr.nfields → ts j ≡ dbr.types j)
  unpack_types-reads slots i zero types fields room known =
      let at_end : i ≡ dbr.nfields = omega arith in
      (
        types,
        rw at_end (types_end slots raw (header_to dbr dbr.nfields) dbr.nfields types),
        λ j h. known j (omega arith),
      )
  unpack_types-reads zero i (suc k) types fields room known = absurd (omega arith)
  unpack_types-reads (suc slots) i (suc k) types fields room known =
      let (ts, e, same) =
        unpack_types-reads slots (suc i) k (set_elem types i (dbr.types i)) (omega arith)
          (omega arith) (set_known i types known) in
      (ts, unpack_types-round slots i types (omega arith) ∙ e, same)

-- The type code of a field decides its size.
module _ (dbr r : DbRecord) (i : ℕ) (same : r.types i ≡ dbr.types i) where
  pub get_type-same : get_type r i ≡ get_type dbr i
  unfolding get_type
  get_type-same = rw same refl

  pub get_string_length-same : get_string_length r i ≡ get_string_length dbr i
  unfolding get_string_length
  get_string_length-same = rw same refl

  field_size-same : field_size r i ≡ field_size dbr i
  unfolding field_size
  field_size-same =
      ap₂
        (λ (t : SqlType) (n : ℕ). elim t as (λ x. ℕ) [
          | SqlType.sql_null ↦ 0
          | SqlType.integer_1byte ↦ 1
          | SqlType.integer_2byte ↦ 2
          | SqlType.integer_4byte ↦ 4
          | SqlType.text ↦ n
          | SqlType.notvalid ↦ 0
        ])
        get_type-same get_string_length-same

offset_to-le : (dbr : DbRecord) (i n : ℕ) → i ≤ n → offset_to dbr i ≤ offset_to dbr n
offset_to-le dbr = rising-le (offset_to dbr) λ i. omega arith

module _ (dbr : DbRecord) (data_lt : offset_to dbr dbr.nfields < 2 ^ 32) where
  offset_small : (i : ℕ) → i < dbr.nfields → offset_to dbr i + field_size dbr i < 2 ^ 32
  offset_small i h = omega (arith, offset_to-le dbr (suc i) dbr.nfields h)

  unpack_offsets-reads :
      (r : DbRecord) (i k : ℕ)
      → dbr.nfields ≡ i + k
      → ((j : ℕ) → j < dbr.nfields → r.types j ≡ dbr.types j)
      → ((j : ℕ) → j < i → r.offsets j ≡ offset_to dbr j)
      → (offsets : ℕ → ℕ) × (unpack_offsets r (offset_to dbr i) i k
          ≡ (offset_to dbr dbr.nfields, record r { offsets = offsets }))
        × ((j : ℕ) → j < dbr.nfields → offsets j ≡ offset_to dbr j)
  unfolding unpack_offsets
  unpack_offsets-reads r i zero fields types known =
      let at_end : i ≡ dbr.nfields = omega arith in
      (r.offsets, rw at_end refl, λ j h. known j (omega arith))
  unpack_offsets-reads r i (suc k) fields types known =
      let (o, e, same) =
        unpack_offsets-reads (record r { offsets = set_elem r.offsets i (offset_to dbr i) }) (suc i)
          k (omega arith) types (set_known {a = offset_to dbr} i r.offsets known) in
      (
        o,
        ap₂
              (λ (n m : ℕ).
                unpack_offsets (record r { offsets = set_elem r.offsets i (offset_to dbr i) }) n m
                  k)
              (next_offset) (omega arith)
            ∙ e,
        same,
      )
    where
      next_offset : (offset_to dbr i + field_size r i) % 2 ^ 32 ≡ offset_to dbr (suc i)
      next_offset =
          rw (field_size-same dbr r i (types i (omega arith)))
            (omega (arith, offset_small i (omega arith)))

-- A record as the program packs it: its types fit the header, the fields lie one behind the other in the data, and
-- the lengths are theirs. A NULL has no data, so its offset says nothing.
pub record IsPackable (dbr : DbRecord) : Type 0 where
  pub typed : IsTyped dbr
  pub offset_is :
      (i : ℕ)
      → i < dbr.nfields
      → get_type dbr i ≢ SqlType.sql_null
      → dbr.offsets i ≡ offset_to dbr i
  pub data_len_is : dbr.data_len ≡ offset_to dbr dbr.nfields
  pub packed_len_is : dbr.packed_len ≡ header_to dbr dbr.nfields + dbr.data_len
  pub packed_len_lt : dbr.packed_len < 2 ^ 32

-- The two records have the same fields with the same data.
pub record SameFields (dbr r : DbRecord) : Type 0 where
  pub nfields : r.nfields ≡ dbr.nfields
  pub data_len : r.data_len ≡ dbr.data_len
  pub packed_len : r.packed_len ≡ dbr.packed_len
  pub types : (i : ℕ) → i < dbr.nfields → r.types i ≡ dbr.types i
  pub offsets :
      (i : ℕ) → i < dbr.nfields → get_type dbr i ≢ SqlType.sql_null → r.offsets i ≡ dbr.offsets i
  pub data_ : (j : ℕ) → j < dbr.data_len → r.data_ j ≡ dbr.data_ j

header_to-fields : (dbr : DbRecord) (i : ℕ) → i < header_to dbr i
header_to-fields dbr zero = omega arith
header_to-fields dbr (suc i) = ground (arith, header_to-fields dbr i)

module _ (dbr : DbRecord) (packable : IsPackable dbr) where
  abbrev with_size : Bytes
  with_size = store zeros 0 ((dbr.packed_len + 2 ^ 32 - dbr.data_len) % 2 ^ 8)

  abbrev with_types : Bytes
  with_types = pack_types dbr with_size 1 0 dbr.nfields

  all_fields : 0 + dbr.nfields ≡ dbr.nfields
  all_fields = omega arith

  with_types-size : with_types 0 ≡ header_to dbr dbr.nfields
  unfolding store
  with_types-size =
      pack_types-frame dbr packable.typed with_size 0 dbr.nfields 0
        (omega (arith, packable.typed.header_lt, ap (header_to dbr) all_fields)) (omega arith)
      ∙ omega (arith, packable.packed_len_is, packable.packed_len_lt, packable.typed.header_lt)

  pack-memcpy : pack dbr ≡ memcpy with_types (header_to dbr dbr.nfields) dbr.data_ 0 dbr.data_len
  unfolding pack
  pack-memcpy = ap (λ (n : ℕ). memcpy with_types n dbr.data_ 0 dbr.data_len) with_types-size

  pack-header : (j : ℕ) → j < header_to dbr dbr.nfields → pack dbr j ≡ with_types j
  pack-header j h =
      ap (λ (d : Bytes). d j) pack-memcpy
      ∙ memcpy-frame with_types _ dbr.data_ 0 dbr.data_len j (inl h)

  pack-HasHeader : HasHeader dbr (pack dbr)
  pack-HasHeader = record {
    size = pack-header 0 (omega (arith, header_to-fields dbr dbr.nfields)) ∙ with_types-size;
    type_at = λ i h.
        TypeAt-same (is_text (get_type dbr i)) with_types (pack dbr) (header_to dbr i) (dbr.types i)
          (λ j from to. pack-header j (omega (arith, header_to-le dbr packable.typed (suc i) h)))
          (pack_types-TypeAt dbr packable.typed with_size 0 dbr.nfields i (omega arith)
            (omega (arith, packable.typed.header_lt, ap (header_to dbr) all_fields)) (omega arith)
            (omega arith));
  }

  pack-data : (j : ℕ) → j < dbr.data_len → pack dbr (header_to dbr dbr.nfields + j) ≡ dbr.data_ j
  pack-data j h =
      ap (λ (d : Bytes). d (header_to dbr dbr.nfields + j)) pack-memcpy
      ∙ memcpy_copies with_types (header_to dbr dbr.nfields) dbr.data_ 0 dbr.data_len j h
      ∙ ap dbr.data_ (omega arith)

  unpacked_data :
      (j : ℕ)
      → j < dbr.data_len
      → memcpy zeros 0 (pack dbr) (header_to dbr dbr.nfields) dbr.data_len j ≡ dbr.data_ j
  unpacked_data j h =
      ap (memcpy zeros 0 (pack dbr) (header_to dbr dbr.nfields) dbr.data_len) (omega arith)
      ∙ memcpy_copies zeros 0 (pack dbr) (header_to dbr dbr.nfields) dbr.data_len j h
      ∙ pack-data j h

  fields_le : dbr.nfields ≤ 255
  fields_le = omega (arith, header_to-fields dbr dbr.nfields, packable.typed.header_lt)

  -- The types that are read, and the offsets that follow from them.
  unpacked_types :
      (types : ℕ → ℕ) × (unpack_types 255 (pack dbr) (pack dbr 0) 1 0 zeros
        ≡ some (dbr.nfields, types))
      × ((j : ℕ) → j < dbr.nfields → types j ≡ dbr.types j)
  unpacked_types = rw (pack-HasHeader.size) (
      unpack_types-reads dbr packable.typed (pack dbr) pack-HasHeader 255 0 dbr.nfields zeros
        (omega arith) fields_le λ j h. absurd (omega arith))

  unpacked_offsets :
      (types : ℕ → ℕ)
      → ((j : ℕ) → j < dbr.nfields → types j ≡ dbr.types j)
      → (offsets : ℕ → ℕ) × (unpack_offsets (typed_record dbr.nfields types) 0 0 dbr.nfields
          ≡ (dbr.data_len, record (typed_record dbr.nfields types) { offsets = offsets }))
        × ((j : ℕ) → j < dbr.nfields → offsets j ≡ offset_to dbr j)
  unfolding typed_record
  unpacked_offsets types same =
      let (o, e, o_same) =
        unpack_offsets-reads dbr
          (omega (arith, packable.data_len_is, packable.packed_len_is, packable.packed_len_lt))
          (typed_record dbr.nfields types) 0 dbr.nfields (omega arith) same
          (λ j h. absurd (omega arith)) in
      (
        o,
        e
            ∙ ap (λ (n : ℕ). (n, record (typed_record dbr.nfields types) { offsets = o }))
                (sym packable.data_len_is),
        o_same,
      )

unpack-by :
    (raw : Bytes) (nfields : ℕ) (types : ℕ → ℕ)
    → unpack_types 255 raw (raw 0) 1 0 zeros ≡ some (nfields, types)
    → unpack raw
      ≡ some (with_data raw (raw 0) (unpack_offsets (typed_record nfields types) 0 0 nfields))
unfolding unpack
unpack-by raw nfields types h = rw (unpack, h) refl

with_data-SameFields :
    (dbr : DbRecord) (packable : IsPackable dbr) (types offsets : ℕ → ℕ)
    → ((j : ℕ) → j < dbr.nfields → types j ≡ dbr.types j)
    → ((j : ℕ) → j < dbr.nfields → offsets j ≡ offset_to dbr j)
    → SameFields dbr (
        with_data
          (pack dbr)
          (pack dbr 0)
          (dbr.data_len, record (typed_record dbr.nfields types) { offsets = offsets }))
unfolding with_data typed_record
with_data-SameFields dbr packable types offsets types_same offsets_same =
    rw (pack-HasHeader dbr packable).size (record {
      nfields = refl;
      data_len = refl;
      packed_len = omega (arith, packable.packed_len_is, packable.packed_len_lt);
      types = types_same;
      offsets = λ i h g. offsets_same i h ∙ sym (packable.offset_is i h g);
      data_ = unpacked_data dbr packable;
    })

-- A record that was packed is unpacked with the same number of fields, types, lengths, offsets and data.
pub unpack-pack :
    (dbr : DbRecord)
    → IsPackable dbr
    → (r : DbRecord) × (unpack (pack dbr) ≡ some r) × SameFields dbr r
unpack-pack dbr packable =
    let (types, types_read, types_same) = unpacked_types dbr packable in
    let (offsets, offsets_read, offsets_same) = unpacked_offsets dbr packable types types_same in
    (
      with_data (pack dbr) (pack dbr 0)
          (dbr.data_len, record (typed_record dbr.nfields types) { offsets = offsets }),
      unpack-by (pack dbr) dbr.nfields types types_read
          ∙ ap (λ (r : ℕ × DbRecord). some (with_data (pack dbr) (pack dbr 0) r)) offsets_read,
      with_data-SameFields dbr packable types offsets types_same offsets_same,
    )
