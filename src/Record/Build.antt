-- ===== src/Record/Build.antt =====
-- src/libchidb/record.c: what appending a value does to the buffer.
use chidb.Prelude.{
  ℕ, zero, suc, ◌+◌, ◌-◌, ◌%◌, ◌^◌, ◌≤◌, ◌<◌, ◌≡◌, ◌≢◌, inl, inr, refl, sym, ap, subst, ◌∙◌, arith,
  le-cases, Option, some, length,
}
use chidb.Bytes.{Bytes, store, memcpy, put2byte, put4byte}
use chidb.Bytes.Laws.{
  get2byte-put2byte, get4byte-put4byte, put2byte-frame, put4byte-frame, memcpy-frame, memcpy_copies,
}
use chidb.Record.{
  DbRecordBuffer, sql_null_code, set_elem, grown, appended, append_int8, append_int16, append_int32,
  append_null, append_string, char_at,
}
use chidb.Record.Values.{
  Value, null_value, int8_value, int16_value, int32_value, text_value, append_value, append_values,
  code_of, width_of, size_of, head_of, data_of, IsValue, BytesAt, BytesAt-same, IsBuilt, data_of-le,
  head_of-le, index-head_of, set_same, set_other,
}

-- A row of `n` values that fits: the header fits the byte of its size, and the buffer never needs 2^16 bytes.
pub record IsRow (v : ℕ → Value) (n : ℕ) : Type 0 where
  pub values : (i : ℕ) → i < n → IsValue (v i)
  pub header_lt : head_of v n < 2 ^ 8
  pub data_lt : data_of v n < 2 ^ 16 - 2048

-- The next value is appended to what the buffer holds.
module _ (v : ℕ → Value) (i : ℕ) (b : DbRecordBuffer) (built : IsBuilt v i b) where
  at_last : (P : ℕ → Type 0) (j : ℕ) → j < suc i → ((j < i) → P j) → P i → P j
  at_last P j h before last = elim (le-cases i j) [
    | inl le ↦ subst P (omega arith) last
    | inr lt ↦ before lt
  ]

  types_after :
      (code : ℕ)
      → code ≡ code_of (v i)
      → (j : ℕ) → j < suc i
      → set_elem b.dbr.types b.field code j ≡ code_of (v j)
  types_after code e j h = rw (built.field) (
      at_last (λ j. set_elem b.dbr.types i code j ≡ code_of (v j)) j h
        (λ lt. set_other b.dbr.types i code j lt ∙ built.type_at j lt)
        (set_same b.dbr.types i code ∙ e))

  offsets_after :
      (o : ℕ)
      → (v i ≢ null_value → o ≡ data_of v i)
      → (j : ℕ) → j < suc i
      → v j ≢ null_value
      → set_elem b.dbr.offsets b.field o j ≡ data_of v j
  offsets_after o e j h = rw (built.field) (
      at_last (λ j. v j ≢ null_value → set_elem b.dbr.offsets i o j ≡ data_of v j) j h
        (λ lt g. set_other b.dbr.offsets i o j lt ∙ built.offset_at j lt g)
        (λ g. set_same b.dbr.offsets i o ∙ e g))

  -- The bytes of the new value stand behind those of the others, which are as before.
  bytes_after :
      (d : Bytes)
      → ((k : ℕ) → k < b.offset → d k ≡ b.dbr.data_ k)
      → BytesAt (v i) d b.offset
      → (j : ℕ) → j < suc i
      → BytesAt (v j) d (data_of v j)
  bytes_after d frame new j h =
      at_last (λ j. BytesAt (v j) d (data_of v j)) j h
        (λ lt.
          BytesAt-same (v j) b.dbr.data_ d (data_of v j)
            (λ k l. frame k (omega (arith, data_of-le v (suc j) i lt, built.offset)))
            (built.bytes_at j lt))
        (subst (BytesAt (v i) d) built.offset new)

  -- The room and the growth of the buffer, with `n` bytes more.
  grown_room :
      (n : ℕ)
      → n ≤ 1024
      → b.offset + n < 2 ^ 16 - 2048
      → (b.offset + n ≤ grown b n) × (grown b n ≤ b.offset + n + 1024)
  unfolding grown
  grown_room n small fits = ground (arith, built.room, built.spare)

  module _ (fields : i < b.dbr.nfields) (header_lt : head_of v (suc i) < 2 ^ 8)
      (data_lt : data_of v (suc i) < 2 ^ 16 - 2048) (i_lt : i < 2 ^ 8 - 1) where
    appended-IsBuilt :
        (d : Bytes)
        → size_of (v i) ≤ 1024
        → ((k : ℕ) → k < b.offset → d k ≡ b.dbr.data_ k)
        → BytesAt (v i) d b.offset
        → (b' : DbRecordBuffer) × (appended b (code_of (v i)) (size_of (v i)) d (width_of (v i))
            ≡ some b')
          × IsBuilt v (suc i) b'
          × (b'.dbr.nfields ≡ b.dbr.nfields)
    unfolding appended
    appended-IsBuilt d small frame new =
        let (room, spare) = grown_room (size_of (v i)) small (omega (arith, built.offset)) in
        (
          record {
            dbr = record b.dbr {
              data_ = d;
              types = set_elem b.dbr.types b.field (code_of (v i));
              offsets = set_elem b.dbr.offsets b.field b.offset;
            };
            buf_size = grown b (size_of (v i));
            field = (b.field + 1) % 2 ^ 8;
            offset = (b.offset + size_of (v i)) % 2 ^ 32;
            header_size = (b.header_size + width_of (v i)) % 2 ^ 8;
          },
          ground (arith, built.field, room),
          record {
            field = omega (arith, built.field);
            header_size = omega (arith, built.header_size);
            offset = omega (arith, built.offset);
            room = omega (arith, room, built.offset);
            spare = omega (arith, spare, built.offset);
            type_at = types_after (code_of (v i)) refl;
            offset_at = offsets_after b.offset (λ g. built.offset);
            bytes_at = bytes_after d frame new;
          },
          refl,
        )

    abbrev Appended : Option DbRecordBuffer → Type 0
    Appended o =
        (b' : DbRecordBuffer) × (o ≡ some b')
        × IsBuilt v (suc i) b'
        × (b'.dbr.nfields ≡ b.dbr.nfields)

    appended_value :
        (x : Value)
        → v i ≡ x
        → (d : Bytes) → size_of x ≤ 1024
        → ((k : ℕ) → k < b.offset → d k ≡ b.dbr.data_ k)
        → BytesAt x d b.offset
        → Appended (appended b (code_of x) (size_of x) d (width_of x))
    appended_value x e =
        subst
          (λ x.
            (d : Bytes)
            → size_of x ≤ 1024
            → ((k : ℕ) → k < b.offset → d k ≡ b.dbr.data_ k)
            → BytesAt x d b.offset
            → Appended (appended b (code_of x) (size_of x) d (width_of x)))
          e appended-IsBuilt

    append_null-IsBuilt : v i ≡ null_value → Appended (append_null b)
    unfolding append_null
    append_null-IsBuilt e = (
      record b {
        dbr = record b.dbr {
          types = set_elem b.dbr.types b.field sql_null_code;
          offsets = set_elem b.dbr.offsets b.field 0;
        };
        field = (b.field + 1) % 2 ^ 8;
        header_size = (b.header_size + 1) % 2 ^ 8;
      },
      ground (arith, built.field),
      record {
        field = omega (arith, built.field);
        header_size = omega (arith, built.header_size, ap width_of e);
        offset = omega (arith, built.offset, ap size_of e);
        room = built.room;
        spare = built.spare;
        type_at = types_after sql_null_code (sym (ap code_of e));
        offset_at = offsets_after 0 (λ g. absurd (g e));
        bytes_at =
            bytes_after b.dbr.data_ (λ k h. refl)
              (subst (λ x. BytesAt x b.dbr.data_ b.offset) (sym e) tt);
      },
      refl,
    )

    -- The call for a value succeeds, and the buffer then holds one value more.
    pub append_value-IsBuilt : (x : Value) → v i ≡ x → IsValue x → Appended (append_value x b)
    unfolding append_value append_int8 append_int16 append_int32 append_string store
    append_value-IsBuilt null_value e h = append_null-IsBuilt e
    append_value-IsBuilt (int8_value x) e h =
        appended_value (int8_value x) e (store b.dbr.data_ b.offset (x % 2 ^ 8)) (omega arith)
          (λ k l. ground arith) (ground arith)
    append_value-IsBuilt (int16_value x) e h =
        appended_value (int16_value x) e (put2byte b.dbr.data_ b.offset x) (omega arith)
          (λ k l. put2byte-frame b.dbr.data_ b.offset x k (inl l))
          (get2byte-put2byte b.dbr.data_ b.offset x ∙ omega arith)
    append_value-IsBuilt (int32_value x) e h =
        appended_value (int32_value x) e (put4byte b.dbr.data_ b.offset x) (omega arith)
          (λ k l. put4byte-frame b.dbr.data_ b.offset x k (inl l))
          (get4byte-put4byte b.dbr.data_ b.offset x ∙ omega arith)
    append_value-IsBuilt (text_value cs) e h =
        let (b', is_b', built', same) =
          appended_value (text_value cs) e (memcpy b.dbr.data_ b.offset (char_at cs) 0 (length cs))
            h (λ k l. memcpy-frame b.dbr.data_ b.offset (char_at cs) 0 (length cs) k (inl l))
            (λ k l.
              memcpy_copies b.dbr.data_ b.offset (char_at cs) 0 (length cs) k l
              ∙ ap (char_at cs) (omega arith)) in
        (
          b',
          ap
                (λ (c : ℕ).
                  appended b c (length cs) (memcpy b.dbr.data_ b.offset (char_at cs) 0 (length cs))
                    4)
                (omega arith)
              ∙ is_b',
          built',
          same,
        )

pub append_values-suc :
    (v : ℕ → Value) (i k : ℕ) (b b' : DbRecordBuffer)
    → append_value (v i) b ≡ some b'
    → append_values v i (suc k) b ≡ append_values v (suc i) k b'
unfolding append_values
append_values-suc v i k b b' h = rw (append_values, h) refl

module _ (v : ℕ → Value) (n : ℕ) (row : IsRow v n) where
  -- The loop over the values from `i` on succeeds, and the buffer then holds them all.
  pub append_values-IsBuilt :
      (i k : ℕ) (b : DbRecordBuffer)
      → n ≡ i + k
      → IsBuilt v i b
      → b.dbr.nfields ≡ n
      → (b' : DbRecordBuffer) × (append_values v i k b ≡ some b') × IsBuilt v n b'
  unfolding append_values
  append_values-IsBuilt i zero b e built fields =
      (b, refl, subst (λ m. IsBuilt v m b) (omega arith) built)
  append_values-IsBuilt i (suc k) b e built fields =
      let (b', is_b', built', same) =
        append_value-IsBuilt v i b built (omega arith)
          (omega (arith, head_of-le v (suc i) n (omega arith), row.header_lt))
          (omega (arith, data_of-le v (suc i) n (omega arith), row.data_lt))
          (omega (arith, index-head_of v i, head_of-le v i n (omega arith), row.header_lt)) (v i)
          refl (row.values i (omega arith)) in
      let (b'', is_b'', built'') =
        append_values-IsBuilt (suc i) k b' (omega arith) built' (same ∙ fields) in
      (b'', append_values-suc v i k b b' is_b' ∙ is_b'', built'')
