-- ===== src/Dbm/Ops/Records.antt =====
-- src/libchidb/dbm-ops.c: the record that MakeRecord makes of registers, and the registers that Column sets.
use chidb.Prelude.{
  ℕ, zero, suc, ◌+◌, ◌^◌, ◌≤◌, ◌<◌, ◌≡◌, ◌≢◌, refl, sym, ap, ap₂, ◌∙◌, none, some, List, [], ◌∷◌,
  arith, leb, Bool-cases, Option-cases, inl, inr,
}
use chidb.Bytes.{Bytes}
use chidb.Run.{Run, ok, Cmd, ◌>>=◌, and_then}
use chidb.Record.{DbRecord, DbRecordBuffer, create_empty, finalize, pack}
use chidb.Record.Unpack.{unpack}
use chidb.Record.Values.{
  Value, null_value, int32_value, text_value, append_value, append_values, index-head_of,
}
use chidb.Record.Build.{IsRow, append_values-suc}
use chidb.Record.Rows.{Reads, unpack-append_values}
use chidb.Dbm.{DbmOp, Register, Stmt, get_reg, set_reg, ensure_reg, realloc_reg, set_at}
use chidb.Dbm.Ops.{op_make_record, put_reg}
use chidb.Dbm.Values.{append_reg, append_regs, field_value, c_string, defined}

-- The value of a field that a register gives. A register of another type gives none.
abbrev pub value_of : Register → Value
value_of Register.unspecified = null_value
value_of Register.null = null_value
value_of (Register.int32 x) = int32_value x
value_of (Register.string cs) = text_value cs
value_of (Register.binary d n) = null_value

abbrev pub IsCString : List ℕ → Type 0
IsCString [] = Unit
IsCString (c ∷ cs) = (0 < c) × IsCString cs

-- A register that MakeRecord adds a field for.
abbrev pub IsField : Register → Type 0
IsField Register.unspecified = ⊥
IsField Register.null = Unit
IsField (Register.int32 x) = Unit
IsField (Register.string cs) = IsCString cs
IsField (Register.binary d n) = ⊥

c_string-IsCString : (cs : List ℕ) → IsCString cs → c_string cs ≡ cs
unfolding c_string
c_string-IsCString [] h = refl
c_string-IsCString (c ∷ cs) (c_pos, rest) = ground (arith, c_string-IsCString cs rest)

append_reg-append_value :
    (r : Register) (b : DbRecordBuffer) → IsField r → append_reg r b ≡ append_value (value_of r) b
unfolding append_reg append_value
append_reg-append_value Register.unspecified b h = absurd h
append_reg-append_value Register.null b h = refl
append_reg-append_value (Register.int32 x) b h = refl
append_reg-append_value (Register.string cs) b h = refl
append_reg-append_value (Register.binary d n) b h = absurd h

field_value-Reads :
    (r : DbRecord) (i : ℕ) (x : Register)
    → IsField x
    → Reads (value_of x) r i
    → field_value r i ≡ some x
unfolding field_value
field_value-Reads r i Register.unspecified h reads = absurd h
field_value-Reads r i Register.null h reads = rw (field_value, reads) refl
field_value-Reads r i (Register.int32 x) h (type, value) =
    rw (field_value, type) (ap (λ (n : ℕ). some (Register.int32 n)) value)
field_value-Reads r i (Register.string cs) h (type, value) =
    rw (field_value, type)
      (ap (λ (t : List ℕ). some (Register.string (c_string t))) value
        ∙ ap (λ (t : List ℕ). some (Register.string t)) (c_string-IsCString cs h))
field_value-Reads r i (Register.binary d n) h reads = absurd h

get_reg-there : (r : ℕ) (s : Stmt) → r < s.n_reg → r < 2 ^ 31 → get_reg r s ≡ ok (s.reg r) s
unfolding get_reg
get_reg-there r s h g = ground arith

-- The registers from `first` on, as the values of a row.
abbrev pub row_at : Stmt → ℕ → ℕ → Value
row_at s first i = value_of (s.reg (first + i))

-- The registers of the instruction are there and make up a row that fits a record.
pub record IsFieldRow (s : Stmt) (first n : ℕ) : Type 0 where
  pub there : first + n ≤ s.n_reg
  pub signed : first + n ≤ 2 ^ 31
  pub fields : (i : ℕ) → i < n → IsField (s.reg (first + i))
  pub row : IsRow (row_at s first) n

append_regs-round :
    (r k : ℕ) (b b' : DbRecordBuffer) (s : Stmt)
    → get_reg r s ≡ ok (s.reg r) s
    → append_reg (s.reg r) b ≡ some b'
    → append_regs r (suc k) b s ≡ append_regs (r + 1) k b' s
unfolding append_regs defined
append_regs-round r k b b' s there h = ground (arith, there, h)

append_values-none :
    (v : ℕ → Value) (i k : ℕ) (b : DbRecordBuffer)
    → append_value (v i) b ≡ none
    → append_values v i (suc k) b ≡ none
unfolding append_values
append_values-none v i k b h = rw (append_values, h) refl

append_values-first :
    (v : ℕ → Value) (i k : ℕ) (b b'' : DbRecordBuffer)
    → append_values v i (suc k) b ≡ some b''
    → (b' : DbRecordBuffer) × (append_value (v i) b ≡ some b')
      × (append_values v (suc i) k b' ≡ some b'')
append_values-first v i k b b'' h = elim (Option-cases (append_value (v i) b)) [
  | inl e ↦ absurd (none-ne-some (sym (append_values-none v i k b e) ∙ h))
  | inr (b', e) ↦ (b', e, sym (append_values-suc v i k b b' e) ∙ h)
]
  where
    none-ne-some : none ≢ some b''
    none-ne-some e = cc

-- The loop of MakeRecord appends the values of the registers.
append_regs-append_values :
    (s : Stmt) (first n : ℕ)
    → IsFieldRow s first n
    → (i k : ℕ) (b b' : DbRecordBuffer) → n ≡ i + k
    → append_values (row_at s first) i k b ≡ some b'
    → append_regs (first + i) k b s ≡ ok b' s
unfolding append_regs append_values
append_regs-append_values s first n row i zero b b' e h =
    ap (λ (b : DbRecordBuffer). ok b s) (some_inj b b' h)
  where
    some_inj : (b b' : DbRecordBuffer) → some b ≡ some b' → b ≡ b'
    some_inj b b' e = cc
append_regs-append_values s first n row i (suc k) b b'' e h =
    let (b', is_b', rest) = append_values-first (row_at s first) i k b b'' h in
    append_regs-round (first + i) k b b' s
      (get_reg-there (first + i) s (omega (arith, row.there)) (omega (arith, row.signed)))
      (append_reg-append_value (s.reg (first + i)) b (row.fields i (omega arith)) ∙ is_b')
    ∙ ap (λ (r : ℕ). append_regs r k b' s) (omega arith)
    ∙ append_regs-append_values s first n row (suc i) k b' b'' (omega arith) rest

-- `put_reg` sets the register.
put_reg-sets :
    (r : ℕ) (v : Register) (s : Stmt)
    → r < 2 ^ 31
    → (s' : Stmt) × (put_reg r v s ≡ ok tt s') × (s'.reg r ≡ v)
unfolding put_reg ensure_reg set_reg realloc_reg set_at
put_reg-sets r v s h = elim (Bool-cases (leb s.n_reg r)) [
  | inl e ↦ (
    record (realloc_reg s (r + 1)) { reg = set_at (realloc_reg s (r + 1)).reg r v },
    ground (arith, e),
    ground arith,
  )
  | inr e ↦ (record s { reg = set_at s.reg r v }, ground (arith, e), ground arith)
]

first-ok :
    {A B : Type 0} (m : Cmd Stmt A) (k : A → Cmd Stmt B) (a : A) (s s' : Stmt)
    → m s ≡ ok a s'
    → (m >>= k) s ≡ k a s'
first-ok {A = A} m k a s s' h = ap (λ (r : Run Stmt A). and_then r k) h

-- The last step of MakeRecord.
abbrev keep_record : DbmOp → DbRecordBuffer → Cmd Stmt (Unit {0})
keep_record op b = put_reg op.p3 (Register.binary (pack (finalize b)) (finalize b).packed_len)

op_make_record-append_regs :
    (op : DbmOp) (s : Stmt) (b : DbRecordBuffer)
    → op.p2 < 2 ^ 8
    → append_regs op.p1 op.p2 (create_empty op.p2) s ≡ ok b s
    → op_make_record op s ≡ keep_record op b s
unfolding op_make_record
op_make_record-append_regs op s b small h =
    ap₂ (λ (k n : ℕ). (append_regs op.p1 k (create_empty n) >>= keep_record op) s) (ground arith)
      (omega arith)
    ∙ first-ok (append_regs op.p1 op.p2 (create_empty op.p2)) (keep_record op) b s s h

-- MakeRecord on registers that are NULL, integers or C strings, and whose values fit a record, makes a packed record that unpacks with a field for
-- each of them, and the value that Column gives for the field is that of the register.
pub field_value-op_make_record :
    (op : DbmOp) (s : Stmt)
    → IsFieldRow s op.p1 op.p2
    → op.p3 < 2 ^ 31
    → (s' : Stmt) × (d : Bytes) × (r : DbRecord) × (op_make_record op s ≡ ok tt s')
      × (s'.reg op.p3 ≡ Register.binary d r.packed_len)
      × (unpack d ≡ some r)
      × (r.nfields ≡ op.p2)
      × ((i : ℕ) → i < op.p2 → field_value r i ≡ some (s.reg (op.p1 + i)))
field_value-op_make_record op s fields p3_lt =
    let (b, r, is_b, is_r, nfields, packed_len, reads) =
      unpack-append_values (row_at s op.p1) op.p2 fields.row in
    let (s', is_s', set) =
      put_reg-sets op.p3 (Register.binary (pack (finalize b)) (finalize b).packed_len) s p3_lt in
    (
      s',
      pack (finalize b),
      r,
      op_make_record-append_regs op s b
            (omega (arith, index-head_of (row_at s op.p1) op.p2, fields.row.header_lt))
            (ap (λ (r : ℕ). append_regs r op.p2 (create_empty op.p2) s) (omega arith)
              ∙ append_regs-append_values s op.p1 op.p2 fields 0 op.p2 (create_empty op.p2) b
                  (omega arith) is_b)
          ∙ is_s',
      set ∙ ap (Register.binary (pack (finalize b))) (sym packed_len),
      is_r,
      nfields,
      λ i h. field_value-Reads r i (s.reg (op.p1 + i)) (fields.fields i h) (reads i h),
    )
