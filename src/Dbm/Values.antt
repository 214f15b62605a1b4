-- ===== src/Dbm/Values.antt =====
-- src/libchidb/dbm-ops.c: what the instruction handlers do with values: comparing two registers, the register that a
-- field of a record gives, and the fields that registers give.
use chidb.Prelude.{
  ℕ, zero, suc, ◌+◌, ◌-◌, ◌%◌, ◌^◌, Bool, true, false, Option, none, some, List, [], ◌∷◌, ltb, ◌==◌,
  if◌then◌else◌,
}
use chidb.Bytes.{Bytes}
use chidb.Run.{Cmd, pure, ◌>>=◌, undefined}
use chidb.Record.{
  SqlType, DbRecord, DbRecordBuffer, append_int32, append_null, append_string, get_type, get_int8,
  get_int16, get_int32, get_string,
}
use chidb.Dbm.{Register, Stmt, get_reg}

-- The order of two `int32_t`.
unfoldable pub int32_lt : ℕ → ℕ → Bool
int32_lt a b = ltb ((a + 2 ^ 31) % 2 ^ 32) ((b + 2 ^ 31) % 2 ^ 32)

pub data Sign : Type 0 where
  negative zero_sign positive : Sign

unfoldable pub compare_int32 : ℕ → ℕ → Sign
unfolding int32_lt
compare_int32 a b =
    if int32_lt a b then Sign.negative else if int32_lt b a then Sign.positive else Sign.zero_sign

unfoldable pub strcmp : List ℕ → List ℕ → Sign
strcmp [] [] = Sign.zero_sign
strcmp [] (d ∷ ds) = Sign.negative
strcmp (c ∷ cs) [] = Sign.positive
strcmp (c ∷ cs) (d ∷ ds) =
    let rest = strcmp cs ds in
    if ltb c d then Sign.negative else if ltb d c then Sign.positive else rest

-- The second register is taken for one of the type of the first; `strcmp` of anything but two strings is undefined.
unfoldable pub reg_compare : Register → Register → Option Sign
reg_compare (Register.int32 a) (Register.int32 b) = some (compare_int32 a b)
reg_compare (Register.string s) (Register.string t) = some (strcmp s t)
reg_compare _ _ = none

-- What is undefined, and a value that there is.
unfoldable pub defined : {A : Type 0} → Option A → Cmd Stmt A
defined none = undefined
defined (some a) = pure a

unfoldable pub compare_regs : ℕ → ℕ → Cmd Stmt Sign
compare_regs a b = do x ← get_reg a; y ← get_reg b; defined (reg_compare x y)

abbrev pub is_negative : Sign → Bool
is_negative Sign.negative = true
is_negative Sign.zero_sign = false
is_negative Sign.positive = false

abbrev pub is_positive : Sign → Bool
is_positive Sign.negative = false
is_positive Sign.zero_sign = false
is_positive Sign.positive = true

abbrev pub is_zero : Sign → Bool
is_zero Sign.negative = false
is_zero Sign.zero_sign = true
is_zero Sign.positive = false

-- The sign of an 8-bit and of a 16-bit integer is extended to 32 bits.
unfoldable pub extend : ℕ → ℕ → ℕ
extend half v = if ltb v half then v else v + (2 ^ 32 - (half + half))

-- A C string ends at its first 0.
unfoldable pub c_string : List ℕ → List ℕ
c_string [] = []
c_string (c ∷ cs) = let rest = c_string cs in if c == 0 then [] else c ∷ rest

-- The value of a field, if its type is valid.
unfoldable pub field_value : DbRecord → ℕ → Option Register
field_value dbr field = elim (get_type dbr field) [
  | SqlType.sql_null ↦ some Register.null
  | SqlType.integer_1byte ↦ some (Register.int32 (extend (2 ^ 7) (get_int8 dbr field)))
  | SqlType.integer_2byte ↦ some (Register.int32 (extend (2 ^ 15) (get_int16 dbr field)))
  | SqlType.integer_4byte ↦ some (Register.int32 (get_int32 dbr field))
  | SqlType.text ↦ some (Register.string (c_string (get_string dbr field)))
  | SqlType.notvalid ↦ none
]

-- A register that is unspecified or binary adds no field.
unfoldable pub append_reg : Register → DbRecordBuffer → Option DbRecordBuffer
append_reg Register.null b = append_null b
append_reg (Register.int32 v) b = append_int32 b v
append_reg (Register.string s) b = append_string b s
append_reg Register.unspecified b = some b
append_reg (Register.binary d n) b = some b

-- The loop of `MakeRecord` over `k` registers from `r` on.
unfoldable pub append_regs : ℕ → ℕ → DbRecordBuffer → Cmd Stmt DbRecordBuffer
append_regs r zero b = pure b
append_regs r (suc k) b = do v ← get_reg r; b' ← defined (append_reg v b); append_regs (r + 1) k b'

-- `value.bin`: the bytes and their number.
unfoldable pub binary_value : Register → Option (Bytes × ℕ)
binary_value (Register.binary d n) = some (d, n)
binary_value Register.unspecified = none
binary_value Register.null = none
binary_value (Register.int32 v) = none
binary_value (Register.string t) = none
