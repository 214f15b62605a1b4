-- ===== src/Record/Create.antt =====
-- src/libchidb/record.c: `chidb_DBRecord_create`, which builds a record after a specification string.
use chidb.Prelude.{ℕ, ◌+◌, ◌%◌, ◌^◌, Option, none, some, List, [], ◌∷◌, ◌==◌, if◌then◌else◌}
use chidb.Record.{
  DbRecord, DbRecordBuffer, create_empty, append_int8, append_int16, append_int32, append_null,
  append_string, finalize,
}

-- An argument of the call: an `int`, by its bits, or a `char *`.
pub data VaArg : Type 0 where
  int_arg : ℕ → VaArg
  string_arg : List ℕ → VaArg

-- The characters `|`, `i`, `0`, `s`, `1`, `2` and `4`.
unfoldable pub count_pipes : List ℕ → ℕ
count_pipes [] = 0
count_pipes (c ∷ cs) = (if c == b'|' then 1 else 0) + count_pipes cs

-- The call for one integer of the size that follows the `i`. Another size appends nothing.
unfoldable pub append_sized : ℕ → DbRecordBuffer → List VaArg → Option (DbRecordBuffer × List VaArg)
append_sized size b [] =
    if size == b'1'
    then none
    else if size == b'2'
    then none
    else if size == b'4'
    then none
    else some (b, [])
append_sized size b (int_arg v ∷ args) =
    if size == b'1'
    then elim (append_int8 b (v % 2 ^ 8)) [ none ↦ none | some b' ↦ some (b', args) ]
    else if size == b'2'
    then elim (append_int16 b (v % 2 ^ 16)) [ none ↦ none | some b' ↦ some (b', args) ]
    else if size == b'4'
    then elim (append_int32 b v) [ none ↦ none | some b' ↦ some (b', args) ]
    else some (b, int_arg v ∷ args)
append_sized size b (string_arg s ∷ args) =
    if size == b'1'
    then none
    else if size == b'2'
    then none
    else if size == b'4'
    then none
    else some (b, string_arg s ∷ args)

unfoldable pub append_text : DbRecordBuffer → List VaArg → Option (DbRecordBuffer × List VaArg)
append_text b [] = none
append_text b (int_arg v ∷ args) = none
append_text b (string_arg s ∷ args) = elim (append_string b s) [
  | none ↦ none
  | some b' ↦ some (b', args)
]

-- The second loop. A call with too few arguments, or with an argument of another type, is undefined, and
-- so is a string that ends in an `i`: the loop would go past its end.
unfoldable pub append_spec : List ℕ → DbRecordBuffer → List VaArg → Option DbRecordBuffer
append_spec [] b args = some b
append_spec (c ∷ []) b args =
    if c == b'i'
    then none
    else if c == b'0'
    then append_null b
    else if c == b's'
    then elim (append_text b args) [ none ↦ none | some (b', args') ↦ some b' ]
    else some b
append_spec (c ∷ size ∷ cs) b args =
    let sized : Option DbRecordBuffer = elim (append_sized size b args) [
      | none ↦ none
      | some (b', args') ↦ append_spec cs b' args'
    ] in
    let null : Option DbRecordBuffer = elim (append_null b) [
      | none ↦ none
      | some b' ↦ append_spec (size ∷ cs) b' args
    ] in
    let text : Option DbRecordBuffer = elim (append_text b args) [
      | none ↦ none
      | some (b', args') ↦ append_spec (size ∷ cs) b' args'
    ] in
    let other = append_spec (size ∷ cs) b args in
    if c == b'i' then sized else if c == b'0' then null else if c == b's' then text else other

unfoldable pub create : List ℕ → List VaArg → Option DbRecord
create spec args = elim (append_spec spec (create_empty ((count_pipes spec + 255) % 2 ^ 8)) args) [
  | none ↦ none
  | some b ↦ some (finalize b)
]
