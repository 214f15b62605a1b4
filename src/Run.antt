-- ===== src/Run.antt =====
-- Return codes (include/chidb/chidb.h, src/libchidb/chidbInt.h) and the runs of code that works on a
-- database file. A run ends with a value or a return code, and with the state of the pager after
-- it, since an error does not undo what was written before it.
use chidb.Prelude.{ℕ}

-- The codes other than CHIDB_OK, named as in the headers.
pub data Code : Type 0 where
  noheader epageno ecellno ecorruptheader enotfound eduplicate enomem eio econstraint einvalidsql :
      Code
  row done : Code

-- The numbers that the headers give them.
unfoldable pub code_value : Code → ℕ
code_value Code.einvalidsql = 1
code_value Code.noheader = 1
code_value Code.enomem = 2
code_value Code.epageno = 4
code_value Code.ecellno = 5
code_value Code.econstraint = 5
code_value Code.ecorruptheader = 6
code_value Code.eio = 7
code_value Code.enotfound = 9
code_value Code.eduplicate = 11
code_value Code.row = 100
code_value Code.done = 101

-- `fault` is undefined behaviour of the C program, such as the use of a pointer that a failed call
-- did not set. `out_of_fuel` is no outcome of the program: the recursion was given too little fuel.
pub data Run (S : Type 0) (A : Type 0) : Type 0 where
  ok : A → S → Run S A
  err : Code → S → Run S A
  fault : Run S A
  out_of_fuel : Run S A

abbrev pub Cmd : Type 0 → Type 0 → Type 0
Cmd S A = S → Run S A

abbrev pub pure : {S A : Type 0} → A → Cmd S A
pure a s = ok a s

abbrev pub fail : {S A : Type 0} → Code → Cmd S A
fail c s = err c s

module _ {S A B : Type 0} where
  abbrev pub and_then : Run S A → (A → Cmd S B) → Run S B
  and_then (ok a s) k = k a s
  and_then (err c s) k = err c s
  and_then fault k = fault
  and_then out_of_fuel k = out_of_fuel

  -- `rc = call (…); if (rc != CHIDB_OK) return rc;` and the rest.
  infixl 5 ◌>>=◌ ◌>>◌
  abbrev pub ◌>>=◌ : Cmd S A → (A → Cmd S B) → Cmd S B
  ◌>>=◌ m k s = and_then (m s) k

  abbrev pub ◌>>◌ : Cmd S A → Cmd S B → Cmd S B
  m >> k = m >>= λ _. k

module _ {S A : Type 0} where
  abbrev pub checked : Run S A → Run S A
  checked (ok a s) = ok a s
  checked (err c s) = fault
  checked fault = fault
  checked out_of_fuel = out_of_fuel

  -- A call whose return code is ignored and whose result is used: an error would leave the result
  -- unset.
  abbrev pub unchecked : Cmd S A → Cmd S A
  unchecked m s = checked (m s)

  abbrev pub dropped : Run S A → Run S (Unit {0})
  dropped (ok a s) = ok tt s
  dropped (err c s) = ok tt s
  dropped fault = fault
  dropped out_of_fuel = out_of_fuel

  -- A call whose return code is ignored, and which sets nothing that is used.
  abbrev pub ignore : Cmd S A → Cmd S (Unit {0})
  ignore m s = dropped (m s)

  abbrev pub undefined : Cmd S A
  undefined s = fault

  abbrev pub no_fuel : Cmd S A
  no_fuel s = out_of_fuel
