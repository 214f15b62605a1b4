-- ===== src/Dbm/Exec/Control.antt =====
-- src/libchidb/dbm-ops.c: what the steps of the instructions do to the program counter and the program.
use chidb.Prelude.{
  ℕ, ◌^◌, ◌≡◌, ◌⊎◌, refl, ◌∙◌, inl, inr, Bool, true, false, Option, none, some, ltb, leb, ◌&&◌,
  if◌then◌else◌, Bool-cases,
}
use chidb.Run.{Run, ok, err, fault, out_of_fuel, and_then, Cmd, pure, ◌>>=◌, undefined}
use chidb.Pager.{Pager}
use chidb.Cursor.{Cursor}
use chidb.Dbm.{
  Register, Stmt, get_reg, int_value, get_int, get_slot, open_cursor, set_reg, ensure_reg,
  ensure_cur, get_cur, set_cur, jump, jump_if, with_pager, on_pager, realloc_reg, realloc_cur,
  is_open,
}
use chidb.Dbm.Values.{defined}

-- The state after a run, if it ends.
abbrev pub Ends : {A : Type 0} → (Stmt → Type 0) → Run Stmt A → Type 0
Ends P (ok a s) = P s
Ends P (err c s) = P s
Ends P fault = Unit
Ends P out_of_fuel = Unit

-- The program counter and the program are as before.
pub record SameControl (s s' : Stmt) : Type 0 where
  pub pc : s'.pc ≡ s.pc
  pub ops : s'.ops ≡ s.ops
  pub end_op : s'.end_op ≡ s.end_op

-- The program is as before, and the program counter is as before, at the jump address, if there is one, or at the end.
pub record Controlled (target : Option ℕ) (s s' : Stmt) : Type 0 where
  pub pc : (s'.pc ≡ s.pc) ⊎ ((some s'.pc ≡ target) ⊎ (s'.pc ≡ s.end_op))
  pub ops : s'.ops ≡ s.ops
  pub end_op : s'.end_op ≡ s.end_op

-- Whatever the state, the command keeps the program counter and the program, or moves only as an instruction may.
pub record Keeps {A : Type 0} (m : Cmd Stmt A) : Type 0 where
  pub keeps : (s : Stmt) → Ends (SameControl s) (m s)

pub record Controls (target : Option ℕ) (m : Cmd Stmt (Unit {0})) : Type 0 where
  pub controls : (s : Stmt) → Ends (Controlled target s) (m s)

pub same : (s : Stmt) → SameControl s s
same s = record { pc = refl; ops = refl; end_op = refl }

module _ (s s' : Stmt) (h : SameControl s s') where
  then-SameControl : (t : Stmt) → SameControl s' t → SameControl s t
  then-SameControl t k = record {
    pc = k.pc ∙ h.pc;
    ops = k.ops ∙ h.ops;
    end_op = k.end_op ∙ h.end_op;
  }

  then-Controlled : (target : Option ℕ) (t : Stmt) → Controlled target s' t → Controlled target s t
  then-Controlled target t k = record {
    pc = elim k.pc [
      | inl e ↦ inl (e ∙ h.pc)
      | inr (inl e) ↦ inr (inl e)
      | inr (inr e) ↦ inr (inr (e ∙ h.end_op))
    ];
    ops = k.ops ∙ h.ops;
    end_op = k.end_op ∙ h.end_op;
  }

Controlled-of_SameControl :
    (target : Option ℕ) (s t : Stmt) → SameControl s t → Controlled target s t
Controlled-of_SameControl target s t h = record { pc = inl h.pc; ops = h.ops; end_op = h.end_op }

module _ {A : Type 0} {P Q : Stmt → Type 0} (weaken : (t : Stmt) → P t → Q t) where
  Ends-weaken : (r : Run Stmt A) → Ends P r → Ends Q r
  Ends-weaken (ok a t) h = weaken t h
  Ends-weaken (err c t) h = weaken t h
  Ends-weaken fault h = tt
  Ends-weaken out_of_fuel h = tt

pub Controls-of_Keeps : {target : Option ℕ} {m : Cmd Stmt (Unit {0})} → Keeps m → Controls target m
Controls-of_Keeps {target} {m} h = record {
  controls = λ s. Ends-weaken (Controlled-of_SameControl target s) (m s) (h.keeps s);
}

module _ {A : Type 0} where
  Keeps-and_then :
      {B : Type 0} (k : A → Cmd Stmt B) (s : Stmt) (r : Run Stmt A)
      → Ends (SameControl s) r
      → ((a : A) → Keeps (k a))
      → Ends (SameControl s) (and_then r k)
  Keeps-and_then k s (ok a t) h rest =
      Ends-weaken (then-SameControl s t h) (k a t) ((rest a).keeps t)
  Keeps-and_then k s (err c t) h rest = h
  Keeps-and_then k s fault h rest = tt
  Keeps-and_then k s out_of_fuel h rest = tt

  Controls-and_then :
      (target : Option ℕ) (k : A → Cmd Stmt (Unit {0})) (s : Stmt) (r : Run Stmt A)
      → Ends (SameControl s) r
      → ((a : A) → Controls target (k a))
      → Ends (Controlled target s) (and_then r k)
  Controls-and_then target k s (ok a t) h rest =
      Ends-weaken (then-Controlled s t h target) (k a t) ((rest a).controls t)
  Controls-and_then target k s (err c t) h rest = Controlled-of_SameControl target s t h
  Controls-and_then target k s fault h rest = tt
  Controls-and_then target k s out_of_fuel h rest = tt

pub Keeps-then :
    {A B : Type 0} {m : Cmd Stmt A} {k : A → Cmd Stmt B}
    → Keeps m
    → ((a : A) → Keeps (k a))
    → Keeps (m >>= k)
Keeps-then {m} {k} first rest = record {
  keeps = λ s. Keeps-and_then k s (m s) (first.keeps s) rest;
}

pub Controls-then :
    {A : Type 0} {target : Option ℕ} {m : Cmd Stmt A} {k : A → Cmd Stmt (Unit {0})}
    → Keeps m
    → ((a : A) → Controls target (k a))
    → Controls target (m >>= k)
Controls-then {target} {m} {k} first rest = record {
  controls = λ s. Controls-and_then target k s (m s) (first.keeps s) rest;
}

-- The steps that instructions are made of.
pub pure-Keeps : {A : Type 0} (a : A) → Keeps (pure a)
pure-Keeps a = record { keeps = same }

pub undefined-Keeps : {A : Type 0} → Keeps {A = A} undefined
undefined-Keeps = record { keeps = λ s. tt }

pub defined-Keeps : {A : Type 0} (o : Option A) → Keeps (defined o)
unfolding defined
defined-Keeps none = undefined-Keeps
defined-Keeps (some a) = pure-Keeps a

pub get_reg-Keeps : (r : ℕ) → Keeps (get_reg r)
unfolding get_reg
get_reg-Keeps r = record {
  keeps = λ s. elim (Bool-cases (ltb r s.n_reg && ltb r (2 ^ 31))) [
    | inl e ↦ rw e (same s)
    | inr e ↦ rw e tt
  ];
}

pub int_value-Keeps : (v : Register) → Keeps (int_value v)
unfolding int_value
int_value-Keeps (Register.int32 n) = pure-Keeps n
int_value-Keeps Register.unspecified = undefined-Keeps
int_value-Keeps Register.null = undefined-Keeps
int_value-Keeps (Register.string cs) = undefined-Keeps
int_value-Keeps (Register.binary d n) = undefined-Keeps

pub get_int-Keeps : (r : ℕ) → Keeps (get_int r)
unfolding get_int
get_int-Keeps r = Keeps-then (get_reg-Keeps r) int_value-Keeps

pub get_slot-Keeps : (c : ℕ) → Keeps (get_slot c)
unfolding get_slot
get_slot-Keeps c = record {
  keeps = λ s. elim (Bool-cases (ltb c s.n_cursors && ltb c (2 ^ 31))) [
    | inl e ↦ rw e (same s)
    | inr e ↦ rw e tt
  ];
}

pub open_cursor-Keeps : (slot : Option Cursor) → Keeps (open_cursor slot)
unfolding open_cursor
open_cursor-Keeps none = undefined-Keeps
open_cursor-Keeps (some cur) =
    elim (is_open cur.type) as (λ b. Keeps (if b then pure cur else undefined)) [
      | true ↦ pure-Keeps cur
      | false ↦ undefined-Keeps
    ]

pub get_cur-Keeps : (c : ℕ) → Keeps (get_cur c)
unfolding get_cur
get_cur-Keeps c = Keeps-then (get_slot-Keeps c) open_cursor-Keeps

pub ensure_reg-Keeps : (r : ℕ) → Keeps (ensure_reg r)
unfolding ensure_reg realloc_reg
ensure_reg-Keeps r = record {
  keeps = λ s. elim (Bool-cases (leb s.n_reg r)) [
    | inl e ↦ rw e (record { pc = refl; ops = refl; end_op = refl })
    | inr e ↦ rw e (same s)
  ];
}

pub ensure_cur-Keeps : (c : ℕ) → Keeps (ensure_cur c)
unfolding ensure_cur realloc_cur
ensure_cur-Keeps c = record {
  keeps = λ s. elim (Bool-cases (leb s.n_cursors c)) [
    | inl e ↦ rw e (record { pc = refl; ops = refl; end_op = refl })
    | inr e ↦ rw e (same s)
  ];
}

pub set_reg-Keeps : (r : ℕ) (v : Register) → Keeps (set_reg r v)
unfolding set_reg
set_reg-Keeps r v = record {
  keeps = λ s. elim (Bool-cases (ltb r s.n_reg && ltb r (2 ^ 31))) [
    | inl e ↦ rw e (record { pc = refl; ops = refl; end_op = refl })
    | inr e ↦ rw e tt
  ];
}

pub set_cur-Keeps : (c : ℕ) (cur : Cursor) → Keeps (set_cur c cur)
unfolding set_cur
set_cur-Keeps c cur = record {
  keeps = λ s. elim (Bool-cases (ltb c s.n_cursors && ltb c (2 ^ 31))) [
    | inl e ↦ rw e (record { pc = refl; ops = refl; end_op = refl })
    | inr e ↦ rw e tt
  ];
}

with_pager-Ends : {A : Type 0} (s : Stmt) (r : Run Pager A) → Ends (SameControl s) (with_pager s r)
unfolding with_pager
with_pager-Ends s (ok a p) = record { pc = refl; ops = refl; end_op = refl }
with_pager-Ends s (err c p) = record { pc = refl; ops = refl; end_op = refl }
with_pager-Ends s fault = tt
with_pager-Ends s out_of_fuel = tt

pub on_pager-Keeps : {A : Type 0} (m : Cmd Pager A) → Keeps (on_pager m)
unfolding on_pager
on_pager-Keeps m = record { keeps = λ s. with_pager-Ends s (m s.pager) }

pub jump_if-Controls : (address : ℕ) (b : Bool) → Controls (some address) (jump_if b address)
unfolding jump_if jump
jump_if-Controls address true = record {
  controls = λ s. record { pc = inr (inl refl); ops = refl; end_op = refl };
}
jump_if-Controls address false = Controls-of_Keeps (record { keeps = same })
