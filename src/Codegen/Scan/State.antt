-- ===== src/Codegen/Scan/State.antt =====
-- src/libchidb/dbm.c: the machine in the middle of a compiled scan.
use chidb.Prelude.{
  ℕ, zero, suc, ◌+◌, ◌^◌, ◌≤◌, ◌<◌, ◌≡◌, ◌⊎◌, ap, ◌∙◌, inl, inr, true, some, List, arith, leb,
  get_elem?, length, Bool-cases,
}
use chidb.Run.{Code, Run, ok, err, and_then}
use chidb.Cursor.{Cursor}
use chidb.Dbm.{
  DbmOp, Register, Stmt, get_reg, set_reg, ensure_reg, realloc_reg, fill_from, set_at, is_open,
}
use chidb.Dbm.Ops.{put_reg, op_handle}
use chidb.Dbm.Exec.{exec_loop}
use chidb.Dbm.Exec.Stops.{at_next, loop-round}
use chidb.Codegen.Checks.{value_register}
use chidb.Codegen.Conjuncts.{ResolvedCmp}
use chidb.Optimizer.Meaning.{Value, literal_value}

-- The register `r` is there and holds the value.
pub record InRegister (s : Stmt) (r : ℕ) (v : Register) : Type 0 where
  pub there : r < s.n_reg
  pub small : r < 2 ^ 31
  pub value : s.reg r ≡ v

pub get_reg-InRegister : (s : Stmt) (r : ℕ) (v : Register) → InRegister s r v → get_reg r s ≡ ok v s
unfolding get_reg
get_reg-InRegister s r v h = ground (arith, h.there, h.small, h.value)

-- The registers `f`, `n` of them, are those of the statement with a value put into `r`.
pub record Puts (s : Stmt) (r : ℕ) (v : Register) (f : ℕ → Register) (n : ℕ) : Type 0 where
  pub new : f r ≡ v
  pub there : r < n
  pub more : s.n_reg ≤ n
  pub old : (j : ℕ) → j < s.n_reg → (j < r) ⊎ (r < j) → f j ≡ s.reg j

pub put_reg-Puts :
    (s : Stmt) (r : ℕ) (v : Register)
    → r < 2 ^ 31
    → (f : ℕ → Register) × (n : ℕ) × (put_reg r v s ≡ ok tt (record s { reg = f; n_reg = n }))
      × Puts s r v f n
unfolding put_reg ensure_reg set_reg realloc_reg fill_from set_at
put_reg-Puts s r v small = elim (Bool-cases (leb s.n_reg r)) [
  | inl e ↦ (
    set_at (fill_from s.reg s.n_reg (r + 1) Register.unspecified) r v,
    r + 1,
    rw e (ground (arith, small)),
    record {
      new = ground arith;
      there = omega arith;
      more = ground (arith, e);
      old = λ j here other. ground (arith, other);
    },
  )
  | inr e ↦ (
    set_at s.reg r v,
    s.n_reg,
    rw e (ground (arith, small, e)),
    record {
      new = ground arith;
      there = ground (arith, e);
      more = omega arith;
      old = λ j here other. ground (arith, other);
    },
  )
]

-- More fuel.
abbrev pub add_fuel : ℕ → ℕ → ℕ
add_fuel zero k = k
add_fuel (suc n) k = suc (add_fuel n k)

-- With enough fuel the loop ends with a result that has the property.
abbrev pub Finishes : ℕ → (Run Stmt (Unit {0}) → Type 0) → Stmt → Type 0
Finishes depth P s =
    (n : ℕ) × (r : Run Stmt (Unit {0})) × ((k : ℕ) → exec_loop depth (add_fuel n k) s ≡ r) × P r

module _ (depth : ℕ) (prog : List DbmOp) (P : Run Stmt (Unit {0}) → Type 0) (s : Stmt) (op : DbmOp)
    (ops_are : (i : ℕ) (x : DbmOp) → get_elem? prog i ≡ some x → s.ops i ≡ x)
    (op_is : get_elem? prog s.pc ≡ some op) (inside : s.pc < s.end_op) where
  round :
      (fuel : ℕ) (r : Run Stmt (Unit {0}))
      → op_handle depth op (at_next s) ≡ r
      → exec_loop depth (suc fuel) s ≡ and_then r (λ u s'. exec_loop depth fuel s')
  round fuel r e =
      loop-round depth fuel s inside
      ∙ ap
          (λ (x : DbmOp).
            and_then (op_handle depth x (at_next s)) (λ u s'. exec_loop depth fuel s'))
          (ops_are s.pc op op_is)
      ∙ ap (λ (x : Run Stmt (Unit {0})). and_then x (λ u s'. exec_loop depth fuel s')) e

  pub step-Finishes :
      (s' : Stmt)
      → op_handle depth op (at_next s) ≡ ok tt s'
      → Finishes depth P s'
      → Finishes depth P s
  step-Finishes s' e (n, r, runs, h) =
      (suc n, r, λ k. round (add_fuel n k) (ok tt s') e ∙ runs k, h)

  pub err-Finishes :
      (c : Code) (s' : Stmt)
      → op_handle depth op (at_next s) ≡ err c s'
      → P (err c s')
      → Finishes depth P s
  err-Finishes c s' e h = (1, err c s', λ k. round k (err c s') e, h)

-- The program, the cursor 0 and the literals, where the machine is at `pc`.
pub record Running (prog : List DbmOp) (cmps : List ResolvedCmp) (nout : ℕ) (cur : Cursor) (pc : ℕ)
    (s : Stmt) : Type 0 where
  pub pc_is : s.pc ≡ pc
  pub ops_are : (i : ℕ) (x : DbmOp) → get_elem? prog i ≡ some x → s.ops i ≡ x
  pub end_is : s.end_op ≡ length prog
  pub count_is : s.n_rr ≡ nout
  pub cols_is : s.n_cols ≡ nout
  pub slot : s.cursors 0 ≡ some cur
  pub slots : 0 < s.n_cursors
  pub opened : is_open cur.type ≡ true
  pub literals :
      (j : ℕ) (cmp : ResolvedCmp) (w : Value)
      → get_elem? cmps j ≡ some cmp
      → literal_value cmp.lit ≡ some w
      → InRegister s (1 + j) (value_register w)
