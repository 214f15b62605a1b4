-- ===== src/Dbm/Ops/Compare.antt =====
-- src/libchidb/dbm-ops.c: the order that the comparing instructions test.
use chidb.Prelude.{
  ℕ, ◌-◌, ◌^◌, ◌<◌, ◌≡◌, refl, Bool, true, false, not, arith, ltb, ◌==◌, if◌then◌else◌, ap, subst,
  ◌∙◌,
}
use chidb.Prelude.{Option, some, none}
use chidb.Run.{Run, ok}
use chidb.Dbm.{Opcode, DbmOp, Register, Stmt, get_reg, jump, jump_if}
use chidb.Dbm.Ops.{op_compare, dispatch, op_handle}
use chidb.Dbm.Values.{
  int32_lt, Sign, compare_int32, reg_compare, compare_regs, defined, is_negative, is_positive,
  is_zero,
}

-- Integers over the native numbers.
pub data ℤ : Type 0 where
  pos negsuc : ℕ → ℤ

abbrev pub ltb_ℤ : ℤ → ℤ → Bool
ltb_ℤ (pos m) (pos n) = ltb m n
ltb_ℤ (pos m) (negsuc n) = false
ltb_ℤ (negsuc m) (pos n) = true
ltb_ℤ (negsuc m) (negsuc n) = ltb n m

-- The integer of 32 bits in two's complement.
abbrev pub signed : ℕ → ℤ
signed a = if ltb a (2 ^ 31) then pos a else negsuc (2 ^ 32 - 1 - a)

pub int32_lt-signed :
    (a b : ℕ) → a < 2 ^ 32 → b < 2 ^ 32 → int32_lt a b ≡ ltb_ℤ (signed a) (signed b)
unfolding int32_lt
int32_lt-signed a b h g = ground arith

abbrev pub eq_ℤ : ℤ → ℤ → Bool
eq_ℤ (pos m) (pos n) = m == n
eq_ℤ (pos m) (negsuc n) = false
eq_ℤ (negsuc m) (pos n) = false
eq_ℤ (negsuc m) (negsuc n) = m == n

eq_ℤ-sym : (a b : ℤ) → eq_ℤ a b ≡ eq_ℤ b a
eq_ℤ-sym (pos m) (pos n) = ground arith
eq_ℤ-sym (pos m) (negsuc n) = refl
eq_ℤ-sym (negsuc m) (pos n) = refl
eq_ℤ-sym (negsuc m) (negsuc n) = ground arith

module _ (a b : ℕ) (a_lt : a < 2 ^ 32) (b_lt : b < 2 ^ 32) where
  negative-compare_int32 : is_negative (compare_int32 a b) ≡ ltb_ℤ (signed a) (signed b)
  unfolding compare_int32 int32_lt
  negative-compare_int32 = ground arith

  positive-compare_int32 : is_positive (compare_int32 a b) ≡ ltb_ℤ (signed b) (signed a)
  unfolding compare_int32 int32_lt
  positive-compare_int32 = ground arith

  zero-compare_int32 : is_zero (compare_int32 a b) ≡ eq_ℤ (signed a) (signed b)
  unfolding compare_int32 int32_lt
  zero-compare_int32 = ground arith

-- The order that an instruction tests, between the register `p3` and the register `p1`.
abbrev pub order_of : Opcode → Option (ℤ → ℤ → Bool)
order_of Opcode.eq = some eq_ℤ
order_of Opcode.ne = some (λ a b. not (eq_ℤ a b))
order_of Opcode.lt = some ltb_ℤ
order_of Opcode.le = some (λ a b. not (ltb_ℤ b a))
order_of Opcode.gt = some (λ a b. ltb_ℤ b a)
order_of Opcode.ge = some (λ a b. not (ltb_ℤ a b))
order_of _ = none

-- The state after a jump, if there is one.
abbrev pub jumped : Bool → ℕ → Stmt → Stmt
jumped b address s = if b then record s { pc = address } else s

jump_if-jumped :
    (b : Bool) (address : ℕ) (s : Stmt) → jump_if b address s ≡ ok tt (jumped b address s)
unfolding jump_if jump
jump_if-jumped true address s = refl
jump_if-jumped false address s = refl

op_compare-ints :
    (test : Sign → Bool) (a b : ℕ) (op : DbmOp) (s : Stmt) (x y : ℕ)
    → get_reg a s ≡ ok (Register.int32 x) s
    → get_reg b s ≡ ok (Register.int32 y) s
    → op_compare test a b op s ≡ ok tt (jumped (test (compare_int32 x y)) op.p2 s)
unfolding op_compare compare_regs defined reg_compare
op_compare-ints test a b op s x y h g =
    rw (h, g) (jump_if-jumped (test (compare_int32 x y)) op.p2 s)

module _ (depth : ℕ) (op : DbmOp) (s : Stmt) (x y : ℕ)
    (h : get_reg op.p1 s ≡ ok (Register.int32 x) s) (g : get_reg op.p3 s ≡ ok (Register.int32 y) s)
    (x_lt : x < 2 ^ 32) (y_lt : y < 2 ^ 32) where
  abbrev Jumps : (ℤ → ℤ → Bool) → Run Stmt (Unit {0}) → Type 0
  Jumps order r = r ≡ ok tt (jumped (order (signed y) (signed x)) op.p2 s)

  compared :
      (test : Sign → Bool) (order : ℤ → ℤ → Bool)
      → test (compare_int32 y x) ≡ order (signed y) (signed x)
      → Jumps order (op_compare test op.p3 op.p1 op s)
  compared test order e =
      op_compare-ints test op.p3 op.p1 op s y x g h ∙ ap (λ (b : Bool). ok tt (jumped b op.p2 s)) e

  equal_ints : is_zero (compare_int32 x y) ≡ eq_ℤ (signed y) (signed x)
  equal_ints = zero-compare_int32 x y x_lt y_lt ∙ eq_ℤ-sym (signed x) (signed y)

  order_is : {f order : ℤ → ℤ → Bool} → some f ≡ some order → f ≡ order
  order_is e = cc

  dispatch-order_of :
      (o : Opcode) (order : ℤ → ℤ → Bool)
      → order_of o ≡ some order
      → Jumps order (dispatch depth o op s)
  unfolding dispatch
  dispatch-order_of Opcode.eq order e =
      subst (λ order. Jumps order (op_compare is_zero op.p1 op.p3 op s)) (order_is e)
        (op_compare-ints is_zero op.p1 op.p3 op s x y h g
          ∙ ap (λ (b : Bool). ok tt (jumped b op.p2 s)) equal_ints)
  dispatch-order_of Opcode.ne order e =
      subst (λ order. Jumps order (op_compare (λ sign. not (is_zero sign)) op.p1 op.p3 op s))
        (order_is e)
        (op_compare-ints (λ sign. not (is_zero sign)) op.p1 op.p3 op s x y h g
          ∙ ap (λ (b : Bool). ok tt (jumped (not b) op.p2 s)) equal_ints)
  dispatch-order_of Opcode.lt order e =
      subst (λ order. Jumps order (op_compare is_negative op.p3 op.p1 op s)) (order_is e)
        (compared is_negative ltb_ℤ (negative-compare_int32 y x y_lt x_lt))
  dispatch-order_of Opcode.le order e =
      subst (λ order. Jumps order (op_compare (λ sign. not (is_positive sign)) op.p3 op.p1 op s))
        (order_is e)
        (compared (λ sign. not (is_positive sign)) (λ a b. not (ltb_ℤ b a))
          (ap not (positive-compare_int32 y x y_lt x_lt)))
  dispatch-order_of Opcode.gt order e =
      subst (λ order. Jumps order (op_compare is_positive op.p3 op.p1 op s)) (order_is e)
        (compared is_positive (λ a b. ltb_ℤ b a) (positive-compare_int32 y x y_lt x_lt))
  dispatch-order_of Opcode.ge order e =
      subst (λ order. Jumps order (op_compare (λ sign. not (is_negative sign)) op.p3 op.p1 op s))
        (order_is e)
        (compared (λ sign. not (is_negative sign)) (λ a b. not (ltb_ℤ a b))
          (ap not (negative-compare_int32 y x y_lt x_lt)))
  dispatch-order_of _ order e = absurd cc

-- An instruction that compares the integers of two registers jumps to `p2` just if the integer in the register
-- `p3` is in the order of the instruction to that in the register `p1`, and changes nothing else.
pub op_handle-order_of :
    (depth : ℕ) (op : DbmOp) (s : Stmt) (x y : ℕ) (order : ℤ → ℤ → Bool)
    → get_reg op.p1 s ≡ ok (Register.int32 x) s
    → get_reg op.p3 s ≡ ok (Register.int32 y) s
    → x < 2 ^ 32
    → y < 2 ^ 32
    → order_of op.opcode ≡ some order
    → op_handle depth op s ≡ ok tt (jumped (order (signed y) (signed x)) op.p2 s)
unfolding op_handle
op_handle-order_of depth op s x y order h g x_lt y_lt e =
    dispatch-order_of depth op s x y h g x_lt y_lt op.opcode order e
