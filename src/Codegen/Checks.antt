-- ===== src/Codegen/Checks.antt =====
-- src/libchidb/codegen.c: the order of two values, the negated comparison and the comparison the other way round.
use chidb.Prelude.{
  ℕ, ◌≡◌, refl, ap, ◌∙◌, Bool, false, not, Option, none, some, List, [], ◌∷◌, arith,
}
use chidb.Dbm.{Opcode, Register}
use chidb.Dbm.Values.{Sign, int32_lt, compare_int32, strcmp, is_negative, is_positive, is_zero}
use chidb.Sql.{CompType}
use chidb.Optimizer.Meaning.{Value, value_order, has_order}
use chidb.Codegen.Conjuncts.{flip_comp, negated_op}

abbrev pub value_register : Value → Register
value_register (Value.int n) = Register.int32 n
value_register (Value.text s) = Register.string s

-- The order of two values of the same type.
abbrev pub opposite : Sign → Sign
opposite Sign.negative = Sign.positive
opposite Sign.zero_sign = Sign.zero_sign
opposite Sign.positive = Sign.negative

compare_int32-opposite : (a b : ℕ) → compare_int32 a b ≡ opposite (compare_int32 b a)
unfolding compare_int32 int32_lt
compare_int32-opposite a b = ground arith

strcmp-opposite : (s t : List ℕ) → strcmp s t ≡ opposite (strcmp t s)
unfolding strcmp
strcmp-opposite [] [] = refl
strcmp-opposite [] (d ∷ ds) = refl
strcmp-opposite (c ∷ cs) [] = refl
strcmp-opposite (c ∷ cs) (d ∷ ds) = ground (arith, strcmp-opposite cs ds)

-- The instruction jumps by the order of the column and the literal.
abbrev pub jumps_on : Opcode → Sign → Bool
jumps_on Opcode.ne sign = not (is_zero sign)
jumps_on Opcode.le sign = not (is_positive sign)
jumps_on Opcode.lt sign = is_negative sign
jumps_on Opcode.ge sign = not (is_negative sign)
jumps_on Opcode.gt sign = is_positive sign
jumps_on _ sign = false

pub jumps_on-negated_op :
    (c : CompType) (sign : Sign) → jumps_on (negated_op c) sign ≡ not (has_order c sign)
unfolding negated_op has_order
jumps_on-negated_op CompType.cond_eq Sign.negative = refl
jumps_on-negated_op CompType.cond_eq Sign.zero_sign = refl
jumps_on-negated_op CompType.cond_eq Sign.positive = refl
jumps_on-negated_op CompType.cond_lt Sign.negative = refl
jumps_on-negated_op CompType.cond_lt Sign.zero_sign = refl
jumps_on-negated_op CompType.cond_lt Sign.positive = refl
jumps_on-negated_op CompType.cond_gt Sign.negative = refl
jumps_on-negated_op CompType.cond_gt Sign.zero_sign = refl
jumps_on-negated_op CompType.cond_gt Sign.positive = refl
jumps_on-negated_op CompType.cond_leq Sign.negative = refl
jumps_on-negated_op CompType.cond_leq Sign.zero_sign = refl
jumps_on-negated_op CompType.cond_leq Sign.positive = refl
jumps_on-negated_op CompType.cond_geq Sign.negative = refl
jumps_on-negated_op CompType.cond_geq Sign.zero_sign = refl
jumps_on-negated_op CompType.cond_geq Sign.positive = refl

-- A comparison with its operands the other way round.
pub has_order-opposite :
    (c : CompType) (sign : Sign) → has_order c (opposite sign) ≡ has_order (flip_comp c) sign
unfolding has_order flip_comp
has_order-opposite CompType.cond_eq Sign.negative = refl
has_order-opposite CompType.cond_eq Sign.zero_sign = refl
has_order-opposite CompType.cond_eq Sign.positive = refl
has_order-opposite CompType.cond_lt Sign.negative = refl
has_order-opposite CompType.cond_lt Sign.zero_sign = refl
has_order-opposite CompType.cond_lt Sign.positive = refl
has_order-opposite CompType.cond_gt Sign.negative = refl
has_order-opposite CompType.cond_gt Sign.zero_sign = refl
has_order-opposite CompType.cond_gt Sign.positive = refl
has_order-opposite CompType.cond_leq Sign.negative = refl
has_order-opposite CompType.cond_leq Sign.zero_sign = refl
has_order-opposite CompType.cond_leq Sign.positive = refl
has_order-opposite CompType.cond_geq Sign.negative = refl
has_order-opposite CompType.cond_geq Sign.zero_sign = refl
has_order-opposite CompType.cond_geq Sign.positive = refl

pub value_order-opposite :
    (v w : Value) (sign : Sign)
    → value_order (some v) (some w) ≡ some sign
    → value_order (some w) (some v) ≡ some (opposite sign)
unfolding value_order
value_order-opposite (Value.int a) (Value.int b) sign e =
    ap some (compare_int32-opposite b a) ∙ ap (λ (x : Option Sign). turned x) e
  where
    turned : Option Sign → Option Sign
    turned none = none
    turned (some s) = some (opposite s)
value_order-opposite (Value.text a) (Value.text b) sign e =
    ap some (strcmp-opposite b a) ∙ ap (λ (x : Option Sign). turned x) e
  where
    turned : Option Sign → Option Sign
    turned none = none
    turned (some s) = some (opposite s)
value_order-opposite (Value.int a) (Value.text b) sign e = absurd cc
value_order-opposite (Value.text a) (Value.int b) sign e = absurd cc
