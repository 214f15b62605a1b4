-- ===== src/Prelude/Bits.antt =====
-- The shifts, masks and unions of bit fields that the page format uses, as arithmetic.
use Prim.Native.Nat.{
  ℕ, zero, suc, ◌+◌, ◌*◌, ◌/◌, ◌%◌, ◌^◌, ◌≤◌, ◌<◌, min, max, digits, bitwise, bit_and, bit_or,
  bit_and-bitwise, bit_or-bitwise,
}
use mathlib.Core.Path.{◌≡◌, refl, sym, ap, ◌∙◌}
use native.Mathlib.Nat.{le_refl, pow-suc, div-div-eq-div-mul}
use native.Mathlib.Omega.{arith}

-- The digits of a bitwise operation do not depend on spare fuel.
module _ (right : ℕ → ℕ) (op : ℕ → ℕ → ℕ) where
  digits-fuel : (a b n k : ℕ) → a ≤ n → a ≤ k → digits right op n a b ≡ digits right op k a b
  digits-fuel zero b zero zero h g = refl
  digits-fuel zero b zero (suc k) h g = refl
  digits-fuel zero b (suc n) zero h g = refl
  digits-fuel zero b (suc n) (suc k) h g = refl
  digits-fuel (suc a) b zero k h g = absurd (omega arith)
  digits-fuel (suc a) b (suc n) zero h g = absurd (omega arith)
  digits-fuel (suc a) b (suc n) (suc k) h g =
      ap (λ (t : ℕ). t * 2 + op (suc a % 2) (b % 2))
        (digits-fuel (suc a / 2) (b / 2) n k (omega arith) (omega arith))

  bitwise_half :
      (a b : ℕ)
      → bitwise right op (suc a) b
        ≡ bitwise right op (suc a / 2) (b / 2) * 2 + op (suc a % 2) (b % 2)
  bitwise_half a b =
      ap (λ (t : ℕ). t * 2 + op (suc a % 2) (b % 2))
        (digits-fuel (suc a / 2) (b / 2) a (suc a / 2) (omega arith) (le_refl _))

-- The lowest digit of a conjunction and of a disjunction.
bit_and_half : (a b : ℕ) → bit_and a b ≡ bit_and (a / 2) (b / 2) * 2 + min (a % 2) (b % 2)
bit_and_half zero b = simp bit_and-bitwise (omega arith)
bit_and_half (suc a) b = simp bit_and-bitwise (bitwise_half (λ y. 0) min a b)

bit_or_half : (a b : ℕ) → bit_or a b ≡ bit_or (a / 2) (b / 2) * 2 + max (a % 2) (b % 2)
bit_or_half zero b = simp bit_or-bitwise (omega arith)
bit_or_half (suc a) b = simp bit_or-bitwise (bitwise_half (λ y. y) max a b)

bit_and-zero : (n a : ℕ) → a ≤ n → bit_and a 0 ≡ 0
bit_and-zero n zero h = refl
bit_and-zero zero (suc a) h = absurd (omega arith)
bit_and-zero (suc n) (suc a) h =
    omega (arith, bit_and_half (suc a) 0, bit_and-zero n (suc a / 2) (omega arith))

bit_or-zero : (n a : ℕ) → a ≤ n → bit_or a 0 ≡ a
bit_or-zero n zero h = refl
bit_or-zero zero (suc a) h = absurd (omega arith)
bit_or-zero (suc n) (suc a) h =
    omega (arith, bit_or_half (suc a) 0, bit_or-zero n (suc a / 2) (omega arith))

zero-bit_or : (a : ℕ) → bit_or 0 a ≡ a
zero-bit_or a = bit_or-bitwise 0 a

-- A field shifted by `k`, twice as far.
shift-suc : (q k : ℕ) → q * 2 ^ suc k ≡ 2 * (q * 2 ^ k)
shift-suc q k = omega (arith, ap (λ (t : ℕ). q * t) (pow-suc 2 k))

-- Disjoint fields: the union is the sum, whichever of the two stands first.
pub bit_or_high : (k q r : ℕ) → r < 2 ^ k → bit_or (q * 2 ^ k) r ≡ q * 2 ^ k + r
bit_or_high zero q r h = ground (arith, bit_or-zero q q)
bit_or_high (suc k) q r h =
    ground
      (arith, bit_or_half (q * 2 ^ suc k) r, shift-suc q k, bit_or_high k q (r / 2), pow-suc 2 k)

pub bit_or_low : (k q r : ℕ) → r < 2 ^ k → bit_or r (q * 2 ^ k) ≡ q * 2 ^ k + r
bit_or_low zero q r h = ground (arith, zero-bit_or q)
bit_or_low (suc k) q r h =
    ground
      (arith, bit_or_half r (q * 2 ^ suc k), shift-suc q k, bit_or_low k q (r / 2), pow-suc 2 k)

half : (k a : ℕ) → a / 2 ^ suc k ≡ a / 2 / 2 ^ k
half k a = sym (div-div-eq-div-mul a 2 (2 ^ k) ∙ ap (λ (t : ℕ). a / t) (omega (arith, pow-suc 2 k)))

-- A mask moved up by `k` takes the field that begins at bit `k`.
pub bit_and_shift : (k a m : ℕ) → bit_and a (m * 2 ^ k) ≡ bit_and (a / 2 ^ k) m * 2 ^ k
bit_and_shift zero a m = ground arith
bit_and_shift (suc k) a m = rw (half k a) (
    ground (
      arith,
      bit_and_half a (m * 2 ^ suc k),
      shift-suc m k,
      shift-suc (bit_and (a / 2 / 2 ^ k) m) k,
      bit_and_shift k (a / 2) m,
    ))

-- Masks of ones, up to seven of them.
pub bit_and_one : (a : ℕ) → bit_and a 1 ≡ a % 2
bit_and_one a = omega (arith, bit_and_half a 1, bit_and-zero _ (a / 2) (le_refl _))

two_ones : (a : ℕ) → bit_and a 3 ≡ a % 4
two_ones a = omega (arith, bit_and_half a 3, bit_and_one (a / 2))

three_ones : (a : ℕ) → bit_and a 7 ≡ a % 8
three_ones a = omega (arith, bit_and_half a 7, two_ones (a / 2))

four_ones : (a : ℕ) → bit_and a 15 ≡ a % 16
four_ones a = omega (arith, bit_and_half a 15, three_ones (a / 2))

five_ones : (a : ℕ) → bit_and a 31 ≡ a % 32
five_ones a = omega (arith, bit_and_half a 31, four_ones (a / 2))

six_ones : (a : ℕ) → bit_and a 63 ≡ a % 64
six_ones a = omega (arith, bit_and_half a 63, five_ones (a / 2))

pub bit_and_seven_ones : (a : ℕ) → bit_and a 0x7f ≡ a % 128
bit_and_seven_ones a = omega (arith, bit_and_half a 127, six_ones (a / 2))
