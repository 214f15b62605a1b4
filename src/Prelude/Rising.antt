-- ===== src/Prelude/Rising.antt =====
-- Sequences of numbers that never go down.
use Prim.Native.Nat.{ℕ, zero, suc, ◌+◌, ◌-◌, ◌≤◌}
use mathlib.Core.Path.{◌≡◌, ap, subst}
use native.Mathlib.Omega.{arith}

module _ (f : ℕ → ℕ) (rises : (i : ℕ) → f i ≤ f (suc i)) where
  rising-add : (i k : ℕ) → f i ≤ f (i + k)
  rising-add i zero = omega (arith, at_start)
    where
      at_start : f (i + 0) ≡ f i
      at_start = ap f (omega arith)
  rising-add i (suc k) = omega (arith, rises i, rising-add (suc i) k, at_later)
    where
      at_later : f (i + suc k) ≡ f (suc i + k)
      at_later = ap f (omega arith)

  pub rising-le : (i n : ℕ) → i ≤ n → f i ≤ f n
  rising-le i n h = subst (λ m. f i ≤ f m) (omega arith) (rising-add i (n - i))
