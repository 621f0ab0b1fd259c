-- ===== src/Base/Float.antt =====
-- The floating-point numbers of the code (`f64`), which the logic has not: a type and the
-- operations that the code uses, as a parameter of what computes with them.
use Prim.Native.Nat.{ℕ}
use mathlib.Core.Bool.{Bool}

pub record Float : Type 1 where
  pub F : Type 0
  pub of_ℕ : ℕ → F
  -- The literal `n / 10 ^ k`.
  pub literal : ℕ → ℕ → F
  pub add : F → F → F
  pub sub : F → F → F
  pub mul : F → F → F
  pub div : F → F → F
  pub clamp : F → F → F → F
  pub min : F → F → F
  -- `2 ^ (- a / b)`.
  pub halving : ℕ → ℕ → F
  -- `a >= b`, and `total_cmp(a, b)` is `Less`.
  pub ge : F → F → Bool
  pub total_lt : F → F → Bool
