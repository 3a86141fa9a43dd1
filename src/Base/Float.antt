-- ===== src/Base/Float.antt =====
-- What the code does with `f32` and `f64`: the operations of the language, as an interface.
use Prim.Native.Nat.{ℕ}
use mathlib.Core.Bool.{Bool}

pub record Float (F : Type 0) : Type 0 where
  -- the literal m / 10^k
  pub lit : ℕ → ℕ → F
  -- an unsigned integer `as` a float
  pub of_ℕ : ℕ → F
  pub add : F → F → F
  pub sub : F → F → F
  pub mul : F → F → F
  pub div : F → F → F
  pub neg : F → F
  pub abs : F → F
  pub sqrt : F → F
  pub exp : F → F
  pub lt : F → F → Bool
  pub le : F → F → Bool
  pub eq : F → F → Bool
  pub epsilon : F

-- `as f32` of an `f64`.
pub record Narrow (F32 F64 : Type 0) : Type 0 where
  pub narrow : F64 → F32
