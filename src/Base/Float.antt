-- ===== src/Base/Float.antt =====
-- `f64`: a value is its bit pattern, and the operations that the code calls are a parameter of the
-- models. `IsIeee` states the IEEE 754 facts on whole numbers that some theorems rely on.
use Prim.Native.Nat.{ℕ, ◌*◌, ◌<◌}
use mathlib.Core.Path.{◌≡◌}
use mathlib.Core.Bool.{Bool}
use package.pagi_digital_twin.Base.Tests.{ltb, leb}

pub data F64 : Type 0 where
  bits : ℕ → F64

pub record Float : Type 0 where
  pub lit : ℕ → F64  -- a whole literal, and `n as f64`
  pub add : F64 → F64 → F64
  pub mul : F64 → F64 → F64
  pub div : F64 → F64 → F64
  pub ge : F64 → F64 → Bool
  pub lt : F64 → F64 → Bool
  pub sub : F64 → F64 → F64
  pub max : F64 → F64 → F64
  pub to_usize : F64 → ℕ  -- `as usize`

-- Whole numbers below 2^53 are exact.
abbrev pub exact_limit : ℕ
exact_limit = 9007199254740992

pub record IsIeee (fl : Float) : Type 0 where
  pub div_self : (n : ℕ) → 0 < n → n < exact_limit → fl.div (fl.lit n) (fl.lit n) ≡ fl.lit 1
  pub zero_div : (n : ℕ) → 0 < n → n < exact_limit → fl.div (fl.lit 0) (fl.lit n) ≡ fl.lit 0
  pub mul_lit : (m n : ℕ) → m * n < exact_limit → fl.mul (fl.lit m) (fl.lit n) ≡ fl.lit (m * n)
  pub ge_lit : (m n : ℕ) → m < exact_limit → n < exact_limit → fl.ge (fl.lit m) (fl.lit n) ≡ leb n m
  pub lt_lit : (m n : ℕ) → m < exact_limit → n < exact_limit → fl.lt (fl.lit m) (fl.lit n) ≡ ltb m n
