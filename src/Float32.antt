-- ===== src/Float32.antt =====
-- The type `float` of the kernel, which every floating-point computation of the code takes as a
-- parameter: the machine's operations, no laws. `IsOrdered` names the few facts of IEEE comparison
-- that some theorems use.
use prajna_os.Base.{ℕ, ◌≡◌, Bool, false}

pub record FloatOps : Type 1 where
  pub Float : Type 0
  -- The literal `m` with `k` decimals: `decimal 3 1` is 0.3f.
  pub decimal : ℕ → ℕ → Float
  pub of_nat : ℕ → Float
  pub neg : Float → Float
  pub add : Float → Float → Float
  pub sub : Float → Float → Float
  pub mul : Float → Float → Float
  pub div : Float → Float → Float
  -- `a < b`, which is false where either is not a number.
  pub flt : Float → Float → Bool
  -- The value of a 32-bit pattern, and `(int)x` as the bit pattern of the `int`.
  pub of_bits : ℕ → Float
  pub trunc : Float → ℕ
  -- `a <= b`
  pub fle : Float → Float → Bool

-- IEEE 754: no value is below itself, and the literals 0.0f, 0.5f and 1.0f are in this order.
pub record IsOrdered (fl : FloatOps) : Type 0 where
  pub irrefl : (x : fl.Float) → fl.flt x x ≡ false
  pub one_zero : fl.flt (fl.decimal 1 0) (fl.decimal 0 0) ≡ false
  pub half_zero : fl.flt (fl.decimal 5 1) (fl.decimal 0 0) ≡ false
  pub one_half : fl.flt (fl.decimal 1 0) (fl.decimal 5 1) ≡ false
