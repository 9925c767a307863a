-- ===== src/Ml.antt =====
-- kernel/ml/ml_math.c and kernel/ml/ml_infer.c: the vector and matrix routines and the forward pass
-- of the network. A `float` array is a list; a read past its end gives 0.0 and a write there nothing.
pub mod Rows
pub mod Score
pub mod Format
pub mod Load
pub mod Stored
use prajna_os.Base.{
  ℕ, zero, suc, ◌+◌, ◌*◌, List, [], ◌∷◌, Bool, true, false, ◌&&◌, if◌then◌else◌, get_or, set,
  replicate,
}
use prajna_os.Float32.{FloatOps}

abbrev pub l1_in : ℕ
l1_in = 4

abbrev pub l1_out : ℕ
l1_out = 8

abbrev pub l2_in : ℕ
l2_in = 8

abbrev pub l2_out : ℕ
l2_out = 4

abbrev pub l3_in : ℕ
l3_in = 4

abbrev pub l3_out : ℕ
l3_out = 1

-- The global weight arrays of `ml_weights.c`, the matrices row by row.
pub record Weights (F : Type 0) : Type 0 where
  pub weights_l1 : List F
  pub bias_l1 : List F
  pub weights_l2 : List F
  pub bias_l2 : List F
  pub weights_l3 : List F
  pub bias_l3 : List F

module _ (fl : FloatOps) where
  open fl use {Float, decimal, neg, add, sub, mul, div, flt, fle}

  abbrev pub zero_f : Float
  zero_f = decimal 0 0

  abbrev pub one_f : Float
  one_f = decimal 1 0

  pub ml_abs : Float → Float
  ml_abs x = if flt x zero_f then neg x else x

  unfoldable pub ml_clamp : Float → Float → Float → Float
  ml_clamp x lo hi = if flt x lo then lo else if flt hi x then hi else x

  unfoldable pub ml_normalize : Float → Float → Float → Float
  unfolding ml_clamp
  ml_normalize val min max =
      let range = sub max min in
      if flt range (decimal 1 6) && flt (neg (decimal 1 6)) range
      then decimal 5 1
      else ml_clamp (div (sub val min) range) zero_f one_f

  pub ml_relu_scalar : Float → Float
  ml_relu_scalar x = if flt x zero_f then zero_f else x

  -- `for (; i < n; i++) if (x[i] < 0.0f) x[i] = 0.0f;` with `left = n - i` rounds.
  pub relu_from : ℕ → ℕ → List Float → List Float
  relu_from zero i x = x
  relu_from (suc left) i x =
      relu_from left (i + 1) (if flt (get_or x i zero_f) zero_f then set x i zero_f else x)

  pub ml_relu : List Float → ℕ → List Float
  ml_relu x n = relu_from n 0 x

  pub ml_sigmoid : Float → Float
  ml_sigmoid x =
      if fle (decimal 6 0) x
      then one_f
      else if fle x (neg (decimal 6 0))
      then zero_f
      else let x2 = mul x x in
        ml_clamp (add (decimal 5 1) (mul x (sub (decimal 25 2) (mul x2 (decimal 20833 6))))) zero_f
          one_f

  pub dot_from : ℕ → ℕ → Float → List Float → List Float → Float
  dot_from zero i sum a b = sum
  dot_from (suc left) i sum a b =
      dot_from left (i + 1) (add sum (mul (get_or a i zero_f) (get_or b i zero_f))) a b

  pub ml_dot : List Float → List Float → ℕ → Float
  ml_dot a b n = dot_from n 0 zero_f a b

  pub bias_from : ℕ → ℕ → List Float → List Float → List Float
  bias_from zero i x bias = x
  bias_from (suc left) i x bias =
      bias_from left (i + 1) (set x i (add (get_or x i zero_f) (get_or bias i zero_f))) bias

  pub ml_add_bias : List Float → List Float → ℕ → List Float
  ml_add_bias x bias n = bias_from n 0 x bias

  pub copy_from : ℕ → ℕ → List Float → List Float → List Float
  copy_from zero i dst src = dst
  copy_from (suc left) i dst src = copy_from left (i + 1) (set dst i (get_or src i zero_f)) src

  pub ml_vec_copy : List Float → List Float → ℕ → List Float
  ml_vec_copy dst src n = copy_from n 0 dst src

  pub zero_from : ℕ → ℕ → List Float → List Float
  zero_from zero i x = x
  zero_from (suc left) i x = zero_from left (i + 1) (set x i zero_f)

  pub ml_vec_zero : List Float → ℕ → List Float
  ml_vec_zero x n = zero_from n 0 x

  -- The inner loop of `ml_multiply`: `A_row` is `A` from index `start` on.
  pub row_from : ℕ → ℕ → Float → List Float → ℕ → List Float → Float
  row_from zero col sum a start b = sum
  row_from (suc left) col sum a start b =
      row_from left (col + 1) (add sum (mul (get_or a (start + col) zero_f) (get_or b col zero_f)))
        a start b

  pub multiply_from : ℕ → ℕ → ℕ → List Float → List Float → List Float → List Float
  multiply_from zero row in_cols a b c = c
  multiply_from (suc left) row in_cols a b c =
      multiply_from left (row + 1) in_cols a b
        (set c row (row_from in_cols 0 zero_f a (row * in_cols) b))

  pub ml_multiply : List Float → List Float → List Float → ℕ → ℕ → List Float
  ml_multiply a b c out_rows in_cols = multiply_from out_rows 0 in_cols a b c

  -- The local arrays are not initialised in C; every element is written before it is read.
  pub ml_infer : Weights Float → List Float → Float
  ml_infer w input =
      let h1 = ml_multiply w.weights_l1 input (replicate l1_out zero_f) l1_out l1_in in
      let layer1 = ml_relu (ml_add_bias h1 w.bias_l1 l1_out) l1_out in
      let h2 = ml_multiply w.weights_l2 layer1 (replicate l2_out zero_f) l2_out l2_in in
      let layer2 = ml_relu (ml_add_bias h2 w.bias_l2 l2_out) l2_out in
      let h3 = ml_multiply w.weights_l3 layer2 (replicate l3_out zero_f) l3_out l3_in in
      let output = ml_add_bias h3 w.bias_l3 l3_out in ml_sigmoid (get_or output 0 zero_f)
