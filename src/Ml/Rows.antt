-- ===== src/Ml/Rows.antt =====
-- kernel/ml/ml_math.c: the in-place loops element by element.
use prajna_os.Base.{
  ℕ, zero, suc, ◌+◌, ◌*◌, ◌≤◌, ◌<◌, ◌≡◌, refl, arith, ◌∙◌, List, [], ◌∷◌, ◌&&◌, if◌then◌else◌,
  get_or, set, get_or-set, get_or-past, get_or-set_self, get_or-set_ne, length-set, length, ltb,
  leb, Bool-cases, inl, inr, drop,
}
use native.Mathlib.Decide.{ℕ_discrete}
use prajna_os.Float32.{FloatOps}
use prajna_os.Ml.{
  zero_f, ml_relu_scalar, relu_from, ml_relu, dot_from, ml_dot, bias_from, ml_add_bias, row_from,
  multiply_from, ml_multiply,
}

module _ {ℓ} {A : Type ℓ} where
  -- A loop `for (; i < i + left; i++) if (i < n) x[i] = f(i, x[i])` that touches each element once.
  get_or-drop : (n i : ℕ) (xs : List A) (d : A) → get_or (drop n xs) i d ≡ get_or xs (n + i) d
  get_or-drop zero i xs d = let e : 0 + i ≡ i = omega arith in rw e
  get_or-drop (suc n) i [] d = refl
  get_or-drop (suc n) i (x ∷ xs) d =
      let e : suc n + i ≡ suc (n + i) = omega arith in rw e (get_or-drop n i xs d)

module _ (fl : FloatOps) where
  open fl use {Float, add, mul, flt}

  get_or-relu_from :
      (left i j : ℕ) (x : List Float)
      → get_or (relu_from fl left i x) j (zero_f fl) ≡ (
          if leb i j && ltb j (i + left)
          then ml_relu_scalar fl (get_or x j (zero_f fl))
          else get_or x j (zero_f fl))
  unfolding relu_from ml_relu_scalar
  get_or-relu_from zero i j x = ground arith
  get_or-relu_from (suc left) i j x =
      let x' = if flt (get_or x i (zero_f fl)) (zero_f fl) then set x i (zero_f fl) else x in
      get_or-relu_from left (i + 1) j x'
      ∙ elim (Bool-cases (flt (get_or x i (zero_f fl)) (zero_f fl))) [
        | inl neg ↦
            ground (arith, get_or-set x i j (zero_f fl) (zero_f fl), get_or-past x j (zero_f fl))
        | inr pos ↦ ground arith
      ]

  -- A row of the matrix-vector product is the dot product of that row of the matrix.
  row_from-dot_from :
      (left col start : ℕ) (sum : Float) (a b : List Float)
      → row_from fl left col sum a start b ≡ dot_from fl left col sum (drop start a) b
  unfolding row_from dot_from
  row_from-dot_from zero col start sum a b = refl
  row_from-dot_from (suc left) col start sum a b =
      rw (get_or-drop start col a (zero_f fl)) (row_from-dot_from left (col + 1) start _ a b)

  multiply_from-other :
      (left row cols : ℕ) (a b c : List Float) (i : ℕ)
      → i < row
      → get_or (multiply_from fl left row cols a b c) i (zero_f fl) ≡ get_or c i (zero_f fl)
  unfolding multiply_from
  multiply_from-other zero row cols a b c i h = refl
  multiply_from-other (suc left) row cols a b c i h =
      multiply_from-other left (row + 1) cols a b _ i (omega arith)
      ∙ get_or-set_ne c row i _ (zero_f fl) (omega arith)

  multiply_from-row :
      (left row cols : ℕ) (a b c : List Float) (i : ℕ)
      → row ≤ i
      → i < row + left
      → i < length c
      → get_or (multiply_from fl left row cols a b c) i (zero_f fl)
        ≡ ml_dot fl (drop (i * cols) a) b cols
  unfolding multiply_from ml_dot
  multiply_from-row zero row cols a b c i h k l = absurd (omega arith)
  multiply_from-row (suc left) row cols a b c i h k l = elim (ℕ_discrete row i) [
    | yes e ↦ rw e (
        multiply_from-other left (i + 1) cols a b _ i (omega arith)
        ∙ get_or-set_self c i _ (zero_f fl) l
        ∙ row_from-dot_from cols 0 (i * cols) (zero_f fl) a b)
    | no ne ↦
        multiply_from-row left (row + 1) cols a b _ i (omega arith) (omega arith) (rw length-set l)
  ]

  -- Each of the first `out_rows` elements of the result of `ml_multiply`, as far as the result
  -- array has them, is `ml_dot` of that row of the row-major matrix with the vector.
  pub ml_multiply-ml_dot :
      (a b c : List Float) (out_rows in_cols i : ℕ)
      → i < out_rows
      → i < length c
      → get_or (ml_multiply fl a b c out_rows in_cols) i (zero_f fl)
        ≡ ml_dot fl (drop (i * in_cols) a) b in_cols
  unfolding ml_multiply
  ml_multiply-ml_dot a b c n cols i h l =
      multiply_from-row n 0 cols a b c i (omega arith) (omega arith) l

  -- `ml_relu` replaces each of the first `n` elements by its `ml_relu_scalar` and leaves the others.
  pub get_or-ml_relu :
      (x : List Float) (n j : ℕ)
      → get_or (ml_relu fl x n) j (zero_f fl)
        ≡ (if ltb j n then ml_relu_scalar fl (get_or x j (zero_f fl)) else get_or x j (zero_f fl))
  unfolding ml_relu
  get_or-ml_relu x n j = ground (arith, get_or-relu_from n 0 j x)

  get_or-bias_from :
      (left i j : ℕ) (x bias : List Float)
      → j < length x
      → get_or (bias_from fl left i x bias) j (zero_f fl) ≡ (
          if leb i j && ltb j (i + left)
          then add (get_or x j (zero_f fl)) (get_or bias j (zero_f fl))
          else get_or x j (zero_f fl))
  unfolding bias_from
  get_or-bias_from zero i j x bias h = ground arith
  get_or-bias_from (suc left) i j x bias h =
      let v = add (get_or x i (zero_f fl)) (get_or bias i (zero_f fl)) in
      ground (
        arith,
        get_or-bias_from left (i + 1) j (set x i v) bias (rw length-set h),
        get_or-set x i j v (zero_f fl),
      )

  -- `ml_add_bias` adds the bias to each of the first `n` elements and leaves the others.
  pub get_or-ml_add_bias :
      (x bias : List Float) (n j : ℕ)
      → j < length x
      → get_or (ml_add_bias fl x bias n) j (zero_f fl) ≡ (
          if ltb j n
          then add (get_or x j (zero_f fl)) (get_or bias j (zero_f fl))
          else get_or x j (zero_f fl))
  unfolding ml_add_bias
  get_or-ml_add_bias x bias n j h = ground (arith, get_or-bias_from n 0 j x bias h)
