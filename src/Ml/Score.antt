-- ===== src/Ml/Score.antt =====
-- kernel/ml/ml_math.c and kernel/ml/ml_infer.c: the range of the results.
use prajna_os.Base.{◌≡◌, false, ◌&&◌, List, Bool-cases, inl, inr}
use prajna_os.Float32.{FloatOps, IsOrdered}
use prajna_os.Ml.{ml_clamp, ml_normalize, ml_sigmoid, ml_infer, Weights, zero_f, one_f}

module _ (fl : FloatOps) where
  -- Neither below `lo` nor above `hi`.
  abbrev pub Within : fl.Float → fl.Float → fl.Float → Type 0
  Within lo hi x = (fl.flt x lo ≡ false) × (fl.flt hi x ≡ false)

  -- `ml_clamp` returns a value that is neither below `lo` nor above `hi`, also where `x` is not a
  -- number, if `hi` is not below `lo`.
  pub ml_clamp-Within :
      (x lo hi : fl.Float)
      → IsOrdered fl
      → fl.flt hi lo ≡ false
      → Within lo hi (ml_clamp fl x lo hi)
  unfolding ml_clamp
  ml_clamp-Within x lo hi o ne = elim (Bool-cases (fl.flt x lo)) [
    | inl below ↦ rw below (o.irrefl lo, ne)
    | inr nb ↦ elim (Bool-cases (fl.flt hi x)) [
      | inl above ↦ rw (nb, above) (ne, o.irrefl hi)
      | inr na ↦ rw (nb, na) (nb, na)
    ]
  ]

  -- If no `float` is below itself and 0.0, 0.5 and 1.0 are in order, then `ml_normalize` is neither
  -- below 0.0 nor above 1.0, for every value and every range, an empty one included.
  pub ml_normalize-Within :
      (val min max : fl.Float)
      → IsOrdered fl
      → Within (zero_f fl) (one_f fl) (ml_normalize fl val min max)
  unfolding ml_normalize
  ml_normalize-Within val min max o =
      let range = fl.sub max min in
      elim (Bool-cases (fl.flt range (fl.decimal 1 6) && fl.flt (fl.neg (fl.decimal 1 6)) range)) [
        | inl empty ↦ rw empty (o.half_zero, o.one_half)
        | inr wide ↦ rw wide (unfold ml_clamp in ml_clamp-Within _ _ _ o o.one_zero)
      ]

  ml_sigmoid-Within :
      (x : fl.Float) → IsOrdered fl → Within (zero_f fl) (one_f fl) (ml_sigmoid fl x)
  unfolding ml_sigmoid
  ml_sigmoid-Within x o = elim (Bool-cases (fl.fle (fl.decimal 6 0) x)) [
    | inl high ↦ rw high (o.one_zero, o.irrefl (one_f fl))
    | inr nh ↦ elim (Bool-cases (fl.fle x (fl.neg (fl.decimal 6 0)))) [
      | inl low ↦ rw (nh, low) (o.irrefl (zero_f fl), o.one_zero)
      | inr nl ↦ rw (nh, nl) (ml_clamp-Within _ _ _ o o.one_zero)
    ]
  ]

  -- If no `float` is below itself and 0.0, 0.5 and 1.0 are in order, then `ml_infer` is neither
  -- below 0.0 nor above 1.0, whatever the weights and the input are.
  pub ml_infer-Within :
      (w : Weights fl.Float) (input : List fl.Float)
      → IsOrdered fl
      → Within (zero_f fl) (one_f fl) (ml_infer fl w input)
  unfolding ml_infer
  ml_infer-Within w input o = ml_sigmoid-Within _ o
