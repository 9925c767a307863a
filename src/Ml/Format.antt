-- ===== src/Ml/Format.antt =====
-- kernel/ml/ml_math.c: `ml_float_to_str`, the `int_to_str` that it uses, and `ml_print_vec`. An `int` is
-- its 32-bit pattern.
use mathlib.Core.List.{reverse}
use prajna_os.Base.{
  ℕ, zero, suc, ◌+◌, ◌-◌, ◌/◌, ◌%◌, ◌^◌, List, [], ◌∷◌, ◌++◌, ◌==◌, ltb, if◌then◌else◌, get_or, set,
  replicate, u8, sub32,
}
use prajna_os.Float32.{FloatOps}

-- `tmp_buf`: the digits from the last one on; the value falls to 0 within `val` rounds.
unfoldable pub low_digits : ℕ → ℕ → List ℕ
low_digits zero val = []
low_digits (suc fuel) val =
    let rest = low_digits fuel (val / 10) in if val == 0 then [] else (b'0' + val % 10) ∷ rest

-- What the static `int_to_str` stores. The negation of the smallest `int` stays negative, and then no
-- digit is stored.
unfoldable pub int_text : ℕ → List ℕ
unfolding low_digits
int_text val =
    if val == 0
    then b'0' ∷ []
    else if ltb val (2 ^ 31)
    then reverse (low_digits val val)
    else let val' = sub32 0 val in
      b'-' ∷ (if ltb val' (2 ^ 31) then reverse (low_digits val' val') else [])

-- `*buf++ = c;` for every byte of `text` from place `i` on, and the NUL behind them.
unfoldable pub store_text : ℕ → List ℕ → List ℕ → List ℕ
store_text i [] buf = set buf i 0
store_text i (c ∷ text) buf = store_text (i + 1) text (set buf i c)

module _ (fl : FloatOps) where
  open fl use {Float, decimal, of_nat, neg, sub, mul, flt, trunc}

  -- `(float)n` of an `int`.
  abbrev pub of_int : ℕ → Float
  of_int n = if ltb n (2 ^ 31) then of_nat n else neg (of_nat (2 ^ 32 - n))

  -- The loop over the digits behind the point.
  unfoldable pub frac_digits : ℕ → Float → List ℕ
  frac_digits zero frac_part = []
  frac_digits (suc left) frac_part =
      let moved = mul frac_part (decimal 10 0) in
      let digit = trunc moved in u8 (b'0' + digit) ∷ frac_digits left (sub moved (of_int digit))

  unfoldable pub float_text : Float → ℕ → List ℕ
  unfolding int_text frac_digits
  float_text value precision =
      let below = flt value (decimal 0 0) in
      let val = if below then neg value else value in
      let int_part = trunc val in
      let whole = (if below then b'-' ∷ [] else []) ++ int_text int_part in
      if precision == 0
      then whole
      else whole ++ (b'.' ∷ frac_digits precision (sub val (of_int int_part)))

  unfoldable pub ml_float_to_str : Float → List ℕ → ℕ → List ℕ
  unfolding float_text store_text
  ml_float_to_str val buf precision = store_text 0 (float_text val precision) buf

  -- The loop of `ml_print_vec` over the rest of `x`: `put_char(*buf, 0x07)` shows one character.
  unfoldable pub print_elements : List Float → List (ℕ × ℕ)
  unfolding ml_float_to_str
  print_elements [] = []
  print_elements (x ∷ []) = (get_or (ml_float_to_str x (replicate 16 0) 4) 0 0, 0x07) ∷ []
  print_elements (x ∷ y ∷ xs) =
      (get_or (ml_float_to_str x (replicate 16 0) 4) 0 0, 0x07)
      ∷ (b',', 0x07)
      ∷ (b' ', 0x07)
      ∷ print_elements (y ∷ xs)

  -- The calls of `put_char`: a character and a colour. The name is not shown.
  unfoldable pub ml_print_vec : List Float → List (ℕ × ℕ)
  unfolding print_elements
  ml_print_vec x = (b'[', 0x07) ∷ (print_elements x ++ ((b']', 0x07) ∷ (10, 0x07) ∷ []))
