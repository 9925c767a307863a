-- ===== src/Examples/Fixed.antt =====
-- A `float` for the examples: signed numbers of millionths.
use prajna_os.Base.{
  ℕ, zero, suc, ◌+◌, ◌-◌, ◌*◌, ◌/◌, ◌%◌, ◌^◌, ◌≡◌, refl, arith, Bool, true, false, not, ltb,
  if◌then◌else◌,
}
use prajna_os.Float32.{FloatOps, IsOrdered}

-- `negsuc n` is -(n + 1) millionths.
pub data Fixed : Type 0 where
  pos : ℕ → Fixed
  negsuc : ℕ → Fixed

unfoldable pub neg : Fixed → Fixed
neg (pos zero) = pos zero
neg (pos (suc n)) = negsuc n
neg (negsuc n) = pos (suc n)

unfoldable pub sub_nat : ℕ → ℕ → Fixed
sub_nat m n = if ltb m n then negsuc (n - m - 1) else pos (m - n)

unfoldable pub add : Fixed → Fixed → Fixed
unfolding sub_nat
add (pos a) (pos b) = pos (a + b)
add (pos a) (negsuc b) = sub_nat a (b + 1)
add (negsuc a) (pos b) = sub_nat b (a + 1)
add (negsuc a) (negsuc b) = negsuc (a + b + 1)

-- A binary operation on the magnitudes, and the sign of a product.
unfoldable pub signed : (ℕ → ℕ → ℕ) → Fixed → Fixed → Fixed
unfolding neg
signed f (pos a) (pos b) = pos (f a b)
signed f (pos a) (negsuc b) = neg (pos (f a (b + 1)))
signed f (negsuc a) (pos b) = neg (pos (f (a + 1) b))
signed f (negsuc a) (negsuc b) = pos (f (a + 1) (b + 1))

unfoldable pub truncate : Fixed → ℕ
truncate (pos n) = n / 10 ^ 6 % 2 ^ 32
truncate (negsuc n) = (2 ^ 32 - (n + 1) / 10 ^ 6 % 2 ^ 32) % 2 ^ 32

unfoldable pub less : Fixed → Fixed → Bool
less (pos a) (pos b) = ltb a b
less (pos a) (negsuc b) = false
less (negsuc a) (pos b) = true
less (negsuc a) (negsuc b) = ltb b a

abbrev pub fixed : FloatOps
fixed = record {
  Float = Fixed;
  decimal = λ m k. pos (m * 10 ^ 6 / 10 ^ k);
  of_nat = λ n. pos (n * 10 ^ 6);
  of_bits = pos;
  trunc = truncate;
  neg = neg;
  add = add;
  sub = λ x y. add x (neg y);
  mul = signed (λ a b. a * b / 10 ^ 6);
  div = signed (λ a b. a * 10 ^ 6 / b);
  flt = less;
  fle = λ x y. not (less y x);
}

pub fixed-IsOrdered : IsOrdered fixed
unfolding less
fixed-IsOrdered = record {
  irrefl = irreflexive;
  one_zero = refl;
  half_zero = refl;
  one_half = refl;
}
  where
    irreflexive : (x : Fixed) → less x x ≡ false
    irreflexive (pos a) = ground arith
    irreflexive (negsuc a) = ground arith
