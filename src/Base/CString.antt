-- ===== src/Base/CString.antt =====
-- C strings in arrays of bytes: what stands before the first NUL.
use Prim.Native.Nat.{ℕ, zero, suc, ◌<◌}
use mathlib.Core.Path.{◌≡◌, refl, ap}
use mathlib.Core.Logic.{◌≢◌, inl, inr}
use mathlib.Core.List.{List, [], ◌∷◌}
use native.Mathlib.Omega.{arith}
use prajna_os.Base.Tests.{◌==◌, if◌then◌else◌, Bool-cases}
use prajna_os.Base.Lists.{length, get_or, set, take}

abbrev pub c_string : List ℕ → List ℕ
c_string [] = []
c_string (c ∷ cs) = if c == 0 then [] else c ∷ c_string cs

-- No NUL among the characters.
abbrev pub NoNul : List ℕ → Type 0
NoNul [] = Unit {0}
NoNul (c ∷ cs) = (c ≢ 0) × NoNul cs

pub NoNul-c_string : (s : List ℕ) → NoNul (c_string s)
NoNul-c_string [] = tt
NoNul-c_string (c ∷ cs) = ground (arith, NoNul-c_string cs)

-- A NUL stored behind `n` characters ends the string there.
pub c_string-set :
    (s : List ℕ) (n : ℕ)
    → n < length s
    → ((i : ℕ) → i < n → get_or s i 0 ≢ 0)
    → c_string (set s n 0) ≡ take n s
c_string-set [] n h nz = absurd (omega arith)
c_string-set (c ∷ cs) zero h nz = refl
c_string-set (c ∷ cs) (suc n) h nz = elim (Bool-cases (c == 0)) [
  | inl z ↦ absurd (ground (arith, nz 0 (omega arith)))
  | inr p ↦ rw p (ap (◌∷◌ c) (c_string-set cs n (omega arith) (λ i q. nz (suc i) (omega arith))))
]

pub c_string_idem : (s : List ℕ) → NoNul s → c_string s ≡ s
c_string_idem [] h = refl
c_string_idem (c ∷ cs) h = ground (arith, c_string_idem cs h.1)
