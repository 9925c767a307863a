-- ===== src/Base/Bits.antt =====
-- Facts about `&` that the components use.
use Prim.Native.Nat.{ℕ, bit_and, bit_and-bitwise}
use mathlib.Core.Path.{◌≡◌}

pub zero-bit_and : (b : ℕ) → bit_and 0 b ≡ 0
zero-bit_and b = bit_and-bitwise 0 b
