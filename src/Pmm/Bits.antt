-- ===== src/Pmm/Bits.antt =====
-- One byte of the bitmap: what `|=`, `&= ~` and `&` with a single bit do to each of its bits.
use prajna_os.Base.{
  ℕ, ◌*◌, ◌^◌, ◌<◌, ◌≡◌, refl, arith, Bool, true, false, not, ◌||◌, bit_and, bit_or, ◌==◌,
  if◌then◌else◌, passes, passes_at, u8, not32,
}

-- Bit `k` of byte `b` is 0.
abbrev pub bit_clear : ℕ → ℕ → Bool
bit_clear b k = bit_and b (1 * 2 ^ k) == 0

abbrev pub set_bit : ℕ → ℕ → ℕ
set_bit b k = u8 (bit_or b (1 * 2 ^ k))

abbrev pub reset_bit : ℕ → ℕ → ℕ
reset_bit b k = u8 (bit_and b (not32 (1 * 2 ^ k)))

abbrev same : Bool → Bool → Bool
same true b = b
same false b = not b

same_sound : (a b : Bool) → same a b ≡ true → a ≡ b
same_sound a b h = ground arith

-- A test of a byte and two bit numbers, at all their values.
abbrev EveryByte : (ℕ → ℕ → ℕ → Bool) → Type 0
EveryByte p = passes (λ b. passes (λ k. passes (p b k) 8) 8) 256 ≡ true

table_sound :
    (p : ℕ → ℕ → ℕ → Bool) → EveryByte p → (b k j : ℕ) → b < 256 → k < 8 → j < 8 → p b k j ≡ true
table_sound p t b k j hb hk hj = passes_at (p b k) 8 hj (
    passes_at (λ k. passes (p b k) 8) 8 hk
      (passes_at (λ b. passes (λ k. passes (p b k) 8) 8) 256 hb t))

set_table :
    EveryByte (λ b k j. same (bit_clear (set_bit b k) j) (if k == j then false else bit_clear b j))
unfolding passes
set_table = refl

reset_table :
    EveryByte (λ b k j. same (bit_clear (reset_bit b k) j) (if k == j then true else bit_clear b j))
unfolding passes
reset_table = refl

undo_table : EveryByte (λ b k j. not (bit_clear b k) || (reset_bit (set_bit b k) k == b))
unfolding passes
undo_table = refl

full_table : EveryByte (λ b k j. not (b == 255) || not (bit_clear b k))
unfolding passes
full_table = refl

pub bit_clear-set_bit :
    (b k j : ℕ)
    → b < 256
    → k < 8
    → j < 8
    → bit_clear (set_bit b k) j ≡ (if k == j then false else bit_clear b j)
bit_clear-set_bit b k j hb hk hj = same_sound _ _ (table_sound _ set_table b k j hb hk hj)

pub bit_clear-reset_bit :
    (b k j : ℕ)
    → b < 256
    → k < 8
    → j < 8
    → bit_clear (reset_bit b k) j ≡ (if k == j then true else bit_clear b j)
bit_clear-reset_bit b k j hb hk hj = same_sound _ _ (table_sound _ reset_table b k j hb hk hj)

pub reset_bit-set_bit :
    (b k : ℕ) → b < 256 → k < 8 → bit_clear b k ≡ true → reset_bit (set_bit b k) k ≡ b
reset_bit-set_bit b k hb hk clear =
    ground (arith, table_sound _ undo_table b k 0 hb hk (omega arith))

-- In the byte 0xFF no bit is 0.
pub bit_clear-full : (k : ℕ) → k < 8 → bit_clear 255 k ≡ false
bit_clear-full k hk =
    ground (arith, table_sound _ full_table 255 k 0 (omega arith) hk (omega arith))
