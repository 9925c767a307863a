-- ===== src/Pmm/Scan.antt =====
-- kernel/pmm.c: the two nested loops of `pmm_alloc` that look for a free page.
use prajna_os.Base.{
  ℕ, zero, suc, ◌+◌, ◌*◌, ◌/◌, ◌%◌, ◌≤◌, ◌<◌, ◌≡◌, arith, true, false, ◌==◌, if◌then◌else◌, Option,
  none, some, get_or, Bool-cases, inl, inr, ==_iff,
}
use prajna_os.Pmm.{Bitmap, is_free, scan_bits, scan_bytes}
use prajna_os.Pmm.Bits.{bit_clear-full}

-- No page from `lo` up to `hi` is free.
abbrev pub AllUsed : Bitmap → ℕ → ℕ → Type 0
AllUsed m lo hi = (q : ℕ) → lo ≤ q → q < hi → is_free m q ≡ false

-- What a scan from `lo` up to `hi` finds.
pub data Scanned (m : Bitmap) (lo hi : ℕ) : Option ℕ → Type 0 where
  found : (p : ℕ) → lo ≤ p → p < hi → is_free m p ≡ true → AllUsed m lo p → Scanned m lo hi (some p)
  absent : AllUsed m lo hi → Scanned m lo hi none

-- The first part of a scan found nothing.
Scanned-after :
    {m : Bitmap} {lo mid hi : ℕ} {o : Option ℕ}
    → lo ≤ mid
    → mid ≤ hi
    → AllUsed m lo mid
    → Scanned m mid hi o
    → Scanned m lo hi o
Scanned-after {m} {mid} h k before (found p a b free used) =
    found p (omega arith) b free (λ q c d. grind (arith, before, used))
Scanned-after {m} {mid} h k before (absent used) = absent (λ q c d. grind (arith, before, used))

AllUsed-one : (m : Bitmap) (p : ℕ) → is_free m p ≡ false → AllUsed m p (p + 1)
AllUsed-one m p e q a b = let e' : p ≡ q = omega arith in rw (← e') e

pub scan_bits-Scanned :
    (left : ℕ) (m : Bitmap) (lo hi : ℕ) → lo + left ≡ hi → Scanned m lo hi (scan_bits left m lo)
unfolding scan_bits
scan_bits-Scanned zero m lo hi e = absent (λ q a b. absurd (omega arith))
scan_bits-Scanned (suc left) m lo hi e = elim (Bool-cases (is_free m lo)) [
  | inl free ↦ rw free (found lo (omega arith) (omega arith) free (λ q a b. absurd (omega arith)))
  | inr used ↦ rw used (
      Scanned-after (omega arith) (omega arith) (AllUsed-one m lo used)
        (scan_bits-Scanned left m (lo + 1) hi (omega arith)))
]

-- A byte that is 0xFF holds no free page.
AllUsed-full : (m : Bitmap) (i : ℕ) → get_or m i 0 ≡ 255 → AllUsed m (i * 8) (i * 8 + 8)
unfolding is_free
AllUsed-full m i e q a b =
    let d : q / 8 ≡ i = omega arith in rw (d, e) (bit_clear-full (q % 8) (omega arith))

module _ (m : Bitmap) (i hi : ℕ) (fits : i * 8 + 8 ≤ hi) {rest : Option ℕ}
    (later : Scanned m (i * 8 + 8) hi rest) where
  -- A byte with a free bit ends the scan; else it goes on.
  in_byte :
      {o : Option ℕ}
      → Scanned m (i * 8) (i * 8 + 8) o
      → Scanned m (i * 8) hi (elim o [ some page ↦ some page | none ↦ rest ])
  in_byte (found p a b free used) = found p a (omega arith) free used
  in_byte (absent used) = Scanned-after (omega arith) fits used later

  byte_step : Scanned m (i * 8) hi (
      if get_or m i 0 == 255
      then rest
      else elim (scan_bits 8 m (i * 8)) [ some page ↦ some page | none ↦ rest ])
  byte_step = elim (Bool-cases (get_or m i 0 == 255)) [
    | inl full ↦
        rw full (Scanned-after (omega arith) fits (AllUsed-full m i ((==_iff _ _).0 full)) later)
    | inr part ↦ rw part (in_byte (scan_bits-Scanned 8 m (i * 8) (i * 8 + 8) (omega arith)))
  ]

pub scan_bytes-Scanned :
    (left : ℕ) (m : Bitmap) (i hi : ℕ)
    → i * 8 + left * 8 ≡ hi
    → Scanned m (i * 8) hi (scan_bytes left m i)
unfolding scan_bytes
scan_bytes-Scanned zero m i hi e = absent (λ q a b. absurd (omega arith))
scan_bytes-Scanned (suc left) m i hi e =
    let e' : (i + 1) * 8 ≡ i * 8 + 8 = omega arith in
    byte_step m i hi (omega arith) (rw e' at (scan_bytes-Scanned left m (i + 1) hi (omega arith)))
