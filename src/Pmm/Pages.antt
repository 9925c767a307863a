-- ===== src/Pmm/Pages.antt =====
-- kernel/pmm.c: `pmm_set_used`, `pmm_set_free` and `pmm_is_free` page by page.
use prajna_os.Base.{
  ℕ, ◌/◌, ◌%◌, ◌<◌, ◌≡◌, arith, true, false, ◌==◌, if◌then◌else◌, length, length-set, set, get_or,
  get_or-set, get_or-set_self, set-set, set-get_or, ◌∙◌,
}
use prajna_os.Pmm.{Bitmap, bitmap_bytes, total_pages, set_used, set_free, is_free}
use prajna_os.Pmm.Bits.{
  set_bit, reset_bit, bit_clear-set_bit, bit_clear-reset_bit, reset_bit-set_bit,
}

-- The storage of the C array: 16384 bytes.
pub record IsBitmap (m : Bitmap) : Type 0 where
  pub sized : length m ≡ bitmap_bytes
  pub bytes : (i : ℕ) → get_or m i 0 < 256

IsBitmap-set : {m : Bitmap} (i v : ℕ) → v < 256 → IsBitmap m → IsBitmap (set m i v)
IsBitmap-set {m} i v hv w = record {
  sized = length-set m i v ∙ w.sized;
  bytes = λ j. ground (arith, get_or-set m i j v 0, w.bytes j);
}

-- Marking a page used keeps the array's shape.
pub set_used-IsBitmap : {m : Bitmap} (p : ℕ) → IsBitmap m → IsBitmap (set_used m p)
unfolding set_used
set_used-IsBitmap {m} p w = IsBitmap-set (p / 8) _ (omega arith) w

pub set_free-IsBitmap : {m : Bitmap} (p : ℕ) → IsBitmap m → IsBitmap (set_free m p)
unfolding set_free
set_free-IsBitmap {m} p w = IsBitmap-set (p / 8) _ (omega arith) w

module _ {m : Bitmap} (w : IsBitmap m) where
  pub is_free-set_used :
      (p q : ℕ)
      → q < total_pages
      → is_free (set_used m p) q ≡ (if p == q then false else is_free m q)
  unfolding set_used is_free
  is_free-set_used p q hq = ground (
    arith,
    w.sized,
    get_or-set m (p / 8) (q / 8) (set_bit (get_or m (p / 8) 0) (p % 8)) 0,
    bit_clear-set_bit (get_or m (q / 8) 0) (p % 8) (q % 8) (w.bytes (q / 8)) (omega arith)
        (omega arith),
  )

  pub is_free-set_free :
      (p q : ℕ)
      → q < total_pages
      → is_free (set_free m p) q ≡ (if p == q then true else is_free m q)
  unfolding set_free is_free
  is_free-set_free p q hq = ground (
    arith,
    w.sized,
    get_or-set m (p / 8) (q / 8) (reset_bit (get_or m (p / 8) 0) (p % 8)) 0,
    bit_clear-reset_bit (get_or m (q / 8) 0) (p % 8) (q % 8) (w.bytes (q / 8)) (omega arith)
        (omega arith),
  )

  -- Freeing the page that was just marked restores every byte.
  pub set_free-set_used :
      (p : ℕ) → p < total_pages → is_free m p ≡ true → set_free (set_used m p) p ≡ m
  unfolding set_free set_used is_free
  set_free-set_used p hp clear =
      let b : ℕ = get_or m (p / 8) 0 in
      rw
        (
          get_or-set_self m (p / 8) (set_bit b (p % 8)) 0 (omega (arith, w.sized)),
          set-set m (p / 8) (set_bit b (p % 8)) (reset_bit (set_bit b (p % 8)) (p % 8)),
          reset_bit-set_bit b (p % 8) (w.bytes (p / 8)) (omega arith) clear,
        )
        (set-get_or m (p / 8) 0)
