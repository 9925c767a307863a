-- ===== src/Pmm/Alloc.antt =====
-- kernel/pmm.c: `pmm_alloc` and `pmm_free`.
use prajna_os.Base.{
  ℕ, ◌*◌, ◌/◌, ◌%◌, ◌^◌, ◌<◌, ◌≡◌, refl, arith, true, false, ◌==◌, if◌then◌else◌, Option, none,
  some,
}
use prajna_os.Pmm.{
  Bitmap, bitmap_bytes, total_pages, page_size, set_used, set_free, is_free, alloc, free,
}
use prajna_os.Pmm.Pages.{
  IsBitmap, set_used-IsBitmap, set_free-IsBitmap, is_free-set_used, is_free-set_free,
  set_free-set_used,
}
use prajna_os.Pmm.Scan.{AllUsed, Scanned, found, absent, scan_bytes-Scanned}

-- The two outcomes of `pmm_alloc`: the lowest free page is handed out and marked, or no page is
-- free and nothing changes.
pub data Allocated (m : Bitmap) : ℕ × Bitmap → Type 0 where
  page :
      (p : ℕ)
      → p < total_pages
      → is_free m p ≡ true
      → AllUsed m 0 p
      → Allocated m (p * page_size, set_used m p)
  full : AllUsed m 0 total_pages → Allocated m (0, m)

of_scan :
    {m : Bitmap} {o : Option ℕ}
    → Scanned m 0 total_pages o
    → Allocated m (elim o [ some p ↦ (p * page_size % 2 ^ 32, set_used m p) | none ↦ (0, m) ])
of_scan {m} (found p a b free used) =
    let fits : p * page_size % 2 ^ 32 ≡ p * page_size = omega arith in rw fits (page p b free used)
of_scan (absent used) = full used

-- `pmm_alloc` hands out the address of the lowest free page, which fits 32 bits, and marks that
-- page; if no page is free it returns 0 and changes nothing.
pub alloc-Allocated : (m : Bitmap) → Allocated m (alloc m)
unfolding alloc
alloc-Allocated m = of_scan (scan_bytes-Scanned bitmap_bytes m 0 total_pages refl)

pub alloc-IsBitmap : {m : Bitmap} → IsBitmap m → IsBitmap (alloc m).1
alloc-IsBitmap {m} w = go (alloc-Allocated m)
  where
    go : {r : ℕ × Bitmap} → Allocated m r → IsBitmap r.1
    go (page p b free used) = set_used-IsBitmap p w
    go (full used) = w

pub free-IsBitmap : {m : Bitmap} (a : ℕ) → IsBitmap m → IsBitmap (free m a)
unfolding free
free-IsBitmap a w = set_free-IsBitmap (a / page_size) w

module _ {m : Bitmap} (w : IsBitmap m) where
  restored :
      {r : ℕ × Bitmap} (q : ℕ)
      → q < total_pages
      → is_free m q ≡ true
      → Allocated m r
      → set_free r.1 (r.0 / page_size) ≡ m
  restored q hq f (page p b free used) =
      let e : p * page_size / page_size ≡ p = omega arith in rw e (set_free-set_used w p b free)
  restored q hq f (full used) = absurd (grind (arith, used q))

  -- For a bitmap of 16384 bytes with some free page, `pmm_free` of what `pmm_alloc` returned gives
  -- the bitmap back, byte for byte.
  pub free-alloc : (q : ℕ) → q < total_pages → is_free m q ≡ true → free (alloc m).1 (alloc m).0 ≡ m
  unfolding free
  free-alloc q hq f = restored q hq f (alloc-Allocated m)

  effect :
      {r : ℕ × Bitmap} (q : ℕ)
      → q < total_pages
      → Allocated m r
      → is_free r.1 q ≡ (if r.0 / page_size == q then false else is_free m q)
  effect q hq (page p b free used) =
      let e : p * page_size / page_size ≡ p = omega arith in rw e (is_free-set_used w p q hq)
  effect q hq (full used) = ground (arith, used q)

  -- After `pmm_alloc` the page of the returned address is used, and every other page is as before.
  pub is_free-alloc :
      (q : ℕ)
      → q < total_pages
      → is_free (alloc m).1 q ≡ (if (alloc m).0 / page_size == q then false else is_free m q)
  is_free-alloc q hq = effect q hq (alloc-Allocated m)

  -- `pmm_free` of any address frees the page that holds it, and no other.
  pub is_free-free :
      (a q : ℕ)
      → q < total_pages
      → is_free (free m a) q ≡ (if a / page_size == q then true else is_free m q)
  unfolding free
  is_free-free a q hq = is_free-set_free w (a / page_size) q hq
