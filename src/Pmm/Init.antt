-- ===== src/Pmm/Init.antt =====
-- kernel/pmm.c, `pmm_init`: the pages that are free after boot, and the first allocation.
use prajna_os.Base.{
  ℕ, zero, suc, ◌+◌, ◌-◌, ◌*◌, ◌/◌, ◌≤◌, ◌<◌, ◌≡◌, ◌≢◌, ◌==◌, if◌then◌else◌, refl, arith, true,
  false, ◌∙◌, ltb, leb, length, get_or, set, get_or-set, get_or-past, zero-bit_and, length-set,
  ◌&&◌,
}
use Prim.Native.Nat.{max}
use prajna_os.Pmm.{
  set_used, Bitmap, bitmap_bytes, total_pages, mem_size, page_size, page_bit, kernel_pages, is_free,
  use_from, clear_from, init, alloc, free_pages,
}
use prajna_os.Pmm.Pages.{IsBitmap, set_used-IsBitmap, is_free-set_used}
use prajna_os.Pmm.Alloc.{Allocated, page, full, alloc-Allocated}
use prajna_os.Pmm.Count.{count_if-leb, free_pages-count_if}

length-clear_from : (left i : ℕ) (m : Bitmap) → length (clear_from left i m) ≡ length m
unfolding clear_from
length-clear_from zero i m = refl
length-clear_from (suc left) i m = length-clear_from left (i + 1) (set m i 0) ∙ length-set m i 0

get_or-clear_from :
    (left i j : ℕ) (m : Bitmap)
    → get_or (clear_from left i m) j 0 ≡ (if leb i j && ltb j (i + left) then 0 else get_or m j 0)
unfolding clear_from
get_or-clear_from zero i j m = ground arith
get_or-clear_from (suc left) i j m =
    ground
      (arith, get_or-clear_from left (i + 1) j (set m i 0), get_or-set m i j 0 0, get_or-past m j 0)

module _ (m : Bitmap) (sized : length m ≡ bitmap_bytes) where
  cleared_zero : (j : ℕ) → get_or (clear_from bitmap_bytes 0 m) j 0 ≡ 0
  cleared_zero j = ground (arith, get_or-clear_from bitmap_bytes 0 j m, get_or-past m j 0)

  cleared-IsBitmap : IsBitmap (clear_from bitmap_bytes 0 m)
  cleared-IsBitmap = record {
    sized = length-clear_from bitmap_bytes 0 m ∙ sized;
    bytes = λ j. omega (arith, cleared_zero j);
  }

  cleared-free : (q : ℕ) → is_free (clear_from bitmap_bytes 0 m) q ≡ true
  unfolding is_free
  cleared-free q = rw (cleared_zero (q / 8), zero-bit_and (page_bit q))

use_from-IsBitmap : (left i : ℕ) {m : Bitmap} → IsBitmap m → IsBitmap (use_from left i m)
unfolding use_from
use_from-IsBitmap zero i w = w
use_from-IsBitmap (suc left) i w = use_from-IsBitmap left (i + 1) (set_used-IsBitmap i w)

is_free-use_from :
    (left i q : ℕ) {m : Bitmap}
    → IsBitmap m
    → q < total_pages
    → is_free (use_from left i m) q ≡ (if leb i q && ltb q (i + left) then false else is_free m q)
unfolding use_from
is_free-use_from zero i q w h = ground arith
is_free-use_from (suc left) i q w h =
    ground
      (arith, is_free-use_from left (i + 1) q (set_used-IsBitmap i w) h, is_free-set_used w i q h)

-- The number of pages that `pmm_init` reserves.
abbrev pub reserved : ℕ → ℕ
reserved kernel_end_addr = max 256 (kernel_pages kernel_end_addr)

module _ (m : Bitmap) (sized : length m ≡ bitmap_bytes) (k : ℕ) where
  -- `pmm_init` leaves a proper bitmap.
  pub init-IsBitmap : IsBitmap (init k m)
  unfolding init
  init-IsBitmap =
      use_from-IsBitmap (kernel_pages k) 0 (use_from-IsBitmap 256 0 (cleared-IsBitmap m sized))

  -- For a bitmap array of 16384 bytes with any contents, after `pmm_init` a page below TOTAL_PAGES
  -- is free exactly when it is behind the first megabyte and the kernel.
  pub is_free-init : (q : ℕ) → q < total_pages → is_free (init k m) q ≡ leb (reserved k) q
  unfolding init
  is_free-init q h = ground (
    arith,
    is_free-use_from (kernel_pages k) 0 q (use_from-IsBitmap 256 0 (cleared-IsBitmap m sized)) h,
    is_free-use_from 256 0 q (cleared-IsBitmap m sized) h,
    cleared-free m sized q,
  )

  first_address :
      {r : ℕ × Bitmap}
      → reserved k < total_pages
      → Allocated (init k m) r
      → r.0 ≡ reserved k * page_size
  first_address small (page p b free used) =
      ground
        (arith, is_free-init p b, used (reserved k) (omega arith), is_free-init (reserved k) small)
  first_address small (full used) =
      absurd
        (ground (arith, used (reserved k) (omega arith) small, is_free-init (reserved k) small))

  -- For a bitmap array of 16384 bytes, if the kernel ends inside the managed memory and leaves a
  -- page, the first `pmm_alloc` after `pmm_init` returns the page behind the reserved ones, which
  -- begins at or above the first megabyte and above the kernel's end, and lies inside the memory.
  pub alloc-init_bounds :
      k < mem_size
      → reserved k < total_pages
      → let a = (alloc (init k m)).0 in
        (a ≡ reserved k * page_size) × (0x100000 ≤ a) × (k < a) × (a + page_size ≤ mem_size)
  alloc-init_bounds below small =
      let e = first_address small (alloc-Allocated (init k m)) in
      (e, omega arith, omega arith, omega arith)

  -- After `pmm_init` the count of free pages is what the reservation leaves.
  pub free_pages-init : reserved k ≤ total_pages → free_pages (init k m) ≡ total_pages - reserved k
  free_pages-init h = omega (
    arith,
    free_pages-count_if (init k m),
    count_if-leb (is_free (init k m)) (reserved k) 0 total_pages (λ q a b. is_free-init q b),
  )

  -- The second allocation still finds a page behind the first megabyte.
  pub alloc_twice-init : reserved k + 2 ≤ total_pages → (alloc (alloc (init k m)).1).0 ≢ 0
  alloc_twice-init room =
      second (first_address (omega arith) (alloc-Allocated (init k m))) (alloc-Allocated (init k m))
        (alloc-Allocated (alloc (init k m)).1)
    where
      taken :
          (p q : ℕ)
          → q < total_pages
          → is_free (set_used (init k m) p) q ≡ (if p == q then false else leb (reserved k) q)
      taken p q h = ground (arith, is_free-set_used init-IsBitmap p q h, is_free-init q h)

      second :
          {r r' : ℕ × Bitmap}
          → r.0 ≡ reserved k * page_size
          → Allocated (init k m) r
          → Allocated r.1 r'
          → r'.0 ≢ 0
      second e (page p b f u) (page p' b' f' u') z = ground (arith, taken p p' b')
      second e (page p b f u) (full u') z = ground (
        arith,
        taken p (reserved k + 1) (omega arith),
        u' (reserved k + 1) (omega arith) (omega arith),
      )
      second e (full u) a z = omega arith
