-- ===== src/Pmm/Count.antt =====
-- kernel/pmm.c, `pmm_free_pages`: the count against the pages that are free.
use prajna_os.Base.{
  ℕ, zero, suc, ◌+◌, ◌-◌, ◌*◌, ◌/◌, ◌%◌, ◌^◌, ◌≤◌, ◌<◌, ◌≡◌, ◌≢◌, refl, arith, Bool, true, false,
  if◌then◌else◌, Bool-cases, inl, inr, leb,
}
use prajna_os.Pmm.{
  Bitmap, bitmap_bytes, total_pages, mem_size, page_size, set_used, is_free, alloc, free,
  count_bits, count_bytes, free_pages,
}
use Prim.Native.Nat.{max}
use native.Mathlib.Decide.{ℕ_discrete}
use prajna_os.Pmm.Pages.{IsBitmap, is_free-set_used}
use prajna_os.Pmm.Alloc.{Allocated, page, full, alloc-Allocated, is_free-free}

-- The number of true values of `f` on `lo, lo + 1, …, lo + n - 1`.
pub count_if : (ℕ → Bool) → ℕ → ℕ → ℕ
count_if f lo zero = 0
count_if f lo (suc n) = (if f lo then 1 else 0) + count_if f (lo + 1) n

pub count_if-le : (f : ℕ → Bool) (lo n : ℕ) → count_if f lo n ≤ n
unfolding count_if
count_if-le f lo zero = omega arith
count_if-le f lo (suc n) = ground (arith, count_if-le f (lo + 1) n)

pub count_if-add :
    (f : ℕ → Bool) (lo n k : ℕ) → count_if f lo (n + k) ≡ count_if f lo n + count_if f (lo + n) k
unfolding count_if
count_if-add f lo zero k =
    let e : 0 + k ≡ k = omega arith in
    let e' : lo + 0 ≡ lo = omega arith in rw (e, e') (omega arith)
count_if-add f lo (suc n) k =
    let e : suc n + k ≡ suc (n + k) = omega arith in
    let e' : lo + suc n ≡ lo + 1 + n = omega arith in
    rw (e, e') (omega (arith, count_if-add f (lo + 1) n k))

-- Two functions that agree outside one point inside the range.
count_if-eq :
    (f g : ℕ → Bool) (lo n : ℕ)
    → ((q : ℕ) → lo ≤ q → q < lo + n → f q ≡ g q)
    → count_if f lo n ≡ count_if g lo n
unfolding count_if
count_if-eq f g lo zero h = refl
count_if-eq f g lo (suc n) h =
    rw (h lo (omega arith) (omega arith))
      (omega (arith, count_if-eq f g (lo + 1) n (λ q a b. h q (omega arith) (omega arith))))

pub count_if-but_one :
    (f g : ℕ → Bool) (p lo n : ℕ)
    → lo ≤ p
    → p < lo + n
    → f p ≡ true
    → g p ≡ false
    → ((q : ℕ) → lo ≤ q → q < lo + n → p ≢ q → f q ≡ g q)
    → count_if f lo n ≡ count_if g lo n + 1
unfolding count_if
count_if-but_one f g p lo zero a b fp gp h = absurd (omega arith)
count_if-but_one f g p lo (suc n) a b fp gp h = elim (ℕ_discrete p lo) [
  | yes e ↦
      let rest : count_if f (lo + 1) n ≡ count_if g (lo + 1) n =
        count_if-eq f g (lo + 1) n (λ q c d. h q (omega arith) (omega arith) (omega arith)) in
      let rest' : count_if f (p + 1) n ≡ count_if g (p + 1) n = rw (← e) at rest in
      rw (← e, fp, gp) (omega arith)
  | no ne ↦ rw (h lo (omega arith) (omega arith) ne) (
      omega (
        arith,
        count_if-but_one f g p (lo + 1) n (omega arith) (omega arith) fp gp
            (λ q c d. h q (omega arith) (omega arith)),
      ))
]

-- How many numbers of a range reach `r`.
pub count_if-leb :
    (f : ℕ → Bool) (r lo n : ℕ)
    → ((q : ℕ) → lo ≤ q → q < lo + n → f q ≡ leb r q)
    → count_if f lo n ≡ lo + n - max lo r
unfolding count_if
count_if-leb f r lo zero h = omega arith
count_if-leb f r lo (suc n) h =
    let rest = count_if-leb f r (lo + 1) n (λ q a b. h q (omega arith) (omega arith)) in
    ground (arith, rest, h lo (omega arith) (omega arith))

count_bits-count_if :
    (left : ℕ) (m : Bitmap) (pg c : ℕ)
    → c + left < 2 ^ 32
    → count_bits left m pg c ≡ c + count_if (is_free m) pg left
unfolding count_bits count_if
count_bits-count_if zero m pg c h = omega arith
count_bits-count_if (suc left) m pg c h = elim (Bool-cases (is_free m pg)) [
  | inl f ↦
      let e : (c + 1) % 2 ^ 32 ≡ c + 1 = omega arith in
      rw (f, e) (omega (arith, count_bits-count_if left m (pg + 1) (c + 1) (omega arith)))
  | inr u ↦ rw u (omega (arith, count_bits-count_if left m (pg + 1) c (omega arith)))
]

count_bytes-count_if :
    (left : ℕ) (m : Bitmap) (i c : ℕ)
    → c + left * 8 < 2 ^ 32
    → count_bytes left m i c ≡ c + count_if (is_free m) (i * 8) (left * 8)
unfolding count_bytes count_if
count_bytes-count_if zero m i c h = omega arith
count_bytes-count_if (suc left) m i c h =
    let e : suc left * 8 ≡ 8 + left * 8 = omega arith in
    let e' : (i + 1) * 8 ≡ i * 8 + 8 = omega arith in
    let k : ℕ = count_if (is_free m) (i * 8) 8 in
    let small : k ≤ 8 = count_if-le (is_free m) (i * 8) 8 in
    rw (e, count_bits-count_if 8 m (i * 8) c (omega arith))
      (omega (
        arith,
        count_if-add (is_free m) (i * 8) 8 (left * 8),
        rw e' at (count_bytes-count_if left m (i + 1) (c + k) (omega arith)),
      ))

-- `pmm_free_pages` is the number of pages below TOTAL_PAGES that `pmm_is_free` calls free, without
-- wrap-around.
pub free_pages-count_if : (m : Bitmap) → free_pages m ≡ count_if (is_free m) 0 total_pages
unfolding free_pages
free_pages-count_if m = omega (arith, count_bytes-count_if bitmap_bytes m 0 0 (omega arith))

module _ {m : Bitmap} (w : IsBitmap m) where
  one_less :
      {r : ℕ × Bitmap} (q : ℕ)
      → q < total_pages
      → is_free m q ≡ true
      → Allocated m r
      → count_if (is_free m) 0 total_pages ≡ count_if (is_free r.1) 0 total_pages + 1
  one_less q hq f (page p b free used) =
      count_if-but_one (is_free m) (is_free (set_used m p)) p 0 total_pages (omega arith)
        (omega arith) free (ground (arith, is_free-set_used w p p b))
        (λ q c d ne. ground (arith, is_free-set_used w p q d))
  one_less q hq f (full used) = absurd (grind (arith, used q))

  -- A successful allocation takes one page off the count.
  pub free_pages-alloc :
      (q : ℕ) → q < total_pages → is_free m q ≡ true → free_pages m ≡ free_pages (alloc m).1 + 1
  free_pages-alloc q hq f =
      rw (free_pages-count_if m, free_pages-count_if (alloc m).1)
        (one_less q hq f (alloc-Allocated m))

  -- Freeing a used page below the limit adds one to the count.
  pub free_pages-free :
      (a : ℕ)
      → a < mem_size
      → is_free m (a / page_size) ≡ false
      → free_pages (free m a) ≡ free_pages m + 1
  free_pages-free a h u =
      rw (free_pages-count_if m, free_pages-count_if (free m a))
        (count_if-but_one (is_free (free m a)) (is_free m) (a / page_size) 0 total_pages
          (omega arith) (omega arith)
          (ground (arith, is_free-free w a (a / page_size) (omega arith))) u
          (λ q c d ne. ground (arith, is_free-free w a q d)))
