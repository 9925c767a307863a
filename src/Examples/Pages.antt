-- ===== src/Examples/Pages.antt =====
-- The page allocator after boot with the kernel's end at 0x130000.
use prajna_os.Base.{
  ℕ, ◌+◌, ◌*◌, ◌/◌, ◌%◌, ◌≤◌, ◌<◌, ◌≡◌, ◌≢◌, ◌⊎◌, arith, true, false, ◌==◌, if◌then◌else◌, [], ◌∷◌,
  length, replicate, length-replicate,
}
use prajna_os.Pmm.{Bitmap, bitmap_bytes, total_pages, mem_size, page_size, is_free, init, alloc}
use prajna_os.Pmm.Alloc.{Allocated, alloc-Allocated}
use prajna_os.Pmm.Init.{reserved, is_free-init, alloc-init_bounds}
use prajna_os.Pmm.Owners.{Memory, Reach, here, next, take, boot, Agrees, Reach-Agrees, Reach-alloc}

-- The bitmap before `pmm_init`.
pub zeros : Bitmap
zeros = replicate bitmap_bytes 0

pub zeros_sized : length zeros ≡ bitmap_bytes
unfolding zeros
zeros_sized = length-replicate {A = ℕ} bitmap_bytes 0

abbrev pub kernel_end : ℕ
kernel_end = 0x130000

first_page :
    let a = (alloc (init kernel_end zeros)).0 in
    (a ≡ reserved kernel_end * page_size)
    × (0x100000 ≤ a)
    × (kernel_end < a)
    × (a + page_size ≤ mem_size)
first_page = alloc-init_bounds zeros zeros_sized kernel_end (omega arith) (omega arith)

pub granted : (alloc (boot kernel_end zeros).bitmap).0 ≢ 0
granted = omega (arith, first_page.1)

-- After the first allocation.
abbrev one_held : Memory
one_held = record {
  bitmap = (alloc (init kernel_end zeros)).1;
  held = λ q. if (alloc (init kernel_end zeros)).0 / page_size == q then true else false;
}

one_step : Reach (boot kernel_end zeros) one_held
one_step = next here (take granted)

Reach-alloc_example :
    let a = (alloc one_held.bitmap).0 in
    ((a % page_size ≡ 0)
      × (a < mem_size)
      × (reserved kernel_end ≤ a / page_size)
      × (one_held.held (a / page_size) ≡ false))
    ⊎ ((a ≡ 0) × ((q : ℕ) → reserved kernel_end ≤ q → q < total_pages → one_held.held q ≡ true))
Reach-alloc_example = Reach-alloc zeros kernel_end zeros_sized one_step

Reach-Agrees_example : Agrees kernel_end one_held
Reach-Agrees_example = Reach-Agrees zeros kernel_end zeros_sized one_step

alloc-init_bounds_example :
    let a = (alloc (init kernel_end zeros)).0 in
    (a ≡ reserved kernel_end * page_size)
    × (0x100000 ≤ a)
    × (kernel_end < a)
    × (a + page_size ≤ mem_size)
alloc-init_bounds_example =
    alloc-init_bounds zeros zeros_sized kernel_end (omega arith) (omega arith)

page_305_free : is_free (init kernel_end zeros) 305 ≡ true
page_305_free = ground (arith, is_free-init zeros zeros_sized kernel_end 305 (omega arith))

alloc-Allocated_example : Allocated (255 ∷ 1 ∷ []) (alloc (255 ∷ 1 ∷ []))
alloc-Allocated_example = alloc-Allocated (255 ∷ 1 ∷ [])
