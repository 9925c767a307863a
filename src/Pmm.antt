-- ===== src/Pmm.antt =====
-- kernel/pmm.c and kernel/include/pmm.h: the physical page allocator over a bitmap.
-- The bitmap is the list of the bytes of `bitmap[TOTAL_PAGES / 8]`. An access past its end, which C
-- leaves undefined, reads 0 and writes nothing here; theorems speak of pages below `total_pages`.
pub mod Bits
pub mod Pages
pub mod Scan
pub mod Alloc
pub mod Count
pub mod Init
pub mod Owners
use prajna_os.Base.{
  ℕ, zero, suc, ◌+◌, ◌*◌, ◌/◌, ◌%◌, List, Option, none, some, Bool, true, false, not, bit_and,
  bit_or, ◌==◌, if◌then◌else◌, get_or, set, replicate, u8, u32, not32, ◌<<<◌,
}

abbrev pub page_size : ℕ
page_size = 4096

abbrev pub mem_size : ℕ
mem_size = 512 * 1024 * 1024

abbrev pub total_pages : ℕ
total_pages = mem_size / page_size

abbrev pub bitmap_bytes : ℕ
bitmap_bytes = total_pages / 8

abbrev pub Bitmap : Type 0
Bitmap = List ℕ

-- `1 << (page % 8)`
abbrev pub page_bit : ℕ → ℕ
page_bit page = 1 <<< (page % 8)

pub set_used : Bitmap → ℕ → Bitmap
set_used m page = set m (page / 8) (u8 (bit_or (get_or m (page / 8) 0) (page_bit page)))

pub set_free : Bitmap → ℕ → Bitmap
set_free m page = set m (page / 8) (u8 (bit_and (get_or m (page / 8) 0) (not32 (page_bit page))))

pub is_free : Bitmap → ℕ → Bool
is_free m page = bit_and (get_or m (page / 8) 0) (page_bit page) == 0

-- `for (; i < n; i++) pmm_set_used(i);` with `left = n - i` rounds.
pub use_from : ℕ → ℕ → Bitmap → Bitmap
use_from zero i m = m
use_from (suc left) i m = use_from left (i + 1) (set_used m i)

-- Step 1 of `pmm_init`, `for (; i < TOTAL_PAGES / 8; i++) bitmap[i] = 0;`.
pub clear_from : ℕ → ℕ → Bitmap → Bitmap
clear_from zero i m = m
clear_from (suc left) i m = clear_from left (i + 1) (set m i 0)

-- The pages that step 3 of `pmm_init` marks.
abbrev pub kernel_pages : ℕ → ℕ
kernel_pages kernel_end_addr = u32 (kernel_end_addr / page_size + 1)

pub init : ℕ → Bitmap → Bitmap
init kernel_end_addr m =
    use_from (kernel_pages kernel_end_addr) 0 (use_from 256 0 (clear_from bitmap_bytes 0 m))

-- The inner loop of `pmm_alloc`, from one bit of a byte on: the first free page.
pub scan_bits : ℕ → Bitmap → ℕ → Option ℕ
scan_bits zero m page = none
scan_bits (suc left) m page =
    let rest = scan_bits left m (page + 1) in if is_free m page then some page else rest

-- The outer loop, from byte `i` on.
pub scan_bytes : ℕ → Bitmap → ℕ → Option ℕ
scan_bytes zero m i = none
scan_bytes (suc left) m i =
    let rest = scan_bytes left m (i + 1) in
    if get_or m i 0 == 0xFF
    then rest
    else elim (scan_bits 8 m (i * 8)) [ some page ↦ some page | none ↦ rest ]

-- The address is 0 when no page is free.
pub alloc : Bitmap → ℕ × Bitmap
alloc m = elim (scan_bytes bitmap_bytes m 0) [
  | some page ↦ (u32 (page * page_size), set_used m page)
  | none ↦ (0, m)
]

pub free : Bitmap → ℕ → Bitmap
free m addr = set_free m (addr / page_size)

-- The inner loop of `pmm_free_pages`.
pub count_bits : ℕ → Bitmap → ℕ → ℕ → ℕ
count_bits zero m page count = count
count_bits (suc left) m page count =
    count_bits left m (page + 1) (if is_free m page then u32 (count + 1) else count)

pub count_bytes : ℕ → Bitmap → ℕ → ℕ → ℕ
count_bytes zero m i count = count
count_bytes (suc left) m i count = count_bytes left m (i + 1) (count_bits 8 m (i * 8) count)

pub free_pages : Bitmap → ℕ
free_pages m = count_bytes bitmap_bytes m 0 0
