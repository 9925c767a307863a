-- ===== src/Heap.antt =====
-- kernel/heap.c and kernel/include/heap.h: the kernel heap. The linked list of blocks is a list in the
-- order of `next`; a block is known by its address. `prev` is never used by the code.
pub mod Fit
pub mod Serve
pub mod Apart
use prajna_os.Base.{
  ℕ, zero, suc, ◌+◌, ◌-◌, ◌*◌, ◌^◌, List, [], ◌∷◌, ◌++◌, Option, none, some, Bool, true, false, not,
  ◌&&◌, ◌==◌, ltb, leb, if◌then◌else◌, u32, sub32,
}
use prajna_os.Pmm.{Bitmap, alloc, page_size}

-- `sizeof(Block)` on 32-bit x86: two 4-byte pointers, a 4-byte size, and `used` with its padding.
abbrev pub header : ℕ
header = 16

pub record Block : Type 0 where
  pub addr : ℕ
  pub size : ℕ
  pub used : Bool

-- `heap_start` and the page allocator below; no blocks is the null pointer.
pub record Heap : Type 0 where
  pub blocks : List Block
  pub bitmap : Bitmap

-- A page as one free block.
abbrev pub fresh : ℕ → Block
fresh page = record { addr = page; size = page_size - header; used = false }

-- The result is 1 where there is no page.
unfoldable pub heap_init : Heap → ℕ × Heap
heap_init h =
    let (page, bitmap) = alloc h.bitmap in
    if page == 0
    then (1, record { blocks = []; bitmap = bitmap })
    else (0, record { blocks = fresh page ∷ []; bitmap = bitmap })

-- A block that fits is used, and split where more than a header and 4 bytes are left.
unfoldable pub take_block : ℕ → Block → List Block → List Block
take_block size b rest =
    if ltb (u32 (size + header + 4)) b.size
    then record { addr = b.addr; size = size; used = true }
      ∷ record { addr = b.addr + header + size; size = b.size - size - header; used = false }
      ∷ rest
    else record b { used = true } ∷ rest

-- `while (current)`: the data address of the first free block that is big enough, and the new list.
unfoldable pub first_fit : ℕ → List Block → Option (ℕ × List Block)
unfolding take_block
first_fit size [] = none
first_fit size (b ∷ bs) =
    let rest = first_fit size bs in
    if not b.used && leb size b.size
    then some (b.addr + header, take_block size b bs)
    else elim rest [ none ↦ none | some r ↦ some (r.0, b ∷ r.1) ]

-- `last->next = new_block`; where there is no block, `last` is null and the new block is lost.
abbrev pub link : List Block → Block → List Block
link [] new = []
link (b ∷ bs) new = (b ∷ bs) ++ (new ∷ [])

-- The data address or 0, and the heap; none where `fuel` calls do not end the recursion.
unfoldable pub kmalloc : ℕ → ℕ → Heap → Option (ℕ × Heap)
unfolding first_fit
kmalloc zero size h = none
kmalloc (suc fuel) size h = elim (first_fit size h.blocks) [
  | some r ↦ some (r.0, record h { blocks = r.1 })
  | none ↦ elim ((alloc h.bitmap).0 == 0) [
    | true ↦ some (0, record h { bitmap = (alloc h.bitmap).1 })
    | false ↦
        kmalloc fuel size (record {
          blocks = link h.blocks (fresh (alloc h.bitmap).0);
          bitmap = (alloc h.bitmap).1;
        })
  ]
]

-- A freed block takes in a free block behind it in the list.
unfoldable pub merge_next : Block → List Block → List Block
merge_next b [] = b ∷ []
merge_next b (n ∷ bs) =
    if n.used then b ∷ n ∷ bs else record b { size = u32 (b.size + (header + n.size)) } ∷ bs

unfoldable pub release : ℕ → List Block → List Block
unfolding merge_next
release addr [] = []
release addr (b ∷ bs) =
    let rest = release addr bs in
    if b.addr == addr then merge_next (record b { used = false }) bs else b ∷ rest

-- Where no block has its data at `ptr`, C writes into memory that is no header; here nothing happens.
unfoldable pub kfree : ℕ → Heap → Heap
unfolding release
kfree ptr h = if ptr == 0 then h else record h { blocks = release (sub32 ptr header) h.blocks }
