-- ===== src/Heap/Apart.antt =====
-- kernel/heap.c: no byte belongs to two blocks, over `kmalloc` and `kfree`.
use prajna_os.Base.{
  ℕ, ◌+◌, ◌-◌, ◌^◌, ◌≤◌, ◌<◌, ◌≡◌, ◌≢◌, refl, arith, List, [], ◌∷◌, ◌++◌, some, false, ◌==◌,
  Bool-cases, inl, inr, sub32, u32,
}
use prajna_os.Pmm.{alloc, page_size}
use prajna_os.Heap.{Block, Heap, header, fresh, link, kmalloc, merge_next, release, kfree}
use prajna_os.Heap.Fit.{claims, Small}
use prajna_os.Heap.Serve.{Served, from_list, from_page, no_memory, kmalloc-Served}

claims-append : (x : ℕ) (bs cs : List Block) → claims x (bs ++ cs) ≡ claims x bs + claims x cs
claims-append x [] cs = omega arith
claims-append x (b ∷ bs) cs = omega (arith, claims-append x bs cs)

Small-append : (bs : List Block) (c : Block) → c.size < 2 ^ 30 → Small bs → Small (bs ++ (c ∷ []))
Small-append [] c h s = (h, tt)
Small-append (b ∷ bs) c h s = (s.0, Small-append bs c h s.1)

-- The page that `pmm_alloc` would give belongs to no block.
abbrev pub Unclaimed : Heap → Type 0
Unclaimed h =
    (x : ℕ) → (alloc h.bitmap).0 ≤ x → x < (alloc h.bitmap).0 + page_size → claims x h.blocks ≡ 0

Small-link : (bs : List Block) (page : ℕ) → Small bs → Small (link bs (fresh page))
Small-link [] page s = tt
Small-link (b ∷ bs) page s = (s.0, Small-append bs (fresh page) (omega arith) s.1)

claims-link :
    (bs : List Block) (page x : ℕ)
    → (page ≤ x → x < page + page_size → claims x bs ≡ 0)
    → claims x bs ≤ 1
    → claims x (link bs (fresh page)) ≤ 1
claims-link [] page x out one = omega arith
claims-link (b ∷ bs) page x out one =
    ground (arith, claims-append x (b ∷ bs) (fresh page ∷ []), out)

Served-claims :
    (size : ℕ) (h : Heap) {r : ℕ × Heap}
    → Small h.blocks
    → Unclaimed h
    → ((x : ℕ) → claims x h.blocks ≤ 1)
    → Served size h r
    → (x : ℕ) → claims x r.1.blocks ≤ 1
Served-claims size h s out one (from_list t) x = omega (arith, t.bytes s x, one x)
Served-claims size h s out one (from_page n t) x = omega (
  arith,
  t.bytes (Small-link h.blocks (alloc h.bitmap).0 s) x,
  claims-link h.blocks (alloc h.bitmap).0 x (out x) (one x),
)
Served-claims size h s out one (no_memory z few) x = one x

-- For a heap with a block, no block of 2^30 bytes or more, a request of at most 4080 bytes and a
-- next page that belongs to no block: if no byte belongs to two blocks, header or data, then this
-- holds after `kmalloc` too.
pub kmalloc-claims :
    (size : ℕ) (h : Heap) (r : ℕ × Heap)
    → size ≤ page_size - header
    → h.blocks ≢ []
    → Small h.blocks
    → Unclaimed h
    → ((x : ℕ) → claims x h.blocks ≤ 1)
    → kmalloc 2 size h ≡ some r
    → (x : ℕ) → claims x r.1.blocks ≤ 1
kmalloc-claims size h r fits ne s out one e x =
    let (r', e', served) = kmalloc-Served size h fits ne in
    let same : r' ≡ r = cc in rw same at (Served-claims size h s out one served x)

-- A free block at the head of the list begins at `stop`.
abbrev pub Joined : ℕ → List Block → Type 0
Joined stop [] = Unit {0}
Joined stop (n ∷ bs) = n.used ≡ false → n.addr ≡ stop

-- A free block behind the block at `addr` in the list is also behind it in memory.
abbrev pub Adjoining : ℕ → List Block → Type 0
Adjoining addr [] = Unit {0}
Adjoining addr (b ∷ bs) = (b.addr ≡ addr → Joined (b.addr + header + b.size) bs) × Adjoining addr bs

claims-merge_next :
    (b : Block) (bs : List Block) (x : ℕ)
    → Small (b ∷ bs)
    → Joined (b.addr + header + b.size) bs
    → claims x (merge_next b bs) ≡ claims x (b ∷ bs)
unfolding merge_next
claims-merge_next b [] x s a = refl
claims-merge_next b (n ∷ bs) x s a = elim (Bool-cases n.used) [
  | inl used ↦ rw used refl
  | inr free ↦
      let next = a free in
      let sum : u32 (b.size + (16 + n.size)) ≡ b.size + (16 + n.size) = omega (arith, s.0, s.1.0) in
      rw (free, sum) (ground (arith, next))
]

claims-release :
    (addr : ℕ) (bs : List Block) (x : ℕ)
    → Small bs
    → Adjoining addr bs
    → claims x (release addr bs) ≡ claims x bs
unfolding release
claims-release addr [] x s a = refl
claims-release addr (b ∷ bs) x s a = elim (Bool-cases (b.addr == addr)) [
  | inl y ↦
      let e : b.addr ≡ addr = ground arith in
      rw y (claims-merge_next (record b { used = false }) bs x s (a.0 e))
  | inr n ↦ rw n (omega (arith, claims-release addr bs x s.1 a.1))
]

-- With no block of 2^30 bytes or more, and where a free block behind the freed one in the list lies
-- directly behind it in memory, `kfree` leaves every byte with as many blocks as before.
pub kfree-claims :
    (ptr : ℕ) (h : Heap) (x : ℕ)
    → Small h.blocks
    → Adjoining (sub32 ptr header) h.blocks
    → claims x (kfree ptr h).blocks ≡ claims x h.blocks
unfolding kfree
kfree-claims ptr h x s a = elim (Bool-cases (ptr == 0)) [
  | inl z ↦ rw z refl
  | inr nz ↦ rw nz (claims-release (sub32 ptr header) h.blocks x s a)
]
