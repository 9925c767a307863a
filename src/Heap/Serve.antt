-- ===== src/Heap/Serve.antt =====
-- kernel/heap.c, `kmalloc`: what it returns, and how often it calls itself.
use prajna_os.Base.{
  ℕ, zero, suc, ◌+◌, ◌-◌, ◌≤◌, ◌<◌, ◌≡◌, ◌≢◌, refl, arith, ap, ◌∙◌, List, [], ◌∷◌, ◌++◌, none, some,
  true, false, not, ◌&&◌, ◌==◌, leb, Bool-cases, Option-cases, inl, inr,
}
use prajna_os.Pmm.{alloc, page_size}
use prajna_os.Heap.{Block, Heap, header, fresh, take_block, first_fit, link, kmalloc}
use prajna_os.Heap.Fit.{In, Taken, first_fit-Taken}

-- The heap with one more page.
abbrev pub grown : Heap → Heap
grown h = record { blocks = link h.blocks (fresh (alloc h.bitmap).0); bitmap = (alloc h.bitmap).1 }

k_fit :
    (fuel size : ℕ) (h : Heap) {r : ℕ × List Block}
    → first_fit size h.blocks ≡ some r
    → kmalloc (suc fuel) size h ≡ some (r.0, record h { blocks = r.1 })
unfolding kmalloc
k_fit fuel size h e = rw (kmalloc, e) refl

k_out :
    (fuel size : ℕ) (h : Heap)
    → first_fit size h.blocks ≡ none
    → (alloc h.bitmap).0 ≡ 0
    → kmalloc (suc fuel) size h ≡ some (0, record h { bitmap = (alloc h.bitmap).1 })
unfolding kmalloc
k_out fuel size h e z =
    let t : ((alloc h.bitmap).0 == 0) ≡ true = ground arith in rw (kmalloc, e, t) refl

k_grow :
    (fuel size : ℕ) (h : Heap)
    → first_fit size h.blocks ≡ none
    → (alloc h.bitmap).0 ≢ 0
    → kmalloc (suc fuel) size h ≡ kmalloc fuel size (grown h)
unfolding kmalloc
k_grow fuel size h e n =
    let t : ((alloc h.bitmap).0 == 0) ≡ false = ground arith in rw (kmalloc, e, t) refl

absent : {r : ℕ × List Block} → some r ≡ none → ⊥
absent e = absurd (cc)

first_fit-none_inv :
    (size : ℕ) (b : Block) (bs : List Block)
    → first_fit size (b ∷ bs) ≡ none
    → ((not b.used && leb size b.size) ≡ false) × (first_fit size bs ≡ none)
unfolding first_fit
first_fit-none_inv size b bs h = elim (Bool-cases (not b.used && leb size b.size)) [
  | inl hit ↦ absurd (absent (rw hit at h))
  | inr pass ↦ elim (Option-cases (first_fit size bs)) [
    | inl n ↦ (pass, n)
    | inr (r, s) ↦ absurd (absent (rw (pass, s) at h))
  ]
]

too_small :
    (size : ℕ) (b c : Block)
    → (not b.used && leb size b.size) ≡ false
    → some b ≡ some c
    → c.used ≡ false
    → c.size < size
too_small size b c pass e u =
    let same : b ≡ c = cc in
    let free : b.used ≡ false = rw same u in
    let s : b.size ≡ c.size = ap (λ (x : Block). x.size) same in ground arith

-- A search that fails has seen only used blocks and blocks that are too small.
first_fit-none :
    (size : ℕ) (bs : List Block)
    → first_fit size bs ≡ none
    → (b : Block) → In b bs
    → b.used ≡ false
    → b.size < size
first_fit-none size [] h b (j, e) u = absurd (cc)
first_fit-none size (c ∷ bs) h b (zero, e) u =
    too_small size c b (first_fit-none_inv size c bs h).0 e u
first_fit-none size (c ∷ bs) h b (suc j, e) u =
    first_fit-none size bs (first_fit-none_inv size c bs h).1 b (j, e) u

-- A page at the end of the list fits every request of at most its data size.
first_fit_last :
    (size page : ℕ) (bs : List Block)
    → size ≤ page_size - header
    → (r : ℕ × List Block) × (first_fit size (bs ++ (fresh page ∷ [])) ≡ some r)
unfolding first_fit
first_fit_last size page [] h =
    let fits : leb size (page_size - header) ≡ true = ground arith in
    ((page + header, take_block size (fresh page) []), rw fits refl)
first_fit_last size page (b ∷ bs) h = elim (Bool-cases (not b.used && leb size b.size)) [
  | inl hit ↦ ((b.addr + header, take_block size b (bs ++ (fresh page ∷ []))), rw hit refl)
  | inr pass ↦ let (r, e) = first_fit_last size page bs h in ((r.0, b ∷ r.1), rw (pass, e) refl)
]

-- What a call returns.
pub data Served (size : ℕ) (h : Heap) : ℕ × Heap → Type 0 where
  from_list :
      {r : ℕ × List Block} → Taken size h.blocks r → Served size h (r.0, record h { blocks = r.1 })
  from_page :
      {r : ℕ × List Block}
      → (alloc h.bitmap).0 ≢ 0
      → Taken size (grown h).blocks r
      → Served size h (r.0, record (grown h) { blocks = r.1 })
  no_memory :
      (alloc h.bitmap).0 ≡ 0
      → ((b : Block) → In b h.blocks → b.used ≡ false → b.size < size)
      → Served size h (0, record h { bitmap = (alloc h.bitmap).1 })

grown_fits :
    (size : ℕ) (h : Heap)
    → size ≤ page_size - header
    → h.blocks ≢ []
    → (r : ℕ × List Block) × (first_fit size (grown h).blocks ≡ some r)
grown_fits size h fits ne = go h.blocks ne
  where
    go :
        (bs : List Block)
        → bs ≢ []
        → (r : ℕ × List Block) × (first_fit size (link bs (fresh (alloc h.bitmap).0)) ≡ some r)
    go [] ne = absurd (ne refl)
    go (b ∷ bs) ne = first_fit_last size (alloc h.bitmap).0 (b ∷ bs) fits

-- For a heap with a block and a request of at most 4080 bytes, `kmalloc` ends within two calls: it
-- returns the data of a block that was free and is now used with room for the request, while every
-- block in use stays, in the list or in the list with one more page, or it returns 0 with the list
-- unchanged, and then every free block is too small and `pmm_alloc` has no page.
pub kmalloc-Served :
    (size : ℕ) (h : Heap)
    → size ≤ page_size - header
    → h.blocks ≢ []
    → (r : ℕ × Heap) × (kmalloc 2 size h ≡ some r) × Served size h r
kmalloc-Served size h fits ne = elim (Option-cases (first_fit size h.blocks)) [
  | inr (r, e) ↦ (_, k_fit 1 size h e, from_list (first_fit-Taken size h.blocks e))
  | inl n ↦ elim (Bool-cases ((alloc h.bitmap).0 == 0)) [
    | inl z ↦
        let none_left : (alloc h.bitmap).0 ≡ 0 = ground arith in
        (_, k_out 1 size h n none_left, no_memory none_left (first_fit-none size h.blocks n))
    | inr nz ↦
        let page : (alloc h.bitmap).0 ≢ 0 = ground arith in
        let (r, e) = grown_fits size h fits ne in
        (
          _,
          k_grow 1 size h n page ∙ k_fit 0 size (grown h) e,
          from_page page (first_fit-Taken size (grown h).blocks e),
        )
  ]
]
