-- ===== src/Pmm/Owners.antt =====
-- The allocator against the set of pages that are out: any sequence of `pmm_alloc` and `pmm_free`
-- after `pmm_init`, where only what was handed out is given back.
use prajna_os.Base.{
  ℕ, ◌*◌, ◌/◌, ◌%◌, ◌≤◌, ◌<◌, ◌≡◌, ◌≢◌, refl, arith, Bool, true, false, ◌==◌, if◌then◌else◌, inl,
  inr, leb, length, not, ◌&&◌, ◌⊎◌,
}
use native.Mathlib.Decide.{ℕ_discrete}
use prajna_os.Pmm.{
  Bitmap, bitmap_bytes, total_pages, mem_size, page_size, is_free, init, alloc, free,
}
use prajna_os.Pmm.Pages.{IsBitmap}
use prajna_os.Pmm.Alloc.{
  Allocated, page, full, alloc-Allocated, alloc-IsBitmap, free-IsBitmap, is_free-alloc,
  is_free-free,
}
use prajna_os.Pmm.Init.{reserved, init-IsBitmap, is_free-init}

-- The bitmap, and which pages clients hold.
pub record Memory : Type 0 where
  pub bitmap : Bitmap
  pub held : ℕ → Bool

pub data Step (s : Memory) : Memory → Type 0 where
  take :
      (alloc s.bitmap).0 ≢ 0
      → Step s (record {
        bitmap = (alloc s.bitmap).1;
        held = λ q. if (alloc s.bitmap).0 / page_size == q then true else s.held q;
      })
  refuse : (alloc s.bitmap).0 ≡ 0 → Step s (record { bitmap = (alloc s.bitmap).1; held = s.held })
  give :
      (a : ℕ)
      → s.held (a / page_size) ≡ true
      → Step s (record {
        bitmap = free s.bitmap a;
        held = λ q. if a / page_size == q then false else s.held q;
      })

pub data Reach (s : Memory) : Memory → Type 0 where
  here : Reach s s
  next : {t u : Memory} → Reach s t → Step t u → Reach s u

-- The state that `pmm_init` leaves: nobody holds a page.
abbrev pub boot : ℕ → Bitmap → Memory
boot k m = record { bitmap = init k m; held = λ q. false }

-- The bitmap says free for a page exactly when it is not reserved and nobody holds it.
pub record Agrees (k : ℕ) (s : Memory) : Type 0 where
  pub shape : IsBitmap s.bitmap
  pub exact : (q : ℕ) → q < total_pages → is_free s.bitmap q ≡ leb (reserved k) q && not (s.held q)
  pub client : (q : ℕ) → s.held q ≡ true → reserved k ≤ q

-- A non-zero result names a page that was free, and is its exact address.
pub alloc-granted :
    (k : ℕ) {s : Memory}
    → Agrees k s
    → (alloc s.bitmap).0 ≢ 0
    → let a = (alloc s.bitmap).0 in
      (a % page_size ≡ 0)
      × (a < mem_size)
      × (reserved k ≤ a / page_size)
      × (s.held (a / page_size) ≡ false)
alloc-granted k {s} g ne = go (alloc-Allocated s.bitmap) ne
  where
    go :
        {r : ℕ × Bitmap}
        → Allocated s.bitmap r
        → r.0 ≢ 0
        → (r.0 % page_size ≡ 0)
          × (r.0 < mem_size)
          × (reserved k ≤ r.0 / page_size)
          × (s.held (r.0 / page_size) ≡ false)
    go (page p b fr used) nz =
        let e : p * page_size / page_size ≡ p = omega arith in
        let x = g.exact p b in
        (omega arith, omega arith, rw e (ground (arith, x, fr)), rw e (ground (arith, x, fr)))
    go (full used) nz = absurd (nz refl)

-- Zero means that clients hold every page that is not reserved, and the bitmap is unchanged.
pub alloc-refused :
    (k : ℕ) {s : Memory}
    → Agrees k s
    → (alloc s.bitmap).0 ≡ 0
    → ((alloc s.bitmap).1 ≡ s.bitmap)
      × ((q : ℕ) → reserved k ≤ q → q < total_pages → s.held q ≡ true)
alloc-refused k {s} g e = go (alloc-Allocated s.bitmap) e
  where
    go :
        {r : ℕ × Bitmap}
        → Allocated s.bitmap r
        → r.0 ≡ 0
        → (r.1 ≡ s.bitmap) × ((q : ℕ) → reserved k ≤ q → q < total_pages → s.held q ≡ true)
    go (page p b fr used) z = absurd (ground (arith, g.exact p b))
    go (full used) z = (refl, λ q a b. ground (arith, used q, g.exact q b))

Step-Agrees : (k : ℕ) {s t : Memory} → Agrees k s → Step s t → Agrees k t
Step-Agrees k {s} g (take ne) =
    let got = alloc-granted k g ne in
    record {
      shape = alloc-IsBitmap g.shape;
      exact = λ q h. ground (arith, is_free-alloc g.shape q h, g.exact q h);
      client = λ q h. ground (arith, g.client q, got);
    }
Step-Agrees k {s} g (refuse e) = record {
  shape = alloc-IsBitmap g.shape;
  exact = λ q h. rw ((alloc-refused k g e).0) (g.exact q h);
  client = g.client;
}
Step-Agrees k {s} g (give a o) = record {
  shape = free-IsBitmap a g.shape;
  exact =
      λ q h. ground (arith, is_free-free g.shape a q h, g.exact q h, g.client (a / page_size) o);
  client = λ q h. ground (arith, g.client q);
}

boot-Agrees : (m : Bitmap) → length m ≡ bitmap_bytes → (k : ℕ) → Agrees k (boot k m)
boot-Agrees m sized k = record {
  shape = init-IsBitmap m sized k;
  exact = λ q h. ground (arith, is_free-init m sized k q h);
  client = λ q h. absurd (cc);
}

-- For a bitmap array of 16384 bytes and any kernel end, after `pmm_init` and any sequence of
-- `pmm_alloc` and of `pmm_free` of held pages, a page below the limit is free in the bitmap exactly
-- when it is not reserved and nobody holds it, and no reserved page is held.
pub Reach-Agrees :
    (m : Bitmap) (k : ℕ) → length m ≡ bitmap_bytes → {s : Memory} → Reach (boot k m) s → Agrees k s
Reach-Agrees m k sized here = boot-Agrees m sized k
Reach-Agrees m k sized (next r st) = Step-Agrees k (Reach-Agrees m k sized r) st

-- For a bitmap array of 16384 bytes and any kernel end, after `pmm_init` and any sequence of
-- `pmm_alloc` and of `pmm_free` of held pages: `pmm_alloc` either returns the page-aligned address
-- of a page that nobody holds, behind the reserved pages and inside the managed memory, or returns
-- 0, and then every page that is not reserved is held.
pub Reach-alloc :
    (m : Bitmap) (k : ℕ)
    → length m ≡ bitmap_bytes
    → {s : Memory} → Reach (boot k m) s
    → let a = (alloc s.bitmap).0 in
      ((a % page_size ≡ 0)
        × (a < mem_size)
        × (reserved k ≤ a / page_size)
        × (s.held (a / page_size) ≡ false))
      ⊎ ((a ≡ 0) × ((q : ℕ) → reserved k ≤ q → q < total_pages → s.held q ≡ true))
Reach-alloc m k sized {s} r = elim (ℕ_discrete (alloc s.bitmap).0 0) [
  | yes e ↦ inr (e, (alloc-refused k (Reach-Agrees m k sized r) e).1)
  | no ne ↦ inl (alloc-granted k (Reach-Agrees m k sized r) ne)
]
