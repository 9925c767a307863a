-- ===== src/Examples/Blocks.antt =====
-- The heap with one page.
use prajna_os.Base.{ℕ, ◌≤◌, ◌≡◌, refl, arith, [], ◌∷◌, some, true, false}
use prajna_os.Pmm.{init}
use prajna_os.Pmm.Init.{alloc-init_bounds}
use prajna_os.Heap.{Heap, kmalloc, kfree}
use prajna_os.Heap.Fit.{claims}
use prajna_os.Heap.Serve.{Served, kmalloc-Served}
use prajna_os.Heap.Apart.{Unclaimed, kmalloc-claims, kfree-claims}
use prajna_os.Examples.Pages.{zeros, zeros_sized, kernel_end}

-- The heap's page lies before the ones that the bitmap has free.
abbrev heap : Heap
heap = record {
  blocks =
      record { addr = 0x1000; size = 32; used = true }
      ∷ record { addr = 0x1030; size = 4032; used = false }
      ∷ [];
  bitmap = init kernel_end zeros;
}

kmalloc-Served_example : (r : ℕ × Heap) × (kmalloc 2 64 heap ≡ some r) × Served 64 heap r
kmalloc-Served_example = kmalloc-Served 64 heap (omega arith) (λ e. absurd (cc))

unclaimed : Unclaimed heap
unclaimed x lo hi =
    ground (arith, alloc-init_bounds zeros zeros_sized kernel_end (omega arith) (omega arith))

one_owner : (x : ℕ) → claims x heap.blocks ≤ 1
one_owner x = ground arith

abbrev after : Heap
after = record heap {
  blocks =
      record { addr = 0x1000; size = 32; used = true }
      ∷ record { addr = 0x1030; size = 64; used = true }
      ∷ record { addr = 0x1080; size = 3952; used = false }
      ∷ [];
}

served : kmalloc 2 64 heap ≡ some (0x1040, after)
unfolding kmalloc
served = refl

kmalloc-claims_example : claims 0x1080 after.blocks ≤ 1
kmalloc-claims_example =
    kmalloc-claims 64 heap (0x1040, after) (omega arith) (λ e. absurd (cc))
      (omega arith, (omega arith, tt)) unclaimed one_owner served 0x1080

-- The second block is freed and takes in the third.
kfree-claims_example : claims 0x1080 (kfree 0x1040 after).blocks ≡ claims 0x1080 after.blocks
kfree-claims_example =
    kfree-claims 0x1040 after 0x1080 (omega arith, (omega arith, (omega arith, tt)))
      (λ e u. absurd (omega arith), (λ e u. refl, (λ e. tt, tt)))
