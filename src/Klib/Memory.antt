-- ===== src/Klib/Memory.antt =====
-- kernel/klib.c: `kmemset` and `kmemcpy`, byte by byte.
use prajna_os.Base.{
  ℕ, zero, suc, ◌+◌, ◌≡◌, arith, ◌∙◌, List, ◌&&◌, ltb, leb, if◌then◌else◌, get_or, set, length,
  length-set, get_or-set,
}
use prajna_os.Klib.{set_from, kmemset, move_from, kmemcpy}

get_or-set_from :
    (left i val : ℕ) (d : List ℕ) (j : ℕ)
    → get_or (set_from left i val d) j 0
      ≡ (if leb i j && ltb j (i + left) && ltb j (length d) then val else get_or d j 0)
unfolding set_from
get_or-set_from zero i val d j = ground arith
get_or-set_from (suc left) i val d j =
    get_or-set_from left (i + 1) val (set d i val) j
    ∙ ground (arith, length-set d i val, get_or-set d i j val 0)

get_or-move_from :
    (left i : ℕ) (d s : List ℕ) (j : ℕ)
    → get_or (move_from left i d s) j 0
      ≡ (if leb i j && ltb j (i + left) && ltb j (length d) then get_or s j 0 else get_or d j 0)
unfolding move_from
get_or-move_from zero i d s j = ground arith
get_or-move_from (suc left) i d s j =
    get_or-move_from left (i + 1) (set d i (get_or s i 0)) s j
    ∙ ground (arith, length-set d i (get_or s i 0), get_or-set d i j (get_or s i 0) 0)

-- For every buffer, value, count and index: after `kmemset` the first `n` bytes of the buffer are
-- the value, and after `kmemcpy` they are those of the source; all other bytes are as before.
pub get_or-kmem :
    (dst src : List ℕ) (val n j : ℕ)
    → (get_or (kmemset dst val n) j 0
        ≡ (if ltb j n && ltb j (length dst) then val else get_or dst j 0))
      × (get_or (kmemcpy dst src n) j 0
          ≡ (if ltb j n && ltb j (length dst) then get_or src j 0 else get_or dst j 0))
unfolding kmemset kmemcpy
get_or-kmem dst src val n j =
    (get_or-set_from n 0 val dst j ∙ ground arith, get_or-move_from n 0 dst src j ∙ ground arith)
