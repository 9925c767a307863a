-- ===== src/Ai/Trend.antt =====
-- kernel/ai_kernel.c: the ring buffer of memory samples, its trend, and `ai_predict_memory`.
use Prim.Native.Nat.{min}
use prajna_os.Base.{
  ℕ, zero, suc, ◌+◌, ◌-◌, ◌%◌, ◌^◌, ◌≤◌, ◌<◌, ◌≡◌, refl, arith, ◌∙◌, ap, List, ◌∷◌, true,
  if◌then◌else◌, get_or, set, get_elem?, some, length, leb, length-set, get_or-set_self,
  get_or-set_ne,
}
use prajna_os.Ai.{MemHistory, history_len}
use prajna_os.Ai.Memory.{record_memory, update_mem_trend, memory_entries, ai_get_memory_history}

-- The history holds the samples `recent`, newest first, each with its tick.
pub record Holds (h : MemHistory) (recent : List (ℕ × ℕ)) : Type 0 where
  pub pages_sized : length h.free_pages ≡ history_len
  pub ticks_sized : length h.ticks ≡ history_len
  pub index : h.history_index ≡ length recent % history_len
  pub filled : h.history_filled ≡ leb history_len (length recent)
  pub slots :
      (i : ℕ)
      → i < history_len
      → i < length recent
      → some (
        get_or h.free_pages ((h.history_index + 7 - i) % 8) 0,
        get_or h.ticks ((h.history_index + 7 - i) % 8) 0,
      )
        ≡ get_elem? recent i

pub record_memory-Holds :
    {h : MemHistory} {recent : List (ℕ × ℕ)} (pages ticks : ℕ)
    → Holds h recent
    → Holds (record_memory h pages ticks) ((pages, ticks) ∷ recent)
unfolding record_memory
record_memory-Holds {h} {recent} pages ticks v = record {
  pages_sized = length-set h.free_pages h.history_index pages ∙ v.pages_sized;
  ticks_sized = length-set h.ticks h.history_index ticks ∙ v.ticks_sized;
  index = omega (arith, v.index);
  filled = ground (arith, v.index, v.filled);
  slots = slots;
}
  where
    slots :
        (i : ℕ)
        → i < history_len
        → i < suc (length recent)
        → some (
          get_or
              (set h.free_pages h.history_index pages)
              (((h.history_index + 1) % 8 % 2 ^ 8 + 7 - i) % 8)
              0,
          get_or
              (set h.ticks h.history_index ticks)
              (((h.history_index + 1) % 8 % 2 ^ 8 + 7 - i) % 8)
              0,
        )
          ≡ get_elem? ((pages, ticks) ∷ recent) i
    slots zero a b =
        let e : ((h.history_index + 1) % 8 % 2 ^ 8 + 7 - 0) % 8 ≡ h.history_index =
          omega (arith, v.index) in
        rw (
          e,
          get_or-set_self h.free_pages h.history_index pages 0
              (omega (arith, v.index, v.pages_sized)),
          get_or-set_self h.ticks h.history_index ticks 0 (omega (arith, v.index, v.ticks_sized)),
        )
    slots (suc i) a b =
        let old = (h.history_index + 7 - i) % 8 in
        let e : ((h.history_index + 1) % 8 % 2 ^ 8 + 7 - suc i) % 8 ≡ old =
          omega (arith, v.index) in
        rw
          (
            e,
            get_or-set_ne h.free_pages h.history_index old pages 0 (omega (arith, v.index)),
            get_or-set_ne h.ticks h.history_index old ticks 0 (omega (arith, v.index)),
          )
          (v.slots i (omega arith) (omega arith))

-- The samples that `ai_get_memory_history` has to report.
abbrev pub kept : List (ℕ × ℕ) → ℕ
kept recent = min 8 (length recent)

memory_entries-Holds :
    (left i j : ℕ) {h : MemHistory} {recent : List (ℕ × ℕ)}
    → Holds h recent
    → i + left ≡ kept recent
    → j < left
    → get_elem? (memory_entries left i h) j ≡ get_elem? recent (kept recent - 1 - (i + j))
unfolding memory_entries
memory_entries-Holds zero i j v e l = absurd (omega arith)
memory_entries-Holds (suc left) i zero {h} {recent} v e l =
    let k : ℕ = kept recent - 1 - i in
    let idx : (if h.history_filled then (h.history_index + i) % 8 % 2 ^ 8 else i)
        ≡ (h.history_index + 7 - k) % 8 =
      ground (arith, v.index, v.filled) in
    let at_zero : i + 0 ≡ i = omega arith in
    rw (idx, at_zero) (v.slots k (omega arith) (omega arith))
memory_entries-Holds (suc left) i (suc j) v e l =
    let shift : i + suc j ≡ i + 1 + j = omega arith in
    rw shift (memory_entries-Holds left (i + 1) j v (omega arith) (omega arith))

length-memory_entries : (left i : ℕ) (h : MemHistory) → length (memory_entries left i h) ≡ left
unfolding memory_entries
length-memory_entries zero i h = refl
length-memory_entries (suc left) i h = ap suc (length-memory_entries left (i + 1) h)

-- `ai_get_memory_history` reports the last eight samples that the memory history holds, or all if
-- there are fewer, oldest first.
pub ai_get_memory_history-Holds :
    {h : MemHistory} {recent : List (ℕ × ℕ)}
    → Holds h recent
    → (length (ai_get_memory_history h) ≡ min 8 (length recent))
      × ((j : ℕ)
          → j < min 8 (length recent)
          → get_elem? (ai_get_memory_history h) j
            ≡ get_elem? recent (min 8 (length recent) - 1 - j))
unfolding ai_get_memory_history
ai_get_memory_history-Holds {h} {recent} v =
    let n : (if h.history_filled then history_len else h.history_index) ≡ kept recent =
      ground (arith, v.index, v.filled) in
    rw n (
      length-memory_entries (kept recent) 0 h,
      λ j l.
          let at_zero : 0 + j ≡ j = omega arith in
          rw at_zero at (memory_entries-Holds (kept recent) 0 j v (omega arith) l),
    )

-- If the memory history holds at least seven samples, then after `update_mem_trend` it holds the
-- new one too, it is filled, and the trend compares the new sample with the eighth newest.
pub update_mem_trend-Holds :
    {h : MemHistory} {recent : List (ℕ × ℕ)} (pages ticks : ℕ)
    → Holds h recent
    → 7 ≤ length recent
    → let (h', t, out) = update_mem_trend h pages ticks in
      Holds h' ((pages, ticks) ∷ recent)
      × (h'.history_filled ≡ true)
      × (t.newest_pages ≡ pages)
      × (t.newest_tick ≡ ticks)
      × (some (t.oldest_pages, t.oldest_tick) ≡ get_elem? ((pages, ticks) ∷ recent) 7)
unfolding update_mem_trend
update_mem_trend-Holds {h} {recent} pages ticks v enough =
    let w = record_memory-Holds pages ticks v in
    let h' = record_memory h pages ticks in
    let oldest : (h'.history_index + 7 - 7) % 8 ≡ h'.history_index = omega (arith, w.index) in
    (w, w.filled ∙ ground arith, refl, refl, rw oldest at (w.slots 7 (omega arith) (omega arith)))
