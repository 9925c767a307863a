-- ===== src/Ai/Prediction.antt =====
-- kernel/ai_kernel.c: what `ai_predict_memory` warns of, in terms of the samples taken.
use native.Mathlib.Nat.{div-lt_iff_lt-mul}
use mathlib.Core.Path.{subst}
use prajna_os.Base.{
  ℕ, zero, suc, ◌-◌, ◌*◌, ◌/◌, ◌%◌, ◌^◌, ◌≤◌, ◌<◌, ◌≡◌, arith, ◌∙◌, List, [], ◌∷◌, true, ◌↔◌,
  if◌then◌else◌, get_elem?, some, length, leb, Bool-cases, inl, inr, sub32,
}
use prajna_os.Ai.{MemHistory, MemTrend, depleting, not_urgent}
use prajna_os.Ai.Memory.{
  ai_predict_memory, no_prediction, record_memory, trend_of, update_mem_trend,
}
use prajna_os.Ai.Trend.{Holds, update_mem_trend-Holds}

verdict :
    (n : ℕ)
    → ((if leb n 4000 then depleting ∷ [] else not_urgent ∷ []) ≡ depleting ∷ []) ↔ (n ≤ 4000)
verdict n = (λ e. ground arith, λ e. ground arith)

-- The prediction in numbers that do not wrap.
ai_predict_memory-depleting :
    (h : MemHistory) (t : MemTrend)
    → t.oldest_pages < 2 ^ 32
    → t.oldest_tick ≤ t.newest_tick
    → t.newest_tick < 2 ^ 32
    → (t.newest_pages - 64) * (t.newest_tick - t.oldest_tick) < 2 ^ 32
    → (ai_predict_memory h t ≡ depleting ∷ []) ↔ (
        (h.history_filled ≡ true)
        × (t.newest_pages < t.oldest_pages)
        × (t.oldest_tick < t.newest_tick)
        × (64 < t.newest_pages)
        × ((t.newest_pages - 64)
              * (t.newest_tick - t.oldest_tick)
              / (t.oldest_pages - t.newest_pages)
            ≤ 4000))
unfolding ai_predict_memory
ai_predict_memory-depleting h t p q r s = elim (Bool-cases (no_prediction h t)) [
  | inl idle ↦ (λ e. ground arith, λ w. ground arith)
  | inr go ↦
      let lost : t.newest_pages < t.oldest_pages = ground arith in
      let left : 64 < t.newest_pages = ground arith in
      let full : h.history_filled ≡ true = ground arith in
      let later : t.oldest_tick < t.newest_tick = ground arith in
      let a : sub32 t.oldest_pages t.newest_pages ≡ t.oldest_pages - t.newest_pages = omega arith in
      let b : sub32 t.newest_tick t.oldest_tick ≡ t.newest_tick - t.oldest_tick = omega arith in
      let c : sub32 t.newest_pages 64 ≡ t.newest_pages - 64 = omega arith in
      let d : (t.newest_pages - 64) * (t.newest_tick - t.oldest_tick) % 2 ^ 32
          ≡ (t.newest_pages - 64) * (t.newest_tick - t.oldest_tick) =
        omega arith in
      let n =
        (t.newest_pages - 64)
        * (t.newest_tick - t.oldest_tick)
        / (t.oldest_pages - t.newest_pages) in
      rw (go, a, b, c, d)
        (λ e. (full, lost, later, left, (verdict n).0 e), λ w. (verdict n).1 (w.4))
]

-- The line through the sample (pages0, ticks0) and the later sample (pages, ticks) falls, and reaches
-- 64 pages before 4001 ticks more have passed, in numbers that are not divided.
abbrev pub RunsOut : ℕ → ℕ → ℕ → ℕ → Type 0
RunsOut pages0 ticks0 pages ticks =
    (ticks0 < ticks) × (64 < pages) × ((pages - 64) * (ticks - ticks0) < 4001 * (pages0 - pages))

ai_predict_memory-RunsOut :
    (h : MemHistory) (t : MemTrend)
    → h.history_filled ≡ true
    → t.oldest_pages < 2 ^ 32
    → t.oldest_tick ≤ t.newest_tick
    → t.newest_tick < 2 ^ 32
    → (t.newest_pages - 64) * (t.newest_tick - t.oldest_tick) < 2 ^ 32
    → (ai_predict_memory h t ≡ depleting ∷ [])
      ↔ RunsOut t.oldest_pages t.oldest_tick t.newest_pages t.newest_tick
ai_predict_memory-RunsOut h t full p q r s =
    let verdict = ai_predict_memory-depleting h t p q r s in
    let n = (t.newest_pages - 64) * (t.newest_tick - t.oldest_tick) in
    let m = t.oldest_pages - t.newest_pages in
    (
      λ e.
          let (_, lost, later, left, soon) = verdict.0 e in
          (
            later,
            left,
            (div-lt_iff_lt-mul {k = m} {x = n} {y = 4001} (omega arith)).0 (omega (arith, soon)),
          ),
      λ w.
          let lost : t.newest_pages < t.oldest_pages = omega (arith, w.2) in
          let soon = (div-lt_iff_lt-mul {k = m} {x = n} {y = 4001} (omega arith)).1 (w.2) in
          verdict.1 (full, lost, w.0, w.1, omega (arith, soon)),
    )

get_elem?-bound :
    {A : Type 0} (xs : List A) (i : ℕ) {x : A} → get_elem? xs i ≡ some x → i < length xs
get_elem?-bound [] i e = absurd (cc)
get_elem?-bound (x ∷ xs) zero e = omega arith
get_elem?-bound (x ∷ xs) (suc i) e = omega (arith, get_elem?-bound xs i e)

-- From a history that holds the samples taken so far, at least seven of them, with the seventh
-- newest not later than the new one, in numbers that fit 32 bits and with a product that does not
-- wrap: after the new sample `update_mem_trend` warns of depletion exactly when the line through
-- the two samples falls and reaches 64 pages before 4001 ticks more have passed, where their ticks
-- differ and more than 64 pages are left.
pub update_mem_trend-RunsOut :
    {h : MemHistory} {recent : List (ℕ × ℕ)} {pages0 ticks0 : ℕ} (pages ticks : ℕ)
    → Holds h recent
    → get_elem? recent 6 ≡ some (pages0, ticks0)
    → pages0 < 2 ^ 32
    → ticks0 ≤ ticks
    → ticks < 2 ^ 32
    → (pages - 64) * (ticks - ticks0) < 2 ^ 32
    → ((update_mem_trend h pages ticks).2 ≡ depleting ∷ []) ↔ RunsOut pages0 ticks0 pages ticks
unfolding update_mem_trend trend_of
update_mem_trend-RunsOut {h} {recent} {pages0} {ticks0} pages ticks v old a b c d =
    let (w, full, _, _, eighth) =
      update_mem_trend-Holds pages ticks v (omega (arith, get_elem?-bound recent 6 old)) in
    let h' = record_memory h pages ticks in
    let t = trend_of h' pages ticks in
    let pair : some (t.oldest_pages, t.oldest_tick) ≡ some (pages0, ticks0) = eighth ∙ old in
    let e0 : t.oldest_pages ≡ pages0 = cc in
    let e1 : t.oldest_tick ≡ ticks0 = cc in
    let verdict = ai_predict_memory-RunsOut h' t full (rw e0 a) (rw e1 b) c (rw e1 d) in
    subst (λ x. (ai_predict_memory h' t ≡ depleting ∷ []) ↔ RunsOut x ticks0 pages ticks) e0
      (subst (λ x. (ai_predict_memory h' t ≡ depleting ∷ []) ↔ RunsOut t.oldest_pages x pages ticks)
        e1 verdict)
