-- ===== src/Ai/Memory.antt =====
-- kernel/ai_kernel.c: the history of free pages, its trend, and the prediction from it.
use prajna_os.Base.{
  ℕ, zero, suc, ◌+◌, ◌*◌, ◌/◌, ◌%◌, List, [], ◌∷◌, Bool, true, not, ◌||◌, ◌==◌, leb, if◌then◌else◌,
  get_or, set, sub32, u8, u32,
}
use prajna_os.Ai.{
  MemHistory, MemTrend, Notice, depleting, not_urgent, history_len, pmm_alert_threshold,
}

-- The four early returns of `ai_predict_memory`.
abbrev pub no_prediction : MemHistory → MemTrend → Bool
no_prediction h t =
    not h.history_filled
    || leb t.oldest_pages t.newest_pages
    || sub32 t.newest_tick t.oldest_tick == 0
    || leb t.newest_pages pmm_alert_threshold

unfoldable pub ai_predict_memory : MemHistory → MemTrend → List Notice
ai_predict_memory h t =
    let pages_lost = sub32 t.oldest_pages t.newest_pages in
    let ticks_elapsed = sub32 t.newest_tick t.oldest_tick in
    if no_prediction h t
    then []
    else let remaining = sub32 t.newest_pages pmm_alert_threshold in
      let ticks_to_alert = u32 (remaining * ticks_elapsed) / pages_lost in
      if leb ticks_to_alert 4000 then depleting ∷ [] else not_urgent ∷ []

-- The two circular buffers of `update_mem_trend`.
unfoldable pub record_memory : MemHistory → ℕ → ℕ → MemHistory
record_memory h free_pages ticks =
    let next = u8 ((h.history_index + 1) % history_len) in
    record {
      free_pages = set h.free_pages h.history_index free_pages;
      ticks = set h.ticks h.history_index ticks;
      history_index = next;
      history_filled = if next == 0 then true else h.history_filled;
    }

unfoldable pub trend_of : MemHistory → ℕ → ℕ → MemTrend
trend_of h free_pages ticks = record {
  newest_pages = free_pages;
  newest_tick = ticks;
  oldest_pages = get_or h.free_pages h.history_index 0;
  oldest_tick = get_or h.ticks h.history_index 0;
}

unfoldable pub update_mem_trend : MemHistory → ℕ → ℕ → MemHistory × MemTrend × List Notice
unfolding record_memory trend_of ai_predict_memory
update_mem_trend h free_pages ticks =
    let h' = record_memory h free_pages ticks in
    let t = trend_of h' free_pages ticks in (h', t, ai_predict_memory h' t)

-- The loop of `ai_get_memory_history`: entry `i` of both output arrays, for `left` more entries.
unfoldable pub memory_entries : ℕ → ℕ → MemHistory → List (ℕ × ℕ)
memory_entries zero i h = []
memory_entries (suc left) i h =
    let idx = if h.history_filled then u8 ((h.history_index + i) % history_len) else i in
    (get_or h.free_pages idx 0, get_or h.ticks idx 0) ∷ memory_entries left (i + 1) h

unfoldable pub ai_get_memory_history : MemHistory → List (ℕ × ℕ)
unfolding memory_entries
ai_get_memory_history h =
    memory_entries (if h.history_filled then history_len else h.history_index) 0 h
