-- ===== src/Ai/Anomaly.antt =====
-- kernel/ai_kernel.c, the anomaly check of `ai_sense`: what its averages are taken over.
use prajna_os.Base.{
  ℕ, zero, suc, ◌+◌, ◌≤◌, ◌≡◌, refl, arith, List, true, false, set, Bool-cases, inl, inr,
  get_or-set_ne,
}
use prajna_os.Float32.{FloatOps}
use prajna_os.Task.{Task}
use prajna_os.Ai.{TaskHistory, history_len}
use prajna_os.Ai.Sense.{sum_from, avg_history, is_anomalous, check_anomaly}

module _ (fl : FloatOps) where
  open fl use {Float, decimal, add, flt}

  sum_from-set :
      (left i j : ℕ) (sum v : Float) (hist : List Float)
      → i + left ≤ j
      → sum_from fl left i sum (set hist j v) ≡ sum_from fl left i sum hist
  unfolding sum_from
  sum_from-set zero i j sum v hist h = refl
  sum_from-set (suc left) i j sum v hist h =
      rw (get_or-set_ne hist j i v (decimal 0 0) (omega arith))
        (sum_from-set left (i + 1) j _ v hist (omega arith))

  avg_history-set :
      (hist : List Float) (len index j : ℕ) (v : Float)
      → len ≤ j
      → avg_history fl (set hist j v) true len index ≡ avg_history fl hist true len index
  unfolding avg_history
  avg_history-set hist len index j v h =
      rw (sum_from-set len 0 j (decimal 0 0) v hist (omega arith))

  -- Once a task's history is full, the anomaly check of `ai_sense` does not depend on the samples
  -- from the write position on.
  pub check_anomaly-older :
      (t : Task Float) (h : TaskHistory Float) (j : ℕ) (v w : Float)
      → h.history_filled ≡ true
      → h.history_index ≤ j
      → check_anomaly fl t
          (record h { cpu_history = set h.cpu_history j v; mem_history = set h.mem_history j w })
        ≡ check_anomaly fl t h
  unfolding check_anomaly
  check_anomaly-older t h j v w full old = rw (
    full,
    avg_history-set h.cpu_history h.history_index history_len j v old,
    avg_history-set h.mem_history h.history_index history_len j w old,
  )

  is_anomalous-zero :
      (x : Float) → flt (decimal 0 0) (decimal 1 0) ≡ true → is_anomalous fl x (decimal 0 0) ≡ false
  unfolding is_anomalous
  is_anomalous-zero x e = rw e

  -- Given that 0.0 is below 1.0, when the write position of a history is 0 the anomaly check of
  -- `ai_sense` finds no usage anomalous.
  pub check_anomaly-wrapped :
      (t : Task Float) (h : TaskHistory Float)
      → flt (decimal 0 0) (decimal 1 0) ≡ true
      → h.history_index ≡ 0
      → check_anomaly fl t h ≡ false
  unfolding check_anomaly avg_history
  check_anomaly-wrapped t h lt e = elim (Bool-cases h.history_filled) [
    | inl full ↦ rw (full, e, is_anomalous-zero t.cpu_usage lt, is_anomalous-zero t.mem_usage lt)
    | inr part ↦ rw part
  ]
