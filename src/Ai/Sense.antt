-- ===== src/Ai/Sense.antt =====
-- kernel/ai_kernel.c, the first step of the cycle: `ai_sense` reads the tasks and the memory, and
-- keeps their history.
use prajna_os.Base.{
  ℕ, zero, suc, ◌+◌, ◌%◌, List, [], ◌∷◌, Bool, true, false, ◌||◌, ◌==◌, if◌then◌else◌, get_or, set,
  u8,
}
use prajna_os.Float32.{FloatOps}
use prajna_os.Task.{Task, is_dead, is_ready}
use prajna_os.Ai.{TaskHistory, history_len}

-- `ai_input_t`, without the two sensor constants, which nothing reads.
pub record Input (F : Type 0) : Type 0 where
  pub ticks : ℕ
  pub free_pages : ℕ
  pub ready_count : ℕ
  pub dead_count : ℕ
  pub ml_scores : List F
  pub anomaly : List Bool

-- What one round of the loop of `ai_sense` produces.
pub record Sample (F : Type 0) : Type 0 where
  pub task : Task F
  pub history : TaskHistory F
  pub anomalous : Bool

-- The loop's results so far.
pub record Sensed (F : Type 0) : Type 0 where
  pub tasks : List (Task F)
  pub histories : List (TaskHistory F)
  pub ready_count : ℕ
  pub dead_count : ℕ
  pub ml_scores : List F
  pub anomaly : List Bool

module _ (fl : FloatOps) where
  open fl use {Float, decimal, of_nat, neg, add, sub, mul, div, flt}

  unfoldable pub sum_from : ℕ → ℕ → Float → List Float → Float
  sum_from zero i sum hist = sum
  sum_from (suc left) i sum hist =
      sum_from left (i + 1) (add sum (get_or hist i (decimal 0 0))) hist

  -- The parameters stand in the order of the C function: `filled`, `len`, `index`.
  unfoldable pub avg_history : List Float → Bool → ℕ → ℕ → Float
  unfolding sum_from
  avg_history hist filled len index =
      let count = if filled then len else index in
      if count == 0 then decimal 0 0 else div (sum_from count 0 (decimal 0 0) hist) (of_nat count)

  unfoldable pub is_anomalous : Float → Float → Bool
  is_anomalous current avg =
      if flt avg (decimal 1 0)
      then false
      else let diff = sub current avg in
        let distance = if flt diff (decimal 0 0) then neg diff else diff in
        flt (decimal 6 1) (div distance avg)

  -- The CPU share over the last interval, capped at 100.
  unfoldable pub cpu_share : ℕ → ℕ → Float
  cpu_share run_ticks elapsed =
      let share = mul (div (of_nat run_ticks) (of_nat elapsed)) (decimal 100 0) in
      if flt (decimal 100 0) share then decimal 100 0 else share

  -- The call of `avg_history` passes `history_index` for `len` and HISTORY_LEN for `index`.
  unfoldable pub check_anomaly : Task Float → TaskHistory Float → Bool
  unfolding avg_history is_anomalous
  check_anomaly t h =
      if h.history_filled
      then is_anomalous t.cpu_usage
          (avg_history h.cpu_history h.history_filled h.history_index history_len)
        || is_anomalous t.mem_usage
            (avg_history h.mem_history h.history_filled h.history_index history_len)
      else false

  unfoldable pub record_usage : Task Float → TaskHistory Float → TaskHistory Float
  record_usage t h =
      let next = u8 ((h.history_index + 1) % history_len) in
      record {
        cpu_history = set h.cpu_history h.history_index t.cpu_usage;
        mem_history = set h.mem_history h.history_index t.mem_usage;
        history_index = next;
        history_filled = if next == 0 then true else h.history_filled;
      }

  -- One round of the loop, for a task and its history.
  unfoldable pub sense_task : ℕ → Task Float → TaskHistory Float → Sample Float
  unfolding check_anomaly record_usage cpu_share
  sense_task elapsed t h =
      if is_dead t.state
      then record { task = t; history = h; anomalous = false }
      else let t' = record t { cpu_usage = cpu_share t.run_ticks elapsed; run_ticks = 0 } in
        record { task = t'; history = record_usage t' h; anomalous = check_anomaly t' h }

  -- The loop over the task table; the two lists have the same length.
  unfoldable pub sense_tasks : ℕ → List (Task Float) → List (TaskHistory Float) → Sensed Float
  unfolding sense_task
  sense_tasks elapsed (t ∷ ts) (h ∷ hs) =
      let s = sense_task elapsed t h in
      let rest = sense_tasks elapsed ts hs in
      record {
        tasks = s.task ∷ rest.tasks;
        histories = s.history ∷ rest.histories;
        ready_count = (if is_ready t.state then 1 else 0) + rest.ready_count;
        dead_count = (if is_dead t.state then 1 else 0) + rest.dead_count;
        ml_scores = t.ml_score ∷ rest.ml_scores;
        anomaly = s.anomalous ∷ rest.anomaly;
      }
  sense_tasks elapsed ts hs = record {
    tasks = ts;
    histories = hs;
    ready_count = 0;
    dead_count = 0;
    ml_scores = [];
    anomaly = [];
  }

  -- `if (elapsed == 0) elapsed = 1;` stands in front of the loop.
  unfoldable pub ai_sense :
      ℕ → ℕ → ℕ → List (Task Float) → List (TaskHistory Float) → Sensed Float × Input Float
  unfolding sense_tasks
  ai_sense ticks free_pages elapsed tasks histories =
      let s = sense_tasks (if elapsed == 0 then 1 else elapsed) tasks histories in
      (
        s,
        record {
          ticks = ticks;
          free_pages = free_pages;
          ready_count = s.ready_count;
          dead_count = s.dead_count;
          ml_scores = s.ml_scores;
          anomaly = s.anomaly;
        },
      )
