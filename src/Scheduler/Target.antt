-- ===== src/Scheduler/Target.antt =====
-- kernel/scheduler.c, `scheduler_tick`: whether it asks for a switch, Prajna's cycle and the scoring included.
use mathlib.Core.Path.{subst}
use prajna_os.Base.{ℕ, ◌≡◌, ◌≢◌, arith, ap, sym, ◌∙◌, true, false, ◌==◌, get_elem?, some, length}
use prajna_os.Float32.{FloatOps}
use prajna_os.Task.{ready, max_tasks}
use prajna_os.Ai.{Prajna}
use prajna_os.Ai.Act.{ai_kernel_tick}
use prajna_os.Ml.{Weights}
use prajna_os.Scheduler.{Scheduler, ml_score_tasks, choose_next, scheduler_tick}
use prajna_os.Scheduler.Pick.{states, length-states, Runnable}
use prajna_os.Scheduler.Choice.{choose_next-target}
use prajna_os.Scheduler.Running.{states-ml_score_tasks, states-ai_kernel_tick}

module _ (fl : FloatOps) where
  open fl use {Float}

  -- Where tasks were created and the table has its eight entries, and some task that is not current
  -- is ready: `scheduler_tick`, Prajna's cycle and the scoring included, asks for a switch, and to
  -- a task that is ready and not current, for every clock, memory, network and state of Prajna.
  pub scheduler_tick-target :
      (w : Weights Float) (ticks free_pages : ℕ) (p : Prajna Float) (s : Scheduler Float) (k : ℕ)
      → s.task_count ≢ 0
      → length s.tasks ≡ max_tasks
      → get_elem? (states s.tasks) k ≡ some ready
      → k ≢ s.current_task
      → let s' = (scheduler_tick fl w ticks free_pages p s).0 in
        (s'.switch_pending ≡ true) × Runnable s.current_task 0 (states s.tasks) s'.pending_target
  unfolding scheduler_tick
  scheduler_tick-target w ticks free_pages p s k some_task n g ne =
      let c = ai_kernel_tick fl ticks free_pages s.tasks p in
      let ts = ml_score_tasks fl w c.tasks in
      let same : states ts ≡ states s.tasks =
        states-ml_score_tasks fl w c.tasks ∙ states-ai_kernel_tick fl ticks free_pages s.tasks p in
      let sized : length ts ≡ max_tasks =
        sym (length-states ts) ∙ ap length same ∙ length-states s.tasks ∙ n in
      let goes_on : (s.task_count == 0) ≡ false = ground arith in
      rw goes_on (
        subst
          (λ sts.
            ((choose_next fl c.prajna (record s { tasks = ts })).switch_pending ≡ true)
            × Runnable s.current_task 0 sts
                (choose_next fl c.prajna (record s { tasks = ts })).pending_target)
          same (choose_next-target fl c.prajna (record s { tasks = ts }) k sized (rw same g) ne))
