-- ===== src/Scheduler.antt =====
-- kernel/scheduler.c: the task table, the choice of the next task, and the deferred switch. The processor
-- side of a switch, kernel/switch.asm, is in Scheduler/Context.
pub mod Context
pub mod Create
pub mod Pick
pub mod Choice
pub mod Running
pub mod Target
pub mod Spawn
use prajna_os.Base.{
  ℕ, zero, suc, ◌+◌, List, [], ◌∷◌, Bool, true, false, not, ◌&&◌, ◌||◌, ◌==◌, ltb, if◌then◌else◌,
  u32, modify, get_elem?, Option, none, some, map,
}
use prajna_os.Float32.{FloatOps}
use prajna_os.Task.{Task, TaskState, dead, ready, running, is_dead, is_ready, max_tasks}
use prajna_os.Ml.{Weights, ml_normalize, ml_infer}
use prajna_os.Ai.{Prajna, Notice, ai_is_blocked, ai_get_priority, ai_kernel_offline}
use prajna_os.Ai.Act.{Cycle, ai_kernel_tick}

-- `tasks` and the static variables of scheduler.c.
pub record Scheduler (F : Type 0) : Type 0 where
  pub tasks : List (Task F)
  pub current_task : ℕ
  pub task_count : ℕ
  pub prajna_fallback : Bool
  pub switch_pending : Bool
  pub pending_target : ℕ

module _ {F : Type 0} where
  abbrev pub empty_slot : Task F → Task F
  empty_slot t = record t { state = dead; stack = 0 }

  unfoldable pub scheduler_init : Scheduler F → Scheduler F
  scheduler_init s = record s { tasks = map empty_slot s.tasks; task_count = 0; current_task = 0 }

  -- The loops that look for an entry: its index, counted from `i`, or MAX_TASKS.
  unfoldable pub first_dead : ℕ → List (Task F) → ℕ
  first_dead i [] = i
  first_dead i (t ∷ ts) = if is_dead t.state then i else first_dead (i + 1) ts

  unfoldable pub first_ready : ℕ → ℕ → List (Task F) → ℕ
  first_ready prev i [] = i
  first_ready prev i (t ∷ ts) =
      if not (i == prev) && is_ready t.state then i else first_ready prev (i + 1) ts

  unfoldable pub scheduler_prajna_offline :
      Scheduler F → Prajna F → Scheduler F × Prajna F × List Notice
  scheduler_prajna_offline s p =
      let (p', notices) = ai_kernel_offline p in (record s { prajna_fallback = true }, p', notices)

  -- The bookkeeping of `scheduler_do_pending_switch`. The pair names the task whose stack pointer
  -- `context_switch` saves and the one whose it loads, if it is called.
  unfoldable pub scheduler_do_pending_switch : Scheduler F → Scheduler F × Option (ℕ × ℕ)
  scheduler_do_pending_switch s =
      if not s.switch_pending
      then (s, none)
      else let prev = s.current_task in
        let best = s.pending_target in
        let stopped = modify s.tasks prev (λ t. record t { state = ready }) in
        (
          record s {
            switch_pending = false;
            tasks = modify stopped best (λ t. record t { state = running; wait_ticks = 0 });
            current_task = best;
          },
          some (prev, best),
        )

-- What the loop of `scheduler_tick` returns: the task table, `best` and `best_score`.
pub record Candidate (F : Type 0) : Type 0 where
  pub tasks : List (Task F)
  pub best : ℕ
  pub best_score : F

module _ (fl : FloatOps) where
  open fl use {Float, decimal, of_nat, neg, add, mul, flt}

  unfoldable pub ml_score_task : Weights Float → Task Float → Task Float
  ml_score_task w t =
      let zero_f = decimal 0 0 in
      let input =
        ml_normalize fl t.cpu_usage zero_f (decimal 100 0)
        ∷ ml_normalize fl t.mem_usage zero_f (decimal 100 0)
        ∷ ml_normalize fl t.wait_time zero_f (decimal 10000 0)
        ∷ ml_normalize fl t.priority zero_f (decimal 10 0)
        ∷ [] in
      if is_dead t.state then t else record t { ml_score = ml_infer fl w input }

  unfoldable pub ml_score_tasks : Weights Float → List (Task Float) → List (Task Float)
  unfolding ml_score_task
  ml_score_tasks w ts = map (ml_score_task w) ts

  -- A ready task that is not running waits one tick more.
  unfoldable pub wait_longer : Task Float → Task Float
  wait_longer t =
      let n = u32 (t.wait_ticks + 1) in
      record t { wait_ticks = n; wait_time = mul (of_nat n) (decimal 10 0) }

  unfoldable pub combined_score : Prajna Float → ℕ → Task Float → Float
  combined_score p i t = add t.ml_score (mul (of_nat (ai_get_priority p i)) (decimal 3 1))

  -- Prajna is in charge and blocks the task.
  abbrev pub vetoed : Bool → Prajna Float → ℕ → Bool
  vetoed fallback p i = not fallback && ai_is_blocked p i

  -- The loop over the tasks, from task `i` on, with `best` and `best_score` so far.
  unfoldable pub pick_from :
      Bool → Prajna Float → ℕ → ℕ → List (Task Float) → ℕ → Float → Candidate Float
  unfolding wait_longer combined_score
  pick_from fallback p prev i [] best score = record { tasks = []; best = best; best_score = score }
  pick_from fallback p prev i (t ∷ ts) best score =
      let waits = not (i == prev) && is_ready t.state in
      let combined = combined_score p i (wait_longer t) in
      let better = waits && not (vetoed fallback p i) && flt score combined in
      let rest =
        pick_from fallback p prev (i + 1) ts (if better then i else best)
          (if better then combined else score) in
      record {
        tasks = (if waits then wait_longer t else t) ∷ rest.tasks;
        best = rest.best;
        best_score = rest.best_score;
      }

  -- The part of `scheduler_tick` behind the two calls.
  unfoldable pub choose_next : Prajna Float → Scheduler Float → Scheduler Float
  unfolding pick_from first_ready
  choose_next p s =
      let prev = s.current_task in
      let pick = pick_from s.prajna_fallback p prev 0 s.tasks max_tasks (neg (decimal 1 0)) in
      let best = if pick.best == max_tasks then first_ready prev 0 pick.tasks else pick.best in
      if best == max_tasks
      then record s { tasks = pick.tasks }
      else record s { tasks = pick.tasks; switch_pending = true; pending_target = best }

  -- `ticks` and `free_pages` are what `ai_kernel_tick` reads.
  unfoldable pub scheduler_tick :
      Weights Float
      → ℕ
      → ℕ
      → Prajna Float
      → Scheduler Float
      → Scheduler Float × Prajna Float × List Notice
  unfolding ml_score_tasks choose_next
  scheduler_tick w ticks free_pages p s =
      if s.task_count == 0
      then (s, p, [])
      else let c = ai_kernel_tick fl ticks free_pages s.tasks p in
        (choose_next c.prajna (record s { tasks = ml_score_tasks w c.tasks }), c.prajna, c.notices)
