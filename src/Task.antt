-- ===== src/Task.antt =====
-- The task table of kernel/include/scheduler.h, which the scheduler, Prajna and the timer share.
use prajna_os.Base.{ℕ, Bool, true, false}

abbrev pub max_tasks : ℕ
max_tasks = 8

abbrev pub shell_task_id : ℕ
shell_task_id = 0

-- The values of `state`: TASK_DEAD, TASK_READY and TASK_RUNNING.
pub data TaskState : Type 0 where
  dead ready running : TaskState

abbrev pub is_dead : TaskState → Bool
is_dead dead = true
is_dead _ = false

abbrev pub is_ready : TaskState → Bool
is_ready ready = true
is_ready _ = false

-- `Task`, over the type of its `float` fields.
pub record Task (F : Type 0) : Type 0 where
  pub esp : ℕ
  pub stack : ℕ
  pub state : TaskState
  pub run_ticks : ℕ
  pub cpu_usage : F
  pub mem_usage : F
  pub wait_time : F
  pub priority : F
  pub ml_score : F
  pub wait_ticks : ℕ
