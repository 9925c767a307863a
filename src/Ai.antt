-- ===== src/Ai.antt =====
-- kernel/ai_kernel.c and kernel/include/ai_kernel.h: Prajna, which watches the tasks and the memory and
-- decides which tasks may run. Here its data; the children hold the cycle sense, think, act.
pub mod Memory
pub mod Sense
pub mod Think
pub mod Act
pub mod Screen
pub mod Log
pub mod Anomaly
pub mod Policy
pub mod Trend
pub mod Prediction
use prajna_os.Base.{ℕ, List, [], ◌∷◌, Bool, true, false, ◌==◌, ltb, if◌then◌else◌, get_or}
use prajna_os.Task.{max_tasks}

abbrev pub ai_tick_interval : ℕ
ai_tick_interval = 50

abbrev pub pmm_alert_threshold : ℕ
pmm_alert_threshold = 64

abbrev pub starvation_threshold : ℕ
starvation_threshold = 5

abbrev pub event_log_size : ℕ
event_log_size = 20

abbrev pub history_len : ℕ
history_len = 8

-- `sys_state_t`
pub data SysState : Type 0 where
  calm normal alert : SysState

-- `ai_permission_t`
pub record Permission : Type 0 where
  pub allowed : Bool
  pub priority : ℕ

-- `prajna_event_t`, without its field `anomaly[]`, which nothing writes or reads. The arrays `perm` and
-- `priority` are one list.
pub record Event : Type 0 where
  pub tick : ℕ
  pub state : SysState
  pub perms : List Permission
  pub free_pages_at_decision : ℕ
  pub starvation_task_id : ℕ
  pub anomaly_task_id : ℕ

-- `event_log`, `event_index` (next write) and `event_filled`.
pub record EventLog : Type 0 where
  pub event_log : List Event
  pub event_index : ℕ
  pub event_filled : Bool

-- `mem_history_t`
pub record MemHistory : Type 0 where
  pub free_pages : List ℕ
  pub ticks : List ℕ
  pub history_index : ℕ
  pub history_filled : Bool

-- `mem_trend_t`
pub record MemTrend : Type 0 where
  pub oldest_pages : ℕ
  pub newest_pages : ℕ
  pub oldest_tick : ℕ
  pub newest_tick : ℕ

-- `ai_history_t`
pub record TaskHistory (F : Type 0) : Type 0 where
  pub cpu_history : List F
  pub mem_history : List F
  pub history_index : ℕ
  pub history_filled : Bool

-- What Prajna prints on rows 14, 22 and 23 of the screen.
pub data Notice : Type 0 where
  depleting not_urgent clear_row memory_low starvation anomaly offline : Notice

-- The static variables of ai_kernel.c.
pub record Prajna (F : Type 0) : Type 0 where
  pub last_ai_tick : ℕ
  pub ai_online : Bool
  pub current_state : SysState
  pub starvation_warned : Bool
  pub log : EventLog
  pub mem_history : MemHistory
  pub mem_trend : MemTrend
  pub task_history : List (TaskHistory F)
  pub perm_table : List Permission

-- The zero-initialised entry of `perm_table`.
abbrev pub no_permission : Permission
no_permission = record { allowed = false; priority = 0 }

module _ {F : Type 0} where
  unfoldable pub ai_is_blocked : Prajna F → ℕ → Bool
  ai_is_blocked p task_id =
      if ltb task_id max_tasks
      then (if (get_or p.perm_table task_id no_permission).allowed then false else true)
      else false

  unfoldable pub ai_get_priority : Prajna F → ℕ → ℕ
  ai_get_priority p task_id =
      if ltb task_id max_tasks then (get_or p.perm_table task_id no_permission).priority else 1

  pub ai_get_state : Prajna F → SysState
  ai_get_state p = p.current_state

  pub ai_kernel_offline : Prajna F → Prajna F × List Notice
  ai_kernel_offline p = (record p { ai_online = false }, offline ∷ [])
