-- ===== src/Ai/Think.antt =====
-- kernel/ai_kernel.c, the second step of the cycle: `ai_think` decides the system state and each
-- task's permission.
use prajna_os.Base.{
  ℕ, ◌+◌, List, [], ◌∷◌, Bool, true, false, not, ◌&&◌, ◌==◌, ltb, if◌then◌else◌, get_or,
}
use prajna_os.Float32.{FloatOps}
use prajna_os.Task.{Task, is_dead, shell_task_id}
use prajna_os.Ai.{
  Permission, SysState, calm, normal, alert, no_permission, pmm_alert_threshold,
  starvation_threshold,
}
use prajna_os.Ai.Sense.{Input}

-- `ai_decision_t`; the arrays `perm` and `priority` are one list.
pub record Decision : Type 0 where
  pub sys_state : SysState
  pub perms : List Permission

abbrev pub is_alert : SysState → Bool
is_alert alert = true
is_alert _ = false

unfoldable pub state_of : ℕ → ℕ → SysState
state_of free_pages ready_count =
    if ltb free_pages pmm_alert_threshold then alert else if ltb 4 ready_count then normal else calm

module _ (fl : FloatOps) where
  open fl use {Float, decimal, flt}

  -- The priority from the score, before the two guards.
  unfoldable pub score_priority : Float → ℕ
  score_priority score =
      if flt (decimal 7 1) score then 2 else if flt (decimal 4 1) score then 1 else 0

  -- The body of the loop for task `i`.
  unfoldable pub think_task : SysState → ℕ → Task Float → Float → Bool → Permission
  unfolding score_priority
  think_task st i t score anomalous =
      if is_dead t.state
      then no_permission
      else if is_alert st && not (i == shell_task_id)
      then no_permission
      else let p = score_priority score in
        let capped = if anomalous && ltb 1 p then 1 else p in
        record {
          allowed = true;
          priority = if ltb starvation_threshold t.wait_ticks then 2 else capped;
        }

  -- The loop from task `i` on.
  unfoldable pub think_from : SysState → Input Float → ℕ → List (Task Float) → List Permission
  unfolding think_task
  think_from st inp i [] = []
  think_from st inp i (t ∷ ts) =
      think_task st i t (get_or inp.ml_scores i (decimal 0 0)) (get_or inp.anomaly i false)
      ∷ think_from st inp (i + 1) ts

  -- The shell gets at least NORMAL.
  unfoldable pub raise_shell : List (Task Float) → List Permission → List Permission
  raise_shell (t ∷ ts) (p ∷ ps) =
      if is_dead t.state
      then p ∷ ps
      else record { allowed = true; priority = if ltb p.priority 1 then 1 else p.priority } ∷ ps
  raise_shell ts ps = ps

  -- The state that the decision holds is also stored in `current_state`.
  unfoldable pub ai_think : Input Float → List (Task Float) → Decision
  unfolding state_of think_from raise_shell
  ai_think inp tasks =
      let st = state_of inp.free_pages inp.ready_count in
      record { sys_state = st; perms = raise_shell tasks (think_from st inp 0 tasks) }
