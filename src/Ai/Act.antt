-- ===== src/Ai/Act.antt =====
-- kernel/ai_kernel.c, the third step of the cycle: `ai_act` logs the decision, writes the permission
-- table and warns. `ai_kernel_tick` runs the whole cycle.
use prajna_os.Base.{
  ℕ, ◌+◌, ◌*◌, ◌%◌, List, [], ◌∷◌, ◌++◌, Bool, true, false, not, ◌&&◌, ◌||◌, ◌==◌, ltb,
  if◌then◌else◌, set, u8, sub32,
}
use prajna_os.Float32.{FloatOps}
use prajna_os.Task.{Task, is_dead}
use prajna_os.Ai.{
  Event, EventLog, Prajna, Notice, clear_row, memory_low, starvation, anomaly, pmm_alert_threshold,
  starvation_threshold, event_log_size, ai_tick_interval,
}
use prajna_os.Ai.Memory.{update_mem_trend}
use prajna_os.Ai.Sense.{Input, ai_sense}
use prajna_os.Ai.Think.{Decision, ai_think}

-- The marker of no task.
abbrev pub no_task : ℕ
no_task = 0xFF

unfoldable pub log_event : EventLog → Event → EventLog
log_event l ev =
    let next = u8 ((l.event_index + 1) % event_log_size) in
    record {
      event_log = set l.event_log l.event_index ev;
      event_index = next;
      event_filled = if next == 0 then true else l.event_filled;
    }

-- The first index from `i` on whose flag is set, unless `found` names one already.
unfoldable pub first_set : ℕ → List Bool → ℕ → ℕ
first_set i [] found = found
first_set i (b ∷ bs) found = first_set (i + 1) bs (if b && (found == no_task) then u8 i else found)

module _ {F : Type 0} where
  unfoldable pub starving : List (Task F) → List Bool
  starving [] = []
  starving (t ∷ ts) = ltb starvation_threshold t.wait_ticks ∷ starving ts

  -- A living task that has waited too long.
  unfoldable pub any_starving : List (Task F) → Bool
  any_starving [] = false
  any_starving (t ∷ ts) =
      (not (is_dead t.state) && ltb starvation_threshold t.wait_ticks) || any_starving ts

  unfoldable pub any_alive : List (Task F) → Bool
  any_alive [] = false
  any_alive (t ∷ ts) = not (is_dead t.state) || any_alive ts

  unfoldable pub any_anomalous : List (Task F) → List Bool → Bool
  any_anomalous (t ∷ ts) (a ∷ as') = (not (is_dead t.state) && a) || any_anomalous ts as'
  any_anomalous ts as' = false

  unfoldable pub event_of : ℕ → ℕ → List (Task F) → Input F → Decision → Event
  unfolding first_set starving
  event_of ticks free_pages tasks inp dec = record {
    tick = ticks;
    state = dec.sys_state;
    perms = dec.perms;
    free_pages_at_decision = u8 free_pages;
    starvation_task_id = first_set 0 (starving tasks) no_task;
    anomaly_task_id = first_set 0 inp.anomaly no_task;
  }

  -- The notices of `ai_act`, with the flag `starvation_warned` before and after.
  unfoldable pub warnings : Bool → ℕ → ℕ → List (Task F) → List Bool → List Notice × Bool
  unfolding any_alive any_starving any_anomalous
  warnings warned free_pages starvation_task_id tasks anomalies =
      let low = if ltb free_pages (pmm_alert_threshold * 2) then memory_low ∷ [] else [] in
      let now = any_alive tasks && not (starvation_task_id == no_task) && not warned in
      let told = if now then starvation ∷ [] else [] in
      let warned' = if now then true else warned in
      let odd = if any_anomalous tasks anomalies then anomaly ∷ [] else [] in
      (
        clear_row ∷ low ++ told ++ odd,
        if warned' && not (any_starving tasks) then false else warned',
      )

  unfoldable pub ai_act :
      ℕ → ℕ → List (Task F) → Input F → Decision → Prajna F → Prajna F × List Notice
  unfolding event_of log_event warnings
  ai_act ticks free_pages tasks inp dec p =
      let ev = event_of ticks free_pages tasks inp dec in
      let (notices, warned) =
        warnings p.starvation_warned free_pages ev.starvation_task_id tasks inp.anomaly in
      (
        record p { log = log_event p.log ev; perm_table = dec.perms; starvation_warned = warned },
        notices,
      )

-- What `ai_kernel_tick` leaves: Prajna, the task table and the notices printed, in order.
pub record Cycle (F : Type 0) : Type 0 where
  pub prajna : Prajna F
  pub tasks : List (Task F)
  pub notices : List Notice

module _ (fl : FloatOps) where
  open fl use {Float}

  -- The three steps, at the tick `now` with `elapsed` ticks since the last cycle.
  unfoldable pub run_cycle : ℕ → ℕ → ℕ → List (Task Float) → Prajna Float → Cycle Float
  unfolding ai_sense update_mem_trend ai_think ai_act
  run_cycle now elapsed free_pages tasks p =
      let (s, inp) = ai_sense fl now free_pages elapsed tasks p.task_history in
      let (history, trend, predicted) = update_mem_trend p.mem_history free_pages now in
      let dec = ai_think fl inp s.tasks in
      let p' : Prajna Float = record p {
        last_ai_tick = now;
        task_history = s.histories;
        mem_history = history;
        mem_trend = trend;
        current_state = dec.sys_state;
      } in
      let (p'', notices) = ai_act now free_pages s.tasks inp dec p' in
      record { prajna = p''; tasks = s.tasks; notices = predicted ++ notices }

  -- `ticks` is `pit_get_ticks()` and `free_pages` is `pmm_free_pages()`, which do not change during
  -- the call: it runs in the timer interrupt.
  unfoldable pub ai_kernel_tick : ℕ → ℕ → List (Task Float) → Prajna Float → Cycle Float
  unfolding run_cycle
  ai_kernel_tick ticks free_pages tasks p =
      if not p.ai_online || ltb (sub32 ticks p.last_ai_tick) ai_tick_interval
      then record { prajna = p; tasks = tasks; notices = [] }
      else run_cycle ticks (sub32 ticks p.last_ai_tick) free_pages tasks p
