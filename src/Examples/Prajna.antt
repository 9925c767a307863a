-- ===== src/Examples/Prajna.antt =====
-- Prajna's decisions, its log and its view of the memory.
use mathlib.Core.List.{reverse}
use Prim.Native.Nat.{min}
use prajna_os.Base.{
  ℕ, zero, suc, ◌+◌, ◌-◌, ◌%◌, ◌<◌, ◌≡◌, ◌↔◌, refl, arith, List, [], ◌∷◌, some, true, false, map,
  take, length, get_or, get_elem?, set, replicate,
}
use prajna_os.Task.{Task, TaskState, ready, running}
use prajna_os.Ai.{Event, MemHistory, TaskHistory, Permission, calm, depleting}
use prajna_os.Ai.Sense.{Input, check_anomaly}
use prajna_os.Ai.Think.{ai_think}
use prajna_os.Ai.Log.{log_all, ai_get_log, ai_get_log-log_all}
use prajna_os.Ai.Anomaly.{check_anomaly-older}
use prajna_os.Ai.Policy.{Fair, ai_think-Fair}
use prajna_os.Ai.Memory.{update_mem_trend}
use prajna_os.Ai.Trend.{Holds}
use prajna_os.Ai.Prediction.{RunsOut, update_mem_trend-RunsOut}
use prajna_os.Examples.Fixed.{Fixed, pos, fixed, less}

abbrev event : ℕ → Event
event tick = record {
  tick = tick;
  state = calm;
  perms = [];
  free_pages_at_decision = 0;
  starvation_task_id = 255;
  anomaly_task_id = 255;
}

ai_get_log-log_all_example :
    let es = event 50 ∷ event 100 ∷ event 150 ∷ [] in
    let l =
      log_all
        (record { event_log = replicate 20 (event 0); event_index = 0; event_filled = false })
        es in
    ai_get_log l 2 ≡ map some (take (min 2 (min 20 (length (reverse es)))) (reverse es))
ai_get_log-log_all_example =
    ai_get_log-log_all (replicate 20 (event 0)) (event 50 ∷ event 100 ∷ event 150 ∷ []) 2 refl

abbrev task : TaskState → ℕ → Task Fixed
task st wait_ticks = record {
  esp = 0;
  stack = 0;
  state = st;
  run_ticks = 0;
  cpu_usage = pos 90000000;
  mem_usage = pos 0;
  wait_time = pos 0;
  priority = pos 5000000;
  ml_score = pos 500000;
  wait_ticks = wait_ticks;
}

abbrev inputs : Input Fixed
inputs = record {
  ticks = 500;
  free_pages = 60;
  ready_count = 1;
  dead_count = 0;
  ml_scores = pos 500000 ∷ pos 500000 ∷ [];
  anomaly = false ∷ true ∷ [];
}

abbrev two_tasks : List (Task Fixed)
two_tasks = task running 0 ∷ task ready 9 ∷ []

ai_think-Fair_example :
    (p : Permission) × (get_elem? (ai_think fixed inputs two_tasks).perms 1 ≡ some p)
    × Fair fixed
        (ai_think fixed inputs two_tasks).sys_state
        1
        (task ready 9)
        (get_or inputs.anomaly 1 false)
        p
ai_think-Fair_example = ai_think-Fair fixed inputs two_tasks 0 refl

abbrev usage : ℕ → TaskHistory Fixed
usage index = record {
  cpu_history = replicate 8 (pos 10000000);
  mem_history = replicate 8 (pos 0);
  history_index = index;
  history_filled = true;
}

check_anomaly-older_example :
    check_anomaly fixed (task ready 0) (record (usage 3) {
      cpu_history = set (replicate 8 (pos 10000000)) 5 (pos 1);
      mem_history = set (replicate 8 (pos 0)) 5 (pos 2);
    })
    ≡ check_anomaly fixed (task ready 0) (usage 3)
check_anomaly-older_example =
    check_anomaly-older fixed (task ready 0) (usage 3) 5 (pos 1) (pos 2) refl (omega arith)

zero_below_one : less (pos 0) (pos 1000000) ≡ true
unfolding less
zero_below_one = refl

-- Seven samples were taken.
abbrev history : MemHistory
history = record {
  free_pages = 900 ∷ 890 ∷ 880 ∷ 870 ∷ 860 ∷ 850 ∷ 840 ∷ 0 ∷ [];
  ticks = 50 ∷ 100 ∷ 150 ∷ 200 ∷ 250 ∷ 300 ∷ 350 ∷ 0 ∷ [];
  history_index = 7;
  history_filled = false;
}

abbrev samples : List (ℕ × ℕ)
samples =
    (840, 350) ∷ (850, 300) ∷ (860, 250) ∷ (870, 200) ∷ (880, 150) ∷ (890, 100) ∷ (900, 50) ∷ []

history-Holds : Holds history samples
history-Holds = record {
  pages_sized = refl;
  ticks_sized = refl;
  index = refl;
  filled = refl;
  slots = λ i a b. slot i b;
}
  where
    slot :
        (i : ℕ)
        → i < 7
        → some (
          get_or history.free_pages ((7 + 7 - i) % 8) 0,
          get_or history.ticks ((7 + 7 - i) % 8) 0,
        )
          ≡ get_elem? samples i
    slot zero h = refl
    slot (suc zero) h = refl
    slot (suc (suc zero)) h = refl
    slot (suc (suc (suc zero))) h = refl
    slot (suc (suc (suc (suc zero)))) h = refl
    slot (suc (suc (suc (suc (suc zero))))) h = refl
    slot (suc (suc (suc (suc (suc (suc zero)))))) h = refl
    slot (suc (suc (suc (suc (suc (suc (suc i))))))) h = absurd (omega arith)

-- Seventy pages were lost in 350 ticks.
update_mem_trend-RunsOut_example :
    ((update_mem_trend history 830 400).2 ≡ depleting ∷ []) ↔ RunsOut 900 50 830 400
update_mem_trend-RunsOut_example =
    update_mem_trend-RunsOut 830 400 history-Holds refl (omega arith) (omega arith) (omega arith)
      (omega arith)
