-- ===== src/Examples/Tasks.antt =====
-- The scheduler with two and three tasks.
use prajna_os.Base.{
  ℕ, zero, suc, ◌+◌, ◌≡◌, ◌≢◌, refl, arith, List, [], ◌∷◌, none, some, true, false, get_elem?,
  replicate, if◌then◌else◌,
}
use prajna_os.Task.{Task, TaskState, dead, ready, running}
use prajna_os.Pmm.{alloc, init, page_size}
use prajna_os.Ml.{Weights}
use prajna_os.Ai.{Prajna, Permission, calm, ai_is_blocked, ai_get_priority}
use prajna_os.Scheduler.{
  Scheduler, scheduler_tick, scheduler_do_pending_switch, choose_next, pick_from, first_ready,
  first_dead, vetoed, combined_score, wait_longer,
}
use prajna_os.Scheduler.Context.{Words, Cpu, suspend, resume, returned, resume-suspend}
use prajna_os.Scheduler.Create.{Machine, task_create}
use prajna_os.Scheduler.Pick.{states, Runnable}
use prajna_os.Scheduler.Target.{scheduler_tick-target}
use prajna_os.Scheduler.Running.{
  OneRunning, scheduler_do_pending_switch-OneRunning, scheduler_tick-OneRunning,
}
use prajna_os.Scheduler.Spawn.{task_create-ready}
use prajna_os.Examples.Fixed.{Fixed, pos, negsuc, fixed, neg, add, signed, less}
use prajna_os.Examples.Pages.{zeros, kernel_end, granted}

abbrev pub weights : Weights Fixed
weights = record {
  weights_l1 = replicate 32 (pos 100000);
  bias_l1 = replicate 8 (pos 0);
  weights_l2 = replicate 32 (pos 100000);
  bias_l2 = replicate 4 (pos 0);
  weights_l3 = replicate 4 (pos 100000);
  bias_l3 = pos 0 ∷ [];
}

abbrev pub task : TaskState → Fixed → Task Fixed
task st score = record {
  esp = 0;
  stack = 0;
  state = st;
  run_ticks = 0;
  cpu_usage = pos 0;
  mem_usage = pos 0;
  wait_time = pos 0;
  priority = pos 5000000;
  ml_score = score;
  wait_ticks = 0;
}

abbrev pub scheduler : List (Task Fixed) → Scheduler Fixed
scheduler tasks = record {
  tasks = tasks;
  current_task = 0;
  task_count = 2;
  prajna_fallback = false;
  switch_pending = false;
  pending_target = 0;
}

abbrev pub granting : List Permission → Prajna Fixed
granting perms = record {
  last_ai_tick = 0;
  ai_online = true;
  current_state = calm;
  starvation_warned = false;
  log = record { event_log = []; event_index = 0; event_filled = false };
  mem_history = record {
    free_pages = replicate 8 0;
    ticks = replicate 8 0;
    history_index = 0;
    history_filled = false;
  };
  mem_trend = record { oldest_pages = 0; newest_pages = 0; oldest_tick = 0; newest_tick = 0 };
  task_history = replicate 8 (record {
    cpu_history = replicate 8 (pos 0);
    mem_history = replicate 8 (pos 0);
    history_index = 0;
    history_filled = false;
  });
  perm_table = perms;
}

abbrev pub yes_please : Permission
yes_please = record { allowed = true; priority = 1 }

abbrev no_way : Permission
no_way = record { allowed = false; priority = 0 }

abbrev pub two : List (Task Fixed)
two = task running (pos 0) ∷ task ready (pos 500000) ∷ replicate 6 (task dead (pos 0))

two-OneRunning : OneRunning (scheduler two)
two-OneRunning = record { sized = refl; current = refl; only = only; pending = λ e. absurd (cc) }
  where
    only : (j : ℕ) → get_elem? (states two) j ≡ some running → j ≡ 0
    only zero h = refl
    only (suc zero) h = absurd (cc)
    only (suc (suc zero)) h = absurd (cc)
    only (suc (suc (suc zero))) h = absurd (cc)
    only (suc (suc (suc (suc zero)))) h = absurd (cc)
    only (suc (suc (suc (suc (suc zero))))) h = absurd (cc)
    only (suc (suc (suc (suc (suc (suc zero)))))) h = absurd (cc)
    only (suc (suc (suc (suc (suc (suc (suc zero))))))) h = absurd (cc)
    only (suc (suc (suc (suc (suc (suc (suc (suc j)))))))) h = absurd (cc)

scheduler_tick-OneRunning_example :
    OneRunning
      (scheduler_tick fixed weights 100 900 (granting (replicate 8 yes_please)) (scheduler two)).0
scheduler_tick-OneRunning_example =
    scheduler_tick-OneRunning fixed weights 100 900 (granting (replicate 8 yes_please))
      two-OneRunning

-- With a switch to task 1 asked for.
abbrev pub switching : Scheduler Fixed
switching = record (scheduler two) { switch_pending = true; pending_target = 1 }

pub switching-OneRunning : OneRunning switching
switching-OneRunning = record {
  sized = refl;
  current = refl;
  only = two-OneRunning.only;
  pending = λ e. refl;
}

scheduler_do_pending_switch-OneRunning_example :
    OneRunning (scheduler_do_pending_switch switching).0
    × ((scheduler_do_pending_switch switching).1 ≡ (if true then some (0, 1) else none))
    × ((scheduler_do_pending_switch switching).0.current_task ≡ (if true then 1 else 0))
scheduler_do_pending_switch-OneRunning_example =
    scheduler_do_pending_switch-OneRunning switching-OneRunning

scheduler_tick-target_example :
    let s' = (scheduler_tick fixed weights 100 900 (granting []) (scheduler two)).0 in
    (s'.switch_pending ≡ true) × Runnable 0 0 (states two) s'.pending_target
scheduler_tick-target_example =
    scheduler_tick-target fixed weights 100 900 (granting []) (scheduler two) 1 (omega arith) refl
      refl (omega arith)

-- Task 1 is vetoed; task 2 is allowed, and its score is -5.
abbrev three : Scheduler Fixed
three = scheduler (
    task running (pos 0)
    ∷ task ready (pos 500000)
    ∷ task ready (negsuc 4999999)
    ∷ replicate 5 (task dead (pos 0)))

abbrev veto_one : Prajna Fixed
veto_one = granting (yes_please ∷ no_way ∷ yes_please ∷ [])

picked_vetoed : vetoed fixed false veto_one (choose_next fixed veto_one three).pending_target ≡ true
unfolding choose_next pick_from first_ready combined_score wait_longer ai_is_blocked ai_get_priority
    add signed neg less
picked_vetoed = refl

two_allowed : vetoed fixed false veto_one 2 ≡ false
unfolding ai_is_blocked
two_allowed = refl

abbrev cpu : Cpu
cpu = record { edi = 1; esi = 2; ebx = 3; ebp = 4; esp = 4096; eip = 5 }

abbrev blank : Words
blank = λ a. 7

resume-suspend_example : resume (suspend blank cpu).0 (suspend blank cpu).1 ≡ returned blank cpu
resume-suspend_example =
    resume-suspend blank (suspend blank cpu).0 cpu (omega arith) (omega arith) (λ k h. refl)

abbrev machine : List (Task Fixed) → Machine Fixed
machine tasks = record {
  scheduler = scheduler tasks;
  bitmap = (init kernel_end zeros);
  memory = blank;
}

slot_two : first_dead 0 two ≡ 2
unfolding first_dead
slot_two = refl

task_create-ready_example :
    let mc' = task_create fixed 0x101000 5 (machine two) in
    let a = (alloc (init kernel_end zeros)).0 in
    (new : Task Fixed) × (get_elem? mc'.scheduler.tasks 2 ≡ some new)
    × (new.state ≡ ready)
    × (new.stack ≡ a)
    × (resume mc'.memory new.esp
        ≡ record { edi = 0; esi = 0; ebx = 0; ebp = 0; eip = 0x101000; esp = a + page_size })
    × ((j : ℕ) → j ≢ 2 → get_elem? mc'.scheduler.tasks j ≡ get_elem? two j)
task_create-ready_example =
    task_create-ready fixed 0x101000 5 2 (machine two) slot_two (omega arith) refl granted

-- Every slot is taken.
abbrev crowd : List (Task Fixed)
crowd = replicate 8 (task ready (pos 0))

no_dead : (k : ℕ) → get_elem? (states crowd) k ≢ some dead
no_dead zero h = absurd (cc)
no_dead (suc zero) h = absurd (cc)
no_dead (suc (suc zero)) h = absurd (cc)
no_dead (suc (suc (suc zero))) h = absurd (cc)
no_dead (suc (suc (suc (suc zero)))) h = absurd (cc)
no_dead (suc (suc (suc (suc (suc zero))))) h = absurd (cc)
no_dead (suc (suc (suc (suc (suc (suc zero)))))) h = absurd (cc)
no_dead (suc (suc (suc (suc (suc (suc (suc zero))))))) h = absurd (cc)
no_dead (suc (suc (suc (suc (suc (suc (suc (suc k)))))))) h = absurd (cc)
