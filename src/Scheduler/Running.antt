-- ===== src/Scheduler/Running.antt =====
-- kernel/scheduler.c: the states of the tasks, and which task runs.
use prajna_os.Base.{
  ℕ, zero, suc, ◌≡◌, ◌≢◌, refl, arith, ap, ap₂, sym, ◌∙◌, List, [], ◌∷◌, true, false, not, ◌||◌,
  ◌==◌, if◌then◌else◌, get_elem?, Option, none, some, length, Bool-cases, inl, inr, set, modify,
  length-modify, get_elem?-set_self, get_elem?-set_ne, length-set, sub32, ltb,
}
use mathlib.Core.Path.{subst}
use native.Mathlib.Decide.{ℕ_discrete}
use prajna_os.Float32.{FloatOps}
use prajna_os.Task.{Task, TaskState, ready, running, max_tasks}
use native.Mathlib.Nat.{zero-add}
use prajna_os.Ai.{Prajna, TaskHistory, ai_tick_interval}
use prajna_os.Ai.Sense.{sense_task, sense_tasks, ai_sense}
use prajna_os.Ai.Act.{ai_kernel_tick, run_cycle}
use prajna_os.Ml.{Weights}
use prajna_os.Scheduler.{
  Scheduler, choose_next, ml_score_task, ml_score_tasks, scheduler_tick,
  scheduler_do_pending_switch,
}
use prajna_os.Scheduler.Pick.{states, length-states, states-bound}
use prajna_os.Scheduler.Choice.{
  states-choose_next, Outcome, asked, unchanged, choose_next-Outcome, current_task-choose_next,
}

ready≢running : ready ≢ running
ready≢running e = cc

-- A state that is read after a write of another one was there before.
set-inv :
    (sts : List TaskState) (i j : ℕ) {st st' : TaskState}
    → st ≢ st'
    → get_elem? (set sts i st) j ≡ some st'
    → (j ≢ i) × (get_elem? sts j ≡ some st')
set-inv [] i j ne h = absurd (cc)
set-inv (x ∷ xs) zero zero ne h = absurd (ne (cc))
set-inv (x ∷ xs) zero (suc j) ne h = (omega arith, h)
set-inv (x ∷ xs) (suc i) zero ne h = (omega arith, h)
set-inv (x ∷ xs) (suc i) (suc j) ne h =
    let (n, r) = set-inv xs i j ne h in (λ e. n (omega arith), r)

module _ {F : Type 0} where
  pub states-modify :
      (ts : List (Task F)) (i : ℕ) (f : Task F → Task F) (st : TaskState)
      → ((t : Task F) → (f t).state ≡ st)
      → states (modify ts i f) ≡ set (states ts) i st
  states-modify [] i f st h = refl
  states-modify (t ∷ ts) zero f st h = ap (λ x. x ∷ states ts) (h t)
  states-modify (t ∷ ts) (suc i) f st h = ap (◌∷◌ t.state) (states-modify ts i f st h)

  -- The table has its eight entries, the current task is the running one, and a pending switch goes
  -- to a ready task.
  pub record OneRunning (s : Scheduler F) : Type 0 where
    pub sized : length s.tasks ≡ max_tasks
    pub current : get_elem? (states s.tasks) s.current_task ≡ some running
    pub only : (j : ℕ) → get_elem? (states s.tasks) j ≡ some running → j ≡ s.current_task
    pub pending : s.switch_pending ≡ true → get_elem? (states s.tasks) s.pending_target ≡ some ready

  -- The table after a switch.
  abbrev switched : Scheduler F → Scheduler F
  switched s = record s {
    switch_pending = false;
    tasks =
        modify (modify s.tasks s.current_task (λ t. record t { state = ready })) s.pending_target
          (λ t. record t { state = running; wait_ticks = 0 });
    current_task = s.pending_target;
  }

  do_switch :
      (s : Scheduler F)
      → s.switch_pending ≡ true
      → scheduler_do_pending_switch s ≡ (switched s, some (s.current_task, s.pending_target))
  unfolding scheduler_do_pending_switch
  do_switch s p =
      ap (λ b. if not b then (s, none) else (switched s, some (s.current_task, s.pending_target))) p

  pub no_switch :
      (s : Scheduler F) → s.switch_pending ≡ false → scheduler_do_pending_switch s ≡ (s, none)
  unfolding scheduler_do_pending_switch
  no_switch s p =
      ap (λ b. if not b then (s, none) else (switched s, some (s.current_task, s.pending_target))) p

  module _ {s : Scheduler F} (v : OneRunning s) (p : s.switch_pending ≡ true) where
    abbrev after : List TaskState
    after = set (set (states s.tasks) s.current_task ready) s.pending_target running

    states-switched : states (switched s).tasks ≡ after
    states-switched =
        states-modify (modify s.tasks s.current_task (λ t. record t { state = ready }))
          s.pending_target (λ t. record t { state = running; wait_ticks = 0 }) running (λ t. refl)
        ∙ ap (λ l. set l s.pending_target running)
            (states-modify s.tasks s.current_task (λ t. record t { state = ready }) ready
              (λ t. refl))

    target_other : s.pending_target ≢ s.current_task
    target_other e = clash (rw e at (v.pending p)) v.current
      where
        clash : {o : Option TaskState} → o ≡ some ready → o ≡ some running → ⊥
        clash x y = cc

    only_target : (j : ℕ) → get_elem? after j ≡ some running → j ≡ s.pending_target
    only_target j h = elim (ℕ_discrete j s.pending_target) [
      | yes e ↦ e
      | no ne ↦
          let h' =
            rw
              (get_elem?-set_ne (set (states s.tasks) s.current_task ready) s.pending_target j
                running (λ e. ne (sym e)))
              at h in
          let (nc, r) = set-inv (states s.tasks) s.current_task j ready≢running h' in
          absurd (nc (v.only j r))
    ]

    switched-OneRunning : OneRunning (switched s)
    switched-OneRunning = record {
      sized = length-modify _ _ _ ∙ length-modify _ _ _ ∙ v.sized;
      current = rw states-switched (
          get_elem?-set_self (set (states s.tasks) s.current_task ready) s.pending_target running (
            rw length-set
              (rw (length-states s.tasks) (states-bound s.tasks s.pending_target (v.pending p)))));
      only = λ j h. only_target j (rw states-switched at h);
      pending = λ e. absurd (cc);
    }

  -- If exactly the current task is running and a pending switch goes to a ready task, then this
  -- holds after `scheduler_do_pending_switch` too; with a switch pending it switches from the
  -- current task to the target, which becomes the current one, and without one it switches nothing.
  pub scheduler_do_pending_switch-OneRunning :
      {s : Scheduler F}
      → OneRunning s
      → OneRunning (scheduler_do_pending_switch s).0
        × ((scheduler_do_pending_switch s).1
            ≡ (if s.switch_pending then some (s.current_task, s.pending_target) else none))
        × ((scheduler_do_pending_switch s).0.current_task
            ≡ (if s.switch_pending then s.pending_target else s.current_task))
  scheduler_do_pending_switch-OneRunning {s} v = elim (Bool-cases s.switch_pending) [
    | inl p ↦ (
      subst (λ r. OneRunning r.0) (sym (do_switch s p)) (switched-OneRunning v p),
      ground (arith, do_switch s p),
      ground (arith, do_switch s p),
    )
    | inr n ↦ (
      subst (λ r. OneRunning r.0) (sym (no_switch s n)) v,
      ground (arith, no_switch s n),
      ground (arith, no_switch s n),
    )
  ]

module _ (fl : FloatOps) where
  open fl use {Float}

  states-sense_tasks :
      (elapsed : ℕ) (ts : List (Task Float)) (hs : List (TaskHistory Float))
      → states (sense_tasks fl elapsed ts hs).tasks ≡ states ts
  unfolding sense_tasks sense_task
  states-sense_tasks elapsed [] hs = refl
  states-sense_tasks elapsed (t ∷ ts) [] = refl
  states-sense_tasks elapsed (t ∷ ts) (h ∷ hs) =
      ap₂ ◌∷◌ (ground arith) (states-sense_tasks elapsed ts hs)

  pub states-ml_score_tasks :
      (w : Weights Float) (ts : List (Task Float)) → states (ml_score_tasks fl w ts) ≡ states ts
  unfolding ml_score_tasks ml_score_task
  states-ml_score_tasks w [] = refl
  states-ml_score_tasks w (t ∷ ts) = ap₂ ◌∷◌ (ground arith) (states-ml_score_tasks w ts)

  states-run_cycle :
      (now elapsed free_pages : ℕ) (ts : List (Task Float)) (p : Prajna Float)
      → states (run_cycle fl now elapsed free_pages ts p).tasks ≡ states ts
  unfolding run_cycle ai_sense
  states-run_cycle now elapsed free_pages ts p = states-sense_tasks _ ts p.task_history

  -- Prajna's cycle changes no task's state.
  pub states-ai_kernel_tick :
      (ticks free_pages : ℕ) (ts : List (Task Float)) (p : Prajna Float)
      → states (ai_kernel_tick fl ticks free_pages ts p).tasks ≡ states ts
  unfolding ai_kernel_tick
  states-ai_kernel_tick ticks free_pages ts p =
      elim (Bool-cases (not p.ai_online || ltb (sub32 ticks p.last_ai_tick) ai_tick_interval)) [
        | inl early ↦ rw early
        | inr due ↦ rw due (states-run_cycle ticks (sub32 ticks p.last_ai_tick) free_pages ts p)
      ]

  choose_next-OneRunning :
      (p : Prajna Float) {s : Scheduler Float} → OneRunning s → OneRunning (choose_next fl p s)
  choose_next-OneRunning p {s} v = record {
    sized =
        sym (length-states (choose_next fl p s).tasks)
        ∙ ap length (states-choose_next fl p s)
        ∙ length-states s.tasks
        ∙ v.sized;
    current = rw (states-choose_next fl p s, current_task-choose_next fl p s) v.current;
    only = λ j h.
        v.only j (rw (states-choose_next fl p s) at h) ∙ sym (current_task-choose_next fl p s);
    pending = λ e. rw (states-choose_next fl p s) (go e (choose_next-Outcome fl p s v.sized));
  }
    where
      go :
          (choose_next fl p s).switch_pending ≡ true
          → Outcome fl p s
          → get_elem? (states s.tasks) (choose_next fl p s).pending_target ≡ some ready
      go e (asked _ r) = rw (r.place ∙ zero-add r.offset) r.is_ready_there
      go e (unchanged a b) = rw b (v.pending (sym a ∙ e))

  -- Changing tasks without touching states keeps the invariant.
  pub same_states-OneRunning :
      {s : Scheduler Float} (ts : List (Task Float))
      → states ts ≡ states s.tasks
      → OneRunning s
      → OneRunning (record s { tasks = ts })
  same_states-OneRunning {s} ts e v = record {
    sized = sym (length-states ts) ∙ ap length e ∙ length-states s.tasks ∙ v.sized;
    current = rw e v.current;
    only = λ j h. v.only j (rw e at h);
    pending = λ q. rw e (v.pending q);
  }

  -- If the table has eight tasks, exactly the current one is running and a pending switch goes to a
  -- ready task, then the same holds after `scheduler_tick`, Prajna's cycle and the scoring
  -- included, for every clock, memory, network and state of Prajna.
  pub scheduler_tick-OneRunning :
      (w : Weights Float) (ticks free_pages : ℕ) (p : Prajna Float) {s : Scheduler Float}
      → OneRunning s
      → OneRunning (scheduler_tick fl w ticks free_pages p s).0
  unfolding scheduler_tick
  scheduler_tick-OneRunning w ticks free_pages p {s} v = elim (Bool-cases (s.task_count == 0)) [
    | inl none' ↦ rw none' v
    | inr some' ↦ rw some' (
        choose_next-OneRunning _ (
          same_states-OneRunning _
            (states-ml_score_tasks w _ ∙ states-ai_kernel_tick ticks free_pages s.tasks p) v))
  ]
