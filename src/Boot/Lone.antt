-- ===== src/Boot/Lone.antt =====
-- kernel/scheduler.c: the scheduler with the shell's task alone, as it is while the kernel starts.
use prajna_os.Base.{
  ℕ, zero, suc, ◌+◌, ◌≡◌, refl, arith, ap, sym, ◌∙◌, List, [], ◌∷◌, Option, none, some, Bool, false,
  ◌==◌, get_elem?, length, replicate, Bool-cases, inl, inr, modify, not, ◌||◌, ltb, sub32, ◌≢◌, u8,
}
use prajna_os.Float32.{FloatOps}
use prajna_os.Task.{Task, dead, ready, max_tasks}
use prajna_os.Ai.{Prajna, TaskHistory, ai_tick_interval}
use prajna_os.Ai.Sense.{sense_task, sense_tasks, ai_sense}
use prajna_os.Ai.Act.{ai_kernel_tick, run_cycle}
use prajna_os.Ml.{Weights}
use prajna_os.Scheduler.{
  Scheduler, wait_longer, pick_from, choose_next, ml_score_task, ml_score_tasks, scheduler_tick,
}
use prajna_os.Scheduler.Pick.{states, length-states}
use prajna_os.Scheduler.Choice.{
  chosen, states-choose_next, choose_next-idle, current_task-choose_next,
}
use prajna_os.Scheduler.Running.{no_switch, states-ml_score_tasks, states-ai_kernel_tick}
use prajna_os.Timer.Calls.{IsStable}
use prajna_os.Timer.Sound.{states-counted}
use prajna_os.Boot.Greeting.{only_shell}

-- The stack pointer of the first task.
abbrev pub first_esp : {F : Type 0} → List (Task F) → Option ℕ
first_esp [] = none
first_esp (t ∷ ts) = some t.esp

first_esp-counted :
    {F : Type 0} (ts : List (Task F)) (i : ℕ)
    → first_esp (modify ts i (λ t. record t { run_ticks = u8 (t.run_ticks + 1) })) ≡ first_esp ts
first_esp-counted [] i = refl
first_esp-counted (t ∷ ts) zero = refl
first_esp-counted (t ∷ ts) (suc i) = refl

module _ (fl : FloatOps) where
  open fl use {Float, neg, decimal}

  first_esp-sense_tasks :
      (elapsed : ℕ) (ts : List (Task Float)) (hs : List (TaskHistory Float))
      → first_esp (sense_tasks fl elapsed ts hs).tasks ≡ first_esp ts
  unfolding sense_tasks sense_task
  first_esp-sense_tasks elapsed [] hs = refl
  first_esp-sense_tasks elapsed (t ∷ ts) [] = refl
  first_esp-sense_tasks elapsed (t ∷ ts) (h ∷ hs) = ap some (ground arith)

  first_esp-run_cycle :
      (now elapsed free_pages : ℕ) (ts : List (Task Float)) (p : Prajna Float)
      → first_esp (run_cycle fl now elapsed free_pages ts p).tasks ≡ first_esp ts
  unfolding run_cycle ai_sense
  first_esp-run_cycle now elapsed free_pages ts p = first_esp-sense_tasks _ ts p.task_history

  first_esp-ai_kernel_tick :
      (ticks free_pages : ℕ) (ts : List (Task Float)) (p : Prajna Float)
      → first_esp (ai_kernel_tick fl ticks free_pages ts p).tasks ≡ first_esp ts
  unfolding ai_kernel_tick
  first_esp-ai_kernel_tick ticks free_pages ts p =
      elim (Bool-cases (not p.ai_online || ltb (sub32 ticks p.last_ai_tick) ai_tick_interval)) [
        | inl early ↦ rw early
        | inr due ↦ rw due (first_esp-run_cycle ticks (sub32 ticks p.last_ai_tick) free_pages ts p)
      ]

  first_esp-ml_score_tasks :
      (w : Weights Float) (ts : List (Task Float))
      → first_esp (ml_score_tasks fl w ts) ≡ first_esp ts
  unfolding ml_score_tasks ml_score_task
  first_esp-ml_score_tasks w [] = refl
  first_esp-ml_score_tasks w (t ∷ ts) = ap some (ground arith)

  first_esp-pick_from :
      (fallback : Bool) (p : Prajna Float) (prev i : ℕ) (ts : List (Task Float)) (best : ℕ)
      (score : Float)
      → first_esp (pick_from fl fallback p prev i ts best score).tasks ≡ first_esp ts
  unfolding pick_from wait_longer
  first_esp-pick_from fallback p prev i [] best score = refl
  first_esp-pick_from fallback p prev i (t ∷ ts) best score = ap some (ground arith)

  first_esp-choose_next :
      (p : Prajna Float) (s : Scheduler Float)
      → first_esp (choose_next fl p s).tasks ≡ first_esp s.tasks
  unfolding choose_next
  first_esp-choose_next p s =
      let same =
        first_esp-pick_from s.prajna_fallback p s.current_task 0 s.tasks max_tasks
          (neg (decimal 1 0)) in
      elim (Bool-cases (chosen fl p s == max_tasks)) [ inl e ↦ rw e same | inr ne ↦ rw ne same ]

-- A table with the shell's task alone, ready and with `sp` as its stack pointer, and no switch pending.
pub record OnlyShell {F : Type 0} (sp : ℕ) (s : Scheduler F) : Type 0 where
  pub table : states s.tasks ≡ only_shell ready
  pub first : first_esp s.tasks ≡ some sp
  pub current : s.current_task ≡ 0
  pub no_pending : s.switch_pending ≡ false

no_ready : (n j : ℕ) → get_elem? (replicate n dead) j ≢ some ready
no_ready zero j h = cc
no_ready (suc n) zero h = cc
no_ready (suc n) (suc j) h = no_ready n j h

only_first : (j : ℕ) → get_elem? (only_shell ready) j ≡ some ready → j ≡ 0
only_first zero h = refl
only_first (suc j) h = absurd (no_ready 7 j h)

module _ (fl : FloatOps) {sp : ℕ} where
  open fl use {Float}

  choose_next-OnlyShell :
      (p : Prajna Float) {s : Scheduler Float} → OnlyShell sp s → OnlyShell sp (choose_next fl p s)
  choose_next-OnlyShell p {s} v =
      let sized : length s.tasks ≡ max_tasks = sym (length-states s.tasks) ∙ ap length v.table in
      let idle =
        choose_next-idle fl p s sized (λ k h. only_first k (rw v.table at h) ∙ sym v.current) in
      record {
        table = states-choose_next fl p s ∙ v.table;
        first = first_esp-choose_next fl p s ∙ v.first;
        current = current_task-choose_next fl p s ∙ v.current;
        no_pending = idle.0 ∙ v.no_pending;
      }

  scheduler_tick-OnlyShell :
      (w : Weights Float) (ticks pages : ℕ) (p : Prajna Float) {s : Scheduler Float}
      → OnlyShell sp s
      → OnlyShell sp (scheduler_tick fl w ticks pages p s).0
  unfolding scheduler_tick
  scheduler_tick-OnlyShell w ticks pages p {s} v = elim (Bool-cases (s.task_count == 0)) [
    | inl none' ↦ rw none' v
    | inr some' ↦ rw some' (
        choose_next-OnlyShell _ (record {
          table =
              states-ml_score_tasks fl w _
              ∙ states-ai_kernel_tick fl ticks pages s.tasks p
              ∙ v.table;
          first =
              first_esp-ml_score_tasks fl w _
              ∙ first_esp-ai_kernel_tick fl ticks pages s.tasks p
              ∙ v.first;
          current = v.current;
          no_pending = v.no_pending;
        }))
  ]

  -- With no other task ready, a tick asks for no switch.
  pub OnlyShell-IsStable : IsStable fl (OnlyShell sp)
  OnlyShell-IsStable = record {
    counted = λ {s} i v. record {
      table = states-counted s.tasks i ∙ v.table;
      first = first_esp-counted s.tasks i ∙ v.first;
      current = v.current;
      no_pending = v.no_pending;
    };
    scheduled = λ w ticks pages p {s} v.
        let s' = (scheduler_tick fl w ticks pages p s).0 in
        let v' = scheduler_tick-OnlyShell w ticks pages p v in rw (no_switch s' v'.no_pending) v';
  }
