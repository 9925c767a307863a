-- ===== src/Scheduler/Choice.antt =====
-- kernel/scheduler.c, `scheduler_tick`: the target of the next switch.
use prajna_os.Base.{
  ℕ, ◌+◌, ◌≡◌, ◌≢◌, refl, arith, ap, sym, ◌∙◌, Bool, true, false, ◌==◌, if◌then◌else◌, get_elem?,
  some, length, Bool-cases, inl, inr,
}
use mathlib.Core.Path.{subst}
use prajna_os.Float32.{FloatOps}
use prajna_os.Task.{Task, ready, is_ready, max_tasks}
use prajna_os.Ai.{Prajna}
use prajna_os.Scheduler.{
  Scheduler, Candidate, first_ready, pick_from, vetoed, wait_longer, combined_score, choose_next,
}
use prajna_os.Scheduler.Pick.{
  states, length-states, states-bound, Runnable, FirstReady, hit, miss, first_ready-FirstReady,
  states-pick_from, pick_from-best, pick_from-none, Ends,
}

module _ (fl : FloatOps) (p : Prajna fl.Float) (s : Scheduler fl.Float) where
  open fl use {Float, decimal, neg, flt}

  abbrev start_score : Float
  start_score = neg (decimal 1 0)

  -- The loop's outcome.
  abbrev picked : Candidate Float
  picked = pick_from fl s.prajna_fallback p s.current_task 0 s.tasks max_tasks start_score

  same_length : length picked.tasks ≡ length s.tasks
  same_length =
      sym (length-states picked.tasks)
      ∙ ap length
          (states-pick_from fl s.prajna_fallback p s.current_task 0 s.tasks max_tasks start_score)
      ∙ length-states s.tasks

  -- The target chosen, or MAX_TASKS.
  abbrev pub chosen : ℕ
  chosen =
      if picked.best == max_tasks then first_ready s.current_task 0 picked.tasks else picked.best

  -- What the choice means for the table before the call.
  data Chosen (b : ℕ) : Type 0 where
    -- A runnable task.
    target : Runnable s.current_task 0 (states s.tasks) b → Chosen b
    -- No runnable task at all.
    nobody :
        b ≡ max_tasks
        → ((k : ℕ) → get_elem? (states s.tasks) k ≡ some ready → k ≡ s.current_task)
        → Chosen b

  of_first :
      length s.tasks ≡ max_tasks → {b : ℕ} → FirstReady s.current_task 0 picked.tasks b → Chosen b
  of_first n {b} (hit r) = target (
      subst (λ sts. Runnable s.current_task 0 sts b)
        (states-pick_from fl s.prajna_fallback p s.current_task 0 s.tasks max_tasks start_score) r)
  of_first n (miss e none') = nobody (omega (arith, e, same_length)) (λ k g. omega (
    arith,
    none' k (
        rw (states-pick_from fl s.prajna_fallback p s.current_task 0 s.tasks max_tasks start_score)
          g),
  ))

  chosen-Chosen : length s.tasks ≡ max_tasks → Chosen chosen
  chosen-Chosen n = elim (Bool-cases (picked.best == max_tasks)) [
    | inl e ↦ rw e (of_first n (first_ready-FirstReady s.current_task 0 picked.tasks))
    | inr ne ↦ rw ne (
        go ne
          (pick_from-best fl s.prajna_fallback p s.current_task 0 s.tasks max_tasks start_score))
  ]
    where
      go :
          (picked.best == max_tasks) ≡ false
          → Ends fl s.prajna_fallback p s.current_task 0 s.tasks max_tasks picked.best
          → Chosen picked.best
      go ne (inl e) = absurd (ground arith)
      go ne (inr (r, v)) = target r

  -- No state changes while the next task is chosen.
  pub states-choose_next : states (choose_next fl p s).tasks ≡ states s.tasks
  unfolding choose_next
  states-choose_next =
      let same =
        states-pick_from fl s.prajna_fallback p s.current_task 0 s.tasks max_tasks start_score in
      elim (Bool-cases (chosen == max_tasks)) [ inl e ↦ rw e same | inr ne ↦ rw ne same ]

  -- In a table of eight tasks where some task that is not current is ready, the choice asks for a
  -- switch, and to a ready task that is not current.
  pub choose_next-target :
      (k : ℕ)
      → length s.tasks ≡ max_tasks
      → get_elem? (states s.tasks) k ≡ some ready
      → k ≢ s.current_task
      → ((choose_next fl p s).switch_pending ≡ true)
        × Runnable s.current_task 0 (states s.tasks) (choose_next fl p s).pending_target
  unfolding choose_next
  choose_next-target k n g ne = go (chosen-Chosen n) refl
    where
      go :
          Chosen chosen
          → chosen ≡ chosen
          → ((choose_next fl p s).switch_pending ≡ true)
            × Runnable s.current_task 0 (states s.tasks) (choose_next fl p s).pending_target
      go (target r) e =
          let inside : (chosen == max_tasks) ≡ false =
            ground (arith, r.place, states-bound s.tasks r.offset r.is_ready_there) in
          rw inside (refl, r)
      go (nobody b none') e = absurd (ne (none' k g))

  -- In a table of eight tasks where no task but the current one is ready, the choice leaves
  -- the pending switch and its target as they were.
  pub choose_next-idle :
      length s.tasks ≡ max_tasks
      → ((k : ℕ) → get_elem? (states s.tasks) k ≡ some ready → k ≡ s.current_task)
      → ((choose_next fl p s).switch_pending ≡ s.switch_pending)
        × ((choose_next fl p s).pending_target ≡ s.pending_target)
  unfolding choose_next
  choose_next-idle n nothing = go (chosen-Chosen n)
    where
      go :
          Chosen chosen
          → ((choose_next fl p s).switch_pending ≡ s.switch_pending)
            × ((choose_next fl p s).pending_target ≡ s.pending_target)
      go (target r) = absurd (r.other (r.place ∙ omega (arith, nothing r.offset r.is_ready_there)))
      go (nobody e none') =
          let all : (chosen == max_tasks) ≡ true = ground arith in rw all (refl, refl)

  -- The switch that is pending after the choice.
  pub data Outcome : Type 0 where
    asked :
        (choose_next fl p s).switch_pending ≡ true
        → Runnable s.current_task 0 (states s.tasks) (choose_next fl p s).pending_target
        → Outcome
    unchanged :
        (choose_next fl p s).switch_pending ≡ s.switch_pending
        → (choose_next fl p s).pending_target ≡ s.pending_target
        → Outcome

  pub choose_next-Outcome : length s.tasks ≡ max_tasks → Outcome
  unfolding choose_next
  choose_next-Outcome n = go (chosen-Chosen n)
    where
      go : Chosen chosen → Outcome
      go (target r) =
          let inside : (chosen == max_tasks) ≡ false =
            ground (arith, r.place, states-bound s.tasks r.offset r.is_ready_there) in
          asked (rw inside) (rw inside r)
      go (nobody e none') =
          let all : (chosen == max_tasks) ≡ true = ground arith in unchanged (rw all) (rw all)

  pub current_task-choose_next : (choose_next fl p s).current_task ≡ s.current_task
  unfolding choose_next
  current_task-choose_next = elim (Bool-cases (chosen == max_tasks)) [
    | inl e ↦ rw e
    | inr ne ↦ rw ne
  ]

  target_of_best :
      (picked.best == max_tasks) ≡ false → (choose_next fl p s).pending_target ≡ picked.best
  unfolding choose_next
  target_of_best e = rw (e, e)

  -- In a table of eight tasks, if the task that the choice switches to is one that Prajna
  -- vetoes, then no ready task that is not current and that Prajna allows has a combined score
  -- above -1.0.
  pub choose_next-veto :
      (j : ℕ) {t : Task Float}
      → length s.tasks ≡ max_tasks
      → vetoed fl s.prajna_fallback p (choose_next fl p s).pending_target ≡ true
      → get_elem? s.tasks j ≡ some t
      → is_ready t.state ≡ true
      → j ≢ s.current_task
      → vetoed fl s.prajna_fallback p j ≡ false
      → flt (neg (decimal 1 0)) (combined_score fl p j (wait_longer fl t)) ≡ false
  choose_next-veto j {t} n v gj rj nj free =
      go (pick_from-best fl s.prajna_fallback p s.current_task 0 s.tasks max_tasks start_score)
    where
      at_zero : 0 + j ≡ j
      at_zero = omega arith

      clash : {b : Bool} → b ≡ true → b ≡ false → ⊥
      clash x y = cc

      go :
          Ends fl s.prajna_fallback p s.current_task 0 s.tasks max_tasks picked.best
          → flt (neg (decimal 1 0)) (combined_score fl p j (wait_longer fl t)) ≡ false
      go (inl e) = rw at_zero at (
          pick_from-none fl s.prajna_fallback p s.current_task 0 s.tasks max_tasks start_score
            (omega arith) e j gj rj (rw at_zero nj) (rw at_zero free))
      go (inr (r, free')) =
          let inside : (picked.best == max_tasks) ≡ false =
            ground (arith, r.place, states-bound s.tasks r.offset r.is_ready_there) in
          let v' = rw (target_of_best inside) at v in absurd (clash v' free')
