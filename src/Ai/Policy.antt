-- ===== src/Ai/Policy.antt =====
-- kernel/ai_kernel.c, `ai_think`: the permissions and priorities of the tasks.
use prajna_os.Base.{
  ℕ, zero, suc, ◌+◌, ◌≤◌, ◌<◌, ◌≡◌, ◌≢◌, refl, ◌∙◌, arith, List, [], ◌∷◌, Bool, true, false, not,
  ◌&&◌, if◌then◌else◌, get_or, ltb, ◌==◌, get_elem?, some,
}
use prajna_os.Float32.{FloatOps}
use prajna_os.Task.{Task, is_dead, shell_task_id}
use prajna_os.Ai.{Permission, SysState, calm, normal, alert, no_permission, starvation_threshold}
use prajna_os.Ai.Sense.{Input}
use prajna_os.Ai.Think.{
  is_alert, state_of, score_priority, think_task, think_from, raise_shell, ai_think,
}

-- The system state is ALERT exactly below 64 free pages, else NORMAL exactly above four ready tasks.
pub state_of_lem :
    (free_pages ready_count : ℕ)
    → (state_of free_pages ready_count ≡ alert → free_pages < 64)
      × (free_pages < 64 → state_of free_pages ready_count ≡ alert)
      × (state_of free_pages ready_count ≡ normal → (64 ≤ free_pages) × (4 < ready_count))
      × (state_of free_pages ready_count ≡ calm → (64 ≤ free_pages) × (ready_count ≤ 4))
unfolding state_of
state_of_lem f r = (λ e. ground arith, λ e. ground arith, λ e. ground arith, λ e. ground arith)

module _ (fl : FloatOps) where
  open fl use {Float, decimal, flt}

  -- What one task is granted.
  pub record Fair (st : SysState) (i : ℕ) (t : Task Float) (anomalous : Bool) (p : Permission)
      : Type 0 where
    pub dead_blocked : is_dead t.state ≡ true → p ≡ no_permission
    pub alert_blocked : st ≡ alert → i ≢ shell_task_id → p ≡ no_permission
    pub alive_allowed :
        is_dead t.state ≡ false
        → (is_alert st && not (i == shell_task_id)) ≡ false
        → p.allowed ≡ true
    pub tier : p.priority ≤ 2
    pub starving_high : p.allowed ≡ true → starvation_threshold < t.wait_ticks → p.priority ≡ 2
    pub anomalous_capped : anomalous ≡ true → t.wait_ticks ≤ starvation_threshold → p.priority ≤ 1

  score_priority-le : (score : Float) → score_priority fl score ≤ 2
  unfolding score_priority
  score_priority-le score = ground arith

  -- A dead task is blocked; in ALERT every task but the shell is blocked, even one that starves; any
  -- other task is allowed; an allowed task that has waited over 5 ticks gets priority 2, and an
  -- anomalous task that has not gets 1 at most.
  pub think_task-Fair :
      (st : SysState) (i : ℕ) (t : Task Float) (score : Float) (anomalous : Bool)
      → Fair st i t anomalous (think_task fl st i t score anomalous)
  unfolding think_task
  think_task-Fair st i t score anomalous =
      let small = score_priority-le score in
      record {
        dead_blocked = λ e. ground arith;
        alert_blocked = λ e n. ground arith;
        alive_allowed = λ e n. ground arith;
        tier = ground arith;
        starving_high = λ e n. ground arith;
        anomalous_capped = λ e n. ground arith;
      }

  get_elem?-think_from :
      (st : SysState) (inp : Input Float) (k i j : ℕ) (tasks : List (Task Float)) (t : Task Float)
      → k + i ≡ j
      → get_elem? tasks i ≡ some t
      → get_elem? (think_from fl st inp k tasks) i
        ≡ some (
            think_task fl st j t
              (get_or inp.ml_scores j (decimal 0 0))
              (get_or inp.anomaly j false))
  unfolding think_from
  get_elem?-think_from st inp k i j [] t e h = absurd (cc)
  get_elem?-think_from st inp k zero j (u ∷ us) t e h =
      let e' : k ≡ j = omega arith in let same : u ≡ t = cc in rw (e', same)
  get_elem?-think_from st inp k (suc i) j (u ∷ us) t e h =
      get_elem?-think_from st inp (k + 1) i j us t (omega arith) h

  get_elem?-raise_shell :
      (tasks : List (Task Float)) (ps : List Permission) (i : ℕ)
      → get_elem? (raise_shell fl tasks ps) (suc i) ≡ get_elem? ps (suc i)
  unfolding raise_shell
  get_elem?-raise_shell [] [] i = refl
  get_elem?-raise_shell [] (p ∷ ps) i = refl
  get_elem?-raise_shell (t ∷ ts) [] i = refl
  get_elem?-raise_shell (t ∷ ts) (p ∷ ps) i = ground arith

  abbrev pub decided_state : Input Float → SysState
  decided_state inp = (state_of inp.free_pages inp.ready_count)

  -- The decision of `ai_think` for every task but the shell: a dead task is blocked; in ALERT every
  -- other one is blocked too, even one that starves; outside ALERT a living task is allowed; an
  -- allowed task that has waited over 5 ticks gets priority 2, an anomalous one that has not gets 1
  -- at most, and no priority is above 2.
  pub ai_think-Fair :
      (inp : Input Float) (tasks : List (Task Float)) (i : ℕ) {t : Task Float}
      → get_elem? tasks (suc i) ≡ some t
      → (p : Permission) × (get_elem? (ai_think fl inp tasks).perms (suc i) ≡ some p)
        × Fair (ai_think fl inp tasks).sys_state (suc i) t (get_or inp.anomaly (suc i) false) p
  unfolding ai_think
  ai_think-Fair inp tasks i {t} h =
      let st = state_of inp.free_pages inp.ready_count in
      (
        think_task fl st (suc i) t (get_or inp.ml_scores (suc i) (decimal 0 0))
            (get_or inp.anomaly (suc i) false),
        get_elem?-raise_shell tasks (think_from fl st inp 0 tasks) i
            ∙ get_elem?-think_from st inp 0 (suc i) (suc i) tasks t (omega arith) h,
        think_task-Fair st (suc i) t _ _,
      )

  -- A shell task that is not dead is always allowed by `ai_think`, in ALERT too, with priority 1 or
  -- 2.
  pub ai_think-shell :
      (inp : Input Float) (t : Task Float) (ts : List (Task Float))
      → is_dead t.state ≡ false
      → (p : Permission) × (get_elem? (ai_think fl inp (t ∷ ts)).perms shell_task_id ≡ some p)
        × (p.allowed ≡ true)
        × (1 ≤ p.priority)
        × (p.priority ≤ 2)
  unfolding ai_think raise_shell think_from
  ai_think-shell inp t ts alive =
      let st = state_of inp.free_pages inp.ready_count in
      let p =
        think_task fl st 0 t (get_or inp.ml_scores 0 (decimal 0 0)) (get_or inp.anomaly 0 false) in
      let fair =
        think_task-Fair st 0 t (get_or inp.ml_scores 0 (decimal 0 0))
          (get_or inp.anomaly 0 false) in
      (
        record { allowed = true; priority = if ltb p.priority 1 then 1 else p.priority },
        rw alive,
        refl,
        ground arith,
        ground (arith, fair.tier),
      )
