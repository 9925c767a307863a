-- ===== src/Scheduler/Pick.antt =====
-- kernel/scheduler.c: the two loops of `scheduler_tick` that look for the next task.
use mathlib.Core.Path.{subst}
use prajna_os.Base.{
  ℕ, zero, suc, ◌+◌, ◌≤◌, ◌<◌, ◌≡◌, ◌≢◌, refl, arith, ap, ap₂, List, [], ◌∷◌, Bool, true, false,
  not, ◌&&◌, ◌==◌, get_elem?, some, length, Bool-cases, inl, inr, ◌⊎◌,
}
use prajna_os.Float32.{FloatOps}
use prajna_os.Task.{Task, TaskState, ready, is_ready}
use prajna_os.Ai.{Prajna}
use prajna_os.Scheduler.{first_ready, pick_from, vetoed, wait_longer, combined_score}

-- The states of the table.
abbrev pub states : {F : Type 0} → List (Task F) → List TaskState
states [] = []
states (t ∷ ts) = t.state ∷ states ts

-- Task `i + k` of the table from task `i` on is ready and is not the current one.
pub record Runnable (prev i : ℕ) (sts : List TaskState) (b : ℕ) : Type 0 where
  pub offset : ℕ
  pub place : b ≡ i + offset
  pub is_ready_there : get_elem? sts offset ≡ some ready
  pub other : b ≢ prev

pub Runnable-cons :
    {prev i b : ℕ} {sts : List TaskState} (st : TaskState)
    → Runnable prev (i + 1) sts b
    → Runnable prev i (st ∷ sts) b
Runnable-cons st r = record {
  offset = suc r.offset;
  place = omega (arith, r.place);
  is_ready_there = r.is_ready_there;
  other = r.other;
}

is_ready→ready : (st : TaskState) → is_ready st ≡ true → st ≡ ready
is_ready→ready st h = ground arith

here_Runnable :
    {F : Type 0} (prev i : ℕ) (t : Task F) (ts : List (Task F))
    → (not (i == prev) && is_ready t.state) ≡ true
    → Runnable prev i (states (t ∷ ts)) i
here_Runnable prev i t ts h = record {
  offset = 0;
  place = omega arith;
  is_ready_there = ap some (is_ready→ready t.state (ground arith));
  other = ground arith;
}

module _ {F : Type 0} where
  pub length-states : (ts : List (Task F)) → length (states ts) ≡ length ts
  length-states [] = refl
  length-states (t ∷ ts) = ap suc (length-states ts)

  pub states-bound :
      (ts : List (Task F)) (k : ℕ) {st : TaskState}
      → get_elem? (states ts) k ≡ some st
      → k < length ts
  states-bound [] k h = absurd (cc)
  states-bound (t ∷ ts) zero h = omega arith
  states-bound (t ∷ ts) (suc k) h = omega (arith, states-bound ts k h)

  -- The fallback loop: the lowest ready task that is not current, or the end of the table.
  pub data FirstReady (prev i : ℕ) (ts : List (Task F)) : ℕ → Type 0 where
    hit : {b : ℕ} → Runnable prev i (states ts) b → FirstReady prev i ts b
    miss :
        {b : ℕ}
        → b ≡ i + length ts
        → ((k : ℕ) → get_elem? (states ts) k ≡ some ready → i + k ≡ prev)
        → FirstReady prev i ts b

  pub first_ready-FirstReady :
      (prev i : ℕ) (ts : List (Task F)) → FirstReady prev i ts (first_ready prev i ts)
  unfolding first_ready
  first_ready-FirstReady prev i [] = miss (omega arith) (λ k e. absurd (cc))
  first_ready-FirstReady prev i (t ∷ ts) = elim (Bool-cases (not (i == prev) && is_ready t.state)) [
    | inl h ↦ rw h (hit (here_Runnable prev i t ts h))
    | inr h ↦ rw h (later h (first_ready-FirstReady prev (i + 1) ts))
  ]
    where
      none_here :
          (not (i == prev) && is_ready t.state) ≡ false
          → ((k : ℕ) → get_elem? (states ts) k ≡ some ready → i + 1 + k ≡ prev)
          → (k : ℕ) → get_elem? (states (t ∷ ts)) k ≡ some ready
          → i + k ≡ prev
      none_here h rest zero e = let st : t.state ≡ ready = cc in ground arith
      none_here h rest (suc k) e = omega (arith, rest k e)

      later :
          {b : ℕ}
          → (not (i == prev) && is_ready t.state) ≡ false
          → FirstReady prev (i + 1) ts b
          → FirstReady prev i (t ∷ ts) b
      later h (hit r) = hit (Runnable-cons t.state r)
      later h (miss e rest) = miss (omega arith) (none_here h rest)

module _ (fl : FloatOps) (fallback : Bool) (p : Prajna fl.Float) (prev : ℕ) where
  open fl use {Float, flt}

  pub states-pick_from :
      (i : ℕ) (ts : List (Task Float)) (best : ℕ) (score : Float)
      → states (pick_from fl fallback p prev i ts best score).tasks ≡ states ts
  unfolding pick_from wait_longer
  states-pick_from i [] best score = refl
  states-pick_from i (t ∷ ts) best score = ap₂ ◌∷◌ (ground arith) (states-pick_from (i + 1) ts _ _)

  -- What the loop may end with.
  abbrev pub Ends : ℕ → List (Task Float) → ℕ → ℕ → Type 0
  Ends i ts best b = (b ≡ best) ⊎ (Runnable prev i (states ts) b × (vetoed fl fallback p b ≡ false))

  taken :
      {i b best : ℕ} (t : Task Float) (ts : List (Task Float))
      → (not (i == prev) && is_ready t.state) ≡ true
      → vetoed fl fallback p i ≡ false
      → Ends (i + 1) ts i b
      → Ends i (t ∷ ts) best b
  taken {i} t ts waits free (inl e) = inr (rw e (here_Runnable prev i t ts waits, free))
  taken t ts waits free (inr (r, v)) = inr (Runnable-cons t.state r, v)

  passed :
      {i b best : ℕ} (t : Task Float) (ts : List (Task Float))
      → Ends (i + 1) ts best b
      → Ends i (t ∷ ts) best b
  passed t ts (inl e) = inl e
  passed t ts (inr (r, v)) = inr (Runnable-cons t.state r, v)

  -- The loop ends with what it started with, or with a runnable task that Prajna does not veto.
  pub pick_from-best :
      (i : ℕ) (ts : List (Task Float)) (best : ℕ) (score : Float)
      → let b = (pick_from fl fallback p prev i ts best score).best in
        (b ≡ best) ⊎ (Runnable prev i (states ts) b × (vetoed fl fallback p b ≡ false))
  unfolding pick_from
  pick_from-best i [] best score = inl refl
  pick_from-best i (t ∷ ts) best score =
      let waits = not (i == prev) && is_ready t.state in
      let combined = combined_score fl p i (wait_longer fl t) in
      let better = waits && not (vetoed fl fallback p i) && flt score combined in
      elim (Bool-cases better) [
        | inl yes' ↦
            rw yes'
              (taken t ts (ground arith) (ground arith) (pick_from-best (i + 1) ts i combined))
        | inr no' ↦ rw no' (passed t ts (pick_from-best (i + 1) ts best score))
      ]

  -- The first task by the test itself, the others by the rest of the loop.
  at_index :
      (i : ℕ) (t : Task Float) (ts : List (Task Float)) (score : Float)
      → (not (i == prev)
          && is_ready t.state
          && not (vetoed fl fallback p i)
          && flt score (combined_score fl p i (wait_longer fl t)))
        ≡ false
      → (k : ℕ) (u : Task Float) → get_elem? (t ∷ ts) k ≡ some u
      → is_ready u.state ≡ true
      → i + k ≢ prev
      → vetoed fl fallback p (i + k) ≡ false
      → ((k : ℕ) (t : Task Float)
          → get_elem? ts k ≡ some t
          → is_ready t.state ≡ true
          → i + 1 + k ≢ prev
          → vetoed fl fallback p (i + 1 + k) ≡ false
          → flt score (combined_score fl p (i + 1 + k) (wait_longer fl t)) ≡ false)
      → flt score (combined_score fl p (i + k) (wait_longer fl u)) ≡ false
  at_index i t ts score h zero u g rd ne free rest =
      let same : t ≡ u = cc in
      let at_zero : i + 0 ≡ i = omega arith in
      let other : (i == prev) ≡ false = ground arith in
      let r : is_ready t.state ≡ true = rw same rd in
      rw at_zero (
        subst (λ x. flt score (combined_score fl p i (wait_longer fl x)) ≡ false) same
          (last other r (rw at_zero at free) h))
    where
      last :
          {a b c d : Bool}
          → a ≡ false
          → b ≡ true
          → c ≡ false
          → (not a && b && not c && d) ≡ false
          → d ≡ false
      last x y z h = ground arith
  at_index i t ts score h (suc k) u g rd ne free rest =
      let e : i + suc k ≡ i + 1 + k = omega arith in
      rw e (rest k u g rd (omega arith) (rw e at free))

  -- A runnable task with a better score moves `best` inside the table.
  taken-ne :
      (i : ℕ) (ts : List (Task Float)) (best : ℕ) (score : Float)
      → i + suc (length ts) ≤ best
      → (pick_from fl fallback p prev (i + 1) ts i score).best ≢ best
  taken-ne i ts best score h e = go (pick_from-best (i + 1) ts i score)
    where
      go : Ends (i + 1) ts i (pick_from fl fallback p prev (i + 1) ts i score).best → ⊥
      go (inl e') = omega arith
      go (inr (r, v)) = omega (arith, r.place, states-bound ts r.offset r.is_ready_there)

  -- A loop that ends where it started met no runnable task that Prajna allows and whose score beats
  -- the initial one.
  pub pick_from-none :
      (i : ℕ) (ts : List (Task Float)) (best : ℕ) (score : Float)
      → i + length ts ≤ best
      → (pick_from fl fallback p prev i ts best score).best ≡ best
      → (k : ℕ) {t : Task Float} → get_elem? ts k ≡ some t
      → is_ready t.state ≡ true
      → i + k ≢ prev
      → vetoed fl fallback p (i + k) ≡ false
      → flt score (combined_score fl p (i + k) (wait_longer fl t)) ≡ false
  unfolding pick_from
  pick_from-none i [] best score h e k g rd ne free = absurd (cc)
  pick_from-none i (t ∷ ts) best score h e k {t = u} g rd ne free =
      let waits = not (i == prev) && is_ready t.state in
      let combined = combined_score fl p i (wait_longer fl t) in
      let better = waits && not (vetoed fl fallback p i) && flt score combined in
      elim (Bool-cases better) [
        | inl yes' ↦ absurd (taken-ne i ts best combined h (rw yes' at e))
        | inr no' ↦
            at_index i t ts score no' k u g rd ne free
              (λ j v. pick_from-none (i + 1) ts best score (omega arith) (rw no' at e) j {t = v})
      ]
