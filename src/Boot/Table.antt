-- ===== src/Boot/Table.antt =====
-- kernel/scheduler.c and kernel/heap.c: the steps of the start on the task table and the bitmap.
use prajna_os.Base.{
  ℕ, zero, suc, ◌≡◌, ◌≢◌, refl, arith, ap, sym, ◌∙◌, List, [], ◌∷◌, length, some, false, ◌==◌,
  Bool-cases, inl, inr, replicate, map, get_elem?, set,
}
use prajna_os.Float32.{FloatOps}
use prajna_os.Task.{Task, dead, ready, running, max_tasks}
use prajna_os.Pmm.{alloc}
use prajna_os.Heap.{Heap, heap_init}
use prajna_os.Scheduler.{Scheduler, empty_slot, first_dead}
use prajna_os.Scheduler.Pick.{states, length-states}
use prajna_os.Scheduler.Running.{OneRunning, states-modify}
use prajna_os.Scheduler.Context.{resume}
use prajna_os.Scheduler.Create.{Machine, task_create, scheduler_start, fill_slot}
use prajna_os.Boot.Greeting.{only_shell}

module _ {F : Type 0} where
  pub states-empty_slots :
      (ts : List (Task F)) → states (map empty_slot ts) ≡ replicate (length ts) dead
  states-empty_slots [] = refl
  states-empty_slots (t ∷ ts) = ap (◌∷◌ dead) (states-empty_slots ts)

  pub first_dead-empty_slots :
      (t : Task F) (ts : List (Task F)) → first_dead 0 (map empty_slot (t ∷ ts)) ≡ 0
  unfolding first_dead
  first_dead-empty_slots t ts = refl

  pub only_shell-OneRunning :
      {s : Scheduler F}
      → states s.tasks ≡ only_shell running
      → s.current_task ≡ 0
      → s.switch_pending ≡ false
      → OneRunning s
  only_shell-OneRunning {s} e c n = record {
    sized = sym (length-states s.tasks) ∙ ap length e;
    current = rw (e, c) refl;
    only = λ j h. only_first j (rw e at h) ∙ sym c;
    pending = λ p. absurd (cc);
  }
    where
      only_first : (j : ℕ) → get_elem? (only_shell running) j ≡ some running → j ≡ 0
      only_first zero h = refl
      only_first (suc j) h = absurd (not_dead 7 j h)
        where
          not_dead : (n j : ℕ) → get_elem? (replicate n dead) j ≢ some running
          not_dead zero j h = cc
          not_dead (suc n) zero h = cc
          not_dead (suc n) (suc j) h = not_dead n j h

pub bitmap-heap_init : (h : Heap) → (heap_init h).1.bitmap ≡ (alloc h.bitmap).1
unfolding heap_init
bitmap-heap_init h = elim (Bool-cases ((alloc h.bitmap).0 == 0)) [
  | inl a ↦ rw a refl
  | inr b ↦ rw b refl
]

module _ (fl : FloatOps) where
  open fl use {Float}

  -- The table and the static variables that `task_create` leaves where the first slot is free.
  pub task_create-table :
      (entry priority : ℕ) (mc : Machine Float)
      → first_dead 0 mc.scheduler.tasks ≡ 0
      → (alloc mc.bitmap).0 ≢ 0
      → let s = (task_create fl entry priority mc).scheduler in
        (states s.tasks ≡ set (states mc.scheduler.tasks) 0 ready)
        × (s.current_task ≡ mc.scheduler.current_task)
        × (s.switch_pending ≡ mc.scheduler.switch_pending)
  unfolding task_create
  task_create-table entry priority mc e page =
      let a : (first_dead 0 mc.scheduler.tasks == max_tasks) ≡ false = ground arith in
      let b : ((alloc mc.bitmap).0 == 0) ≡ false = ground arith in
      rw (a, b, e)
        (
          states-modify mc.scheduler.tasks 0 (fill_slot fl _ _ priority) ready (λ t. refl),
          refl,
          refl,
        )

  pub scheduler_start-cpu :
      (mc : Machine Float) {t : Task Float}
      → get_elem? mc.scheduler.tasks 0 ≡ some t
      → (scheduler_start fl mc).1 ≡ some (resume mc.memory t.esp)
  unfolding scheduler_start
  scheduler_start-cpu mc e = rw (scheduler_start, e) refl
