-- ===== src/Scheduler/Spawn.antt =====
-- kernel/scheduler.c, `task_create`: the slot, the page and the stack of a new task.
use prajna_os.Base.{
  ℕ, zero, suc, ◌+◌, ◌≤◌, ◌<◌, ◌≡◌, ◌≢◌, refl, arith, ap, sym, List, [], ◌∷◌, true, false, ◌==◌,
  get_elem?, some, length, Bool-cases, inl, inr, get_elem?-modify_self, get_elem?-modify_ne, u32,
}
use prajna_os.Float32.{FloatOps}
use prajna_os.Task.{Task, dead, ready, is_dead, max_tasks}
use prajna_os.Pmm.{Bitmap, alloc, page_size, mem_size}
use prajna_os.Pmm.Alloc.{Allocated, page, full, alloc-Allocated}
use prajna_os.Scheduler.{first_dead}
use prajna_os.Scheduler.Context.{resume}
use prajna_os.Scheduler.Create.{Machine, first_frame, task_create, fill_slot, resume-first_frame}
use prajna_os.Scheduler.Pick.{states}

module _ {F : Type 0} where
  -- The free slot that the loop finds, or the end of the table where every slot is in use.
  pub data FirstDead (i : ℕ) (ts : List (Task F)) : ℕ → Type 0 where
    slot : {b : ℕ} (k : ℕ) → b ≡ i + k → get_elem? (states ts) k ≡ some dead → FirstDead i ts b
    none_dead :
        {b : ℕ}
        → b ≡ i + length ts
        → ((k : ℕ) → get_elem? (states ts) k ≢ some dead)
        → FirstDead i ts b

  pub first_dead-FirstDead : (i : ℕ) (ts : List (Task F)) → FirstDead i ts (first_dead i ts)
  unfolding first_dead
  first_dead-FirstDead i [] = none_dead (omega arith) (λ k e. cc)
  first_dead-FirstDead i (t ∷ ts) = elim (Bool-cases (is_dead t.state)) [
    | inl d ↦ rw d (slot 0 (omega arith) (ap some (ground arith)))
    | inr nd ↦ rw nd (later nd (first_dead-FirstDead (i + 1) ts))
  ]
    where
      alive :
          is_dead t.state ≡ false
          → ((k : ℕ) → get_elem? (states ts) k ≢ some dead)
          → (k : ℕ) → get_elem? (states (t ∷ ts)) k ≢ some dead
      alive nd rest zero e = let st : t.state ≡ dead = cc in ground arith
      alive nd rest (suc k) e = rest k e

      later : {b : ℕ} → is_dead t.state ≡ false → FirstDead (i + 1) ts b → FirstDead i (t ∷ ts) b
      later nd (slot k e d) = slot (suc k) (omega arith) d
      later nd (none_dead e rest) = none_dead (omega arith) (alive nd rest)

module _ (fl : FloatOps) where
  open fl use {Float, of_nat}

  page_room : (m : Bitmap) → (alloc m).0 + page_size ≤ mem_size
  page_room m = go (alloc-Allocated m)
    where
      go : {r : ℕ × Bitmap} → Allocated m r → r.0 + page_size ≤ mem_size
      go (page p b f u) = omega arith
      go (full u) = omega arith

  -- Where `i` is the first dead slot of the table and `pmm_alloc` returns a page, `task_create`
  -- leaves a ready task in slot `i` with that page as its stack, all other tasks as before, and
  -- resuming the new task starts `entry` with zero registers and the stack pointer at the end of
  -- the page.
  pub task_create-ready :
      (entry priority i : ℕ) (mc : Machine Float) {t : Task Float}
      → first_dead 0 mc.scheduler.tasks ≡ i
      → i < max_tasks
      → get_elem? mc.scheduler.tasks i ≡ some t
      → (alloc mc.bitmap).0 ≢ 0
      → let mc' = task_create fl entry priority mc in
        (new : Task Float) × (get_elem? mc'.scheduler.tasks i ≡ some new)
        × (new.state ≡ ready)
        × (new.stack ≡ (alloc mc.bitmap).0)
        × (resume mc'.memory new.esp ≡ record {
          edi = 0;
          esi = 0;
          ebx = 0;
          ebp = 0;
          eip = entry;
          esp = (alloc mc.bitmap).0 + page_size;
        })
        × ((j : ℕ) → j ≢ i → get_elem? mc'.scheduler.tasks j ≡ get_elem? mc.scheduler.tasks j)
  unfolding task_create
  task_create-ready entry priority i mc {t} e small at_i some_page =
      let a : (first_dead 0 mc.scheduler.tasks == max_tasks) ≡ false = ground arith in
      let b : ((alloc mc.bitmap).0 == 0) ≡ false = ground arith in
      let room : (alloc mc.bitmap).0 + page_size ≤ mem_size = page_room mc.bitmap in
      let top : u32 ((alloc mc.bitmap).0 + page_size) ≡ (alloc mc.bitmap).0 + page_size =
        omega arith in
      let frame =
        resume-first_frame mc.memory ((alloc mc.bitmap).0 + page_size) entry (omega arith)
          (omega arith) in
      rw (a, b, e, top)
        (
          fill_slot fl (first_frame mc.memory ((alloc mc.bitmap).0 + page_size) entry).1
              (alloc mc.bitmap).0 priority t,
          get_elem?-modify_self mc.scheduler.tasks i _ at_i,
          refl,
          refl,
          frame.1,
          λ j ne. get_elem?-modify_ne mc.scheduler.tasks i j _ (λ e. ne (sym e)),
        )

  -- On a table of eight tasks none of which is dead, `task_create` changes nothing and takes no
  -- page.
  pub task_create-full :
      (entry priority : ℕ) (mc : Machine Float)
      → length mc.scheduler.tasks ≡ max_tasks
      → ((k : ℕ) → get_elem? (states mc.scheduler.tasks) k ≢ some dead)
      → task_create fl entry priority mc ≡ mc
  unfolding task_create
  task_create-full entry priority mc n all = go (first_dead-FirstDead 0 mc.scheduler.tasks)
    where
      go :
          FirstDead 0 mc.scheduler.tasks (first_dead 0 mc.scheduler.tasks)
          → task_create fl entry priority mc ≡ mc
      go (slot k e d) = absurd (all k d)
      go (none_dead e rest) =
          let a : (first_dead 0 mc.scheduler.tasks == max_tasks) ≡ true = ground arith in rw a

  -- Where `pmm_alloc` fails the task table is as before.
  pub task_create_no_page :
      (entry priority : ℕ) (mc : Machine Float)
      → (alloc mc.bitmap).0 ≡ 0
      → (task_create fl entry priority mc).scheduler ≡ mc.scheduler
  unfolding task_create
  task_create_no_page entry priority mc z =
      let failed : ((alloc mc.bitmap).0 == 0) ≡ true = ground arith in
      elim (Bool-cases (first_dead 0 mc.scheduler.tasks == max_tasks)) [
        | inl a ↦ rw a
        | inr b ↦ rw (b, failed)
      ]
