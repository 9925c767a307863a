-- ===== src/Scheduler/Create.antt =====
-- kernel/scheduler.c: `task_create` (the slot, the stack page and the first frame) and `scheduler_start`.
use prajna_os.Base.{
  ℕ, ◌+◌, ◌-◌, ◌^◌, ◌≤◌, ◌<◌, ◌≡◌, arith, ◌==◌, if◌then◌else◌, sub32, u32, modify, get_elem?,
  Option, none, some,
}
use prajna_os.Float32.{FloatOps}
use prajna_os.Task.{Task, ready, running, max_tasks}
use prajna_os.Pmm.{Bitmap, alloc, page_size}
use prajna_os.Scheduler.{Scheduler, first_dead}
use prajna_os.Scheduler.Context.{Words, Cpu, push_word, resume}

-- What `task_create` and `scheduler_start` change.
pub record Machine (F : Type 0) : Type 0 where
  pub scheduler : Scheduler F
  pub bitmap : Bitmap
  pub memory : Words

-- The five words below `stack_top`.
unfoldable pub first_frame : Words → ℕ → ℕ → Words × ℕ
first_frame m stack_top entry =
    push_word (push_word (push_word (push_word (push_word (m, stack_top) entry) 0) 0) 0) 0

module _ (fl : FloatOps) where
  open fl use {Float, of_nat}

  abbrev pub fill_slot : ℕ → ℕ → ℕ → Task Float → Task Float
  fill_slot esp stack_page priority t = record t {
    esp = esp;
    stack = stack_page;
    state = ready;
    priority = of_nat priority;
  }

  -- The result 0 of `pmm_alloc` leaves the function, with the bitmap as `pmm_alloc` left it.
  unfoldable pub task_create : ℕ → ℕ → Machine Float → Machine Float
  unfolding first_frame first_dead
  task_create entry priority mc =
      let s = mc.scheduler in
      let i = first_dead 0 s.tasks in
      if i == max_tasks
      then mc
      else let (stack_page, bitmap) = alloc mc.bitmap in
        if stack_page == 0
        then record mc { bitmap = bitmap }
        else let (memory, esp) = first_frame mc.memory (u32 (stack_page + page_size)) entry in
          record {
            bitmap = bitmap;
            memory = memory;
            scheduler = record s {
              tasks = modify s.tasks i (fill_slot esp stack_page priority);
              task_count = u32 (s.task_count + 1);
            };
          }

  -- Marks task 0 running and jumps into it; `fallback` stands for its `esp` if the table were empty.
  unfoldable pub scheduler_start : Machine Float → Machine Float × Option Cpu
  scheduler_start mc =
      let s = mc.scheduler in
      (
        record mc {
          scheduler = record s {
            tasks = modify s.tasks 0 (λ t. record t { state = running });
            current_task = 0;
          };
        },
        elim (get_elem? s.tasks 0) [ none ↦ none | some t ↦ some (resume mc.memory t.esp) ],
      )

-- Resuming at a first frame starts the entry function with the registers zero, and the stack empty
-- but for nothing: the stack pointer is back at the top.
pub resume-first_frame :
    (m : Words) (stack_top entry : ℕ)
    → 20 ≤ stack_top
    → stack_top < 2 ^ 32
    → let (m', sp) = first_frame m stack_top entry in
      (sp ≡ stack_top - 20)
      × (resume m' sp ≡ record { edi = 0; esi = 0; ebx = 0; ebp = 0; eip = entry; esp = stack_top })
unfolding first_frame resume
resume-first_frame m top entry lo hi =
    let sp : ℕ = top - 20 in
    let a : sub32 top 4 ≡ sp + 16 = omega arith in
    let b : sub32 (sp + 16) 4 ≡ sp + 12 = omega arith in
    let c : sub32 (sp + 12) 4 ≡ sp + 8 = omega arith in
    let d : sub32 (sp + 8) 4 ≡ sp + 4 = omega arith in
    let e : sub32 (sp + 4) 4 ≡ sp = omega arith in
    let r4 : u32 (sp + 4) ≡ sp + 4 = omega arith in
    let r8 : u32 (sp + 8) ≡ sp + 8 = omega arith in
    let r12 : u32 (sp + 12) ≡ sp + 12 = omega arith in
    let r16 : u32 (sp + 16) ≡ sp + 16 = omega arith in
    let r20 : u32 (sp + 20) ≡ top = omega arith in
    (omega arith, rw (a, b, c, d, e, r4, r8, r12, r16, r20) (ground arith))
