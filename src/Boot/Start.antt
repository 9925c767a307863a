-- ===== src/Boot/Start.antt =====
-- kernel/kernel.c: what kernel_main hands over to the interrupts.
use mathlib.Core.Path.{subst}
use prajna_os.Base.{
  ℕ, ◌+◌, ◌^◌, ◌≤◌, ◌<◌, ◌≡◌, ◌≢◌, refl, arith, ap, ◌∙◌, List, [], ◌∷◌, length, Option, some, false,
  replicate, map, get_elem?, set,
}
use prajna_os.Float32.{FloatOps}
use prajna_os.Block.{DiskOps}
use prajna_os.Task.{Task, dead, ready, running, max_tasks}
use prajna_os.Pmm
use prajna_os.Pmm.{bitmap_bytes, total_pages, page_size, alloc}
use prajna_os.Pmm.Init.{reserved, alloc_twice-init}
use prajna_os.Scheduler.{empty_slot, scheduler_init, first_dead}
use prajna_os.Scheduler.Pick.{states}
use prajna_os.Scheduler.Running.{states-modify}
use prajna_os.Scheduler.Context.{Cpu, resume}
use prajna_os.Scheduler.Create.{scheduler_start}
use prajna_os.Scheduler.Spawn.{task_create-ready}
use prajna_os.Boot.Table.{
  states-empty_slots, first_dead-empty_slots, only_shell-OneRunning, bitmap-heap_init,
  task_create-table, scheduler_start-cpu,
}
use prajna_os.Boot.Greeting.{Booting, IsInterrupt, draw_step-Booting, boot_time_greeting-Booting}
use prajna_os.Console.Cursor.{IsConsole}
use prajna_os.Keyboard.Line.{IsLine}
use prajna_os.Keyboard.Queue.{IsRing}
use prajna_os.Ml.Load.{Loaded, ml_weights_load}
use prajna_os.Fat.{fat32_init}
use prajna_os.Timer.Handler.{Kernel, draw_step}
use prajna_os.Timer.Sound.{IsSound}
use prajna_os.Boot.{
  Boot, Addresses, note_failure, init_ml, init_hardware, init_memory, load_weights, machine_of,
  create_shell, start, kernel_main,
}

-- The processor at the start of the shell's task, with the top of its stack.
abbrev pub shell_cpu : Addresses → ℕ → Cpu
shell_cpu at top = record { edi = 0; esi = 0; ebx = 0; ebp = 0; eip = at.shell_task; esp = top }

module _ {fl : FloatOps} {ops : DiskOps} where
  -- The static variables before `kernel_main`: arrays of their sizes, and nothing under way.
  pub record IsCold (b : Boot fl ops) : Type 0 where
    pub bitmap : length b.kernel.bitmap ≡ bitmap_bytes
    pub table : length b.kernel.scheduler.tasks ≡ max_tasks
    pub no_switch : b.kernel.scheduler.switch_pending ≡ false
    pub line : IsLine b.kernel.keyboard
    pub ring : IsRing b.kernel.ring
    pub console : IsConsole b.kernel.console
    pub clock : b.kernel.ticks < 2 ^ 32

  -- A kernel with its first task, and what resuming that task starts.
  record Created (at : Addresses) (top : ℕ) (b : Boot fl ops) : Type 0 where
    sp : ℕ
    booting : Booting sp b.kernel
    frame : resume b.memory sp ≡ shell_cpu at top

  create_shell-Created :
      (at : Addresses) (b : Boot fl ops) (ts : List (Task fl.Float))
      → b.kernel.scheduler.tasks ≡ map empty_slot ts
      → length ts ≡ max_tasks
      → b.kernel.scheduler.current_task ≡ 0
      → b.kernel.scheduler.switch_pending ≡ false
      → (alloc b.kernel.bitmap).0 ≢ 0
      → IsLine b.kernel.keyboard
      → IsRing b.kernel.ring
      → IsConsole b.kernel.console
      → Created at ((alloc b.kernel.bitmap).0 + page_size) (create_shell fl ops at b)
  unfolding create_shell
  create_shell-Created at b [] e n c p page line ring console = absurd (cc)
  create_shell-Created at b (t ∷ ts) e n c p page line ring console =
      let mc = machine_of fl ops at b in
      let first : first_dead 0 b.kernel.scheduler.tasks ≡ 0 = rw e (first_dead-empty_slots t ts) in
      let (new, at_0, _, _, frame, _) =
        task_create-ready fl at.shell_task 5 0 mc first (omega arith) (ap (λ l. get_elem? l 0) e)
          page in
      let (states_new, current_new, pending_new) =
        task_create-table fl at.shell_task 5 mc first page in
      record {
        sp = new.esp;
        booting = record {
          table =
              states_new
              ∙ ap (λ l. set l 0 ready)
                  (ap states e ∙ states-empty_slots (t ∷ ts) ∙ ap (λ l. replicate l dead) n);
          stack = (new, at_0, refl);
          current = current_new ∙ c;
          no_switch = pending_new ∙ p;
          line = line;
          ring = ring;
          console = console;
        };
        frame = frame;
      }

  start-IsSound :
      (at : Addresses) {top : ℕ} {b : Boot fl ops}
      → Created at top b
      → IsSound (start fl ops at b).0.kernel × ((start fl ops at b).1 ≡ some (shell_cpu at top))
  unfolding start scheduler_start draw_step
  start-IsSound at {b = b} c =
      let v = draw_step-Booting c.booting in
      let (t, at_0, esp) = c.booting.stack in
      (
        record {
          scheduler =
              only_shell-OneRunning
                (states-modify b.kernel.scheduler.tasks 0 _ running (λ t. refl)
                  ∙ ap (λ l. set l 0 running) v.table)
                refl v.no_switch;
          line = v.line;
          ring = v.ring;
          console = v.console;
        },
        scheduler_start-cpu fl (machine_of fl ops at (record b { kernel = draw_step b.kernel }))
              at_0
            ∙ ap some (ap (resume b.memory) esp ∙ c.frame),
      )

  -- The kernel behind `ml_weights_load`.
  abbrev with_weights : Loaded fl.Float → Boot fl ops → Boot fl ops
  with_weights loaded m = record m {
    init_status = note_failure init_ml loaded.code m.init_status;
    kernel = record m.kernel { weights = loaded.weights };
  }

  load_weights-some :
      (at : Addresses) (chain : ℕ) (junk : List ℕ) (m : Boot fl ops) {loaded : Loaded fl.Float}
      → ml_weights_load fl ops chain m.kernel.volume junk m.kernel.weights m.kernel.disk
        ≡ some loaded
      → load_weights fl ops at chain junk m ≡ some (with_weights loaded m)
  unfolding load_weights
  load_weights-some at chain junk m e = rw (load_weights, e) refl

  prepared : Addresses → Loaded fl.Float → Boot fl ops → Boot fl ops
  prepared at loaded b = with_weights loaded (init_memory fl ops at (init_hardware fl ops at b))

  load_weights-prepared :
      (at : Addresses) (chain : ℕ) (junk : List ℕ) (b : Boot fl ops) {loaded : Loaded fl.Float}
      → ml_weights_load fl ops chain
          (fat32_init ops 2048 b.kernel.volume b.kernel.disk).1
          junk
          b.kernel.weights
          b.kernel.disk
        ≡ some loaded
      → load_weights fl ops at chain junk (init_memory fl ops at (init_hardware fl ops at b))
        ≡ some (prepared at loaded b)
  unfolding init_memory init_hardware prepared
  load_weights-prepared at chain junk b e =
      load_weights-some at chain junk (init_memory fl ops at (init_hardware fl ops at b)) e

  ticks-prepared :
      (at : Addresses) (loaded : Loaded fl.Float) (b : Boot fl ops)
      → (create_shell fl ops at (prepared at loaded b)).kernel.ticks ≡ b.kernel.ticks
  unfolding create_shell prepared init_memory init_hardware
  ticks-prepared at loaded b = refl

  prepared-Created :
      (at : Addresses) (loaded : Loaded fl.Float) (b : Boot fl ops)
      → IsCold b
      → reserved at.kernel_end + 2 ≤ total_pages
      → Created at
          ((alloc (alloc (Pmm.init at.kernel_end b.kernel.bitmap)).1).0 + page_size)
          (create_shell fl ops at (prepared at loaded b))
  unfolding prepared init_memory init_hardware scheduler_init
  prepared-Created at loaded b v room =
      let second = alloc_twice-init b.kernel.bitmap v.bitmap at.kernel_end room in
      let pages =
        bitmap-heap_init
          (record { blocks = b.heap; bitmap = Pmm.init at.kernel_end b.kernel.bitmap }) in
      subst
        (λ m. Created at ((alloc m).0 + page_size) (create_shell fl ops at (prepared at loaded b)))
        pages
        (create_shell-Created at (prepared at loaded b) b.kernel.scheduler.tasks refl v.table refl
          v.no_switch (rw pages second) v.line v.ring v.console)

  -- From static variables of their sizes, with two pages free behind the kernel, interrupts that
  -- keep the starting kernel well-formed and move the clock on by one while the greeting waits,
  -- more than 500 rounds of fuel for the wait, and a search for the weights file that ends within
  -- its fuel: whatever failed on the way, `kernel_main` ends in a well-formed kernel with one
  -- running task, and the processor at the entry of the shell's task with zero registers and the
  -- stack pointer at the end of the second page that `pmm_alloc` gave.
  pub kernel_main-IsSound :
      (at : Addresses) (between : Kernel fl ops → Kernel fl ops) (rounds chain : ℕ) (junk : List ℕ)
      (b : Boot fl ops) (loaded : Loaded fl.Float)
      → IsCold b
      → IsInterrupt between
      → reserved at.kernel_end + 2 ≤ total_pages
      → 500 < rounds
      → ml_weights_load fl ops chain
          (fat32_init ops 2048 b.kernel.volume b.kernel.disk).1
          junk
          b.kernel.weights
          b.kernel.disk
        ≡ some loaded
      → (r : Boot fl ops × Option Cpu) × (kernel_main fl ops at between rounds chain junk b
          ≡ some r)
        × IsSound r.0.kernel
        × (r.1
            ≡ some (
                shell_cpu at
                  ((alloc (alloc (Pmm.init at.kernel_end b.kernel.bitmap)).1).0 + page_size)))
  unfolding kernel_main
  kernel_main-IsSound at between rounds chain junk b loaded v i room enough e =
      let c = prepared-Created at loaded b v room in
      let b' = create_shell fl ops at (prepared at loaded b) in
      let (k, ended, w) =
        boot_time_greeting-Booting between rounds b'.init_status i enough
          (rw (ticks-prepared at loaded b) v.clock) c.booting in
      let (sound, cpu) = start-IsSound at (record { sp = c.sp; booting = w; frame = c.frame }) in
      (
        start fl ops at (record b' { kernel = k }),
        rw (kernel_main, load_weights-prepared at chain junk b e, ended) refl,
        sound,
        cpu,
      )
