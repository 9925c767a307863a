-- ===== src/Boot/Greeting.antt =====
-- kernel/kernel.c: the kernel while the greeting is on the screen.
use prajna_os.Base.{
  ℕ, zero, suc, ◌+◌, ◌^◌, ◌<◌, ◌≡◌, refl, ◌∙◌, List, ◌∷◌, length, Bool, some, true, false,
  replicate, get_elem?, codes, u32,
}
use prajna_os.Float32.{FloatOps}
use prajna_os.Block.{DiskOps}
use prajna_os.Task.{Task, TaskState, dead, ready}
use prajna_os.Scheduler.Pick.{states}
use prajna_os.Ai.{Prajna, SysState, calm, normal, alert, offline}
use prajna_os.Console.{Console, clear_screen}
use prajna_os.Console.Cursor.{IsConsole}
use prajna_os.Keyboard.Line.{IsLine}
use prajna_os.Keyboard.Queue.{IsRing}
use prajna_os.Klib.Clock.{after_rounds, wait-after_rounds_while}
use prajna_os.Timer.Screen.{
  length-print_text, length-show_notice, length-draw_top_bar, clear_screen-IsConsole,
}
use prajna_os.Timer.Handler.{Kernel, draw_step}
use prajna_os.Boot.{
  clear_again, status_lines, fat32_line, ml_line, heap_line, state_line, greet, boot_time_greeting,
}

-- The table of a started kernel: the shell's task with state `st`, and seven empty slots.
abbrev pub only_shell : TaskState → List TaskState
only_shell st = st ∷ replicate 7 dead

length-state_line : (st : SysState) (vga : List ℕ) → length (state_line st vga) ≡ length vga
unfolding state_line
length-state_line calm vga = length-print_text (codes "[PRAJNA] State     : CALM ") 5 0 0x0A vga
length-state_line normal vga = length-print_text (codes "[PRAJNA] State     : NORMAL ") 5 0 0x0E vga
length-state_line alert vga = length-print_text (codes "[PRAJNA] State     : ALERT  ") 5 0 0x0C vga

length-fat32_line : (failed : Bool) (vga : List ℕ) → length (fat32_line failed vga) ≡ length vga
unfolding fat32_line
length-fat32_line true vga = length-print_text (codes "[PRAJNA] FAT32     : FAILED") 3 0 0x0C vga
length-fat32_line false vga = length-print_text (codes "[PRAJNA] FAT32     : mounted") 3 0 0x0A vga

length-ml_line : (failed : Bool) (vga : List ℕ) → length (ml_line failed vga) ≡ length vga
unfolding ml_line
length-ml_line true vga =
    length-show_notice offline _
    ∙ length-print_text (codes "[PRAJNA] ML model  : FAILED") 4 0 0x0C vga
length-ml_line false vga = length-print_text (codes "[PRAJNA] ML model  : loaded") 4 0 0x0A vga

length-heap_line : (failed : Bool) (vga : List ℕ) → length (heap_line failed vga) ≡ length vga
unfolding heap_line
length-heap_line true vga = length-print_text (codes "[PRAJNA] Heap      : FAILED") 4 40 0x0C vga
length-heap_line false vga = refl

length-status_lines : (status vga : List ℕ) → length (status_lines status vga) ≡ length vga
unfolding status_lines
length-status_lines status vga = length-heap_line _ _ ∙ length-ml_line _ _ ∙ length-fat32_line _ vga

module _ {fl : FloatOps} {ops : DiskOps} where
  -- The kernel from the creation of the shell's task on: it is the only one, its stack pointer is `sp`,
  -- and the parts that interrupts work on are well-formed.
  pub record Booting (sp : ℕ) (k : Kernel fl ops) : Type 0 where
    pub table : states k.scheduler.tasks ≡ only_shell ready
    pub stack : (t : Task fl.Float) × (get_elem? k.scheduler.tasks 0 ≡ some t) × (t.esp ≡ sp)
    pub current : k.scheduler.current_task ≡ 0
    pub no_switch : k.scheduler.switch_pending ≡ false
    pub line : IsLine k.keyboard
    pub ring : IsRing k.ring
    pub console : IsConsole k.console

  -- What the interrupts between two readings of the clock may do.
  pub record IsInterrupt (between : Kernel fl ops → Kernel fl ops) : Type 0 where
    pub clock : {sp : ℕ} {k : Kernel fl ops} → Booting sp k → (between k).ticks ≡ u32 (k.ticks + 1)
    pub keeps : {sp : ℕ} {k : Kernel fl ops} → Booting sp k → Booting sp (between k)

  with_console :
      {sp : ℕ} {k : Kernel fl ops} {p : Prajna fl.Float} {c : Console}
      → Booting sp k
      → IsConsole c
      → Booting sp (record k { prajna = p; console = c })
  with_console v c = record {
    table = v.table;
    stack = v.stack;
    current = v.current;
    no_switch = v.no_switch;
    line = v.line;
    ring = v.ring;
    console = c;
  }

  greet-Booting :
      {sp : ℕ} {k : Kernel fl ops} (status : List ℕ) → Booting sp k → Booting sp (greet status k)
  unfolding greet
  greet-Booting {k = k} status v =
      let c = clear_screen-IsConsole v.console in
      with_console v (record {
        sized =
            length-state_line _ _
            ∙ length-status_lines status _
            ∙ length-print_text (codes ".....PrajnaOS.....") 0 31 0x0A (clear_screen k.console).vga
            ∙ c.sized;
        below_bar = c.below_bar;
        in_rows = c.in_rows;
        in_cols = c.in_cols;
      })

  pub draw_step-Booting : {sp : ℕ} {k : Kernel fl ops} → Booting sp k → Booting sp (draw_step k)
  unfolding draw_step
  draw_step-Booting {k = k} v = with_console v (record {
    sized = length-draw_top_bar _ _ k.ticks k.scheduler.tasks k.console.vga ∙ v.console.sized;
    below_bar = v.console.below_bar;
    in_rows = v.console.in_rows;
    in_cols = v.console.in_cols;
  })

  after_rounds-Booting :
      (between : Kernel fl ops → Kernel fl ops)
      → IsInterrupt between
      → (n : ℕ) {sp : ℕ} {k : Kernel fl ops} → Booting sp k
      → Booting sp (after_rounds between n k)
  unfolding after_rounds
  after_rounds-Booting between i zero v = v
  after_rounds-Booting between i (suc n) v = after_rounds-Booting between i n (i.keeps v)

  ticks-greet : (status : List ℕ) (k : Kernel fl ops) → (greet status k).ticks ≡ k.ticks
  unfolding greet
  ticks-greet status k = refl

  -- With enough rounds the greeting ends.
  pub boot_time_greeting-Booting :
      (between : Kernel fl ops → Kernel fl ops) (rounds : ℕ) (status : List ℕ) {sp : ℕ}
      {k : Kernel fl ops}
      → IsInterrupt between
      → 500 < rounds
      → k.ticks < 2 ^ 32
      → Booting sp k
      → (k' : Kernel fl ops) × (boot_time_greeting between rounds status k ≡ some k')
        × Booting sp k'
  unfolding boot_time_greeting
  boot_time_greeting-Booting between rounds status {sp} {k} i enough clock v =
      let w = after_rounds-Booting between i 500 (greet-Booting status v) in
      let ends =
        wait-after_rounds_while (λ k'. k'.ticks) between (Booting sp) (λ k' v'. i.keeps v')
          (λ k' v'. i.clock v') rounds 5 (greet status k) (greet-Booting status v)
          (rw (ticks-greet status k) clock) enough in
      (
        clear_again (after_rounds between 500 (greet status k)),
        rw (boot_time_greeting, ends) refl,
        with_console w (clear_screen-IsConsole w.console),
      )
