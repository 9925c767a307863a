-- ===== src/Timer/Handler.antt =====
-- kernel/pit.c, `pit_handler`, with everything it calls: the scancode ring, the line editor, the shell
-- and the file system below it, the console, the scheduler's tick and the pending switch.
use prajna_os.Base.{
  ℕ, zero, suc, ◌+◌, ◌%◌, List, [], ◌∷◌, Option, none, some, ◌==◌, if◌then◌else◌, u8, u32, modify,
}
use prajna_os.Float32.{FloatOps}
use prajna_os.Block.{DiskOps}
use prajna_os.Pmm.{free_pages}
use prajna_os.Ml.{Weights}
use prajna_os.Ai.{Prajna, Notice, ai_get_state}
use prajna_os.Keyboard
use prajna_os.Keyboard.{ScancodeRing, Keyboard, Call, scancode_push, scancode_pop, process_scancode}
use prajna_os.Ai.Screen.{show_notices}
use prajna_os.Console
use prajna_os.Console.{Console, clear_screen, blink}
use prajna_os.Fat.{Volume}
use prajna_os.Scheduler.{Scheduler, scheduler_tick, scheduler_do_pending_switch}
use prajna_os.Shell.{Shown, char, cleared, halted, reset}
use prajna_os.Shell.Files.{Locals}
use prajna_os.Shell.Handle.{System, shell_handle}
use prajna_os.Timer.Bar.{draw_top_bar}

-- What the interrupt works on: the static variables of the modules, the screen and the disk.
pub record Kernel (fl : FloatOps) (ops : DiskOps) : Type 0 where
  pub ticks : ℕ
  pub bitmap : List ℕ
  pub weights : Weights fl.Float
  pub scheduler : Scheduler fl.Float
  pub prajna : Prajna fl.Float
  pub ring : ScancodeRing
  pub keyboard : Keyboard
  pub console : Console
  pub volume : Volume
  pub disk : ops.Disk

-- A call goes on with its result, or halts the machine, or runs in a loop that does not end within
-- its fuel.
pub data Progress (A : Type 0) : Type 0 where
  goes : A → Progress A
  stopped : Progress A
  lost : Progress A

infixl 5 ◌>>=◌
abbrev pub ◌>>=◌ : {A B : Type 0} → Progress A → (A → Progress B) → Progress B
goes a >>= f = f a
stopped >>= f = stopped
lost >>= f = lost

-- The console after the output of the shell; nothing follows `halt`.
unfoldable pub show_all : List Shown → Console → Progress Console
show_all [] s = goes s
show_all (char c color ∷ rest) s = show_all rest (Console.put_char c color s)
show_all (cleared ∷ rest) s = show_all rest (clear_screen s)
show_all (halted ∷ rest) s = stopped
show_all (reset ∷ rest) s = show_all rest s

-- What `pit_handler` leaves: the notices of Prajna, and the two tasks of a switch. After a switch the
-- rest of the handler runs when its task is resumed.
pub record Handled (fl : FloatOps) (ops : DiskOps) : Type 0 where
  pub kernel : Kernel fl ops
  pub notices : List Notice
  pub switch : Option (ℕ × ℕ)

module _ {fl : FloatOps} {ops : DiskOps} where
  -- `ticks++`, and the tick of the current task.
  unfoldable pub count_tick : Kernel fl ops → Kernel fl ops
  count_tick k =
      let s = k.scheduler in
      record k {
        ticks = u32 (k.ticks + 1);
        scheduler = record s {
          tasks =
              modify s.tasks s.current_task (λ t. record t { run_ticks = u8 (t.run_ticks + 1) });
        };
      }

  unfoldable pub blink_step : Kernel fl ops → Kernel fl ops
  blink_step k = if k.ticks % 10 == 0 then record k { console = blink k.console } else k

  unfoldable pub draw_step : Kernel fl ops → Kernel fl ops
  draw_step k =
      let c = k.console in
      record k {
        console = record c {
          vga =
              draw_top_bar (ai_get_state k.prajna) (free_pages k.bitmap) k.ticks k.scheduler.tasks
                c.vga;
        };
      }

  -- `scheduler_tick`, which prints Prajna's notices, and `scheduler_do_pending_switch`; without a switch
  -- the bar is drawn at once.
  unfoldable pub schedule_step : Kernel fl ops → Handled fl ops
  schedule_step k =
      let (s, p, notices) =
        scheduler_tick fl k.weights k.ticks (free_pages k.bitmap) k.prajna k.scheduler in
      let (s', switch) = scheduler_do_pending_switch s in
      let c = k.console in
      let k' : Kernel fl ops = record k {
        scheduler = s';
        prajna = p;
        console = record c { vga = show_notices notices c.vga };
      } in
      record {
        kernel = elim switch [ none ↦ draw_step k' | some tasks ↦ k' ];
        notices = notices;
        switch = switch;
      }

  -- `keyboard_handler` of kernel/isr.c, with the byte that it reads from port 0x60.
  unfoldable pub keyboard_handler : ℕ → Kernel fl ops → Kernel fl ops
  keyboard_handler scancode k = record k { ring = scancode_push k.ring scancode }

  -- What the handler still does when the task that it left is resumed: the second test of the clock,
  -- which has moved on since.
  unfoldable pub after_switch : Kernel fl ops → Kernel fl ops
  after_switch k = if k.ticks % 100 == 0 then draw_step k else k

module _ (fl : FloatOps) (ops : DiskOps) (fuel : ℕ) (l : Locals) where
  abbrev pub system_of : Kernel fl ops → System fl
  system_of k = record { ticks = k.ticks; prajna = k.prajna; tasks = k.scheduler.tasks }

  -- A call that `process_scancode` makes.
  unfoldable pub run_call : Call → Kernel fl ops → Progress (Kernel fl ops)
  run_call (Keyboard.put_char c color) k =
      goes (record k { console = Console.put_char c color k.console })
  run_call (Keyboard.shell_handle line) k =
      elim (shell_handle fl ops fuel (system_of k) l line k.volume k.disk) [
        | none ↦ lost
        | some r ↦ show_all r.shown k.console >>= λ console.
            goes (record k { console = console; volume = r.volume; disk = r.disk })
      ]

  unfoldable pub run_calls : List Call → Kernel fl ops → Progress (Kernel fl ops)
  run_calls [] k = goes k
  run_calls (c ∷ calls) k = run_call c k >>= λ k'. run_calls calls k'

  -- `while (scancode_pop(&sc)) process_scancode(sc);`: no scancode comes in during the interrupt.
  unfoldable pub drain : ℕ → Kernel fl ops → Progress (Kernel fl ops)
  drain zero k = goes k
  drain (suc rounds) k = elim (scancode_pop k.ring).0 [
    | none ↦ goes k
    | some sc ↦
        let (keyboard, calls) = process_scancode k.keyboard sc in
        run_calls calls (record k { ring = (scancode_pop k.ring).1; keyboard = keyboard }) >>= λ k'.
        drain rounds k'
  ]

  unfoldable pub pit_handler : Kernel fl ops → Progress (Handled fl ops)
  pit_handler k = drain 16 (count_tick k) >>= λ k'.
      let k'' = blink_step k' in
      goes (
        if k''.ticks % 100 == 0
        then schedule_step k''
        else record { kernel = k''; notices = []; switch = none })
