-- ===== src/Boot/Interrupt.antt =====
-- kernel/pit.c and kernel/isr.c: the interrupts that come while the greeting of kernel/kernel.c waits.
use prajna_os.Base.{ℕ, ◌+◌, ◌≡◌, refl, ap, ◌∙◌, List, [], ◌∷◌, some, get_elem?, u32}
use prajna_os.Float32.{FloatOps}
use prajna_os.Block.{DiskOps}
use prajna_os.Task.{Task}
use prajna_os.Keyboard.Queue.{scancode_push-IsRing}
use prajna_os.Scheduler.{Scheduler}
use prajna_os.Shell.Files.{Locals}
use prajna_os.Timer.Handler.{
  Kernel, Progress, goes, stopped, lost, Handled, count_tick, pit_handler, keyboard_handler,
}
use prajna_os.Timer.Calls.{Ensures, Parts, count_tick-Parts}
use prajna_os.Timer.Parts.{pit_handler-Parts}
use prajna_os.Boot.Lone.{first_esp, OnlyShell, OnlyShell-IsStable}
use prajna_os.Boot.Greeting.{Booting, IsInterrupt}

module _ (fl : FloatOps) (ops : DiskOps) where
  -- The keys pressed, in their order.
  unfoldable pub press : List ℕ → Kernel fl ops → Kernel fl ops
  press [] k = k
  press (scancode ∷ keys) k = press keys (keyboard_handler scancode k)

  -- `pit_handler` of `irq0_handler`, where it goes on. After a halt or an endless walk along a chain of
  -- clusters nothing follows; the kernel in which that happened stands here for it.
  abbrev pub handled_or : Kernel fl ops → Progress (Handled fl ops) → Kernel fl ops
  handled_or k (goes h) = h.kernel
  handled_or k stopped = k
  handled_or k lost = k

  -- Key presses and a timer interrupt.
  unfoldable pub interrupts : ℕ → Locals → List ℕ → Kernel fl ops → Kernel fl ops
  interrupts fuel l keys k =
      handled_or (count_tick (press keys k)) (pit_handler fl ops fuel l (press keys k))

esp_of_first :
    {F : Type 0} (ts : List (Task F)) {t : Task F} {sp : ℕ}
    → get_elem? ts 0 ≡ some t
    → t.esp ≡ sp
    → first_esp ts ≡ some sp
esp_of_first [] h e = absurd (cc)
esp_of_first (t ∷ ts) h e = ap some (cc)

first_of_esp :
    {F : Type 0} (ts : List (Task F)) {sp : ℕ}
    → first_esp ts ≡ some sp
    → (t : Task F) × (get_elem? ts 0 ≡ some t) × (t.esp ≡ sp)
first_of_esp [] h = absurd (cc)
first_of_esp (t ∷ ts) h = (t, refl, cc)

module _ (fl : FloatOps) (ops : DiskOps) where
  open fl use {Float}

  of_Booting : {sp : ℕ} {k : Kernel fl ops} → Booting sp k → Parts (OnlyShell sp) k
  of_Booting {k = k} v = record {
    scheduler = record {
      table = v.table;
      first = esp_of_first k.scheduler.tasks (v.stack).1 (v.stack).2;
      current = v.current;
      no_pending = v.no_switch;
    };
    line = v.line;
    ring = v.ring;
    console = v.console;
  }

  to_Booting : {sp : ℕ} {k : Kernel fl ops} → Parts (OnlyShell sp) k → Booting sp k
  to_Booting {k = k} v = record {
    table = v.scheduler.table;
    stack = first_of_esp k.scheduler.tasks v.scheduler.first;
    current = v.scheduler.current;
    no_switch = v.scheduler.no_pending;
    line = v.line;
    ring = v.ring;
    console = v.console;
  }

  press-Parts :
      (Good : Scheduler Float → Type 0) (keys : List ℕ) {k : Kernel fl ops}
      → Parts Good k
      → Parts Good (press fl ops keys k) × ((press fl ops keys k).ticks ≡ k.ticks)
  unfolding press keyboard_handler
  press-Parts Good [] v = (v, refl)
  press-Parts Good (scancode ∷ keys) v = press-Parts Good keys (record {
    scheduler = v.scheduler;
    line = v.line;
    ring = scancode_push-IsRing scancode v.ring;
    console = v.console;
  })

  handled_or-Parts :
      (Good : Scheduler Float → Type 0) (ticks : ℕ) (k : Kernel fl ops)
      (m : Progress (Handled fl ops))
      → Parts Good k
      → k.ticks ≡ ticks
      → Ensures
          (λ h.
            Parts Good h.kernel
            × (h.kernel.ring.head ≡ h.kernel.ring.tail)
            × (h.kernel.ticks ≡ ticks))
          m
      → Parts Good (handled_or fl ops k m) × ((handled_or fl ops k m).ticks ≡ ticks)
  handled_or-Parts Good ticks k (goes h) v e w = (w.0, w.2)
  handled_or-Parts Good ticks k stopped v e w = (v, e)
  handled_or-Parts Good ticks k lost v e w = (v, e)

  interrupts-Parts :
      (fuel : ℕ) (l : Locals) (keys : List ℕ) {sp : ℕ} {k : Kernel fl ops}
      → Booting sp k
      → Parts (OnlyShell sp) (interrupts fl ops fuel l keys k)
        × ((interrupts fl ops fuel l keys k).ticks ≡ u32 (k.ticks + 1))
  unfolding interrupts count_tick
  interrupts-Parts fuel l keys {sp} {k} v =
      let (pressed, same) = press-Parts (OnlyShell sp) keys (of_Booting v) in
      let k' = press fl ops keys k in
      let (parts, clock) =
        handled_or-Parts (OnlyShell sp) (u32 (k'.ticks + 1)) (count_tick k')
          (pit_handler fl ops fuel l k') (count_tick-Parts (OnlyShell-IsStable fl) pressed) refl
          (pit_handler-Parts (OnlyShell-IsStable fl) fuel l k' pressed) in
      (parts, clock ∙ ap (λ t. u32 (t + 1)) same)

  -- Whatever keys are pressed and whatever commands they send, a timer interrupt keeps a kernel
  -- that waits in its greeting: the shell's task stays the only one, ready and with its stack
  -- pointer, no switch becomes pending, the input line, the scancode ring and the console stay
  -- well-formed, and the clock moves on by one. A handler that halts or loses itself counts here as
  -- one that only counts the tick.
  pub interrupts-IsInterrupt :
      (fuel : ℕ) (l : Locals) (keys : List ℕ) → IsInterrupt (interrupts fl ops fuel l keys)
  interrupts-IsInterrupt fuel l keys = record {
    clock = λ v. (interrupts-Parts fuel l keys v).1;
    keeps = λ v. to_Booting (interrupts-Parts fuel l keys v).0;
  }
