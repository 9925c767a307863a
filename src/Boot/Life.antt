-- ===== src/Boot/Life.antt =====
-- kernel/kernel.c, kernel/pit.c and kernel/isr.c: the kernel from its start on, as interrupts come.
use mathlib.Core.Path.{subst}
use prajna_os.Base.{ℕ, ◌+◌, ◌≤◌, ◌<◌, ◌≡◌, List, Option, some}
use prajna_os.Float32.{FloatOps}
use prajna_os.Block.{DiskOps}
use prajna_os.Pmm.{total_pages}
use prajna_os.Pmm.Init.{reserved}
use prajna_os.Fat.{fat32_init}
use prajna_os.Ml.Load.{Loaded, ml_weights_load}
use prajna_os.Keyboard.Queue.{scancode_push-IsRing}
use prajna_os.Scheduler.Context.{Cpu}
use prajna_os.Shell.Files.{Locals}
use prajna_os.Timer.Handler.{Kernel, Handled, goes, pit_handler, after_switch, keyboard_handler}
use prajna_os.Timer.Calls.{Ensures}
use prajna_os.Timer.Sound.{IsSound, Leaves, after_switch-IsSound, pit_handler-Leaves}
use prajna_os.Boot.{Boot, Addresses, kernel_main}
use prajna_os.Boot.Greeting.{IsInterrupt}
use prajna_os.Boot.Start.{IsCold, kernel_main-IsSound}

module _ {fl : FloatOps} {ops : DiskOps} where
  -- The kernels that interrupts lead to: a key is pressed, the timer ticks, or a task that a switch
  -- left is resumed in the middle of the handler.
  pub data Reached (first : Kernel fl ops) : Kernel fl ops → Type 0 where
    begin : Reached first first
    key :
        {k : Kernel fl ops} (scancode : ℕ)
        → Reached first k
        → Reached first (keyboard_handler scancode k)
    tick :
        {k : Kernel fl ops} {h : Handled fl ops} (fuel : ℕ) (l : Locals)
        → Reached first k
        → pit_handler fl ops fuel l k ≡ goes h
        → Reached first h.kernel
    resumed : {k : Kernel fl ops} → Reached first k → Reached first (after_switch k)

  Reached-IsSound : {first k : Kernel fl ops} → Reached first k → IsSound first → IsSound k
  unfolding keyboard_handler Leaves
  Reached-IsSound begin v = v
  Reached-IsSound (key {k} scancode r) v =
      let w = Reached-IsSound r v in
      record {
        scheduler = w.scheduler;
        line = w.line;
        ring = scancode_push-IsRing scancode w.ring;
        console = w.console;
      }
  Reached-IsSound (tick {k} {h} fuel l r e) v =
      (subst (Ensures (Leaves k)) e (pit_handler-Leaves fuel l k (Reached-IsSound r v))).0
  Reached-IsSound (resumed r) v = after_switch-IsSound (Reached-IsSound r v)

  -- From static variables of their sizes, with two pages free behind the kernel, interrupts that
  -- keep the starting kernel well-formed and move the clock on while the greeting waits, and a
  -- search for the weights file that ends: in every kernel that key presses, timer ticks and
  -- resumed handlers lead to after `kernel_main`, exactly the current task of the table of eight is
  -- running, a pending switch goes to a ready task, and the input line, the scancode ring and the
  -- console are well-formed.
  pub Reached-kernel_main :
      (at : Addresses) (between : Kernel fl ops → Kernel fl ops) (rounds chain : ℕ) (junk : List ℕ)
      (b : Boot fl ops) (loaded : Loaded fl.Float) {r : Boot fl ops × Option Cpu}
      {k : Kernel fl ops}
      → IsCold b
      → IsInterrupt between
      → reserved at.kernel_end + 2 ≤ total_pages
      → 500 < rounds
      → ml_weights_load fl ops chain
          (fat32_init ops 2048 b.kernel.volume b.kernel.disk).1
          junk
          b.kernel.weights
          b.kernel.disk
        ≡ some loaded
      → kernel_main fl ops at between rounds chain junk b ≡ some r
      → Reached r.0.kernel k
      → IsSound k
  Reached-kernel_main at between rounds chain junk b loaded {r} v i room enough e ended reached =
      let (r', ended', sound, _) =
        kernel_main-IsSound at between rounds chain junk b loaded v i room enough e in
      let same : r' ≡ r = cc in Reached-IsSound reached (subst (λ x. IsSound x.0.kernel) same sound)
