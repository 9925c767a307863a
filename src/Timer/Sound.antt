-- ===== src/Timer/Sound.antt =====
-- kernel/pit.c, `pit_handler`: what holds after every interrupt.
use prajna_os.Base.{ℕ, zero, suc, ◌+◌, ◌≡◌, refl, ap, List, [], ◌∷◌, u32, u8, modify}
use prajna_os.Float32.{FloatOps}
use prajna_os.Block.{DiskOps}
use prajna_os.Task.{Task}
use prajna_os.Scheduler.Pick.{states}
use prajna_os.Scheduler.Running.{
  OneRunning, scheduler_tick-OneRunning, scheduler_do_pending_switch-OneRunning,
  same_states-OneRunning,
}
use prajna_os.Shell.Files.{Locals}
use prajna_os.Timer.Calls.{Ensures, IsStable, Parts, after_switch-Parts}
use prajna_os.Timer.Parts.{pit_handler-Parts}
use prajna_os.Timer.Handler.{Kernel, Handled, after_switch, pit_handler}

-- Counting a task's tick leaves its state.
pub states-counted :
    {F : Type 0} (ts : List (Task F)) (i : ℕ)
    → states (modify ts i (λ t. record t { run_ticks = u8 (t.run_ticks + 1) })) ≡ states ts
unfolding states
states-counted [] i = refl
states-counted (t ∷ ts) zero = refl
states-counted (t ∷ ts) (suc i) = ap (◌∷◌ t.state) (states-counted ts i)

OneRunning-IsStable : (fl : FloatOps) → IsStable fl OneRunning
OneRunning-IsStable fl = record {
  counted = λ {s} i v. same_states-OneRunning fl _ (states-counted s.tasks i) v;
  scheduled = λ w ticks pages p v.
      (scheduler_do_pending_switch-OneRunning (scheduler_tick-OneRunning fl w ticks pages p v)).0;
}

module _ {fl : FloatOps} {ops : DiskOps} where
  -- The invariants of the scheduler, the line editor, the scancode ring and the console together:
  -- exactly the current task is running, and a pending switch goes to a ready task.
  abbrev pub IsSound : Kernel fl ops → Type 0
  IsSound k = Parts OneRunning k

  pub after_switch-IsSound : {k : Kernel fl ops} → IsSound k → IsSound (after_switch k)
  after_switch-IsSound v = after_switch-Parts (OneRunning-IsStable fl) v

  -- What the handler leaves: sound parts, no scancode waiting, and the clock one tick later.
  unfoldable pub Leaves : Kernel fl ops → Handled fl ops → Type 0
  Leaves k h =
      IsSound h.kernel
      × (h.kernel.ring.head ≡ h.kernel.ring.tail)
      × (h.kernel.ticks ≡ u32 (k.ticks + 1))

  -- Where exactly the current task is running in the table of eight and a pending switch goes to a
  -- ready task, and the input line, the scancode ring and the console are well-formed: a
  -- `pit_handler` that neither halts the machine nor loses itself in a cyclic chain of clusters
  -- leaves them so, with no scancode waiting and the clock one tick on, whatever keys were typed
  -- and whatever shell commands they sent.
  pub pit_handler-Leaves :
      (fuel : ℕ) (l : Locals) (k : Kernel fl ops)
      → IsSound k
      → Ensures (Leaves k) (pit_handler fl ops fuel l k)
  unfolding Leaves
  pit_handler-Leaves fuel l k v = pit_handler-Parts (OneRunning-IsStable fl) fuel l k v
