-- ===== src/Timer/Parts.antt =====
-- kernel/pit.c, `pit_handler`: what an interrupt keeps, for any invariant of the scheduler.
use prajna_os.Base.{
  ℕ, zero, suc, ◌+◌, ◌%◌, ◌<◌, ◌≡◌, refl, arith, ap, ◌∙◌, [], Option, none, some, Bool, true, false,
  ◌==◌, if◌then◌else◌, Option-cases, inl, inr, u32,
}
use mathlib.Core.Path.{subst}
use prajna_os.Float32.{FloatOps}
use prajna_os.Block.{DiskOps}
use prajna_os.Pmm.{free_pages}
use prajna_os.Keyboard.{scancode_pop, process_scancode}
use prajna_os.Keyboard.Line.{process_scancode-IsLine}
use prajna_os.Keyboard.Queue.{waiting, scancode_pop-IsRing, waiting-scancode_pop, scancode_pop-none}
use prajna_os.Scheduler.{Scheduler, scheduler_tick, scheduler_do_pending_switch}
use prajna_os.Shell.Files.{Locals}
use prajna_os.Timer.Calls.{
  Ensures, Ensures-bind, IsStable, Parts, Served, draw_step-Parts, blink_step-Parts,
  count_tick-Parts, run_calls-Served, ring-blink_step, ticks-blink_step,
}
use prajna_os.Timer.Screen.{show_notices-IsConsole}
use prajna_os.Timer.Handler.{
  Kernel, run_calls, drain, count_tick, blink_step, draw_step, schedule_step, pit_handler,
}

module _ {fl : FloatOps} {ops : DiskOps} {Good : Scheduler fl.Float → Type 0}
    (stable : IsStable fl Good) where
  -- After the drain no scancode waits.
  record Drained (ticks : ℕ) (k : Kernel fl ops) : Type 0 where
    sound : Parts Good k
    drained : k.ring.head ≡ k.ring.tail
    clock : k.ticks ≡ ticks

  drain-Drained :
      (fuel : ℕ) (l : Locals) (rounds : ℕ) (k : Kernel fl ops)
      → Parts Good k
      → waiting k.ring < rounds
      → Ensures (Drained k.ticks) (drain fl ops fuel l rounds k)
  unfolding drain
  drain-Drained fuel l zero k v h = absurd (omega arith)
  drain-Drained fuel l (suc rounds) k v h = elim (Option-cases (scancode_pop k.ring).0) [
    | inl n ↦
        rw (drain, n) (record { sound = v; drained = scancode_pop-none k.ring n; clock = refl })
    | inr (sc, e) ↦
        let (keyboard, calls) = process_scancode k.keyboard sc in
        let k1 : Kernel fl ops = record k { ring = (scancode_pop k.ring).1; keyboard = keyboard } in
        let v1 : Parts Good k1 = record {
          scheduler = v.scheduler;
          line = process_scancode-IsLine sc v.line;
          ring = scancode_pop-IsRing v.ring;
          console = v.console;
        } in
        let fewer = waiting-scancode_pop v.ring e in
        rw (drain, e)
          (Ensures-bind (Served stable k1) (Drained k.ticks) (run_calls fl ops fuel l calls k1) _
            (run_calls-Served stable fuel l calls k1 v1)
            (λ k' s.
              subst (λ t. Ensures (Drained t) (drain fl ops fuel l rounds k')) s.ticks_same
                (drain-Drained fuel l rounds k' s.sound
                  (omega (arith, ap waiting s.ring_same, fewer)))))
  ]

  drawn-Drained :
      (ticks : ℕ) (o : Option (ℕ × ℕ)) (k : Kernel fl ops)
      → Drained ticks k
      → Drained ticks (elim o [ none ↦ draw_step k | some tasks ↦ k ])
  unfolding draw_step
  drawn-Drained ticks none k v = record {
    sound = draw_step-Parts stable v.sound;
    drained = v.drained;
    clock = v.clock;
  }
  drawn-Drained ticks (some tasks) k v = v

  schedule_step-Drained :
      (ticks : ℕ) (k : Kernel fl ops) → Drained ticks k → Drained ticks (schedule_step k).kernel
  unfolding schedule_step
  schedule_step-Drained ticks k v =
      let tick = scheduler_tick fl k.weights k.ticks (free_pages k.bitmap) k.prajna k.scheduler in
      drawn-Drained ticks (scheduler_do_pending_switch tick.0).1 _ (record {
        sound = record {
          scheduler =
              stable.scheduled k.weights k.ticks (free_pages k.bitmap) k.prajna v.sound.scheduler;
          line = v.sound.line;
          ring = v.sound.ring;
          console = show_notices-IsConsole tick.2 v.sound.console;
        };
        drained = v.drained;
        clock = v.clock;
      })

  blink_step-Drained :
      (ticks : ℕ) (k : Kernel fl ops) → Drained ticks k → Drained ticks (blink_step k)
  blink_step-Drained ticks k v = record {
    sound = blink_step-Parts stable v.sound;
    drained = rw (ring-blink_step stable k) v.drained;
    clock = ticks-blink_step stable k ∙ v.clock;
  }

  finish-Drained :
      (ticks : ℕ) (due : Bool) (k : Kernel fl ops)
      → Drained ticks k
      → Drained ticks
          (if due
            then schedule_step k
            else record { kernel = k; notices = []; switch = none }).kernel
  finish-Drained ticks true k v = schedule_step-Drained ticks k v
  finish-Drained ticks false k v = v

  -- What the handler leaves: sound parts, no scancode waiting, and the clock one tick later.
  pub pit_handler-Parts :
      (fuel : ℕ) (l : Locals) (k : Kernel fl ops)
      → Parts Good k
      → Ensures
          (λ h.
            Parts Good h.kernel
            × (h.kernel.ring.head ≡ h.kernel.ring.tail)
            × (h.kernel.ticks ≡ u32 (k.ticks + 1)))
          (pit_handler fl ops fuel l k)
  unfolding pit_handler count_tick
  pit_handler-Parts fuel l k v =
      Ensures-bind (Drained (u32 (k.ticks + 1))) _ (drain fl ops fuel l 16 (count_tick k)) _
        (drain-Drained fuel l 16 (count_tick k) (count_tick-Parts stable v)
          (omega (arith, v.ring.tail_in)))
        (λ k' d.
          let e =
            finish-Drained (u32 (k.ticks + 1)) ((blink_step k').ticks % 100 == 0) (blink_step k')
              (blink_step-Drained (u32 (k.ticks + 1)) k' d) in
          (e.sound, e.drained, e.clock))
