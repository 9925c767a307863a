-- ===== src/Timer/Calls.antt =====
-- kernel/pit.c, `pit_handler`: the steps and calls of an interrupt, for any invariant of the scheduler.
use prajna_os.Base.{
  ℕ, ◌+◌, ◌%◌, ◌≡◌, refl, ◌∙◌, List, [], ◌∷◌, Option, none, some, ◌==◌, Bool-cases, inl, inr, u8,
  modify,
}
use prajna_os.Float32.{FloatOps}
use prajna_os.Block.{DiskOps}
use prajna_os.Keyboard
use prajna_os.Keyboard.{Call, scancode_pop, process_scancode}
use prajna_os.Keyboard.Line.{IsLine}
use prajna_os.Keyboard.Queue.{IsRing}
use prajna_os.Console.{Console}
use prajna_os.Console.Cursor.{IsConsole, put_char-Keeps}
use prajna_os.Ml.{Weights}
use prajna_os.Ai.{Prajna}
use prajna_os.Scheduler.{Scheduler, scheduler_tick, scheduler_do_pending_switch}
use prajna_os.Shell.{Shown, char, cleared, halted, reset}
use prajna_os.Shell.Files.{Locals, Done}
use prajna_os.Shell.Handle.{shell_handle}
use prajna_os.Timer.Screen.{length-draw_top_bar, clear_screen-IsConsole, blink-IsConsole}
use prajna_os.Timer.Handler.{
  Kernel, Progress, goes, stopped, lost, ◌>>=◌, show_all, system_of, run_call, run_calls,
  count_tick, blink_step, draw_step, after_switch,
}

-- The result of a call that goes on.
abbrev pub Ensures : {A : Type 0} → (A → Type 0) → Progress A → Type 0
Ensures P (goes a) = P a
Ensures P stopped = Unit {0}
Ensures P lost = Unit {0}

pub Ensures-bind :
    {A B : Type 0} (P : A → Type 0) (Q : B → Type 0) (m : Progress A) (f : A → Progress B)
    → Ensures P m
    → ((a : A) → P a → Ensures Q (f a))
    → Ensures Q (m >>= f)
Ensures-bind P Q (goes a) f h k = k a h
Ensures-bind P Q stopped f h k = tt
Ensures-bind P Q lost f h k = tt

show_all-IsConsole :
    (shown : List Shown) {s : Console} → IsConsole s → Ensures IsConsole (show_all shown s)
unfolding show_all
show_all-IsConsole [] v = v
show_all-IsConsole (char c color ∷ rest) v =
    show_all-IsConsole rest (put_char-Keeps c color v).console
show_all-IsConsole (cleared ∷ rest) v = show_all-IsConsole rest (clear_screen-IsConsole v)
show_all-IsConsole (halted ∷ rest) v = tt
show_all-IsConsole (reset ∷ rest) v = show_all-IsConsole rest v

-- An invariant of the scheduler that counting a tick, and a tick with the pending switch, keep.
pub record IsStable (fl : FloatOps) (Good : Scheduler fl.Float → Type 0) : Type 0 where
  pub counted :
      {s : Scheduler fl.Float} (i : ℕ)
      → Good s
      → Good (record s {
        tasks = modify s.tasks i (λ t. record t { run_ticks = u8 (t.run_ticks + 1) });
      })
  pub scheduled :
      (w : Weights fl.Float) (ticks pages : ℕ) (p : Prajna fl.Float) {s : Scheduler fl.Float}
      → Good s
      → Good (scheduler_do_pending_switch (scheduler_tick fl w ticks pages p s).0).0

module _ {fl : FloatOps} {ops : DiskOps} where
  -- The invariants of the scheduler, the line editor, the scancode ring and the console together.
  pub record Parts (Good : Scheduler fl.Float → Type 0) (k : Kernel fl ops) : Type 0 where
    pub scheduler : Good k.scheduler
    pub line : IsLine k.keyboard
    pub ring : IsRing k.ring
    pub console : IsConsole k.console

module _ {fl : FloatOps} {ops : DiskOps} {Good : Scheduler fl.Float → Type 0}
    (stable : IsStable fl Good) where
  -- The calls of a key leave the scancode ring and the clock alone.
  pub record Served (k k' : Kernel fl ops) : Type 0 where
    pub sound : Parts Good k'
    pub ring_same : k'.ring ≡ k.ring
    pub ticks_same : k'.ticks ≡ k.ticks

  pub draw_step-Parts : {k : Kernel fl ops} → Parts Good k → Parts Good (draw_step k)
  unfolding draw_step
  draw_step-Parts {k} v = record {
    scheduler = v.scheduler;
    line = v.line;
    ring = v.ring;
    console = record {
      sized = length-draw_top_bar _ _ _ _ k.console.vga ∙ v.console.sized;
      below_bar = v.console.below_bar;
      in_rows = v.console.in_rows;
      in_cols = v.console.in_cols;
    };
  }

  pub after_switch-Parts : {k : Kernel fl ops} → Parts Good k → Parts Good (after_switch k)
  unfolding after_switch
  after_switch-Parts {k} v = elim (Bool-cases (k.ticks % 100 == 0)) [
    | inl now ↦ rw now (draw_step-Parts v)
    | inr later ↦ rw later v
  ]

  pub blink_step-Parts : {k : Kernel fl ops} → Parts Good k → Parts Good (blink_step k)
  unfolding blink_step
  blink_step-Parts {k} v = elim (Bool-cases (k.ticks % 10 == 0)) [
    | inl now ↦ rw now (record {
      scheduler = v.scheduler;
      line = v.line;
      ring = v.ring;
      console = blink-IsConsole v.console;
    })
    | inr later ↦ rw later v
  ]

  pub ticks-blink_step : (k : Kernel fl ops) → (blink_step k).ticks ≡ k.ticks
  unfolding blink_step
  ticks-blink_step k = elim (Bool-cases (k.ticks % 10 == 0)) [
    | inl now ↦ rw now
    | inr later ↦ rw later
  ]

  pub ring-blink_step : (k : Kernel fl ops) → (blink_step k).ring ≡ k.ring
  unfolding blink_step
  ring-blink_step k = elim (Bool-cases (k.ticks % 10 == 0)) [
    | inl now ↦ rw now
    | inr later ↦ rw later
  ]

  pub count_tick-Parts : {k : Kernel fl ops} → Parts Good k → Parts Good (count_tick k)
  unfolding count_tick
  count_tick-Parts {k} v = record {
    scheduler = stable.counted k.scheduler.current_task v.scheduler;
    line = v.line;
    ring = v.ring;
    console = v.console;
  }

  run_call-Served :
      (fuel : ℕ) (l : Locals) (c : Call) (k : Kernel fl ops)
      → Parts Good k
      → Ensures (Served k) (run_call fl ops fuel l c k)
  unfolding run_call
  run_call-Served fuel l (Keyboard.put_char c color) k v = record {
    sound = record {
      scheduler = v.scheduler;
      line = v.line;
      ring = v.ring;
      console = (put_char-Keeps c color v.console).console;
    };
    ring_same = refl;
    ticks_same = refl;
  }
  run_call-Served fuel l (Keyboard.shell_handle line) k v =
      handled (shell_handle fl ops fuel (system_of fl ops fuel l k) l line k.volume k.disk)
    where
      handled :
          (o : Option (Done ops.Disk))
          → Ensures (Served k) (elim o [
            | none ↦ lost
            | some r ↦ show_all r.shown k.console >>= λ console.
                goes (record k { console = console; volume = r.volume; disk = r.disk })
          ])
      handled none = tt
      handled (some r) =
          Ensures-bind IsConsole (Served k) (show_all r.shown k.console) _
            (show_all-IsConsole r.shown v.console)
            (λ console ok. record {
              sound = record {
                scheduler = v.scheduler;
                line = v.line;
                ring = v.ring;
                console = ok;
              };
              ring_same = refl;
              ticks_same = refl;
            })

  Served-trans : {k k' k'' : Kernel fl ops} → Served k k' → Served k' k'' → Served k k''
  Served-trans a b = record {
    sound = b.sound;
    ring_same = b.ring_same ∙ a.ring_same;
    ticks_same = b.ticks_same ∙ a.ticks_same;
  }

  Ensures-weaken :
      (P Q : Kernel fl ops → Type 0) (m : Progress (Kernel fl ops))
      → ((k : Kernel fl ops) → P k → Q k)
      → Ensures P m
      → Ensures Q m
  Ensures-weaken P Q (goes k) f h = f k h
  Ensures-weaken P Q stopped f h = tt
  Ensures-weaken P Q lost f h = tt

  pub run_calls-Served :
      (fuel : ℕ) (l : Locals) (calls : List Call) (k : Kernel fl ops)
      → Parts Good k
      → Ensures (Served k) (run_calls fl ops fuel l calls k)
  unfolding run_calls
  run_calls-Served fuel l [] k v = record { sound = v; ring_same = refl; ticks_same = refl }
  run_calls-Served fuel l (c ∷ calls) k v =
      Ensures-bind (Served k) (Served k) (run_call fl ops fuel l c k) _
        (run_call-Served fuel l c k v)
        (λ k' s.
          Ensures-weaken (Served k') (Served k) (run_calls fl ops fuel l calls k')
            (λ k'' t. Served-trans s t) (run_calls-Served fuel l calls k' s.sound))
