-- ===== src/Shell/Reports.antt =====
-- kernel/shell.c: the commands that only print (`uptime`, `ps`, `prajna status`, `prajna why`, `memory
-- history`, `prajna log`).
use prajna_os.Base.{
  ℕ, ◌+◌, ◌-◌, ◌/◌, List, [], ◌∷◌, ◌++◌, Option, none, some, not, ◌&&◌, ◌==◌, if◌then◌else◌, get_or,
  set, replicate, codes,
}
use prajna_os.Float32.{FloatOps}
use prajna_os.Task.{Task, TaskState, dead, ready, running, is_dead}
use prajna_os.Klib.{put_digits, swap_ends, uint_to_str}
use prajna_os.Ml.Format.{ml_float_to_str}
use prajna_os.Ai.{SysState, calm, normal, alert, Event, Prajna, no_permission}
use prajna_os.Ai.Act.{no_task}
use prajna_os.Ai.Log.{ai_get_log}
use prajna_os.Ai.Memory.{ai_get_memory_history}
use prajna_os.Shell.{Shown, char, print, print_prompt}

-- `uptime`: nothing for 0 ticks, since both calls of `print` stand in the other branch. The digits
-- are made as in `uint_to_str`; what `buf` holds before does not show.
unfoldable pub uptime_command : ℕ → List Shown
unfolding print put_digits swap_ends
uptime_command t =
    let c = put_digits t t (record { buf = replicate 32 0; i = 0 }) in
    let buf = set (swap_ends c.i 0 (c.i - 1) c.buf) c.i 0 in
    if t == 0 then [] else print (codes "Ticks: ") 0x0E ++ print buf 0x0E

-- `prajna status`
unfoldable pub status_command : SysState → List Shown
unfolding print
status_command calm = print (codes "Prajna: CALM - system healthy, all tasks normal") 0x0A
status_command normal = print (codes "Prajna: NORMAL - moderate load, monitoring") 0x0E
status_command alert = print (codes "Prajna: ALERT -   low memory, non-shell tasks blocked") 0x0C

-- `uint_to_str(n, buf)`, for `char buf[16]`.
abbrev number : ℕ → List ℕ
number n = uint_to_str n (replicate 16 0)

abbrev state_name : TaskState → List ℕ
state_name running = 9 ∷ codes "RUN  "
state_name ready = 9 ∷ codes "READY"
state_name dead = 9 ∷ codes "DEAD "

abbrev tab : List Shown
tab = char 9 0x0F ∷ []

module _ (fl : FloatOps) where
  open fl use {Float, trunc}

  -- `(uint32_t)tasks[i].priority` is taken as the `int` of the same value.
  unfoldable pub show_task : ℕ → Task Float → List Shown
  unfolding print_prompt ml_float_to_str uint_to_str
  show_task i t =
      (char (b'0' + i) 0x0F ∷ char b' ' 0x0F ∷ [])
      ++ (print_prompt (state_name t.state) 0x0F
          ++ (tab
              ++ (print_prompt (ml_float_to_str fl t.cpu_usage (replicate 16 0) 1) 0x0A
                  ++ (tab
                      ++ (print_prompt (ml_float_to_str fl t.mem_usage (replicate 16 0) 1) 0x0B
                          ++ (tab
                              ++ (print_prompt (number (trunc t.priority)) 0x0F
                                  ++ (tab
                                      ++ (print_prompt
                                            (ml_float_to_str fl t.ml_score (replicate 16 0) 2) 0x0D
                                          ++ (tab
                                              ++ (print_prompt (number t.wait_ticks) 0x0F
                                                  ++ (char 10 0x0F ∷ []))))))))))))

  -- The loop of `ps`, from task `i` on.
  unfoldable pub show_tasks : ℕ → List (Task Float) → List Shown
  unfolding show_task
  show_tasks i [] = []
  show_tasks i (t ∷ ts) =
      if is_dead t.state then show_tasks (i + 1) ts else show_task i t ++ show_tasks (i + 1) ts

  -- The tabs of the heading are written out.
  unfoldable pub ps_command : List (Task Float) → List Shown
  unfolding print show_tasks
  ps_command ts =
      print
        (codes "ID"
          ++ (9 ∷ codes "STATE"
              ++ (9 ∷ codes "CPU%"
                  ++ (9 ∷ codes "MEM%"
                      ++ (9 ∷ codes "PRI" ++ (9 ∷ codes "SCORE" ++ (9 ∷ codes "WAIT")))))))
        0x0E
      ++ show_tasks 0 ts

unfoldable pub decision : Event → List Shown
unfolding print uint_to_str
decision ev = elim ev.state [
  | calm ↦ print (codes "Last decision: CALM") 0x0A
  | normal ↦ print (codes "Last decision: NORMAL") 0x0E
  | alert ↦
      print (codes "Last decision: ALERT") 0x0C
      ++ (print (codes "  reason: free pages (") 0x0C
          ++ (print (number ev.free_pages_at_decision) 0x0C
              ++ print (codes ") below PMM_ALERT_THRESHOLD") 0x0C))
]

-- A guard that named a task.
unfoldable pub guard : List ℕ → ℕ → List Shown
unfolding print
guard text id =
    if id == no_task then [] else print text 0x0E ++ (char (b'0' + id) 0x0E ∷ char 10 0x0E ∷ [])

-- Whether any task was named, the line of blocked tasks ends in a newline or is "none".
abbrev end_of_blocked : List Shown → List Shown
end_of_blocked [] = print (codes "none") 0x0A
end_of_blocked (s ∷ shown) = (s ∷ shown) ++ (char 10 0x07 ∷ [])

-- The loop of `memory history`.
unfoldable pub show_samples : List (ℕ × ℕ) → List Shown
unfolding print uint_to_str
show_samples [] = []
show_samples ((pages, ticks) ∷ rest) =
    print (codes "Tick: ") 0x07
    ++ (print (uint_to_str (ticks / 1000) (replicate 32 0)) 0x0A
        ++ (print (codes "  Free Pages: ") 0x07
            ++ (print (uint_to_str pages (replicate 32 0)) 0x0A
                ++ (print (10 ∷ []) 0x07 ++ show_samples rest))))

unfoldable pub show_decision : Option Event → List Shown
unfolding print
show_decision none = []
show_decision (some ev) = elim ev.state [
  | calm ↦ print (codes "CALM  ") 0x0A
  | normal ↦ print (codes "NORML ") 0x0A
  | alert ↦ print (codes "ALERT ") 0x0C
]

unfoldable pub show_decisions : List (Option Event) → List Shown
unfolding show_decision
show_decisions [] = []
show_decisions (e ∷ es) = show_decision e ++ show_decisions es

module _ {F : Type 0} where
  -- The loop that names the blocked tasks, from task `i` on.
  unfoldable pub blocked_tasks : ℕ → Event → List (Task F) → List Shown
  blocked_tasks i ev [] = []
  blocked_tasks i ev (t ∷ ts) =
      if not (is_dead t.state) && not (get_or ev.perms i no_permission).allowed
      then char (b'0' + i) 0x0C ∷ char b' ' 0x0C ∷ blocked_tasks (i + 1) ev ts
      else blocked_tasks (i + 1) ev ts

  -- `prajna why`; an entry outside the log's array shows nothing.
  unfoldable pub why_command : Prajna F → List (Task F) → List Shown
  unfolding print ai_get_log decision guard blocked_tasks
  why_command p ts = elim (ai_get_log p.log 1) [
    | [] ↦ print (codes "Prajna: no decisions logged yet") 0x07
    | none ∷ rest ↦ []
    | some ev ∷ rest ↦
        decision ev
        ++ (guard (codes "  starvation guard: task ") ev.starvation_task_id
            ++ (guard (codes "  anomaly guard: task ") ev.anomaly_task_id
                ++ (print (codes "Blocked tasks: ") 0x07
                    ++ end_of_blocked (blocked_tasks 0 ev ts))))
  ]

  unfoldable pub history_command : Prajna F → List Shown
  unfolding print ai_get_memory_history show_samples
  history_command p = elim (ai_get_memory_history p.mem_history) [
    | [] ↦ print (codes "No memory history available.") 0x0C
    | sample ∷ samples ↦ print (codes "Memory History:") 0x0A ++ show_samples (sample ∷ samples)
  ]

  -- `prajna log`
  unfoldable pub log_command : Prajna F → List Shown
  unfolding print ai_get_log show_decisions
  log_command p = elim (ai_get_log p.log 5) [
    | [] ↦ print (codes "Prajna: no log entries yet") 0x07
    | e ∷ es ↦ print (codes "Last 5 Prajna decisions:") 0x03 ++ show_decisions (e ∷ es)
  ]
