-- ===== src/Shell/Handle.antt =====
-- kernel/shell.c, `shell_handle`: every branch, and the prompt behind it.
use prajna_os.Base.{
  ℕ, List, [], ◌∷◌, ◌++◌, Option, none, some, ◌==◌, if◌then◌else◌, get_or, drop, codes,
}
use prajna_os.Float32.{FloatOps}
use prajna_os.Block.{DiskOps}
use prajna_os.Task.{Task}
use prajna_os.Ai.{Prajna, ai_get_state}
use prajna_os.Fat.{Volume}
use prajna_os.Shell.{
  Shown, char, cleared, halted, reset, print, print_prompt, Command, help, about, empty, clear,
  uptime, echo, version, hello, beep, poweroff, reboot, classify, ls, cat, cd, touch, write, status,
  ps, why, memory_history, rm, log, command_of,
}
use prajna_os.Shell.Iris.{classify_command}
use prajna_os.Shell.Files.{
  Locals, Done, only_shows, ls_command, cat_command, cd_command, touch_command, write_command,
  rm_command,
}
use prajna_os.Shell.Reports.{
  uptime_command, status_command, ps_command, why_command, history_command, log_command,
}

-- What the shell reads of the rest of the kernel.
pub record System (fl : FloatOps) : Type 0 where
  pub ticks : ℕ
  pub prajna : Prajna fl.Float
  pub tasks : List (Task fl.Float)

unfoldable pub about_text : List Shown
unfolding print
about_text =
    print (codes "PrajnaOS - Consciousness. Intelligence. Control.") 0x01
    ++ print (codes "Built from scratch in C and x86 Assembly.") 0x01

-- `cmd + 5` where a blank follows the word.
unfoldable pub echo_command : List ℕ → List Shown
unfolding print
echo_command cmd =
    if get_or cmd 4 0 == b' '
    then print (drop 5 cmd) 0x0A
    else print (codes "Usage: echo <text>") 0x0C

abbrev pub prompt : List Shown
prompt = print_prompt (codes "PrajnaOS>") 0x03

module _ (fl : FloatOps) (ops : DiskOps) where
  open ops use {Disk}

  abbrev pub changes : Volume → Option (List Shown × Disk) → Option (Done Disk)
  changes g none = none
  changes g (some (shown, d)) = some (record { volume = g; disk = d; shown = shown })

  abbrev pub moves : Disk → Option (Volume × List Shown) → Option (Done Disk)
  moves d none = none
  moves d (some (g, shown)) = some (record { volume = g; disk = d; shown = shown })

  -- A branch that goes on to the prompt with the file system as it was.
  abbrev pub says : Volume → Disk → List Shown → Option (Done Disk)
  says g d shown = some (record { volume = g; disk = d; shown = shown })

  -- One branch, without the prompt.
  unfoldable pub run_command :
      ℕ → System fl → Locals → Command → List ℕ → Volume → Disk → Option (Done Disk)
  run_command fuel sys l help cmd g d =
      says g d
        (print (codes "Commands: help, clear, about, uptime, reboot, poweroff, ls ,cat") 0x0E)
  run_command fuel sys l about cmd g d = says g d about_text
  run_command fuel sys l empty cmd g d = says g d []
  run_command fuel sys l clear cmd g d = says g d (cleared ∷ [])
  run_command fuel sys l uptime cmd g d = says g d (uptime_command sys.ticks)
  run_command fuel sys l echo cmd g d = says g d (echo_command cmd)
  run_command fuel sys l version cmd g d =
      says g d (print (codes "PrajnaOS v0.1 - Bare Metal") 0x0E)
  run_command fuel sys l hello cmd g d = says g d (print (codes "Hello from PrajnaOS!") 0x0A)
  run_command fuel sys l beep cmd g d = says g d (char 7 0x07 ∷ [])
  run_command fuel sys l poweroff cmd g d = says g d (halted ∷ [])
  run_command fuel sys l reboot cmd g d = says g d (reset ∷ [])
  run_command fuel sys l classify cmd g d =
      only_shows ops g d (classify_command fl ops fuel g l.file_buf d)
  run_command fuel sys l ls cmd g d = only_shows ops g d (ls_command ops fuel g d)
  run_command fuel sys l cat cmd g d = only_shows ops g d (cat_command ops fuel g l cmd d)
  run_command fuel sys l cd cmd g d = moves d (cd_command ops fuel g cmd d)
  run_command fuel sys l touch cmd g d = changes g (some (touch_command ops g cmd d))
  run_command fuel sys l write cmd g d = changes g (write_command ops fuel g l cmd d)
  run_command fuel sys l status cmd g d = says g d (status_command (ai_get_state sys.prajna))
  run_command fuel sys l ps cmd g d = says g d (ps_command fl sys.tasks)
  run_command fuel sys l why cmd g d = says g d (why_command sys.prajna sys.tasks)
  run_command fuel sys l memory_history cmd g d = says g d (history_command sys.prajna)
  run_command fuel sys l rm cmd g d = changes g (rm_command ops fuel g cmd d)
  run_command fuel sys l log cmd g d = says g d (log_command sys.prajna)
  run_command fuel sys l c cmd g d = says g d (print (codes "Unknown command. Type help.") 0x04)

  -- `clear` returns before the prompt, and `poweroff` never does.
  abbrev pub with_prompt : Command → Option (Done Disk) → Option (Done Disk)
  with_prompt c none = none
  with_prompt clear (some r) = some r
  with_prompt poweroff (some r) = some r
  with_prompt c (some r) = some (record r { shown = r.shown ++ prompt })

  -- None where a walk along a chain of clusters does not end within `fuel` rounds.
  unfoldable pub shell_handle : ℕ → System fl → Locals → List ℕ → Volume → Disk → Option (Done Disk)
  shell_handle fuel sys l cmd g d =
      with_prompt (command_of cmd) (run_command fuel sys l (command_of cmd) cmd g d)
