-- ===== src/Boot.antt =====
-- kernel/kernel.c: the start of the kernel, from the set-up of every component to the shell's task.
-- `ata_init` is left out: kernel_main does not look at its result, and it stores nothing.
pub mod Table
pub mod Greeting
pub mod Start
pub mod Lone
pub mod Interrupt
pub mod Life
use prajna_os.Base.{
  ℕ, zero, suc, ◌+◌, ◌*◌, List, [], ◌∷◌, ◌++◌, Option, none, some, Bool, true, false, ◌==◌, not,
  if◌then◌else◌, get_or, set, codes,
}
use prajna_os.Float32.{FloatOps}
use prajna_os.Block.{DiskOps}
use prajna_os.Pmm
use prajna_os.Ai.Screen.{show_notice}
use prajna_os.Ai.{Prajna, SysState, calm, normal, alert, offline, ai_get_state, ai_kernel_offline}
use prajna_os.Console.{Console, clear_screen}
use prajna_os.Heap.{Block, heap_init}
use prajna_os.Klib.{wait}
use prajna_os.Fat.{fat32_init}
use prajna_os.Ml.Load.{ml_weights_load}
use prajna_os.Scheduler.{scheduler_init}
use prajna_os.Scheduler.Context.{Words, Cpu}
use prajna_os.Scheduler.Create.{Machine, task_create, scheduler_start}
use prajna_os.Segments.{GdtEntry, IdtEntry, gdt_init, idt_init, pic_remap}
use prajna_os.Timer.{pit_init}
use prajna_os.Timer.Bar.{print_text}
use prajna_os.Timer.Handler.{Kernel, draw_step}

-- The indices of `init_status`.
abbrev pub init_fat32 : ℕ
init_fat32 = 0

abbrev pub init_heap : ℕ
init_heap = 1

abbrev pub init_ml : ℕ
init_ml = 3

-- The static variables of all components, the memory of the stacks, and the bytes sent to ports.
pub record Boot (fl : FloatOps) (ops : DiskOps) : Type 0 where
  pub kernel : Kernel fl ops
  pub heap : List Block
  pub memory : Words
  pub init_status : List ℕ
  pub gdt : List GdtEntry
  pub idt : List IdtEntry
  pub sent : List (ℕ × ℕ)

-- The addresses of `kernel_end`, of the three interrupt stubs and of `shell_task`.
pub record Addresses : Type 0 where
  pub kernel_end : ℕ
  pub isr_default : ℕ
  pub isr_timer : ℕ
  pub isr_keyboard : ℕ
  pub shell_task : ℕ

-- `print` of kernel.c is the same routine as that of pit.c.
abbrev pub print_direct : List ℕ → ℕ → ℕ → ℕ → List ℕ → List ℕ
print_direct msg row col color vga = print_text msg row col color vga

-- `init_status[i] = 1`, where `code` is not 0.
abbrev pub note_failure : ℕ → ℕ → List ℕ → List ℕ
note_failure i code status = if not (code == 0) then set status i 1 else status

unfoldable pub state_line : SysState → List ℕ → List ℕ
state_line calm vga = print_direct (codes "[PRAJNA] State     : CALM ") 5 0 0x0A vga
state_line normal vga = print_direct (codes "[PRAJNA] State     : NORMAL ") 5 0 0x0E vga
state_line alert vga = print_direct (codes "[PRAJNA] State     : ALERT  ") 5 0 0x0C vga

-- The lines on the file system, the network and the heap, where they failed and where not. Where the
-- network failed, `ai_kernel_offline` writes a line too.
unfoldable pub fat32_line : Bool → List ℕ → List ℕ
fat32_line true vga = print_direct (codes "[PRAJNA] FAT32     : FAILED") 3 0 0x0C vga
fat32_line false vga = print_direct (codes "[PRAJNA] FAT32     : mounted") 3 0 0x0A vga

unfoldable pub ml_line : Bool → List ℕ → List ℕ
ml_line true vga =
    show_notice offline (print_direct (codes "[PRAJNA] ML model  : FAILED") 4 0 0x0C vga)
ml_line false vga = print_direct (codes "[PRAJNA] ML model  : loaded") 4 0 0x0A vga

unfoldable pub heap_line : Bool → List ℕ → List ℕ
heap_line true vga = print_direct (codes "[PRAJNA] Heap      : FAILED") 4 40 0x0C vga
heap_line false vga = vga

unfoldable pub status_lines : List ℕ → List ℕ → List ℕ
status_lines status vga =
    heap_line (get_or status init_heap 0 == 1)
      (ml_line (get_or status init_ml 0 == 1) (fat32_line (get_or status init_fat32 0 == 1) vga))

module _ {fl : FloatOps} {ops : DiskOps} where
  -- The part of `boot_time_greeting` before `wait`.
  unfoldable pub greet : List ℕ → Kernel fl ops → Kernel fl ops
  greet status k =
      let c = clear_screen k.console in
      let title = print_direct (codes ".....PrajnaOS.....") 0 31 0x0A c.vga in
      let p = if get_or status init_ml 0 == 1 then (ai_kernel_offline k.prajna).0 else k.prajna in
      record k {
        prajna = p;
        console = record c { vga = state_line (ai_get_state p) (status_lines status title) };
      }

  abbrev pub clear_again : Kernel fl ops → Kernel fl ops
  clear_again k = record k { console = clear_screen k.console }

  -- `between` is what the interrupts between two readings of the clock do: `ata_init` has switched
  -- them on.
  unfoldable pub boot_time_greeting :
      (Kernel fl ops → Kernel fl ops) → ℕ → List ℕ → Kernel fl ops → Option (Kernel fl ops)
  boot_time_greeting between rounds status k =
      elim (wait (λ k'. k'.ticks) between rounds 5 (greet status k)) [
        | none ↦ none
        | some k' ↦ some (clear_again k')
      ]

module _ (fl : FloatOps) (ops : DiskOps) (at : Addresses) where
  -- The hardware: the cursor is hidden, and the tables and the timer are set up.
  unfoldable pub init_hardware : Boot fl ops → Boot fl ops
  init_hardware b = record b {
    gdt = gdt_init b.gdt;
    idt = idt_init at.isr_default at.isr_timer at.isr_keyboard b.idt;
    sent = b.sent ++ (0x3D4, 0x0A) ∷ (0x3D5, 0x20) ∷ pic_remap ++ pit_init 100;
  }

  -- From `pmm_init` to `scheduler_init`.
  unfoldable pub init_memory : Boot fl ops → Boot fl ops
  init_memory b =
      let k = b.kernel in
      let (fat_code, volume) = fat32_init ops 2048 k.volume k.disk in
      let (heap_code, heap) =
        heap_init (record { blocks = b.heap; bitmap = Pmm.init at.kernel_end k.bitmap }) in
      record b {
        heap = heap.blocks;
        init_status =
            note_failure init_heap heap_code (note_failure init_fat32 fat_code b.init_status);
        kernel = record k {
          bitmap = heap.bitmap;
          volume = volume;
          scheduler = scheduler_init k.scheduler;
        };
      }

  -- `ml_weights_load`, with its buffer's first contents; none where the walk along the directory's
  -- clusters does not end within `chain` rounds.
  unfoldable pub load_weights : ℕ → List ℕ → Boot fl ops → Option (Boot fl ops)
  load_weights chain junk b =
      let k = b.kernel in
      elim (ml_weights_load fl ops chain k.volume junk k.weights k.disk) [
        | none ↦ none
        | some loaded ↦ some (record b {
          init_status = note_failure init_ml loaded.code b.init_status;
          kernel = record k { weights = loaded.weights };
        })
      ]

  abbrev pub machine_of : Boot fl ops → Machine fl.Float
  machine_of b = record {
    scheduler = b.kernel.scheduler;
    bitmap = b.kernel.bitmap;
    memory = b.memory;
  }

  abbrev pub with_machine : Boot fl ops → Machine fl.Float → Boot fl ops
  with_machine b mc = record b {
    memory = mc.memory;
    kernel = record b.kernel { scheduler = mc.scheduler; bitmap = mc.bitmap };
  }

  -- `task_create(shell_task, 5)`
  unfoldable pub create_shell : Boot fl ops → Boot fl ops
  create_shell b = with_machine b (task_create fl at.shell_task 5 (machine_of b))

  -- `draw_top_bar`, and `scheduler_start` with the processor that it leaves.
  unfoldable pub start : Boot fl ops → Boot fl ops × Option Cpu
  start b =
      let drawn = record b { kernel = draw_step b.kernel } in
      let (mc, cpu) = scheduler_start fl (machine_of drawn) in (with_machine drawn mc, cpu)

  unfoldable pub kernel_main :
      (Kernel fl ops → Kernel fl ops)
      → ℕ
      → ℕ
      → List ℕ
      → Boot fl ops
      → Option (Boot fl ops × Option Cpu)
  kernel_main between rounds chain junk b =
      elim (load_weights chain junk (init_memory (init_hardware b))) [
        | none ↦ none
        | some loaded ↦
            let ready = create_shell loaded in
            elim (boot_time_greeting between rounds ready.init_status ready.kernel) [
              | none ↦ none
              | some k ↦ some (start (record ready { kernel = k }))
            ]
      ]
