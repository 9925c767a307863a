-- ===== src/Examples/Start.antt =====
-- The start of the kernel on a disk without a partition, and the first interrupts.
use prajna_os.Base.{
  ℕ, ◌+◌, ◌-◌, ◌^◌, ◌≡◌, refl, arith, [], ◌∷◌, Option, some, replicate, length-replicate, u32,
}
use prajna_os.Pmm
use prajna_os.Pmm.{alloc, page_size}
use prajna_os.Fat.{fat32_init}
use prajna_os.Fat.Dir.{fat32_find_file}
use prajna_os.Ml.Load.{Loaded, ml_weights_load}
use prajna_os.Scheduler.Context.{Cpu}
use prajna_os.Klib.{wait}
use prajna_os.Klib.Clock.{after_rounds, wait-after_rounds}
use prajna_os.Timer.Handler.{Kernel, keyboard_handler}
use prajna_os.Timer.Sound.{IsSound}
use prajna_os.Boot.{Boot, Addresses, kernel_main}
use prajna_os.Boot.Greeting.{IsInterrupt}
use prajna_os.Boot.Interrupt.{interrupts, interrupts-IsInterrupt}
use prajna_os.Examples.Commands.{locals}
use prajna_os.Boot.Start.{IsCold, shell_cpu, kernel_main-IsSound}
use prajna_os.Boot.Life.{begin, key, Reached-kernel_main}
use prajna_os.Examples.Fixed.{Fixed, fixed}
use prajna_os.Examples.Files.{fetch, ram, volume, formatted}
use prajna_os.Examples.Input.{ring, ring-IsRing, keyboard, keyboard-IsLine}
use prajna_os.Examples.Screen.{screen, screen-IsConsole}
use prajna_os.Examples.Tasks.{weights, granting, yes_please, scheduler, task}
use prajna_os.Examples.Fixed.{pos}
use prajna_os.Task.{dead}

abbrev cold_kernel : Kernel fixed ram
cold_kernel = record {
  ticks = 0;
  bitmap = replicate 16384 0;
  weights = weights;
  scheduler = scheduler (replicate 8 (task dead (pos 0)));
  prajna = granting (replicate 8 yes_please);
  ring = ring;
  keyboard = keyboard;
  console = screen;
  volume = volume;
  disk = formatted;
}

abbrev cold : Boot fixed ram
cold = record {
  kernel = cold_kernel;
  heap = [];
  memory = λ a. 0;
  init_status = replicate 5 0;
  gdt = [];
  idt = [];
  sent = [];
}

abbrev addresses : Addresses
addresses = record {
  kernel_end = 0x200000;
  isr_default = 0x100010;
  isr_timer = 0x100020;
  isr_keyboard = 0x100030;
  shell_task = 0x100400;
}

-- A round in which the letter `a` is pressed and the timer ticks.
abbrev round : Kernel fixed ram → Kernel fixed ram
round = interrupts fixed ram 1 locals (0x1E ∷ [])

round-IsInterrupt : IsInterrupt round
round-IsInterrupt = interrupts-IsInterrupt fixed ram 1 locals (0x1E ∷ [])

cold-IsCold : IsCold cold
cold-IsCold = record {
  bitmap = length-replicate {A = ℕ} 16384 0;
  table = refl;
  no_switch = refl;
  line = keyboard-IsLine;
  ring = ring-IsRing;
  console = screen-IsConsole;
  clock = omega arith;
}

abbrev missing : Loaded Fixed
missing = record { code = 1; weights = weights }

no_weights :
    ml_weights_load fixed ram 1
      (fat32_init ram 2048 volume formatted).1
      (replicate 512 0)
      weights
      formatted
    ≡ some missing
unfolding ml_weights_load fat32_init fetch fat32_find_file
no_weights = refl

abbrev Starts : Type 0
Starts =
    (r : Boot fixed ram × Option Cpu) × (kernel_main fixed ram addresses round 600 1
        (replicate 512 0) cold
      ≡ some r)
    × IsSound r.0.kernel
    × (r.1
        ≡ some (
            shell_cpu addresses
              ((alloc (alloc (Pmm.init 0x200000 (replicate 16384 0))).1).0 + page_size)))

kernel_main-IsSound_example : Starts
kernel_main-IsSound_example =
    kernel_main-IsSound addresses round 600 1 (replicate 512 0) cold missing cold-IsCold
      round-IsInterrupt (omega arith) (omega arith) no_weights

run : Starts
run =
    kernel_main-IsSound addresses round 600 1 (replicate 512 0) cold missing cold-IsCold
      round-IsInterrupt (omega arith) (omega arith) no_weights

Reached-kernel_main_example : IsSound (keyboard_handler 0x1E run.0.0.kernel)
Reached-kernel_main_example =
    Reached-kernel_main addresses round 600 1 (replicate 512 0) cold missing cold-IsCold
      round-IsInterrupt (omega arith) (omega arith) no_weights run.1 (key 0x1E begin)

wait-after_rounds_example :
    wait (λ t. t) (λ t. u32 (t + 1)) 600 5 (2 ^ 32 - 1)
    ≡ some (after_rounds (λ t. u32 (t + 1)) 500 (2 ^ 32 - 1))
wait-after_rounds_example =
    wait-after_rounds (λ t. t) (λ t. u32 (t + 1)) (λ t. refl) 600 5 (2 ^ 32 - 1) (omega arith)
      (omega arith)

interrupts-IsInterrupt_example : IsInterrupt (interrupts fixed ram 1 locals (0x1E ∷ []))
interrupts-IsInterrupt_example = interrupts-IsInterrupt fixed ram 1 locals (0x1E ∷ [])
