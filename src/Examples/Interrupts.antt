-- ===== src/Examples/Interrupts.antt =====
-- A timer interrupt with a switch due.
use prajna_os.Base.{replicate}
use prajna_os.Timer.Handler.{Kernel, pit_handler}
use prajna_os.Timer.Calls.{Ensures}
use prajna_os.Timer.Sound.{IsSound, Leaves, pit_handler-Leaves}
use prajna_os.Examples.Fixed.{fixed}
use prajna_os.Examples.Files.{ram, volume, formatted}
use prajna_os.Examples.Commands.{locals}
use prajna_os.Examples.Input.{ring, ring-IsRing, keyboard, keyboard-IsLine}
use prajna_os.Examples.Screen.{screen, screen-IsConsole}
use prajna_os.Examples.Tasks.{weights, granting, yes_please, switching, switching-OneRunning}
use prajna_os.Keyboard.{scancode_push}
use prajna_os.Keyboard.Queue.{scancode_push-IsRing}

-- At the 99th tick, with the key `a` pressed.
abbrev kernel : Kernel fixed ram
kernel = record {
  ticks = 99;
  bitmap = replicate 16384 0;
  weights = weights;
  scheduler = switching;
  prajna = granting (replicate 8 yes_please);
  ring = scancode_push ring 0x1E;
  keyboard = keyboard;
  console = screen;
  volume = volume;
  disk = formatted;
}

kernel-IsSound : IsSound kernel
kernel-IsSound = record {
  scheduler = switching-OneRunning;
  line = keyboard-IsLine;
  ring = scancode_push-IsRing 0x1E ring-IsRing;
  console = screen-IsConsole;
}

pit_handler-Leaves_example : Ensures (Leaves kernel) (pit_handler fixed ram 1 locals kernel)
pit_handler-Leaves_example = pit_handler-Leaves 1 locals kernel kernel-IsSound
