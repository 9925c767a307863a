-- ===== src/Timer.antt =====
-- kernel/pit.c: the timer, its interrupt handler, and the status bar that it draws.
pub mod Bar
pub mod Handler
pub mod Calls
pub mod Parts
pub mod Sound
pub mod Screen
use prajna_os.Base.{ℕ, ◌/◌, List, [], ◌∷◌, u8, ◌>>>◌}

abbrev pub pit_channel0 : ℕ
pit_channel0 = 0x40

abbrev pub pit_command : ℕ
pit_command = 0x43

abbrev pub pit_base_hz : ℕ
pit_base_hz = 1193180

-- The ports and bytes that `pit_init` writes, in order.
unfoldable pub pit_init : ℕ → List (ℕ × ℕ)
pit_init hz =
    let divisor = pit_base_hz / hz in
    (pit_command, 0x36) ∷ (pit_channel0, u8 divisor) ∷ (pit_channel0, u8 (divisor >>> 8)) ∷ []
