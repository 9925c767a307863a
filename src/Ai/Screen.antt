-- ===== src/Ai/Screen.antt =====
-- kernel/ai_kernel.c: where Prajna's notices stand on the screen.
use prajna_os.Base.{ℕ, ◌*◌, List, [], ◌∷◌, replicate, codes}
use prajna_os.Ai.{
  Notice, depleting, not_urgent, clear_row, memory_low, starvation, anomaly, offline,
}
use prajna_os.Console.{print_at}

-- The call of `print` for a notice, on the cells of the screen.
unfoldable pub show_notice : Notice → List ℕ → List ℕ
show_notice depleting vga =
    print_at (22 * 80) 0x0E (codes "[PRAJNA] Warning: memory depleting fast, act fast") vga
show_notice not_urgent vga =
    print_at (22 * 80) 0x0A (codes "[PRAJNA] Debug: trend ok, not urgent") vga
show_notice clear_row vga = print_at (23 * 80) 0x07 (replicate 50 b' ') vga
show_notice memory_low vga =
    print_at (23 * 80) 0x0E (codes "[PRAJNA] Warning: memory low, act fast") vga
show_notice starvation vga =
    print_at (23 * 80) 0x0E (codes "[PRAJNA] Warning: task starvation detected") vga
show_notice anomaly vga =
    print_at (23 * 80) 0x0C (codes "[PRAJNA] Warning: anomaly detected in task") vga
show_notice offline vga = print_at (14 * 80) 0x04 (codes "[PRAJNA] offline -- manual mode") vga

-- The calls in their order.
unfoldable pub show_notices : List Notice → List ℕ → List ℕ
show_notices [] vga = vga
show_notices (n ∷ ns) vga = show_notices ns (show_notice n vga)
