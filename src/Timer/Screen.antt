-- ===== src/Timer/Screen.antt =====
-- kernel/pit.c and kernel/isr.c: what the drawing functions do to the cells of the screen.
use prajna_os.Base.{
  ℕ, zero, suc, ◌+◌, ◌*◌, ◌≡◌, refl, arith, ◌∙◌, List, [], ◌∷◌, length, set, length-set, codes,
}
use prajna_os.Task.{Task}
use prajna_os.Ai.{
  SysState, Notice, depleting, not_urgent, clear_row, memory_low, starvation, anomaly, offline,
}
use prajna_os.Ai.Screen.{show_notice, show_notices}
use prajna_os.Console.{Console, clear_screen, blink, print_at, prompt, cell}
use prajna_os.Console.Cursor.{IsConsole, length-blank_from}
use prajna_os.Timer.Bar.{
  print_text, fill_row, draw_divider, draw_number, draw_top_bar, state_text, state_color,
}

pub length-print_text :
    (msg : List ℕ) (row col color : ℕ) (vga : List ℕ)
    → length (print_text msg row col color vga) ≡ length vga
unfolding print_text
length-print_text [] row col color vga = refl
length-print_text (c ∷ msg) row col color vga = ground (
  arith,
  length-print_text msg (row + 1) 0 color vga,
  length-print_text msg row (col + 4) color vga,
  length-print_text msg row (col + 1) color (set vga (row * 80 + col) (cell color c)),
  length-set vga (row * 80 + col) (cell color c),
)

length-fill_row :
    (left i c row color : ℕ) (vga : List ℕ) → length (fill_row left i c row color vga) ≡ length vga
unfolding fill_row
length-fill_row zero i c row color vga = refl
length-fill_row (suc left) i c row color vga =
    length-fill_row left (i + 1) c row color _ ∙ length-print_text (c ∷ []) row i color vga

length-draw_number :
    (label : List ℕ) (at : ℕ) (number : List ℕ) (number_at : ℕ) (unit vga : List ℕ)
    → length (draw_number label at number number_at unit vga) ≡ length vga
unfolding draw_number
length-draw_number label at number number_at unit vga =
    length-print_text unit 0 _ 0x17 _
    ∙ length-print_text number 0 number_at 0x1F _
    ∙ length-print_text label 0 at 0x17 vga

pub length-print_at :
    (msg : List ℕ) (k color : ℕ) (vga : List ℕ) → length (print_at k color msg vga) ≡ length vga
unfolding print_at
length-print_at [] k color vga = refl
length-print_at (c ∷ msg) k color vga = length-print_at msg (k + 1) color _ ∙ length-set vga k _

pub length-show_notice : (n : Notice) (vga : List ℕ) → length (show_notice n vga) ≡ length vga
unfolding show_notice
length-show_notice depleting vga = length-print_at _ (22 * 80) 0x0E vga
length-show_notice not_urgent vga = length-print_at _ (22 * 80) 0x0A vga
length-show_notice clear_row vga = length-print_at _ (23 * 80) 0x07 vga
length-show_notice memory_low vga = length-print_at _ (23 * 80) 0x0E vga
length-show_notice starvation vga = length-print_at _ (23 * 80) 0x0E vga
length-show_notice anomaly vga = length-print_at _ (23 * 80) 0x0C vga
length-show_notice offline vga = length-print_at _ (14 * 80) 0x04 vga

length-show_notices : (ns : List Notice) (vga : List ℕ) → length (show_notices ns vga) ≡ length vga
unfolding show_notices
length-show_notices [] vga = refl
length-show_notices (n ∷ ns) vga = length-show_notices ns _ ∙ length-show_notice n vga

pub show_notices-IsConsole :
    {s : Console} (ns : List Notice)
    → IsConsole s
    → IsConsole (record s { vga = show_notices ns s.vga })
show_notices-IsConsole {s} ns v = record {
  sized = length-show_notices ns s.vga ∙ v.sized;
  below_bar = v.below_bar;
  in_rows = v.in_rows;
  in_cols = v.in_cols;
}

pub clear_screen-IsConsole : {s : Console} → IsConsole s → IsConsole (clear_screen s)
unfolding clear_screen
clear_screen-IsConsole {s} v = record {
  sized = length-print_at prompt 160 0x03 _ ∙ length-blank_from 1680 160 s.vga ∙ v.sized;
  below_bar = omega arith;
  in_rows = omega arith;
  in_cols = omega arith;
}

pub blink-IsConsole : {s : Console} → IsConsole s → IsConsole (blink s)
unfolding blink
blink-IsConsole {s} v = record {
  sized = length-set s.vga (s.row * 80 + s.col) _ ∙ v.sized;
  below_bar = v.below_bar;
  in_rows = v.in_rows;
  in_cols = v.in_cols;
}

pub length-draw_top_bar :
    {F : Type 0} (st : SysState) (pages ticks : ℕ) (ts : List (Task F)) (vga : List ℕ)
    → length (draw_top_bar st pages ticks ts vga) ≡ length vga
unfolding draw_top_bar draw_divider
length-draw_top_bar st pages ticks ts vga =
    length-fill_row 80 0 0xC4 1 0x08 _
    ∙ length-draw_number (codes "Tasks:") 64 _ 70 [] _
    ∙ length-print_text (0xB3 ∷ []) 0 62 0x17 _
    ∙ length-draw_number (codes "Up:") 45 _ 48 (codes "s") _
    ∙ length-print_text (0xB3 ∷ []) 0 43 0x17 _
    ∙ length-draw_number (codes "Mem:") 21 _ 25 (codes "pg") _
    ∙ length-print_text (0xB3 ∷ []) 0 19 0x17 _
    ∙ length-print_text (state_text st) 0 12 (state_color st) _
    ∙ length-print_text (0xB3 ∷ []) 0 10 0x17 _
    ∙ length-print_text (codes "PrajnaOS") 0 1 0x1F _
    ∙ length-fill_row 80 0 b' ' 0 0x17 vga
