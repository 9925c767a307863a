-- ===== src/Timer/Bar.antt =====
-- kernel/pit.c: `print` at a place of the screen, and the status bar of `draw_top_bar`. A cell is the
-- 16-bit word of its two bytes.
use prajna_os.Base.{
  ℕ, zero, suc, ◌+◌, ◌*◌, ◌/◌, List, [], ◌∷◌, ◌==◌, not, if◌then◌else◌, set, replicate, codes,
}
use prajna_os.Console.{cell}
use prajna_os.Klib.{uint_to_str, kstrlen}
use prajna_os.Task.{Task, is_dead}
use prajna_os.Ai.{SysState, calm, normal, alert}

-- `print` from a row and a column on: a newline and a tab move without writing.
unfoldable pub print_text : List ℕ → ℕ → ℕ → ℕ → List ℕ → List ℕ
print_text [] row col color vga = vga
print_text (c ∷ msg) row col color vga =
    let below = print_text msg (row + 1) 0 color vga in
    let right = print_text msg row (col + 4) color vga in
    let next = print_text msg row (col + 1) color (set vga (row * 80 + col) (cell color c)) in
    if c == 0 then vga else if c == 10 then below else if c == 9 then right else next

-- `for (i = ...; i < 80; i++) print(one character, row, i, color);`
unfoldable pub fill_row : ℕ → ℕ → ℕ → ℕ → ℕ → List ℕ → List ℕ
unfolding print_text
fill_row zero i c row color vga = vga
fill_row (suc left) i c row color vga =
    fill_row left (i + 1) c row color (print_text (c ∷ []) row i color vga)

unfoldable pub draw_divider : ℕ → ℕ → List ℕ → List ℕ
unfolding fill_row
draw_divider row color vga = fill_row 80 0 0xC4 row color vga

abbrev pub state_text : SysState → List ℕ
state_text calm = codes "CALM  "
state_text normal = codes "NORMAL"
state_text alert = codes "ALERT "

abbrev pub state_color : SysState → ℕ
state_color calm = 0x1A
state_color normal = 0x1E
state_color alert = 0x1C

unfoldable pub living : {F : Type 0} → List (Task F) → ℕ
living [] = 0
living (t ∷ ts) = if not (is_dead t.state) then living ts + 1 else living ts

-- A number between a label and its unit, which stands behind the number's last digit.
unfoldable pub draw_number : List ℕ → ℕ → List ℕ → ℕ → List ℕ → List ℕ → List ℕ
draw_number label at number number_at unit vga =
    print_text unit 0 (number_at + kstrlen number) 0x17
      (print_text number 0 number_at 0x1F (print_text label 0 at 0x17 vga))

unfoldable pub draw_top_bar : {F : Type 0} → SysState → ℕ → ℕ → List (Task F) → List ℕ → List ℕ
draw_top_bar st pages ticks tasks vga =
    let buf = replicate 16 0 in
    let v1 = print_text (codes "PrajnaOS") 0 1 0x1F (fill_row 80 0 b' ' 0 0x17 vga) in
    let v2 =
      print_text (state_text st) 0 12 (state_color st) (print_text (0xB3 ∷ []) 0 10 0x17 v1) in
    let v3 =
      draw_number (codes "Mem:") 21 (uint_to_str pages buf) 25 (codes "pg")
        (print_text (0xB3 ∷ []) 0 19 0x17 v2) in
    let v4 =
      draw_number (codes "Up:") 45 (uint_to_str (ticks / 100) buf) 48 (codes "s")
        (print_text (0xB3 ∷ []) 0 43 0x17 v3) in
    let v5 =
      draw_number (codes "Tasks:") 64 (uint_to_str (living tasks) buf) 70 []
        (print_text (0xB3 ∷ []) 0 62 0x17 v4) in
    draw_divider 1 0x08 v5
