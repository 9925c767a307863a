-- ===== src/Console.antt =====
-- kernel/isr.c, the console: the cells of the text screen, the cursor, `put_char`, `scroll`,
-- `clear_screen` and `blink`. A cell is the 16-bit word of the colour and the character.
pub mod Cursor
use prajna_os.Base.{
  ℕ, zero, suc, ◌+◌, ◌-◌, ◌*◌, ◌%◌, ◌^◌, List, [], ◌∷◌, Bool, true, false, not, ◌&&◌, ◌==◌, ltb,
  leb, if◌then◌else◌, get_or, set, u8, u16,
}

-- `vga`, `row`, `col` and `cursor_visible`.
pub record Console : Type 0 where
  pub vga : List ℕ
  pub row : ℕ
  pub col : ℕ
  pub cursor_visible : Bool

-- `(color << 8) | (uint8_t)c`, stored as a `uint16_t`.
abbrev pub cell : ℕ → ℕ → ℕ
cell color c = u16 (color * 2 ^ 8 + u8 c)

abbrev pub blank : ℕ
blank = cell 0x07 b' '

-- `vga[row * 80 + col] = v;`
abbrev pub write_here : ℕ → Console → Console
write_here v s = record s { vga = set s.vga (s.row * 80 + s.col) v }

-- The copying loops of `scroll` as one over the cells, from cell `k` on, in their order.
unfoldable pub copy_up : ℕ → ℕ → List ℕ → List ℕ
copy_up zero k vga = vga
copy_up (suc left) k vga = copy_up left (k + 1) (set vga (k - 80) (get_or vga k 0))

-- The clearing loops, from cell `k` on.
unfoldable pub blank_from : ℕ → ℕ → List ℕ → List ℕ
blank_from zero k vga = vga
blank_from (suc left) k vga = blank_from left (k + 1) (set vga k blank)

-- Rows 9 to 22 move up, and row 22 is cleared.
unfoldable pub scroll : Console → Console
unfolding copy_up blank_from
scroll s = record s { vga = blank_from 80 (22 * 80) (copy_up (14 * 80) (9 * 80) s.vga); row = 22 }

-- `print` at a cell: one cell per character up to the NUL.
unfoldable pub print_at : ℕ → ℕ → List ℕ → List ℕ → List ℕ
print_at k color [] vga = vga
print_at k color (c ∷ msg) vga = print_at (k + 1) color msg (set vga k (cell color c))

-- The prompt of `clear_screen`.
abbrev pub prompt : List ℕ
prompt = b'P' ∷ b'r' ∷ b'a' ∷ b'j' ∷ b'n' ∷ b'a' ∷ b'O' ∷ b'S' ∷ b'>' ∷ []

unfoldable pub clear_screen : Console → Console
unfolding blank_from print_at
clear_screen s = record s {
  vga = print_at (2 * 80) 0x03 prompt (blank_from (21 * 80) (2 * 80) s.vga);
  col = 9;
  row = 2;
}

unfoldable pub blink : Console → Console
blink s = record (write_here (if s.cursor_visible then cell 0x02 b'_' else blank) s) {
  cursor_visible = not s.cursor_visible;
}

-- `while (col < next && col < 80)`: at most four rounds, since `next` is at most four columns ahead.
unfoldable pub tab_fill : ℕ → ℕ → ℕ → Console → Console
tab_fill zero next color s = s
tab_fill (suc fuel) next color s =
    let rest =
      tab_fill fuel next color (record (write_here (cell color b' ') s) { col = s.col + 1 }) in
    if ltb s.col next && ltb s.col 80 then rest else s

unfoldable pub new_line : Console → Console
unfolding scroll
new_line s =
    let s' = record s { row = s.row + 1; col = 0 } in if leb 23 s'.row then scroll s' else s'

unfoldable pub erase : Console → Console
erase s = if ltb 0 s.col then write_here blank (record s { col = s.col - 1 }) else s

unfoldable pub put_plain : ℕ → ℕ → Console → Console
unfolding scroll
put_plain c color s =
    let s1 = record (write_here (cell color c) s) { col = s.col + 1 } in
    let s2 = if leb 80 s1.col then record s1 { col = 0; row = s1.row + 1 } else s1 in
    if leb 25 s2.row then scroll s2 else s2

-- `(col + 4) & ~3` rounds down to a multiple of 4.
unfoldable pub put_char : ℕ → ℕ → Console → Console
unfolding new_line tab_fill erase put_plain
put_char c color s =
    let colour = if color == 0 then 0x07 else color in
    if c == 10
    then new_line s
    else if c == 9
    then tab_fill 4 (s.col + 4 - (s.col + 4) % 4) colour s
    else if c == 8
    then erase s
    else put_plain c colour s
