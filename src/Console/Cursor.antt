-- ===== src/Console/Cursor.antt =====
-- kernel/isr.c: where the cursor can be, and which cells the console leaves alone.
use prajna_os.Base.{
  ℕ, zero, suc, ◌+◌, ◌-◌, ◌*◌, ◌%◌, ◌≤◌, ◌<◌, ◌≡◌, refl, arith, ◌∙◌, List, Bool, true, false, ◌&&◌,
  ◌==◌, ltb, leb, if◌then◌else◌, get_or, set, length, length-set, get_or-set_ne, Bool-cases, inl,
  inr,
}
use prajna_os.Console.{
  Console, cell, blank, copy_up, blank_from, scroll, tab_fill, new_line, erase, put_plain, put_char,
}

-- The screen has its 25 rows, and the cursor is below the status bar; column 80 is the one behind a row.
pub record IsConsole (s : Console) : Type 0 where
  pub sized : length s.vga ≡ 2000
  pub below_bar : 2 ≤ s.row
  pub in_rows : s.row ≤ 24
  pub in_cols : s.col ≤ 80

-- The two rows of the status bar are the same.
abbrev pub SameBar : Console → Console → Type 0
SameBar s s' = (k : ℕ) → k < 160 → get_or s'.vga k 0 ≡ get_or s.vga k 0

-- A step that keeps the cursor in range and the status bar.
pub record Keeps (s s' : Console) : Type 0 where
  pub console : IsConsole s'
  pub bar : SameBar s s'

length-copy_up : (left k : ℕ) (vga : List ℕ) → length (copy_up left k vga) ≡ length vga
unfolding copy_up
length-copy_up zero k vga = refl
length-copy_up (suc left) k vga = length-copy_up left (k + 1) _ ∙ length-set vga (k - 80) _

pub length-blank_from : (left k : ℕ) (vga : List ℕ) → length (blank_from left k vga) ≡ length vga
unfolding blank_from
length-blank_from zero k vga = refl
length-blank_from (suc left) k vga = length-blank_from left (k + 1) _ ∙ length-set vga k _

copy_up_below :
    (left k j : ℕ) (vga : List ℕ) → j + 80 < k → get_or (copy_up left k vga) j 0 ≡ get_or vga j 0
unfolding copy_up
copy_up_below zero k j vga h = refl
copy_up_below (suc left) k j vga h =
    copy_up_below left (k + 1) j _ (omega arith) ∙ get_or-set_ne vga (k - 80) j _ 0 (omega arith)

blank_from_below :
    (left k j : ℕ) (vga : List ℕ) → j < k → get_or (blank_from left k vga) j 0 ≡ get_or vga j 0
unfolding blank_from
blank_from_below zero k j vga h = refl
blank_from_below (suc left) k j vga h =
    blank_from_below left (k + 1) j _ (omega arith) ∙ get_or-set_ne vga k j _ 0 (omega arith)

scroll-Keeps : (s : Console) → length s.vga ≡ 2000 → s.col ≤ 80 → Keeps s (scroll s)
unfolding scroll
scroll-Keeps s size col = record {
  console = record {
    sized = length-blank_from 80 1760 _ ∙ length-copy_up 1120 720 s.vga ∙ size;
    below_bar = omega arith;
    in_rows = omega arith;
    in_cols = col;
  };
  bar = λ k h.
      blank_from_below 80 1760 k _ (omega arith) ∙ copy_up_below 1120 720 k s.vga (omega arith);
}

-- A write at the cursor, which then moves.
moved :
    (s : Console) (at v row col : ℕ)
    → length s.vga ≡ 2000
    → 160 ≤ at
    → 2 ≤ row
    → row ≤ 24
    → col ≤ 80
    → Keeps s (record s { vga = set s.vga at v; row = row; col = col })
moved s at v row col size lo r2 r24 c80 = record {
  console = record {
    sized = length-set s.vga at v ∙ size;
    below_bar = r2;
    in_rows = r24;
    in_cols = c80;
  };
  bar = λ k h. get_or-set_ne s.vga at k v 0 (omega arith);
}

Keeps-refl : {s : Console} → IsConsole s → Keeps s s
Keeps-refl ok = record { console = ok; bar = λ k h. refl }

Keeps-trans : {s t u : Console} → Keeps s t → Keeps t u → Keeps s u
Keeps-trans a b = record { console = b.console; bar = λ k h. b.bar k h ∙ a.bar k h }

-- A step that may have left the last row, so that a scroll can be due.
record Near (s t : Console) : Type 0 where
  sized : length t.vga ≡ 2000
  below_bar : 2 ≤ t.row
  cols : t.col ≤ 80
  same : SameBar s t

by_test :
    (P : Console → Type 0) (b : Bool) (t u : Console)
    → (b ≡ true → P t)
    → (b ≡ false → P u)
    → P (if b then t else u)
by_test P true t u h k = h refl
by_test P false t u h k = k refl

scroll_after : {s t : Console} → Near s t → Keeps s (scroll t)
scroll_after {s} {t} n =
    let k = scroll-Keeps t n.sized n.cols in
    record { console = k.console; bar = λ j h. k.bar j h ∙ n.same j h }

stay_after : {s t : Console} → Near s t → t.row ≤ 24 → Keeps s t
stay_after n rows = record {
  console = record { sized = n.sized; below_bar = n.below_bar; in_rows = rows; in_cols = n.cols };
  bar = n.same;
}

scroll_at :
    {s : Console} (limit : ℕ) (t : Console)
    → limit ≤ 25
    → Near s t
    → Keeps s (if leb limit t.row then scroll t else t)
scroll_at {s} limit t l n =
    by_test (Keeps s) (leb limit t.row) (scroll t) t (λ e. scroll_after n)
      (λ e. stay_after n (ground arith))

new_line-Keeps : {s : Console} → IsConsole s → Keeps s (new_line s)
unfolding new_line
new_line-Keeps {s} ok =
    scroll_at 23 (record s { row = s.row + 1; col = 0 }) (omega arith)
      (record {
        sized = ok.sized;
        below_bar = omega (arith, ok.below_bar);
        cols = omega arith;
        same = λ k h. refl;
      })

erase-Keeps : {s : Console} → IsConsole s → Keeps s (erase s)
unfolding erase
erase-Keeps {s} ok = elim (Bool-cases (ltb 0 s.col)) [
  | inl some_left ↦ rw some_left (
      moved s (s.row * 80 + (s.col - 1)) blank s.row (s.col - 1) ok.sized
        (omega (arith, ok.below_bar)) ok.below_bar ok.in_rows (omega (arith, ok.in_cols)))
  | inr at_start ↦ rw at_start (Keeps-refl ok)
]

tab_fill-Keeps :
    (fuel next color : ℕ) {s : Console} → IsConsole s → Keeps s (tab_fill fuel next color s)
unfolding tab_fill
tab_fill-Keeps zero next color ok = Keeps-refl ok
tab_fill-Keeps (suc fuel) next color {s} ok = elim (Bool-cases (ltb s.col next && ltb s.col 80)) [
  | inl more ↦
      let step =
        moved s (s.row * 80 + s.col) (cell color b' ') s.row (s.col + 1) ok.sized
          (omega (arith, ok.below_bar)) ok.below_bar ok.in_rows (ground arith) in
      rw more (Keeps-trans step (tab_fill-Keeps fuel next color step.console))
  | inr done ↦ rw done (Keeps-refl ok)
]

put_plain-Keeps : (c color : ℕ) {s : Console} → IsConsole s → Keeps s (put_plain c color s)
unfolding put_plain
put_plain-Keeps c color {s} ok =
    let at = s.row * 80 + s.col in
    let here : 160 ≤ at = omega (arith, ok.below_bar) in
    let t : Console = record s { vga = set s.vga at (cell color c); col = s.col + 1 } in
    let u : Console = record t { col = 0; row = s.row + 1 } in
    let bar : SameBar s t = λ j h. get_or-set_ne s.vga at j (cell color c) 0 (omega arith) in
    let size = length-set s.vga at (cell color c) ∙ ok.sized in
    scroll_at 25 (if leb 80 (s.col + 1) then u else t) (omega arith) (
      by_test (Near s) (leb 80 (s.col + 1)) u t
        (λ e. record {
          sized = size;
          below_bar = omega (arith, ok.below_bar);
          cols = omega arith;
          same = bar;
        })
        (λ e. record { sized = size; below_bar = ok.below_bar; cols = ground arith; same = bar }))

-- On a screen of 2000 cells with the cursor in rows 2 to 24 and columns 0 to 80, `put_char` of any
-- character in any colour keeps the cursor there, and leaves the two rows of the status bar as they
-- are.
pub put_char-Keeps : (c color : ℕ) {s : Console} → IsConsole s → Keeps s (put_char c color s)
unfolding put_char
put_char-Keeps c color {s} ok =
    let colour = if color == 0 then 0x07 else color in
    let tab = s.col + 4 - (s.col + 4) % 4 in
    by_test (Keeps s) (c == 10) (new_line s) _ (λ e. new_line-Keeps ok)
      (λ e.
        by_test (Keeps s) (c == 9) (tab_fill 4 tab colour s) _ (λ e. tab_fill-Keeps 4 tab colour ok)
          (λ e.
            by_test (Keeps s) (c == 8) (erase s) _ (λ e. erase-Keeps ok)
              (λ e. put_plain-Keeps c colour ok)))
