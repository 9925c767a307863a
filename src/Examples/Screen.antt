-- ===== src/Examples/Screen.antt =====
-- The console at the last column of the last row.
use prajna_os.Base.{ℕ, arith, replicate, length-replicate, false}
use prajna_os.Console.{Console, put_char}
use prajna_os.Console.Cursor.{IsConsole, Keeps, put_char-Keeps}

abbrev pub screen : Console
screen = record { vga = replicate 2000 0; row = 24; col = 79; cursor_visible = false }

pub screen-IsConsole : IsConsole screen
screen-IsConsole = record {
  sized = length-replicate {A = ℕ} 2000 0;
  below_bar = omega arith;
  in_rows = omega arith;
  in_cols = omega arith;
}

put_char-Keeps_example : Keeps screen (put_char b'a' 0 screen)
put_char-Keeps_example = put_char-Keeps b'a' 0 screen-IsConsole
