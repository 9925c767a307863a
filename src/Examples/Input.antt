-- ===== src/Examples/Input.antt =====
-- The scancode buffer and the line editor with a few keys.
use prajna_os.Base.{ℕ, ◌≡◌, refl, arith, List, [], ◌∷◌, false, replicate, c_string}
use prajna_os.Keyboard.{Keyboard, ScancodeRing, process_scancode, put_char, shell_handle, type_char}
use prajna_os.Keyboard.Queue.{
  IsRing, contents, arrive, drain, Access, deliveries, queue_deliveries, deliveries_refine,
}
use prajna_os.Keyboard.Line.{IsLine, process_scancode-IsLine}
use prajna_os.Keyboard.Edits.{type_text, enter-type_text}

-- The buffer about to go round its end.
abbrev pub ring : ScancodeRing
ring = record { buffer = replicate 16 0; head = 15; tail = 15 }

pub ring-IsRing : IsRing ring
ring-IsRing = record { sized = refl; head_in = omega arith; tail_in = omega arith }

abbrev accesses : List Access
accesses = arrive 0x1E ∷ arrive 0x9E ∷ drain ∷ drain ∷ drain ∷ []

deliveries_refine_example : deliveries ring accesses ≡ queue_deliveries (contents ring) accesses
deliveries_refine_example = deliveries_refine accesses ring-IsRing

abbrev pub keyboard : Keyboard
keyboard = record { input_buf = replicate 256 0; buf_pos = 0; shift_held = false }

pub keyboard-IsLine : IsLine keyboard
keyboard-IsLine = record {
  sized = refl;
  inside = omega arith;
  filled = λ i h. absurd (omega arith);
}

process_scancode-IsLine_example : IsLine (process_scancode keyboard 0x1E).0
process_scancode-IsLine_example = process_scancode-IsLine 0x1E keyboard-IsLine

-- The word `ls`.
abbrev word : List ℕ
word = b'l' ∷ b's' ∷ []

enter-type_text_example :
    (line : List ℕ) × ((type_char (type_text keyboard word) 10).1
      ≡ put_char 10 0x07 ∷ shell_handle line ∷ [])
    × (c_string line ≡ word)
enter-type_text_example =
    enter-type_text word keyboard-IsLine refl
      (omega arith, omega arith, omega arith, (omega arith, omega arith, omega arith, tt))
      (omega arith)
