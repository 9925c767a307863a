-- ===== src/Keyboard/Line.antt =====
-- kernel/isr.c, `process_scancode`: the bounds of the input buffer.
use prajna_os.Base.{
  ℕ, ◌-◌, ◌<◌, ◌≡◌, ◌≢◌, refl, arith, Bool, true, false, ◌==◌, Bool-cases, inl, inr, length, get_or,
  get_or-set, length-set, List, [], Option, none, some, take, ◌||◌, not, bit_and,
}
use prajna_os.Keyboard.{
  Keyboard, Call, buf_size, backspace, enter, insert, type_char, key_of, process_scancode,
  lshift_press, rshift_press, lshift_release, rshift_release,
}

-- `input_buf` has its 256 places, the position is a proper index, and what is typed is not NUL.
pub record IsLine (k : Keyboard) : Type 0 where
  pub sized : length k.input_buf ≡ buf_size
  pub inside : k.buf_pos < buf_size
  pub filled : (i : ℕ) → i < k.buf_pos → get_or k.input_buf i 0 ≢ 0

-- The typed text.
abbrev pub typed : Keyboard → List ℕ
typed k = take k.buf_pos k.input_buf

pub backspace-IsLine : {k : Keyboard} → IsLine k → IsLine (backspace k).0
unfolding backspace
backspace-IsLine {k} v = record {
  sized = ground (arith, length-set k.input_buf (k.buf_pos - 1) 0, v.sized);
  inside = ground (arith, v.inside);
  filled = λ i h. ground (arith, get_or-set k.input_buf (k.buf_pos - 1) i 0 0, v.filled i);
}

pub enter-IsLine : {k : Keyboard} → IsLine k → IsLine (enter k).0
unfolding enter
enter-IsLine {k} v = record {
  sized = ground (arith, length-set k.input_buf k.buf_pos 0, v.sized);
  inside = omega arith;
  filled = λ i h. absurd (omega arith);
}

pub insert-IsLine : {k : Keyboard} (c : ℕ) → c ≢ 0 → IsLine k → IsLine (insert k c).0
unfolding insert
insert-IsLine {k} c nz v = record {
  sized = ground (arith, length-set k.input_buf k.buf_pos c, v.sized);
  inside = ground (arith, v.inside);
  filled = λ i h. ground (arith, get_or-set k.input_buf k.buf_pos i c 0, v.filled i, v.sized);
}

pub type_char-IsLine : {k : Keyboard} (c : ℕ) → c ≢ 0 → IsLine k → IsLine (type_char k c).0
unfolding type_char
type_char-IsLine {k} c nz v = elim (Bool-cases (c == 8)) [
  | inl b ↦ rw b (backspace-IsLine v)
  | inr nb ↦ elim (Bool-cases (c == 10)) [
    | inl e ↦ rw (nb, e) (enter-IsLine v)
    | inr ne ↦ rw (nb, ne) (insert-IsLine c nz v)
  ]
]

pub key_of-ne-zero : (shift : Bool) (scancode c : ℕ) → key_of shift scancode ≡ some c → c ≢ 0
unfolding key_of
key_of-ne-zero shift scancode c e = ground arith

shift-IsLine : {k : Keyboard} (b : Bool) → IsLine k → IsLine (record k { shift_held = b })
shift-IsLine b v = record { sized = v.sized; inside = v.inside; filled = v.filled }

key-IsLine :
    {k : Keyboard}
    → IsLine k
    → (o : Option ℕ) → ((c : ℕ) → o ≡ some c → c ≢ 0)
    → IsLine
        (let r : Keyboard × List Call = elim o [ none ↦ (k, []) | some c ↦ type_char k c ] in r.0)
key-IsLine v none h = v
key-IsLine v (some c) h = type_char-IsLine c (h c refl) v

-- If the input buffer has 256 places, the position is below 256 and the characters before it are
-- not NUL, then this holds after `process_scancode` of any scancode.
pub process_scancode-IsLine :
    {k : Keyboard} (scancode : ℕ) → IsLine k → IsLine (process_scancode k scancode).0
unfolding process_scancode
process_scancode-IsLine {k} s v = elim (Bool-cases ((s == lshift_press) || (s == rshift_press))) [
  | inl press ↦ rw press (shift-IsLine true v)
  | inr np ↦ elim (Bool-cases ((s == lshift_release) || (s == rshift_release))) [
    | inl release ↦ rw (np, release) (shift-IsLine false v)
    | inr nr ↦ elim (Bool-cases (not (bit_and s 0x80 == 0))) [
      | inl up ↦ rw (np, nr, up) v
      | inr down ↦
          rw (np, nr, down) (key-IsLine v (key_of k.shift_held s) (key_of-ne-zero k.shift_held s))
    ]
  ]
]
