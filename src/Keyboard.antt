-- ===== src/Keyboard.antt =====
-- kernel/isr.c, the keyboard: the circular buffer of scancodes that the interrupt fills and the timer
-- drains, the key maps, and the line editor `process_scancode`.
pub mod Queue
pub mod Line
pub mod Edits
use prajna_os.Base.{
  ℕ, suc, ◌+◌, ◌-◌, ◌%◌, List, [], ◌∷◌, Option, none, some, Bool, true, false, ◌&&◌, ◌||◌, not,
  ◌==◌, ltb, if◌then◌else◌, get_or, set, length, u8, bit_and,
}

abbrev pub scancode_buffer_size : ℕ
scancode_buffer_size = 16

-- `scancode_buffer`, `scancode_head` (next write) and `scancode_tail` (next read).
pub record ScancodeRing : Type 0 where
  pub buffer : List ℕ
  pub head : ℕ
  pub tail : ℕ

pub scancode_push : ScancodeRing → ℕ → ScancodeRing
scancode_push r scancode =
    let next_head = u8 ((r.head + 1) % scancode_buffer_size) in
    if next_head == r.tail
    then r
    else record r { buffer = set r.buffer r.head scancode; head = next_head }

-- The option is the value that goes through `out`; `none` is the result 0.
pub scancode_pop : ScancodeRing → Option ℕ × ScancodeRing
scancode_pop r = if r.head == r.tail then (none, r) else (
  some (get_or r.buffer r.tail 0),
  record r { tail = u8 ((r.tail + 1) % scancode_buffer_size) },
)

abbrev pub buf_size : ℕ
buf_size = 256

abbrev pub lshift_press : ℕ
lshift_press = 0x2A

abbrev pub rshift_press : ℕ
rshift_press = 0x36

abbrev pub lshift_release : ℕ
lshift_release = 0xAA

abbrev pub rshift_release : ℕ
rshift_release = 0xB6

pub keys_normal : List ℕ
keys_normal =
    0 ∷ 0 ∷ b'1' ∷ b'2' ∷ b'3' ∷ b'4' ∷ b'5' ∷ b'6' ∷ b'7' ∷ b'8' ∷ b'9' ∷ b'0' ∷ b'-' ∷ b'=' ∷ 8
    ∷ 9 ∷ b'q' ∷ b'w' ∷ b'e' ∷ b'r' ∷ b't' ∷ b'y' ∷ b'u' ∷ b'i' ∷ b'o' ∷ b'p' ∷ b'[' ∷ b']' ∷ 10 ∷ 0
    ∷ b'a' ∷ b's' ∷ b'd' ∷ b'f' ∷ b'g' ∷ b'h' ∷ b'j' ∷ b'k' ∷ b'l' ∷ b';' ∷ 39 ∷ b'`' ∷ 0 ∷ 92
    ∷ b'z' ∷ b'x' ∷ b'c' ∷ b'v' ∷ b'b' ∷ b'n' ∷ b'm' ∷ b',' ∷ b'.' ∷ b'/' ∷ 0 ∷ 0 ∷ 0 ∷ 32 ∷ []

pub keys_shift : List ℕ
keys_shift =
    0 ∷ 0 ∷ b'!' ∷ b'@' ∷ b'#' ∷ b'$' ∷ b'%' ∷ b'^' ∷ b'&' ∷ b'*' ∷ b'(' ∷ b')' ∷ b'_' ∷ b'+' ∷ 8
    ∷ 9 ∷ b'Q' ∷ b'W' ∷ b'E' ∷ b'R' ∷ b'T' ∷ b'Y' ∷ b'U' ∷ b'I' ∷ b'O' ∷ b'P' ∷ b'{' ∷ b'}' ∷ 10 ∷ 0
    ∷ b'A' ∷ b'S' ∷ b'D' ∷ b'F' ∷ b'G' ∷ b'H' ∷ b'J' ∷ b'K' ∷ b'L' ∷ b':' ∷ b'"' ∷ b'~' ∷ 0 ∷ b'|'
    ∷ b'Z' ∷ b'X' ∷ b'C' ∷ b'V' ∷ b'B' ∷ b'N' ∷ b'M' ∷ b'<' ∷ b'>' ∷ b'?' ∷ 0 ∷ 0 ∷ 0 ∷ 32 ∷ []

-- `input_buf`, `buf_pos` and `shift_held`.
pub record Keyboard : Type 0 where
  pub input_buf : List ℕ
  pub buf_pos : ℕ
  pub shift_held : Bool

-- The calls that `process_scancode` makes, in order. `shell_handle` is given the buffer as it
-- stands at the call.
pub data Call : Type 0 where
  put_char : ℕ → ℕ → Call
  shell_handle : List ℕ → Call

-- `keys[scancode]` where the index is in the table and the entry is not 0.
pub key_of : Bool → ℕ → Option ℕ
key_of shift scancode =
    let keys = if shift then keys_shift else keys_normal in
    if ltb scancode (length keys) && not (get_or keys scancode 0 == 0)
    then some (get_or keys scancode 0)
    else none

-- The character `\b`.
pub backspace : Keyboard → Keyboard × List Call
backspace k =
    if ltb 0 k.buf_pos
    then (
      record k { buf_pos = k.buf_pos - 1; input_buf = set k.input_buf (k.buf_pos - 1) 0 },
      put_char 8 0x07 ∷ [],
    )
    else (k, [])

-- The character `\n`.
pub enter : Keyboard → Keyboard × List Call
enter k =
    let line = set k.input_buf k.buf_pos 0 in
    (record k { input_buf = line; buf_pos = 0 }, put_char 10 0x07 ∷ shell_handle line ∷ [])

-- Any other character.
pub insert : Keyboard → ℕ → Keyboard × List Call
insert k c =
    if ltb k.buf_pos (buf_size - 1)
    then (
      record k { input_buf = set k.input_buf k.buf_pos c; buf_pos = u8 (k.buf_pos + 1) },
      put_char c 0x07 ∷ [],
    )
    else (k, [])

pub type_char : Keyboard → ℕ → Keyboard × List Call
type_char k c = if c == 8 then backspace k else if c == 10 then enter k else insert k c

pub process_scancode : Keyboard → ℕ → Keyboard × List Call
process_scancode k scancode =
    if (scancode == lshift_press) || (scancode == rshift_press)
    then (record k { shift_held = true }, [])
    else if (scancode == lshift_release) || (scancode == rshift_release)
    then (record k { shift_held = false }, [])
    else if not (bit_and scancode 0x80 == 0)
    then (k, [])
    else elim (key_of k.shift_held scancode) [ none ↦ (k, []) | some c ↦ type_char k c ]
