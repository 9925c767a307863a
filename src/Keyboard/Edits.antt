-- ===== src/Keyboard/Edits.antt =====
-- kernel/isr.c: the line editor against a list of characters, what is typed, erased and sent.
use mathlib.Core.List.{append_assoc, append-nil}
use mathlib.Core.Path.{subst}
use prajna_os.Base.{
  sym, ℕ, suc, ◌+◌, ◌-◌, ◌%◌, ◌^◌, ◌≤◌, ◌<◌, ◌≡◌, ◌≢◌, refl, arith, true, false, ◌==◌,
  if◌then◌else◌, ◌∙◌, Bool-cases, inl, inr, ltb, length, set, List, [], ◌∷◌, ◌++◌, take, ◌||◌, not,
  bit_and, take-set_end, take-set_past, take-take, c_string, c_string-set, passes, passes_at,
}
use prajna_os.Keyboard.{
  Keyboard, put_char, shell_handle, backspace, enter, insert, type_char, process_scancode,
}
use prajna_os.Keyboard.Line.{IsLine, typed, insert-IsLine}

-- An ordinary character is appended and echoed while fewer than 255 are typed, and ignored after.
pub typed-insert :
    {k : Keyboard} (c : ℕ)
    → IsLine k
    → (typed (insert k c).0 ≡ (if ltb k.buf_pos 255 then typed k ++ (c ∷ []) else typed k))
      × ((insert k c).1 ≡ (if ltb k.buf_pos 255 then put_char c 0x07 ∷ [] else []))
unfolding insert
typed-insert {k} c v = elim (Bool-cases (ltb k.buf_pos 255)) [
  | inl room ↦
      let e : (k.buf_pos + 1) % 2 ^ 8 ≡ suc k.buf_pos = ground arith in
      (
        rw (room, e) (take-set_end k.input_buf k.buf_pos c (omega (arith, v.sized, v.inside))),
        rw room,
      )
  | inr full ↦ (rw full, rw full)
]

-- Backspace removes the last character and erases it on the screen; on an empty line it does
-- nothing.
pub typed-backspace :
    {k : Keyboard}
    → IsLine k
    → (typed (backspace k).0 ≡ take (k.buf_pos - 1) (typed k))
      × ((backspace k).1 ≡ (if ltb 0 k.buf_pos then put_char 8 0x07 ∷ [] else []))
unfolding backspace
typed-backspace {k} v = elim (Bool-cases (ltb 0 k.buf_pos)) [
  | inl some_typed ↦ (
    rw (some_typed, take-take (k.buf_pos - 1) k.buf_pos k.input_buf (omega arith))
        (take-set_past k.input_buf (k.buf_pos - 1) (k.buf_pos - 1) 0 (omega arith)),
    rw some_typed,
  )
  | inr empty ↦ let e : k.buf_pos ≡ 0 = ground arith in (rw empty (rw e), rw empty)
]

-- Enter ends the line on the screen, hands the shell exactly the typed text as a C string, and
-- starts an empty line.
pub typed-enter :
    {k : Keyboard}
    → IsLine k
    → (typed (enter k).0 ≡ [])
      × ((line : List ℕ) × ((enter k).1 ≡ put_char 10 0x07 ∷ shell_handle line ∷ [])
          × (c_string line ≡ typed k))
unfolding enter
typed-enter {k} v = (
  refl,
  (
    set k.input_buf k.buf_pos 0,
    refl,
    c_string-set k.input_buf k.buf_pos (omega (arith, v.sized, v.inside)) v.filled,
  ),
)

-- The keyboard after a text is typed character by character.
abbrev pub type_text : Keyboard → List ℕ → Keyboard
type_text k [] = k
type_text k (c ∷ cs) = type_text (type_char k c).0 cs

-- Characters that the editor stores.
abbrev pub IsText : List ℕ → Type 0
IsText [] = Unit {0}
IsText (c ∷ cs) = (c ≢ 0) × (c ≢ 8) × (c ≢ 10) × IsText cs

type_char-insert : (k : Keyboard) (c : ℕ) → c ≢ 8 → c ≢ 10 → type_char k c ≡ insert k c
unfolding type_char
type_char-insert k c n8 n10 =
    let e8 : (c == 8) ≡ false = ground arith in
    let e10 : (c == 10) ≡ false = ground arith in rw (e8, e10)

buf_pos-insert : (k : Keyboard) (c : ℕ) → k.buf_pos < 255 → (insert k c).0.buf_pos ≡ k.buf_pos + 1
unfolding insert
buf_pos-insert k c h = ground arith

typed-type_text :
    (s : List ℕ) {k : Keyboard}
    → IsLine k
    → IsText s
    → k.buf_pos + length s ≤ 255
    → IsLine (type_text k s) × (typed (type_text k s) ≡ typed k ++ s)
typed-type_text [] {k} v t h = (v, rw append-nil)
typed-type_text (c ∷ cs) {k} v (nz, n8, n10, t) h =
    let room : ltb k.buf_pos 255 ≡ true = ground arith in
    let at_end = buf_pos-insert k c (omega arith) in
    let (line, text) = typed-type_text cs (insert-IsLine c nz v) t (omega (arith, at_end)) in
    let joined : typed (type_text (insert k c).0 cs) ≡ typed k ++ c ∷ cs =
      text ∙ rw ((typed-insert c v).0, room) (append_assoc (typed k) (c ∷ []) cs) in
    let same = sym (type_char-insert k c n8 n10) in
    (
      subst (λ r. IsLine (type_text r.0 cs)) same line,
      subst (λ r. typed (type_text r.0 cs) ≡ typed k ++ c ∷ cs) same joined,
    )

-- On an input buffer of 256 places with nothing typed, a text of at most 255 characters without
-- NUL, backspace and newline that is typed and sent with Enter reaches `shell_handle` as one C
-- string, unchanged.
pub enter-type_text :
    (s : List ℕ) {k : Keyboard}
    → IsLine k
    → k.buf_pos ≡ 0
    → IsText s
    → length s ≤ 255
    → (line : List ℕ) × ((type_char (type_text k s) 10).1
        ≡ put_char 10 0x07 ∷ shell_handle line ∷ [])
      × (c_string line ≡ s)
unfolding type_char
enter-type_text s {k} v e t h =
    let (line_ok, text) = typed-type_text s v t (omega arith) in
    let (line, calls, sent) = (typed-enter line_ok).1 in (line, calls, sent ∙ text ∙ rw e)

high_bit_table : passes (λ s. ltb s 128 || not (bit_and s 0x80 == 0)) 256 ≡ true
unfolding passes
high_bit_table = refl

-- A key release (a scancode from 0x80 to 0xFF) other than Shift's changes nothing and calls
-- nothing.
pub process_scancode_release :
    (k : Keyboard) (s : ℕ)
    → 0x80 ≤ s
    → s < 0x100
    → s ≢ 0xAA
    → s ≢ 0xB6
    → process_scancode k s ≡ (k, [])
unfolding process_scancode
process_scancode_release k s lo hi nl nr = ground (arith, passes_at _ 256 hi high_bit_table)
