-- ===== src/Klib.antt =====
-- kernel/klib.c: decimal printing, strings and memory. A buffer is a list of bytes; `dst` and `src`
-- are different buffers, a write past the end does nothing and a read there gives NUL.
pub mod Decimal
pub mod Strings
pub mod Clock
pub mod Memory
use prajna_os.Base.{
  ℕ, zero, suc, ◌+◌, ◌-◌, ◌*◌, ◌/◌, ◌%◌, ◌^◌, List, [], ◌∷◌, Option, none, some, Bool, true, false,
  not, ◌&&◌, ◌||◌, ◌==◌, ltb, if◌then◌else◌, get_or, set, length, u32, sub32,
}

-- A buffer and the index `i`.
pub record Cursor : Type 0 where
  pub buf : List ℕ
  pub i : ℕ

-- `while (tmp > 0) { buf[i++] = '0' + (tmp % 10); tmp /= 10; }`; the value falls to 0 within
-- `tmp` rounds, so `tmp` itself is fuel enough.
unfoldable pub put_digits : ℕ → ℕ → Cursor → Cursor
put_digits zero tmp c = c
put_digits (suc fuel) tmp c =
    let rest =
      put_digits fuel (tmp / 10) (record { buf = set c.buf c.i (b'0' + tmp % 10); i = c.i + 1 }) in
    if tmp == 0 then c else rest

-- `while (start < end) { swap; start++; end--; }`; `end` may fall below 0 only when the loop stops.
unfoldable pub swap_ends : ℕ → ℕ → ℕ → List ℕ → List ℕ
swap_ends zero start end buf = buf
swap_ends (suc fuel) start end buf =
    let sw = get_or buf start 0 in
    let buf' = set (set buf start (get_or buf end 0)) end sw in
    let rest = swap_ends fuel (start + 1) (end - 1) buf' in if ltb start end then rest else buf

unfoldable pub uint_to_str : ℕ → List ℕ → List ℕ
unfolding put_digits swap_ends
uint_to_str n buf =
    if n == 0
    then set (set buf 0 b'0') 1 0
    else let c = put_digits n n (record { buf = buf; i = 0 }) in
      set (swap_ends c.i 0 (c.i - 1) c.buf) c.i 0

-- `n` is the bit pattern of an `int32_t`; `-n` wraps at the smallest one.
unfoldable pub int_to_str : ℕ → List ℕ → List ℕ
unfolding uint_to_str
int_to_str n [] = []
int_to_str n (c ∷ buf) =
    if ltb n (2 ^ 31) then uint_to_str n (c ∷ buf) else b'-' ∷ uint_to_str (sub32 0 n) buf

-- `kstrcmp(a, b)`: 0 is `true` here. Only a prefix of `a` is compared: it must end in a NUL or a blank.
unfoldable pub kstrcmp_eq : List ℕ → List ℕ → Bool
kstrcmp_eq a [] = (get_or a 0 0 == b' ') || (get_or a 0 0 == 0)
kstrcmp_eq [] (y ∷ b) = y == 0
kstrcmp_eq (x ∷ a) (y ∷ b) =
    if y == 0 then (x == b' ') || (x == 0) else if not (x == y) then false else kstrcmp_eq a b

unfoldable pub kstrlen : List ℕ → ℕ
kstrlen [] = 0
kstrlen (c ∷ s) = if c == 0 then 0 else suc (kstrlen s)

-- The loop of `kstrcpy` from index `i`: the rest of `src`, and the buffer so far.
unfoldable pub copy_from : ℕ → List ℕ → List ℕ → List ℕ
copy_from i dst [] = set dst i 0
copy_from i dst (c ∷ src) =
    let rest = copy_from (i + 1) (set dst i c) src in if c == 0 then set dst i 0 else rest

unfoldable pub kstrcpy : List ℕ → List ℕ → List ℕ
unfolding copy_from
kstrcpy dst src = copy_from 0 dst src

unfoldable pub kstrcat : List ℕ → List ℕ → List ℕ
unfolding copy_from kstrlen
kstrcat dst src = copy_from (kstrlen dst) dst src

-- `for (; i < n; i++) d[i] = val;`
unfoldable pub set_from : ℕ → ℕ → ℕ → List ℕ → List ℕ
set_from zero i val d = d
set_from (suc left) i val d = set_from left (i + 1) val (set d i val)

unfoldable pub kmemset : List ℕ → ℕ → ℕ → List ℕ
unfolding set_from
kmemset dst val n = set_from n 0 val dst

unfoldable pub move_from : ℕ → ℕ → List ℕ → List ℕ → List ℕ
move_from zero i d s = d
move_from (suc left) i d s = move_from left (i + 1) (set d i (get_or s i 0)) s

unfoldable pub kmemcpy : List ℕ → List ℕ → ℕ → List ℕ
unfolding move_from
kmemcpy dst src n = move_from n 0 dst src

module _ {S : Type 0} (pit_get_ticks : S → ℕ) (between : S → S) where
  -- `while ((pit_get_ticks() - start) < tick_)`: `between` is what the interrupts between two readings
  -- do to the state; none where the rounds do not suffice.
  unfoldable pub wait_rounds : ℕ → ℕ → ℕ → S → Option S
  wait_rounds zero tick_ start s = none
  wait_rounds (suc fuel) tick_ start s =
      let rest = wait_rounds fuel tick_ start (between s) in
      if ltb (sub32 (pit_get_ticks s) start) tick_ then rest else some s

  unfoldable pub wait : ℕ → ℕ → S → Option S
  wait fuel ticks s = wait_rounds fuel (u32 (ticks * 100)) (pit_get_ticks s) s
