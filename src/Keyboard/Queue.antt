-- ===== src/Keyboard/Queue.antt =====
-- kernel/isr.c, `scancode_push` and `scancode_pop`: the circular buffer against a queue.
use prajna_os.Base.{
  ℕ, zero, suc, ◌+◌, ◌-◌, ◌%◌, ◌^◌, ◌<◌, ◌≡◌, refl, arith, true, false, ◌==◌, if◌then◌else◌, ap,
  ap₂, Bool-cases, inl, inr, ltb, length, get_or, set, get_or-set_self, get_or-set_ne, length-set,
  List, [], ◌∷◌, ◌++◌, Option, none, some,
}
use prajna_os.Keyboard.{ScancodeRing, scancode_push, scancode_pop, scancode_buffer_size}

-- The buffer has its 16 bytes, and both indices are inside.
pub record IsRing (r : ScancodeRing) : Type 0 where
  pub sized : length r.buffer ≡ scancode_buffer_size
  pub head_in : r.head < scancode_buffer_size
  pub tail_in : r.tail < scancode_buffer_size

-- The `n` entries from index `t` on, going round at 16.
pub entries : List ℕ → ℕ → ℕ → List ℕ
entries buf t zero = []
entries buf t (suc n) = get_or buf t 0 ∷ entries buf ((t + 1) % scancode_buffer_size) n

-- How many scancodes wait.
abbrev pub waiting : ScancodeRing → ℕ
waiting r = (r.head + scancode_buffer_size - r.tail) % scancode_buffer_size

pub contents : ScancodeRing → List ℕ
unfolding entries
contents r = entries r.buffer r.tail (waiting r)

length-entries : (buf : List ℕ) (t n : ℕ) → length (entries buf t n) ≡ n
unfolding entries
length-entries buf t zero = refl
length-entries buf t (suc n) = ap suc (length-entries buf ((t + 1) % 16) n)

entries-set :
    (buf : List ℕ) (x t n h : ℕ)
    → length buf ≡ 16
    → t < 16
    → n < 16
    → h ≡ (t + n) % 16
    → entries (set buf h x) t (suc n) ≡ entries buf t n ++ (x ∷ [])
unfolding entries
entries-set buf x t zero h s ht hn e =
    let e' : h ≡ t = omega arith in
    rw e' (ap (λ y. y ∷ []) (get_or-set_self buf t x 0 (omega arith)))
entries-set buf x t (suc n) h s ht hn e =
    ap₂ ◌∷◌ (get_or-set_ne buf h t x 0 (omega arith))
      (entries-set buf x ((t + 1) % 16) n h s (omega arith) (omega arith) (omega arith))

-- A first-in first-out queue that drops what does not fit 15 places.
pub offer : List ℕ → ℕ → List ℕ
offer q x = if ltb (length q) 15 then q ++ (x ∷ []) else q

pub poll : List ℕ → Option ℕ × List ℕ
poll [] = (none, [])
poll (x ∷ q) = (some x, q)

pub scancode_push-IsRing : {r : ScancodeRing} (x : ℕ) → IsRing r → IsRing (scancode_push r x)
unfolding scancode_push
scancode_push-IsRing {r} x v = ground (arith, length-set r.buffer r.head x)

pub scancode_pop-IsRing : {r : ScancodeRing} → IsRing r → IsRing (scancode_pop r).1
unfolding scancode_pop
scancode_pop-IsRing v = ground arith

-- `scancode_push` adds its scancode at the back, or drops it when 15 are waiting.
pub contents-scancode_push :
    {r : ScancodeRing} (x : ℕ) → IsRing r → contents (scancode_push r x) ≡ offer (contents r) x
unfolding scancode_push contents offer
contents-scancode_push {r} x v = elim (Bool-cases ((r.head + 1) % 16 % 2 ^ 8 == r.tail)) [
  | inl full ↦
      let all : ltb (waiting r) 15 ≡ false = ground arith in
      rw (full, length-entries r.buffer r.tail (waiting r), all)
  | inr room ↦
      let some_left : ltb (waiting r) 15 ≡ true = ground arith in
      let more : ((r.head + 1) % 16 % 2 ^ 8 + 16 - r.tail) % 16 ≡ suc (waiting r) = ground arith in
      rw (room, length-entries r.buffer r.tail (waiting r), some_left, more)
        (entries-set r.buffer x r.tail (waiting r) r.head v.sized v.tail_in (omega arith)
          (omega arith))
]

entries_of_pos :
    (buf : List ℕ) (t n : ℕ)
    → 0 < n
    → entries buf t n ≡ get_or buf t 0 ∷ entries buf ((t + 1) % 16) (n - 1)
unfolding entries
entries_of_pos buf t zero h = absurd (omega arith)
entries_of_pos buf t (suc n) h = let e : suc n - 1 ≡ n = omega arith in rw e

-- `scancode_pop` delivers the scancode that has waited longest and removes it; on an empty buffer
-- it reports failure and changes nothing.
pub contents-scancode_pop :
    {r : ScancodeRing}
    → IsRing r
    → let (out, r') = scancode_pop r in (out, contents r') ≡ poll (contents r)
unfolding scancode_pop contents poll entries
contents-scancode_pop {r} v = elim (Bool-cases (r.head == r.tail)) [
  | inl none_left ↦ let e : waiting r ≡ 0 = ground arith in rw (none_left, e)
  | inr some_left ↦
      let fewer : (r.head + 16 - (r.tail + 1) % 16 % 2 ^ 8) % 16 ≡ waiting r - 1 = ground arith in
      let wraps : (r.tail + 1) % 16 % 2 ^ 8 ≡ (r.tail + 1) % 16 = omega arith in
      rw (some_left, fewer, wraps, entries_of_pos r.buffer r.tail (waiting r) (ground arith))
]

-- One scancode less waits after a pop that gave one; a pop that gave none found none.
pub waiting-scancode_pop :
    {r : ScancodeRing} {x : ℕ}
    → IsRing r
    → (scancode_pop r).0 ≡ some x
    → waiting (scancode_pop r).1 + 1 ≡ waiting r
unfolding scancode_pop
waiting-scancode_pop {r} v h = elim (Bool-cases (r.head == r.tail)) [
  | inl e ↦ absurd (cc (rw e at h))
  | inr n ↦ rw n (ground arith)
]

pub scancode_pop-none : (r : ScancodeRing) → (scancode_pop r).0 ≡ none → r.head ≡ r.tail
unfolding scancode_pop
scancode_pop-none r h = elim (Bool-cases (r.head == r.tail)) [
  | inl e ↦ ground arith
  | inr n ↦ absurd (cc (rw n at h))
]

-- What happens to the buffer: the keyboard interrupt pushes, the timer interrupt pops.
pub data Access : Type 0 where
  arrive : ℕ → Access
  drain : Access

abbrev pub deliveries : ScancodeRing → List Access → List (Option ℕ)
deliveries r [] = []
deliveries r (arrive x ∷ ops) = deliveries (scancode_push r x) ops
deliveries r (drain ∷ ops) = (scancode_pop r).0 ∷ deliveries (scancode_pop r).1 ops

abbrev pub queue_deliveries : List ℕ → List Access → List (Option ℕ)
queue_deliveries q [] = []
queue_deliveries q (arrive x ∷ ops) = queue_deliveries (offer q x) ops
queue_deliveries q (drain ∷ ops) = (poll q).0 ∷ queue_deliveries (poll q).1 ops

-- From any scancode buffer with its 16 bytes and both indices below 16, under every interleaving of
-- `scancode_push` and `scancode_pop`, the pops deliver what a first-in first-out queue of at most
-- 15 scancodes delivers.
pub deliveries_refine :
    (ops : List Access) {r : ScancodeRing}
    → IsRing r
    → deliveries r ops ≡ queue_deliveries (contents r) ops
deliveries_refine [] v = refl
deliveries_refine (arrive x ∷ ops) {r} v =
    rw (← contents-scancode_push x v) (deliveries_refine ops (scancode_push-IsRing x v))
deliveries_refine (drain ∷ ops) {r} v =
    rw (← contents-scancode_pop v)
      (ap (◌∷◌ (scancode_pop r).0) (deliveries_refine ops (scancode_pop-IsRing v)))
