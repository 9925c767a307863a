-- ===== src/Klib/Decimal.antt =====
-- kernel/klib.c, `uint_to_str`: its two loops against the digits of the number.
use native.Mathlib.Nat.{pow-suc, zero-add}
use prajna_os.Base.{
  ℕ, zero, suc, ◌+◌, ◌-◌, ◌*◌, ◌/◌, ◌%◌, ◌^◌, ◌≤◌, ◌<◌, ◌≡◌, refl, arith, ◌∙◌, List, [], ◌∷◌, true,
  false, ◌&&◌, ◌==◌, ltb, leb, if◌then◌else◌, get_or, set, length, length-set, get_or-set_self,
  get_or-set_ne, get_or-set, Bool-cases, inl, inr,
}
use prajna_os.Klib.{Cursor, put_digits, swap_ends, uint_to_str}

-- `n` divided `k` times by ten.
abbrev quot : ℕ → ℕ → ℕ
quot n zero = n
quot n (suc k) = quot (n / 10) k

quot-suc : (n k : ℕ) → quot n (suc k) ≡ quot n k / 10
quot-suc n zero = refl
quot-suc n (suc k) = quot-suc (n / 10) k

-- How many digits the first loop writes.
count : ℕ → ℕ → ℕ
count zero t = 0
count (suc f) t = let rest = suc (count f (t / 10)) in if t == 0 then 0 else rest

quot-count : (f t : ℕ) → t ≤ f → quot t (count f t) ≡ 0
unfolding count
quot-count zero t h = omega arith
quot-count (suc f) t h = elim (Bool-cases (t == 0)) [
  | inl z ↦ rw z (ground arith)
  | inr nz ↦ rw nz (quot-count f (t / 10) (ground arith))
]

count-le : (f t k : ℕ) → t < 10 ^ k → count f t ≤ k
unfolding count
count-le zero t k h = omega arith
count-le (suc f) t zero h = ground arith
count-le (suc f) t (suc k) h = elim (Bool-cases (t == 0)) [
  | inl z ↦ rw z (omega arith)
  | inr nz ↦
      let small : t / 10 < 10 ^ k = omega (arith, pow-suc 10 k) in
      rw nz (omega (arith, count-le f (t / 10) k small))
]

count-pos : (f t : ℕ) → 0 < t → t ≤ f → 0 < count f t
unfolding count
count-pos zero t p h = absurd (omega arith)
count-pos (suc f) t p h = ground arith

index-put_digits : (f t : ℕ) (c : Cursor) → (put_digits f t c).i ≡ c.i + count f t
unfolding put_digits count
index-put_digits zero t c = omega arith
index-put_digits (suc f) t c = elim (Bool-cases (t == 0)) [
  | inl z ↦ rw z (omega arith)
  | inr nz ↦
      rw
        (
          nz,
          index-put_digits f (t / 10) (record { buf = set c.buf c.i (b'0' + t % 10); i = c.i + 1 }),
        )
        (omega arith)
]

length-put_digits : (f t : ℕ) (c : Cursor) → length (put_digits f t c).buf ≡ length c.buf
unfolding put_digits
length-put_digits zero t c = refl
length-put_digits (suc f) t c = elim (Bool-cases (t == 0)) [
  | inl z ↦ rw z
  | inr nz ↦ rw nz (
      length-put_digits f (t / 10) (record { buf = set c.buf c.i (b'0' + t % 10); i = c.i + 1 })
      ∙ length-set c.buf c.i (b'0' + t % 10))
]

put_digits_before :
    (f t : ℕ) (c : Cursor) (j : ℕ) → j < c.i → get_or (put_digits f t c).buf j 0 ≡ get_or c.buf j 0
unfolding put_digits
put_digits_before zero t c j h = refl
put_digits_before (suc f) t c j h = elim (Bool-cases (t == 0)) [
  | inl z ↦ rw z
  | inr nz ↦ rw nz (
      put_digits_before f (t / 10) (record { buf = set c.buf c.i (b'0' + t % 10); i = c.i + 1 }) j
        (omega arith)
      ∙ get_or-set_ne c.buf c.i j (b'0' + t % 10) 0 (omega arith))
]

-- The digits stand in the buffer, the lowest first.
put_digits_at :
    (f t : ℕ) (c : Cursor) (k : ℕ)
    → k < count f t
    → c.i + count f t ≤ length c.buf
    → get_or (put_digits f t c).buf (c.i + k) 0 ≡ b'0' + quot t k % 10
unfolding put_digits count
put_digits_at zero t c k h l = absurd (omega arith)
put_digits_at (suc f) t c k h l = elim (Bool-cases (t == 0)) [
  | inl z ↦ absurd (none_left (rw z at h))
  | inr nz ↦ rw nz (more k (rw nz at h) (rw nz at l) (λ j. put_digits_at f (t / 10) c' j))
]
  where
    c' : Cursor
    c' = record { buf = set c.buf c.i (b'0' + t % 10); i = c.i + 1 }

    none_left : k < 0 → ⊥
    none_left h = omega arith

    more :
        (k : ℕ)
        → k < suc (count f (t / 10))
        → c.i + suc (count f (t / 10)) ≤ length c.buf
        → ((j : ℕ)
            → j < count f (t / 10)
            → c.i + 1 + count f (t / 10) ≤ length c'.buf
            → get_or (put_digits f (t / 10) c').buf (c.i + 1 + j) 0 ≡ b'0' + quot (t / 10) j % 10)
        → get_or (put_digits f (t / 10) c').buf (c.i + k) 0 ≡ b'0' + quot t k % 10
    more zero h l ih =
        let e : c.i + 0 ≡ c.i = omega arith in
        rw e (
          put_digits_before f (t / 10) c' c.i (omega arith)
          ∙ get_or-set_self c.buf c.i (b'0' + t % 10) 0 (omega arith))
    more (suc k) h l ih =
        let e : c.i + suc k ≡ c.i + 1 + k = omega arith in
        rw e (ih k (omega arith) (rw length-set (omega arith)))

length-swap_ends : (f s e : ℕ) (buf : List ℕ) → length (swap_ends f s e buf) ≡ length buf
unfolding swap_ends
length-swap_ends zero s e buf = refl
length-swap_ends (suc f) s e buf = elim (Bool-cases (ltb s e)) [
  | inl more ↦ rw more (
      length-swap_ends f (s + 1) (e - 1) (set (set buf s (get_or buf e 0)) e (get_or buf s 0))
      ∙ length-set _ _ _
      ∙ length-set _ _ _)
  | inr done ↦ rw done
]

mirror_stays :
    (s e : ℕ) (buf : List ℕ) (j : ℕ)
    → e ≤ s
    → get_or buf j 0 ≡ (if leb s j && leb j e then get_or buf (s + e - j) 0 else get_or buf j 0)
mirror_stays s e buf j h = elim (Bool-cases (leb s j && leb j e)) [
  | inl mid ↦ let same : s + e - j ≡ j = ground arith in rw (mid, same)
  | inr out ↦ rw out
]

-- One swap, then the mirrored inner stretch.
mirror_step :
    (s e : ℕ) (buf : List ℕ) (j : ℕ)
    → e < length buf
    → s < e
    → let buf' = set (set buf s (get_or buf e 0)) e (get_or buf s 0) in
      (if leb (s + 1) j && leb j (e - 1)
        then get_or buf' (s + 1 + (e - 1) - j) 0
        else get_or buf' j 0)
      ≡ (if leb s j && leb j e then get_or buf (s + e - j) 0 else get_or buf j 0)
mirror_step s e buf j l h =
    let m : s + 1 + (e - 1) - j ≡ s + e - j = omega arith in
    let a = get_or buf e 0 in
    let b = get_or buf s 0 in
    rw m (
      ground (
        arith,
        get_or-set (set buf s a) e j b 0,
        get_or-set buf s j a 0,
        get_or-set (set buf s a) e (s + e - j) b 0,
        get_or-set buf s (s + e - j) a 0,
        length-set buf s a,
      ))

-- The second loop mirrors the stretch from `s` to `e` and leaves the rest.
swap_ends_at :
    (f s e : ℕ) (buf : List ℕ) (j : ℕ)
    → e < length buf
    → e ≤ s + f
    → get_or (swap_ends f s e buf) j 0
      ≡ (if leb s j && leb j e then get_or buf (s + e - j) 0 else get_or buf j 0)
unfolding swap_ends
swap_ends_at zero s e buf j l h = mirror_stays s e buf j (omega arith)
swap_ends_at (suc f) s e buf j l h = elim (Bool-cases (ltb s e)) [
  | inl more ↦ rw more (
      swap_ends_at f (s + 1) (e - 1) (set (set buf s (get_or buf e 0)) e (get_or buf s 0)) j
        (rw (length-set, length-set) (omega arith)) (ground arith)
      ∙ mirror_step s e buf j l (ground arith))
  | inr done ↦ rw done (mirror_stays s e buf j (ground arith))
]

-- Reads a decimal number from index `j` up to a NUL, in at most the given number of steps.
pub read : ℕ → ℕ → ℕ → List ℕ → ℕ
read zero j acc buf = acc
read (suc f) j acc buf =
    let rest = read f (j + 1) (acc * 10 + (get_or buf j 0 - b'0')) buf in
    if get_or buf j 0 == 0 then acc else rest

-- A buffer that holds the `len` digits of `n`, the highest first, and then a NUL.
record Printed (n len : ℕ) (buf : List ℕ) : Type 0 where
  digit : (k j : ℕ) → j + suc k ≡ len → get_or buf j 0 ≡ b'0' + quot n k % 10
  ends : get_or buf len 0 ≡ 0

read-Printed :
    (r f j n len : ℕ) (buf : List ℕ)
    → Printed n len buf
    → j + r ≡ len
    → r < f
    → read f j (quot n r) buf ≡ n
unfolding read
read-Printed r zero j n len buf v e h = absurd (omega arith)
read-Printed zero (suc f) j n len buf v e h = let same : j ≡ len = omega arith in rw (same, v.ends)
read-Printed (suc r) (suc f) j n len buf v e h =
    let d = v.digit r j e in
    let some_digit : (get_or buf j 0 == 0) ≡ false = ground arith in
    let acc : quot n (suc r) * 10 + (get_or buf j 0 - b'0') ≡ quot n r =
      omega (arith, d, quot-suc n r) in
    rw (some_digit, acc) (read-Printed r f (j + 1) n len buf v (omega arith) (omega arith))

-- Mirroring the digits and ending them with NUL gives a printed number.
Printed-mirrored :
    (n i len : ℕ) (b : List ℕ)
    → i ≡ len
    → 0 < len
    → len < length b
    → ((k : ℕ) → k < len → get_or b k 0 ≡ b'0' + quot n k % 10)
    → Printed n len (set (swap_ends i 0 (i - 1) b) i 0)
Printed-mirrored n i len b e pos fits digits = record {
  digit = λ k j h.
      let inside : (leb 0 j && leb j (i - 1)) ≡ true = ground arith in
      let place : 0 + (i - 1) - j ≡ k = omega arith in
      get_or-set_ne (swap_ends i 0 (i - 1) b) i j 0 0 (omega arith)
      ∙ swap_ends_at i 0 (i - 1) b j (omega arith) (omega arith)
      ∙ rw (inside, place) (digits k (omega arith));
  ends = rw e (get_or-set_self (swap_ends len 0 (len - 1) b) len 0 0 (rw length-swap_ends fits));
}

read_back :
    (n i len : ℕ) (b : List ℕ)
    → Printed n len (set (swap_ends i 0 (i - 1) b) i 0)
    → quot n len ≡ 0
    → len < length b
    → let out = set (swap_ends i 0 (i - 1) b) i 0 in read (length out) 0 0 out ≡ n
read_back n i len b v e h =
    let out = set (swap_ends i 0 (i - 1) b) i 0 in
    let size : length out ≡ length b =
      length-set (swap_ends i 0 (i - 1) b) i 0 ∙ length-swap_ends i 0 (i - 1) b in
    rw e at (read-Printed len (length out) 0 n len out v (omega arith) (omega arith))

read_zero :
    (f : ℕ) (buf : List ℕ) → 2 ≤ f → 2 ≤ length buf → read f 0 0 (set (set buf 0 b'0') 1 0) ≡ 0
unfolding read
read_zero zero buf h l = absurd (omega arith)
read_zero (suc zero) buf h l = absurd (omega arith)
read_zero (suc (suc f)) [] h l = absurd (omega arith)
read_zero (suc (suc f)) (x ∷ []) h l = absurd (omega arith)
read_zero (suc (suc f)) (x ∷ y ∷ buf) h l = refl

read-positive :
    (n : ℕ) (buf : List ℕ)
    → 0 < n
    → n < 2 ^ 32
    → 11 ≤ length buf
    → read (length (uint_to_str n buf)) 0 0 (uint_to_str n buf) ≡ n
unfolding uint_to_str
read-positive n buf pos small room =
    let c = put_digits n n (record { buf = buf; i = 0 }) in
    let len = count n n in
    let nz : (n == 0) ≡ false = ground arith in
    let short = count-le n n 10 (omega arith) in
    let size = length-put_digits n n (record { buf = buf; i = 0 }) in
    let fits : len < length c.buf = omega arith in
    rw nz (
      read_back n c.i len c.buf
        (Printed-mirrored n c.i len c.buf
          (index-put_digits n n (record { buf = buf; i = 0 }) ∙ omega arith)
          (count-pos n n pos (omega arith)) fits
          (λ k h.
            rw zero-add at (put_digits_at n n (record { buf = buf; i = 0 }) k h (omega arith))))
        (quot-count n n (omega arith)) fits)

-- For every 32-bit number and a buffer of at least 11 bytes, reading the decimal text that
-- `uint_to_str` writes, up to its NUL, gives the number.
pub read-uint_to_str :
    (n : ℕ) (buf : List ℕ)
    → n < 2 ^ 32
    → 11 ≤ length buf
    → read (length (uint_to_str n buf)) 0 0 (uint_to_str n buf) ≡ n
unfolding uint_to_str
read-uint_to_str n buf small room = elim (Bool-cases (n == 0)) [
  | inl z ↦
      let e : n ≡ 0 = ground arith in
      rw (z, e) (read_zero _ buf (rw (length-set, length-set) (omega arith)) (omega arith))
  | inr nz ↦ read-positive n buf (ground arith) small room
]
