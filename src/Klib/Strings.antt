-- ===== src/Klib/Strings.antt =====
-- kernel/klib.c: `kstrcpy` and `kstrcat` against the text before the first NUL.
use prajna_os.Base.{
  ℕ, zero, suc, ◌+◌, ◌<◌, ◌≡◌, refl, arith, ap, ◌∙◌, List, [], ◌∷◌, ◌++◌, false, ◌==◌,
  if◌then◌else◌, get_or, set, drop, length, length-set, get_or-set_self, get_or-set_ne, Bool-cases,
  inl, inr, c_string,
}
use prajna_os.Klib.{copy_from, kstrcpy, kstrcat, kstrlen}

length-copy_from : (i : ℕ) (dst src : List ℕ) → length (copy_from i dst src) ≡ length dst
unfolding copy_from
length-copy_from i dst [] = length-set dst i 0
length-copy_from i dst (c ∷ src) = elim (Bool-cases (c == 0)) [
  | inl z ↦ rw z (length-set dst i 0)
  | inr nz ↦ rw nz (length-copy_from (i + 1) (set dst i c) src ∙ length-set dst i c)
]

-- What stands before the copy stays.
copy_from_before :
    (i : ℕ) (dst src : List ℕ) (j : ℕ) → j < i → get_or (copy_from i dst src) j 0 ≡ get_or dst j 0
unfolding copy_from
copy_from_before i dst [] j h = get_or-set_ne dst i j 0 0 (omega arith)
copy_from_before i dst (c ∷ src) j h = elim (Bool-cases (c == 0)) [
  | inl z ↦ rw z (get_or-set_ne dst i j 0 0 (omega arith))
  | inr nz ↦ rw nz (
      copy_from_before (i + 1) (set dst i c) src j (omega arith)
      ∙ get_or-set_ne dst i j c 0 (omega arith))
]

c_string-drop :
    (i : ℕ) (s : List ℕ)
    → c_string (drop i s)
      ≡ (if get_or s i 0 == 0 then [] else get_or s i 0 ∷ c_string (drop (i + 1) s))
c_string-drop zero [] = refl
c_string-drop zero (c ∷ s) = refl
c_string-drop (suc i) [] = refl
c_string-drop (suc i) (c ∷ s) =
    let e : suc i + 1 ≡ suc (i + 1) = omega arith in rw e (c_string-drop i s)

-- The copy reads back from where it starts.
c_string-copy_from :
    (i : ℕ) (dst src : List ℕ)
    → i + length (c_string src) < length dst
    → c_string (drop i (copy_from i dst src)) ≡ c_string src
unfolding copy_from
c_string-copy_from i dst [] h =
    rw (c_string-drop i (set dst i 0), get_or-set_self dst i 0 0 (omega arith)) refl
c_string-copy_from i dst (c ∷ src) h = elim (Bool-cases (c == 0)) [
  | inl z ↦ rw z (rw (c_string-drop i (set dst i 0), get_or-set_self dst i 0 0 (omega arith)) refl)
  | inr nz ↦ rw nz (more nz (rw nz at h) (c_string-copy_from (i + 1) (set dst i c) src))
]
  where
    more :
        (c == 0) ≡ false
        → i + suc (length (c_string src)) < length dst
        → (i + 1 + length (c_string src) < length (set dst i c)
            → c_string (drop (i + 1) (copy_from (i + 1) (set dst i c) src)) ≡ c_string src)
        → c_string (drop i (copy_from (i + 1) (set dst i c) src)) ≡ c ∷ c_string src
    more nz h ih =
        let out = copy_from (i + 1) (set dst i c) src in
        let at : get_or out i 0 ≡ c =
          copy_from_before (i + 1) (set dst i c) src i (omega arith)
          ∙ get_or-set_self dst i c 0 (omega arith) in
        rw (c_string-drop i out, at, nz) (ap (◌∷◌ c) (ih (rw length-set (omega arith))))

-- Into a buffer with room for the text of `src` and its NUL, `kstrcpy` copies exactly that text.
pub c_string-kstrcpy :
    (dst src : List ℕ)
    → length (c_string src) < length dst
    → c_string (kstrcpy dst src) ≡ c_string src
unfolding kstrcpy
c_string-kstrcpy dst src h = c_string-copy_from 0 dst src (omega arith)

c_string-append :
    (dst out : List ℕ)
    → ((j : ℕ) → j < kstrlen dst → get_or out j 0 ≡ get_or dst j 0)
    → c_string out ≡ c_string dst ++ c_string (drop (kstrlen dst) out)
unfolding kstrlen
c_string-append [] out h = refl
c_string-append (c ∷ dst) out h = elim (Bool-cases (c == 0)) [
  | inl z ↦ rw z refl
  | inr nz ↦ rw nz (first nz out (rw nz at h) (c_string-append dst))
]
  where
    first :
        (c == 0) ≡ false
        → (out : List ℕ) → ((j : ℕ) → j < suc (kstrlen dst) → get_or out j 0 ≡ get_or (c ∷ dst) j 0)
        → ((rest : List ℕ)
            → ((j : ℕ) → j < kstrlen dst → get_or rest j 0 ≡ get_or dst j 0)
            → c_string rest ≡ c_string dst ++ c_string (drop (kstrlen dst) rest))
        → c_string out ≡ c ∷ (c_string dst ++ c_string (drop (suc (kstrlen dst)) out))
    first nz [] h ih = absurd (ground (arith, h 0 (omega arith)))
    first nz (x ∷ rest) h ih =
        let e : x ≡ c = h 0 (omega arith) in
        rw (e, nz) (ap (◌∷◌ c) (ih rest (λ j lt. h (suc j) (omega arith))))

length-c_string : (s : List ℕ) → length (c_string s) ≡ kstrlen s
unfolding kstrlen
length-c_string [] = refl
length-c_string (c ∷ s) = elim (Bool-cases (c == 0)) [
  | inl z ↦ rw z refl
  | inr nz ↦ rw nz (ap suc (length-c_string s))
]

-- Into a buffer with room for both texts and a NUL, `kstrcat` puts the text of `src` behind the
-- text of `dst`.
pub c_string-kstrcat :
    (dst src : List ℕ)
    → length (c_string dst) + length (c_string src) < length dst
    → c_string (kstrcat dst src) ≡ c_string dst ++ c_string src
unfolding kstrcat
c_string-kstrcat dst src h =
    c_string-append dst (copy_from (kstrlen dst) dst src)
      (λ j lt. copy_from_before (kstrlen dst) dst src j lt)
    ∙ ap (◌++◌ (c_string dst))
        (c_string-copy_from (kstrlen dst) dst src (omega (arith, length-c_string dst)))
