-- ===== src/Fat/Lookup.antt =====
-- kernel/fat32.c: the entry that `fat32_create_file` writes, as `name_match` sees it.
use prajna_os.Base.{
  ℕ, zero, suc, ◌+◌, ◌≡◌, ◌≢◌, refl, arith, ap, ◌∙◌, List, [], ◌∷◌, ◌++◌, true, ◌&&◌, ◌==◌, length,
  length-append, length-replicate, get_or, take, drop, replicate, Bool-cases, inl, inr,
}
use prajna_os.Fat.Names.{upper, padded, same_chars, name_match, new_entry, attributes}

length-padded : (n : ℕ) (name : List ℕ) → length (padded n name) ≡ n
unfolding padded
length-padded zero name = refl
length-padded (suc n) [] = ap suc (length-replicate n b' ')
length-padded (suc n) (c ∷ name) = elim (Bool-cases (c == 0)) [
  | inl z ↦ rw z (ap suc (length-replicate n b' '))
  | inr nz ↦ rw nz (ap suc (length-padded n name))
]

same_blanks :
    (n : ℕ) (rest : List ℕ)
    → same_chars (take n (replicate n b' ' ++ rest)) (replicate n b' ') ≡ true
unfolding same_chars
same_blanks zero rest = refl
same_blanks (suc n) rest = same_blanks n rest

upper_idem : (c : ℕ) → (upper (upper c) == upper c) ≡ true
unfolding upper
upper_idem c = ground arith

-- A padded name matches itself.
same_padded :
    (n : ℕ) (name rest : List ℕ)
    → same_chars (take n (padded n name ++ rest)) (padded n name) ≡ true
unfolding padded same_chars
same_padded zero name rest = refl
same_padded (suc n) [] rest = same_blanks n rest
same_padded (suc n) (c ∷ name) rest = elim (Bool-cases (c == 0)) [
  | inl z ↦ rw z (same_blanks n rest)
  | inr nz ↦ rw (nz, upper_idem c) (same_padded n name rest)
]

take-append : (n : ℕ) (xs ys : List ℕ) → length xs ≡ n → take n (xs ++ ys) ≡ xs
take-append zero [] ys h = refl
take-append zero (x ∷ xs) ys h = absurd (omega arith)
take-append (suc n) [] ys h = absurd (omega arith)
take-append (suc n) (x ∷ xs) ys h = ap (◌∷◌ x) (take-append n xs ys (omega arith))

drop-append : (n : ℕ) (xs ys : List ℕ) → length xs ≡ n → drop n (xs ++ ys) ≡ ys
drop-append zero [] ys h = refl
drop-append zero (x ∷ xs) ys h = absurd (omega arith)
drop-append (suc n) [] ys h = absurd (omega arith)
drop-append (suc n) (x ∷ xs) ys h = drop-append n xs ys (omega arith)

same_fields :
    (m n : ℕ) (name ext rest : List ℕ)
    → let e = padded m name ++ (padded n ext ++ rest) in
      (same_chars (take m e) (padded m name) && same_chars (take n (drop m e)) (padded n ext))
      ≡ true
same_fields m n name ext rest =
    rw
      (
        same_padded m name (padded n ext ++ rest),
        drop-append m (padded m name) (padded n ext ++ rest) (length-padded m name),
        same_padded n ext rest,
      )
      refl

-- For every name, extension and cluster, the entry that `fat32_create_file` writes passes
-- `name_match` with that name and extension.
pub name_match-new_entry :
    (name ext : List ℕ) (cluster : ℕ) → name_match (new_entry name ext cluster) name ext ≡ true
unfolding name_match new_entry
name_match-new_entry name ext cluster = same_fields 8 3 name ext _

pub get_or-append_past :
    (n : ℕ) (xs ys : List ℕ) (k : ℕ) → length xs ≡ n → get_or (xs ++ ys) (n + k) 0 ≡ get_or ys k 0
get_or-append_past zero [] ys k h = let e : 0 + k ≡ k = omega arith in rw e refl
get_or-append_past zero (x ∷ xs) ys k h = absurd (omega arith)
get_or-append_past (suc n) [] ys k h = absurd (omega arith)
get_or-append_past (suc n) (x ∷ xs) ys k h =
    let e : suc n + k ≡ suc (n + k) = omega arith in
    rw e (get_or-append_past n xs ys k (omega arith))

pub attributes-new_entry :
    (name ext : List ℕ) (cluster : ℕ) → attributes (new_entry name ext cluster) ≡ 0x20
unfolding attributes new_entry
attributes-new_entry name ext cluster =
    get_or-append_past 8 (padded 8 name) _ 3 (length-padded 8 name)
    ∙ get_or-append_past 3 (padded 3 ext) _ 0 (length-padded 3 ext)

pub length-new_entry : (name ext : List ℕ) (cluster : ℕ) → length (new_entry name ext cluster) ≡ 32
unfolding new_entry
length-new_entry name ext cluster =
    length-append (padded 8 name) _
    ∙ rw (length-padded 8 name, length-append, length-padded 3 ext) refl

-- The first byte is no mark of an end or of a deleted entry.
pub first-new_entry :
    (name ext : List ℕ) (cluster : ℕ)
    → get_or name 0 0 ≢ 0xE5
    → (get_or (new_entry name ext cluster) 0 0 ≢ 0)
      × (get_or (new_entry name ext cluster) 0 0 ≢ 0xE5)
unfolding new_entry padded upper
first-new_entry [] ext cluster h = (omega arith, omega arith)
first-new_entry (c ∷ name) ext cluster h = elim (Bool-cases (c == 0)) [
  | inl z ↦ rw z (omega arith, omega arith)
  | inr nz ↦ rw nz (ground arith, ground arith)
]
