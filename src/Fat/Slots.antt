-- ===== src/Fat/Slots.antt =====
-- kernel/fat32.c: the entries of a directory's sector, and the search among them.
use prajna_os.Base.{
  ℕ, zero, suc, ◌+◌, ◌-◌, ◌*◌, ◌≤◌, ◌<◌, ◌≡◌, ◌≢◌, refl, arith, ◌∙◌, List, [], ◌∷◌, some, Bool,
  true, false, ◌||◌, ◌==◌, if◌then◌else◌, length, get_or, get_or_ext, length-take, take, drop,
  Bool-cases, inl, inr,
}
use prajna_os.Fat.{write_bytes}
use prajna_os.Fat.Names.{name_match, attributes, has_bit}
use prajna_os.Fat.Dir.{found, Visit, over, entry_at, file_entries, free_slot}
use prajna_os.Fat.Table.{length-write_bytes, get_or-write_bytes}

get_or-take : (n : ℕ) (xs : List ℕ) (j : ℕ) → j < n → get_or (take n xs) j 0 ≡ get_or xs j 0
get_or-take zero xs j h = absurd (omega arith)
get_or-take (suc n) [] j h = refl
get_or-take (suc n) (x ∷ xs) zero h = refl
get_or-take (suc n) (x ∷ xs) (suc j) h = get_or-take n xs j (omega arith)

get_or-drop : (o : ℕ) (xs : List ℕ) (j : ℕ) → get_or (drop o xs) j 0 ≡ get_or xs (o + j) 0
get_or-drop zero xs j = let e : 0 + j ≡ j = omega arith in rw e refl
get_or-drop (suc o) [] j = refl
get_or-drop (suc o) (x ∷ xs) j =
    let e : suc o + j ≡ suc (o + j) = omega arith in rw e (get_or-drop o xs j)

length-drop : (o : ℕ) (xs : List ℕ) → o ≤ length xs → length (drop o xs) + o ≡ length xs
length-drop zero xs h = omega arith
length-drop (suc o) [] h = absurd (omega arith)
length-drop (suc o) (x ∷ xs) h = omega (arith, length-drop o xs (omega arith))

-- Byte `k` of entry `i`.
pub get_or-entry_at :
    (buf : List ℕ) (i k : ℕ) → k < 32 → get_or (entry_at buf i) k 0 ≡ get_or buf (i * 32 + k) 0
get_or-entry_at buf i k h = get_or-take 32 (drop (i * 32) buf) k h ∙ get_or-drop (i * 32) buf k

-- The entry that was written.
pub entry_at-write_bytes :
    (buf : List ℕ) (i : ℕ) (bytes : List ℕ)
    → length buf ≡ 512
    → i < 16
    → length bytes ≡ 32
    → entry_at (write_bytes buf (i * 32) bytes) i ≡ bytes
entry_at-write_bytes buf i bytes size h e =
    let out = write_bytes buf (i * 32) bytes in
    let whole = length-write_bytes buf (i * 32) bytes in
    let rest = length-drop (i * 32) out (omega arith) in
    let len : length (entry_at out i) ≡ 32 = length-take 32 (drop (i * 32) out) (omega arith) in
    get_or_ext 0 (entry_at out i) bytes (omega arith) (λ k lt.
      let small : k < 32 = omega arith in
      let at : i * 32 + k - i * 32 ≡ k = omega arith in
      get_or-entry_at out i k small
      ∙ get_or-write_bytes buf (i * 32) bytes (i * 32 + k) (omega arith)
      ∙ rw at (ground arith))

-- The slot that `fat32_create_file` takes: the first one whose first byte is 0x00 or 0xE5.
pub free_slot_first :
    (left i : ℕ) (buf : List ℕ) (t : ℕ)
    → free_slot left i buf ≡ some t
    → (i ≤ t) × (t < i + left) × ((j : ℕ) → i ≤ j → j < t → get_or buf (j * 32) 0 ≢ 0)
unfolding free_slot
free_slot_first zero i buf t h = absurd (cc)
free_slot_first (suc left) i buf t h =
    elim (Bool-cases ((get_or buf (i * 32) 0 == 0x00) || (get_or buf (i * 32) 0 == 0xE5))) [
      | inl y ↦
          let h' : some i ≡ some t = rw y at h in
          let e : i ≡ t = cc in (omega arith, omega arith, λ j lo hi. absurd (omega arith))
      | inr n ↦
          let r = free_slot_first left (i + 1) buf t (rw n at h) in
          (
            omega (arith, r.0),
            omega (arith, r.1),
            λ j lo hi. elim (Bool-cases (j == i)) [
              | inl e ↦ let eq : j ≡ i = ground arith in rw eq (ground arith)
              | inr ne ↦ r.2 j (ground arith) hi
            ],
          )
    ]

-- One entry of the search: it is skipped, or it is the one.
skip :
    (P : Visit → Type 0) (deleted long dir label same : Bool) (here rest : Visit)
    → P rest
    → (same ≡ true → P here)
    → P (
        if deleted
        then rest
        else if long
        then rest
        else if dir
        then rest
        else if label
        then rest
        else if same
        then here
        else rest)
skip P true long dir label same here rest r h = r
skip P false true dir label same here rest r h = r
skip P false false true label same here rest r h = r
skip P false false false true same here rest r h = r
skip P false false false false true here rest r h = h refl
skip P false false false false false here rest r h = r

-- A search that ends at an entry with the name.
unfoldable pub Hit : List ℕ → List ℕ → ℕ → Visit → Type 0
Hit name ext sector v =
    (e : List ℕ) × (o : ℕ) × (v ≡ over (found e sector o)) × (name_match e name ext ≡ true)

hit :
    (name ext : List ℕ) (sector : ℕ) (e : List ℕ) (o : ℕ)
    → name_match e name ext ≡ true
    → Hit name ext sector (over (found e sector o))
unfolding Hit
hit name ext sector e o same = (e, o, refl, same)

module _ (name ext : List ℕ) (sector : ℕ) (buf : List ℕ) (t : ℕ) where
  -- Entry `t` is a file with the name, and no entry before it ends the directory.
  pub record Stands : Type 0 where
    pub marked : (get_or (entry_at buf t) 0 0 ≢ 0) × (get_or (entry_at buf t) 0 0 ≢ 0xE5)
    pub plain : attributes (entry_at buf t) ≡ 0x20
    pub named : name_match (entry_at buf t) name ext ≡ true
    pub reached : (j : ℕ) → j < t → get_or (entry_at buf j) 0 0 ≢ 0

  here : (left : ℕ) → Stands → Hit name ext sector (file_entries (suc left) t name ext sector buf)
  unfolding file_entries Hit
  here left s =
      let a : (get_or (entry_at buf t) 0 0 == 0x00) ≡ false = ground (arith, s.marked.0) in
      let b : (get_or (entry_at buf t) 0 0 == 0xE5) ≡ false = ground (arith, s.marked.1) in
      (entry_at buf t, t * 32, rw (file_entries, a, b, s.plain, s.named) refl, s.named)

  pub file_entries-Hit :
      (left i : ℕ)
      → i ≤ t
      → t < i + left
      → Stands
      → Hit name ext sector (file_entries left i name ext sector buf)
  unfolding file_entries
  file_entries-Hit zero i lo hi s = absurd (omega arith)
  file_entries-Hit (suc left) i lo hi s = elim (Bool-cases (i == t)) [
    | inl y ↦ let e : i ≡ t = ground arith in rw e (here left s)
    | inr n ↦
        let rest = file_entries-Hit left (i + 1) (ground arith) (omega arith) s in
        let a : (get_or (entry_at buf i) 0 0 == 0x00) ≡ false =
          ground (arith, s.reached i (ground arith)) in
        rw a (
          skip (Hit name ext sector) (get_or (entry_at buf i) 0 0 == 0xE5)
            (attributes (entry_at buf i) == 0x0F) (has_bit 0x10 (attributes (entry_at buf i)))
            (has_bit 0x08 (attributes (entry_at buf i))) (name_match (entry_at buf i) name ext)
            (over (found (entry_at buf i) sector (i * 32)))
            (file_entries left (i + 1) name ext sector buf) rest
            (hit name ext sector (entry_at buf i) (i * 32)))
  ]
