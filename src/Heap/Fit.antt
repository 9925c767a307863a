-- ===== src/Heap/Fit.antt =====
-- kernel/heap.c: which bytes the blocks of the heap occupy, header and data.
use mathlib.Core.Path.{subst}
use prajna_os.Base.{
  ℕ, zero, suc, ◌+◌, ◌-◌, ◌^◌, ◌≤◌, ◌<◌, ◌≡◌, refl, arith, ap, sym, ◌∙◌, List, [], ◌∷◌, none, some,
  true, false, not, ◌&&◌, ltb, leb, if◌then◌else◌, u32, Bool-cases, Option-cases, inl, inr,
  get_elem?,
}
use prajna_os.Heap.{Block, header, take_block, first_fit}

-- How many blocks occupy byte `x`.
abbrev pub claims : ℕ → List Block → ℕ
claims x [] = 0
claims x (b ∷ bs) =
    (if leb b.addr x && ltb x (b.addr + header + b.size) then 1 else 0) + claims x bs

claims-take_block :
    (size : ℕ) (b : Block) (bs : List Block) (x : ℕ)
    → size ≤ b.size
    → b.size < 2 ^ 30
    → claims x (take_block size b bs) ≡ claims x (b ∷ bs)
unfolding take_block
claims-take_block size b bs x fits small = elim (Bool-cases (ltb (u32 (size + 16 + 4)) b.size)) [
  | inl split ↦ rw split (ground arith)
  | inr whole ↦ rw whole refl
]

-- No size is near the end of 32 bits.
abbrev pub Small : List Block → Type 0
Small [] = Unit {0}
Small (b ∷ bs) = (b.size < 2 ^ 30) × Small bs

abbrev pub In : Block → List Block → Type 0
In b bs = (j : ℕ) × (get_elem? bs j ≡ some b)

-- What a successful search did to the list: a used block with room stands where a free one stood.
pub record Taken (size : ℕ) (bs : List Block) (r : ℕ × List Block) : Type 0 where
  pub old : Block
  pub new : Block
  pub was : In old bs
  pub unused : old.used ≡ false
  pub now : In new r.1
  pub used : new.used ≡ true
  pub room : size ≤ new.size
  pub address : r.0 ≡ new.addr + header
  pub same_address : new.addr ≡ old.addr
  pub kept : (b : Block) → b.used ≡ true → In b bs → In b r.1
  pub bytes : Small bs → (x : ℕ) → claims x r.1 ≡ claims x bs

In-cons : {b : Block} (c : Block) (bs : List Block) → In b bs → In b (c ∷ bs)
In-cons c bs (j, e) = (suc j, e)

Taken-cons :
    {size : ℕ} {bs : List Block} {r : ℕ × List Block} (c : Block)
    → Taken size bs r
    → Taken size (c ∷ bs) (r.0, c ∷ r.1)
Taken-cons {bs = bs} {r = r} c t = record {
  old = t.old;
  new = t.new;
  was = In-cons c bs t.was;
  unused = t.unused;
  now = In-cons c r.1 t.now;
  used = t.used;
  room = t.room;
  address = t.address;
  same_address = t.same_address;
  kept = λ b u i. keep b u i;
  bytes = λ s x. omega (arith, t.bytes s.1 x);
}
  where
    keep : (b : Block) → b.used ≡ true → In b (c ∷ bs) → In b (c ∷ r.1)
    keep b u (zero, e) = (zero, e)
    keep b u (suc j, e) = In-cons c r.1 (t.kept b u (j, e))

clash : (b c : Block) → b.used ≡ false → c.used ≡ true → some b ≡ some c → ⊥
clash b c free used e =
    let same : b ≡ c = cc in
    let bad : false ≡ true = sym free ∙ ap (λ (x : Block). x.used) same ∙ used in absurd (cc)

-- The used blocks stay when free block `b` makes way for `new`.
keep_rest :
    (b new : Block) (bs rest : List Block)
    → b.used ≡ false
    → ((c : Block) → In c bs → In c rest)
    → (c : Block) → c.used ≡ true
    → In c (b ∷ bs)
    → In c (new ∷ rest)
keep_rest b new bs rest free k c u (zero, e) = absurd (clash b c free u e)
keep_rest b new bs rest free k c u (suc j, e) = In-cons new rest (k c (j, e))

-- The block itself, by whether it is split.
Taken-here :
    (size : ℕ) (b : Block) (bs : List Block)
    → b.used ≡ false
    → size ≤ b.size
    → Taken size (b ∷ bs) (b.addr + header, take_block size b bs)
unfolding take_block
Taken-here size b bs free fits = elim (Bool-cases (ltb (u32 (size + 16 + 4)) b.size)) [
  | inl split ↦
      let new : Block = record { addr = b.addr; size = size; used = true } in
      let left : Block = record {
        addr = b.addr + header + size;
        size = b.size - size - header;
        used = false;
      } in
      rw (take_block, split)
        (record {
          old = b;
          new = new;
          was = (0, refl);
          unused = free;
          now = (0, refl);
          used = refl;
          room = omega arith;
          address = refl;
          same_address = refl;
          kept = keep_rest b new bs (left ∷ bs) free (λ c i. In-cons left bs i);
          bytes = λ s x. rw split at (claims-take_block size b bs x fits s.0);
        })
  | inr whole ↦
      let new : Block = record b { used = true } in
      rw (take_block, whole)
        (record {
          old = b;
          new = new;
          was = (0, refl);
          unused = free;
          now = (0, refl);
          used = refl;
          room = fits;
          address = refl;
          same_address = refl;
          kept = keep_rest b new bs bs free (λ c i. i);
          bytes = λ s x. refl;
        })
]

-- The search and the split.
pub first_fit-Taken :
    (size : ℕ) (bs : List Block) {r : ℕ × List Block} → first_fit size bs ≡ some r → Taken size bs r
unfolding first_fit
first_fit-Taken size [] h = absurd (cc)
first_fit-Taken size (b ∷ bs) {r} h = elim (Bool-cases (not b.used && leb size b.size)) [
  | inl hit ↦
      let e : some (b.addr + header, take_block size b bs) ≡ some r = rw hit at h in
      let eq : (b.addr + header, take_block size b bs) ≡ r = cc in
      subst (Taken size (b ∷ bs)) eq (Taken-here size b bs (ground arith) (ground arith))
  | inr pass ↦ elim (Option-cases (first_fit size bs)) [
    | inl n ↦ absurd (missing (rw (pass, n) at h))
    | inr (r', found) ↦
        let e : some (r'.0, b ∷ r'.1) ≡ some r = rw (pass, found) at h in
        let eq : (r'.0, b ∷ r'.1) ≡ r = cc in
        subst (Taken size (b ∷ bs)) eq (Taken-cons b (first_fit-Taken size bs found))
  ]
]
  where
    missing : none ≡ some r → ⊥
    missing e = absurd (cc)
