-- ===== src/Fat/Table.antt =====
-- kernel/fat32.c: the entries of the allocation table, and the search for a free cluster.
use mathlib.Core.Path.{subst}
use prajna_os.Base.{
  ℕ, zero, suc, ◌+◌, ◌-◌, ◌%◌, ◌^◌, ◌≤◌, ◌<◌, ◌≡◌, ◌≢◌, ◌⊎◌, refl, arith, ap, sym, ◌∙◌, List, [],
  ◌∷◌, none, some, false, ◌&&◌, ◌==◌, ltb, leb, if◌then◌else◌, get_or, set, length, length-set,
  get_or-set, ==_iff, Bool-cases, Option-cases, inl, inr,
}
use prajna_os.Block.{DiskOps, IsDisk}
use prajna_os.Fat.{
  Volume, end_of_chain, read32, write_bytes, bytes32, fat_sector, entry_offset, fat_next_cluster,
  try_write, fat_set_cluster, scan_free, fat32_find_free_cluster,
}

pub length-write_bytes :
    (buf : List ℕ) (o : ℕ) (bytes : List ℕ) → length (write_bytes buf o bytes) ≡ length buf
unfolding write_bytes
length-write_bytes buf o [] = refl
length-write_bytes buf o (b ∷ bytes) =
    length-write_bytes (set buf o b) (o + 1) bytes ∙ length-set buf o b

get_or-cons :
    (b : ℕ) (bytes : List ℕ) (k : ℕ)
    → get_or (b ∷ bytes) k 0 ≡ (if k == 0 then b else get_or bytes (k - 1) 0)
get_or-cons b bytes zero = refl
get_or-cons b bytes (suc k) = let e : suc k - 1 ≡ k = omega arith in rw e (ground arith)

pub get_or-write_bytes :
    (buf : List ℕ) (o : ℕ) (bytes : List ℕ) (j : ℕ)
    → o + length bytes ≤ length buf
    → get_or (write_bytes buf o bytes) j 0
      ≡ (if leb o j && ltb j (o + length bytes) then get_or bytes (j - o) 0 else get_or buf j 0)
unfolding write_bytes
get_or-write_bytes buf o [] j h = ground arith
get_or-write_bytes buf o (b ∷ bytes) j h =
    let next : j - (o + 1) ≡ j - o - 1 = omega arith in
    get_or-write_bytes (set buf o b) (o + 1) bytes j (rw length-set (omega arith))
    ∙ rw next (ground (arith, get_or-cons b bytes (j - o), get_or-set buf o j b 0))

read32-ext :
    (buf buf' : List ℕ) (o : ℕ)
    → ((j : ℕ) → o ≤ j → j < o + 4 → get_or buf' j 0 ≡ get_or buf j 0)
    → read32 buf' o ≡ read32 buf o
unfolding read32
read32-ext buf buf' o h =
    rw
      (
        h o (omega arith) (omega arith),
        h (o + 1) (omega arith) (omega arith),
        h (o + 2) (omega arith) (omega arith),
        h (o + 3) (omega arith) (omega arith),
      )
      refl

read32-write_bytes :
    (buf : List ℕ) (o v : ℕ)
    → o + 4 ≤ length buf
    → v < 2 ^ 32
    → read32 (write_bytes buf o (bytes32 v)) o ≡ v
unfolding read32
read32-write_bytes buf o v h small = ground (
  arith,
  get_or-write_bytes buf o (bytes32 v) o (omega arith),
  get_or-write_bytes buf o (bytes32 v) (o + 1) (omega arith),
  get_or-write_bytes buf o (bytes32 v) (o + 2) (omega arith),
  get_or-write_bytes buf o (bytes32 v) (o + 3) (omega arith),
)

-- The entries of two clusters are the same four bytes, or apart.
apart :
    (g : Volume) (c c' : ℕ)
    → c < 2 ^ 30
    → c' < 2 ^ 30
    → c ≢ c'
    → fat_sector g c ≡ fat_sector g c'
    → (entry_offset c' + 4 ≤ entry_offset c) ⊎ (entry_offset c + 4 ≤ entry_offset c')
unfolding fat_sector entry_offset
apart g c c' h h' ne same = elim (Bool-cases (ltb c c')) [
  | inl e ↦ inr (ground arith)
  | inr e ↦ inl (ground arith)
]

room : (x : ℕ) → entry_offset x + 4 ≤ 512
unfolding entry_offset
room x = ground arith

module _ (ops : DiskOps) where
  open ops use {Disk, read, write}

  next_read :
      (g : Volume) (c : ℕ) (d : Disk) {buf : List ℕ}
      → read (fat_sector g c) d ≡ some buf
      → fat_next_cluster ops g c d ≡ read32 buf (entry_offset c) % 2 ^ 28
  unfolding fat_next_cluster
  next_read g c d h = rw (fat_next_cluster, h) refl

  next_same :
      (g : Volume) (c : ℕ) (d d' : Disk)
      → read (fat_sector g c) d' ≡ read (fat_sector g c) d
      → fat_next_cluster ops g c d' ≡ fat_next_cluster ops g c d
  unfolding fat_next_cluster
  next_same g c d d' e = rw (fat_next_cluster, e) refl

  set_disk :
      (g : Volume) (c v : ℕ) (d d' : Disk) {buf : List ℕ}
      → read (fat_sector g c) d ≡ some buf
      → write (fat_sector g c) (write_bytes buf (entry_offset c) (bytes32 (v % 2 ^ 28))) d ≡ some d'
      → fat_set_cluster ops g c v d ≡ d'
  unfolding fat_set_cluster try_write
  set_disk g c v d d' h w = rw (fat_set_cluster, h, try_write, w) refl

  -- On a disk with 512-byte sectors, for cluster numbers below 2^30 and where the table's sector
  -- with the entry can be read and written: after `fat_set_cluster` on one cluster
  -- `fat_next_cluster` gives the low 28 bits of the value for that cluster, and for every other
  -- cluster what it gave before.
  pub fat_next_cluster-fat_set_cluster :
      IsDisk ops
      → (g : Volume) (c c' v : ℕ) (d d' : Disk) (buf : List ℕ) → c < 2 ^ 30
      → c' < 2 ^ 30
      → read (fat_sector g c) d ≡ some buf
      → write (fat_sector g c) (write_bytes buf (entry_offset c) (bytes32 (v % 2 ^ 28))) d ≡ some d'
      → fat_next_cluster ops g c' (fat_set_cluster ops g c v d)
        ≡ (if c == c' then v % 2 ^ 28 else fat_next_cluster ops g c' d)
  fat_next_cluster-fat_set_cluster disk g c c' v d d' buf h h' r w =
      rw (set_disk g c v d d' r w) (elim (Bool-cases (fat_sector g c == fat_sector g c')) [
        | inl same ↦ same_sector (ground arith)
        | inr other ↦
            let e : (c == c') ≡ false = elsewhere (ground arith) in
            rw e (next_same g c' d d' (disk.read_other (ground arith) w))
      ])
    where
      buf' : List ℕ
      buf' = write_bytes buf (entry_offset c) (bytes32 (v % 2 ^ 28))

      size : length buf ≡ 512
      size = disk.size r

      back : read (fat_sector g c) d' ≡ some buf'
      back = disk.read_written (length-write_bytes buf _ _ ∙ size) w

      elsewhere : fat_sector g c ≢ fat_sector g c' → (c == c') ≡ false
      elsewhere ne = elim (Bool-cases (c == c')) [
        | inl e ↦ absurd (ne (ap (fat_sector g) ((==_iff c c').0 e)))
        | inr e ↦ e
      ]

      kept :
          entry_offset c' + 4 ≤ entry_offset c ⊎ entry_offset c + 4 ≤ entry_offset c'
          → read32 buf' (entry_offset c') ≡ read32 buf (entry_offset c')
      kept a = read32-ext buf buf' (entry_offset c') (λ j lo hi.
          get_or-write_bytes buf (entry_offset c) (bytes32 (v % 2 ^ 28)) j
            (omega (arith, room c, size))
          ∙ ground (arith, a))

      same_sector :
          fat_sector g c ≡ fat_sector g c'
          → fat_next_cluster ops g c' d'
            ≡ (if c == c' then v % 2 ^ 28 else fat_next_cluster ops g c' d)
      same_sector e = elim (Bool-cases (c == c')) [
        | inl y ↦
            let eq : c ≡ c' = ground arith in
            rw (y, ← eq)
              (next_read g c d' back
                ∙ rw
                    (read32-write_bytes buf (entry_offset c) (v % 2 ^ 28)
                      (omega (arith, room c, size)) (omega arith))
                    (omega arith))
        | inr n ↦ rw n (
            next_read g c' d' (rw e at back)
            ∙ rw (kept (apart g c c' h h' (ground arith) e)) (sym (next_read g c' d (rw e at r))))
      ]

  -- A cluster whose entry is 0, behind clusters from `start` on whose entries are not.
  pub record FirstFree (g : Volume) (start : ℕ) (d : Disk) (c : ℕ) : Type 0 where
    pub from : start ≤ c
    pub unused : fat_next_cluster ops g c d ≡ 0
    pub before : (k : ℕ) → start ≤ k → k < c → fat_next_cluster ops g k d ≢ 0

  scan_none :
      (left : ℕ) (g : Volume) (c : ℕ) (d : Disk)
      → read (fat_sector g c) d ≡ none
      → scan_free ops (suc left) g c d ≡ 0
  unfolding scan_free
  scan_none left g c d h = rw (scan_free, h) refl

  -- One round of the search, on a sector that can be read.
  scan_round :
      (left : ℕ) (g : Volume) (c : ℕ) (d : Disk) {buf : List ℕ}
      → read (fat_sector g c) d ≡ some buf
      → scan_free ops (suc left) g c d
        ≡ (if fat_next_cluster ops g c d == 0 then c else scan_free ops left g (c + 1) d)
  unfolding scan_free
  scan_round left g c d {buf} h =
      rw (scan_free, h, next_read g c d h)
        (elim (Bool-cases (read32 buf (entry_offset c) % 2 ^ 28 == 0)) [
          | inl e ↦ rw e refl
          | inr e ↦ rw e refl
        ])

  free_here : (g : Volume) (c : ℕ) (d : Disk) → fat_next_cluster ops g c d ≡ 0 → FirstFree g c d c
  free_here g c d h = record {
    from = omega arith;
    unused = h;
    before = λ k lo hi. absurd (omega arith);
  }

  free_later :
      (g : Volume) (c found : ℕ) (d : Disk)
      → fat_next_cluster ops g c d ≢ 0
      → FirstFree g (c + 1) d found
      → FirstFree g c d found
  free_later g c found d used rest = record {
    from = omega (arith, rest.from);
    unused = rest.unused;
    before = λ k lo hi. elim (Bool-cases (k == c)) [
      | inl e ↦ let eq : k ≡ c = ground arith in rw eq used
      | inr ne ↦ rest.before k (ground arith) hi
    ];
  }

  scan_free-FirstFree :
      (left : ℕ) (g : Volume) (start : ℕ) (d : Disk)
      → scan_free ops left g start d ≢ 0
      → FirstFree g start d (scan_free ops left g start d)
        × (scan_free ops left g start d < start + left)
  unfolding scan_free
  scan_free-FirstFree zero g start d h = absurd (h refl)
  scan_free-FirstFree (suc left) g start d h = elim (Option-cases (read (fat_sector g start) d)) [
    | inl unread ↦ absurd (h (scan_none left g start d unread))
    | inr (buf, e) ↦
        let round = scan_round left g start d e in
        elim (Bool-cases (fat_next_cluster ops g start d == 0)) [
          | inl z ↦
              let eq : scan_free ops (suc left) g start d ≡ start = round ∙ rw z refl in
              subst (λ c. FirstFree g start d c × (c < start + suc left)) (sym eq)
                (free_here g start d (ground arith), omega arith)
          | inr nz ↦
              let eq : scan_free ops (suc left) g start d ≡ scan_free ops left g (start + 1) d =
                round ∙ rw nz refl in
              let rest = scan_free-FirstFree left g (start + 1) d (λ z. h (eq ∙ z)) in
              subst (λ c. FirstFree g start d c × (c < start + suc left)) (sym eq)
                (free_later g start _ d (ground arith) rest.0, omega (arith, rest.1))
        ]
  ]

  -- Where `fat32_find_free_cluster` returns a cluster and not 0, that cluster is between 2 and
  -- 0x0FFFFFF8, its entry in the table is 0, and the entries of the clusters from 2 up to it are
  -- not.
  pub find_free_cluster-FirstFree :
      (g : Volume) (d : Disk)
      → fat32_find_free_cluster ops g d ≢ 0
      → FirstFree g 2 d (fat32_find_free_cluster ops g d)
        × (fat32_find_free_cluster ops g d < end_of_chain)
  unfolding fat32_find_free_cluster
  find_free_cluster-FirstFree g d h =
      let r = scan_free-FirstFree (end_of_chain - 2) g 2 d h in (r.0, omega (arith, r.1))
