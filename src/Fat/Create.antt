-- ===== src/Fat/Create.antt =====
-- kernel/fat32.c: `fat32_create_file`, and `fat32_find_file` after it.
use prajna_os.Base.{
  ℕ, zero, suc, ◌+◌, ◌*◌, ◌<◌, ◌≡◌, ◌≢◌, refl, arith, ap, ◌∙◌, List, none, some, true, ◌==◌, ltb,
  if◌then◌else◌, length, get_or, Bool-cases, Option-cases, inl, inr, u32,
}
use prajna_os.Block.{DiskOps, IsDisk}
use prajna_os.Fat.{
  Volume, end_of_chain, last_mark, write_bytes, cluster_to_lba, try_write, fat_set_cluster,
  fat32_find_free_cluster,
}
use prajna_os.Fat.Names.{name_match, new_entry}
use prajna_os.Fat.Dir.{
  Found, found, Visit, over, free_slot, file_entries, walk_sectors, walk_chain, or_return,
  fat32_find_file, fat32_create_file,
}
use prajna_os.Fat.Table.{length-write_bytes, get_or-write_bytes}
use prajna_os.Fat.Lookup.{
  name_match-new_entry, attributes-new_entry, length-new_entry, first-new_entry,
}
use prajna_os.Fat.Slots.{
  get_or-entry_at, entry_at-write_bytes, free_slot_first, Hit, file_entries-Hit,
}

-- The sector after the new entry is in its slot: the search finds the name in it.
written-Hit :
    (buf name ext : List ℕ) (i cluster sector : ℕ)
    → length buf ≡ 512
    → free_slot 16 0 buf ≡ some i
    → get_or name 0 0 ≢ 0xE5
    → Hit name ext sector
        (file_entries 16 0 name ext sector (write_bytes buf (i * 32) (new_entry name ext cluster)))
written-Hit buf name ext i cluster sector size slot ok =
    let first = free_slot_first 16 0 buf i slot in
    let low : i < 16 = omega (arith, first.1) in
    let len = length-new_entry name ext cluster in
    let new = new_entry name ext cluster in
    let at = entry_at-write_bytes buf i new size low len in
    file_entries-Hit name ext sector (write_bytes buf (i * 32) new) i 16 0 (omega arith) low
      (record {
        marked = rw at (first-new_entry name ext cluster ok);
        plain = rw at (attributes-new_entry name ext cluster);
        named = rw at (name_match-new_entry name ext cluster);
        reached = λ j lt.
            rw
              (
                get_or-entry_at _ j 0 (omega arith),
                get_or-write_bytes buf (i * 32) new (j * 32 + 0) (omega arith),
              )
              (ground (arith, first.2 j (omega arith) lt));
      })

module _ (ops : DiskOps) where
  open ops use {Disk, read, write}

  -- Every write of a sector succeeds.
  abbrev pub Writable : Type 0
  Writable =
      (lba : ℕ) (buf : List ℕ) (d : Disk)
      → length buf ≡ 512
      → (d' : Disk) × (write lba buf d ≡ some d')

  tried :
      Writable
      → (lba : ℕ) (buf : List ℕ) (d : Disk) → length buf ≡ 512
      → write lba buf d ≡ some (try_write ops lba buf d)
  unfolding try_write
  tried ok lba buf d size = let (d', w) = ok lba buf d size in rw (try_write, w) refl

  create_unread :
      (g : Volume) (name ext : List ℕ) (d : Disk)
      → read (cluster_to_lba g g.current_cluster) d ≡ none
      → fat32_create_file ops g name ext d ≡ (1, d)
  unfolding fat32_create_file
  create_unread g name ext d r = rw (fat32_create_file, r) refl

  create_full :
      (g : Volume) (name ext : List ℕ) (d : Disk) {buf : List ℕ}
      → read (cluster_to_lba g g.current_cluster) d ≡ some buf
      → free_slot 16 0 buf ≡ none
      → fat32_create_file ops g name ext d ≡ (3, d)
  unfolding fat32_create_file
  create_full g name ext d r f = rw (fat32_create_file, r, f) refl

  create_slot :
      (g : Volume) (name ext : List ℕ) (d : Disk) {buf : List ℕ} {i : ℕ}
      → read (cluster_to_lba g g.current_cluster) d ≡ some buf
      → free_slot 16 0 buf ≡ some i
      → let c = fat32_find_free_cluster ops g d in
        fat32_create_file ops g name ext d ≡ (
          if c == 0 then (2, d) else (
            0,
            try_write ops
                (cluster_to_lba g g.current_cluster)
                (write_bytes buf (i * 32) (new_entry name ext c))
                (fat_set_cluster ops g c last_mark d),
          ))
  unfolding fat32_create_file
  create_slot g name ext d r f = rw (fat32_create_file, r, f) refl

  -- A call that returned 0 has put the new entry into the first free slot of the first sector.
  record Created (g : Volume) (name ext : List ℕ) (d : Disk) : Type 0 where
    buf : List ℕ
    slot : ℕ
    cluster : ℕ
    before : Disk
    was : read (cluster_to_lba g g.current_cluster) d ≡ some buf
    free : free_slot 16 0 buf ≡ some slot
    result : fat32_create_file ops g name ext d ≡ (
      0,
      try_write ops
          (cluster_to_lba g g.current_cluster)
          (write_bytes buf (slot * 32) (new_entry name ext cluster))
          before,
    )

  created :
      (g : Volume) (name ext : List ℕ) (d : Disk)
      → (fat32_create_file ops g name ext d).0 ≡ 0
      → Created g name ext d
  created g name ext d h = elim (Option-cases (read (cluster_to_lba g g.current_cluster) d)) [
    | inl n ↦ absurd (omega (arith, rw (create_unread g name ext d n) at h))
    | inr (buf, r) ↦ elim (Option-cases (free_slot 16 0 buf)) [
      | inl n ↦ absurd (omega (arith, rw (create_full g name ext d r n) at h))
      | inr (i, f) ↦
          let e = create_slot g name ext d r f in
          elim (Bool-cases (fat32_find_free_cluster ops g d == 0)) [
            | inl z ↦ absurd (omega (arith, rw (e, z) at h))
            | inr nz ↦ record {
              buf = buf;
              slot = i;
              cluster = fat32_find_free_cluster ops g d;
              before = fat_set_cluster ops g (fat32_find_free_cluster ops g d) last_mark d;
              was = r;
              free = f;
              result = e ∙ rw nz refl;
            }
          ]
    ]
  ]

  sectors_over :
      (n lba : ℕ) (visit : ℕ → List ℕ → Visit) (d : Disk) (buf : List ℕ) (r : Found)
      → 0 < n
      → u32 lba ≡ lba
      → read lba d ≡ some buf
      → visit lba buf ≡ over r
      → walk_sectors ops n lba visit d ≡ over r
  unfolding walk_sectors
  sectors_over zero lba visit d buf r pos e h v = absurd (omega arith)
  sectors_over (suc n) lba visit d buf r pos e h v = rw (walk_sectors, e, h, e, v) refl

  chain_over :
      (fuel : ℕ) (g : Volume) (cluster : ℕ) (visit : ℕ → List ℕ → Visit) (d : Disk) (r : Found)
      → cluster < end_of_chain
      → walk_sectors ops g.sectors_per_cluster (cluster_to_lba g cluster) visit d ≡ over r
      → walk_chain ops (suc fuel) g cluster visit d ≡ some (over r)
  unfolding walk_chain
  chain_over fuel g cluster visit d r c h =
      let e : ltb cluster end_of_chain ≡ true = ground arith in rw (walk_chain, e, h) refl

  is_u32 : (g : Volume) (cluster : ℕ) → u32 (cluster_to_lba g cluster) ≡ cluster_to_lba g cluster
  unfolding cluster_to_lba
  is_u32 g cluster = omega arith

  -- A hit in the first sector ends the search.
  find_hit :
      (fuel : ℕ) (g : Volume) (name ext : List ℕ) (d : Disk) (buf : List ℕ) (r : Found)
      → g.current_cluster < end_of_chain
      → 0 < g.sectors_per_cluster
      → read (cluster_to_lba g g.current_cluster) d ≡ some buf
      → file_entries 16 0 name ext (cluster_to_lba g g.current_cluster) buf ≡ over r
      → fat32_find_file ops (suc fuel) g name ext d ≡ some r
  unfolding fat32_find_file
  find_hit fuel g name ext d buf r c spc h v =
      let lba = cluster_to_lba g g.current_cluster in
      let s =
        sectors_over g.sectors_per_cluster lba (file_entries 16 0 name ext) d buf r spc
          (is_u32 g g.current_cluster) h v in
      ap (or_return ops 1)
        (chain_over fuel g g.current_cluster (file_entries 16 0 name ext) d r c s)

  -- On a disk with 512-byte sectors that takes every write, with the current directory at a cluster
  -- below 0x0FFFFFF8 and at least one sector per cluster: where `fat32_create_file` returns 0 for a
  -- name that does not start with the byte 0xE5, `fat32_find_file` with the same name and extension
  -- then ends in its first round and gives an entry of the directory's first sector that
  -- `name_match` accepts.
  pub fat32_find_file-fat32_create_file :
      IsDisk ops
      → Writable
      → (fuel : ℕ) (g : Volume) (name ext : List ℕ) (d : Disk) → g.current_cluster < end_of_chain
      → 0 < g.sectors_per_cluster
      → get_or name 0 0 ≢ 0xE5
      → (fat32_create_file ops g name ext d).0 ≡ 0
      → (e : List ℕ) × (o : ℕ) × (fat32_find_file ops
            (suc fuel)
            g
            name
            ext
            (fat32_create_file ops g name ext d).1
          ≡ some (found e (cluster_to_lba g g.current_cluster) o))
        × (name_match e name ext ≡ true)
  unfolding Hit
  fat32_find_file-fat32_create_file disk ok fuel g name ext d c spc first h =
      let m = created g name ext d h in
      let lba = cluster_to_lba g g.current_cluster in
      let buf' = write_bytes m.buf (m.slot * 32) (new_entry name ext m.cluster) in
      let size = disk.size m.was in
      let size' : length buf' ≡ 512 = length-write_bytes m.buf _ _ ∙ size in
      let back = disk.read_written size' (tried ok lba buf' m.before size') in
      let (e, o, hit, same) = written-Hit m.buf name ext m.slot m.cluster lba size m.free first in
      (e, o, rw m.result (find_hit fuel g name ext _ buf' _ c spc back hit), same)
