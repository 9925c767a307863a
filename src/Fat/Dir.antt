-- ===== src/Fat/Dir.antt =====
-- kernel/fat32.c: the loops over the directory's clusters, sectors and entries
-- (`fat32_find_file`, `fat32_find_dir`), `fat32_create_file` and `fat32_file_delete`.
use prajna_os.Base.{
  ℕ, zero, suc, ◌+◌, ◌*◌, List, Option, none, some, true, false, not, ◌||◌, ◌==◌, ltb,
  if◌then◌else◌, get_or, set, take, drop, u32,
}
use prajna_os.Block.{DiskOps}
use prajna_os.Fat.{
  Volume, end_of_chain, last_mark, write_bytes, cluster_to_lba, fat_next_cluster, try_write,
  fat_set_cluster, fat32_find_free_cluster,
}
use prajna_os.Fat.Names.{name_match, dir_match, attributes, has_bit, first_cluster, new_entry}

-- How a search ends: the code it returns, or 0 with `*out`, `*out_sector` and `*out_offset`.
pub data Found : Type 0 where
  failed : ℕ → Found
  found : List ℕ → ℕ → ℕ → Found

-- What a stretch of the directory says: go on, the end mark `0x00`, or the search is over.
pub data Visit : Type 0 where
  go_on : Visit
  end_of_dir : Visit
  over : Found → Visit

abbrev pub entry_at : List ℕ → ℕ → List ℕ
entry_at buf i = take 32 (drop (i * 32) buf)

-- The entry loop of `fat32_find_file`, from entry `i`.
unfoldable pub file_entries : ℕ → ℕ → List ℕ → List ℕ → ℕ → List ℕ → Visit
unfolding attributes has_bit name_match
file_entries zero i name ext sector buf = go_on
file_entries (suc left) i name ext sector buf =
    let e = entry_at buf i in
    let rest = file_entries left (i + 1) name ext sector buf in
    if get_or e 0 0 == 0x00
    then end_of_dir
    else if get_or e 0 0 == 0xE5
    then rest
    else if attributes e == 0x0F
    then rest
    else if has_bit 0x10 (attributes e)
    then rest
    else if has_bit 0x08 (attributes e)
    then rest
    else if name_match e name ext
    then over (found e sector (i * 32))
    else rest

-- The entry loop of `fat32_find_dir`; it gives out no sector and no offset.
unfoldable pub dir_entries : ℕ → ℕ → List ℕ → List ℕ → Visit
unfolding attributes has_bit dir_match
dir_entries zero i name buf = go_on
dir_entries (suc left) i name buf =
    let e = entry_at buf i in
    let rest = dir_entries left (i + 1) name buf in
    if get_or e 0 0 == 0x00
    then over (failed 2)
    else if get_or e 0 0 == 0xE5
    then rest
    else if attributes e == 0x0F
    then rest
    else if not (has_bit 0x10 (attributes e))
    then rest
    else if dir_match 8 0 e name
    then over (found e 0 0)
    else rest

-- `for (i = 0; i < 16; i++)` of `fat32_create_file` up to the first free entry.
unfoldable pub free_slot : ℕ → ℕ → List ℕ → Option ℕ
free_slot zero i buf = none
free_slot (suc left) i buf =
    let rest = free_slot left (i + 1) buf in
    if (get_or buf (i * 32) 0 == 0x00) || (get_or buf (i * 32) 0 == 0xE5) then some i else rest

module _ (ops : DiskOps) where
  open ops use {Disk, read, write}

  -- The sector loop of a search in one cluster; `visit` is its entry loop.
  unfoldable pub walk_sectors : ℕ → ℕ → (ℕ → List ℕ → Visit) → Disk → Visit
  walk_sectors zero sector visit d = go_on
  walk_sectors (suc left) sector visit d = elim (read (u32 sector) d) [
    | none ↦ over (failed 1)
    | some buf ↦ elim (visit (u32 sector) buf) [
      | go_on ↦ walk_sectors left (sector + 1) visit d
      | end_of_dir ↦ end_of_dir
      | over r ↦ over r
    ]
  ]

  -- The cluster loop; none where `fuel` rounds do not end it, as on a chain with a cycle.
  unfoldable pub walk_chain : ℕ → Volume → ℕ → (ℕ → List ℕ → Visit) → Disk → Option Visit
  unfolding walk_sectors fat_next_cluster cluster_to_lba
  walk_chain zero g cluster visit d = none
  walk_chain (suc fuel) g cluster visit d = elim (ltb cluster end_of_chain) [
    | true ↦ elim (walk_sectors g.sectors_per_cluster (cluster_to_lba g cluster) visit d) [
      | go_on ↦ walk_chain fuel g (fat_next_cluster ops g cluster d) visit d
      | end_of_dir ↦ some end_of_dir
      | over r ↦ some (over r)
    ]
    | false ↦ some go_on
  ]

  -- What follows the loops: `return code`.
  abbrev pub or_return : ℕ → Option Visit → Option Found
  or_return code none = none
  or_return code (some go_on) = some (failed code)
  or_return code (some end_of_dir) = some (failed code)
  or_return code (some (over r)) = some r

  unfoldable pub fat32_find_file : ℕ → Volume → List ℕ → List ℕ → Disk → Option Found
  unfolding walk_chain file_entries
  fat32_find_file fuel g name ext d =
      or_return 1 (walk_chain fuel g g.current_cluster (file_entries 16 0 name ext) d)

  unfoldable pub fat32_find_dir : ℕ → Volume → List ℕ → Disk → Option Found
  unfolding walk_chain dir_entries
  fat32_find_dir fuel g name d =
      or_return 2 (walk_chain fuel g g.current_cluster (λ sector buf. dir_entries 16 0 name buf) d)

  -- The code and the disk. The results of the three writes are not looked at.
  unfoldable pub fat32_create_file : Volume → List ℕ → List ℕ → Disk → ℕ × Disk
  unfolding cluster_to_lba free_slot fat32_find_free_cluster fat_set_cluster try_write write_bytes
      new_entry
  fat32_create_file g name ext d =
      let lba = cluster_to_lba g g.current_cluster in
      elim (read lba d) [
        | none ↦ (1, d)
        | some buf ↦ elim (free_slot 16 0 buf) [
          | none ↦ (3, d)
          | some i ↦
              let cluster = fat32_find_free_cluster ops g d in
              if cluster == 0
              then (2, d)
              else let d' = fat_set_cluster ops g cluster last_mark d in
                (0, try_write ops lba (write_bytes buf (i * 32) (new_entry name ext cluster)) d')
        ]
      ]

  -- The last loop of `fat32_file_delete`; none where `fuel` rounds do not end it.
  unfoldable pub free_chain : ℕ → Volume → ℕ → Disk → Option Disk
  unfolding fat_next_cluster fat_set_cluster
  free_chain zero g cluster d = none
  free_chain (suc fuel) g cluster d = elim (ltb cluster end_of_chain) [
    | true ↦
        free_chain fuel g (fat_next_cluster ops g cluster d) (fat_set_cluster ops g cluster 0 d)
    | false ↦ some d
  ]

  -- `-1`, `-2` and `-3` are returned as a `uint8_t`.
  unfoldable pub fat32_file_delete : ℕ → Volume → List ℕ → List ℕ → Disk → Option (ℕ × Disk)
  unfolding fat32_find_file free_chain first_cluster
  fat32_file_delete fuel g name ext d = elim (fat32_find_file fuel g name ext d) [
    | none ↦ none
    | some (failed code) ↦ some (255, d)
    | some (found entry dir_sector dir_offset) ↦ elim (read dir_sector d) [
      | none ↦ some (254, d)
      | some buf ↦ elim (write dir_sector (set buf dir_offset 0xE5) d) [
        | none ↦ some (253, d)
        | some d1 ↦ elim (free_chain fuel g (first_cluster entry) d1) [
          | none ↦ none
          | some d2 ↦ some (0, d2)
        ]
      ]
    ]
  ]
