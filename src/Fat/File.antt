-- ===== src/Fat/File.antt =====
-- kernel/fat32.c: the contents of files (`fat32_read_file`, `fat32_write_file`).
use prajna_os.Base.{
  ℕ, zero, suc, ◌+◌, ◌-◌, ◌/◌, ◌^◌, List, [], ◌++◌, Option, none, some, true, false, ◌==◌, ltb, leb,
  if◌then◌else◌, take, drop, replicate, u32,
}
use prajna_os.Block.{DiskOps}
use prajna_os.Fat.{
  Volume, end_of_chain, last_mark, bytes16, bytes32, write_bytes, cluster_to_lba, fat_next_cluster,
  fat_set_cluster, fat32_find_free_cluster,
}
use prajna_os.Fat.Names.{first_cluster}

-- A read so far: it goes on with the bytes it has stored, or has returned a code.
pub data Reading : Type 0 where
  more : List ℕ → ℕ → Reading
  returned : ℕ → List ℕ → Reading

-- What follows the sector loop: the next cluster, or the return.
abbrev pub go_on : (List ℕ → ℕ → ℕ × List ℕ) → Reading → ℕ × List ℕ
go_on next (more out written) = next out written
go_on next (returned code out) = (code, out)

-- The chunk in `sector_buf`: the first `chunk` bytes of `data`, then zeros.
unfoldable pub sector_of : List ℕ → ℕ → List ℕ
sector_of data_bytes chunk = take chunk data_bytes ++ replicate (512 - chunk) 0

module _ (ops : DiskOps) where
  open ops use {Disk, read, write}

  -- The sector loop: `out` is what stands in `buf`, `written` is `bytes_written`.
  unfoldable pub read_sectors : ℕ → ℕ → ℕ → List ℕ → ℕ → Disk → Reading
  read_sectors zero sector max_bytes out written d = more out written
  read_sectors (suc left) sector max_bytes out written d = elim (read (u32 sector) d) [
    | none ↦ returned 1 out
    | some b ↦ elim (leb max_bytes (written + 512)) [
      | true ↦ returned 0 (out ++ b)
      | false ↦ read_sectors left (sector + 1) max_bytes (out ++ b) (written + 512) d
    ]
  ]

  -- The cluster loop; its counter `safety` stops it after 129 rounds.
  unfoldable pub read_clusters : ℕ → Volume → ℕ → ℕ → List ℕ → ℕ → Disk → ℕ × List ℕ
  unfolding read_sectors cluster_to_lba fat_next_cluster
  read_clusters zero g cluster max_bytes out written d = (0, out)
  read_clusters (suc left) g cluster max_bytes out written d = elim (ltb cluster end_of_chain) [
    | true ↦
        go_on
          (λ out' written'.
            read_clusters left g (fat_next_cluster ops g cluster d) max_bytes out' written' d)
          (read_sectors g.sectors_per_cluster (cluster_to_lba g cluster) max_bytes out written d)
    | false ↦ (0, out)
  ]

  -- The code, and the bytes that were stored from the start of `buf` on.
  unfoldable pub fat32_read_file : Volume → List ℕ → ℕ → Disk → ℕ × List ℕ
  unfolding read_clusters first_cluster
  fat32_read_file g entry max_bytes d = read_clusters 129 g (first_cluster entry) max_bytes [] 0 d

  -- After the first chunk of a longer file: the chain is followed, and extended where `cluster` is
  -- an end mark.
  unfoldable pub next_chunk : Volume → ℕ → Disk → ℕ × Disk
  unfolding fat32_find_free_cluster fat_set_cluster
  next_chunk g cluster d =
      if ltb cluster end_of_chain
      then (0, d)
      else let next = fat32_find_free_cluster ops g d in
        if next == 0
        then (3, d)
        else (0, fat_set_cluster ops g next last_mark (fat_set_cluster ops g cluster next d))

  -- The body of `while (bytes_written < size)`, which returns in its first round.
  unfoldable pub write_chunk : Volume → ℕ → List ℕ → ℕ → Disk → ℕ × Disk
  unfolding cluster_to_lba sector_of next_chunk
  write_chunk g cluster data_bytes size d =
      let chunk = if ltb size 512 then size else 512 in
      elim (write (cluster_to_lba g cluster) (sector_of data_bytes chunk) d) [
        | none ↦ (2, d)
        | some d' ↦ if ltb chunk size then next_chunk g cluster d' else (0, d')
      ]

  -- What follows the loop: the entry's size and cluster in the directory.
  unfoldable pub update_entry : ℕ → ℕ → List ℕ → ℕ → Disk → ℕ × Disk
  unfolding write_bytes
  update_entry dir_sector dir_offset entry size d = elim (read dir_sector d) [
    | none ↦ (3, d)
    | some b ↦
        let b1 = write_bytes b (dir_offset + 28) (bytes32 size) in
        let b2 = write_bytes b1 (dir_offset + 20) (take 2 (drop 20 entry)) in
        let b3 = write_bytes b2 (dir_offset + 26) (take 2 (drop 26 entry)) in
        elim (write dir_sector b3 d) [ none ↦ (4, d) | some d' ↦ (0, d') ]
  ]

  -- The entry with a cluster: a free one is taken where it has none. None where the disk is full.
  unfoldable pub with_cluster : Volume → List ℕ → Disk → Option (ℕ × List ℕ × Disk)
  unfolding first_cluster fat32_find_free_cluster fat_set_cluster write_bytes
  with_cluster g entry d =
      if first_cluster entry == 0
      then (let cluster = fat32_find_free_cluster ops g d in
          if cluster == 0
          then none
          else some (
            cluster,
            write_bytes (write_bytes entry 20 (bytes16 (cluster / 2 ^ 16))) 26 (bytes16 cluster),
            fat_set_cluster ops g cluster last_mark d,
          ))
      else some (first_cluster entry, entry, d)

  -- The code, `*entry` and the disk.
  unfoldable pub fat32_write_file : Volume → List ℕ → ℕ → ℕ → List ℕ → ℕ → Disk → ℕ × List ℕ × Disk
  unfolding with_cluster write_chunk update_entry write_bytes
  fat32_write_file g entry dir_sector dir_offset data_bytes size d = elim (with_cluster g entry d) [
    | none ↦ (1, entry, d)
    | some (cluster, entry', d1) ↦
        if ltb 0 size
        then (let (code, d2) = write_chunk g cluster data_bytes size d1 in (code, entry', d2))
        else let entry'' = write_bytes entry' 28 (bytes32 size) in
          let (code, d2) = update_entry dir_sector dir_offset entry'' size d1 in (code, entry'', d2)
  ]
