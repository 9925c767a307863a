-- ===== src/Fat/Content.antt =====
-- kernel/fat32.c: the loops of `fat32_read_file`, and `fat32_write_file` before it.
use prajna_os.Base.{
  ℕ, zero, suc, ◌+◌, ◌-◌, ◌≤◌, ◌<◌, ◌≡◌, refl, arith, ◌∙◌, List, [], ◌++◌, some, true, false, ◌==◌,
  ltb, leb, if◌then◌else◌, length, length-append, length-take, length-replicate, Bool-cases,
  Option-cases, inl, inr, u32, take, replicate,
}
use prajna_os.Block.{DiskOps, IsDisk}
use prajna_os.Fat.{Volume, end_of_chain, cluster_to_lba, fat_next_cluster}
use prajna_os.Fat.Names.{first_cluster}
use prajna_os.Fat.File.{
  Reading, more, returned, go_on, read_sectors, read_clusters, fat32_read_file, sector_of,
  next_chunk, write_chunk, with_cluster, fat32_write_file,
}

module _ (ops : DiskOps) where
  open ops use {Disk, read, write}

  -- A loop that goes on has room left, one that returned has stored less than a sector too much.
  Fits : ℕ → Reading → Type 0
  Fits max (more out written) = (length out ≡ written) × (written < max)
  Fits max (returned code out) = length out < max + 512

  read_sectors-Fits :
      IsDisk ops
      → (left sector max : ℕ) (out : List ℕ) (written : ℕ) (d : Disk) → length out ≡ written
      → written < max
      → Fits max (read_sectors ops left sector max out written d)
  unfolding Fits read_sectors
  read_sectors-Fits disk zero sector max out written d e h = (e, h)
  read_sectors-Fits disk (suc left) sector max out written d e h =
      elim (Option-cases (read (u32 sector) d)) [
        | inl n ↦ rw (read_sectors, n) (omega arith)
        | inr (b, r) ↦
            let stored : length (out ++ b) ≡ written + 512 =
              omega (arith, length-append out b, disk.size r) in
            elim (Bool-cases (leb max (written + 512))) [
              | inl full ↦ rw (read_sectors, r, full) (omega arith)
              | inr room ↦
                  rw (read_sectors, r, room)
                    (read_sectors-Fits disk left (sector + 1) max (out ++ b) (written + 512) d
                      stored (ground arith))
            ]
      ]

  go_on_bound :
      (max : ℕ) (next : List ℕ → ℕ → ℕ × List ℕ) (r : Reading)
      → Fits max r
      → ((out : List ℕ) (written : ℕ)
          → length out ≡ written
          → written < max
          → length (next out written).1 < max + 512)
      → length (go_on next r).1 < max + 512
  unfolding Fits
  go_on_bound max next (more out written) fits h = h out written fits.0 fits.1
  go_on_bound max next (returned code out) fits h = fits

  -- One round of the cluster loop.
  read_round :
      (left : ℕ) (g : Volume) (cluster max : ℕ) (out : List ℕ) (written : ℕ) (d : Disk)
      → read_clusters ops (suc left) g cluster max out written d ≡ (
          if ltb cluster end_of_chain
          then go_on
              (λ out' written'.
                read_clusters ops left g (fat_next_cluster ops g cluster d) max out' written' d)
              (read_sectors ops g.sectors_per_cluster (cluster_to_lba g cluster) max out written d)
          else (0, out))
  unfolding read_clusters
  read_round left g cluster max out written d = elim (Bool-cases (ltb cluster end_of_chain)) [
    | inl go ↦ rw (read_clusters, go) refl
    | inr done ↦ rw (read_clusters, done) refl
  ]

  read_clusters_bound :
      IsDisk ops
      → (left : ℕ) (g : Volume) (cluster max : ℕ) (out : List ℕ) (written : ℕ) (d : Disk)
      → length out ≡ written
      → written < max
      → length (read_clusters ops left g cluster max out written d).1 < max + 512
  unfolding read_clusters
  read_clusters_bound disk zero g cluster max out written d e h = omega arith
  read_clusters_bound disk (suc left) g cluster max out written d e h =
      rw (read_round left g cluster max out written d)
        (elim (Bool-cases (ltb cluster end_of_chain)) [
          | inl go ↦ rw go (
              go_on_bound max _
                (read_sectors ops g.sectors_per_cluster (cluster_to_lba g cluster) max out written
                  d)
                (read_sectors-Fits disk g.sectors_per_cluster (cluster_to_lba g cluster) max out
                  written d e h)
                (λ out' written'.
                  read_clusters_bound disk left g (fat_next_cluster ops g cluster d) max out'
                    written' d))
          | inr done ↦ rw done (omega arith)
        ])

  -- On a disk with 512-byte sectors, `fat32_read_file` with `max_bytes` above 0 stores fewer than
  -- `max_bytes + 512` bytes in the buffer, whatever the entry, the chain and the read errors are.
  pub fat32_read_file_bound :
      IsDisk ops
      → (g : Volume) (entry : List ℕ) (max_bytes : ℕ) (d : Disk) → 0 < max_bytes
      → length (fat32_read_file ops g entry max_bytes d).1 < max_bytes + 512
  unfolding fat32_read_file
  fat32_read_file_bound disk g entry max_bytes d h =
      read_clusters_bound disk 129 g (first_cluster entry) max_bytes [] 0 d refl h

  kept_cluster :
      (g : Volume) (entry : List ℕ) (d : Disk)
      → 0 < first_cluster entry
      → with_cluster ops g entry d ≡ some (first_cluster entry, entry, d)
  unfolding with_cluster
  kept_cluster g entry d h =
      let e : (first_cluster entry == 0) ≡ false = ground arith in rw (with_cluster, e) refl

  one_chunk :
      (g : Volume) (cluster : ℕ) (data_bytes : List ℕ) (size : ℕ) (d d' : Disk)
      → cluster < end_of_chain
      → write
          (cluster_to_lba g cluster)
          (sector_of data_bytes (if ltb size 512 then size else 512))
          d
        ≡ some d'
      → write_chunk ops g cluster data_bytes size d ≡ (0, d')
  unfolding write_chunk next_chunk
  one_chunk g cluster data_bytes size d d' h w =
      let e : ltb cluster end_of_chain ≡ true = ground arith in
      rw (write_chunk, w, next_chunk, e)
        (elim (Bool-cases (ltb (if ltb size 512 then size else 512) size)) [
          | inl c ↦ rw c refl
          | inr c ↦ rw c refl
        ])

  length-sector_of :
      (data_bytes : List ℕ) (chunk : ℕ)
      → chunk ≤ length data_bytes
      → chunk ≤ 512
      → length (sector_of data_bytes chunk) ≡ 512
  unfolding sector_of
  length-sector_of data_bytes chunk h k =
      length-append (take chunk data_bytes) (replicate (512 - chunk) 0)
      ∙ omega (arith, length-take chunk data_bytes h, length-replicate {A = ℕ} (512 - chunk) 0)

  one_sector :
      (n : ℕ) (g : Volume) (cluster : ℕ) (d : Disk) (buf : List ℕ)
      → 0 < n
      → read (cluster_to_lba g cluster) d ≡ some buf
      → read_sectors ops n (cluster_to_lba g cluster) 512 [] 0 d ≡ returned 0 buf
  unfolding read_sectors cluster_to_lba
  one_sector zero g cluster d buf pos r = absurd (omega arith)
  one_sector (suc n) g cluster d buf pos r =
      let e : u32 (cluster_to_lba g cluster) ≡ cluster_to_lba g cluster = omega arith in
      rw (read_sectors, e, r) refl

  -- On a disk with 512-byte sectors and at least one sector per cluster, for an entry whose first
  -- cluster is neither 0 nor an end mark, data of at least `size` > 0 bytes, and a first sector of
  -- the cluster that can be written: `fat32_write_file` returns 0 with the entry unchanged after
  -- this one write, of at most the first 512 bytes and zeros behind them, and `fat32_read_file` for
  -- 512 bytes then returns that sector.
  pub fat32_read_file-fat32_write_file :
      IsDisk ops
      → (g : Volume) (entry : List ℕ) (dir_sector dir_offset : ℕ) (data_bytes : List ℕ) (size : ℕ)
        (d d' : Disk)
      → 0 < g.sectors_per_cluster
      → 0 < first_cluster entry
      → first_cluster entry < end_of_chain
      → 0 < size
      → size ≤ length data_bytes
      → let stored = sector_of data_bytes (if ltb size 512 then size else 512) in
        write (cluster_to_lba g (first_cluster entry)) stored d ≡ some d'
        → (fat32_write_file ops g entry dir_sector dir_offset data_bytes size d ≡ (0, entry, d'))
          × (fat32_read_file ops g entry 512 d' ≡ (0, stored))
  unfolding fat32_write_file fat32_read_file
  fat32_read_file-fat32_write_file disk g entry dir_sector dir_offset data_bytes size d d' spc c end
        pos all w =
      let some_size : ltb 0 size ≡ true = ground arith in
      let go : ltb (first_cluster entry) end_of_chain ≡ true = ground arith in
      let full =
        length-sector_of data_bytes (if ltb size 512 then size else 512) (ground arith)
          (ground arith) in
      let back = disk.read_written full w in
      (
        rw
            (
              fat32_write_file,
              kept_cluster g entry d c,
              some_size,
              one_chunk g (first_cluster entry) data_bytes size d d' end w,
            )
            refl,
        read_round 128 g (first_cluster entry) 512 [] 0 d'
            ∙ rw (go, one_sector g.sectors_per_cluster g (first_cluster entry) d' _ spc back) refl,
      )
