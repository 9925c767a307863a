-- ===== src/Fat/Mount.antt =====
-- kernel/fat32.c and kernel/include/fat32.h, `fat32_init`: what a boot sector says and what is read from it.
use prajna_os.Base.{
  ℕ, ◌+◌, ◌*◌, ◌^◌, ◌<◌, ◌≡◌, refl, arith, ◌∙◌, List, [], ◌∷◌, ◌++◌, some, length, get_or, u32,
}
use prajna_os.Block.{DiskOps}
use prajna_os.Fat.{Volume, Fat32Boot, read16, read32, boot_sector, bytes16, bytes32, fat32_init}
use prajna_os.Fat.Lookup.{get_or-append_past}

-- The fields from `bytes_per_sector` on.
abbrev fields : Fat32Boot → List ℕ → List ℕ
fields b rest =
    bytes16 b.bytes_per_sector
    ++ b.sectors_per_cluster ∷ bytes16 b.reserved_sectors
    ++ b.fat_count ∷ bytes16 b.root_entry_count
    ++ bytes16 b.total_sectors_16
    ++ b.media_type ∷ bytes16 b.fat_size_16
    ++ bytes16 b.sectors_per_track
    ++ bytes16 b.head_count
    ++ bytes32 b.hidden_sectors
    ++ bytes32 b.total_sectors_32
    ++ bytes32 b.fat_size_32
    ++ bytes16 b.flags
    ++ bytes16 b.version
    ++ bytes32 b.root_cluster
    ++ bytes16 b.fs_info_sector
    ++ rest

-- The sector of a boot record: its fields in the order of the structure, what stands behind them, and
-- the signature.
unfoldable pub sector_bytes : Fat32Boot → List ℕ → List ℕ
sector_bytes b rest = b.jump ++ (b.oem ++ fields b (rest ++ (0x55 ∷ 0xAA ∷ [])))

-- The fields fit the bytes that they have.
pub record IsBoot (b : Fat32Boot) (behind : List ℕ) : Type 0 where
  pub jump : length b.jump ≡ 3
  pub oem : length b.oem ≡ 8
  pub reserved_sectors : b.reserved_sectors < 2 ^ 16
  pub fat_size_32 : b.fat_size_32 < 2 ^ 32
  pub root_cluster : b.root_cluster < 2 ^ 32
  pub behind_size : length behind ≡ 460

byte_at :
    (b : Fat32Boot) (rest : List ℕ) (k : ℕ)
    → IsBoot b rest
    → get_or (sector_bytes b rest) (3 + (8 + k)) 0
      ≡ get_or (fields b (rest ++ (0x55 ∷ 0xAA ∷ []))) k 0
unfolding sector_bytes
byte_at b rest k v =
    let tail : List ℕ = fields b (rest ++ (0x55 ∷ 0xAA ∷ [])) in
    get_or-append_past 3 b.jump (b.oem ++ tail) (8 + k) v.jump
    ∙ get_or-append_past 8 b.oem tail k v.oem

signature_at :
    (b : Fat32Boot) (rest : List ℕ)
    → IsBoot b rest
    → (get_or (sector_bytes b rest) 510 0 ≡ 0x55) × (get_or (sector_bytes b rest) 511 0 ≡ 0xAA)
signature_at b rest v = (
  byte_at b rest 499 v ∙ get_or-append_past 460 rest (0x55 ∷ 0xAA ∷ []) 0 v.behind_size,
  byte_at b rest 500 v ∙ get_or-append_past 460 rest (0x55 ∷ 0xAA ∷ []) 1 v.behind_size,
)

-- The fields that `fat32_init` uses come back.
boot_sector-sector_bytes :
    (b : Fat32Boot) (rest : List ℕ)
    → IsBoot b rest
    → let b' = boot_sector (sector_bytes b rest) in
      (b'.sectors_per_cluster ≡ b.sectors_per_cluster)
      × (b'.reserved_sectors ≡ b.reserved_sectors)
      × (b'.fat_count ≡ b.fat_count)
      × (b'.fat_size_32 ≡ b.fat_size_32)
      × (b'.root_cluster ≡ b.root_cluster)
unfolding boot_sector read16 read32
boot_sector-sector_bytes b rest v = (
  byte_at b rest 2 v,
  omega (arith, v.reserved_sectors, byte_at b rest 3 v, byte_at b rest 4 v),
  byte_at b rest 5 v,
  omega (
    arith,
    v.fat_size_32,
    byte_at b rest 25 v,
    byte_at b rest 26 v,
    byte_at b rest 27 v,
    byte_at b rest 28 v,
  ),
  omega (
    arith,
    v.root_cluster,
    byte_at b rest 33 v,
    byte_at b rest 34 v,
    byte_at b rest 35 v,
    byte_at b rest 36 v,
  ),
)

module _ (ops : DiskOps) where
  -- On a disk that reads a boot sector with the fields of `FAT32_Boot` in their order, the ones
  -- used in the widths of their types, 460 bytes behind them and the signature: `fat32_init`
  -- returns 0 and has the sectors per cluster and the root directory of that record as the current
  -- one, and the table and the data where the record puts them, modulo 2^32.
  pub fat32_init-sector_bytes :
      (partition_lba : ℕ) (g : Volume) (d : ops.Disk) (b : Fat32Boot) (rest : List ℕ)
      → IsBoot b rest
      → ops.read partition_lba d ≡ some (sector_bytes b rest)
      → let fat_start = u32 (partition_lba + b.reserved_sectors) in
        fat32_init ops partition_lba g d ≡ (
          0,
          record {
            sectors_per_cluster = b.sectors_per_cluster;
            root_cluster = b.root_cluster;
            fat_start_lba = fat_start;
            data_start_lba = u32 (fat_start + b.fat_count * b.fat_size_32);
            current_cluster = b.root_cluster;
            previous_cluster = b.root_cluster;
          },
        )
  unfolding fat32_init
  fat32_init-sector_bytes partition_lba g d b rest v e =
      let (s0, s1) = signature_at b rest v in
      let (f0, f1, f2, f3, f4) = boot_sector-sector_bytes b rest v in
      rw (fat32_init, e, s0, s1, f0, f1, f2, f3, f4) refl
