-- ===== src/Fat.antt =====
-- kernel/fat32.c and kernel/include/fat32.h: the volume and its allocation table. The disk is a
-- parameter (Block); directories and files are in the modules below.
pub mod Names
pub mod Dir
pub mod File
pub mod Table
pub mod Content
pub mod Lookup
pub mod Slots
pub mod Create
pub mod Listing
pub mod Mount
use prajna_os.Base.{
  ℕ, zero, suc, ◌+◌, ◌-◌, ◌*◌, ◌/◌, ◌%◌, ◌^◌, List, [], ◌∷◌, ◌++◌, Option, none, some, Bool, true,
  false, not, ◌&&◌, ◌||◌, ◌==◌, if◌then◌else◌, get_or, set, take, drop, u32, sub32,
}
use prajna_os.Block.{DiskOps}

-- The globals of `fat32.c`.
pub record Volume : Type 0 where
  pub fat_start_lba : ℕ
  pub data_start_lba : ℕ
  pub root_cluster : ℕ
  pub sectors_per_cluster : ℕ
  pub current_cluster : ℕ
  pub previous_cluster : ℕ

abbrev pub end_of_chain : ℕ
end_of_chain = 0x0FFFFFF8

abbrev pub last_mark : ℕ
last_mark = 0x0FFFFFFF

-- Little-endian fields of a packed structure in a buffer.
unfoldable pub read16 : List ℕ → ℕ → ℕ
read16 buf o = get_or buf o 0 + get_or buf (o + 1) 0 * 2 ^ 8

unfoldable pub read32 : List ℕ → ℕ → ℕ
read32 buf o =
    get_or buf o 0
    + get_or buf (o + 1) 0 * 2 ^ 8
    + get_or buf (o + 2) 0 * 2 ^ 16
    + get_or buf (o + 3) 0 * 2 ^ 24

-- `FAT32_Boot`, without its padding.
pub record Fat32Boot : Type 0 where
  pub jump : List ℕ
  pub oem : List ℕ
  pub bytes_per_sector : ℕ
  pub sectors_per_cluster : ℕ
  pub reserved_sectors : ℕ
  pub fat_count : ℕ
  pub root_entry_count : ℕ
  pub total_sectors_16 : ℕ
  pub media_type : ℕ
  pub fat_size_16 : ℕ
  pub sectors_per_track : ℕ
  pub head_count : ℕ
  pub hidden_sectors : ℕ
  pub total_sectors_32 : ℕ
  pub fat_size_32 : ℕ
  pub flags : ℕ
  pub version : ℕ
  pub root_cluster : ℕ
  pub fs_info_sector : ℕ

-- `(FAT32_Boot*)buf`: the fields of the packed structure one behind the other.
unfoldable pub boot_sector : List ℕ → Fat32Boot
boot_sector buf = record {
  jump = take 3 buf;
  oem = take 8 (drop 3 buf);
  bytes_per_sector = read16 buf 11;
  sectors_per_cluster = get_or buf 13 0;
  reserved_sectors = read16 buf 14;
  fat_count = get_or buf 16 0;
  root_entry_count = read16 buf 17;
  total_sectors_16 = read16 buf 19;
  media_type = get_or buf 21 0;
  fat_size_16 = read16 buf 22;
  sectors_per_track = read16 buf 24;
  head_count = read16 buf 26;
  hidden_sectors = read32 buf 28;
  total_sectors_32 = read32 buf 32;
  fat_size_32 = read32 buf 36;
  flags = read16 buf 40;
  version = read16 buf 42;
  root_cluster = read32 buf 44;
  fs_info_sector = read16 buf 48;
}

-- Stores the bytes from offset `o` on.
unfoldable pub write_bytes : List ℕ → ℕ → List ℕ → List ℕ
write_bytes buf o [] = buf
write_bytes buf o (b ∷ bytes) = write_bytes (set buf o b) (o + 1) bytes

abbrev pub bytes16 : ℕ → List ℕ
bytes16 v = v % 2 ^ 8 ∷ v / 2 ^ 8 % 2 ^ 8 ∷ []

abbrev pub bytes32 : ℕ → List ℕ
bytes32 v = v % 2 ^ 8 ∷ v / 2 ^ 8 % 2 ^ 8 ∷ v / 2 ^ 16 % 2 ^ 8 ∷ v / 2 ^ 24 % 2 ^ 8 ∷ []

unfoldable pub cluster_to_lba : Volume → ℕ → ℕ
cluster_to_lba g cluster = u32 (g.data_start_lba + sub32 cluster 2 * g.sectors_per_cluster)

-- The sector of the table with the entry of a cluster, and the entry's offset there.
unfoldable pub fat_sector : Volume → ℕ → ℕ
fat_sector g cluster = u32 (g.fat_start_lba + u32 (cluster * 4) / 512)

unfoldable pub entry_offset : ℕ → ℕ
entry_offset cluster = u32 (cluster * 4) % 512

module _ (ops : DiskOps) where
  open ops use {Disk, read, write}

  -- `& 0x0FFFFFFF` keeps the low 28 bits.
  unfoldable pub fat_next_cluster : Volume → ℕ → Disk → ℕ
  unfolding fat_sector entry_offset read32
  fat_next_cluster g cluster d = elim (read (fat_sector g cluster) d) [
    | none ↦ last_mark
    | some buf ↦ read32 buf (entry_offset cluster) % 2 ^ 28
  ]

  -- A call of `ata_write_sector` whose result is thrown away.
  unfoldable pub try_write : ℕ → List ℕ → Disk → Disk
  try_write lba buf d = elim (write lba buf d) [ none ↦ d | some d' ↦ d' ]

  unfoldable pub fat_set_cluster : Volume → ℕ → ℕ → Disk → Disk
  unfolding fat_sector entry_offset write_bytes try_write
  fat_set_cluster g cluster value d = elim (read (fat_sector g cluster) d) [
    | none ↦ d
    | some buf ↦
        try_write (fat_sector g cluster)
          (write_bytes buf (entry_offset cluster) (bytes32 (value % 2 ^ 28))) d
  ]

  -- The loop of `fat32_find_free_cluster` with `left` clusters to go; 0 where there is none, or a
  -- sector of the table cannot be read.
  unfoldable pub scan_free : ℕ → Volume → ℕ → Disk → ℕ
  unfolding fat_sector entry_offset read32
  scan_free zero g cluster d = 0
  scan_free (suc left) g cluster d = elim (read (fat_sector g cluster) d) [
    | none ↦ 0
    | some buf ↦ elim (read32 buf (entry_offset cluster) % 2 ^ 28 == 0) [
      | true ↦ cluster
      | false ↦ scan_free left g (cluster + 1) d
    ]
  ]

  unfoldable pub fat32_find_free_cluster : Volume → Disk → ℕ
  unfolding scan_free
  fat32_find_free_cluster g d = scan_free (end_of_chain - 2) g 2 d

  -- The code `fat32_init` returns and the globals it leaves.
  unfoldable pub fat32_init : ℕ → Volume → Disk → ℕ × Volume
  fat32_init partition_lba g d = elim (read partition_lba d) [
    | none ↦ (1, g)
    | some buf ↦
        if not (get_or buf 510 0 == 0x55) || not (get_or buf 511 0 == 0xAA)
        then (2, g)
        else let boot = boot_sector buf in
          let fat_start = u32 (partition_lba + boot.reserved_sectors) in
          (
            0,
            record {
              sectors_per_cluster = boot.sectors_per_cluster;
              root_cluster = boot.root_cluster;
              fat_start_lba = fat_start;
              data_start_lba = u32 (fat_start + boot.fat_count * boot.fat_size_32);
              current_cluster = boot.root_cluster;
              previous_cluster = boot.root_cluster;
            },
          )
  ]
