-- ===== src/Examples/Disks.antt =====
-- A disk with a FAT32 partition.
use prajna_os.Base.{◌+◌, ◌*◌, ◌≡◌, refl, arith, length, [], ◌∷◌, some, replicate, u32}
use prajna_os.Fat.{Fat32Boot, fat32_init}
use prajna_os.Fat.Mount.{sector_bytes, IsBoot, fat32_init-sector_bytes}
use prajna_os.Examples.Files.{Sectors, blank, put, fetch, ram, volume}

abbrev boot : Fat32Boot
boot = record {
  jump = 0xEB ∷ 0x58 ∷ 0x90 ∷ [];
  oem = replicate 8 b' ';
  bytes_per_sector = 512;
  sectors_per_cluster = 8;
  reserved_sectors = 32;
  fat_count = 2;
  root_entry_count = 0;
  total_sectors_16 = 0;
  media_type = 0xF8;
  fat_size_16 = 0;
  sectors_per_track = 63;
  head_count = 16;
  hidden_sectors = 2048;
  total_sectors_32 = 129024;
  fat_size_32 = 1000;
  flags = 0;
  version = 0;
  root_cluster = 2;
  fs_info_sector = 1;
}

boot-IsBoot : IsBoot boot (replicate 460 0)
boot-IsBoot = record {
  jump = refl;
  oem = refl;
  reserved_sectors = omega arith;
  fat_size_32 = omega arith;
  root_cluster = omega arith;
  behind_size = refl;
}

sector_size : length (sector_bytes boot (replicate 460 0)) ≡ 512
unfolding sector_bytes
sector_size = refl

abbrev partitioned : Sectors
partitioned = put 2048 (sector_bytes boot (replicate 460 0)) sector_size blank

boot_read : ram.read 2048 partitioned ≡ some (sector_bytes boot (replicate 460 0))
unfolding fetch
boot_read = refl

fat32_init-sector_bytes_example : fat32_init ram 2048 volume partitioned ≡ (
  0,
  record {
    sectors_per_cluster = 8;
    root_cluster = 2;
    fat_start_lba = u32 (2048 + 32);
    data_start_lba = u32 (u32 (2048 + 32) + 2 * 1000);
    current_cluster = 2;
    previous_cluster = 2;
  },
)
fat32_init-sector_bytes_example =
    fat32_init-sector_bytes ram 2048 volume partitioned boot (replicate 460 0) boot-IsBoot boot_read
