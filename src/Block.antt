-- ===== src/Block.antt =====
-- The disk under kernel/fat32.c: the operations `ata_read_sector` and `ata_write_sector` of
-- kernel/ata.c as FAT32 sees them, an interface that the file system takes as a parameter.
use prajna_os.Base.{ℕ, ◌≡◌, ◌≢◌, List, Option, some, length}

-- `read` is none where `ata_read_sector` returns 1. `write` is none where `ata_write_sector`
-- returns 1, which it does before it has sent any data.
pub record DiskOps : Type 1 where
  pub Disk : Type 0
  pub read : ℕ → Disk → Option (List ℕ)
  pub write : ℕ → List ℕ → Disk → Option Disk

-- A sector has 512 bytes; a sector that was written reads back and the others keep theirs.
pub record IsDisk (ops : DiskOps) : Type 0 where
  pub size : {lba : ℕ} {d : ops.Disk} {buf : List ℕ} → ops.read lba d ≡ some buf → length buf ≡ 512
  pub read_written :
      {lba : ℕ} {buf : List ℕ} {d d' : ops.Disk}
      → length buf ≡ 512
      → ops.write lba buf d ≡ some d'
      → ops.read lba d' ≡ some buf
  pub read_other :
      {lba other : ℕ} {buf : List ℕ} {d d' : ops.Disk}
      → lba ≢ other
      → ops.write lba buf d ≡ some d'
      → ops.read other d' ≡ ops.read other d
