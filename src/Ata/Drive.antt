-- ===== src/Ata/Drive.antt =====
-- What kernel/ata.c relies on: a drive behind the ports that answers in time and has no bad sector, in
-- the words of the ATA register protocol.
use prajna_os.Base.{
  ℕ, ◌+◌, ◌*◌, ◌%◌, ◌^◌, ◌<◌, ◌≡◌, ◌≢◌, List, [], ◌∷◌, ◌++◌, true, false, ◌==◌, if◌then◌else◌,
  length, leb,
}
use prajna_os.Ata.{
  Ports, ata_data, ata_sector_count, ata_lba_low, ata_lba_mid, ata_lba_high, ata_drive_head,
  ata_status, ata_command, ata_alt_status, ata_cmd_read, ata_cmd_write, ata_cmd_flush, is_busy,
  has_request, has_error, poll_limit,
}

-- Where a command stands: none, the words of a sector still to be read, or the words that a sector
-- has been sent so far.
pub data Phase : Type 0 where
  idle : Phase
  reading : List ℕ → Phase
  writing : ℕ → List ℕ → Phase

-- The registers of the selected drive and its sectors, each as 256 words.
pub record Drive : Type 0 where
  pub count : ℕ
  pub low : ℕ
  pub mid : ℕ
  pub high : ℕ
  pub head : ℕ
  pub phase : Phase
  pub sectors : ℕ → List ℕ

-- The 28-bit address in the registers.
abbrev pub address : Drive → ℕ
address d = d.low + d.mid * 2 ^ 8 + d.high * 2 ^ 16 + d.head % 2 ^ 4 * 2 ^ 24

-- A transfer is under way.
abbrev pub Transfers : Phase → Type 0
Transfers idle = ⊥
Transfers (reading words) = Unit
Transfers (writing lba words) = Unit

-- What is left to read after a word, and what a word sent does.
abbrev pub still_reading : List ℕ → Phase
still_reading [] = idle
still_reading (word ∷ words) = reading (word ∷ words)

abbrev pub store : ℕ → List ℕ → (ℕ → List ℕ) → ℕ → List ℕ
store lba words sectors k = if k == lba then words else sectors k

abbrev pub receive : ℕ → List ℕ → Drive → Drive
receive lba words d =
    if leb 256 (length words)
    then record d { phase = idle; sectors = store lba words d.sectors }
    else record d { phase = writing lba words }

-- `drive` is what the registers and the medium hold, `delay` bounds how many more reads of the
-- status will show BSY. The registers take a write, and data is moved, while the drive is not busy.
pub record IsDrive (io : Ports) (drive : io.State → Drive) (delay : io.State → ℕ) : Type 0 where
  -- Reading a status changes nothing but the time.
  pub drive_status : (s : io.State) → drive (io.inb ata_status s).1 ≡ drive s
  pub drive_alt : (s : io.State) → drive (io.inb ata_alt_status s).1 ≡ drive s
  -- BSY shows while the drive is busy, and goes away within the time limit.
  pub answers : (s : io.State) → delay s < poll_limit
  pub status_busy :
      (s : io.State)
      → delay s ≢ 0
      → (is_busy (io.inb ata_status s).0 ≡ true) × (delay (io.inb ata_status s).1 < delay s)
  pub status_idle :
      (s : io.State)
      → delay s ≡ 0
      → (is_busy (io.inb ata_status s).0 ≡ false) × (delay (io.inb ata_status s).1 ≡ 0)
  -- DRQ shows, and ERR does not, once a transfer can go on.
  pub status_transfer :
      (s : io.State)
      → delay s ≡ 0
      → Transfers (drive s).phase
      → (has_request (io.inb ata_status s).0 ≡ true) × (has_error (io.inb ata_status s).0 ≡ false)
  -- The registers. Selecting a drive may take time.
  pub out_head :
      (v : ℕ) (s : io.State)
      → delay s ≡ 0
      → drive (io.outb ata_drive_head v s) ≡ record (drive s) { head = v }
  pub out_count :
      (v : ℕ) (s : io.State)
      → delay s ≡ 0
      → (drive (io.outb ata_sector_count v s) ≡ record (drive s) { count = v })
        × (delay (io.outb ata_sector_count v s) ≡ 0)
  pub out_low :
      (v : ℕ) (s : io.State)
      → delay s ≡ 0
      → (drive (io.outb ata_lba_low v s) ≡ record (drive s) { low = v })
        × (delay (io.outb ata_lba_low v s) ≡ 0)
  pub out_mid :
      (v : ℕ) (s : io.State)
      → delay s ≡ 0
      → (drive (io.outb ata_lba_mid v s) ≡ record (drive s) { mid = v })
        × (delay (io.outb ata_lba_mid v s) ≡ 0)
  pub out_high :
      (v : ℕ) (s : io.State)
      → delay s ≡ 0
      → (drive (io.outb ata_lba_high v s) ≡ record (drive s) { high = v })
        × (delay (io.outb ata_lba_high v s) ≡ 0)
  -- The commands, for one sector and with the LBA bits of the head register set.
  pub command_read :
      (s : io.State)
      → delay s ≡ 0
      → (drive s).phase ≡ idle
      → (drive s).count ≡ 1
      → (drive s).head ≡ 0xE0 + (drive s).head % 2 ^ 4
      → drive (io.outb ata_command ata_cmd_read s)
        ≡ record (drive s) { phase = reading ((drive s).sectors (address (drive s))) }
  pub command_write :
      (s : io.State)
      → delay s ≡ 0
      → (drive s).phase ≡ idle
      → (drive s).count ≡ 1
      → (drive s).head ≡ 0xE0 + (drive s).head % 2 ^ 4
      → drive (io.outb ata_command ata_cmd_write s)
        ≡ record (drive s) { phase = writing (address (drive s)) [] }
  -- A flush keeps the sectors, also where a busy drive ignores it.
  pub command_flush :
      (s : io.State)
      → (drive s).phase ≡ idle
      → drive (io.outb ata_command ata_cmd_flush s) ≡ drive s
  -- The data port.
  pub in_word :
      (word : ℕ) (words : List ℕ) (s : io.State)
      → delay s ≡ 0
      → (drive s).phase ≡ reading (word ∷ words)
      → ((io.inw ata_data s).0 ≡ word)
        × (drive (io.inw ata_data s).1 ≡ record (drive s) { phase = still_reading words })
        × (delay (io.inw ata_data s).1 ≡ 0)
  pub out_word :
      (lba word : ℕ) (words : List ℕ) (s : io.State)
      → delay s ≡ 0
      → (drive s).phase ≡ writing lba words
      → (drive (io.outw ata_data word s) ≡ receive lba (words ++ (word ∷ [])) (drive s))
        × (length words + 1 < 256 → delay (io.outw ata_data word s) ≡ 0)
