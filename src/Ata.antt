-- ===== src/Ata.antt =====
-- kernel/ata.c and kernel/include/ata.h: the driver of the disk, over port input and output. The ports
-- and the drive behind them are a parameter.
pub mod Drive
pub mod Steps
pub mod Transfer
pub mod Sector
pub mod Requests
pub mod Errors
use prajna_os.Base.{
  ℕ, zero, suc, ◌+◌, ◌*◌, ◌/◌, ◌%◌, ◌^◌, List, Bool, true, false, not, ◌&&◌, ◌||◌, ◌==◌,
  if◌then◌else◌, get_or, set, u8, u16, ◌<<<◌, ◌>>>◌, bit_and, bit_or,
}

-- `inb`, `inw`, `outb` and `outw` on the ports, with the state of what answers there.
pub record Ports : Type 1 where
  pub State : Type 0
  pub inb : ℕ → State → ℕ × State
  pub inw : ℕ → State → ℕ × State
  pub outb : ℕ → ℕ → State → State
  pub outw : ℕ → ℕ → State → State

abbrev pub ata_data : ℕ
ata_data = 0x1F0

abbrev pub ata_sector_count : ℕ
ata_sector_count = 0x1F2

abbrev pub ata_lba_low : ℕ
ata_lba_low = 0x1F3

abbrev pub ata_lba_mid : ℕ
ata_lba_mid = 0x1F4

abbrev pub ata_lba_high : ℕ
ata_lba_high = 0x1F5

abbrev pub ata_drive_head : ℕ
ata_drive_head = 0x1F6

-- The status register where it is read, the command register where it is written.
abbrev pub ata_status : ℕ
ata_status = 0x1F7

abbrev pub ata_command : ℕ
ata_command = 0x1F7

abbrev pub ata_alt_status : ℕ
ata_alt_status = 0x3F6

abbrev pub ata_cmd_read : ℕ
ata_cmd_read = 0x20

abbrev pub ata_cmd_write : ℕ
ata_cmd_write = 0x30

abbrev pub ata_cmd_identify : ℕ
ata_cmd_identify = 0xEC

abbrev pub ata_cmd_flush : ℕ
ata_cmd_flush = 0xE7

-- The tests of a status byte with ATA_SR_BSY, ATA_SR_DRQ and ATA_SR_ERR.
abbrev pub is_busy : ℕ → Bool
is_busy status = not (bit_and status 0x80 == 0)

abbrev pub has_request : ℕ → Bool
has_request status = not (bit_and status 0x08 == 0)

abbrev pub has_error : ℕ → Bool
has_error status = not (bit_and status 0x01 == 0)

-- Every wait of the driver gives up after this many reads of the status.
abbrev pub poll_limit : ℕ
poll_limit = 100000

-- `buf[i * 2] | ((uint16_t)buf[i * 2 + 1] << 8)`, stored as a `uint16_t`.
abbrev pub word_at : List ℕ → ℕ → ℕ
word_at buf i = u16 (bit_or (get_or buf (i * 2) 0) (get_or buf (i * 2 + 1) 0 <<< 8))

module _ (io : Ports) where
  open io use {State, inb, inw, outb, outw}

  unfoldable pub ata_delay : State → State
  ata_delay s =
      (inb ata_alt_status (inb ata_alt_status (inb ata_alt_status (inb ata_alt_status s).1).1).1).1

  -- `while (timeout-- && (inb(ATA_STATUS) & ATA_SR_BSY));`
  unfoldable pub wait_idle : ℕ → State → State
  wait_idle zero s = s
  wait_idle (suc timeout) s =
      let (status, s') = inb ata_status s in
      let rest = wait_idle timeout s' in if is_busy status then rest else s'

  -- The first loop of `ata_poll`, with the last status that it read.
  unfoldable pub poll_busy : ℕ → ℕ → State → ℕ × State
  poll_busy zero status s = (status, s)
  poll_busy (suc timeout) status s =
      let (read, s') = inb ata_status s in
      let rest = poll_busy timeout read s' in if is_busy read then rest else (read, s')

  -- The second loop, and the `return 1` behind it.
  unfoldable pub poll_request : ℕ → State → ℕ × State
  poll_request zero s = (1, s)
  poll_request (suc timeout) s =
      let (status, s') = inb ata_status s in
      let rest = poll_request timeout s' in
      if has_request status then (0, s') else if has_error status then (1, s') else rest

  unfoldable pub ata_poll : State → ℕ × State
  ata_poll s =
      let (status, s') = poll_busy poll_limit 0 s in
      if has_error status then (1, s') else poll_request poll_limit s'

  -- What both transfers send before they poll: the drive, the address and the command.
  unfoldable pub issue : ℕ → ℕ → State → State
  issue lba command s =
      let s1 = outb ata_drive_head (bit_or 0xE0 ((lba >>> 24) % 2 ^ 4)) (wait_idle poll_limit s) in
      let s2 = outb ata_sector_count 1 (wait_idle poll_limit (ata_delay s1)) in
      let s3 = outb ata_lba_low (u8 lba) s2 in
      let s4 = outb ata_lba_mid (u8 (lba >>> 8)) s3 in
      let s5 = outb ata_lba_high (u8 (lba >>> 16)) s4 in outb ata_command command s5

  -- The loop of `ata_read_sector` from word `i` on: `buf` and the ports.
  unfoldable pub read_words : ℕ → ℕ → List ℕ → State → List ℕ × State
  read_words zero i buf s = (buf, s)
  read_words (suc left) i buf s =
      let (word, s') = inw ata_data s in
      read_words left (suc i) (set (set buf (i * 2) (u8 word)) (i * 2 + 1) (u8 (u16 word >>> 8))) s'

  -- The code, `buf` and the ports.
  unfoldable pub ata_read_sector : ℕ → List ℕ → State → ℕ × List ℕ × State
  ata_read_sector lba buf s =
      let (code, s') = ata_poll (issue lba ata_cmd_read s) in
      let (buf', s'') = read_words 256 0 buf s' in
      if not (code == 0) then (1, buf, s') else (0, buf', s'')

  -- The loop of `ata_write_sector` from word `i` on.
  unfoldable pub write_words : ℕ → ℕ → List ℕ → State → State
  write_words zero i buf s = s
  write_words (suc left) i buf s = write_words left (suc i) buf (outw ata_data (word_at buf i) s)

  -- The code and the ports.
  unfoldable pub ata_write_sector : ℕ → List ℕ → State → ℕ × State
  ata_write_sector lba buf s =
      let (code, s') = ata_poll (issue lba ata_cmd_write s) in
      let s'' = outb ata_command ata_cmd_flush (write_words 256 0 buf s') in
      if not (code == 0) then (1, s') else (0, wait_idle poll_limit s'')

  -- Step 7 of `ata_identify`.
  unfoldable pub wait_answer : ℕ → State → State
  wait_answer zero s = s
  wait_answer (suc timeout) s =
      let (status, s') = inb ata_status s in
      let rest = wait_answer timeout s' in
      if has_request status || has_error status then s' else rest

  unfoldable pub discard_words : ℕ → State → State
  discard_words zero s = s
  discard_words (suc left) s = discard_words left (inw ata_data s).1

  -- The command of `ata_identify` up to its delay.
  unfoldable pub ask_identity : State → State
  ask_identity s =
      let s1 = outb ata_sector_count 0 (outb ata_drive_head 0xB0 s) in
      let s2 = outb ata_lba_high 0 (outb ata_lba_mid 0 (outb ata_lba_low 0 s1)) in
      ata_delay (outb ata_command ata_cmd_identify s2)

  -- Steps 5 to 8: `||` does not read the second port where the first one is not 0.
  unfoldable pub check_signature : State → ℕ × State
  check_signature s =
      let (mid, s1) = inb ata_lba_mid (wait_idle poll_limit s) in
      let (high, s2) = inb ata_lba_high s1 in
      let found = discard_words 256 (wait_answer poll_limit s2) in
      if not (mid == 0) then (0, s1) else if not (high == 0) then (0, s2) else (1, found)

  unfoldable pub ata_identify : State → ℕ × State
  ata_identify s =
      let (status, s') = inb ata_status (ask_identity s) in
      let rest = check_signature s' in if status == 0 then (0, s') else rest

  -- Interrupts are off during the call.
  unfoldable pub ata_init : State → ℕ × State
  ata_init s = ata_identify s
