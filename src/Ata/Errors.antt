-- ===== src/Ata/Errors.antt =====
-- kernel/ata.c on any ports: the drive that never asks for data, and sector numbers above 28 bits.
use prajna_os.Base.{
  ℕ, zero, suc, ◌%◌, ◌^◌, ◌≡◌, refl, arith, false, List, inl, inr, Bool-cases, u8, ◌>>>◌,
}
use prajna_os.Ata.{
  Ports, ata_status, has_request, has_error, poll_limit, poll_busy, poll_request, ata_poll, issue,
  ata_read_sector, ata_write_sector, ata_cmd_read, ata_cmd_write,
}

module _ (io : Ports) where
  poll_request_silent :
      (timeout : ℕ) (s : io.State)
      → ((s : io.State) → has_request (io.inb ata_status s).0 ≡ false)
      → (poll_request io timeout s).0 ≡ 1
  unfolding poll_request
  poll_request_silent zero s h = refl
  poll_request_silent (suc timeout) s h = elim (Bool-cases (has_error (io.inb ata_status s).0)) [
    | inl e ↦ rw (h s, e)
    | inr n ↦ rw (h s, n) (poll_request_silent timeout (io.inb ata_status s).1 h)
  ]

  ata_poll_silent :
      (s : io.State)
      → ((s : io.State) → has_request (io.inb ata_status s).0 ≡ false)
      → (ata_poll io s).0 ≡ 1
  unfolding ata_poll
  ata_poll_silent s h = elim (Bool-cases (has_error (poll_busy io poll_limit 0 s).0)) [
    | inl e ↦ rw e
    | inr n ↦ rw n (poll_request_silent poll_limit (poll_busy io poll_limit 0 s).1 h)
  ]

  -- Where no status of the drive ever shows DRQ, `ata_read_sector` returns 1 with the buffer as it
  -- was, and `ata_write_sector` returns 1 without having sent a word.
  pub ata_sector_silent :
      (lba : ℕ) (buf : List ℕ) (s : io.State)
      → ((s : io.State) → has_request (io.inb ata_status s).0 ≡ false)
      → (ata_read_sector io lba buf s ≡ (1, buf, (ata_poll io (issue io lba ata_cmd_read s)).1))
        × (ata_write_sector io lba buf s ≡ (1, (ata_poll io (issue io lba ata_cmd_write s)).1))
  unfolding ata_read_sector ata_write_sector
  ata_sector_silent lba buf s h = (
    rw (ata_poll_silent (issue io lba ata_cmd_read s) h),
    rw (ata_poll_silent (issue io lba ata_cmd_write s) h),
  )

  issue-mod :
      (lba command : ℕ) (s : io.State) → issue io (lba % 2 ^ 28) command s ≡ issue io lba command s
  unfolding issue
  issue-mod lba command s =
      let low : u8 (lba % 2 ^ 28) ≡ u8 lba = omega arith in
      let mid : u8 ((lba % 2 ^ 28) >>> 8) ≡ u8 (lba >>> 8) = omega arith in
      let high : u8 ((lba % 2 ^ 28) >>> 16) ≡ u8 (lba >>> 16) = omega arith in
      let top : ((lba % 2 ^ 28) >>> 24) % 2 ^ 4 ≡ (lba >>> 24) % 2 ^ 4 = omega arith in
      rw (issue, low, mid, high, top)

  -- On any ports, both transfers do the same for a sector number and for its remainder modulo 2^28.
  pub ata_sector-mod :
      (lba : ℕ) (buf : List ℕ) (s : io.State)
      → (ata_read_sector io (lba % 2 ^ 28) buf s ≡ ata_read_sector io lba buf s)
        × (ata_write_sector io (lba % 2 ^ 28) buf s ≡ ata_write_sector io lba buf s)
  unfolding ata_read_sector ata_write_sector
  ata_sector-mod lba buf s = (rw (issue-mod lba ata_cmd_read s), rw (issue-mod lba ata_cmd_write s))
