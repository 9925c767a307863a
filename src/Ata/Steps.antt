-- ===== src/Ata/Steps.antt =====
-- kernel/ata.c: the waits, and the command that both transfers send, on a drive that answers.
use prajna_os.Base.{
  [], ℕ, zero, suc, ◌+◌, ◌%◌, ◌^◌, ◌<◌, ◌≡◌, refl, ◌∙◌, ap, ◌⊎◌, inl, inr, arith, true, false, ◌==◌,
  bit_or, passes, passes_at, u8, ◌>>>◌,
}
use prajna_os.Ata.{
  Ports, ata_status, ata_command, ata_drive_head, ata_sector_count, ata_lba_low, ata_lba_mid,
  ata_lba_high, ata_cmd_read, ata_cmd_write, has_error, poll_limit, ata_delay, wait_idle, poll_busy,
  poll_request, ata_poll, issue,
}
use prajna_os.Ata.Drive.{IsDrive, Drive, Transfers, address, idle, reading, writing}

zero_or_not : (n : ℕ) → (n ≡ 0) ⊎ (¬ (n ≡ 0))
zero_or_not zero = inl refl
zero_or_not (suc n) = inr (λ e. omega arith)

-- The top bits of the head register, and the address bits below them.
head_table : passes (λ x. bit_or 0xE0 x == 0xE0 + x) 16 ≡ true
unfolding passes
head_table = refl

pub head_of : (x : ℕ) → x < 16 → bit_or 0xE0 x ≡ 0xE0 + x
head_of x h = ground (arith, passes_at (λ x. bit_or 0xE0 x == 0xE0 + x) 16 h head_table)

-- The registers after `issue` for a sector.
abbrev pub addressed : ℕ → Drive → Drive
addressed lba d = record d {
  count = 1;
  low = u8 lba;
  mid = u8 (lba >>> 8);
  high = u8 (lba >>> 16);
  head = bit_or 0xE0 ((lba >>> 24) % 2 ^ 4);
}

pub head-addressed :
    (lba : ℕ) (d : Drive) → (addressed lba d).head ≡ 0xE0 + (addressed lba d).head % 2 ^ 4
head-addressed lba d = rw (head_of ((lba >>> 24) % 2 ^ 4) (omega arith)) (omega arith)

pub head_sent :
    (lba : ℕ) (d : Drive) {e : Drive} → e ≡ addressed lba d → e.head ≡ 0xE0 + e.head % 2 ^ 4
head_sent lba d regs = rw regs (head-addressed lba d)

-- The low 28 bits of the sector number arrive.
pub address-addressed : (lba : ℕ) (d : Drive) → address (addressed lba d) ≡ lba % 2 ^ 28
address-addressed lba d = rw (head_of ((lba >>> 24) % 2 ^ 4) (omega arith)) (omega arith)

module _ {io : Ports} {drive : io.State → Drive} {delay : io.State → ℕ}
    (v : IsDrive io drive delay) where
  -- A wait ends while the drive is idle, and changes nothing else.
  pub wait_idle_lem :
      (timeout : ℕ) (s : io.State)
      → delay s < timeout
      → (drive (wait_idle io timeout s) ≡ drive s) × (delay (wait_idle io timeout s) ≡ 0)
  unfolding wait_idle
  wait_idle_lem zero s h = absurd (omega arith)
  wait_idle_lem (suc timeout) s h = elim (zero_or_not (delay s)) [
    | inl e ↦ let (shown, still) = v.status_idle s e in rw shown (v.drive_status s, still)
    | inr n ↦
        let (shown, less) = v.status_busy s n in
        let (same, done) = wait_idle_lem timeout (io.inb ata_status s).1 (omega arith) in
        rw shown (same ∙ v.drive_status s, done)
  ]

  poll_busy_lem :
      (timeout status : ℕ) (s : io.State)
      → delay s < timeout
      → Transfers (drive s).phase
      → let r = poll_busy io timeout status s in
        (drive r.1 ≡ drive s) × (delay r.1 ≡ 0) × (has_error r.0 ≡ false)
  unfolding poll_busy
  poll_busy_lem zero status s h t = absurd (omega arith)
  poll_busy_lem (suc timeout) status s h t = elim (zero_or_not (delay s)) [
    | inl e ↦
        let (shown, still) = v.status_idle s e in
        rw shown (v.drive_status s, still, (v.status_transfer s e t).1)
    | inr n ↦
        let (shown, less) = v.status_busy s n in
        let kept : Transfers (drive (io.inb ata_status s).1).phase = rw (v.drive_status s) t in
        let (same, done, fine) =
          poll_busy_lem timeout (io.inb ata_status s).0 (io.inb ata_status s).1 (omega arith)
            kept in
        rw shown (same ∙ v.drive_status s, done, fine)
  ]

  poll_request_lem :
      (timeout : ℕ) (s : io.State)
      → delay s ≡ 0
      → Transfers (drive s).phase
      → poll_request io (suc timeout) s ≡ (0, (io.inb ata_status s).1)
  unfolding poll_request
  poll_request_lem timeout s e t = rw (v.status_transfer s e t).0

  -- `ata_poll` returns 0 on a drive with a transfer under way.
  pub ata_poll_lem :
      (s : io.State)
      → Transfers (drive s).phase
      → let r = ata_poll io s in (r.0 ≡ 0) × (drive r.1 ≡ drive s) × (delay r.1 ≡ 0)
  unfolding ata_poll
  ata_poll_lem s t =
      let (same, done, fine) = poll_busy_lem poll_limit 0 s (v.answers s) t in
      let s' = (poll_busy io poll_limit 0 s).1 in
      let kept : Transfers (drive s').phase = rw same t in
      let found : poll_request io poll_limit s' ≡ (0, (io.inb ata_status s').1) =
        poll_request_lem 99999 s' done kept in
      rw (fine, found) (refl, v.drive_status s' ∙ same, (v.status_idle s' done).1)

  pub ata_delay_lem : (s : io.State) → drive (ata_delay io s) ≡ drive s
  unfolding ata_delay
  ata_delay_lem s =
      let a = io.inb 0x3F6 s in
      let b = io.inb 0x3F6 a.1 in
      let c = io.inb 0x3F6 b.1 in
      v.drive_alt c.1 ∙ (v.drive_alt b.1 ∙ (v.drive_alt a.1 ∙ v.drive_alt s))

  -- The registers that `issue` leaves for its command.
  issue_lem :
      (lba command : ℕ) (s : io.State)
      → (s' : io.State) × (issue io lba command s ≡ io.outb ata_command command s')
        × (drive s' ≡ addressed lba (drive s))
        × (delay s' ≡ 0)
  unfolding issue
  issue_lem lba command s =
      let h = bit_or 0xE0 ((lba >>> 24) % 2 ^ 4) in
      let s0 = wait_idle io poll_limit s in
      let (d0, t0) = wait_idle_lem poll_limit s (v.answers s) in
      let s1 = io.outb ata_drive_head h s0 in
      let d1 = v.out_head h s0 t0 in
      let d2 = ata_delay_lem s1 in
      let s3 = wait_idle io poll_limit (ata_delay io s1) in
      let (d3, t3) = wait_idle_lem poll_limit (ata_delay io s1) (v.answers (ata_delay io s1)) in
      let (d4, t4) = v.out_count 1 s3 t3 in
      let s4 = io.outb ata_sector_count 1 s3 in
      let (d5, t5) = v.out_low (u8 lba) s4 t4 in
      let s5 = io.outb ata_lba_low (u8 lba) s4 in
      let (d6, t6) = v.out_mid (u8 (lba >>> 8)) s5 t5 in
      let s6 = io.outb ata_lba_mid (u8 (lba >>> 8)) s5 in
      let (d7, t7) = v.out_high (u8 (lba >>> 16)) s6 t6 in
      (io.outb ata_lba_high (u8 (lba >>> 16)) s6, refl, simp (d7, d6, d5, d4, d3, d2, d1, d0), t7)

  -- Either command finds the drive idle, with one sector at the low 28 bits of the number.
  pub issue_read :
      (lba : ℕ) (s : io.State)
      → (drive s).phase ≡ idle
      → drive (issue io lba ata_cmd_read s)
        ≡ record (addressed lba (drive s)) { phase = reading ((drive s).sectors (lba % 2 ^ 28)) }
  issue_read lba s e =
      let (s', sent, regs, still) = issue_lem lba ata_cmd_read s in
      let ran =
        v.command_read s' still (ap Drive.phase regs ∙ e) (ap Drive.count regs)
          (head_sent lba (drive s) regs) in
      ap drive sent
      ∙ (ran
          ∙ (rw regs (
              ap (λ a. record (addressed lba (drive s)) { phase = reading ((drive s).sectors a) })
                (address-addressed lba (drive s)))))

  pub issue_write :
      (lba : ℕ) (s : io.State)
      → (drive s).phase ≡ idle
      → drive (issue io lba ata_cmd_write s)
        ≡ record (addressed lba (drive s)) { phase = writing (lba % 2 ^ 28) [] }
  issue_write lba s e =
      let (s', sent, regs, still) = issue_lem lba ata_cmd_write s in
      let ran =
        v.command_write s' still (ap Drive.phase regs ∙ e) (ap Drive.count regs)
          (head_sent lba (drive s) regs) in
      ap drive sent
      ∙ (ran
          ∙ (rw regs (
              ap (λ a. record (addressed lba (drive s)) { phase = writing a [] })
                (address-addressed lba (drive s)))))
