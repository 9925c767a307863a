-- ===== src/Ata/Sector.antt =====
-- kernel/ata.c, `ata_read_sector` and `ata_write_sector`, against the disk that the file system sees.
use prajna_os.Base.{
  ℕ, ◌%◌, ◌^◌, ◌≡◌, refl, ◌∙◌, ap, inl, inr, arith, true, ◌&&◌, ◌==◌, List, [], ◌∷◌, none, some,
  if◌then◌else◌, Bool-cases, ==_iff, ==_refl, length, ltb,
}
use prajna_os.Block.{DiskOps, IsDisk}
use prajna_os.Ata.{
  Ports, ata_read_sector, ata_write_sector, ata_poll, issue, write_words, poll_limit, ata_cmd_read,
  ata_cmd_write, ata_cmd_flush, ata_command,
}
use prajna_os.Ata.Drive.{IsDrive, Drive, idle, reading, still_reading, store}
use prajna_os.Ata.Steps.{issue_read, issue_write, ata_poll_lem, wait_idle_lem}
use prajna_os.Ata.Transfer.{bytes_of, words_of, read_words_lem, write_words_lem}

-- The disk as an array of 2^28 sectors of 512 bytes.
abbrev pub flat_disk : DiskOps
flat_disk = record {
  Disk = ℕ → List ℕ;
  read = λ lba d. if ltb lba (2 ^ 28) && (length (d lba) == 512) then some (d lba) else none;
  write = λ lba buf d. if ltb lba (2 ^ 28) then some (λ k. if k == lba then buf else d k) else none;
}

flat_disk-written :
    (lba : ℕ) (buf : List ℕ) (d d' : ℕ → List ℕ)
    → flat_disk.write lba buf d ≡ some d'
    → (ltb lba (2 ^ 28) ≡ true) × (d' ≡ λ k. if k == lba then buf else d k)
flat_disk-written lba buf d d' h = elim (Bool-cases (ltb lba (2 ^ 28))) [
  | inl t ↦ (t, cc (t, h))
  | inr f ↦ absurd (cc (f, h))
]

pub flat_disk-IsDisk : IsDisk flat_disk
flat_disk-IsDisk = record {
  size = λ h. ground arith;
  read_written = λ {lba} {buf} {d} {d'} l h.
      let (t, e) = flat_disk-written lba buf d d' h in
      let same : d' lba ≡ buf = ap (λ f. f lba) e ∙ rw (==_refl lba) in
      rw (t, same, (==_iff (length buf) 512).1 l);
  read_other = λ {lba} {other} {buf} {d} {d'} n h.
      let (_, e) = flat_disk-written lba buf d d' h in
      let same : d' other ≡ d other = ap (λ f. f other) e ∙ ground arith in rw same;
}

still_reading_full : (ws : List ℕ) → length ws ≡ 256 → reading ws ≡ still_reading ws
still_reading_full [] h = absurd (omega arith)
still_reading_full (w ∷ ws) h = refl

module _ {io : Ports} {drive : io.State → Drive} {delay : io.State → ℕ}
    (v : IsDrive io drive delay) where
  -- `ata_read_sector` returns 0 with the bytes of the sector, and the drive is idle again with the
  -- same sectors.
  pub ata_read_sector_lem :
      (lba : ℕ) (buf : List ℕ) (s : io.State)
      → (drive s).phase ≡ idle
      → length buf ≡ 512
      → length ((drive s).sectors (lba % 2 ^ 28)) ≡ 256
      → let r = ata_read_sector io lba buf s in
        (r.0 ≡ 0)
        × (r.1 ≡ bytes_of ((drive s).sectors (lba % 2 ^ 28)))
        × ((drive r.2).phase ≡ idle)
        × ((drive r.2).sectors ≡ (drive s).sectors)
  unfolding ata_read_sector
  ata_read_sector_lem lba buf s e l k =
      let s1 = issue io lba ata_cmd_read s in
      let ws = (drive s).sectors (lba % 2 ^ 28) in
      let sent = issue_read v lba s e in
      let (code, same, still) = ata_poll_lem v s1 (rw sent tt) in
      let now = same ∙ sent in
      let (bytes, done) =
        read_words_lem v 256 0 ws [] buf (ata_poll io s1).1 k refl l still
          (ap Drive.phase now ∙ still_reading_full ws k) in
      rw code (
        refl,
        bytes,
        ap Drive.phase done,
        ap Drive.sectors (done ∙ ap (λ (d : Drive). record d { phase = idle }) now),
      )

  -- `ata_write_sector` returns 0, and then the sector has the bytes of `buf`, the others their own, and
  -- the drive is idle again.
  pub ata_write_sector_lem :
      (lba : ℕ) (buf : List ℕ) (s : io.State)
      → (drive s).phase ≡ idle
      → let r = ata_write_sector io lba buf s in
        (r.0 ≡ 0)
        × ((drive r.1).phase ≡ idle)
        × ((drive r.1).sectors ≡ store (lba % 2 ^ 28) (words_of 256 0 buf) (drive s).sectors)
  unfolding ata_write_sector
  ata_write_sector_lem lba buf s e =
      let s1 = issue io lba ata_cmd_write s in
      let sent = issue_write v lba s e in
      let (code, same, still) = ata_poll_lem v s1 (rw sent tt) in
      let s2 = (ata_poll io s1).1 in
      let now = same ∙ sent in
      let done = write_words_lem v 255 0 buf [] (lba % 2 ^ 28) s2 refl still (ap Drive.phase now) in
      let s3 = write_words io 256 0 buf s2 in
      let flushed = v.command_flush s3 (ap Drive.phase done) in
      let s4 = io.outb ata_command ata_cmd_flush s3 in
      let (waited, _) = wait_idle_lem v poll_limit s4 (v.answers s4) in
      let end = waited ∙ (flushed ∙ done) in
      rw code (
        refl,
        ap Drive.phase end,
        ap Drive.sectors end
            ∙ ap (λ (d : Drive). store (lba % 2 ^ 28) (words_of 256 0 buf) d.sectors) now,
      )
