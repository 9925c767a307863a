-- ===== src/Ata/Requests.antt =====
-- kernel/ata.c: sequences of sector reads and writes, through the driver and on the disk that the file
-- system sees.
use prajna_os.Base.{
  ℕ, ◌*◌, ◌%◌, ◌^◌, ◌<◌, ◌≡◌, refl, ◌∙◌, sym, ap, ap₂, arith, true, ◌==◌, ==_iff, List, [], ◌∷◌,
  none, some, if◌then◌else◌, length, replicate, length-replicate, ltb, inl, inr, Bool-cases,
}
use mathlib.Core.Path.{subst}
use prajna_os.Block.{DiskOps}
use prajna_os.Ata.{Ports, ata_read_sector, ata_write_sector}
use prajna_os.Ata.Drive.{IsDrive, Drive, idle, store}
use prajna_os.Ata.Transfer.{
  bytes_of, words_of, AllBytes, bytes_of-words_of, length-words_of, length-bytes_of,
}
use prajna_os.Ata.Sector.{flat_disk, ata_read_sector_lem, ata_write_sector_lem}

pub data Request : Type 0 where
  load : ℕ → Request
  save : ℕ → List ℕ → Request

-- A sector number of 28 bits, and a full sector of bytes where one is written.
abbrev pub InRange : List Request → Type 0
InRange [] = Unit
InRange (load lba ∷ rs) = (lba < 2 ^ 28) × InRange rs
InRange (save lba buf ∷ rs) = (lba < 2 ^ 28) × (length buf ≡ 512) × AllBytes buf × InRange rs

-- What the driver answers: the code, and the buffer of a read, which starts with zeros.
pub driver_answers : (io : Ports) → List Request → io.State → List (ℕ × List ℕ)
driver_answers io [] s = []
driver_answers io (load lba ∷ rs) s =
    let (code, buf, s') = ata_read_sector io lba (replicate 512 0) s in
    (code, buf) ∷ driver_answers io rs s'
driver_answers io (save lba buf ∷ rs) s =
    let (code, s') = ata_write_sector io lba buf s in (code, []) ∷ driver_answers io rs s'

-- What the operations of a disk answer to the same requests.
pub disk_answers : (ops : DiskOps) → List Request → ops.Disk → List (ℕ × List ℕ)
disk_answers ops [] d = []
disk_answers ops (load lba ∷ rs) d =
    elim (ops.read lba d) [ none ↦ (1, replicate 512 0) | some buf ↦ (0, buf) ]
    ∷ disk_answers ops rs d
disk_answers ops (save lba buf ∷ rs) d = elim (ops.write lba buf d) [
  | none ↦ (1, []) ∷ disk_answers ops rs d
  | some d' ↦ (0, []) ∷ disk_answers ops rs d'
]

-- The sectors of a drive and the disk hold the same bytes.
pub record Agrees (sectors : ℕ → List ℕ) (d : ℕ → List ℕ) : Type 0 where
  pub full : (k : ℕ) → length (sectors k) ≡ 256
  pub same : (k : ℕ) → bytes_of (sectors k) ≡ d k

store-Agrees :
    {sectors d : ℕ → List ℕ} (lba : ℕ) (buf : List ℕ)
    → Agrees sectors d
    → length buf ≡ 512
    → AllBytes buf
    → Agrees (store lba (words_of 256 0 buf) sectors) (λ k. if k == lba then buf else d k)
store-Agrees {sectors} {d} lba buf a l all = record {
  full = λ k. elim (Bool-cases (k == lba)) [
    | inl e ↦ rw e (length-words_of 256 0 buf)
    | inr n ↦ rw n (a.full k)
  ];
  same = λ k. elim (Bool-cases (k == lba)) [
    | inl e ↦ rw e (bytes_of-words_of 256 0 [] buf refl l all)
    | inr n ↦ rw n (a.same k)
  ];
}

sized : {sectors d : ℕ → List ℕ} → Agrees sectors d → (k : ℕ) → length (d k) ≡ 512
sized {sectors} a k =
    ap length (sym (a.same k)) ∙ (length-bytes_of (sectors k) ∙ ap (λ n. n * 2) (a.full k))

read_flat :
    (lba : ℕ) (d : ℕ → List ℕ)
    → lba < 2 ^ 28
    → length (d lba) ≡ 512
    → (ltb lba (2 ^ 28) ≡ true) × ((length (d lba) == 512) ≡ true)
read_flat lba d near l = (ground arith, (==_iff (length (d lba)) 512).1 l)

module _ {io : Ports} {drive : io.State → Drive} {delay : io.State → ℕ}
    (v : IsDrive io drive delay) where
  answers-Agrees :
      (rs : List Request) (s : io.State) (d : ℕ → List ℕ)
      → (drive s).phase ≡ idle
      → Agrees (drive s).sectors d
      → InRange rs
      → driver_answers io rs s ≡ disk_answers flat_disk rs d
  unfolding driver_answers disk_answers
  answers-Agrees [] s d e a ok = refl
  answers-Agrees (load lba ∷ rs) s d e a ok =
      let small : lba % 2 ^ 28 ≡ lba = omega (arith, ok.0) in
      let (code, bytes, rest, kept) =
        ata_read_sector_lem v lba (replicate 512 0) s e (length-replicate {A = ℕ} 512 0)
          (a.full (lba % 2 ^ 28)) in
      let (near, full) = read_flat lba d ok.0 (sized a lba) in
      let read : (ata_read_sector io lba (replicate 512 0) s).1 ≡ d lba =
        bytes ∙ (a.same (lba % 2 ^ 28) ∙ ap d small) in
      rw (near, full)
        (ap₂ ◌∷◌ (ap₂ (λ (x : ℕ) (y : List ℕ). (x, y)) code read) (
          answers-Agrees rs (ata_read_sector io lba (replicate 512 0) s).2 d rest
            (subst (λ f. Agrees f d) (sym kept) a) ok.1))
  answers-Agrees (save lba buf ∷ rs) s d e a ok =
      let small : lba % 2 ^ 28 ≡ lba = omega (arith, ok.0) in
      let (code, rest, stored) = ata_write_sector_lem v lba buf s e in
      let near : ltb lba (2 ^ 28) ≡ true = ground (arith, ok.0) in
      let s' = (ata_write_sector io lba buf s).1 in
      let (in_range, l, all, more) = ok in
      let agrees : Agrees (drive s').sectors (λ k. if k == lba then buf else d k) =
        subst (λ f. Agrees f (λ k. if k == lba then buf else d k))
          (sym (stored ∙ ap (λ k. store k (words_of 256 0 buf) (drive s).sectors) small))
          (store-Agrees lba buf a l all) in
      rw (disk_answers, near)
        (ap₂ ◌∷◌ (ap (λ (x : ℕ). (x, [])) code)
          (answers-Agrees rs s' (λ k. if k == lba then buf else d k) rest agrees more))

  -- On a drive that answers within the polling limit, without a transfer under way and with full
  -- sectors: whatever sequence of sectors is read and written through `ata_read_sector` and
  -- `ata_write_sector`, with sector numbers below 2^28 and full buffers of bytes, codes and buffers
  -- are those of a plain array of sectors with the drive's bytes.
  pub driver_answers-disk_answers :
      (rs : List Request) (s : io.State)
      → (drive s).phase ≡ idle
      → ((k : ℕ) → length ((drive s).sectors k) ≡ 256)
      → InRange rs
      → driver_answers io rs s ≡ disk_answers flat_disk rs (λ k. bytes_of ((drive s).sectors k))
  driver_answers-disk_answers rs s e full ok =
      answers-Agrees rs s (λ k. bytes_of ((drive s).sectors k)) e
        (record { full = full; same = λ k. refl }) ok
