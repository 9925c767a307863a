-- ===== src/Examples/Ports.antt =====
-- A drive behind the ports, for the theorems on kernel/ata.c, and a bus where nothing answers.
use prajna_os.Base.{
  ℕ, zero, suc, ◌%◌, ◌+◌, ◌^◌, ◌≡◌, refl, arith, ap, inl, inr, Bool-cases, Bool, true, false, List,
  [], ◌∷◌, ◌++◌, ◌==◌, if◌then◌else◌, replicate, length-replicate,
}
use prajna_os.Ata.{
  Ports, ata_sector_count, ata_lba_low, ata_lba_mid, ata_lba_high, ata_drive_head, ata_status,
  ata_cmd_read, ata_cmd_write, is_busy, has_request, has_error, ata_read_sector, ata_write_sector,
  ata_poll, issue,
}
use prajna_os.Ata.Requests.{
  Request, load, save, driver_answers, disk_answers, driver_answers-disk_answers,
}
use prajna_os.Ata.Errors.{ata_sector_silent, ata_sector-mod}
use prajna_os.Ata.Sector.{flat_disk}
use prajna_os.Ata.Transfer.{AllBytes, bytes_of}
use prajna_os.Ata.Drive.{
  IsDrive, Drive, Phase, idle, reading, writing, Transfers, still_reading, receive, address,
}

-- Busy for one read of the status after each command and each drive selection.
record Simulated : Type 0 where
  drive : Drive
  busy : Bool

abbrev status_of : Phase → ℕ
status_of idle = 0x40
status_of (reading words) = 0x48
status_of (writing lba words) = 0x48

abbrev take_word : Phase → Drive → ℕ × Drive
take_word (reading (w ∷ ws)) d = (w, record d { phase = still_reading ws })
take_word _ d = (0, d)

abbrev give_word : ℕ → Phase → Drive → Drive
give_word w (writing lba words) d = receive lba (words ++ (w ∷ [])) d
give_word w _ d = d

abbrev command : ℕ → Simulated → Simulated
command v s =
    if v == ata_cmd_read
    then record {
      drive = record s.drive { phase = reading (s.drive.sectors (address s.drive)) };
      busy = true;
    }
    else if v == ata_cmd_write
    then record { drive = record s.drive { phase = writing (address s.drive) [] }; busy = true }
    else s

abbrev register : ℕ → ℕ → Simulated → Simulated
register port v s =
    if port == ata_sector_count
    then record s { drive = record s.drive { count = v } }
    else if port == ata_lba_low
    then record s { drive = record s.drive { low = v } }
    else if port == ata_lba_mid
    then record s { drive = record s.drive { mid = v } }
    else if port == ata_lba_high
    then record s { drive = record s.drive { high = v } }
    else if port == ata_drive_head
    then record { drive = record s.drive { head = v }; busy = true }
    else command v s

abbrev simulated : Ports
simulated = record {
  State = Simulated;
  inb = λ port s.
      if port == ata_status
      then (if s.busy then (0x80, record s { busy = false }) else (status_of s.drive.phase, s))
      else (0, s);
  inw = λ port s. let (w, d) = take_word s.drive.phase s.drive in (w, record s { drive = d });
  outb = register;
  outw = λ port w s. record s { drive = give_word w s.drive.phase s.drive };
}

abbrev delay_of : Simulated → ℕ
delay_of s = if s.busy then 1 else 0

idle_of : (b : Bool) → ◌≡◌ {A = ℕ} (if b then 1 else 0) 0 → b ≡ false
idle_of true h = absurd (omega arith)
idle_of false h = refl

idle_status : (p : Phase) → is_busy (status_of p) ≡ false
idle_status idle = refl
idle_status (reading words) = refl
idle_status (writing lba words) = refl

request_status :
    (p : Phase)
    → Transfers p
    → (has_request (status_of p) ≡ true) × (has_error (status_of p) ≡ false)
request_status idle t = absurd t
request_status (reading words) t = (refl, refl)
request_status (writing lba words) t = (refl, refl)

simulated-IsDrive : IsDrive simulated (λ s. s.drive) delay_of
simulated-IsDrive = record {
  drive_status = λ s. ground arith;
  drive_alt = λ s. refl;
  answers = λ s. ground arith;
  status_busy = λ s h. elim (Bool-cases s.busy) [
    | inl e ↦ rw e (refl, omega arith)
    | inr f ↦ absurd (h (rw f))
  ];
  status_idle = λ s h. rw (idle_of s.busy h) (idle_status s.drive.phase, refl);
  status_transfer = λ s h t. rw (idle_of s.busy h) (request_status s.drive.phase t);
  out_head = λ v s h. refl;
  out_count = λ v s h. (refl, h);
  out_low = λ v s h. (refl, h);
  out_mid = λ v s h. (refl, h);
  out_high = λ v s h. (refl, h);
  command_read = λ s h p c l. refl;
  command_write = λ s h p c l. refl;
  command_flush = λ s p. refl;
  in_word = λ word words s h p.
      (ap (λ q. (take_word q s.drive).0) p, ap (λ q. (take_word q s.drive).1) p, h);
  out_word = λ lba word words s h p. (ap (λ q. give_word word q s.drive) p, λ _. h);
}

-- An empty medium, with 256 zero words in each sector.
abbrev empty_medium : Simulated
empty_medium = record {
  drive = record {
    count = 0;
    low = 0;
    mid = 0;
    high = 0;
    head = 0;
    phase = idle;
    sectors = λ k. replicate 256 0;
  };
  busy = false;
}

-- Sector 7 written and read back, and its neighbour.
abbrev requests : List Request
requests = save 7 (replicate 512 0x41) ∷ load 7 ∷ load 8 ∷ []

all_small : (n : ℕ) → AllBytes (replicate n 0x41)
all_small zero = tt
all_small (suc n) = (omega arith, all_small n)

bytes_table : AllBytes (replicate 512 0x41)
bytes_table = all_small 512

driver_answers-disk_answers_example :
    driver_answers simulated requests empty_medium
    ≡ disk_answers flat_disk requests (λ k. bytes_of (replicate 256 0))
driver_answers-disk_answers_example =
    driver_answers-disk_answers simulated-IsDrive requests empty_medium refl
      (λ k. length-replicate {A = ℕ} 256 0)
      (
        omega arith,
        length-replicate {A = ℕ} 512 0x41,
        bytes_table,
        (omega arith, (omega arith, tt)),
      )

-- A bus where every read gives 0.
abbrev silent : Ports
silent = record {
  State = ℕ;
  inb = λ port s. (0, s);
  inw = λ port s. (0, s);
  outb = λ port v s. s + 1;
  outw = λ port v s. s + 1;
}

ata_sector_silent_example :
    (ata_read_sector silent 7 (replicate 512 0) 0
      ≡ (1, replicate 512 0, (ata_poll silent (issue silent 7 ata_cmd_read 0)).1))
    × (ata_write_sector silent 7 (replicate 512 0) 0
        ≡ (1, (ata_poll silent (issue silent 7 ata_cmd_write 0)).1))
ata_sector_silent_example = ata_sector_silent silent 7 (replicate 512 0) 0 (λ s. refl)

ata_sector-mod_example :
    (ata_read_sector silent (0x10000007 % 2 ^ 28) (replicate 512 0) 0
      ≡ ata_read_sector silent 0x10000007 (replicate 512 0) 0)
    × (ata_write_sector silent (0x10000007 % 2 ^ 28) (replicate 512 0) 0
        ≡ ata_write_sector silent 0x10000007 (replicate 512 0) 0)
ata_sector-mod_example = ata_sector-mod silent 0x10000007 (replicate 512 0) 0
