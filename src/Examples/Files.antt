-- ===== src/Examples/Files.antt =====
-- A disk in memory, and files on it.
use native.Mathlib.Decide.{ℕ_discrete}
use prajna_os.Base.{
  ℕ, ◌%◌, ◌^◌, ◌<◌, ◌≡◌, ◌≢◌, refl, arith, sym, ap, ◌∙◌, List, [], ◌∷◌, Option, none, some, true,
  false, length, replicate, length-replicate, ltb, ◌==◌, if◌then◌else◌, Bool-cases, inl, inr,
}
use prajna_os.Block.{DiskOps, IsDisk}
use prajna_os.Fat.{
  Volume, end_of_chain, write_bytes, bytes32, cluster_to_lba, fat_sector, entry_offset,
  fat_next_cluster, fat_set_cluster, fat32_find_free_cluster,
}
use prajna_os.Fat.Names.{name_match, new_entry, first_cluster}
use prajna_os.Fat.Dir.{found, fat32_find_file, fat32_create_file}
use prajna_os.Fat.File.{sector_of, fat32_read_file, fat32_write_file}
use prajna_os.Fat.Table.{fat_next_cluster-fat_set_cluster, FirstFree, find_free_cluster-FirstFree}
use prajna_os.Fat.Content.{fat32_read_file-fat32_write_file}
use prajna_os.Fat.Create.{Writable, fat32_find_file-fat32_create_file}

-- The sectors that were written, the last one first; all others are zero.
pub data Sectors : Type 0 where
  blank : Sectors
  put : ℕ → (buf : List ℕ) → length buf ≡ 512 → Sectors → Sectors

unfoldable pub fetch : ℕ → Sectors → List ℕ
fetch lba blank = replicate 512 0
fetch lba (put at buf e d) = if at == lba then buf else fetch lba d

fetch-size : (lba : ℕ) (d : Sectors) → length (fetch lba d) ≡ 512
unfolding fetch
fetch-size lba blank = length-replicate {A = ℕ} 512 0
fetch-size lba (put at buf e d) = elim (Bool-cases (at == lba)) [
  | inl y ↦ rw y e
  | inr n ↦ rw n (fetch-size lba d)
]

-- A buffer of another size is refused.
store_if : ℕ → (buf : List ℕ) → Sectors → Dec (length buf ≡ 512) → Option Sectors
store_if lba buf d (yes e) = some (put lba buf e d)
store_if lba buf d (no ne) = none

pub store : ℕ → List ℕ → Sectors → Option Sectors
unfolding store_if
store lba buf d = store_if lba buf d (ℕ_discrete (length buf) 512)

abbrev pub ram : DiskOps
ram = record { Disk = Sectors; read = λ lba d. some (fetch lba d); write = store }

stored :
    (lba : ℕ) (buf : List ℕ) (d d' : Sectors) (c : Dec (length buf ≡ 512))
    → store_if lba buf d c ≡ some d'
    → (e : length buf ≡ 512) × (put lba buf e d ≡ d')
unfolding store_if
stored lba buf d d' (yes e) h = (e, cc)
stored lba buf d d' (no ne) h = absurd (cc)

fetch-put :
    (lba other : ℕ) (buf : List ℕ) (e : length buf ≡ 512) (d : Sectors)
    → fetch other (put lba buf e d) ≡ (if lba == other then buf else fetch other d)
unfolding fetch
fetch-put lba other buf e d = refl

pub ram-IsDisk : IsDisk ram
unfolding store
ram-IsDisk = record {
  size =
      λ {lba} {d} {buf} r. let eq : fetch lba d ≡ buf = cc in ap length (sym eq) ∙ fetch-size lba d;
  read_written = λ {lba} {buf} {d} {d'} size w.
      let (e, eq) = stored lba buf d d' (ℕ_discrete (length buf) 512) w in
      let same : (lba == lba) ≡ true = ground arith in
      rw (← eq, fetch-put lba lba buf e d, same) refl;
  read_other = λ {lba} {other} {buf} {d} {d'} ne w.
      let (e, eq) = stored lba buf d d' (ℕ_discrete (length buf) 512) w in
      let differ : (lba == other) ≡ false = ground arith in
      rw (← eq, fetch-put lba other buf e d, differ) refl;
}

store_if_sized :
    (lba : ℕ) (buf : List ℕ) (d : Sectors) (c : Dec (length buf ≡ 512))
    → length buf ≡ 512
    → (d' : Sectors) × (store_if lba buf d c ≡ some d')
unfolding store_if
store_if_sized lba buf d (yes e) size = (put lba buf e d, refl)
store_if_sized lba buf d (no ne) size = absurd (ne size)

pub ram-Writable : Writable ram
unfolding store
ram-Writable lba buf d size = store_if_sized lba buf d (ℕ_discrete (length buf) 512) size

-- One sector per cluster, the table in sector 1, the root directory in cluster 2.
abbrev pub volume : Volume
volume = record {
  fat_start_lba = 1;
  data_start_lba = 9;
  root_cluster = 2;
  sectors_per_cluster = 1;
  current_cluster = 2;
  previous_cluster = 2;
}

abbrev pub table : List ℕ
table = 248 ∷ 255 ∷ 255 ∷ 15 ∷ 255 ∷ 255 ∷ 255 ∷ 15 ∷ 255 ∷ 255 ∷ 255 ∷ 15 ∷ replicate 500 0

abbrev pub formatted : Sectors
formatted = put 1 table refl blank

abbrev note : List ℕ
note = b'n' ∷ b'o' ∷ b't' ∷ b'e' ∷ 0 ∷ []

abbrev txt : List ℕ
txt = b't' ∷ b'x' ∷ b't' ∷ 0 ∷ []

created_ok : (fat32_create_file ram volume note txt formatted).0 ≡ 0
unfolding fat32_create_file fetch
created_ok = refl

fat32_find_file-fat32_create_file_example :
    (e : List ℕ) × (o : ℕ) × (fat32_find_file ram 1 volume note txt
        (fat32_create_file ram volume note txt formatted).1
      ≡ some (found e (cluster_to_lba volume 2) o))
    × (name_match e note txt ≡ true)
fat32_find_file-fat32_create_file_example =
    fat32_find_file-fat32_create_file ram ram-IsDisk ram-Writable 0 volume note txt formatted
      (omega arith) (omega arith) (omega arith) created_ok

free_found : fat32_find_free_cluster ram volume formatted ≢ 0
unfolding fat32_find_free_cluster fetch
free_found = omega arith

find_free_cluster-FirstFree_example :
    FirstFree ram volume 2 formatted (fat32_find_free_cluster ram volume formatted)
    × (fat32_find_free_cluster ram volume formatted < end_of_chain)
find_free_cluster-FirstFree_example = find_free_cluster-FirstFree ram volume formatted free_found

abbrev marked : List ℕ
marked = write_bytes table (entry_offset 3) (bytes32 (0x0FFFFFFF % 2 ^ 28))

marked_size : length marked ≡ 512
unfolding write_bytes entry_offset
marked_size = refl

table_read : fetch (fat_sector volume 3) formatted ≡ table
unfolding fetch fat_sector
table_read = refl

-- Cluster 3 becomes the end of a chain; cluster 2 still is one.
fat_next_cluster-fat_set_cluster_example :
    fat_next_cluster ram volume 2 (fat_set_cluster ram volume 3 0x0FFFFFFF formatted)
    ≡ (if 3 == 2 then 0x0FFFFFFF % 2 ^ 28 else fat_next_cluster ram volume 2 formatted)
fat_next_cluster-fat_set_cluster_example =
    fat_next_cluster-fat_set_cluster ram ram-IsDisk volume 3 2 0x0FFFFFFF formatted
      (ram-Writable (fat_sector volume 3) marked formatted marked_size).0 table (omega arith)
      (omega arith) (ap some table_read)
      (ram-Writable (fat_sector volume 3) marked formatted marked_size).1

-- A directory entry with first cluster 3.
abbrev entry : List ℕ
entry = new_entry note txt 3

abbrev contents : List ℕ
contents = sector_of note (if ltb 4 512 then 4 else 512)

contents_size : length contents ≡ 512
unfolding sector_of
contents_size = refl

entry_cluster : first_cluster entry ≡ 3
unfolding first_cluster new_entry
entry_cluster = refl

abbrev lba : ℕ
lba = cluster_to_lba volume (first_cluster entry)

fat32_read_file-fat32_write_file_example :
    let d' = (ram-Writable lba contents formatted contents_size).0 in
    (fat32_write_file ram volume entry 9 0 note 4 formatted ≡ (0, entry, d'))
    × (fat32_read_file ram volume entry 512 d' ≡ (0, contents))
fat32_read_file-fat32_write_file_example =
    fat32_read_file-fat32_write_file ram ram-IsDisk volume entry 9 0 note 4 formatted
      (ram-Writable lba contents formatted contents_size).0 (omega arith)
      (omega (arith, entry_cluster)) (omega (arith, entry_cluster)) (omega arith) (omega arith)
      (ram-Writable lba contents formatted contents_size).1
