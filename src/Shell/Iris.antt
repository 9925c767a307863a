-- ===== src/Shell/Iris.antt =====
-- kernel/shell.c: the two classifiers of iris flowers and the command `classify`.
use prajna_os.Base.{ℕ, ◌++◌, List, Option, none, some, if◌then◌else◌, drop, length, codes}
use prajna_os.Float32.{FloatOps}
use prajna_os.Block.{DiskOps}
use prajna_os.Fat.{Volume, read32}
use prajna_os.Fat.Dir.{failed, found, fat32_find_file}
use prajna_os.Fat.File.{fat32_read_file}
use prajna_os.Shell.{Shown, print}

-- A class, or -1.
pub data Species : Type 0 where
  setosa versicolor virginica not_found : Species

-- What stands in a local array after its first bytes were stored: the others are what was there.
abbrev pub over_junk : List ℕ → List ℕ → List ℕ
over_junk stored junk = stored ++ drop (length stored) junk

module _ (fl : FloatOps) where
  open fl use {Float, decimal, of_bits, fle}

  unfoldable pub classify_iris : Float → Float → Float → Float → Species
  classify_iris sl sw pl pw =
      if fle pl (decimal 245 2)
      then setosa
      else if fle pw (decimal 175 2)
      then (if fle pl (decimal 495 2) then versicolor else virginica)
      else virginica

  -- The decision behind the reads, with the bytes in `buf`.
  unfoldable pub classify_with : List ℕ → Float → Float → Species
  unfolding read32
  classify_with buf pl pw =
      if fle pl (of_bits (read32 buf 0))
      then setosa
      else if fle pl (of_bits (read32 buf 4))
      then (if fle pw (of_bits (read32 buf 8)) then versicolor else virginica)
      else if fle pw (of_bits (read32 buf 12))
      then versicolor
      else virginica

  module _ (ops : DiskOps) where
    -- `junk` is what `buf` holds before the call. The code of `fat32_read_file` is not looked at.
    unfoldable pub classify_iris_from_disk :
        ℕ → Volume → List ℕ → ops.Disk → Float → Float → Float → Float → Option Species
    unfolding classify_with
    classify_iris_from_disk fuel g junk d sl sw pl pw =
        elim (fat32_find_file ops fuel g (codes "IRIS") (codes "BIN") d) [
          | none ↦ none
          | some (failed code) ↦ some not_found
          | some (found entry dir_sector dir_offset) ↦
              let (code, stored) = fat32_read_file ops g entry 512 d in
              some (classify_with (over_junk stored junk) pl pw)
        ]

    abbrev species_name : Species → List ℕ
    species_name setosa = codes "Setosa"
    species_name versicolor = codes "Versicolor"
    species_name virginica = codes "Virginica"
    species_name not_found = codes "Virginica"

    -- With class 1 the thresholds in the code decide again.
    unfoldable pub show_species : Float → Float → Float → Float → Species → List Shown
    unfolding classify_iris print
    show_species sl sw pl pw versicolor =
        print (codes "hardcoded: ") 0x0A ++ print (species_name (classify_iris sl sw pl pw)) 0x0A
    show_species sl sw pl pw species = print (species_name species) 0x0A

    unfoldable pub classify_command : ℕ → Volume → List ℕ → ops.Disk → Option (List Shown)
    unfolding classify_iris_from_disk show_species
    classify_command fuel g junk d =
        let sl = decimal 51 1 in
        let sw = decimal 35 1 in
        let pl = decimal 14 1 in
        let pw = decimal 2 1 in
        elim (classify_iris_from_disk fuel g junk d sl sw pl pw) [
          | none ↦ none
          | some species ↦ some (show_species sl sw pl pw species)
        ]
