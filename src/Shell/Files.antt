-- ===== src/Shell/Files.antt =====
-- kernel/shell.c: the commands on files and directories (`ls`, `cat`, `cd`, `touch`, `write`, `rm`).
use prajna_os.Base.{
  ℕ, ◌^◌, List, [], ◌∷◌, ◌++◌, Option, none, some, Bool, true, false, ◌&&◌, ◌==◌, ltb,
  if◌then◌else◌, get_or, take, drop, map, codes,
}
use prajna_os.Block.{DiskOps}
use prajna_os.Klib.{kstrlen}
use prajna_os.Fat.{Volume, read32}
use prajna_os.Fat.Names.{first_cluster}
use prajna_os.Fat.Dir.{
  failed, found, fat32_find_file, fat32_find_dir, fat32_create_file, fat32_file_delete,
}
use prajna_os.Fat.File.{fat32_read_file, fat32_write_file}
use prajna_os.Fat.Listing.{fat32_list_dir}
use prajna_os.Shell.{Shown, char, print, parse_name, skip_char}
use prajna_os.Shell.Iris.{over_junk}

-- What the local variables `file_buf`, `entry`, `dir_sector` and `dir_offset` hold before they are set.
pub record Locals : Type 0 where
  pub file_buf : List ℕ
  pub entry : List ℕ
  pub dir_sector : ℕ
  pub dir_offset : ℕ

-- A command's end: the globals of the file system, the disk, and what was shown.
pub record Done (Disk : Type 0) : Type 0 where
  pub volume : Volume
  pub disk : Disk
  pub shown : List Shown

abbrev pub no_stop : ℕ → Bool
no_stop c = false

abbrev pub at_blank : ℕ → Bool
at_blank c = c == b' '

-- The loop of `cat` up to `(int)entry.file_size`, and the newline.
unfoldable pub show_contents : List ℕ → List ℕ → List Shown
unfolding read32
show_contents entry buf =
    let size = read32 entry 28 in
    let count = if ltb size (2 ^ 31) then (if ltb size 512 then size else 512) else 0 in
    map (λ c. char c 0x0F) (take count buf) ++ (char 10 0x0F ∷ [])

-- One of two messages, by the code that a call returned.
unfoldable pub report : ℕ → List ℕ → List ℕ → List Shown
unfolding print
report code good bad = if code == 0 then print good 0x0A else print bad 0x0C

module _ (ops : DiskOps) where
  open ops use {Disk}

  -- A command that leaves the file system as it is.
  abbrev pub only_shows : Volume → Disk → Option (List Shown) → Option (Done Disk)
  only_shows g d none = none
  only_shows g d (some shown) = some (record { volume = g; disk = d; shown = shown })

  -- The fuel goes to the chain walks below.
  unfoldable pub ls_command : ℕ → Volume → Disk → Option (List Shown)
  ls_command fuel g d = elim (fat32_list_dir ops fuel g d) [
    | none ↦ none
    | some calls ↦ some (map (λ (call : ℕ × ℕ). char call.0 call.1) calls)
  ]

  unfoldable pub cat_command : ℕ → Volume → Locals → List ℕ → Disk → Option (List Shown)
  unfolding print parse_name show_contents
  cat_command fuel g l cmd d =
      let f = parse_name no_stop (drop 4 cmd) in
      elim (get_or cmd 3 0 == b' ') [
        | false ↦ some (print (codes "Usage: cat FILENAME.EXT") 0x0C)
        | true ↦ elim (fat32_find_file ops fuel g f.name f.ext d) [
          | none ↦ none
          | some (failed code) ↦ some (print (codes "File not found") 0x0C)
          | some (found entry dir_sector dir_offset) ↦
              let (code, stored) = fat32_read_file ops g entry 512 d in
              some (show_contents entry (over_junk stored l.file_buf))
        ]
      ]

  -- The globals and what is shown.
  unfoldable pub cd_command : ℕ → Volume → List ℕ → Disk → Option (Volume × List Shown)
  unfolding print first_cluster
  cd_command fuel g cmd d =
      let arg = drop 3 cmd in
      elim (get_or cmd 2 0 == b' ') [
        | false ↦ some (g, print (codes "Usage: cd FOLDERNAME") 0x0C)
        | true ↦ elim ((get_or arg 0 0 == b'.') && (get_or arg 1 0 == b'.')) [
          | true ↦ some (
            record g { current_cluster = g.previous_cluster; previous_cluster = g.root_cluster },
            print (codes "OK") 0x0A,
          )
          | false ↦ elim (fat32_find_dir ops fuel g arg d) [
            | none ↦ none
            | some (failed code) ↦ some (g, print (codes "Directory not found") 0x0C)
            | some (found entry dir_sector dir_offset) ↦
                let cluster = first_cluster entry in
                some (
                  record g {
                    previous_cluster = g.current_cluster;
                    current_cluster = if cluster == 0 then g.root_cluster else cluster;
                  },
                  print (codes "OK") 0x0A,
                )
          ]
        ]
      ]

  unfoldable pub touch_command : Volume → List ℕ → Disk → List Shown × Disk
  unfolding print report parse_name
  touch_command g cmd d =
      let f = parse_name no_stop (drop 6 cmd) in
      let (code, d') = fat32_create_file ops g f.name f.ext d in
      if get_or cmd 5 0 == b' '
      then (report code (codes "File created") (codes "Failed to create file"), d')
      else (print (codes "Usage: touch FILENAME.TXT") 0x0C, d)

  -- Where the file is not found, `entry`, `dir_sector` and `dir_offset` are not set.
  unfoldable pub write_command : ℕ → Volume → Locals → List ℕ → Disk → Option (List Shown × Disk)
  unfolding print report parse_name skip_char kstrlen
  write_command fuel g l cmd d =
      let f = parse_name at_blank (drop 6 cmd) in
      let content = skip_char b' ' f.rest in
      let size = kstrlen content in
      elim (get_or cmd 5 0 == b' ') [
        | false ↦ some (print (codes "Usage: write FILENAME.EXT text") 0x0C, d)
        | true ↦ elim (fat32_find_file ops fuel g f.name f.ext d) [
          | none ↦ none
          | some (found entry dir_sector dir_offset) ↦
              let (code, entry', d') =
                fat32_write_file ops g entry dir_sector dir_offset content size d in
              some (report code (codes "Written") (codes "Write failed"), d')
          | some (failed code) ↦
              let (crea, d1) = fat32_create_file ops g f.name f.ext d in
              let (res, entry', d2) =
                fat32_write_file ops g l.entry l.dir_sector l.dir_offset content size d1 in
              some (report res (codes "File created and written") (codes "Write failed"), d2)
        ]
      ]

  unfoldable pub rm_command : ℕ → Volume → List ℕ → Disk → Option (List Shown × Disk)
  unfolding print report parse_name
  rm_command fuel g cmd d =
      let f = parse_name no_stop (drop 3 cmd) in
      elim (get_or cmd 2 0 == b' ') [
        | false ↦ some (print (codes "Usage: rm FILENAME.EXT") 0x0C, d)
        | true ↦ elim (fat32_file_delete ops fuel g f.name f.ext d) [
          | none ↦ none
          | some (code, d') ↦
              some (report code (codes "File deleted") (codes "Failed to delete file"), d')
        ]
      ]
