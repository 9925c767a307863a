-- ===== src/Fat/Listing.antt =====
-- kernel/fat32.c, `fat32_list_dir`: the calls of `put_char` it makes, each a character and a colour.
use prajna_os.Base.{
  ℕ, zero, suc, ◌+◌, List, [], ◌∷◌, ◌++◌, Option, none, some, Bool, true, false, ◌==◌, ltb,
  if◌then◌else◌, get_or, take, drop, u32,
}
use prajna_os.Block.{DiskOps}
use prajna_os.Fat.{Volume, end_of_chain, cluster_to_lba, fat_next_cluster}
use prajna_os.Fat.Names.{attributes, has_bit}
use prajna_os.Fat.Dir.{entry_at}

-- `for (...) { if (e[n] == ' ') break; put_char(e[n], 0x0A); }` over a field of an entry.
unfoldable pub show_field : List ℕ → List (ℕ × ℕ)
show_field [] = []
show_field (c ∷ cs) = if c == b' ' then [] else (c, 0x0A) ∷ show_field cs

unfoldable pub show_entry : List ℕ → List (ℕ × ℕ)
unfolding show_field attributes has_bit
show_entry e =
    show_field (take 8 e)
    ++ ((if has_bit 0x10 (attributes e)
          then (b'/', 0x0B) ∷ []
          else (b'.', 0x0A) ∷ show_field (take 3 (drop 8 e)))
        ++ ((10, 0x0A) ∷ []))

-- What a loop has printed, and whether the function has returned in it.
pub record Listed : Type 0 where
  pub shown : List (ℕ × ℕ)
  pub returned : Bool

-- What follows a part of the listing.
abbrev pub then_list : Listed → Listed → Listed
then_list a b =
    if a.returned then a else record { shown = a.shown ++ b.shown; returned = b.returned }

-- The entry loop, from entry `i`.
unfoldable pub list_entries : ℕ → ℕ → List ℕ → Listed
unfolding show_entry attributes has_bit
list_entries zero i buf = record { shown = []; returned = false }
list_entries (suc left) i buf =
    let e = entry_at buf i in
    let rest = list_entries left (i + 1) buf in
    if get_or e 0 0 == 0x00
    then record { shown = []; returned = true }
    else if get_or e 0 0 == 0xE5
    then rest
    else if attributes e == 0x0F
    then rest
    else if has_bit 0x08 (attributes e)
    then rest
    else record rest { shown = show_entry e ++ rest.shown }

module _ (ops : DiskOps) where
  open ops use {Disk, read}

  unfoldable pub list_sectors : ℕ → ℕ → Disk → Listed
  unfolding list_entries
  list_sectors zero sector d = record { shown = []; returned = false }
  list_sectors (suc left) sector d = elim (read (u32 sector) d) [
    | none ↦ record { shown = []; returned = true }
    | some buf ↦ then_list (list_entries 16 0 buf) (list_sectors left (sector + 1) d)
  ]

  -- The cluster loop; none where `fuel` rounds do not end it.
  unfoldable pub list_chain : ℕ → Volume → ℕ → Disk → Option (List (ℕ × ℕ))
  unfolding list_sectors cluster_to_lba fat_next_cluster
  list_chain zero g cluster d = none
  list_chain (suc fuel) g cluster d = elim (ltb cluster end_of_chain) [
    | false ↦ some []
    | true ↦
        let here = list_sectors g.sectors_per_cluster (cluster_to_lba g cluster) d in
        elim here.returned [
          | true ↦ some here.shown
          | false ↦ elim (list_chain fuel g (fat_next_cluster ops g cluster d) d) [
            | none ↦ none
            | some rest ↦ some (here.shown ++ rest)
          ]
        ]
  ]

  unfoldable pub fat32_list_dir : ℕ → Volume → Disk → Option (List (ℕ × ℕ))
  unfolding list_chain
  fat32_list_dir fuel g d = list_chain fuel g g.current_cluster d
