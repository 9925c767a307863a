-- ===== src/Fat/Names.antt =====
-- kernel/fat32.c: names in directory entries (`name_match`, the comparison in `fat32_find_dir`) and
-- the entry that `fat32_create_file` writes.
use prajna_os.Base.{
  ℕ, zero, suc, ◌+◌, ◌-◌, ◌*◌, ◌/◌, ◌%◌, ◌^◌, List, [], ◌∷◌, ◌++◌, Bool, true, not, ◌&&◌, ◌==◌, leb,
  if◌then◌else◌, get_or, take, drop, replicate, bit_and,
}
use prajna_os.Fat.{read16}

-- `if (c >= 'a' && c <= 'z') c -= 32;`
unfoldable pub upper : ℕ → ℕ
upper c = if leb b'a' c && leb c b'z' then c - 32 else c

-- The first `n` characters of a C string in upper case, filled up with blanks.
unfoldable pub padded : ℕ → List ℕ → List ℕ
unfolding upper
padded zero name = []
padded (suc n) [] = replicate (suc n) b' '
padded (suc n) (c ∷ name) = if c == 0 then replicate (suc n) b' ' else upper c ∷ padded n name

-- Compares the bytes of an entry, in upper case, with a padded name.
unfoldable pub same_chars : List ℕ → List ℕ → Bool
unfolding upper
same_chars actual [] = true
same_chars actual (p ∷ ps) = (upper (get_or actual 0 0) == p) && same_chars (drop 1 actual) ps

-- A `FAT32_Entry` is its 32 bytes: the name from offset 0, the extension from 8, the attributes at 11.
unfoldable pub name_match : List ℕ → List ℕ → List ℕ → Bool
unfolding padded same_chars
name_match entry name ext =
    same_chars (take 8 entry) (padded 8 name) && same_chars (take 3 (drop 8 entry)) (padded 3 ext)

-- The comparison of `fat32_find_dir`, from character `m` on: `name[m]` is read for every `m < 8`.
unfoldable pub dir_match : ℕ → ℕ → List ℕ → List ℕ → Bool
unfolding upper
dir_match zero m entry name = true
dir_match (suc left) m entry name =
    let c = get_or name m 0 in
    let want = if c == 0 then b' ' else c in
    (upper (get_or entry m 0) == upper want) && dir_match left (m + 1) entry name

unfoldable pub attributes : List ℕ → ℕ
attributes entry = get_or entry 11 0

unfoldable pub has_bit : ℕ → ℕ → Bool
has_bit mask attrs = not (bit_and attrs mask == 0)

-- `((uint32_t)entry->cluster_high << 16) | entry->cluster_low`
unfoldable pub first_cluster : List ℕ → ℕ
unfolding read16
first_cluster entry = read16 entry 20 * 2 ^ 16 + read16 entry 26

-- The bytes that `fat32_create_file` puts into a free slot.
unfoldable pub new_entry : List ℕ → List ℕ → ℕ → List ℕ
unfolding padded
new_entry name ext cluster =
    padded 8 name
    ++ (padded 3 ext
        ++ (0x20
            ∷ (replicate 8 0
                ++ (cluster / 2 ^ 16 % 2 ^ 8
                    ∷ cluster / 2 ^ 24 % 2 ^ 8
                    ∷ (replicate 4 0
                        ++ (cluster % 2 ^ 8 ∷ cluster / 2 ^ 8 % 2 ^ 8 ∷ replicate 4 0))))))
