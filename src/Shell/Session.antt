-- ===== src/Shell/Session.antt =====
-- kernel/shell.c: commands that follow one another.
use prajna_os.Base.{
  ℕ, suc, ◌<◌, ◌≡◌, ◌≢◌, refl, ap, ◌∙◌, sym, List, ◌++◌, some, true, false, ◌&&◌, ◌==◌, ==_iff,
  if◌then◌else◌, get_or, Bool-cases, inl, inr, codes,
}
use prajna_os.Float32.{FloatOps}
use prajna_os.Block.{DiskOps, IsDisk}
use prajna_os.Fat.{Volume, end_of_chain}
use prajna_os.Fat.Names.{name_match, first_cluster}
use prajna_os.Fat.Dir.{found, fat32_find_file, fat32_find_dir, fat32_create_file}
use prajna_os.Fat.File.{fat32_read_file}
use prajna_os.Fat.Create.{Writable, fat32_find_file-fat32_create_file}
use prajna_os.Shell.{Shown, print, parse_name, cat, command_of}
use prajna_os.Shell.Iris.{over_junk}
use prajna_os.Shell.Files.{
  Locals, no_stop, only_shows, show_contents, report, cat_command, cd_command, touch_command,
}
use prajna_os.Shell.Handle.{System, prompt, with_prompt, run_command, shell_handle}

module _ (fl : FloatOps) (ops : DiskOps) where
  open ops use {Disk}

  -- A call of `touch` on the line of its argument.
  touch_line :
      (fuel : ℕ) (sys : System fl) (l : Locals) (arg : List ℕ) (g : Volume) (d : Disk)
      → let f = parse_name no_stop arg in
        let (code, d') = fat32_create_file ops g f.name f.ext d in
        shell_handle fl ops fuel sys l (codes "touch " ++ arg) g d
        ≡ some (record {
          volume = g;
          disk = d';
          shown = report code (codes "File created") (codes "Failed to create file") ++ prompt;
        })
  unfolding shell_handle command_of run_command touch_command
  touch_line fuel sys l arg g d = refl

  cat_found :
      (fuel : ℕ) (l : Locals) (arg : List ℕ) (g : Volume) (d : Disk) {e : List ℕ}
      {sector offset : ℕ}
      → let f = parse_name no_stop arg in
        fat32_find_file ops fuel g f.name f.ext d ≡ some (found e sector offset)
        → cat_command ops fuel g l (codes "cat " ++ arg) d
          ≡ some (show_contents e (over_junk (fat32_read_file ops g e 512 d).1 l.file_buf))
  unfolding cat_command
  cat_found fuel l arg g d h = rw (cat_command, h) refl

  -- The line goes to `cat`, whose output stands before the prompt.
  cat_line :
      (fuel : ℕ) (sys : System fl) (l : Locals) (arg : List ℕ) (g : Volume) (d : Disk)
      {shown : List Shown}
      → cat_command ops fuel g l (codes "cat " ++ arg) d ≡ some shown
      → shell_handle fl ops fuel sys l (codes "cat " ++ arg) g d
        ≡ some (record { volume = g; disk = d; shown = shown ++ prompt })
  unfolding shell_handle command_of run_command
  cat_line fuel sys l arg g d h = ap (λ o. with_prompt fl ops cat (only_shows ops g d o)) h

  -- The two messages of `touch` have different colours.
  created_code :
      (code : ℕ)
      → report code (codes "File created") (codes "Failed to create file") ++ prompt
        ≡ print (codes "File created") 0x0A ++ prompt
      → code ≡ 0
  unfolding report print
  created_code code h = elim (Bool-cases (code == 0)) [
    | inl e ↦ (==_iff code 0).0 e
    | inr n ↦ absurd (cc (rw n at h))
  ]

  -- On a disk with 512-byte sectors that takes every write, with the current directory at a cluster
  -- below 0x0FFFFFF8 and at least one sector per cluster: where the line `touch` with some
  -- argument, whose name does not start with the byte 0xE5, answers "File created", the line `cat`
  -- with the same argument then shows the contents of an entry that `name_match` accepts for that
  -- argument, and changes nothing.
  pub cat-touch :
      IsDisk ops
      → Writable ops
      → (fuel : ℕ) (sys sys' : System fl) (l l' : Locals) (arg : List ℕ) (g : Volume) (d d' : Disk)
      → g.current_cluster < end_of_chain
      → 0 < g.sectors_per_cluster
      → get_or (parse_name no_stop arg).name 0 0 ≢ 0xE5
      → shell_handle fl ops (suc fuel) sys l (codes "touch " ++ arg) g d
        ≡ some
            (record { volume = g; disk = d'; shown = print (codes "File created") 0x0A ++ prompt })
      → (e : List ℕ) × (name_match e (parse_name no_stop arg).name (parse_name no_stop arg).ext
          ≡ true)
        × (shell_handle fl ops (suc fuel) sys' l' (codes "cat " ++ arg) g d'
            ≡ some (record {
              volume = g;
              disk = d';
              shown =
                  show_contents e (over_junk (fat32_read_file ops g e 512 d').1 l'.file_buf)
                  ++ prompt;
            }))
  cat-touch disk ok fuel sys sys' l l' arg g d d' c spc first h =
      let f = parse_name no_stop arg in
      let ran = sym (touch_line (suc fuel) sys l arg g d) ∙ h in
      let code : (fat32_create_file ops g f.name f.ext d).0 ≡ 0 = created_code _ (cc ran) in
      let left : (fat32_create_file ops g f.name f.ext d).1 ≡ d' = cc ran in
      let (e, offset, hit, same) =
        fat32_find_file-fat32_create_file ops disk ok fuel g f.name f.ext d c spc first code in
      let hit' = sym (ap (fat32_find_file ops (suc fuel) g f.name f.ext) left) ∙ hit in
      (e, same, cat_line (suc fuel) sys' l' arg g d' (cat_found (suc fuel) l' arg g d' hit'))

module _ (ops : DiskOps) where
  open ops use {Disk}

  -- After `cd` into a directory that `fat32_find_dir` finds, `cd ..` returns to the directory it
  -- was called in, and one more `cd ..` leads to the root directory, wherever that was.
  pub cd_command-back :
      (fuel : ℕ) (g : Volume) (name : List ℕ) (d : Disk) {e : List ℕ} {sector offset : ℕ}
      → ((get_or name 0 0 == b'.') && (get_or name 1 0 == b'.')) ≡ false
      → fat32_find_dir ops fuel g name d ≡ some (found e sector offset)
      → (g1 g2 g3 : Volume) × (s1 s2 s3 : List Shown) × (cd_command ops fuel g
            (codes "cd " ++ name)
            d
          ≡ some (g1, s1))
        × (cd_command ops fuel g1 (codes "cd ..") d ≡ some (g2, s2))
        × (cd_command ops fuel g2 (codes "cd ..") d ≡ some (g3, s3))
        × (g2.current_cluster ≡ g.current_cluster)
        × (g3.current_cluster ≡ g.root_cluster)
  unfolding cd_command
  cd_command-back fuel g name d {e} n h =
      let cluster = first_cluster e in
      let g1 : Volume = record g {
        previous_cluster = g.current_cluster;
        current_cluster = if cluster == 0 then g.root_cluster else cluster;
      } in
      let g2 : Volume = record g {
        current_cluster = g.current_cluster;
        previous_cluster = g.root_cluster;
      } in
      let g3 : Volume = record g {
        current_cluster = g.root_cluster;
        previous_cluster = g.root_cluster;
      } in
      let shown = print (codes "OK") 0x0A in
      (g1, g2, g3, shown, shown, shown, rw (cd_command, n, h) refl, refl, refl, refl, refl)
