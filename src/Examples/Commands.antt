-- ===== src/Examples/Commands.antt =====
-- Lines typed to the shell, on the disk in memory.
use prajna_os.Base.{
  ℕ, ◌≡◌, ◌≢◌, ◌↔◌, refl, arith, List, [], ◌∷◌, ◌++◌, some, true, false, ◌==◌, get_or, take,
  replicate, codes, c_string,
}
use prajna_os.Fat.{Volume}
use prajna_os.Fat.Names.{name_match}
use prajna_os.Fat.Dir.{found, fat32_find_dir, fat32_create_file}
use prajna_os.Fat.File.{fat32_read_file}
use prajna_os.Ai.{calm}
use prajna_os.Shell.{Shown, ls, print, command_of, parse_name}
use prajna_os.Shell.Iris.{over_junk}
use prajna_os.Shell.Files.{Locals, Done, no_stop, report, show_contents, touch_command, cd_command}
use prajna_os.Shell.Handle.{System, prompt, run_command, shell_handle}
use prajna_os.Shell.Names.{Plain, parse_name-append}
use prajna_os.Shell.Words.{Listed, Says, commands, command_of_lem}
use prajna_os.Shell.Session.{cat-touch, cd_command-back}
use prajna_os.Examples.Fixed.{fixed}
use prajna_os.Examples.Files.{ram, ram-IsDisk, ram-Writable, volume, formatted, fetch, Sectors, put}

abbrev system : System fixed
system = record {
  ticks = 1234;
  prajna = record {
    last_ai_tick = 0;
    ai_online = true;
    current_state = calm;
    starvation_warned = false;
    log = record { event_log = []; event_index = 0; event_filled = false };
    mem_history = record { free_pages = []; ticks = []; history_index = 0; history_filled = false };
    mem_trend = record { oldest_pages = 0; newest_pages = 0; oldest_tick = 0; newest_tick = 0 };
    task_history = [];
    perm_table = [];
  };
  tasks = [];
}

abbrev pub locals : Locals
locals = record {
  file_buf = replicate 512 0;
  entry = replicate 32 0;
  dir_sector = 0;
  dir_offset = 0;
}

-- The argument of `touch note.txt`.
abbrev arg : List ℕ
arg = codes "note.txt" ++ (0 ∷ [])

parse_name-append_example :
    let f = parse_name no_stop (codes "note" ++ (b'.' ∷ (codes "txt" ++ (0 ∷ [])))) in
    (c_string f.name ≡ codes "note") × (c_string f.ext ≡ codes "txt") × (f.rest ≡ 0 ∷ [])
parse_name-append_example =
    parse_name-append no_stop (codes "note") (codes "txt") (0 ∷ []) (omega arith) (omega arith)
      plain_name plain_ext refl
  where
    plain_name : Plain (λ c. c == b'.') (codes "note")
    plain_name = ground arith

    plain_ext : Plain no_stop (codes "txt")
    plain_ext = ground arith

-- `ls` with a blank behind it.
command_of_lem_example :
    (command_of (codes "ls ") ≡ ls)
    ↔ ((word : List ℕ) × Listed word ls commands × Says (codes "ls ") word)
command_of_lem_example = command_of_lem (codes "ls ") ls (cc) (cc)

abbrev after : Sectors
after =
    (fat32_create_file ram volume (parse_name no_stop arg).name (parse_name no_stop arg).ext
      formatted).1

touched :
    shell_handle fixed ram 1 system locals (codes "touch " ++ arg) volume formatted
    ≡ some (record {
      volume = volume;
      disk = after;
      shown = print (codes "File created") 0x0A ++ prompt;
    })
unfolding shell_handle command_of run_command touch_command report fat32_create_file fetch
touched = refl

abbrev reply : Done Sectors
reply = record {
  volume = volume;
  disk = after;
  shown = print (codes "File created") 0x0A ++ prompt;
}

first_letter : get_or (parse_name no_stop arg).name 0 0 ≢ 0xE5
unfolding parse_name
first_letter = omega arith

cat-touch_example :
    (e : List ℕ) × (name_match e (parse_name no_stop arg).name (parse_name no_stop arg).ext ≡ true)
    × (shell_handle fixed ram 1 system locals (codes "cat " ++ arg) volume after
        ≡ some (record {
          volume = volume;
          disk = after;
          shown =
              show_contents e (over_junk (fat32_read_file ram volume e 512 after).1 locals.file_buf)
              ++ prompt;
        }))
cat-touch_example =
    cat-touch fixed ram ram-IsDisk ram-Writable 0 system system locals locals arg volume formatted
      after (omega arith) (omega arith) first_letter touched

-- A root directory whose first entry is the directory DOCS at cluster 5.
abbrev docs : List ℕ
docs = codes "DOCS       " ++ (0x10 ∷ (replicate 14 0 ++ (5 ∷ (replicate 485 0))))

abbrev with_docs : Sectors
with_docs = put 9 docs refl formatted

abbrev docs_entry : List ℕ
docs_entry = take 32 docs

docs_found : fat32_find_dir ram 1 volume (codes "docs") with_docs ≡ some (found docs_entry 0 0)
unfolding fat32_find_dir fetch
docs_found = refl

cd_command-back_example :
    (g1 g2 g3 : Volume) × (s1 s2 s3 : List Shown) × (cd_command ram 1 volume
        (codes "cd " ++ codes "docs")
        with_docs
      ≡ some (g1, s1))
    × (cd_command ram 1 g1 (codes "cd ..") with_docs ≡ some (g2, s2))
    × (cd_command ram 1 g2 (codes "cd ..") with_docs ≡ some (g3, s3))
    × (g2.current_cluster ≡ 2)
    × (g3.current_cluster ≡ 2)
cd_command-back_example = cd_command-back ram 1 volume (codes "docs") with_docs refl docs_found
