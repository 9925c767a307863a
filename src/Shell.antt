-- ===== src/Shell.antt =====
-- kernel/shell.c: the commands of the shell. Here what it prints, the names of files in its arguments,
-- and which command a line is; the children hold the commands.
pub mod Iris
pub mod Files
pub mod Reports
pub mod Handle
pub mod Names
pub mod Words
pub mod Session
use prajna_os.Base.{
  ℕ, zero, suc, ◌-◌, List, [], ◌∷◌, ◌++◌, Bool, true, false, ◌||◌, ◌==◌, if◌then◌else◌, get_or,
  drop, replicate, length, codes,
}
use prajna_os.Klib.{kstrcmp_eq}

-- What a command does outside the disk: `put_char`, `clear_screen`, `halt` and the reset that `reboot`
-- sends once the keyboard controller is ready.
pub data Shown : Type 0 where
  char : ℕ → ℕ → Shown
  cleared : Shown
  halted : Shown
  reset : Shown

-- `print_prompt`: the characters up to the NUL.
unfoldable pub print_prompt : List ℕ → ℕ → List Shown
print_prompt [] color = []
print_prompt (c ∷ s) color = if c == 0 then [] else char c color ∷ print_prompt s color

unfoldable pub print : List ℕ → ℕ → List Shown
unfolding print_prompt
print s color = print_prompt s color ++ (char 10 color ∷ [])

-- `while (arg[j] && arg[j] is no stop && n < limit) out[n++] = arg[j++];`: what is copied, and `arg + j`.
unfoldable pub copy_chars : (ℕ → Bool) → ℕ → List ℕ → List ℕ × List ℕ
copy_chars stop zero arg = ([], arg)
copy_chars stop (suc left) [] = ([], [])
copy_chars stop (suc left) (c ∷ arg) =
    let rest = copy_chars stop left arg in
    if (c == 0) || stop c then ([], c ∷ arg) else (c ∷ rest.0, rest.1)

-- `if (arg[j] == c) j++;`
unfoldable pub skip_char : ℕ → List ℕ → List ℕ
skip_char c [] = []
skip_char c (x ∷ arg) = if x == c then arg else x ∷ arg

-- `name[j] = '\0';` in an array of `n` blanks and a NUL, after `j` characters.
unfoldable pub as_array : ℕ → List ℕ → List ℕ
as_array n chars = chars ++ (0 ∷ drop (length chars) (replicate n b' '))

-- The arrays `name` and `ext`, and the rest of the argument.
pub record FileName : Type 0 where
  pub name : List ℕ
  pub ext : List ℕ
  pub rest : List ℕ

-- The extension ends at a character with `stop`.
unfoldable pub parse_name : (ℕ → Bool) → List ℕ → FileName
unfolding copy_chars skip_char as_array
parse_name stop arg =
    let (name, after) = copy_chars (λ c. c == b'.') 8 arg in
    let (ext, rest) = copy_chars stop 3 (skip_char b'.' after) in
    record { name = as_array 8 name; ext = as_array 3 ext; rest = rest }

-- The branches of `shell_handle`.
pub data Command : Type 0 where
  help about empty clear uptime echo version hello beep poweroff reboot classify : Command
  ls cat cd touch write status ps why memory_history rm log unknown : Command

-- The words of the branches, in their order.
abbrev pub words : List (List ℕ × Command)
words =
    (codes "clear", clear)
    ∷ (codes "uptime", uptime)
    ∷ (codes "echo", echo)
    ∷ (codes "version", version)
    ∷ (codes "hello", hello)
    ∷ (codes "beep", beep)
    ∷ (codes "poweroff", poweroff)
    ∷ (codes "reboot", reboot)
    ∷ (codes "classify", classify)
    ∷ (codes "ls", ls)
    ∷ (codes "cat", cat)
    ∷ (codes "cd", cd)
    ∷ (codes "touch", touch)
    ∷ (codes "write", write)
    ∷ (codes "prajna status", status)
    ∷ (codes "ps", ps)
    ∷ (codes "prajna why", why)
    ∷ (codes "memory history", memory_history)
    ∷ (codes "rm", rm)
    ∷ (codes "prajna log", log)
    ∷ []

-- The first branch whose word `kstrcmp` accepts.
unfoldable pub first_word : List ℕ → List (List ℕ × Command) → Command
unfolding kstrcmp_eq
first_word cmd [] = unknown
first_word cmd ((word, command) ∷ rest) =
    if kstrcmp_eq cmd word then command else first_word cmd rest

unfoldable pub command_of : List ℕ → Command
unfolding kstrcmp_eq first_word
command_of cmd =
    if kstrcmp_eq cmd (codes "help")
    then help
    else if kstrcmp_eq cmd (codes "about")
    then about
    else if get_or cmd 0 0 == 0
    then empty
    else first_word cmd words
