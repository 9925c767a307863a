-- ===== src/Shell/Words.antt =====
-- kernel/shell.c and `kstrcmp` of kernel/klib.c: which lines reach which branch of `shell_handle`.
use prajna_os.Base.{
  ℕ, suc, zero, ◌≡◌, ◌≢◌, ◌⊎◌, ◌↔◌, refl, arith, ap, ◌∙◌, sym, List, [], ◌∷◌, ◌++◌, some, Bool,
  true, false, ◌||◌, ◌==◌, if◌then◌else◌, get_or, get_elem?, Bool-cases, inl, inr, NoNul, codes,
}
use mathlib.Core.Path.{subst, ap₂}
use prajna_os.Klib.{kstrcmp_eq}
use prajna_os.Shell.{Command, help, about, empty, unknown, words, first_word, command_of}

-- What follows a command's word: a blank, or the end of the line.
abbrev pub Ends : List ℕ → Type 0
Ends rest = ((get_or rest 0 0 == b' ') || (get_or rest 0 0 == 0)) ≡ true

-- The line is the word, with a blank or the end behind it.
abbrev pub Says : List ℕ → List ℕ → Type 0
Says cmd word = (rest : List ℕ) × (cmd ≡ word ++ rest) × Ends rest

-- `kstrcmp` accepts exactly the lines that say the word.
kstrcmp-append :
    (word rest : List ℕ) → NoNul word → Ends rest → kstrcmp_eq (word ++ rest) word ≡ true
unfolding kstrcmp_eq
kstrcmp-append [] rest n e = e
kstrcmp-append (c ∷ word) rest n e =
    let here : (c == 0) ≡ false = ground (arith, n.0) in
    let same : (c == c) ≡ true = ground arith in rw (here, same) (kstrcmp-append word rest n.1 e)

kstrcmp_step :
    (x c : ℕ) (cmd word : List ℕ)
    → c ≢ 0
    → kstrcmp_eq (x ∷ cmd) (c ∷ word) ≡ true
    → (x ≡ c) × (kstrcmp_eq cmd word ≡ true)
unfolding kstrcmp_eq
kstrcmp_step x c cmd word n h = ground arith

kstrcmp-Says : (cmd word : List ℕ) → NoNul word → kstrcmp_eq cmd word ≡ true → Says cmd word
unfolding kstrcmp_eq
kstrcmp-Says cmd [] n h = (cmd, refl, h)
kstrcmp-Says [] (c ∷ word) n h = absurd (ground (arith, n.0))
kstrcmp-Says (x ∷ cmd) (c ∷ word) n h =
    let (same, more) = kstrcmp_step x c cmd word n.0 h in
    let (rest, text, ended) = kstrcmp-Says cmd word n.1 more in (rest, ap₂ ◌∷◌ same text, ended)

-- The words of all branches.
abbrev pub commands : List (List ℕ × Command)
commands = (codes "help", help) ∷ (codes "about", about) ∷ words

abbrev pub Listed : List ℕ → Command → List (List ℕ × Command) → Type 0
Listed word c table = (i : ℕ) × (get_elem? table i ≡ some (word, c))

abbrev All : (List ℕ → Command → Type 0) → List (List ℕ × Command) → Type 0
All P [] = Unit {0}
All P ((word, c) ∷ table) = P word c × All P table

All-Listed :
    (P : List ℕ → Command → Type 0) (table : List (List ℕ × Command)) (word : List ℕ) (c : Command)
    → All P table
    → Listed word c table
    → P word c
All-Listed P [] word c all (i, at) = absurd (cc)
All-Listed P ((w, k) ∷ table) word c all (zero, at) =
    let same : (w, k) ≡ (word, c) = cc in subst (λ (e : List ℕ × Command). P e.0 e.1) same all.0
All-Listed P ((w, k) ∷ table) word c all (suc i, at) = All-Listed P table word c all.1 (i, at)

abbrev Reaches : List ℕ → Command → Type 0
Reaches word c = (rest : List ℕ) → Ends rest → command_of (word ++ rest) ≡ c

commands-Reaches : All Reaches commands
unfolding command_of
commands-Reaches = (
  λ r e. rw e,
  (
    λ r e. rw e,
    (
      λ r e. rw e,
      (
        λ r e. rw e,
        (
          λ r e. rw e,
          (
            λ r e. rw e,
            (
              λ r e. rw e,
              (
                λ r e. rw e,
                (
                  λ r e. rw e,
                  (
                    λ r e. rw e,
                    (
                      λ r e. rw e,
                      (
                        λ r e. rw e,
                        (
                          λ r e. rw e,
                          (
                            λ r e. rw e,
                            (
                              λ r e. rw e,
                              (
                                λ r e. rw e,
                                (
                                  λ r e. rw e,
                                  (
                                    λ r e. rw e,
                                    (λ r e. rw e, (λ r e. rw e, (λ r e. rw e, (λ r e. rw e, tt)))),
                                  ),
                                ),
                              ),
                            ),
                          ),
                        ),
                      ),
                    ),
                  ),
                ),
              ),
            ),
          ),
        ),
      ),
    ),
  ),
)

first_word-Says :
    (cmd : List ℕ) (table : List (List ℕ × Command)) (c : Command)
    → All (λ word k. NoNul word) table
    → first_word cmd table ≡ c
    → (c ≡ unknown) ⊎ ((word : List ℕ) × Listed word c table × Says cmd word)
unfolding first_word
first_word-Says cmd [] c n h = inl (sym h)
first_word-Says cmd ((word, k) ∷ table) c n h = elim (Bool-cases (kstrcmp_eq cmd word)) [
  | inl hit ↦
      let same : k ≡ c = sym (rw hit refl) ∙ h in
      inr (word, (zero, ap (λ x. some (word, x)) same), kstrcmp-Says cmd word n.0 hit)
  | inr miss ↦
      let rest : first_word cmd table ≡ c = sym (rw miss refl) ∙ h in
      elim (first_word-Says cmd table c n.1 rest) [
        | inl u ↦ inl u
        | inr (w, (i, at), said) ↦ inr (w, (suc i, at), said)
      ]
]

two_ifs :
    (h a e : Bool) (w : Command)
    → let c = if h then help else if a then about else if e then empty else w in
      (c ≡ empty) ⊎ (c ≡ (if h then help else if a then about else w))
two_ifs true a e w = inr refl
two_ifs false true e w = inr refl
two_ifs false false true w = inl refl
two_ifs false false false w = inr refl

-- `help` and `about` come first, then the empty line, which says no word.
command_of-first_word :
    (cmd : List ℕ) → (command_of cmd ≡ empty) ⊎ (command_of cmd ≡ first_word cmd commands)
unfolding command_of
command_of-first_word cmd =
    two_ifs (kstrcmp_eq cmd (codes "help")) (kstrcmp_eq cmd (codes "about")) (get_or cmd 0 0 == 0)
      (first_word cmd words)

commands-NoNul : All (λ word k. NoNul word) commands
commands-NoNul = omega arith

-- Except for the branches of the empty line and of unknown commands, a line reaches a branch of
-- `shell_handle` exactly when it is one of that branch's words with a blank or the end of the line
-- behind it.
pub command_of_lem :
    (cmd : List ℕ) (c : Command)
    → c ≢ unknown
    → c ≢ empty
    → (command_of cmd ≡ c) ↔ ((word : List ℕ) × Listed word c commands × Says cmd word)
command_of_lem cmd c known full = (
  λ h. elim (command_of-first_word cmd) [
    | inl e ↦ absurd (full (sym h ∙ e))
    | inr e ↦ elim (first_word-Says cmd commands c commands-NoNul (sym e ∙ h)) [
      | inl u ↦ absurd (known u)
      | inr said ↦ said
    ]
  ],
  λ (word, listed, (rest, text, ended)).
      ap command_of text ∙ All-Listed Reaches commands word c commands-Reaches listed rest ended,
)
