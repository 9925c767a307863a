-- ===== src/Shell/Names.antt =====
-- kernel/shell.c: the parsing of `NAME.EXT` in `cat`, `touch`, `write` and `rm`.
use prajna_os.Base.{
  ℕ, zero, suc, ◌≤◌, ◌≡◌, ◌≢◌, refl, arith, ap, List, [], ◌∷◌, ◌++◌, Bool, true, false, ◌||◌, ◌==◌,
  length, c_string,
}
use prajna_os.Shell.{copy_chars, skip_char, as_array, parse_name}

-- No character is a NUL, and none stops the loop.
abbrev pub Plain : (ℕ → Bool) → List ℕ → Type 0
Plain stop [] = Unit {0}
Plain stop (c ∷ cs) = (c ≢ 0) × (stop c ≡ false) × Plain stop cs

-- What follows stops the loop, unless its limit does.
abbrev pub Stops : (ℕ → Bool) → List ℕ → Type 0
Stops stop [] = Unit {0}
Stops stop (c ∷ cs) = ((c == 0) || stop c) ≡ true

copy_chars_stop :
    (stop : ℕ → Bool) (limit : ℕ) (rest : List ℕ)
    → Stops stop rest
    → copy_chars stop limit rest ≡ ([], rest)
unfolding copy_chars
copy_chars_stop stop zero rest h = refl
copy_chars_stop stop (suc limit) [] h = refl
copy_chars_stop stop (suc limit) (c ∷ rest) h = rw h

-- Text within the limit is copied as a whole.
copy_chars-append :
    (stop : ℕ → Bool) (limit : ℕ) (text rest : List ℕ)
    → length text ≤ limit
    → Plain stop text
    → Stops stop rest
    → copy_chars stop limit (text ++ rest) ≡ (text, rest)
unfolding copy_chars
copy_chars-append stop limit [] rest l p h = copy_chars_stop stop limit rest h
copy_chars-append stop zero (c ∷ text) rest l p h = absurd (omega arith)
copy_chars-append stop (suc limit) (c ∷ text) rest l p h =
    let here : ((c == 0) || stop c) ≡ false = ground (arith, p.0, p.1) in
    let more = copy_chars-append stop limit text rest (omega arith) p.2 h in rw (here, more)

c_string-as_array :
    (stop : ℕ → Bool) (n : ℕ) (text : List ℕ) → Plain stop text → c_string (as_array n text) ≡ text
unfolding as_array
c_string-as_array stop n text p = ended stop text _ p
  where
    ended :
        (stop : ℕ → Bool) (text after : List ℕ)
        → Plain stop text
        → c_string (text ++ (0 ∷ after)) ≡ text
    ended stop [] after p = refl
    ended stop (c ∷ text) after p =
        let here : (c == 0) ≡ false = ground (arith, p.0) in
        rw here (ap (◌∷◌ c) (ended stop text after p.2))

-- A name of at most eight characters without a dot, a dot, and an extension of at most three
-- characters, with what ends the argument behind them, are parsed to that name, that extension and
-- what is behind them.
pub parse_name-append :
    (stop : ℕ → Bool) (name ext rest : List ℕ)
    → length name ≤ 8
    → length ext ≤ 3
    → Plain (λ c. c == b'.') name
    → Plain stop ext
    → Stops stop rest
    → let f = parse_name stop (name ++ (b'.' ∷ (ext ++ rest))) in
      (c_string f.name ≡ name) × (c_string f.ext ≡ ext) × (f.rest ≡ rest)
unfolding parse_name skip_char
parse_name-append stop name ext rest l m p q h =
    let first = copy_chars-append (λ c. c == b'.') 8 name (b'.' ∷ (ext ++ rest)) l p refl in
    let second = copy_chars-append stop 3 ext rest m q h in
    rw (first, second)
      (c_string-as_array (λ c. c == b'.') 8 name p, c_string-as_array stop 3 ext q, refl)
