-- ===== src/Ata/Transfer.antt =====
-- kernel/ata.c: the 256 words of a sector on the data port, and the 512 bytes in `buf`.
use prajna_os.Base.{
  ℕ, zero, suc, ◌+◌, ◌*◌, ◌<◌, ◌≡◌, refl, ◌∙◌, sym, ap, ap₂, arith, true, false, ◌==◌, List, [],
  ◌∷◌, ◌++◌, bit_or, passes, passes_at, u8, u16, ◌<<<◌, ◌>>>◌, length, length-append, get_or, set,
  leb,
}
use mathlib.Core.List.{append_assoc}
use prajna_os.Ata.{Ports, ata_data, read_words, write_words, word_at}
use prajna_os.Ata.Drive.{IsDrive, Drive, idle, writing, still_reading, store}

-- The bytes of words, the low byte first.
abbrev pub bytes_of : List ℕ → List ℕ
bytes_of [] = []
bytes_of (w ∷ ws) = u8 w ∷ u8 (u16 w >>> 8) ∷ bytes_of ws

-- The words that `write_words` sends from word `i` on.
abbrev pub words_of : ℕ → ℕ → List ℕ → List ℕ
words_of zero i buf = []
words_of (suc left) i buf = word_at buf i ∷ words_of left (suc i) buf

abbrev pub AllBytes : List ℕ → Type 0
AllBytes [] = Unit {0}
AllBytes (b ∷ bs) = (b < 256) × AllBytes bs

pub length-words_of : (left i : ℕ) (buf : List ℕ) → length (words_of left i buf) ≡ left
length-words_of zero i buf = refl
length-words_of (suc left) i buf = ap suc (length-words_of left (suc i) buf)

pub length-bytes_of : (ws : List ℕ) → length (bytes_of ws) ≡ length ws * 2
length-bytes_of [] = refl
length-bytes_of (w ∷ ws) = omega (arith, length-bytes_of ws)

-- `|` joins the two bytes of a word, at all their values.
word_table : passes (λ b. passes (λ a. bit_or a (b <<< 8) == a + b * 256) 256) 256 ≡ true
unfolding passes
word_table = refl

word_of_bytes : (a b : ℕ) → a < 256 → b < 256 → bit_or a (b <<< 8) ≡ a + b * 256
word_of_bytes a b ha hb =
    let row =
      passes_at (λ b. passes (λ a. bit_or a (b <<< 8) == a + b * 256) 256) 256 hb word_table in
    ground (arith, passes_at (λ a. bit_or a (b <<< 8) == a + b * 256) 256 ha row)

-- An element behind a prefix.
set_behind :
    (pre rest : List ℕ) (n a x : ℕ)
    → n ≡ length pre
    → set (pre ++ (a ∷ rest)) n x ≡ pre ++ (x ∷ rest)
set_behind [] rest zero a x h = refl
set_behind [] rest (suc n) a x h = absurd (omega arith)
set_behind (p ∷ pre) rest zero a x h = absurd (omega arith)
set_behind (p ∷ pre) rest (suc n) a x h = ap (◌∷◌ p) (set_behind pre rest n a x (omega arith))

get_behind : (pre rest : List ℕ) (n a : ℕ) → n ≡ length pre → get_or (pre ++ (a ∷ rest)) n 0 ≡ a
get_behind [] rest zero a h = refl
get_behind [] rest (suc n) a h = absurd (omega arith)
get_behind (p ∷ pre) rest zero a h = absurd (omega arith)
get_behind (p ∷ pre) rest (suc n) a h = get_behind pre rest n a (omega arith)

snoc : (pre rest : List ℕ) (a : ℕ) → pre ++ (a ∷ rest) ≡ (pre ++ (a ∷ [])) ++ rest
snoc pre rest a = sym (append_assoc pre (a ∷ []) rest)

length-snoc : (pre : List ℕ) (a : ℕ) → length (pre ++ (a ∷ [])) ≡ length pre + 1
length-snoc pre a = length-append pre (a ∷ [])

-- The two bytes of word `i`, stored behind a prefix of `2 i` bytes.
set_pair :
    (pre rest : List ℕ) (i a b x y : ℕ)
    → length pre ≡ i * 2
    → set (set (pre ++ (a ∷ b ∷ rest)) (i * 2) x) (i * 2 + 1) y
      ≡ ((pre ++ (x ∷ [])) ++ (y ∷ [])) ++ rest
set_pair pre rest i a b x y h =
    rw (set_behind pre (b ∷ rest) (i * 2) a x (omega arith), snoc pre (b ∷ rest) x)
      (set_behind (pre ++ (x ∷ [])) rest (i * 2 + 1) b y (omega (arith, length-snoc pre x))
        ∙ snoc (pre ++ (x ∷ [])) rest y)

word_behind :
    (pre rest : List ℕ) (i a b : ℕ)
    → length pre ≡ i * 2
    → a < 256
    → b < 256
    → word_at (pre ++ (a ∷ b ∷ rest)) i ≡ a + b * 256
word_behind pre rest i a b h ha hb =
    let low : get_or (pre ++ (a ∷ b ∷ rest)) (i * 2) 0 ≡ a =
      get_behind pre (b ∷ rest) (i * 2) a (omega arith) in
    let high : get_or (pre ++ (a ∷ b ∷ rest)) (i * 2 + 1) 0 ≡ b =
      rw (snoc pre (b ∷ rest) a)
        (get_behind (pre ++ (a ∷ [])) rest (i * 2 + 1) b (omega (arith, length-snoc pre a))) in
    rw (low, high, word_of_bytes a b ha hb) (omega arith)

-- The bytes of a sector come back from its words.
pub bytes_of-words_of :
    (left i : ℕ) (pre rest : List ℕ)
    → length pre ≡ i * 2
    → length rest ≡ left * 2
    → AllBytes rest
    → bytes_of (words_of left i (pre ++ rest)) ≡ rest
bytes_of-words_of zero i pre [] h k all = refl
bytes_of-words_of zero i pre (a ∷ rest) h k all = absurd (omega arith)
bytes_of-words_of (suc left) i pre [] h k all = absurd (omega arith)
bytes_of-words_of (suc left) i pre (a ∷ []) h k all = absurd (omega arith)
bytes_of-words_of (suc left) i pre (a ∷ b ∷ rest) h k all =
    let pre' = (pre ++ (a ∷ [])) ++ (b ∷ []) in
    let same : pre ++ (a ∷ b ∷ rest) ≡ pre' ++ rest =
      snoc pre (b ∷ rest) a ∙ snoc (pre ++ (a ∷ [])) rest b in
    let more : bytes_of (words_of left (suc i) (pre ++ (a ∷ b ∷ rest))) ≡ rest = rw same (
      bytes_of-words_of left (suc i) pre' rest
        (omega (arith, length-snoc pre a, length-snoc (pre ++ (a ∷ [])) b)) (omega arith)
        all.1.1) in
    rw (word_behind pre rest i a b h all.0 all.1.0)
      (ap₂ ◌∷◌ (omega arith) (ap₂ ◌∷◌ (omega arith) more))

module _ {io : Ports} {drive : io.State → Drive} {delay : io.State → ℕ}
    (v : IsDrive io drive delay) where
  -- The read loop moves the words of the sector into the bytes behind a prefix.
  pub read_words_lem :
      (left i : ℕ) (ws pre rest : List ℕ) (s : io.State)
      → length ws ≡ left
      → length pre ≡ i * 2
      → length rest ≡ left * 2
      → delay s ≡ 0
      → (drive s).phase ≡ still_reading ws
      → let r = read_words io left i (pre ++ rest) s in
        (r.0 ≡ pre ++ bytes_of ws) × (drive r.1 ≡ record (drive s) { phase = idle })
  unfolding read_words
  read_words_lem zero i [] pre [] s l h k t e = (refl, ap (λ p. record (drive s) { phase = p }) e)
  read_words_lem zero i (w ∷ ws) pre rest s l h k t e = absurd (omega arith)
  read_words_lem zero i [] pre (a ∷ rest) s l h k t e = absurd (omega arith)
  read_words_lem (suc left) i [] pre rest s l h k t e = absurd (omega arith)
  read_words_lem (suc left) i (w ∷ ws) pre [] s l h k t e = absurd (omega arith)
  read_words_lem (suc left) i (w ∷ ws) pre (a ∷ []) s l h k t e = absurd (omega arith)
  read_words_lem (suc left) i (w ∷ ws) pre (a ∷ b ∷ rest) s l h k t e =
      let (word, next, still) = v.in_word w ws s t e in
      let s' = (io.inw ata_data s).1 in
      let x = u8 w in
      let y = u8 (u16 w >>> 8) in
      let pre' = (pre ++ (x ∷ [])) ++ (y ∷ []) in
      let (bytes, done) =
        read_words_lem left (suc i) ws pre' rest s' (omega arith)
          (omega (arith, length-snoc pre x, length-snoc (pre ++ (x ∷ [])) y)) (omega arith) still
          (ap Drive.phase next) in
      rw (read_words, word, set_pair pre rest i a b x y h)
        (
          bytes ∙ sym (snoc pre (y ∷ bytes_of ws) x ∙ snoc (pre ++ (x ∷ [])) (bytes_of ws) y),
          done ∙ ap (λ (d : Drive). record d { phase = idle }) next,
        )

  -- The write loop fills the sector with the words of `buf`, and the drive stores them all at once.
  pub write_words_lem :
      (left i : ℕ) (buf sent : List ℕ) (lba : ℕ) (s : io.State)
      → length sent + suc left ≡ 256
      → delay s ≡ 0
      → (drive s).phase ≡ writing lba sent
      → drive (write_words io (suc left) i buf s) ≡ record (drive s) {
        phase = idle;
        sectors = store lba (sent ++ words_of (suc left) i buf) (drive s).sectors;
      }
  unfolding write_words
  write_words_lem zero i buf sent lba s l t e =
      let (next, _) = v.out_word lba (word_at buf i) sent s t e in
      let full : leb 256 (length (sent ++ (word_at buf i ∷ []))) ≡ true =
        ground (arith, length-snoc sent (word_at buf i)) in
      next ∙ rw full
  write_words_lem (suc left) i buf sent lba s l t e =
      let w = word_at buf i in
      let (next, still) = v.out_word lba w sent s t e in
      let more : leb 256 (length (sent ++ (w ∷ []))) ≡ false = ground (arith, length-snoc sent w) in
      let s' = io.outw ata_data w s in
      let now : drive s' ≡ record (drive s) { phase = writing lba (sent ++ (w ∷ [])) } =
        next ∙ rw more in
      write_words_lem left (suc i) buf (sent ++ (w ∷ [])) lba s' (omega (arith, length-snoc sent w))
        (still (omega arith)) (ap Drive.phase now)
      ∙ rw (now, snoc sent (words_of (suc left) (suc i) buf) w)
