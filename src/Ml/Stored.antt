-- ===== src/Ml/Stored.antt =====
-- kernel/ml/ml_weights.c: the file format against the weights that are read from it.
use prajna_os.Base.{
  ℕ, zero, suc, ◌+◌, ◌*◌, ◌%◌, ◌^◌, ◌<◌, ◌≡◌, refl, arith, ap, ap₂, ◌∙◌, sym, List, [], ◌∷◌, ◌++◌,
  map, get_or, length, length-append,
}
use mathlib.Core.List.{append_assoc}
use prajna_os.Float32.{FloatOps}
use prajna_os.Fat.{read32, bytes32}
use prajna_os.Ml.{Weights, l1_in, l1_out, l2_in, l2_out, l3_in, l3_out}
use prajna_os.Ml.Load.{ml_magic, floats_at, parse_layer, parse_weights}

-- The floats of an array, as their 32-bit patterns in the file.
abbrev pub stored : List ℕ → List ℕ
stored [] = []
stored (w ∷ ws) = bytes32 w ++ stored ws

abbrev pub Patterns : List ℕ → Type 0
Patterns [] = Unit {0}
Patterns (w ∷ ws) = (w < 2 ^ 32) × Patterns ws

length-stored : (ws : List ℕ) → length (stored ws) ≡ length ws * 4
length-stored [] = refl
length-stored (w ∷ ws) = omega (arith, length-stored ws)

get_or-behind :
    (pre rest : List ℕ) (k : ℕ) → get_or (pre ++ rest) (length pre + k) 0 ≡ get_or rest k 0
get_or-behind [] rest k = let e : 0 + k ≡ k = omega arith in rw e refl
get_or-behind (p ∷ pre) rest k =
    let e : suc (length pre) + k ≡ suc (length pre + k) = omega arith in
    rw e (get_or-behind pre rest k)

-- A pattern is read back from behind a prefix.
read32-bytes32 :
    (pre rest : List ℕ) (o w : ℕ)
    → o ≡ length pre
    → w < 2 ^ 32
    → read32 (pre ++ (bytes32 w ++ rest)) o ≡ w
unfolding read32
read32-bytes32 pre rest o w e h =
    let b = bytes32 w ++ rest in
    let zero_on : length pre + 0 ≡ length pre = omega arith in
    let first : get_or (pre ++ b) (length pre) 0 ≡ w % 2 ^ 8 =
      rw (← zero_on) (get_or-behind pre b 0) in
    rw (e, first, get_or-behind pre b 1, get_or-behind pre b 2, get_or-behind pre b 3) (omega arith)

module _ (fl : FloatOps) where
  open fl use {Float, of_bits}

  floats_at-stored :
      (ws pre rest : List ℕ) (n o : ℕ)
      → n ≡ length ws
      → o ≡ length pre
      → Patterns ws
      → floats_at fl n o (pre ++ (stored ws ++ rest)) ≡ map of_bits ws
  unfolding floats_at
  floats_at-stored [] pre rest zero o e h p = refl
  floats_at-stored [] pre rest (suc n) o e h p = absurd (omega arith)
  floats_at-stored (w ∷ ws) pre rest zero o e h p = absurd (omega arith)
  floats_at-stored (w ∷ ws) pre rest (suc n) o e h p =
      let moved : pre ++ (bytes32 w ++ (stored ws ++ rest))
          ≡ (pre ++ bytes32 w) ++ (stored ws ++ rest) =
        sym (append_assoc pre (bytes32 w) (stored ws ++ rest)) in
      ap₂ ◌∷◌ (ap of_bits (read32-bytes32 pre (stored ws ++ rest) o w h p.0)) (
        rw moved (
          floats_at-stored ws (pre ++ bytes32 w) rest n (o + 4) (omega arith)
            (omega (arith, length-append pre (bytes32 w))) p.1))

  -- A layer of the file, at offset `o`.
  parse_layer-stored :
      (rows cols o : ℕ) (pre head ws bs rest : List ℕ)
      → o ≡ length pre
      → length head ≡ 8
      → length ws ≡ rows * cols
      → length bs ≡ rows
      → Patterns ws
      → Patterns bs
      → parse_layer fl rows cols o (pre ++ (head ++ (stored ws ++ (stored bs ++ rest))))
        ≡ (map of_bits ws, map of_bits bs, o + 8 + rows * cols * 4 + rows * 4)
  unfolding parse_layer
  parse_layer-stored rows cols o pre head ws bs rest e lh lw lb pw pb =
      let file = pre ++ (head ++ (stored ws ++ (stored bs ++ rest))) in
      let first : file ≡ (pre ++ head) ++ (stored ws ++ (stored bs ++ rest)) =
        sym (append_assoc pre head (stored ws ++ (stored bs ++ rest))) in
      let second : file ≡ ((pre ++ head) ++ stored ws) ++ (stored bs ++ rest) =
        first ∙ sym (append_assoc (pre ++ head) (stored ws) (stored bs ++ rest)) in
      let at_weights : o + 8 ≡ length (pre ++ head) = omega (arith, length-append pre head) in
      let at_bias : o + 8 + rows * cols * 4 ≡ length ((pre ++ head) ++ stored ws) =
        rw (length-append, length-stored ws, lw) (omega (arith, length-append pre head)) in
      let weights : floats_at fl (rows * cols) (o + 8) file ≡ map of_bits ws = rw first (
        floats_at-stored ws (pre ++ head) (stored bs ++ rest) (rows * cols) (o + 8) (sym lw)
          at_weights pw) in
      let biases : floats_at fl rows (o + 8 + rows * cols * 4) file ≡ map of_bits bs = rw second (
        floats_at-stored bs ((pre ++ head) ++ stored ws) rest rows (o + 8 + rows * cols * 4)
          (sym lb) at_bias pb) in
      rw (weights, biases) refl

-- The contents of WEIGHTS.BIN: the headers as bytes, the arrays as bit patterns.
pub record NetFile : Type 0 where
  pub header : List ℕ
  pub head_l1 : List ℕ
  pub weights_l1 : List ℕ
  pub bias_l1 : List ℕ
  pub head_l2 : List ℕ
  pub weights_l2 : List ℕ
  pub bias_l2 : List ℕ
  pub head_l3 : List ℕ
  pub weights_l3 : List ℕ
  pub bias_l3 : List ℕ

pub record IsNetFile (f : NetFile) : Type 0 where
  pub header_size : length f.header ≡ 8
  pub heads : (length f.head_l1 ≡ 8) × (length f.head_l2 ≡ 8) × (length f.head_l3 ≡ 8)
  pub size_l1 : (length f.weights_l1 ≡ 32) × (length f.bias_l1 ≡ 8)
  pub size_l2 : (length f.weights_l2 ≡ 32) × (length f.bias_l2 ≡ 4)
  pub size_l3 : (length f.weights_l3 ≡ 4) × (length f.bias_l3 ≡ 1)
  pub words_l1 : Patterns f.weights_l1 × Patterns f.bias_l1
  pub words_l2 : Patterns f.weights_l2 × Patterns f.bias_l2
  pub words_l3 : Patterns f.weights_l3 × Patterns f.bias_l3

abbrev layer : List ℕ → List ℕ → List ℕ → List ℕ → List ℕ
layer head ws bs rest = head ++ (stored ws ++ (stored bs ++ rest))

-- The file's bytes, with whatever stands behind them in the buffer.
abbrev pub file_bytes : NetFile → List ℕ → List ℕ
file_bytes f rest =
    (bytes32 ml_magic ++ f.header)
    ++ layer f.head_l1 f.weights_l1 f.bias_l1
        (layer f.head_l2 f.weights_l2 f.bias_l2 (layer f.head_l3 f.weights_l3 f.bias_l3 rest))

layer_behind :
    (pre head ws bs rest : List ℕ)
    → pre ++ layer head ws bs rest ≡ (pre ++ (head ++ (stored ws ++ stored bs))) ++ rest
layer_behind pre head ws bs rest = simp append_assoc

length-layer :
    (pre head ws bs : List ℕ) (n m : ℕ)
    → length head ≡ 8
    → length ws ≡ n
    → length bs ≡ m
    → length (pre ++ (head ++ (stored ws ++ stored bs))) ≡ length pre + 8 + n * 4 + m * 4
length-layer pre head ws bs n m h w b = omega (
  arith,
  length-append pre (head ++ (stored ws ++ stored bs)),
  length-append head (stored ws ++ stored bs),
  length-append (stored ws) (stored bs),
  length-stored ws,
  length-stored bs,
)

module _ (fl : FloatOps) where
  open fl use {Float, of_bits}

  by_layers :
      (buf : List ℕ) {w1 b1 w2 b2 w3 b3 : List Float} {o1 o2 o3 : ℕ}
      → parse_layer fl l1_out l1_in 12 buf ≡ (w1, b1, o1)
      → parse_layer fl l2_out l2_in o1 buf ≡ (w2, b2, o2)
      → parse_layer fl l3_out l3_in o2 buf ≡ (w3, b3, o3)
      → parse_weights fl buf ≡ record {
        weights_l1 = w1;
        bias_l1 = b1;
        weights_l2 = w2;
        bias_l2 = b2;
        weights_l3 = w3;
        bias_l3 = b3;
      }
  unfolding parse_weights
  by_layers buf h1 h2 h3 = rw (h1, h2, h3) refl

  -- The weights that the patterns stand for.
  abbrev pub decoded : NetFile → Weights fl.Float
  decoded f = record {
    weights_l1 = map of_bits f.weights_l1;
    bias_l1 = map of_bits f.bias_l1;
    weights_l2 = map of_bits f.weights_l2;
    bias_l2 = map of_bits f.bias_l2;
    weights_l3 = map of_bits f.weights_l3;
    bias_l3 = map of_bits f.bias_l3;
  }

  -- From a buffer that starts with a file of headers and of the six arrays as 32-bit patterns, in
  -- the network's dimensions, `ml_weights_load` takes exactly the floats of these patterns.
  pub parse_weights-file_bytes :
      (f : NetFile) (rest : List ℕ) → IsNetFile f → parse_weights fl (file_bytes f rest) ≡ decoded f
  unfolding parse_weights
  parse_weights-file_bytes f rest v =
      let l3 = layer f.head_l3 f.weights_l3 f.bias_l3 rest in
      let l2 = layer f.head_l2 f.weights_l2 f.bias_l2 l3 in
      let p1 = bytes32 ml_magic ++ f.header in
      let p2 = p1 ++ (f.head_l1 ++ (stored f.weights_l1 ++ stored f.bias_l1)) in
      let p3 = p2 ++ (f.head_l2 ++ (stored f.weights_l2 ++ stored f.bias_l2)) in
      let n1 : 12 ≡ length p1 = omega (arith, v.header_size) in
      let n2 : 180 ≡ length p2 =
        ap (λ n. n + 8 + 32 * 4 + 8 * 4) n1
        ∙ sym (
            length-layer p1 f.head_l1 f.weights_l1 f.bias_l1 32 8 v.heads.0 v.size_l1.0
              v.size_l1.1) in
      let n3 : 332 ≡ length p3 =
        ap (λ n. n + 8 + 32 * 4 + 4 * 4) n2
        ∙ sym (
            length-layer p2 f.head_l2 f.weights_l2 f.bias_l2 32 4 v.heads.1 v.size_l2.0
              v.size_l2.1) in
      let b2 : file_bytes f rest ≡ p2 ++ l2 = layer_behind p1 f.head_l1 f.weights_l1 f.bias_l1 l2 in
      let b3 : file_bytes f rest ≡ p3 ++ l3 =
        b2 ∙ layer_behind p2 f.head_l2 f.weights_l2 f.bias_l2 l3 in
      let r1 =
        parse_layer-stored fl 8 4 12 p1 f.head_l1 f.weights_l1 f.bias_l1 l2 n1 v.heads.0 v.size_l1.0
          v.size_l1.1 v.words_l1.0 v.words_l1.1 in
      let r2 =
        ap (parse_layer fl 4 8 180) b2
        ∙ parse_layer-stored fl 4 8 180 p2 f.head_l2 f.weights_l2 f.bias_l2 l3 n2 v.heads.1
            v.size_l2.0 v.size_l2.1 v.words_l2.0 v.words_l2.1 in
      let r3 =
        ap (parse_layer fl 1 4 332) b3
        ∙ parse_layer-stored fl 1 4 332 p3 f.head_l3 f.weights_l3 f.bias_l3 rest n3 v.heads.2
            v.size_l3.0 v.size_l3.1 v.words_l3.0 v.words_l3.1 in
      by_layers (file_bytes f rest) r1 r2 r3
