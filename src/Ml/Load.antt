-- ===== src/Ml/Load.antt =====
-- kernel/ml/ml_weights.c, `ml_weights_load`: the weights of the network from the file WEIGHTS.BIN.
use prajna_os.Base.{
  ℕ, zero, suc, ◌+◌, ◌*◌, List, [], ◌∷◌, ◌++◌, Option, none, some, not, ◌==◌, if◌then◌else◌, drop,
  length, codes,
}
use prajna_os.Float32.{FloatOps}
use prajna_os.Block.{DiskOps}
use prajna_os.Fat.{Volume, read32}
use prajna_os.Fat.Dir.{failed, found, fat32_find_file}
use prajna_os.Fat.File.{fat32_read_file}
use prajna_os.Ml.{Weights, l1_in, l1_out, l2_in, l2_out, l3_in, l3_out}

abbrev pub ml_magic : ℕ
ml_magic = 0x504A4E4E

-- `sizeof` of `ML_Header` and of `ML_LayerHeader`.
abbrev pub header_bytes : ℕ
header_bytes = 12

abbrev pub layer_header_bytes : ℕ
layer_header_bytes = 8

-- What a disk file may store is in `Weights`; the code and the arrays of a call that failed.
pub record Loaded (F : Type 0) : Type 0 where
  pub code : ℕ
  pub weights : Weights F

module _ (fl : FloatOps) where
  open fl use {Float, of_bits}

  -- `*p++` for `n` floats from offset `o` of the buffer on.
  unfoldable pub floats_at : ℕ → ℕ → List ℕ → List Float
  floats_at zero o buf = []
  floats_at (suc n) o buf = of_bits (read32 buf o) ∷ floats_at n (o + 4) buf

  -- A layer behind its header, and the offset of the next one.
  unfoldable pub parse_layer : ℕ → ℕ → ℕ → List ℕ → List Float × List Float × ℕ
  parse_layer rows cols o buf =
      let start = o + layer_header_bytes in
      let bias = start + rows * cols * 4 in
      (floats_at (rows * cols) start buf, floats_at rows bias buf, bias + rows * 4)

  unfoldable pub parse_weights : List ℕ → Weights Float
  parse_weights buf =
      let (w1, b1, o1) = parse_layer l1_out l1_in header_bytes buf in
      let (w2, b2, o2) = parse_layer l2_out l2_in o1 buf in
      let (w3, b3, o3) = parse_layer l3_out l3_in o2 buf in
      record {
        weights_l1 = w1;
        bias_l1 = b1;
        weights_l2 = w2;
        bias_l2 = b2;
        weights_l3 = w3;
        bias_l3 = b3;
      }

  module _ (ops : DiskOps) where
    -- `junk` is what `buf` holds before the file is read; none where a walk along a chain of clusters
    -- does not end within `fuel` rounds.
    unfoldable pub ml_weights_load :
        ℕ → Volume → List ℕ → Weights Float → ops.Disk → Option (Loaded Float)
    ml_weights_load fuel g junk w d =
        elim (fat32_find_file ops fuel g (codes "WEIGHTS") (codes "BIN") d) [
          | none ↦ none
          | some (failed code) ↦ some (record { code = 1; weights = w })
          | some (found entry dir_sector dir_offset) ↦
              let (code, stored) = fat32_read_file ops g entry 512 d in
              let buf = stored ++ drop (length stored) junk in
              if not (code == 0)
              then some (record { code = 2; weights = w })
              else if not (read32 buf 0 == ml_magic)
              then some (record { code = 3; weights = w })
              else some (record { code = 0; weights = parse_weights buf })
        ]
