-- ===== src/Examples/Network.antt =====
-- The forward pass with fixed-point numbers.
use prajna_os.Base.{ℕ, zero, suc, ◌<◌, ◌^◌, ◌≡◌, refl, arith, List, [], ◌∷◌, replicate}
use prajna_os.Ml.{Weights, ml_infer, zero_f, one_f}
use prajna_os.Ml.Load.{parse_weights}
use prajna_os.Ml.Stored.{
  NetFile, IsNetFile, Patterns, file_bytes, decoded, parse_weights-file_bytes,
}
use prajna_os.Ml.Score.{Within, ml_infer-Within}
use prajna_os.Examples.Fixed.{Fixed, pos, negsuc, fixed, fixed-IsOrdered}

abbrev weights : Weights Fixed
weights = record {
  weights_l1 = replicate 32 (pos 100000);
  bias_l1 = replicate 8 (pos 0);
  weights_l2 = replicate 32 (negsuc 99999);
  bias_l2 = replicate 4 (pos 500000);
  weights_l3 = replicate 4 (pos 100000);
  bias_l3 = pos 0 ∷ [];
}

abbrev input : List Fixed
input = pos 250000 ∷ pos 500000 ∷ pos 0 ∷ pos 1000000 ∷ []

ml_infer-Within_example : Within fixed (zero_f fixed) (one_f fixed) (ml_infer fixed weights input)
ml_infer-Within_example = ml_infer-Within fixed weights input fixed-IsOrdered

-- The weights in a file, as patterns of small numbers.
abbrev net_file : NetFile
net_file = record {
  header = replicate 8 0;
  head_l1 = replicate 8 0;
  weights_l1 = replicate 32 7;
  bias_l1 = replicate 8 1;
  head_l2 = replicate 8 0;
  weights_l2 = replicate 32 9;
  bias_l2 = replicate 4 2;
  head_l3 = replicate 8 0;
  weights_l3 = replicate 4 3;
  bias_l3 = 5 ∷ [];
}

replicate-Patterns : (n w : ℕ) → w < 2 ^ 32 → Patterns (replicate n w)
replicate-Patterns zero w h = tt
replicate-Patterns (suc n) w h = (h, replicate-Patterns n w h)

net_file-IsNetFile : IsNetFile net_file
net_file-IsNetFile = record {
  header_size = refl;
  heads = (refl, refl, refl);
  size_l1 = (refl, refl);
  size_l2 = (refl, refl);
  size_l3 = (refl, refl);
  words_l1 = (replicate-Patterns 32 7 (omega arith), replicate-Patterns 8 1 (omega arith));
  words_l2 = (replicate-Patterns 32 9 (omega arith), replicate-Patterns 4 2 (omega arith));
  words_l3 = (replicate-Patterns 4 3 (omega arith), (omega arith, tt));
}

parse_weights-file_bytes_example :
    parse_weights fixed (file_bytes net_file (replicate 152 0)) ≡ decoded fixed net_file
parse_weights-file_bytes_example =
    parse_weights-file_bytes fixed net_file (replicate 152 0) net_file-IsNetFile
