-- ===== src/Examples/Text.antt =====
-- Decimal printing and the string and memory routines on small buffers.
use prajna_os.Base.{ℕ, ◌≡◌, arith, List, [], ◌∷◌, length, replicate}
use prajna_os.Klib.{uint_to_str}
use prajna_os.Klib.Decimal.{read, read-uint_to_str}

abbrev buffer : List ℕ
buffer = b'o' ∷ b'k' ∷ 0 ∷ replicate 9 7

abbrev word : List ℕ
word = b'l' ∷ b's' ∷ 0 ∷ b'x' ∷ []

read-uint_to_str_example :
    read (length (uint_to_str 4096 buffer)) 0 0 (uint_to_str 4096 buffer) ≡ 4096
read-uint_to_str_example = read-uint_to_str 4096 buffer (omega arith) (omega arith)
