-- ===== src/Tests/BitArray.antt =====
-- src/bit_array.c on an array of three bits.
use libnf.Base.{◌%◌, ◌≡◌, refl, [], ◌∷◌, some, none, arith, ◌==◌, if◌then◌else◌}
use libnf.Base.Int.{pos}
use libnf.Base.Bytes.{signed}
use libnf.BitArray.{BitArray, bit_array_set, bit_array_get, bit_array_set-get}

abbrev bits : BitArray
bits = record { size = 3; chars = 0 ∷ 1 ∷ 0 ∷ [] }

-- The position equal to the size is written, outside the memory.
bit_array_set_3 : bit_array_set bits 3 1 ≡ none
unfolding bit_array_set
bit_array_set_3 = refl

bit_array_set-get_example :
    (b : BitArray) × (bit_array_set bits 2 1 ≡ some (pos 0, b))
    × (bit_array_get b 1 ≡ (if 2 == 1 then signed 8 (1 % 256) else bit_array_get bits 1))
bit_array_set-get_example = bit_array_set-get bits 2 1 1 refl (omega arith)
