-- ===== src/BitArray.antt =====
-- src/bit_array.c: an array of one char for each bit.
use libnf.Base.{
  ℕ, ◌%◌, ◌<◌, ◌≡◌, refl, ap, Bool, false, List, [], Option, none, some, ltb, leb, ◌==◌,
  if◌then◌else◌, length, set, get_or, replicate, arith, Bool-cases, inl, inr,
}
use libnf.Base.Int.{ℤ, pos, negsuc}
use libnf.Base.Bytes.{bytes, same_bytes, signed}
use libnf.HashTable.Lookup.{get_or-set}

-- `bit_array_t` whose memory was allocated
pub record BitArray : Type 0 where
  pub size : ℕ
  pub chars : List ℕ

-- `mem` says whether malloc succeeds; `none` is the result NULL.
unfoldable pub bit_array_init : Bool → ℕ → Option BitArray
bit_array_init mem size =
    if mem then some (record { size = size; chars = replicate size 0 }) else none

unfoldable pub bit_array_clear : BitArray → ℤ × BitArray
bit_array_clear a = (pos 1, record a { chars = replicate a.size 0 })

-- a char is a signed byte
unfoldable pub bit_array_get : BitArray → ℕ → ℤ
bit_array_get a i = if leb a.size i then negsuc 0 else signed 8 (get_or a.chars i 0)

-- `none` stands for a write outside the memory of the array.
unfoldable pub bit_array_set : BitArray → ℕ → ℕ → Option (ℤ × BitArray)
bit_array_set a i val =
    if ltb a.size i
    then some (negsuc 0, a)
    else if leb (length a.chars) i
    then none
    else some (pos 0, record a { chars = set a.chars i (val % 256) })

-- whether the result is 0; `none` stands for -1 because of the sizes
unfoldable pub bit_array_cmp : BitArray → BitArray → Option Bool
bit_array_cmp a b = if a.size == b.size then some (same_bytes a.size a.chars b.chars) else none

unfoldable pub bit_array_copy : BitArray → BitArray → ℤ × BitArray
bit_array_copy d s =
    if s.size == d.size then (pos 1, record d { chars = bytes d.size s.chars }) else (negsuc 0, d)

unfoldable pub bit_array_release : BitArray → BitArray
bit_array_release a = record a { size = 0; chars = [] }

-- In an array with a char for each position, a position inside it can be set; it then reads back as
-- the value cut to a signed char, and every other position, inside or not, reads as before.
pub bit_array_set-get :
    (a : BitArray) (i j val : ℕ)
    → length a.chars ≡ a.size
    → i < a.size
    → (b : BitArray) × (bit_array_set a i val ≡ some (pos 0, b))
      × (bit_array_get b j ≡ (if i == j then signed 8 (val % 256) else bit_array_get a j))
unfolding bit_array_set bit_array_get
bit_array_set-get a i j val sized inside =
    let b : BitArray = record a { chars = set a.chars i (val % 256) } in
    let back = get_or-set a.chars i j (val % 256) 0 (omega arith) in
    (
      b,
      ground arith,
      elim (Bool-cases (i == j)) [
        | inl same ↦
            let here : leb a.size j ≡ false = ground arith in
            rw (here, same) (ap (signed 8) (rw same at back))
        | inr other ↦ rw other (rw (rw other at back, bit_array_get) refl)
      ],
    )
