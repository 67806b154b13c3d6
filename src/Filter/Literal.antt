-- ===== src/Filter/Literal.antt =====
-- src/ffilter/ffilter.c: numbers written in a filter, with their units. A string is the list of its
-- characters before the terminating 0; what ff_set_error prints is left out.
pub mod Suffix
pub mod Unsigned
pub mod Signed
use libnf.Base.{
  ℕ, zero, suc, ◌+◌, ◌-◌, ◌*◌, ◌/◌, ◌%◌, ◌^◌, ◌≡◌, refl, Bool, true, false, not, ◌&&◌, ◌||◌, List,
  [], ◌∷◌, Option, none, some, ltb, ◌==◌, if◌then◌else◌, drop, length,
}
use libnf.Base.Bytes.{byte, rest, store}
use libnf.Base.Int.{ℤ, pos, negsuc, ltb_ℤ}
use libnf.Filter.Types.{FfType}

-- `errno`
pub data Errno : Type 0 where
  clear einval erange other : Errno

abbrev pub is_clear : Errno → Bool
is_clear Errno.clear = true
is_clear _ = false

-- what strtoull, strtoll and strtod return: the number, the characters they passed and `errno`
pub record Scan {ℓ} (A : Type ℓ) : Type ℓ where
  pub value : A
  pub used : ℕ
  pub errno : Errno

-- the number of ff_strtoull or ff_strtoll, `*endptr` and `*err`
pub record Read {ℓ} (A : Type ℓ) : Type ℓ where
  pub value : A
  pub endptr : List ℕ
  pub err : Errno

-- A conversion stores the bytes of its result or returns 1. `undefined`: a signed product
-- left the range of its type.
pub data Cast : Type 0 where
  stored : List ℕ → Cast
  failed undefined : Cast

abbrev pub in_range : ℤ → ℕ → Bool
in_range (pos n) w = ltb (n * 2) (2 ^ w)
in_range (negsuc n) w = ltb (n * 2) (2 ^ w)

-- the greater or the smallest number of `w` bits where `num` is outside
unfoldable pub clamp_int : ℤ → ℕ → ℤ
clamp_int num w =
    let max = 2 ^ w / 2 - 1 in
    if ltb_ℤ (pos max) num then pos max else (if ltb_ℤ num (negsuc max) then negsuc max else num)

unfoldable pub saturate_int : ℤ → FfType → ℤ
unfolding clamp_int
saturate_int num FfType.int8 = clamp_int num 8
saturate_int num FfType.int16 = clamp_int num 16
saturate_int num FfType.int32 = clamp_int num 32
saturate_int num _ = num

abbrev clamp_uint : ℕ → ℕ → ℕ
clamp_uint num max = if ltb max num then max else num

unfoldable pub saturate_uint : ℕ → FfType → ℕ
saturate_uint num FfType.uint8 = clamp_uint num 0xff
saturate_uint num FfType.uint16 = clamp_uint num 0xffff
saturate_uint num FfType.uint32 = clamp_uint num 0xffff_ffff
saturate_uint num _ = num

-- FF_SCALING_FACTOR
abbrev pub scaling_factor : ℕ
scaling_factor = 1000

unfoldable pub get_unit : List ℕ → ℕ
get_unit [] = 0
get_unit (c ∷ d ∷ unit) = 0
get_unit (c ∷ []) =
    if c == b'k' || c == b'K'
    then scaling_factor
    else (if c == b'm' || c == b'M'
        then scaling_factor * scaling_factor
        else (if c == b'g' || c == b'G'
            then scaling_factor * scaling_factor * scaling_factor
            else 0))

-- one space before the unit
unfoldable pub skip_space : List ℕ → List ℕ
skip_space end = if byte end == b' ' then rest end else end

abbrev pub past_unit : ℕ → List ℕ → List ℕ
past_unit mult unit = if mult == 0 then unit else rest unit

-- the products of 64 bits wrap, and are divided again
unfoldable pub scale_uint : ℕ → List ℕ → Errno → Read ℕ
unfolding get_unit
scale_uint tmp64 unit err =
    let mult = get_unit unit in
    let product = tmp64 * mult % 2 ^ 64 in
    let lost = not (mult == 0) && not (product / mult == tmp64) in
    record {
      value = product;
      endptr = past_unit mult unit;
      err = if lost then Errno.erange else err;
    }

-- what ff_strtoull does behind the digits
abbrev pub after_digits : ℕ → List ℕ → Errno → Read ℕ
after_digits tmp64 end err =
    if byte end == 0
    then record { value = tmp64; endptr = end; err = err }
    else scale_uint tmp64 (skip_space end) err

-- the first `switch` of str_to_uint
abbrev pub uint_size : FfType → Option ℕ
uint_size FfType.uint64 = some 8
uint_size FfType.uint32 = some 4
uint_size FfType.uint16 = some 2
uint_size FfType.uint8 = some 1
uint_size _ = none

abbrev pub store_uint : Bool → ℕ → FfType → ℕ → Cast
store_uint alloc tmp64 type size =
    if not (tmp64 == saturate_uint tmp64 type)
    then failed
    else (if alloc then stored (store size tmp64) else failed)

module _ (strtoull : List ℕ → Scan ℕ) where
  unfoldable pub ff_strtoull : List ℕ → Read ℕ
  unfolding scale_uint skip_space
  ff_strtoull valstr =
      let s = strtoull valstr in
      let err = if byte valstr == b'-' then Errno.einval else Errno.clear in
      let end = drop s.used valstr in
      if not (is_clear s.errno)
      then record { value = 0; endptr = valstr; err = s.errno }
      else after_digits s.value end err

  -- `alloc`: whether malloc has the memory
  unfoldable pub str_to_uint : Bool → List ℕ → FfType → Cast
  unfolding ff_strtoull saturate_uint
  str_to_uint alloc str type =
      let r = ff_strtoull str in
      if not (is_clear r.err)
      then failed
      else (if not (byte r.endptr == 0) then failed else elim (uint_size type) [
        | none ↦ failed
        | some size ↦ store_uint alloc r.value type size
      ])

  unfoldable pub str_to_uint64 : Bool → List ℕ → Cast
  unfolding str_to_uint
  str_to_uint64 alloc str = str_to_uint alloc str FfType.uint64
