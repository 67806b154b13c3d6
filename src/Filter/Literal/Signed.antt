-- ===== src/Filter/Literal/Signed.antt =====
-- src/ffilter/ffilter.c: signed and real numbers written in a filter. A product of `int64_t` that
-- does not fit is undefined in C: the conversion is `undefined` then.
pub mod Numbers
pub mod Laws
use libnf.Base.{
  ℕ, zero, suc, ◌+◌, ◌-◌, ◌*◌, ◌/◌, ◌%◌, ◌^◌, ◌≡◌, refl, Bool, true, false, not, ◌&&◌, ◌||◌, List,
  [], ◌∷◌, Option, none, some, ltb, ◌==◌, if◌then◌else◌, drop,
}
use libnf.Base.Bytes.{byte, store}
use libnf.Base.Int.{ℤ, pos, negsuc, pos_part, neg_part}
use libnf.Filter.Types.{FfType}
use libnf.Filter.Literal.{
  Errno, is_clear, Scan, Read, Cast, stored, failed, undefined, in_range, saturate_int, get_unit,
  skip_space, past_unit,
}

-- `-n`
abbrev pub minus : ℕ → ℤ
minus n = if n == 0 then pos 0 else negsuc (n - 1)

abbrev pub times : ℤ → ℕ → ℤ
times (pos n) m = pos (n * m)
times (negsuc n) m = minus ((n + 1) * m)

-- the division of C, which rounds towards 0
abbrev pub over : ℤ → ℕ → ℤ
over (pos n) m = pos (n / m)
over (negsuc n) m = minus ((n + 1) / m)

abbrev pub same_ℤ : ℤ → ℤ → Bool
same_ℤ a b = pos_part a == pos_part b && neg_part a == neg_part b

-- the pattern of `w` bits of an integer
abbrev pub pattern : ℕ → ℤ → ℕ
pattern w (pos n) = n % 2 ^ w
pattern w (negsuc n) = 2 ^ w - 1 - n % 2 ^ w

-- `none`: the product left `int64_t`
unfoldable pub scale_int : ℤ → List ℕ → Option (Read ℤ)
unfolding get_unit
scale_int tmp64 unit =
    let mult = get_unit unit in
    let product = times tmp64 mult in
    let lost = not (mult == 0) && not (same_ℤ (over product mult) tmp64) in
    if in_range product 64
    then some (record {
      value = product;
      endptr = past_unit mult unit;
      err = if lost then Errno.erange else Errno.clear;
    })
    else none

module _ (strtoll : List ℕ → Scan ℤ) where
  unfoldable pub ff_strtoll : List ℕ → Option (Read ℤ)
  unfolding scale_int skip_space
  ff_strtoll valstr =
      let s = strtoll valstr in
      let end = drop s.used valstr in
      if not (is_clear s.errno)
      then some (record { value = pos 0; endptr = valstr; err = s.errno })
      else (if byte end == 0
          then some (record { value = s.value; endptr = end; err = Errno.clear })
          else scale_int s.value (skip_space end))

-- the first `switch` of str_to_int
abbrev pub int_size : FfType → Option ℕ
int_size FfType.int64 = some 8
int_size FfType.int32 = some 4
int_size FfType.int16 = some 2
int_size FfType.int8 = some 1
int_size _ = none

abbrev pub store_int : Bool → ℤ → FfType → ℕ → Cast
store_int alloc tmp64 type size =
    if not (same_ℤ tmp64 (saturate_int tmp64 type))
    then failed
    else (if alloc then stored (store size (pattern (8 * size) tmp64)) else failed)

abbrev pub finish_int : Bool → FfType → Read ℤ → Cast
finish_int alloc type r =
    if not (is_clear r.err)
    then failed
    else (if not (byte r.endptr == 0)
        then failed
        else elim (int_size type) [ none ↦ failed | some size ↦ store_int alloc r.value type size ])

abbrev pub finish : Bool → FfType → Option (Read ℤ) → Cast
finish alloc type none = undefined
finish alloc type (some r) = finish_int alloc type r

unfoldable pub str_to_int : (List ℕ → Scan ℤ) → Bool → List ℕ → FfType → Cast
unfolding ff_strtoll saturate_int
str_to_int strtoll alloc str type = finish alloc type (ff_strtoll strtoll str)

unfoldable pub str_to_int64 : (List ℕ → Scan ℤ) → Bool → List ℕ → Cast
unfolding str_to_int
str_to_int64 strtoll alloc str = str_to_int strtoll alloc str FfType.int64

abbrev pub is_erange : Errno → Bool
is_erange Errno.erange = true
is_erange _ = false

-- A double is its 64 bits. `huge` tells HUGE_VALF and HUGE_VALL; `errno` is not cleared before the
-- call of strtod, so an error may be older than it.
unfoldable pub str_to_real : (List ℕ → Scan ℕ) → (ℕ → Bool) → Bool → List ℕ → Cast
str_to_real strtod huge alloc str =
    let s = strtod str in
    let err = is_erange s.errno && huge s.value in
    if not (byte (drop s.used str) == 0)
    then failed
    else (if err then failed else (if alloc then stored (store 8 s.value) else failed))
