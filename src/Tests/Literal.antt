-- ===== src/Tests/Literal.antt =====
-- Numbers with units, on small inputs.
use libnf.Base.{
  ℕ, ◌+◌, ◌*◌, ◌≡◌, refl, ◌-◌, List, [], ◌∷◌, some, true, arith, leb, if◌then◌else◌, ◌&&◌,
}
use libnf.Base.Bytes.{load, store, signed}
use libnf.Base.Int.{ℤ, pos, negsuc}
use libnf.Filter.Types.{FfType}
use libnf.Filter.Literal.{
  Errno, Scan, stored, undefined, ff_strtoull, str_to_uint, saturate_uint, get_unit, skip_space,
  scale_uint,
}
use libnf.Filter.Literal.Unsigned.{expected_uint, str_to_uint-suffix}
use libnf.Filter.Literal.Signed.{ff_strtoll, str_to_int, scale_int}
use libnf.Filter.Literal.Signed.Laws.{expected_int, meant_int, str_to_int-suffix, signed-str_to_int}
use libnf.Filter.Literal.{saturate_int, clamp_int}

-- decimal digits, as strtoull reads them
abbrev digits : ℕ → ℕ → List ℕ → Scan ℕ
digits v n [] = record { value = v; used = n; errno = Errno.clear }
digits v n (c ∷ s) =
    let more = digits (v * 10 + (c - 48)) (n + 1) s in
    if leb 48 c && leb c 57 then more else record { value = v; used = n; errno = Errno.clear }

abbrev decimal : List ℕ → Scan ℕ
decimal s = digits 0 0 s

abbrev negative : List ℕ → Scan ℤ
negative s = record { value = negsuc 11; used = 3; errno = Errno.clear }

-- "12 k"
abbrev twelve_k : List ℕ
twelve_k = b'1' ∷ b'2' ∷ b' ' ∷ b'k' ∷ []

-- "-12k"
abbrev minus_twelve_k : List ℕ
minus_twelve_k = b'-' ∷ b'1' ∷ b'2' ∷ b'k' ∷ []

str_to_uint-suffix_example :
    str_to_uint decimal true twelve_k FfType.uint16
    ≡ expected_uint true 2 (decimal twelve_k) twelve_k
str_to_uint-suffix_example =
    str_to_uint-suffix decimal true twelve_k FfType.uint16 2 refl (omega arith) (omega arith)

-- 12000 in two bytes
abbrev twelve_thousand : List ℕ
twelve_thousand = 224 ∷ 46 ∷ []

str_to_int-suffix_example :
    str_to_int negative true minus_twelve_k FfType.int16
    ≡ expected_int true 2 (negative minus_twelve_k) minus_twelve_k
str_to_int-suffix_example =
    str_to_int-suffix negative true minus_twelve_k FfType.int16 2 refl refl (omega arith)

signed-str_to_int_example :
    some (signed 16 (load 2 (32 ∷ 209 ∷ []))) ≡ meant_int (negative minus_twelve_k) minus_twelve_k
unfolding str_to_int ff_strtoll scale_int get_unit skip_space saturate_int clamp_int store
signed-str_to_int_example =
    signed-str_to_int negative true minus_twelve_k (32 ∷ 209 ∷ []) FfType.int16 2 refl refl
      (omega arith) refl

-- a space behind the number makes it 0: "12 " is stored as 0
lone_space : str_to_uint decimal true (b'1' ∷ b'2' ∷ b' ' ∷ []) FfType.uint16 ≡ stored (0 ∷ 0 ∷ [])
unfolding str_to_uint ff_strtoull scale_uint get_unit skip_space saturate_uint store
lone_space = refl

-- the product of a large signed number and its unit is undefined: 10^18 times 10^9
large_signed :
    str_to_int
      (λ _. record { value = pos 1_000_000_000_000_000_000; used = 1; errno = Errno.clear })
      true
      (b'1' ∷ b'g' ∷ [])
      FfType.int64
    ≡ undefined
unfolding str_to_int ff_strtoll scale_int get_unit skip_space
large_signed = refl
