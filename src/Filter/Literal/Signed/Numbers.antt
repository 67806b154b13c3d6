-- ===== src/Filter/Literal/Signed/Numbers.antt =====
-- src/ffilter/ffilter.c: numbers of a width, in range, clamped and stored.
use libnf.Base.{
  ℕ, zero, suc, ◌+◌, ◌*◌, ◌%◌, ◌^◌, ◌<◌, ◌≡◌, refl, ap, Bool, true, ◌&&◌, some, if◌then◌else◌,
  arith, lt→ltb, ltb→lt,
}
use libnf.Base.Bytes.{store, load, load-store, signed}
use libnf.Base.Int.{ℤ, pos, negsuc}
use libnf.Filter.Types.{FfType}
use libnf.Filter.Literal.{stored, failed, saturate_int, in_range, clamp_int}
use libnf.Filter.Literal.Signed.{times, over, same_ℤ, pattern, int_size, store_int}
use native.Mathlib.Nat.{mod-eq_of_lt, mod-lt, mul-div_cancel}

-- A number that fits `w` bits comes back from its pattern.
pub signed-pattern :
    (w : ℕ) (z : ℤ) → in_range z (suc w) ≡ true → signed (suc w) (pattern (suc w) z) ≡ z
signed-pattern w (pos v) h =
    let fits : v * 2 < 2 ^ suc w = ltb→lt _ _ h in
    let low : v % 2 ^ suc w ≡ v = mod-eq_of_lt (omega arith) in rw (low, lt→ltb _ _ fits) refl
signed-pattern w (negsuc v) h =
    let fits : v * 2 < 2 ^ suc w = ltb→lt _ _ h in
    let low : v % 2 ^ suc w ≡ v = mod-eq_of_lt (omega arith) in
    let double : 2 ^ suc w ≡ 2 * 2 ^ w = omega arith in rw low (ground arith)

-- The division finds nothing in a product that fits.
pub over-times : (z : ℤ) (m : ℕ) → 0 < m → over (times z m) m ≡ z
over-times (pos n) m positive = ap pos (mul-div_cancel n positive)
over-times (negsuc n) m positive =
    let back = mul-div_cancel (n + 1) positive in
    let some_of : 0 < (n + 1) * m = omega arith in ground (arith, back)

pub same_ℤ-self : (z : ℤ) → same_ℤ z z ≡ true
same_ℤ-self (pos n) = ground arith
same_ℤ-self (negsuc n) = ground arith

pub pow_pos : (w : ℕ) → 0 < 2 ^ w
pow_pos zero = omega arith
pow_pos (suc w) = omega (arith, pow_pos w)

-- Clamping leaves exactly the numbers that fit.
pub clamp_int-in_range : (z : ℤ) (w : ℕ) → same_ℤ z (clamp_int z (suc w)) ≡ in_range z (suc w)
unfolding clamp_int
clamp_int-in_range (pos v) w =
    let double : 2 ^ suc w ≡ 2 * 2 ^ w = omega arith in
    let some_of : 0 < 2 ^ w = pow_pos w in ground arith
clamp_int-in_range (negsuc v) w =
    let double : 2 ^ suc w ≡ 2 * 2 ^ w = omega arith in
    let some_of : 0 < 2 ^ w = pow_pos w in ground arith

pub store_int-in_range :
    (alloc : Bool) (type : FfType) (n : ℕ) (z : ℤ)
    → int_size type ≡ some n
    → in_range z 64 ≡ true
    → store_int alloc z type n
      ≡ (if in_range z (8 * n) && alloc then stored (store n (pattern (8 * n) z)) else failed)
unfolding saturate_int
store_int-in_range alloc FfType.int64 n z e h =
    let size : n ≡ 8 = cc e in rw (size, same_ℤ-self z, h) (ground arith)
store_int-in_range alloc FfType.int32 n z e h =
    let size : n ≡ 4 = cc e in rw (size, clamp_int-in_range z 31) (ground arith)
store_int-in_range alloc FfType.int16 n z e h =
    let size : n ≡ 2 = cc e in rw (size, clamp_int-in_range z 15) (ground arith)
store_int-in_range alloc FfType.int8 n z e h =
    let size : n ≡ 1 = cc e in rw (size, clamp_int-in_range z 7) (ground arith)
store_int-in_range alloc _ n z e h = cc e

pattern-lt : (w : ℕ) (z : ℤ) → pattern w z < 2 ^ w
pattern-lt w (pos n) = mod-lt n (pow_pos w)
pattern-lt w (negsuc n) = omega (arith, pow_pos w)

-- What is stored for a number that fits is read back as that number.
pub signed-load :
    (n w : ℕ) (z : ℤ)
    → 8 * n ≡ suc w
    → 256 ^ n ≡ 2 ^ suc w
    → in_range z (8 * n) ≡ true
    → signed (8 * n) (load n (store n (pattern (8 * n) z))) ≡ z
signed-load n w z e p h =
    let low : pattern (suc w) z % 2 ^ suc w ≡ pattern (suc w) z =
      mod-eq_of_lt (pattern-lt (suc w) z) in
    rw (load-store n (pattern (8 * n) z), e, p, low) (signed-pattern w z (rw e at h))

pub size_bits :
    (type : FfType) (n : ℕ)
    → int_size type ≡ some n
    → (w : ℕ) × (8 * n ≡ suc w) × (256 ^ n ≡ 2 ^ suc w)
size_bits FfType.int64 n e =
    let size : n ≡ 8 = cc e in (63, rw size (omega arith), rw size (omega arith))
size_bits FfType.int32 n e =
    let size : n ≡ 4 = cc e in (31, rw size (omega arith), rw size (omega arith))
size_bits FfType.int16 n e =
    let size : n ≡ 2 = cc e in (15, rw size (omega arith), rw size (omega arith))
size_bits FfType.int8 n e =
    let size : n ≡ 1 = cc e in (7, rw size (omega arith), rw size (omega arith))
size_bits _ n e = cc e
