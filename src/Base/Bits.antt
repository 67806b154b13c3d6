-- ===== src/Base/Bits.antt =====
-- Laws of the bitwise `and` on native numbers, by their lowest binary digit.
use Prim.Native.Nat.{
  ℕ, zero, suc, ◌+◌, ◌-◌, ◌*◌, ◌/◌, ◌%◌, ◌^◌, ◌≤◌, ◌<◌, min, bit_and, digits, bit_and-bitwise,
}
use mathlib.Core.Path.{◌≡◌, refl, sym, ap, ◌∙◌}
use native.Mathlib.Numerals.{unary_clauses}
use native.Mathlib.Nat.{div-add-mod, mod-lt, mod-eq_of_lt, mul-add-mod_self_left, div-eq_of_lt-le}
use native.Mathlib.Omega.{arith}

-- what `bit_and` stands for, with fuel for `n` digits
abbrev meet : (n x y : ℕ) → ℕ
meet n x y = digits (λ _. 0) min n x y

enough : (x y n m : ℕ) → x ≤ m → x ≤ n → meet n x y ≡ meet m x y
enough zero y zero zero below above = refl
enough zero y (suc n) zero below above = refl
enough zero y zero (suc m) below above = refl
enough zero y (suc n) (suc m) below above = refl
enough (suc x) y zero m below above = absurd (omega arith)
enough (suc x) y (suc n) zero below above = absurd (omega arith)
enough (suc x) y (suc n) (suc m) below above =
    let half = enough (suc x / 2) (y / 2) n m (omega arith) (omega arith) in omega (arith, half)

nothing-bit_and : (y : ℕ) → bit_and 0 y ≡ 0
nothing-bit_and y = bit_and-bitwise 0 y

pub lowest_digit : (x y : ℕ) → bit_and x y ≡ 2 * bit_and (x / 2) (y / 2) + min (x % 2) (y % 2)
lowest_digit zero y = omega (arith, nothing-bit_and y, nothing-bit_and (y / 2))
lowest_digit (suc x) y =
    let whole = bit_and-bitwise (suc x) y in
    let half = bit_and-bitwise (suc x / 2) (y / 2) in
    let fuel = enough (suc x / 2) (y / 2) x (suc x / 2) (omega arith) (omega arith) in omega arith

masked_below : (n x y : ℕ) → x ≤ n → bit_and (bit_and x y) y ≡ bit_and x y
masked_below zero zero y h = let none_left = nothing-bit_and y in rw none_left none_left
masked_below zero (suc x) y h = absurd (omega arith)
masked_below (suc n) x y h =
    let half = masked_below n (x / 2) (y / 2) (omega arith) in
    let once = lowest_digit x y in
    let twice = lowest_digit (bit_and x y) y in
    let upper : bit_and x y / 2 ≡ bit_and (x / 2) (y / 2) = omega arith in
    let upper_twice = ap (λ q. bit_and q (y / 2)) upper ∙ half in omega arith

-- A mask that was applied changes nothing more.
pub bit_and-mask : (x y : ℕ) → bit_and (bit_and x y) y ≡ bit_and x y
bit_and-mask x y = masked_below x x y (omega arith)

pub power_sum : (a b : ℕ) → 2 ^ (a + b) ≡ 2 ^ a * 2 ^ b
power_sum a zero = simp unary_clauses (omega arith)
power_sum a (suc b) =
    let shifted : 2 ^ (a + suc b) ≡ 2 * 2 ^ (a + b) = simp unary_clauses (omega arith) in
    let double : 2 ^ suc b ≡ 2 * 2 ^ b = omega arith in
    shifted ∙ ap (λ n. 2 * n) (power_sum a b) ∙ rw double (omega arith)

pub power_pos : (a : ℕ) → 0 < 2 ^ a
power_pos zero = omega arith
power_pos (suc a) = omega (arith, power_pos a)

power_suc : (n : ℕ) → 2 ^ suc n ≡ 2 * 2 ^ n
power_suc n = simp unary_clauses (omega arith)

-- A mask of all digits keeps a number.
bit_and_ones : (n x : ℕ) → x < 2 ^ n → bit_and x (2 ^ n - 1) ≡ x
bit_and_ones zero x h = let only : x ≡ 0 = omega arith in rw only (nothing-bit_and (2 ^ 0 - 1))
bit_and_ones (suc n) x h =
    let double = power_suc n in
    let positive = power_pos n in
    let half = bit_and_ones n (x / 2) (omega arith) in
    let split = lowest_digit x (2 ^ suc n - 1) in
    let upper : (2 ^ suc n - 1) / 2 ≡ 2 ^ n - 1 = omega arith in
    let same = ap (λ m. bit_and (x / 2) m) upper ∙ half in omega arith

recombine : (p q k m d l v : ℕ) → q * k + m ≡ d → p * d + l ≡ v → p * q * k + (m * p + l) ≡ v
recombine p q k m d l v e f = rw (sym f, sym e) (grind arith)

digits_lt : (p q m l : ℕ) → m < q → l < p → m * p + l < p * q
digits_lt p q m l h k = grind arith

-- A remainder by a product, from the remainder by a factor.
pub mod_product : (v p q : ℕ) → 0 < p → 0 < q → v % (p * q) ≡ v / p % q * p + v % p
mod_product v p q hp hq =
    let r = v / p % q * p + v % p in
    let outer = div-add-mod v p in
    let inner = div-add-mod (v / p) q in
    let low = mod-lt v hp in
    let high = mod-lt (v / p) hq in
    let split : p * q * (v / p / q) + r ≡ v = recombine p q _ _ _ _ v inner outer in
    ap (λ y. y % (p * q)) (sym split)
    ∙ mul-add-mod_self_left (p * q) (v / p / q) r
    ∙ mod-eq_of_lt (digits_lt p q _ _ high low)

-- A mask of the digits from `k` on clears those below.
pub bit_and_high : (k n x : ℕ) → x < 2 ^ (k + n) → bit_and x (2 ^ (k + n) - 2 ^ k) ≡ x - x % 2 ^ k
bit_and_high zero n x h =
    let all : 2 ^ (0 + n) ≡ 2 ^ n = ap (λ m. 2 ^ m) (omega arith) in
    let ones = bit_and_ones n x (omega arith) in rw all (omega (arith, ones))
bit_and_high (suc k) n x h =
    let shift : suc k + n ≡ suc (k + n) = omega arith in
    let double : 2 ^ (suc k + n) ≡ 2 * 2 ^ (k + n) = ap (λ m. 2 ^ m) shift ∙ power_suc (k + n) in
    let twice = power_suc k in
    let half = bit_and_high k n (x / 2) (omega arith) in
    let split = lowest_digit x (2 ^ (suc k + n) - 2 ^ suc k) in
    let upper : (2 ^ (suc k + n) - 2 ^ suc k) / 2 ≡ 2 ^ (k + n) - 2 ^ k = omega arith in
    let same = ap (λ m. bit_and (x / 2) m) upper ∙ half in
    let rem = mod_product x 2 (2 ^ k) (omega arith) (power_pos k) in
    let rem' : x % 2 ^ suc k ≡ x / 2 % 2 ^ k * 2 + x % 2 = ap (λ m. x % m) twice ∙ rem in
    omega arith

cut_below : (p q n : ℕ) → 0 < p → p * (q + 1) ≡ n → (q * p ≤ n - 1) × (n - 1 < (q + 1) * p)
cut_below p q n hp e = grind arith

-- The digits that a shift to the right leaves, taken from all: the high ones.
pub high_mask :
    (w from low : ℕ) → from + low ≡ w → 2 ^ w - 1 - (2 ^ w - 1) / 2 ^ from ≡ 2 ^ w - 2 ^ low
high_mask w from low e =
    let whole : 2 ^ from * 2 ^ low ≡ 2 ^ w = sym (power_sum from low) ∙ ap (λ n. 2 ^ n) e in
    let p = power_pos from in
    let q = power_pos low in
    let up : 2 ^ low - 1 + 1 ≡ 2 ^ low = omega arith in
    let (below, above) = cut_below (2 ^ from) (2 ^ low - 1) (2 ^ w) p (rw up whole) in
    let quotient : (2 ^ w - 1) / 2 ^ from ≡ 2 ^ low - 1 = div-eq_of_lt-le (2 ^ from) below above in
    omega arith
