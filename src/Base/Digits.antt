-- ===== src/Base/Digits.antt =====
-- Laws of the bitwise `or` on native numbers, by their binary digits.
use Prim.Native.Nat.{
  ℕ, zero, suc, ◌+◌, ◌*◌, ◌/◌, ◌%◌, ◌^◌, ◌≤◌, ◌<◌, max, bit_or, digits, bit_or-bitwise,
}
use mathlib.Core.Path.{◌≡◌, refl}
use native.Mathlib.Numerals.{unary_clauses}
use native.Mathlib.Omega.{arith}

-- what `bit_or` stands for, with fuel for `n` digits
abbrev unite : (n x y : ℕ) → ℕ
unite n x y = digits (λ b. b) max n x y

enough : (x y n m : ℕ) → x ≤ m → x ≤ n → unite n x y ≡ unite m x y
enough zero y zero zero below above = refl
enough zero y (suc n) zero below above = refl
enough zero y zero (suc m) below above = refl
enough zero y (suc n) (suc m) below above = refl
enough (suc x) y zero m below above = absurd (omega arith)
enough (suc x) y (suc n) zero below above = absurd (omega arith)
enough (suc x) y (suc n) (suc m) below above =
    let half = enough (suc x / 2) (y / 2) n m (omega arith) (omega arith) in omega (arith, half)

nothing-bit_or : (y : ℕ) → bit_or 0 y ≡ y
nothing-bit_or y = bit_or-bitwise 0 y

lowest_digit : (x y : ℕ) → bit_or x y ≡ 2 * bit_or (x / 2) (y / 2) + max (x % 2) (y % 2)
lowest_digit zero y = omega (arith, nothing-bit_or y, nothing-bit_or (y / 2))
lowest_digit (suc x) y =
    let whole = bit_or-bitwise (suc x) y in
    let half = bit_or-bitwise (suc x / 2) (y / 2) in
    let fuel = enough (suc x / 2) (y / 2) x (suc x / 2) (omega arith) (omega arith) in omega arith

-- binary digit `j`, by halving
abbrev pub digit : ℕ → ℕ → ℕ
digit v zero = v % 2
digit v (suc j) = digit (v / 2) j

pub digit-bit_or : (x y j : ℕ) → digit (bit_or x y) j ≡ max (digit x j) (digit y j)
digit-bit_or x y zero = let split = lowest_digit x y in omega arith
digit-bit_or x y (suc j) =
    let split = lowest_digit x y in
    let upper : bit_or x y / 2 ≡ bit_or (x / 2) (y / 2) = omega arith in
    rw upper (digit-bit_or (x / 2) (y / 2) j)

pub bit_or-lt : (n x y : ℕ) → x < 2 ^ n → y < 2 ^ n → bit_or x y < 2 ^ n
bit_or-lt zero x y h k =
    let a : x ≡ 0 = omega arith in
    let b : y ≡ 0 = omega arith in rw (a, b) (omega (arith, nothing-bit_or 0))
bit_or-lt (suc n) x y h k =
    let double : 2 ^ suc n ≡ 2 * 2 ^ n = simp unary_clauses (omega arith) in
    let half = bit_or-lt n (x / 2) (y / 2) (omega arith) (omega arith) in
    let split = lowest_digit x y in omega arith

pub digit-zero : (j : ℕ) → digit 0 j ≡ 0
digit-zero zero = refl
digit-zero (suc j) = digit-zero j
