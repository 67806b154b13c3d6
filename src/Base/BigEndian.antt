-- ===== src/Base/BigEndian.antt =====
-- Numbers in network order, as parts of longer ones.
use libnf.Base.{
  ℕ, zero, suc, ◌+◌, ◌*◌, ◌%◌, ◌^◌, ◌<◌, ◌≡◌, refl, sym, ap, ◌∙◌, List, [], ◌∷◌, ◌++◌, arith, drop,
  length, All, drop-nil,
}
use libnf.Base.Bytes.{byte, rest, bytes, load_big, store_big}
use libnf.Base.Bits.{mod_product}
use native.Mathlib.Numerals.{unary_clauses}

pub power_256 : (m n : ℕ) → 256 ^ (m + n) ≡ 256 ^ m * 256 ^ n
power_256 m zero = simp unary_clauses (omega arith)
power_256 m (suc n) =
    let shifted : 256 ^ (m + suc n) ≡ 256 * 256 ^ (m + n) = simp unary_clauses (omega arith) in
    let more : 256 ^ suc n ≡ 256 * 256 ^ n = omega arith in
    shifted ∙ ap (λ x. 256 * x) (power_256 m n) ∙ rw more (omega arith)

power_256_pos : (n : ℕ) → 0 < 256 ^ n
power_256_pos zero = omega arith
power_256_pos (suc n) = omega (arith, power_256_pos n)

pub drop-suc : (n : ℕ) (l : List ℕ) → drop (suc n) l ≡ drop n (rest l)
drop-suc n [] = sym (drop-nil n)
drop-suc n (x ∷ l) = refl

-- A part behind a number of `m` digits.
shift : (b p q u v a w : ℕ) → u ≡ p * q → v ≡ a * q + w → b * u + v ≡ (b * p + a) * q + w
shift b p q u v a w e f = rw (e, f) (grind arith)

pub load_big-append :
    (k m n : ℕ) (a b : List ℕ)
    → k ≡ m + n
    → length a ≡ m
    → load_big k (a ++ b) ≡ load_big m a * 256 ^ n + load_big n b
unfolding load_big
load_big-append k zero n [] b e l =
    let same : k ≡ n = omega arith in omega (arith, ap (λ x. load_big x b) same)
load_big-append k zero n (x ∷ a) b e l = absurd (omega arith)
load_big-append k (suc m) n [] b e l = absurd (omega arith)
load_big-append zero (suc m) n (x ∷ a) b e l = absurd (omega arith)
load_big-append (suc k) (suc m) n (x ∷ a) b e l =
    let e' : k ≡ m + n = omega arith in
    let more = load_big-append k m n a b e' (omega arith) in
    let power : 256 ^ k ≡ 256 ^ m * 256 ^ n = ap (λ y. 256 ^ y) e' ∙ power_256 m n in
    shift x (256 ^ m) (256 ^ n) _ _ _ _ power more

pub load_big-drop :
    (k m n : ℕ) (p : List ℕ)
    → k ≡ m + n
    → load_big k p ≡ load_big m p * 256 ^ n + load_big n (drop m p)
unfolding load_big
load_big-drop k zero n p e =
    let same : k ≡ n = omega arith in omega (arith, ap (λ x. load_big x p) same)
load_big-drop zero (suc m) n p e = absurd (omega arith)
load_big-drop (suc k) (suc m) n p e =
    let e' : k ≡ m + n = omega arith in
    let more = load_big-drop k m n (rest p) e' in
    let power : 256 ^ k ≡ 256 ^ m * 256 ^ n = ap (λ y. 256 ^ y) e' ∙ power_256 m n in
    rw (drop-suc m p) (shift (byte p) (256 ^ m) (256 ^ n) _ _ _ _ power more)

pub load_big-bytes : (n : ℕ) (p : List ℕ) → load_big n (bytes n p) ≡ load_big n p
unfolding load_big bytes
load_big-bytes zero p = refl
load_big-bytes (suc n) p = ap (λ v. byte p * 256 ^ n + v) (load_big-bytes n (rest p))

pub load_big-store_big : (n v : ℕ) → load_big n (store_big n v) ≡ v % 256 ^ n
unfolding load_big store_big
load_big-store_big zero v = omega arith
load_big-store_big (suc n) v =
    let power : 256 ^ suc n ≡ 256 ^ n * 256 = omega arith in
    rw (load_big-store_big n v, power)
      (sym (mod_product v (256 ^ n) 256 (power_256_pos n) (omega arith)))

pub length-store_big : (n v : ℕ) → length (store_big n v) ≡ n
unfolding store_big
length-store_big zero v = refl
length-store_big (suc n) v = ap suc (length-store_big n v)

below : (b v q : ℕ) → b < 256 → v < q → b * q + v < 256 * q
below b v q h k = grind arith

pub load_big-lt : (n : ℕ) (p : List ℕ) → All (λ b. b < 256) p → load_big n p < 256 ^ n
unfolding load_big
load_big-lt zero p h = omega arith
load_big-lt (suc n) [] h = let more = load_big-lt n [] tt in omega arith
load_big-lt (suc n) (b ∷ p) h =
    let more = load_big-lt n p h.1 in
    let power : 256 ^ suc n ≡ 256 * 256 ^ n = omega arith in
    rw power (below b (load_big n p) (256 ^ n) h.0 more)
