-- ===== src/MemHeap/Fill/Prefix.antt =====
-- src/memheap.c: addresses with the bits behind a prefix cleared.
use libnf.Base.{
  ℕ, ◌+◌, ◌-◌, ◌*◌, ◌/◌, ◌%◌, ◌^◌, ◌≤◌, ◌<◌, ◌≡◌, refl, sym, ap, ◌∙◌, inl, inr, true, List, ◌++◌,
  ltb, ◌==◌, arith, drop, length, All, Bool-cases,
}
use libnf.Base.Bytes.{bytes, store, load_big, store_big, length-bytes}
use libnf.Base.BigEndian.{
  load_big-append, load_big-drop, load_big-bytes, load_big-store_big, length-store_big, load_big-lt,
}
use libnf.Base.Bits.{power_sum, power_pos, high_mask, bit_and_high, mod_product}
use libnf.MemHeap.Fill.{keep_mask, clear_bits_v6}
use Prim.Native.Nat.{bit_and}
use native.Mathlib.Nat.{mul-add-mod_self_left, mod-le, mod-eq_of_lt}

-- a number with its digits below the one of weight `p` cleared
abbrev pub floor_to : ℕ → ℕ → ℕ
floor_to p x = x - x % p

pub masked :
    (w from low x : ℕ)
    → low + from ≡ w
    → x < 2 ^ w
    → bit_and x (keep_mask w from) ≡ floor_to (2 ^ low) x
masked w from low x e h =
    let mask = high_mask w from low (omega arith) in
    let same : 2 ^ w ≡ 2 ^ (low + from) = ap (λ n. 2 ^ n) (sym e) in
    let small : x < 2 ^ (low + from) = omega (arith, same, h) in
    ap (bit_and x) (mask ∙ ap (λ m. m - 2 ^ low) same) ∙ bit_and_high low from x small

-- The digits of the low part of a number are those of the number.
pub floor_low :
    (n low t l : ℕ)
    → floor_to (2 ^ low) (t * 2 ^ (low + n) + l) ≡ t * 2 ^ (low + n) + floor_to (2 ^ low) l
floor_low n low t l =
    let power = power_sum low n in
    let front : t * 2 ^ (low + n) ≡ 2 ^ low * (2 ^ n * t) = rw power (grind arith) in
    let same : (t * 2 ^ (low + n) + l) % 2 ^ low ≡ l % 2 ^ low =
      ap (λ y. (y + l) % 2 ^ low) front ∙ mul-add-mod_self_left (2 ^ low) (2 ^ n * t) l in
    omega (arith, same, mod-le l (2 ^ low))

-- The digits of the high part, when those of the low part are all cleared.
floor_high :
    (low h l : ℕ)
    → l < 2 ^ 64
    → floor_to (2 ^ (64 + low)) (h * 2 ^ 64 + l) ≡ floor_to (2 ^ low) h * 2 ^ 64
floor_high low h l lt =
    let x = h * 2 ^ 64 + l in
    let upper : x / 2 ^ 64 ≡ h = omega arith in
    let lower : x % 2 ^ 64 ≡ l = omega arith in
    let power = ap (λ p. x % p) (power_sum 64 low) in
    let cut = mod_product x (2 ^ 64) (2 ^ low) (omega arith) (power_pos low) in
    let same = ap (λ y. y % 2 ^ low) upper in let small = mod-le h (2 ^ low) in omega arith

load_big-word : (v : ℕ) → v < 2 ^ 64 → load_big 8 (store_big 8 v) ≡ v
load_big-word v h = load_big-store_big 8 v ∙ mod-eq_of_lt (omega arith)

load_big_zeros : load_big 8 (store 8 0) ≡ 0
unfolding load_big store
load_big_zeros = refl

pub floor_le : (p x : ℕ) → floor_to p x ≤ x
floor_le p x = omega arith

two_words :
    (a b : List ℕ) → length a ≡ 8 → load_big 16 (a ++ b) ≡ load_big 8 a * 2 ^ 64 + load_big 8 b
two_words a b e = load_big-append 16 8 8 a b refl e

-- `lnf_clear_bits_v6` keeps the first `from` bits of an address, all of them from 128 on.
pub load_big-clear_bits_v6 :
    (from : ℕ) (a : List ℕ)
    → All (λ b. b < 256) a
    → All (λ b. b < 256) (drop 8 a)
    → load_big 16 (clear_bits_v6 from a) ≡ floor_to (2 ^ (128 - from)) (load_big 16 a)
unfolding clear_bits_v6
load_big-clear_bits_v6 from a ha hb =
    let h = load_big 8 a in
    let l = load_big 8 (drop 8 a) in
    let whole : load_big 16 a ≡ h * 2 ^ 64 + l = load_big-drop 16 8 8 a refl in
    let h_lt : h < 2 ^ 64 = load_big-lt 8 a ha in
    let l_lt : l < 2 ^ 64 = load_big-lt 8 (drop 8 a) hb in
    elim (Bool-cases (from == 64)) [
      | inl e ↦
          let at : from ≡ 64 = ground arith in
          rw at (
            two_words (bytes 8 a) (store 8 0) (length-bytes 8 a)
            ∙ rw (load_big-bytes 8 a, load_big_zeros, whole) (omega arith))
      | inr e ↦ elim (Bool-cases (ltb from 64)) [
        | inl below ↦
            let low = 64 - from in
            let sum : low + from ≡ 64 = ground arith in
            let cut = masked 64 from low h sum h_lt in
            let small : bit_and h (keep_mask 64 from) < 2 ^ 64 =
              omega (arith, cut, floor_le (2 ^ low) h) in
            let value : load_big 8 (store_big 8 (bit_and h (keep_mask 64 from)))
                ≡ floor_to (2 ^ low) h =
              load_big-word _ small ∙ cut in
            let depth : 128 - from ≡ 64 + low = omega arith in
            rw (e, below)
              (two_words (store_big 8 (bit_and h (keep_mask 64 from))) (store 8 0)
                  (length-store_big 8 _)
                ∙ rw (value, load_big_zeros, whole, depth) (omega (arith, floor_high low h l l_lt)))
        | inr above ↦ elim (Bool-cases (ltb from 128)) [
          | inl inside ↦
              let low = 128 - from in
              let over : ltb 64 from ≡ true = ground arith in
              let sum : low + (from - 64) ≡ 64 = ground arith in
              let cut = masked 64 (from - 64) low l sum l_lt in
              let small : bit_and l (keep_mask 64 (from - 64)) < 2 ^ 64 =
                omega (arith, cut, floor_le (2 ^ low) l) in
              let value = load_big-word (bit_and l (keep_mask 64 (from - 64))) small ∙ cut in
              let power = ap (λ n. floor_to (2 ^ low) (h * 2 ^ n + l)) sum in
              let power' = ap (λ n. h * 2 ^ n) sum in
              let low_part = floor_low (from - 64) low h l in
              rw (e, above, over, inside)
                (two_words (bytes 8 a) (store_big 8 (bit_and l (keep_mask 64 (from - 64))))
                    (length-bytes 8 a)
                  ∙ rw (load_big-bytes 8 a, value, whole)
                      (sym (sym power ∙ low_part ∙ ap (λ y. y + floor_to (2 ^ low) l) power')))
          | inr outside ↦
              let depth : 128 - from ≡ 0 = ground arith in
              let over : ltb 64 from ≡ true = ground arith in
              rw (e, above, over, outside, depth) (load_big-bytes 16 a ∙ omega arith)
        ]
      ]
    ]
