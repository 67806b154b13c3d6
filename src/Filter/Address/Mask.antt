-- ===== src/Filter/Address/Mask.antt =====
-- src/ffilter/ffilter.c: what a mask is as a number.
use libnf.Base.{
  ℕ, zero, suc, ◌+◌, ◌-◌, ◌*◌, ◌/◌, ◌%◌, ◌^◌, ◌≤◌, ◌<◌, ◌≡◌, refl, sym, ap, ◌∙◌, true, false, List,
  ◌∷◌, ◌++◌, replicate, arith,
}
use libnf.Base.Bytes.{load_big, store_big}
use libnf.Filter.Address.{mask_words, high_bits, int_to_netmask, is_negative}
use libnf.Base.Bits.{power_sum, power_pos, high_mask}
use native.Mathlib.Decide.{ℕ_discrete}

abbrev zeros : ℕ → List ℕ
zeros n = replicate n 0

ones0 :
    (v : ℕ) → v < 2 ^ 32 → load_big 16 (store_big 4 v ++ zeros 12) ≡ 2 ^ 128 - 2 ^ 128 + v * 2 ^ 96
unfolding load_big store_big
ones0 v h = omega arith

ones1 :
    (v : ℕ)
    → v < 2 ^ 32
    → load_big 16 (0xff ∷ 0xff ∷ 0xff ∷ 0xff ∷ store_big 4 v ++ zeros 8)
      ≡ 2 ^ 128 - 2 ^ 96 + v * 2 ^ 64
unfolding load_big store_big
ones1 v h = omega arith

ones2 :
    (v : ℕ)
    → v < 2 ^ 32
    → load_big 16 (0xff ∷ 0xff ∷ 0xff ∷ 0xff ∷ 0xff ∷ 0xff ∷ 0xff ∷ 0xff ∷ store_big 4 v ++ zeros 4)
      ≡ 2 ^ 128 - 2 ^ 64 + v * 2 ^ 32
unfolding load_big store_big
ones2 v h = omega arith

ones3 :
    (v : ℕ)
    → v < 2 ^ 32
    → load_big 16 (
        0xff
          ∷ 0xff
          ∷ 0xff
          ∷ 0xff
          ∷ 0xff
          ∷ 0xff
          ∷ 0xff
          ∷ 0xff
          ∷ 0xff
          ∷ 0xff
          ∷ 0xff
          ∷ 0xff
          ∷ store_big 4 v
        ++ zeros 0)
      ≡ 2 ^ 128 - 2 ^ 32 + v * 2 ^ 0
unfolding load_big store_big
ones3 v h = omega arith

-- With `bits` high bits set, the rest of the word is clear.
high_bits-eq : (bits low : ℕ) → bits + low ≡ 32 → high_bits bits ≡ 2 ^ 32 - 2 ^ low
high_bits-eq bits low e = high_mask 32 bits low e

high_bits-lt : (bits : ℕ) → high_bits bits < 2 ^ 32
high_bits-lt bits = omega arith

low_bound : (bits low : ℕ) → bits + low ≡ 32 → 2 ^ low ≤ 2 ^ 32
low_bound bits low e =
    let whole : 2 ^ bits * 2 ^ low ≡ 2 ^ 32 = sym (power_sum bits low) ∙ ap (λ n. 2 ^ n) e in
    let p = power_pos bits in grind arith

mask_words-value :
    (full bits low : ℕ)
    → full < 4
    → bits + low ≡ 32
    → load_big 16 (mask_words 4 full bits (replicate 16 0)) ≡ 2 ^ 128 - 2 ^ (low + (96 - 32 * full))
unfolding mask_words
mask_words-value zero bits low h e =
    rw (ones0 (high_bits bits) (high_bits-lt bits), high_bits-eq bits low e, power_sum low 96)
      (omega (arith, low_bound bits low e))
mask_words-value (suc zero) bits low h e =
    rw (ones1 (high_bits bits) (high_bits-lt bits), high_bits-eq bits low e, power_sum low 64)
      (omega (arith, low_bound bits low e))
mask_words-value (suc (suc zero)) bits low h e =
    rw (ones2 (high_bits bits) (high_bits-lt bits), high_bits-eq bits low e, power_sum low 32)
      (omega (arith, low_bound bits low e))
mask_words-value (suc (suc (suc zero))) bits low h e =
    rw (ones3 (high_bits bits) (high_bits-lt bits), high_bits-eq bits low e, power_sum low 0)
      (omega (arith, low_bound bits low e))
mask_words-value (suc (suc (suc (suc full)))) bits low h e = absurd (omega arith)

-- For 0 to 128 bits the mask is accepted, and as a number of 128 bits in network order it has that
-- many leading ones and zeros behind them.
pub load_big-int_to_netmask :
    (numbits : ℕ)
    → numbits ≤ 128
    → ((int_to_netmask numbits (replicate 16 0)).0 ≡ true)
      × (load_big 16 (int_to_netmask numbits (replicate 16 0)).1 ≡ 2 ^ 128 - 2 ^ (128 - numbits))
unfolding int_to_netmask
load_big-int_to_netmask numbits h = elim (ℕ_discrete numbits 128) [
  | yes e ↦ rw e (unfold mask_words load_big in (refl, refl))
  | no n ↦
      let positive : is_negative numbits ≡ false = ground arith in
      let exponent : 32 - numbits % 32 + (96 - 32 * (numbits / 32)) ≡ 128 - numbits = omega arith in
      let value =
        mask_words-value (numbits / 32) (numbits % 32) (32 - numbits % 32) (omega arith)
          (omega arith) in
      (ground arith, rw positive (value ∙ ap (λ k. 2 ^ 128 - 2 ^ k) exponent))
]
