-- ===== src/MemHeap/Aggr/Fields.antt =====
-- src/memheap.c: the aggregation of a row against the aggregation of each of its fields.
use Prim.Native.Nat.{bit_or}
use libnf.Base.{
  ℕ, zero, suc, ◌+◌, ◌*◌, ◌%◌, ◌^◌, ◌≤◌, ◌≡◌, refl, sym, ap, ◌∙◌, Bool, true, false, List, [], ◌∷◌,
  arith, ltb, if◌then◌else◌, drop, length,
}
use libnf.Base.Bytes.{
  byte, rest, load, store, bytes, load-bytes, load-store, length-bytes, length-store,
}
use libnf.MemHeap.FieldList.{
  AggrFunc, aggr_sum, aggr_or, aggr_min, aggr_max, aggr_sum_double, aggr_min_double,
  aggr_max_double, aggr_empty,
}
use libnf.MemHeap.Aggr.{Doubles, overlay, patch, aggr_bytes}

pub drop-nil : (n : ℕ) → drop {A = ℕ} n [] ≡ []
drop-nil zero = refl
drop-nil (suc n) = refl

drop-suc : (n : ℕ) (l : List ℕ) → drop (suc n) l ≡ drop n (rest l)
drop-suc n [] = sym (drop-nil n)
drop-suc n (x ∷ l) = refl

-- What stands where something was written: the bytes written, then what was there.
pub drop-patch : (o : ℕ) (new buf : List ℕ) → drop o (patch o new buf) ≡ overlay new (drop o buf)
unfolding patch
drop-patch o [] buf = refl
drop-patch zero (b ∷ new) buf = refl
drop-patch (suc o) (b ∷ new) buf =
    drop-patch o (b ∷ new) (rest buf) ∙ ap (overlay (b ∷ new)) (sym (drop-suc o buf))

load-overlay : (n : ℕ) (new buf : List ℕ) → n ≡ length new → load n (overlay new buf) ≡ load n new
unfolding load
load-overlay zero new buf e = refl
load-overlay (suc n) [] buf e = absurd (omega arith)
load-overlay (suc n) (b ∷ new) buf e =
    ap (λ v. b + 256 * v) (load-overlay n new (rest buf) (omega arith))

pub load-patch_start : (o n : ℕ) (new buf : List ℕ) → n ≤ o → load n (patch o new buf) ≡ load n buf
unfolding load patch
load-patch_start o n [] buf h = refl
load-patch_start o zero (b ∷ new) buf h = refl
load-patch_start zero (suc n) (b ∷ new) buf h = absurd (omega arith)
load-patch_start (suc o) (suc n) (b ∷ new) buf h =
    ap (λ v. byte buf + 256 * v) (load-patch_start o n (b ∷ new) (rest buf) (omega arith))

-- A write is not seen before its offset, nor after its end.
pub load-patch_before :
    (o i n : ℕ) (new buf : List ℕ)
    → i + n ≤ o
    → load n (drop i (patch o new buf)) ≡ load n (drop i buf)
unfolding patch
load-patch_before o i n [] buf h = refl
load-patch_before o zero n (b ∷ new) buf h = load-patch_start o n (b ∷ new) buf (omega arith)
load-patch_before zero (suc i) n (b ∷ new) buf h = absurd (omega arith)
load-patch_before (suc o) (suc i) n (b ∷ new) buf h =
    load-patch_before o i n (b ∷ new) (rest buf) (omega arith) ∙ ap (load n) (sym (drop-suc i buf))

drop-overlay_after :
    (new buf : List ℕ) (i : ℕ) → length new ≤ i → drop i (overlay new buf) ≡ drop i buf
drop-overlay_after [] buf i h = refl
drop-overlay_after (b ∷ new) buf zero h = absurd (omega arith)
drop-overlay_after (b ∷ new) buf (suc i) h =
    drop-overlay_after new (rest buf) i (omega arith) ∙ sym (drop-suc i buf)

pub drop-patch_after :
    (o i : ℕ) (new buf : List ℕ) → o + length new ≤ i → drop i (patch o new buf) ≡ drop i buf
unfolding patch
drop-patch_after o i [] buf h = refl
drop-patch_after zero i (b ∷ new) buf h = drop-overlay_after (b ∷ new) buf i (omega arith)
drop-patch_after (suc o) zero (b ∷ new) buf h = absurd (omega arith)
drop-patch_after (suc o) (suc i) (b ∷ new) buf h =
    drop-patch_after o i (b ∷ new) (rest buf) (omega arith) ∙ sym (drop-suc i buf)

-- The aggregation of two numbers, for a field of `w` bytes.
abbrev pub combine : Doubles → AggrFunc → ℕ → ℕ → ℕ
combine doubles (aggr_sum w) a b = (a + b) % 256 ^ w
combine doubles (aggr_or w) a b = bit_or a b % 256 ^ w
combine doubles (aggr_min w) a b = if ltb b a then b else a
combine doubles (aggr_max w) a b = if ltb a b then b else a
combine doubles aggr_sum_double a b = doubles.double_add a b % 256 ^ 8
combine doubles aggr_min_double a b = if doubles.double_lt b a then b else a
combine doubles aggr_max_double a b = if doubles.double_lt a b then b else a
combine doubles aggr_empty a b = a

-- The function of a field fits its size.
abbrev pub Fits : AggrFunc → ℕ → Type 0
Fits (aggr_sum w) size = w ≡ size
Fits (aggr_or w) size = w ≡ size
Fits (aggr_min w) size = w ≡ size
Fits (aggr_max w) size = w ≡ size
Fits aggr_sum_double size = 8 ≡ size
Fits aggr_min_double size = 8 ≡ size
Fits aggr_max_double size = 8 ≡ size
Fits aggr_empty size = Unit

load-store_at : (w v : ℕ) (buf : List ℕ) → load w (overlay (store w v) buf) ≡ v % 256 ^ w
load-store_at w v buf = load-overlay w (store w v) buf (sym (length-store w v)) ∙ load-store w v

load-copy_at : (w : ℕ) (from buf : List ℕ) → load w (overlay (bytes w from) buf) ≡ load w from
load-copy_at w from buf =
    load-overlay w (bytes w from) buf (sym (length-bytes w from)) ∙ load-bytes w from

-- a conditional copy of `w` bytes
load-copy_if :
    (c : Bool) (w : ℕ) (from buf : List ℕ)
    → load w (overlay (if c then bytes w from else []) buf)
      ≡ (if c then load w from else load w buf)
load-copy_if true w from buf = load-copy_at w from buf
load-copy_if false w from buf = refl

length-copy_if : (c : Bool) (w : ℕ) (from : List ℕ) → length (if c then bytes w from else []) ≤ w
length-copy_if true w from = omega (arith, length-bytes w from)
length-copy_if false w from = omega arith

module _ (doubles : Doubles) where
  -- Where the field stands, its aggregate is left.
  pub load-aggr_bytes :
      (f : AggrFunc) (w : ℕ) (a b : List ℕ)
      → Fits f w
      → load w (overlay (aggr_bytes doubles f a b) a) ≡ combine doubles f (load w a) (load w b)
  unfolding aggr_bytes
  load-aggr_bytes (aggr_sum n) w a b e = rw e (load-store_at w _ a)
  load-aggr_bytes (aggr_or n) w a b e = rw e (load-store_at w _ a)
  load-aggr_bytes (aggr_min n) w a b e = rw e (load-copy_if _ w b a)
  load-aggr_bytes (aggr_max n) w a b e = rw e (load-copy_if _ w b a)
  load-aggr_bytes aggr_sum_double w a b e = rw (sym e) (load-store_at 8 _ a)
  load-aggr_bytes aggr_min_double w a b e = rw (sym e) (load-copy_if _ 8 b a)
  load-aggr_bytes aggr_max_double w a b e = rw (sym e) (load-copy_if _ 8 b a)
  load-aggr_bytes aggr_empty w a b e = refl

  -- No more than the size of the field is written.
  pub length-aggr_bytes :
      (f : AggrFunc) (w : ℕ) (a b : List ℕ) → Fits f w → length (aggr_bytes doubles f a b) ≤ w
  unfolding aggr_bytes
  length-aggr_bytes (aggr_sum n) w a b e = omega (arith, length-store n (load n a + load n b))
  length-aggr_bytes (aggr_or n) w a b e =
      omega (arith, length-store n (bit_or (load n a) (load n b)))
  length-aggr_bytes (aggr_min n) w a b e = rw e (length-copy_if _ w b)
  length-aggr_bytes (aggr_max n) w a b e = rw e (length-copy_if _ w b)
  length-aggr_bytes aggr_sum_double w a b e =
      omega (arith, length-store 8 (doubles.double_add (load 8 a) (load 8 b)))
  length-aggr_bytes aggr_min_double w a b e = rw (sym e) (length-copy_if _ 8 b)
  length-aggr_bytes aggr_max_double w a b e = rw (sym e) (length-copy_if _ 8 b)
  length-aggr_bytes aggr_empty w a b e = omega arith
