-- ===== src/MemHeap/Fill/Coarse.antt =====
-- src/memheap.c: an address in a key, cut to the prefix that its field asks for.
use libnf.Base.{
  ℕ, zero, suc, ◌+◌, ◌-◌, ◌*◌, ◌^◌, ◌≤◌, ◌<◌, ◌≡◌, refl, sym, ap, ◌∙◌, inl, inr, Bool, ◌&&◌, List,
  [], ◌∷◌, ◌++◌, ltb, ◌==◌, if◌then◌else◌, arith, drop, length, All, Bool-cases, length-append,
  drop-nil,
}
use libnf.Base.Bytes.{byte, rest, bytes, store, load_big, store_big, length-bytes, length-store}
use libnf.Base.BigEndian.{
  load_big-drop, load_big-bytes, load_big-store_big, length-store_big, load_big-lt, drop-suc,
}
use libnf.MemHeap.FieldList.{Field}
use libnf.MemHeap.Aggr.{overlay, patch}
use libnf.MemHeap.Aggr.Fields.{drop-patch, drop-patch_after}
use libnf.MemHeap.Fill.{keep_mask, clear_bits_v4, clear_bits_v6, coarsen}
use libnf.MemHeap.Fill.Prefix.{masked, floor_low, floor_le, floor_to, load_big-clear_bits_v6}
use Prim.Native.Nat.{bit_and}
use native.Mathlib.Nat.{mod-eq_of_lt}

load_big-clear_bits_v4 :
    (from : ℕ) (a : List ℕ)
    → All (λ b. b < 256) a
    → load_big 4 (clear_bits_v4 from a) ≡ floor_to (2 ^ (32 - from)) (load_big 4 a)
unfolding clear_bits_v4
load_big-clear_bits_v4 from a h = elim (Bool-cases (ltb from 32)) [
  | inl below ↦
      let low = 32 - from in
      let v = load_big 4 a in
      let sum : low + from ≡ 32 = ground arith in
      let lt : v < 2 ^ 32 = load_big-lt 4 a h in
      let cut = masked 32 from low v sum lt in
      let small : bit_and v (keep_mask 32 from) < 2 ^ 32 =
        omega (arith, cut, floor_le (2 ^ low) v) in
      rw below
        (load_big-store_big 4 (bit_and v (keep_mask 32 from)) ∙ mod-eq_of_lt (omega arith) ∙ cut)
  | inr above ↦
      let depth : 32 - from ≡ 0 = ground arith in
      rw (above, depth) (load_big-bytes 4 a ∙ omega arith)
]

length-clear_bits_v4 : (from : ℕ) (a : List ℕ) → length (clear_bits_v4 from a) ≡ 4
unfolding clear_bits_v4
length-clear_bits_v4 from a = elim (Bool-cases (ltb from 32)) [
  | inl e ↦ rw e (length-store_big 4 _)
  | inr e ↦ rw e (length-bytes 4 a)
]

two_parts : (a b : List ℕ) → length a ≡ 8 → length b ≡ 8 → length (a ++ b) ≡ 16
two_parts a b e f = omega (arith, length-append a b)

length-clear_bits_v6 : (from : ℕ) (a : List ℕ) → length (clear_bits_v6 from a) ≡ 16
unfolding clear_bits_v6
length-clear_bits_v6 from a = elim (Bool-cases (from == 64)) [
  | inl e ↦ rw e (two_parts (bytes 8 a) (store 8 0) (length-bytes 8 a) (length-store 8 0))
  | inr e ↦ elim (Bool-cases (ltb from 64)) [
    | inl f ↦
        rw (e, f) (two_parts (store_big 8 _) (store 8 0) (length-store_big 8 _) (length-store 8 0))
    | inr f ↦ elim (Bool-cases (ltb 64 from && ltb from 128)) [
      | inl g ↦
          rw (e, f, g)
            (two_parts (bytes 8 a) (store_big 8 _) (length-bytes 8 a) (length-store_big 8 _))
      | inr g ↦ rw (e, f, g) (length-bytes 16 a)
    ]
  ]
]

load_big-overlay :
    (n : ℕ) (new buf : List ℕ) → n ≡ length new → load_big n (overlay new buf) ≡ load_big n new
unfolding load_big
load_big-overlay zero new buf e = refl
load_big-overlay (suc n) [] buf e = absurd (omega arith)
load_big-overlay (suc n) (b ∷ new) buf e =
    ap (λ v. b * 256 ^ n + v) (load_big-overlay n new (rest buf) (omega arith))

load_big-patch_start :
    (o n : ℕ) (new buf : List ℕ) → n ≤ o → load_big n (patch o new buf) ≡ load_big n buf
unfolding load_big patch
load_big-patch_start o n [] buf h = refl
load_big-patch_start o zero (b ∷ new) buf h = refl
load_big-patch_start zero (suc n) (b ∷ new) buf h = absurd (omega arith)
load_big-patch_start (suc o) (suc n) (b ∷ new) buf h =
    ap (λ v. byte buf * 256 ^ n + v) (load_big-patch_start o n (b ∷ new) (rest buf) (omega arith))

-- A write behind an offset, seen from it.
drop-patch_inside :
    (o k j : ℕ) (new buf : List ℕ) → j ≡ o + k → drop o (patch j new buf) ≡ patch k new (drop o buf)
unfolding patch
drop-patch_inside o k j [] buf e = refl
drop-patch_inside zero k j (b ∷ new) buf e =
    let same : j ≡ k = omega arith in ap (λ i. patch i (b ∷ new) buf) same
drop-patch_inside (suc o) k zero (b ∷ new) buf e = absurd (omega arith)
drop-patch_inside (suc o) k (suc j) (b ∷ new) buf e =
    drop-patch_inside o k j (b ∷ new) (rest buf) (omega arith)
    ∙ ap (patch k (b ∷ new)) (sym (drop-suc o buf))

drop-drop : (m n k : ℕ) (l : List ℕ) → k ≡ m + n → drop k l ≡ drop n (drop m l)
drop-drop zero n k l e = let same : k ≡ n = omega arith in ap (λ i. drop i l) same
drop-drop (suc m) n zero l e = absurd (omega arith)
drop-drop (suc m) n (suc k) [] e = sym (drop-nil n)
drop-drop (suc m) n (suc k) (x ∷ l) e = drop-drop m n k l (omega arith)

All-drop : (P : ℕ → Type 0) (n : ℕ) (l : List ℕ) → All P l → All P (drop n l)
All-drop P zero l h = h
All-drop P (suc n) [] h = tt
All-drop P (suc n) (x ∷ l) h = All-drop P n l h.1

-- The last four of 16 bytes replaced.
load_big-patch_last :
    (new a : List ℕ)
    → length new ≡ 4
    → load_big 16 (patch 12 new a) ≡ load_big 12 a * 2 ^ 32 + load_big 4 new
load_big-patch_last new a e =
    load_big-drop 16 12 4 (patch 12 new a) refl
    ∙ rw
        (
          load_big-patch_start 12 12 new a (omega arith),
          drop-patch 12 new a,
          load_big-overlay 4 new (drop 12 a) (sym e),
        )
        refl

-- The bits of an address that its field clears: behind `numbits` of an IPv4 address, which is the
-- last 32 bits, and behind `numbits6` of another.
abbrev pub cleared : (List ℕ → Bool) → Field → List ℕ → ℕ
cleared is_v4compat f a = if is_v4compat (bytes 16 a) then 32 - f.numbits else 128 - f.numbits6

-- Of an address in a key, as a number of 128 bits in network order, the lowest bits are cleared and
-- the others kept: behind the first `numbits` of the 32 bits of an IPv4 address, which stands in the
-- last four bytes, and behind the first `numbits6` of another address; a number of bits past the
-- end keeps all. What stands behind the address in the buffer is left alone.
pub load_big-coarsen :
    (is_v4compat : List ℕ → Bool) (f : Field) (buf : List ℕ)
    → f.type ≡ 0xA1
    → All (λ b. b < 256) buf
    → let a = drop f.offset buf in
      let buf' = coarsen is_v4compat f buf in
      (load_big 16 (drop f.offset buf') ≡ floor_to (2 ^ cleared is_v4compat f a) (load_big 16 a))
      × (drop (f.offset + 16) buf' ≡ drop (f.offset + 16) buf)
unfolding coarsen
load_big-coarsen is_v4compat f buf type h =
    let o = f.offset in
    let a = drop o buf in
    let ha = All-drop (λ b. b < 256) o buf h in
    elim (Bool-cases (is_v4compat (bytes 16 a))) [
      | inl v4 ↦
          let b = drop (o + 12) buf in
          let new = clear_bits_v4 f.numbits b in
          let size = length-clear_bits_v4 f.numbits b in
          let low = 32 - f.numbits in
          let sum : low + (32 - low) ≡ 32 = omega arith in
          let t = load_big 12 a in
          let l = load_big 4 b in
          let tail : b ≡ drop 12 a = drop-drop o 12 (o + 12) buf refl in
          let last = ap (load_big 4) tail in
          let whole : load_big 16 a ≡ t * 2 ^ 32 + l =
            load_big-drop 16 12 4 a refl ∙ omega (arith, last) in
          let cut = load_big-clear_bits_v4 f.numbits b (All-drop (λ x. x < 256) (o + 12) buf h) in
          let power = ap (λ n. floor_to (2 ^ low) (t * 2 ^ n + l)) sum in
          let power' = ap (λ n. t * 2 ^ n + floor_to (2 ^ low) l) sum in
          rw (type, v4)
            (
              ap (load_big 16) (drop-patch_inside o 12 (o + 12) new buf refl)
                  ∙ load_big-patch_last new a size
                  ∙ ap (λ y. t * 2 ^ 32 + y) cut
                  ∙ sym (
                      ap (floor_to (2 ^ low)) whole
                      ∙ sym power
                      ∙ floor_low (32 - low) low t l
                      ∙ power'),
              drop-patch_after (o + 12) (o + 16) new buf (omega (arith, size)),
            )
      | inr v6 ↦
          let new = clear_bits_v6 f.numbits6 a in
          let size = length-clear_bits_v6 f.numbits6 a in
          rw (type, v6)
            (
              ap (load_big 16) (drop-patch o new buf)
                  ∙ load_big-overlay 16 new a (sym size)
                  ∙ load_big-clear_bits_v6 f.numbits6 a ha (All-drop (λ b. b < 256) 8 a ha),
              drop-patch_after o (o + 16) new buf (omega arith),
            )
    ]
