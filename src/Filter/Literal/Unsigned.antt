-- ===== src/Filter/Literal/Unsigned.antt =====
-- src/ffilter/ffilter.c: which texts str_to_uint takes, and what it stores for them.
use libnf.Base.{
  ℕ, ◌*◌, ◌^◌, ◌≤◌, ◌<◌, ◌≡◌, refl, sym, ap, ◌∙◌, Bool, true, false, not, ◌&&◌, List, [], Option,
  none, some, ltb, ◌==◌, if◌then◌else◌, drop, All, arith, lt→ltb, Bool-cases, inl, inr,
}
use libnf.Base.Bytes.{byte, store}
use libnf.Filter.Types.{FfType}
use libnf.Filter.Literal.{
  Errno, is_clear, Scan, Read, Cast, stored, failed, saturate_uint, scale_uint, after_digits,
  ff_strtoull, uint_size, store_uint, str_to_uint,
}
use native.Mathlib.Decide.{ℕ_discrete, dec_lt}
use native.Mathlib.Nat.{mod-eq_of_lt}
use libnf.Filter.Literal.Suffix.{suffix, scaled, Ends, at, before, after_digits-Ends}

-- what is stored for a number of the given value, in `size` bytes
unfoldable pub taken : Bool → ℕ → ℕ → Option ℕ → Cast
taken alloc size v none = failed
taken alloc size v (some m) =
    if ltb (v * m) (256 ^ size) && alloc then stored (store size (v * m)) else failed

abbrev finish_uint : Bool → FfType → Read ℕ → Cast
finish_uint alloc type r =
    if not (is_clear r.err)
    then failed
    else (if not (byte r.endptr == 0) then failed else elim (uint_size type) [
      | none ↦ failed
      | some size ↦ store_uint alloc r.value type size
    ])

store_uint-taken :
    (alloc : Bool) (type : FfType) (n p : ℕ)
    → uint_size type ≡ some n
    → p < 2 ^ 64
    → store_uint alloc p type n ≡ (if ltb p (256 ^ n) && alloc then stored (store n p) else failed)
unfolding saturate_uint
store_uint-taken alloc FfType.uint64 n p e small = let size : n ≡ 8 = cc e in rw size (ground arith)
store_uint-taken alloc FfType.uint32 n p e small = let size : n ≡ 4 = cc e in rw size (ground arith)
store_uint-taken alloc FfType.uint16 n p e small = let size : n ≡ 2 = cc e in rw size (ground arith)
store_uint-taken alloc FfType.uint8 n p e small = let size : n ≡ 1 = cc e in rw size (ground arith)
store_uint-taken alloc _ n p e small = cc e

size_fits : (type : FfType) (n : ℕ) → uint_size type ≡ some n → 256 ^ n ≤ 2 ^ 64
size_fits FfType.uint64 n e = let size : n ≡ 8 = cc e in rw size (omega arith)
size_fits FfType.uint32 n e = let size : n ≡ 4 = cc e in rw size (omega arith)
size_fits FfType.uint16 n e = let size : n ≡ 2 = cc e in rw size (omega arith)
size_fits FfType.uint8 n e = let size : n ≡ 1 = cc e in rw size (omega arith)
size_fits _ n e = cc e

finish_uint-scaled :
    (alloc : Bool) (type : FfType) (n v m : ℕ)
    → uint_size type ≡ some n
    → finish_uint alloc type (scaled v m [] Errno.clear) ≡ taken alloc n v (some m)
unfolding taken scaled
finish_uint-scaled alloc type n v m e = elim (dec_lt (v * m) (2 ^ 64)) [
  | yes h ↦ rw (e, lt→ltb _ _ h, mod-eq_of_lt h) (store_uint-taken alloc type n (v * m) e h)
  | no h ↦ ground (arith, size_fits type n e)
]

finish_uint-taken :
    (alloc : Bool) (type : FfType) (n v : ℕ) (end : List ℕ) (r : Read ℕ)
    → uint_size type ≡ some n
    → Ends v end Errno.clear r
    → finish_uint alloc type r ≡ taken alloc n v (suffix end)
unfolding taken
finish_uint-taken alloc type n v end r e (before none_left more) = rw none_left (ground arith)
finish_uint-taken alloc type n v end r e (at m here same) =
    ap (finish_uint alloc type) same ∙ rw here (finish_uint-scaled alloc type n v m e)

signed_text : (v : ℕ) (end : List ℕ) → is_clear (after_digits v end Errno.einval).err ≡ false
unfolding scale_uint
signed_text v end = ground arith

ff_strtoull-after_digits :
    (strtoull : List ℕ → Scan ℕ) (str : List ℕ)
    → is_clear (strtoull str).errno ≡ true
    → ff_strtoull strtoull str
      ≡ after_digits
          (strtoull str).value
          (drop (strtoull str).used str)
          (if byte str == b'-' then Errno.einval else Errno.clear)
unfolding ff_strtoull
ff_strtoull-after_digits strtoull str good = rw good refl

-- what str_to_uint should give for `s` and the text behind it
unfoldable pub expected_uint : Bool → ℕ → Scan ℕ → List ℕ → Cast
unfolding taken suffix
expected_uint alloc n s str =
    if is_clear s.errno && not (byte str == b'-')
    then taken alloc n s.value (suffix (drop s.used str))
    else failed

-- str_to_uint on a text that strtoull reads up to a suffix, for a type of `n` bytes: it stores the
-- number times the suffix exactly when the first character is no minus sign, strtoull reports no
-- error, the product fits the bytes and malloc has the memory. A space alone is a suffix of factor
-- 0, as in the code. The hypothesis on the value is what strtoull documents, and the characters are
-- those before the end of the string.
pub str_to_uint-suffix :
    (strtoull : List ℕ → Scan ℕ) (alloc : Bool) (str : List ℕ) (type : FfType) (n : ℕ)
    → uint_size type ≡ some n
    → (strtoull str).value < 2 ^ 64
    → All (λ c. 0 < c) (drop (strtoull str).used str)
    → str_to_uint strtoull alloc str type ≡ expected_uint alloc n (strtoull str) str
unfolding str_to_uint expected_uint
str_to_uint-suffix strtoull alloc str type n e small chars =
    let s = strtoull str in
    let end = drop s.used str in
    let read = ff_strtoull-after_digits strtoull str in
    elim (Bool-cases (is_clear s.errno)) [
      | inr bad ↦ unfold ff_strtoull in rw bad (rw bad refl)
      | inl good ↦ elim (ℕ_discrete (byte str) b'-') [
        | yes minus ↦
            ap (finish_uint alloc type) (read good)
            ∙ rw (good, minus) (rw (signed_text s.value end) refl)
        | no plus ↦
            let other : (byte str == b'-') ≡ false = ground arith in
            let ends = after_digits-Ends s.value end Errno.clear small chars in
            let right : expected_uint alloc n s str ≡ taken alloc n s.value (suffix end) =
              rw (good, other) refl in
            let pick : Bool → Read ℕ =
              λ b. after_digits s.value end (if b then Errno.einval else Errno.clear) in
            ap (finish_uint alloc type) (read good ∙ ap pick other)
            ∙ finish_uint-taken alloc type n s.value end _ e ends
            ∙ sym right
      ]
    ]

-- the value of a text, if str_to_uint takes it
unfoldable pub meant : Scan ℕ → List ℕ → Option ℕ
unfolding suffix
meant s str = elim (suffix (drop s.used str)) [ none ↦ none | some m ↦ some (s.value * m) ]
