-- ===== src/Filter/Literal/Signed/Laws.antt =====
-- src/ffilter/ffilter.c: which texts str_to_int takes, and what it stores for them.
use libnf.Base.{
  ℕ, zero, suc, ◌*◌, ◌<◌, ◌≡◌, ◌≢◌, refl, sym, ap, ◌∙◌, Bool, true, false, ◌&&◌, List, [], ◌∷◌,
  Option, none, some, ◌==◌, if◌then◌else◌, drop, All, arith, Bool-cases, Option-cases, inl, inr,
  ◌⊎◌,
}
use libnf.Base.Bytes.{byte, store, load, signed}
use libnf.Base.Int.{ℤ, pos, negsuc}
use libnf.Filter.Types.{FfType}
use libnf.Filter.Literal.{
  Errno, is_clear, Scan, Read, Cast, stored, failed, undefined, get_unit, skip_space, past_unit,
  in_range,
}
use libnf.Filter.Literal.Suffix.{suffix, letter}
use libnf.Filter.Literal.Signed.{
  times, pattern, scale_int, ff_strtoll, int_size, finish, str_to_int,
}
use libnf.Filter.Literal.Signed.Numbers.{
  over-times, same_ℤ-self, store_int-in_range, signed-load, size_bits,
}
use native.Mathlib.Decide.{ℕ_discrete}

-- What stands behind the digits: a suffix, or characters that are left over.
data Left (end : List ℕ) : Type 0 where
  at :
      (m : ℕ)
      → suffix end ≡ some m
      → get_unit (skip_space end) ≡ m
      → past_unit m (skip_space end) ≡ []
      → Left end
  over_ : suffix end ≡ none → get_unit (skip_space end) ≡ 0 → 0 < byte (skip_space end) → Left end

unit_letter :
    (c : ℕ)
    → (letter c ≡ none × (get_unit (c ∷ []) ≡ 0))
      ⊎ ((m : ℕ) × (letter c ≡ some m) × (get_unit (c ∷ []) ≡ m) × (0 < m))
unfolding letter get_unit
unit_letter c = elim (Option-cases (letter c)) [
  | inl l ↦ inl (l, ground arith)
  | inr (m, l) ↦ inr (m, l, ground arith, ground arith)
]

behind_letter :
    (c : ℕ) (end : List ℕ) → 0 < c → suffix end ≡ letter c → skip_space end ≡ c ∷ [] → Left end
behind_letter c end positive e skip = elim (unit_letter c) [
  | inl (l, g) ↦ over_ (e ∙ l) (rw skip g) (rw skip positive)
  | inr (m, l, g, p) ↦ at m (e ∙ l) (rw skip g) (rw skip (ground arith))
]

end-Left : (end : List ℕ) → All (λ c. 0 < c) end → end ≢ [] → Left end
unfolding suffix skip_space get_unit
end-Left [] h some_end = absurd (some_end refl)
end-Left (c ∷ []) h some_end = elim (ℕ_discrete c b' ') [
  | yes e ↦ at 0 (rw e refl) (rw e refl) (rw e refl)
  | no n ↦ behind_letter c (c ∷ []) h.0 (ground arith) (ground arith)
]
end-Left (c ∷ d ∷ []) h some_end = elim (ℕ_discrete c b' ') [
  | yes e ↦ behind_letter d (c ∷ d ∷ []) h.1.0 (ground arith) (ground arith)
  | no n ↦ over_ (ground arith) (ground arith) (ground arith)
]
end-Left (c ∷ d ∷ e ∷ more) h some_end = elim (ℕ_discrete c b' ') [
  | yes q ↦ over_ refl (ground arith) (ground arith)
  | no n ↦ over_ refl (ground arith) (ground arith)
]

-- what is stored for a number of the given value, in `n` bytes
unfoldable pub taken_int : Bool → ℕ → ℤ → Option ℕ → Cast
taken_int alloc n z none = failed
taken_int alloc n z (some m) =
    let fits = in_range (times z m) (8 * n) && alloc in
    if in_range (times z m) 64
    then (if fits then stored (store n (pattern (8 * n) (times z m))) else failed)
    else undefined

abbrev read_at : ℤ → List ℕ → Read ℤ
read_at z end = record { value = z; endptr = end; err = Errno.clear }

finish_int-taken :
    (alloc : Bool) (type : FfType) (n m : ℕ) (z : ℤ)
    → int_size type ≡ some n
    → finish alloc type (if in_range (times z m) 64 then some (read_at (times z m) []) else none)
      ≡ taken_int alloc n z (some m)
unfolding taken_int
finish_int-taken alloc type n m z e = elim (Bool-cases (in_range (times z m) 64)) [
  | inl h ↦ rw h (rw e (store_int-in_range alloc type n (times z m) e h))
  | inr h ↦ rw h refl
]

times_zero : (z : ℤ) → times z 0 ≡ pos 0
times_zero (pos n) = ground arith
times_zero (negsuc n) = ground arith

times_one : (z : ℤ) → times z 1 ≡ z
times_one (pos n) = ground arith
times_one (negsuc n) = ground arith

scale_int-unit :
    (z : ℤ) (unit : List ℕ) (m : ℕ)
    → get_unit unit ≡ m
    → scale_int z unit
      ≡ (if in_range (times z m) 64 then some (read_at (times z m) (past_unit m unit)) else none)
unfolding scale_int
scale_int-unit z unit zero h = rw h refl
scale_int-unit z unit (suc m) h =
    let nonzero : (suc m == 0) ≡ false = ground arith in
    let back = over-times z (suc m) (omega arith) in rw (h, back, same_ℤ-self z, nonzero) refl

after_digits_int : ℤ → List ℕ → Option (Read ℤ)
after_digits_int z end =
    if byte end == 0 then some (read_at z end) else scale_int z (skip_space end)

left_over :
    (alloc : Bool) (type : FfType) (n : ℕ) (z v : ℤ) (unit : List ℕ)
    → 0 < byte unit
    → finish alloc type (some (read_at z unit)) ≡ taken_int alloc n v none
unfolding taken_int
left_over alloc type n z v unit h = ground arith

after_digits_int-taken :
    (alloc : Bool) (type : FfType) (n : ℕ) (z : ℤ) (end : List ℕ)
    → int_size type ≡ some n
    → in_range z 64 ≡ true
    → All (λ c. 0 < c) end
    → finish alloc type (after_digits_int z end) ≡ taken_int alloc n z (suffix end)
unfolding after_digits_int suffix
after_digits_int-taken alloc type n z [] e small h =
    let whole = finish_int-taken alloc type n 1 z e in rw (rw (times_one z, small) at whole) refl
after_digits_int-taken alloc type n z (c ∷ end) e small h =
    let unit = skip_space (c ∷ end) in
    let more : (c == 0) ≡ false = ground arith in
    let scaled : after_digits_int z (c ∷ end) ≡ scale_int z unit = rw more refl in
    let read : ℕ → List ℕ → Option (Read ℤ) =
      λ m r. if in_range (times z m) 64 then some (read_at (times z m) r) else none in
    elim (end-Left (c ∷ end) h (λ q. cc q)) [
      | at m s g p ↦
          ap (finish alloc type) (scaled ∙ scale_int-unit z unit m g ∙ ap (read m) p)
          ∙ finish_int-taken alloc type n m z e
          ∙ ap (taken_int alloc n z) (sym s)
      | over_ s g p ↦
          ap (finish alloc type) (scaled ∙ scale_int-unit z unit 0 g)
          ∙ rw (times_zero z) (left_over alloc type n (pos 0) z unit p)
          ∙ ap (taken_int alloc n z) (sym s)
    ]

-- what str_to_int should give for `s` and the text behind it
unfoldable pub expected_int : Bool → ℕ → Scan ℤ → List ℕ → Cast
unfolding taken_int suffix
expected_int alloc n s str =
    if is_clear s.errno then taken_int alloc n s.value (suffix (drop s.used str)) else failed

-- str_to_int on a text that strtoll reads up to a suffix, for a type of `n` bytes: it stores the
-- number times the suffix exactly when strtoll reports no error, the product fits the bytes and
-- malloc has the memory. Where the product leaves `int64_t` the C code has no meaning. The
-- hypothesis on the value is what strtoll documents.
pub str_to_int-suffix :
    (strtoll : List ℕ → Scan ℤ) (alloc : Bool) (str : List ℕ) (type : FfType) (n : ℕ)
    → int_size type ≡ some n
    → in_range (strtoll str).value 64 ≡ true
    → All (λ c. 0 < c) (drop (strtoll str).used str)
    → str_to_int strtoll alloc str type ≡ expected_int alloc n (strtoll str) str
unfolding str_to_int
str_to_int-suffix strtoll alloc str type n e small chars =
    let s = strtoll str in
    let end = drop s.used str in
    elim (Bool-cases (is_clear s.errno)) [
      | inr bad ↦
          let read : ff_strtoll strtoll str
              ≡ some (record { value = pos 0; endptr = str; err = s.errno }) =
            unfold ff_strtoll in rw bad refl in
          let none_left : expected_int alloc n s str ≡ failed =
            unfold expected_int in rw bad refl in
          ap (finish alloc type) read ∙ rw bad refl ∙ sym none_left
      | inl good ↦
          let read : ff_strtoll strtoll str ≡ after_digits_int s.value end =
            unfold ff_strtoll after_digits_int in rw good refl in
          let right : expected_int alloc n s str ≡ taken_int alloc n s.value (suffix end) =
            unfold expected_int in rw good refl in
          ap (finish alloc type) read
          ∙ after_digits_int-taken alloc type n s.value end e small chars
          ∙ sym right
    ]

-- the number that a text stands for, if str_to_int takes it
unfoldable pub meant_int : Scan ℤ → List ℕ → Option ℤ
unfolding suffix
meant_int s str = elim (suffix (drop s.used str)) [ none ↦ none | some m ↦ some (times s.value m) ]

taken_int-stored :
    (alloc : Bool) (type : FfType) (n : ℕ) (z : ℤ) (m : Option ℕ) (bs : List ℕ)
    → int_size type ≡ some n
    → taken_int alloc n z m ≡ stored bs
    → some (signed (8 * n) (load n bs)) ≡ elim m [ none ↦ none | some m ↦ some (times z m) ]
unfolding taken_int
taken_int-stored alloc type n z none bs e h = cc h
taken_int-stored alloc type n z (some m) bs e h =
    let (w, width, power) = size_bits type n e in
    ground (arith, signed-load n w (times z m) width power)

-- What str_to_int stores is read back, as a signed number of that width, as the number that
-- strtoll read times its suffix: no accepted number is changed by the narrowing store.
pub signed-str_to_int :
    (strtoll : List ℕ → Scan ℤ) (alloc : Bool) (str bs : List ℕ) (type : FfType) (n : ℕ)
    → int_size type ≡ some n
    → in_range (strtoll str).value 64 ≡ true
    → All (λ c. 0 < c) (drop (strtoll str).used str)
    → str_to_int strtoll alloc str type ≡ stored bs
    → some (signed (8 * n) (load n bs)) ≡ meant_int (strtoll str) str
unfolding meant_int expected_int
signed-str_to_int strtoll alloc str bs type n e small chars h =
    let s = strtoll str in
    let whole = str_to_int-suffix strtoll alloc str type n e small chars in
    let keep : Bool → Cast =
      λ b. if b then taken_int alloc n s.value (suffix (drop s.used str)) else failed in
    elim (Bool-cases (is_clear s.errno)) [
      | inl good ↦ taken_int-stored alloc type n s.value _ bs e (sym (ap keep good) ∙ sym whole ∙ h)
      | inr bad ↦ cc (sym (ap keep bad) ∙ sym whole ∙ h)
    ]
