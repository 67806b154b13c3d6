-- ===== src/Filter/Literal/Suffix.antt =====
-- src/ffilter/ffilter.c: how a number and its unit end.
use libnf.Base.{
  ℕ, ◌*◌, ◌/◌, ◌%◌, ◌^◌, ◌<◌, ◌≡◌, refl, ◌∙◌, not, ◌||◌, List, [], ◌∷◌, Option, none, some, ltb,
  ◌==◌, if◌then◌else◌, All, arith,
}
use libnf.Base.Bytes.{byte}
use libnf.Filter.Literal.{Errno, Read, get_unit, skip_space, scale_uint, after_digits}
use native.Mathlib.Decide.{ℕ_discrete}
use native.Mathlib.Nat.{div-add-mod, mod-eq_of_lt, mul-div_cancel}

-- What a unit letter multiplies by.
unfoldable pub letter : ℕ → Option ℕ
letter c =
    if c == b'k' || c == b'K'
    then some 1_000
    else (if c == b'm' || c == b'M'
        then some 1_000_000
        else (if c == b'g' || c == b'G' then some 1_000_000_000 else none))

-- What the text behind the digits multiplies by, where it is taken at all: nothing, a letter, or a
-- space and a letter. A lone space is taken too, and makes the number 0.
unfoldable pub suffix : List ℕ → Option ℕ
unfolding letter
suffix [] = some 1
suffix (c ∷ []) = if c == b' ' then some 0 else letter c
suffix (c ∷ d ∷ []) = if c == b' ' then letter d else none
suffix (c ∷ d ∷ e ∷ more) = none

-- The division finds every product that wraps.
wrapped :
    (v m : ℕ) → 0 < m → v < 2 ^ 64 → not (v * m % 2 ^ 64 / m == v) ≡ not (ltb (v * m) (2 ^ 64))
wrapped v m positive small =
    let p = v * m % 2 ^ 64 in
    let whole = div-add-mod p m in
    let back : v * m < 2 ^ 64 → p / m ≡ v = λ h. rw (mod-eq_of_lt h, mul-div_cancel v positive) in
    let low : p / m ≡ v → v * m ≡ m * (p / m) = λ same. rw same (omega arith) in
    ground (arith, back, low)

unfoldable pub scaled : ℕ → ℕ → List ℕ → Errno → Read ℕ
scaled v m end err = record {
  value = v * m % 2 ^ 64;
  endptr = end;
  err = if not (ltb (v * m) (2 ^ 64)) then Errno.erange else err;
}

-- A letter is passed, and its product is out of range exactly when 64 bits cannot hold it.
scale_uint-letter :
    (v c m : ℕ) (err : Errno)
    → v < 2 ^ 64
    → letter c ≡ some m
    → scale_uint v (c ∷ []) err ≡ scaled v m [] err
unfolding scale_uint get_unit letter scaled
scale_uint-letter v c m err small e = ground (
  arith,
  wrapped v 1000 (omega arith) small,
  wrapped v 1_000_000 (omega arith) small,
  wrapped v 1_000_000_000 (omega arith) small,
)

-- How a number ends: at a suffix, or before characters that are left over.
pub data Ends (v : ℕ) (end : List ℕ) (err : Errno) (r : Read ℕ) : Type 0 where
  at : (m : ℕ) → suffix end ≡ some m → r ≡ scaled v m [] err → Ends v end err r
  before : suffix end ≡ none → 0 < byte r.endptr → Ends v end err r

endptr-scale_uint :
    (v : ℕ) (unit : List ℕ) (err : Errno)
    → get_unit unit ≡ 0
    → (scale_uint v unit err).endptr ≡ unit
unfolding scale_uint
endptr-scale_uint v unit err h = rw h refl

get_unit-letter : (c : ℕ) → letter c ≡ none → get_unit (c ∷ []) ≡ 0
unfolding letter get_unit
get_unit-letter c h = ground arith

after_letter :
    (v c : ℕ) (err : Errno) (r : Read ℕ) (end : List ℕ)
    → v < 2 ^ 64
    → 0 < c
    → suffix end ≡ letter c
    → r ≡ scale_uint v (c ∷ []) err
    → Ends v end err r
after_letter v c err r end small positive e same =
    let found : (l : Option ℕ) → letter c ≡ l → Ends v end err r = λ l h.
      elim l as (λ l. letter c ≡ l → Ends v end err r) [
        | some m ↦ λ h. at m (e ∙ h) (same ∙ scale_uint-letter v c m err small h)
        | none ↦ λ h.
            before (e ∙ h)
              (rw (same, endptr-scale_uint v (c ∷ []) err (get_unit-letter c h)) positive)
      ]
        h in
    found (letter c) refl

-- after more than one character no unit is read
after_more :
    (v c d : ℕ) (more : List ℕ) (err : Errno) (r : Read ℕ) (end : List ℕ)
    → 0 < c
    → suffix end ≡ none
    → r ≡ scale_uint v (c ∷ d ∷ more) err
    → Ends v end err r
after_more v c d more err r end positive e same =
    before e (rw (same, endptr-scale_uint v (c ∷ d ∷ more) err (unfold get_unit in refl)) positive)

pub after_digits-Ends :
    (v : ℕ) (end : List ℕ) (err : Errno)
    → v < 2 ^ 64
    → All (λ c. 0 < c) end
    → Ends v end err (after_digits v end err)
unfolding suffix skip_space
after_digits-Ends v [] err small h = at 1 refl (unfold scaled in (ground arith))
after_digits-Ends v (c ∷ []) err small h = elim (ℕ_discrete c b' ') [
  | yes e ↦ at 0 (rw e refl) (rw e (unfold scaled scale_uint get_unit in ground arith))
  | no n ↦ after_letter v c err _ (c ∷ []) small h.0 (ground arith) (ground arith)
]
after_digits-Ends v (c ∷ d ∷ []) err small h = elim (ℕ_discrete c b' ') [
  | yes e ↦ after_letter v d err _ (c ∷ d ∷ []) small h.1.0 (ground arith) (ground arith)
  | no n ↦ after_more v c d [] err _ (c ∷ d ∷ []) h.0 (ground arith) (ground arith)
]
after_digits-Ends v (c ∷ d ∷ e ∷ more) err small h = elim (ℕ_discrete c b' ') [
  | yes q ↦ after_more v d e more err _ (c ∷ d ∷ e ∷ more) h.1.0 refl (ground arith)
  | no n ↦ after_more v c d (e ∷ more) err _ (c ∷ d ∷ e ∷ more) h.0 refl (ground arith)
]
