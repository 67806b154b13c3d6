-- ===== src/LnfFilter/Values/Flags.antt =====
-- src/lnf_filter.c: the binary digits of the TCP flags that a filter names by their letters.
use Prim.Native.Nat.{max, bit_or}
use libnf.Base.{
  ℕ, suc, ◌^◌, ◌≤◌, ◌<◌, ◌≡◌, refl, sym, ap, ◌⊎◌, inl, inr, arith, Bool, true, false, not, ◌&&◌,
  ◌||◌, List, [], ◌∷◌, Option, none, some, ltb, ◌==◌, ==_iff, ltb→lt, length, get_elem?, Bool-cases,
  all_from, all_from-get_elem?, and-both, not_true,
}
use libnf.Base.Digits.{digit, digit-bit_or, digit-zero, bit_or-lt}
use libnf.Base.Bytes.{codes, store}
use libnf.Filter.Leaf.{made}
use libnf.LnfFilter.Values.{add_flags, map_flags, rval_map_func, strchr, tcp_ctl_bits}

-- the letters of the flags, from the lowest binary digit on
abbrev pub flag_letters : List ℕ
flag_letters = codes "FSRPAUECN"

abbrev pub has : ℕ → List ℕ → Bool
has c [] = false
has c (d ∷ s) = c == d || has c s

abbrev pub are_letters : List ℕ → Bool
are_letters [] = true
are_letters (c ∷ s) = has c flag_letters && are_letters s

abbrev pub one_if : Bool → ℕ
one_if true = 1
one_if false = 0

abbrev is_at : ℕ → Option ℕ → Bool
is_at k none = false
is_at k (some j) = j == k

abbrev is_digit : ℕ → ℕ → ℕ → ℕ → Bool
is_digit k c j d = digit (2 ^ k) j == one_if (d == c)

-- the flag of a letter has one binary digit, at the place of the letter
abbrev is_flag : ℕ → ℕ → Bool
is_flag k c =
    is_at k (strchr c tcp_ctl_bits)
    && (not (k == 9) && (ltb (2 ^ k) 512 && all_from (is_digit k c) 0 flag_letters))

letters_flags : all_from is_flag 0 flag_letters ≡ true
unfolding strchr
letters_flags = refl

has-get_elem? : (c : ℕ) (s : List ℕ) → has c s ≡ true → (k : ℕ) × (get_elem? s k ≡ some c)
has-get_elem? c [] h = cc h
has-get_elem? c (d ∷ s) h = elim (Bool-cases (c == d)) [
  | inl e ↦ (0, ap some (sym ((==_iff c d).0 e)))
  | inr e ↦ let (k, at) = has-get_elem? c s (rw e at h) in (suc k, at)
]

-- what the flag of a letter is
record IsFlag (c k : ℕ) : Type 0 where
  place : strchr c tcp_ctl_bits ≡ some k
  other : (k == 9) ≡ false
  below : 2 ^ k < 512
  alone : (j d : ℕ) → get_elem? flag_letters j ≡ some d → digit (2 ^ k) j ≡ one_if (d == c)

place_of : (k : ℕ) (o : Option ℕ) → is_at k o ≡ true → o ≡ some k
place_of k none h = cc h
place_of k (some j) h = ap some ((==_iff j k).0 h)

has-IsFlag : (c : ℕ) → has c flag_letters ≡ true → (k : ℕ) × IsFlag c k
has-IsFlag c h =
    let (k, at) = has-get_elem? c flag_letters h in
    let ok = all_from-get_elem? is_flag 0 k k flag_letters c letters_flags at (omega arith) in
    let (place, h) =
      and-both (is_at k (strchr c tcp_ctl_bits))
        (not (k == 9) && (ltb (2 ^ k) 512 && all_from (is_digit k c) 0 flag_letters)) ok in
    let (other, h) =
      and-both (not (k == 9)) (ltb (2 ^ k) 512 && all_from (is_digit k c) 0 flag_letters) h in
    let (below, alone) = and-both (ltb (2 ^ k) 512) (all_from (is_digit k c) 0 flag_letters) h in
    (
      k,
      record {
        place = place_of k (strchr c tcp_ctl_bits) place;
        other = not_true (k == 9) other;
        below = ltb→lt (2 ^ k) 512 below;
        alone = λ j d e.
            (==_iff _ _).0
              (all_from-get_elem? (is_digit k c) 0 j j flag_letters d alone e (omega arith));
      },
    )

max-one_if : (a b : Bool) → max (one_if a) (one_if b) ≡ one_if (a || b)
max-one_if true true = refl
max-one_if true false = refl
max-one_if false true = refl
max-one_if false false = refl

-- the number that has the flags of `start` and of the letters of `s`
record Flagged (start v : ℕ) (s : List ℕ) : Type 0 where
  adds : add_flags start s ≡ some v
  small : v < 512
  shows :
      (j d : ℕ)
      → get_elem? flag_letters j ≡ some d
      → digit v j ≡ max (digit start j) (one_if (has d s))

add_flag-Flagged :
    (start v k c : ℕ) (s : List ℕ)
    → IsFlag c k
    → Flagged (bit_or start (2 ^ k)) v s
    → Flagged start v (c ∷ s)
unfolding add_flags
add_flag-Flagged start v k c s flag rest = record {
  adds = rw (flag.place, flag.other, add_flags) rest.adds;
  small = rest.small;
  shows = λ j d at.
      let both = max-one_if (d == c) (has d s) in
      let here = flag.alone j d at in
      let first = digit-bit_or start (2 ^ k) j in let others = rest.shows j d at in omega arith;
}

add_flags-Flagged :
    (start : ℕ) (s : List ℕ) → start < 512 → are_letters s ≡ true → (v : ℕ) × Flagged start v s
unfolding add_flags
add_flags-Flagged start [] small h =
    (start, record { adds = refl; small = small; shows = λ j d at. omega arith })
add_flags-Flagged start (c ∷ s) small h =
    let (letter, more) = and-both (has c flag_letters) (are_letters s) h in
    let (k, flag) = has-IsFlag c letter in
    let (v, rest) =
      add_flags-Flagged (bit_or start (2 ^ k)) s (bit_or-lt 9 start (2 ^ k) small flag.below)
        more in
    (v, add_flag-Flagged start v k c s flag rest)

-- A text of at most nine letters of TCP flags, the X excepted, is mapped to the number of those
-- flags, stored in 8 bytes: it has the binary digit of every letter that occurs in the text and no
-- other, whatever the order of the letters and however often they occur.
pub rval_map_func-letters :
    (s : List ℕ) (id : ℕ)
    → (id ≡ 0x0b) ⊎ (id ≡ 0x69)
    → length s ≤ 9
    → are_letters s ≡ true
    → (v : ℕ) × (rval_map_func (some s) id ≡ made (store 8 v, 8))
      × (v < 512)
      × ((j d : ℕ) → get_elem? flag_letters j ≡ some d → digit v j ≡ one_if (has d s))
unfolding rval_map_func
rval_map_func-letters s id field short letters =
    let (v, flags) = add_flags-Flagged 0 s (omega arith) letters in
    let long : ltb 9 (length s) ≡ false = ground arith in
    let mapped : map_flags s ≡ made (store 8 v, 8) = rw (long, flags.adds) refl in
    (
      v,
      elim field [ inl e ↦ rw e mapped | inr e ↦ rw e mapped ],
      flags.small,
      λ j d at. let shown = flags.shows j d at in let none_set = digit-zero j in omega arith,
    )
