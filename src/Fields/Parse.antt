-- ===== src/Fields/Parse.antt =====
-- src/fields.c, `lnf_fld_parse`: a name with two numbers of bits.
use libnf.Base.{
  ℕ, suc, ◌≡◌, refl, Bool, true, false, List, [], ◌∷◌, ◌++◌, some, ◌==◌, ◌||◌, if◌then◌else◌, All,
  Bool-cases, inl, inr, take,
}
use libnf.Fields.{FieldDef, find_field, strsep, split_last, field, lnf_fld_parse, parse_found}

abbrev Bare : List ℕ → Type 0
Bare = All (λ c. (c == b'/') ≡ false)

strsep-append : (s more : List ℕ) → Bare s → strsep (s ++ b'/' ∷ more) ≡ (s, some more)
unfolding strsep
strsep-append [] more h = refl
strsep-append (c ∷ s) more h = rw (h.0, strsep-append s more h.1) refl

Bare-append : (s : List ℕ) (c : ℕ) → Bare s → (c == b'/') ≡ false → Bare (s ++ c ∷ [])
Bare-append [] c h w = (w, tt)
Bare-append (d ∷ s) c h w = (h.0, Bare-append s c h.1 w)

split_last-append : (c : ℕ) (s : List ℕ) (x : ℕ) → split_last c (s ++ x ∷ []) ≡ (c ∷ s, x)
unfolding split_last
split_last-append c [] x = refl
split_last-append c (d ∷ s) x = rw (split_last-append d s x) refl

or-right : (a b : Bool) → (a || b) ≡ false → b ≡ false
or-right true b h = cc h
or-right false b h = h

-- the text of a field with two numbers of bits
abbrev pub with_bits : List ℕ → List ℕ → List ℕ → List ℕ
with_bits name bits bits6 = name ++ b'/' ∷ (bits ++ b'/' ∷ bits6)

-- the fields that have numbers of bits
abbrev pub has_bits : FieldDef → Bool
has_bits d = d.type == 0xA1 || d.type == 0x64

module _ (strtol : List ℕ → ℕ) (table : List FieldDef) where
  parse_found-both :
      (six : Bool) (i : ℕ) (d : FieldDef) (bits bits6 : List ℕ) (b b6 : ℕ)
      → Bare bits
      → has_bits d ≡ true
      → parse_found strtol six (some (suc i, d)) (some (bits ++ b'/' ∷ bits6)) (some b) (some b6)
        ≡ field (suc i) (some (strtol bits)) (some (strtol (if six then bits else bits6)))
  parse_found-both true i d bits bits6 b b6 h t = elim (Bool-cases (d.type == 0xA1)) [
    | inl e ↦ rw (e, strsep-append bits bits6 h) refl
    | inr e ↦
        let q : (d.type == 0x64) ≡ true = rw e at t in rw (e, q, strsep-append bits bits6 h) refl
  ]
  parse_found-both false i d bits bits6 b b6 h t = elim (Bool-cases (d.type == 0xA1)) [
    | inl e ↦ rw (e, strsep-append bits bits6 h) refl
    | inr e ↦
        let q : (d.type == 0x64) ≡ true = rw e at t in rw (e, q, strsep-append bits bits6 h) refl
  ]

  -- Of a field of type LNF_ADDR or LNF_UINT64, the name of a text name/m/n, or name4/m/n with a 4
  -- behind the name, gives the field with the numbers m and n, and name6/m/n gives the field with m
  -- as both numbers. The name has no slash, does not itself end in 4 or 6, and names the field
  -- in the table; m has no slash, and both pointers are set.
  pub lnf_fld_parse-with_bits :
      (c : ℕ) (s bits bits6 : List ℕ) (i : ℕ) (d : FieldDef) (b b6 : ℕ)
      → Bare (c ∷ s)
      → ((split_last c s).1 == b'4' || (split_last c s).1 == b'6') ≡ false
      → Bare bits
      → find_field (c ∷ s) 0 (take 255 table) ≡ some (suc i, d)
      → has_bits d ≡ true
      → (lnf_fld_parse strtol table (some (with_bits (c ∷ s) bits bits6)) (some b) (some b6)
          ≡ field (suc i) (some (strtol bits)) (some (strtol bits6)))
        × (lnf_fld_parse strtol table
              (some (with_bits (c ∷ s ++ b'4' ∷ []) bits bits6))
              (some b)
              (some b6)
            ≡ field (suc i) (some (strtol bits)) (some (strtol bits6)))
        × (lnf_fld_parse strtol table
              (some (with_bits (c ∷ s ++ b'6' ∷ []) bits bits6))
              (some b)
              (some b6)
            ≡ field (suc i) (some (strtol bits)) (some (strtol bits)))
  unfolding lnf_fld_parse
  lnf_fld_parse-with_bits c s bits bits6 i d b b6 bare plain bare_bits found t =
      let tail = bits ++ b'/' ∷ bits6 in
      let not_six : ((split_last c s).1 == b'6') ≡ false = or-right _ _ plain in
      (
        rw (strsep-append (c ∷ s) tail bare, plain, not_six, found)
            (parse_found-both false i d bits bits6 b b6 bare_bits t),
        rw
            (
              strsep-append (c ∷ s ++ b'4' ∷ []) tail (Bare-append (c ∷ s) b'4' bare refl),
              split_last-append c s b'4',
              found,
            )
            (parse_found-both false i d bits bits6 b b6 bare_bits t),
        rw
            (
              strsep-append (c ∷ s ++ b'6' ∷ []) tail (Bare-append (c ∷ s) b'6' bare refl),
              split_last-append c s b'6',
              found,
            )
            (parse_found-both true i d bits bits6 b b6 bare_bits t),
      )
