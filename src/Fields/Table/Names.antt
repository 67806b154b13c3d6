-- ===== src/Fields/Table/Names.antt =====
-- src/fields.c: the names of the table, as lnf_fld_parse reads them.
use libnf.Base.{
  ℕ, zero, suc, ◌≡◌, ◌≢◌, refl, ap, inl, inr, Bool, true, false, not, ◌&&◌, ◌||◌, List, [], ◌∷◌,
  Option, none, some, ltb, ◌==◌, if◌then◌else◌, take, get_elem?, Bool-cases, arith, all_from,
  all_from-get_elem?, and-both,
}
use libnf.Fields.{
  FieldDef, find_field, strcmp_equal, split_last, strsep, field, put, parse_name, parse_found,
  lnf_fld_parse,
}
use libnf.Fields.Table.{lnf_fields_def}

abbrev pub table : List FieldDef
table = take 255 lnf_fields_def

abbrev is_bare : List ℕ → Bool
is_bare [] = true
is_bare (c ∷ s) = not (c == b'/') && is_bare s

abbrev is_plain : List ℕ → Bool
is_plain [] = false
is_plain (c ∷ s) = not ((split_last c s).1 == b'4' || (split_last c s).1 == b'6')

abbrev is_entry : ℕ → FieldDef → Option (ℕ × FieldDef) → Bool
is_entry i d none = false
is_entry i d (some (j, e)) = j == i && e.type == d.type

-- an entry whose name finds it, or one of the two whose names others have
abbrev is_found : ℕ → FieldDef → Bool
is_found i d = elim d.name [
  | none ↦ true
  | some s ↦
      (i == 0x46 || i == 0x48)
      || (ltb 0 i && (is_bare s && (is_plain s && is_entry i d (find_field s 0 table))))
]

table_found : all_from is_found 0 table ≡ true
unfolding find_field strcmp_equal split_last
table_found = refl

-- the numbers of bits for a name alone
abbrev pub full_bits : ℕ → FieldDef → ℕ
full_bits n d = if d.type == 0xA1 then n else 0

strsep-is_bare : (s : List ℕ) → is_bare s ≡ true → strsep s ≡ (s, none)
unfolding strsep
strsep-is_bare [] h = refl
strsep-is_bare (c ∷ s) h =
    let (one, more) = and-both (not (c == b'/')) (is_bare s) h in
    let other : (c == b'/') ≡ false = ground arith in rw (other, strsep-is_bare s more) refl

found-is_entry :
    (i : ℕ) (d : FieldDef) (o : Option (ℕ × FieldDef))
    → is_entry i d o ≡ true
    → (e : FieldDef) × (o ≡ some (i, e)) × (e.type ≡ d.type)
found-is_entry i d none h = cc h
found-is_entry i d (some (j, e)) h =
    let (same, type) = and-both (j == i) (e.type == d.type) h in
    (e, ap (λ k. some (k, e)) (ground arith), ground arith)

facts_of :
    (i : ℕ) (d : FieldDef) (s : List ℕ)
    → d.name ≡ some s
    → i ≢ 0x46
    → i ≢ 0x48
    → is_found i d ≡ true
    → (ltb 0 i ≡ true)
      × (is_bare s ≡ true)
      × (is_plain s ≡ true)
      × (is_entry i d (find_field s 0 table) ≡ true)
facts_of i d s name h46 h48 ok =
    let e46 : (i == 0x46) ≡ false = ground arith in
    let e48 : (i == 0x48) ≡ false = ground arith in
    let ok' = rw (name, e46, e48) at ok in
    let (positive, more) =
      and-both (ltb 0 i) (is_bare s && (is_plain s && is_entry i d (find_field s 0 table))) ok' in
    let (bare, more') =
      and-both (is_bare s) (is_plain s && is_entry i d (find_field s 0 table)) more in
    let (plain, found) = and-both (is_plain s) (is_entry i d (find_field s 0 table)) more' in
    (positive, bare, plain, found)

module _ (strtol : List ℕ → ℕ) where
  parse_found_alone :
      (six : Bool) (i : ℕ) (d e : FieldDef) (b b6 : Option ℕ)
      → e.type ≡ d.type
      → parse_found strtol six (some (suc i, e)) none b b6
        ≡ field (suc i) (put b (full_bits 32 d)) (put b6 (full_bits 128 d))
  parse_found_alone six i d e b b6 t = elim (Bool-cases (d.type == 0xA1)) [
    | inl a ↦ rw (t, a) refl
    | inr a ↦ elim (Bool-cases (d.type == 0x64)) [
      | inl u ↦ rw (t, a, u) refl
      | inr u ↦ rw (t, a, u) refl
    ]
  ]

  parse_name_alone :
      (i : ℕ) (d : FieldDef) (s : List ℕ) (b b6 : Option ℕ)
      → is_plain s ≡ true
      → is_entry (suc i) d (find_field s 0 table) ≡ true
      → parse_name strtol lnf_fields_def s none b b6
        ≡ field (suc i) (put b (full_bits 32 d)) (put b6 (full_bits 128 d))
  parse_name_alone i d [] b b6 plain found = cc plain
  parse_name_alone i d (c ∷ s) b b6 plain found =
      let (e, at, type) = found-is_entry (suc i) d (find_field (c ∷ s) 0 table) found in
      let whole : ((split_last c s).1 == b'4' || (split_last c s).1 == b'6') ≡ false =
        ground arith in
      rw (whole, at) (parse_found_alone ((split_last c s).1 == b'6') i d e b b6 type)

  -- In the table of the fields, the name of every entry is read as that field, with the numbers of
  -- bits for the whole of it: 32 and 128 for an address, 0 otherwise. The names of the entries 0x46
  -- and 0x48 are excepted.
  pub lnf_fld_parse-name :
      (i : ℕ) (d : FieldDef) (s : List ℕ) (b b6 : Option ℕ)
      → get_elem? table i ≡ some d
      → d.name ≡ some s
      → i ≢ 0x46
      → i ≢ 0x48
      → lnf_fld_parse strtol lnf_fields_def (some s) b b6
        ≡ field i (put b (full_bits 32 d)) (put b6 (full_bits 128 d))
  unfolding lnf_fld_parse
  lnf_fld_parse-name zero d s b b6 at name h46 h48 =
      let ok = all_from-get_elem? is_found 0 0 0 table d table_found at (omega arith) in
      cc (facts_of 0 d s name h46 h48 ok).0
  lnf_fld_parse-name (suc i) d s b b6 at name h46 h48 =
      let ok = all_from-get_elem? is_found 0 (suc i) (suc i) table d table_found at (omega arith) in
      let (positive, bare, plain, found) = facts_of (suc i) d s name h46 h48 ok in
      rw (strsep-is_bare s bare) (parse_name_alone i d s b b6 plain found)
