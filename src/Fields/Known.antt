-- ===== src/Fields/Known.antt =====
-- src/fields.c: what lnf_fld_parse finds, lnf_fld_info knows.
use libnf.Base.{
  ℕ, zero, suc, ◌+◌, ◌≡◌, ◌<◌, ◌≤◌, refl, sym, ap, ◌∙◌, ◌⊎◌, inl, inr, Bool, true, false, ◌&&◌,
  List, [], ◌∷◌, ◌++◌, Option, none, some, ltb, leb, ◌==◌, if◌then◌else◌, length, length-append,
  take, get_elem?, Bool-cases, arith, lt→ltb,
}
use libnf.Fields.{
  FieldDef, is_some, is_called, find_field, strsep, Parsed, field, err_other, null_write, undefined,
  lnf_fld_parse, parse_name, parse_found, read_both, first_bits, second_bits, finish, finish_both,
  put, map_strtol,
}
use libnf.Fields.Info.{data_bytes, lnf_fld_info}
use mathlib.Core.Option.{none-ne-some, some-injective}

and-left : (a b : Bool) → (a && b) ≡ true → a ≡ true
and-left true b h = refl
and-left false b h = cc h

-- An entry that the loop of lnf_fld_parse finds stands in the table, and has a name.
find_field-get_elem? :
    (name : List ℕ) (i n : ℕ) (ds : List FieldDef) (k : ℕ) (d : FieldDef)
    → find_field name i (take n ds) ≡ some (k, d)
    → (m : ℕ) × (k ≡ i + m) × (m < n) × (get_elem? ds m ≡ some d) × (is_some d.name ≡ true)
unfolding find_field
find_field-get_elem? name i zero ds k d h = absurd (none-ne-some _ h)
find_field-get_elem? name i (suc n) [] k d h = absurd (none-ne-some _ h)
find_field-get_elem? name i (suc n) (e ∷ ds) k d h = elim (Bool-cases (is_called name e)) [
  | inl c ↦
      let here : some (i, e) ≡ some (k, d) = rw c at h in
      let same : (i, e) ≡ (k, d) = some-injective _ _ here in
      let entry : e ≡ d = ap (λ p. p.1) same in
      let index : i ≡ k = ap (λ p. p.0) same in
      let named : is_some e.name ≡ true = and-left _ _ c in
      (0, omega (arith, index), omega arith, ap some entry, rw (sym entry) named)
  | inr c ↦
      let (m, a, lt, r, s) = find_field-get_elem? name (suc i) n ds k d (rw c at h) in
      (suc m, omega arith, omega arith, r, s)
]

is_some-text : (o : Option (List ℕ)) → is_some o ≡ true → (s : List ℕ) × (o ≡ some s)
is_some-text none h = cc h
is_some-text (some s) h = (s, refl)

abbrev field_of : Parsed → ℕ
field_of (field i b b6) = i
field_of err_other = 0
field_of null_write = 0
field_of undefined = 0

field_of-finish :
    (i : ℕ) (o : Option (Option ℕ × Option ℕ))
    → (field_of (finish i o) ≡ i) ⊎ (field_of (finish i o) ≡ 0)
field_of-finish i none = inr refl
field_of-finish i (some (b, b6)) = inl refl

field_of-finish_both :
    (six : Bool) (i v : ℕ) (v2 : Option ℕ) (o : Option (Option ℕ × Option ℕ))
    → (field_of (finish_both six i v v2 o) ≡ i) ⊎ (field_of (finish_both six i v v2 o) ≡ 0)
field_of-finish_both six i v v2 none = inr refl
field_of-finish_both six i v v2 (some (b, b6)) = field_of-finish i (second_bits six v v2 b b6)

fits_buf : (s : List ℕ) → length s < 4096 → leb (length (s ++ 0 ∷ [])) 4096 ≡ true
fits_buf s h =
    let long = length-append s (0 ∷ []) in
    let le : length (s ++ 0 ∷ []) ≤ 4096 = omega arith in ground (arith, le)

below_term : (j : ℕ) → j < 255 → ltb 0xFF j ≡ false
below_term j h = ground arith

module _ (strtol : List ℕ → ℕ) where
  read_both-field :
      (six : Bool) (i : ℕ) (str : Option (List ℕ)) (b b6 : Option ℕ)
      → (field_of (read_both strtol six i str b b6) ≡ i)
        ⊎ (field_of (read_both strtol six i str b b6) ≡ 0)
  read_both-field six i none b b6 = inl refl
  read_both-field six i (some s) b b6 =
      field_of-finish_both six i (strtol (strsep s).0) (map_strtol strtol (strsep s).1)
        (first_bits six (strtol (strsep s).0) b b6)

  parse_found-field :
      (six : Bool) (o : Option (ℕ × FieldDef)) (str : Option (List ℕ)) (b b6 : Option ℕ) (i : ℕ)
      → field_of (parse_found strtol six o str b b6) ≡ suc i
      → (d : FieldDef) × (o ≡ some (suc i, d))
  parse_found-field six none str b b6 i h = absurd (omega arith)
  parse_found-field six (some (zero, d)) str b b6 i h = absurd (omega arith)
  parse_found-field six (some (suc k, d)) str b b6 i h =
      (d, ap (λ x. some (x, d)) (same (d.type == 0xA1) (d.type == 0x64) h))
    where
      from :
          (c c6 : Option ℕ)
          → field_of (read_both strtol six (suc k) str c c6) ≡ suc i
          → suc k ≡ suc i
      from c c6 q = elim (read_both-field six (suc k) str c c6) [
        | inl e ↦ sym e ∙ q
        | inr e ↦ absurd (omega arith)
      ]

      same :
          (t u : Bool)
          → field_of (
              if t
              then read_both strtol six (suc k) str (put b 32) (put b6 128)
              else if u
              then read_both strtol six (suc k) str (put b 0) (put b6 0)
              else field (suc k) (put b 0) (put b6 0))
            ≡ suc i
          → suc k ≡ suc i
      same true u q = from _ _ q
      same false true q = from _ _ q
      same false false q = q

  parse_name-field :
      (table : List FieldDef) (name : List ℕ) (str : Option (List ℕ)) (b b6 : Option ℕ) (i : ℕ)
      → field_of (parse_name strtol table name str b b6) ≡ suc i
      → (name' : List ℕ) × (d : FieldDef) × (find_field name' 0 (take 255 table) ≡ some (suc i, d))
  parse_name-field table [] str b b6 i h = absurd (omega arith)
  parse_name-field table (c ∷ s) str b b6 i h =
      let (d, found) = parse_found-field _ _ str b b6 i h in (_, d, found)

  -- A field other than 0 that lnf_fld_parse returns, whatever the text and the table are, is
  -- below 255, and lnf_fld_info with LNF_FLD_INFO_NAME and LNF_INFO_BUFSIZE bytes of room gives its
  -- name in the table with the 0 behind it, where the names of the table and that 0 fit
  -- LNF_INFO_BUFSIZE bytes.
  pub lnf_fld_info-lnf_fld_parse :
      (table : List FieldDef) (str : Option (List ℕ)) (b b6 : Option ℕ) (i : ℕ) (x x6 : Option ℕ)
      → ((j : ℕ) (d : FieldDef) (s : List ℕ)
          → get_elem? table j ≡ some d
          → d.name ≡ some s
          → length s < 4096)
      → lnf_fld_parse strtol table str b b6 ≡ field (suc i) x x6
      → (suc i < 255)
        × (d : FieldDef) × (s : List ℕ) × (get_elem? table (suc i) ≡ some d)
        × (d.name ≡ some s)
        × (lnf_fld_info table (suc i) 0x04 4096 ≡ data_bytes (s ++ 0 ∷ []))
  unfolding lnf_fld_parse lnf_fld_info
  lnf_fld_info-lnf_fld_parse table none b b6 i x x6 short h = absurd (omega (arith, ap field_of h))
  lnf_fld_info-lnf_fld_parse table (some t) b b6 i x x6 short h =
      let (name, d, found) =
        parse_name-field table (strsep t).0 (strsep t).1 b b6 i (ap field_of h) in
      let (m, at, lt, entry, named) = find_field-get_elem? name 0 255 table (suc i) d found in
      let index : m ≡ suc i = omega arith in
      let entry' : get_elem? table (suc i) ≡ some d = ap (get_elem? table) (sym index) ∙ entry in
      let (s, text) = is_some-text d.name named in
      let fits = short (suc i) d s entry' text in
      let room = lt→ltb (length s) 4096 fits in
      let inside : suc i < 255 = omega (arith, at, lt) in
      (
        inside,
        d,
        s,
        entry',
        text,
        rw (below_term (suc i) inside, entry', text, room, fits_buf s fits) refl,
      )
