-- ===== src/LnfFilter/Named.antt =====
-- src/lnf_filter.c: the names of the table of fields, as a filter looks them up.
use libnf.Base.{
  ℕ, zero, suc, ◌≡◌, ◌≢◌, refl, Bool, true, false, not, ◌&&◌, ◌||◌, List, [], ◌∷◌, none, some, ltb,
  ◌==◌, if◌then◌else◌, get_elem?, all_from, all_from-get_elem?, and-both, arith, take, ◌<◌,
  or-neither, not_true,
}
use mathlib.Core.Option.{none-ne-some}
use libnf.Filter.Attr.{FfLvalue}
use libnf.Base.Bytes.{codes}
use libnf.Fields.{FieldDef, strcmp_equal}
use libnf.Fields.Table.{lnf_fields_def}
use libnf.Fields.Table.Names.{lnf_fld_parse-name, table}
use libnf.Filter.Types.{FfType}
use libnf.Filter.Leaf.{made}
use libnf.LnfFilter.{described, family, ff_type, lookup_func, set_field, set_parsed}
use libnf.LnfFilter.Typed.{no_lvalue}

abbrev is_family : List ℕ → Bool
is_family s =
    (strcmp_equal s (codes "inet") || strcmp_equal s (codes "ipv4"))
    || (strcmp_equal s (codes "inet6") || strcmp_equal s (codes "ipv6"))

abbrev no_family : ℕ → FieldDef → Bool
no_family i d = elim d.name [ none ↦ true | some s ↦ not (is_family s) && not (i == 0) ]

table_families : all_from no_family 0 table ≡ true
unfolding strcmp_equal
table_families = refl

taken :
    (n : ℕ) (l : List FieldDef) (i : ℕ) (d : FieldDef)
    → get_elem? (take n l) i ≡ some d
    → (get_elem? l i ≡ some d) × (i < n)
taken zero l i d h = absurd (none-ne-some d h)
taken (suc n) [] i d h = absurd (none-ne-some d h)
taken (suc n) (x ∷ l) zero d h = (h, omega arith)
taken (suc n) (x ∷ l) (suc i) d h = let (at, below) = taken n l i d h in (at, omega arith)

described-plain :
    (i : ℕ) (d : FieldDef) (t : FfType)
    → get_elem? lnf_fields_def i ≡ some d
    → i < 255
    → d.pair_field.0 ≡ 0
    → ff_type d.type ≡ some t
    → described lnf_fields_def i (0 ∷ 0 ∷ 0 ∷ 0 ∷ []) ≡ (some t, i ∷ 0 ∷ 0 ∷ 0 ∷ [])
unfolding described
described-plain i d t at below plain typed =
    let small : ltb 0xFF i ≡ false = ground arith in rw (at, plain, small, at, typed) refl

is_name_of_field :
    (i : ℕ) (d : FieldDef) (s : List ℕ)
    → no_family i d ≡ true
    → d.name ≡ some s
    → (is_family s ≡ false) × ((i == 0) ≡ false)
is_name_of_field i d s h e =
    let h' = rw e at h in
    let (other, positive) = and-both (not (is_family s)) (not (i == 0)) h' in
    (not_true _ other, not_true _ positive)

family-plain :
    (inet inet6 s : List ℕ) (l : FfLvalue) → is_family s ≡ false → family inet inet6 s l ≡ (s, l)
family-plain inet inet6 s l h =
    let (four, six) =
      or-neither (strcmp_equal s (codes "inet") || strcmp_equal s (codes "ipv4"))
        (strcmp_equal s (codes "inet6") || strcmp_equal s (codes "ipv6")) h in
    rw (four, six) refl

-- Every entry of the table of fields that has a name and a type of ffilter and is no pair is found
-- by its name: the lookup gives that field and the type of its values, and marks it as flags if
-- and only if it is 0x0b, the TCP flags. The entries 0x46 and 0x48 are excepted.
pub lookup_func-name :
    (strtol : List ℕ → ℕ) (inet inet6 : List ℕ) (i : ℕ) (d : FieldDef) (s : List ℕ) (t : FfType)
    → get_elem? table i ≡ some d
    → d.name ≡ some s
    → i ≢ 0x46
    → i ≢ 0x48
    → d.pair_field.0 ≡ 0
    → ff_type d.type ≡ some t
    → lookup_func strtol inet inet6 lnf_fields_def (some s) no_lvalue
      ≡ made (record no_lvalue {
        type = t;
        id = i ∷ 0 ∷ 0 ∷ 0 ∷ [];
        options = if i == 0x0b then 1 else 0;
      })
unfolding lookup_func set_parsed set_field
lookup_func-name strtol inet inet6 i d s t at name h46 h48 plain typed =
    let ok = all_from-get_elem? no_family 0 i i table d table_families at (omega arith) in
    let (other, positive) = is_name_of_field i d s ok name in
    let (known, below) = taken 255 lnf_fields_def i d at in
    rw
      (
        family-plain inet inet6 s no_lvalue other,
        lnf_fld_parse-name strtol i d s none none at name h46 h48,
        positive,
        described-plain i d t known below plain typed,
      )
      refl
