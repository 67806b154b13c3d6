-- ===== src/LnfFilter/Typed.antt =====
-- src/lnf_filter.c: fields and types that lnf_ff_lookup_func gives, for the table of fields.
use libnf.Base.{
  ℕ, ◌≤◌, ◌≡◌, ◌≢◌, refl, sym, ap, ◌∙◌, inl, inr, Bool, true, not, ◌&&◌, ◌||◌, List, [], ◌∷◌,
  Option, none, some, get_or, ◌==◌, ==_iff, ne→==, ==→ne, not_true, if◌then◌else◌, get_elem?,
  Bool-cases, Option-cases, all_from, all_from-get_elem?, and-both, arith, ltb,
}
use mathlib.Core.Option.{none-ne-some, some-injective}
use libnf.Base.Bytes.{codes}
use libnf.Fields.{
  FieldDef, Parsed, field, err_other, null_write, undefined, lnf_fld_parse, strcmp_equal,
}
use libnf.Fields.Access.{lnf_fld_type}
use libnf.Fields.Table.{lnf_fields_def}
use libnf.Filter.Types.{FfType}
use libnf.Filter.Attr.{FfLvalue}
use libnf.Filter.Leaf.{Made, made, error, wild}
use libnf.LnfFilter.{described, family, ff_type, lookup_func, set_field, set_parsed, set_type}

abbrev field_type : ℕ → ℕ
field_type = lnf_fld_type lnf_fields_def

-- what ff_new_leaf gives to the lookup
abbrev pub no_lvalue : FfLvalue
no_lvalue = record {
  type = FfType.unsupported;
  id = 0 ∷ 0 ∷ 0 ∷ 0 ∷ [];
  options = 0;
  n = 0;
  literal = none;
}

-- the bytes of a value of a type
abbrev type_bytes : FfType → ℕ
type_bytes FfType.uint8 = 1
type_bytes FfType.uint16 = 2
type_bytes FfType.uint32 = 4
type_bytes FfType.uint64 = 8
type_bytes FfType.double = 8
type_bytes FfType.addr = 16
type_bytes FfType.mac = 6
type_bytes FfType.mpls = 40
type_bytes _ = 0

-- One field or two of the same type in the table, the type of the value in ffilter is that of the
-- field, the size of the fields in the table is the one of that type, and EVAL_BUF_MAX has room for it.
pub record IsField (info : FfLvalue) : Type 0 where
  pub known : get_or info.id 0 0 ≢ 0
  pub typed : ff_type (field_type (get_or info.id 0 0)) ≡ some info.type
  pub both :
      get_or info.id 1 0 ≢ 0 → field_type (get_or info.id 1 0) ≡ field_type (get_or info.id 0 0)
  pub ended : get_or info.id 2 0 ≡ 0
  pub sized :
      (d : FieldDef)
      → get_elem? lnf_fields_def (get_or info.id 0 0) ≡ some d
      → d.size ≡ type_bytes info.type
  pub sized_second :
      get_or info.id 1 0 ≢ 0
      → (d : FieldDef) → get_elem? lnf_fields_def (get_or info.id 1 0) ≡ some d
      → d.size ≡ type_bytes info.type
  pub room : type_bytes info.type ≤ 128

abbrev no_ids : List ℕ
no_ids = 0 ∷ 0 ∷ 0 ∷ 0 ∷ []

abbrev are_ids : List ℕ → Bool
are_ids ids =
    not (get_or ids 0 0 == 0)
    && ((get_or ids 1 0 == 0 || field_type (get_or ids 1 0) == field_type (get_or ids 0 0))
        && get_or ids 2 0 == 0)

abbrev has_ids : ℕ → FieldDef → Bool
has_ids x d = x == 0 || are_ids (described lnf_fields_def x no_ids).1

abbrev is_width : ℕ → Option FfType → Bool
is_width size none = true
is_width size (some type) = size == type_bytes type

abbrev has_width : ℕ → FieldDef → Bool
has_width x d = is_width d.size (ff_type (field_type x))

table_ids : all_from has_ids 0 lnf_fields_def ≡ true
unfolding described
table_ids = refl

table_widths : all_from has_width 0 lnf_fields_def ≡ true
table_widths = refl

no_type_behind : (x : ℕ) (t : FfType) → ff_type (if ltb 0xFF x then 0 else 0) ≢ some t
no_type_behind x t h = elim (Bool-cases (ltb 0xFF x)) [
  | inl above ↦ absurd (none-ne-some t (rw above at h))
  | inr below ↦ absurd (none-ne-some t (rw below at h))
]

described-are_ids :
    (x : ℕ) (t : FfType)
    → x ≢ 0
    → (described lnf_fields_def x no_ids).0 ≡ some t
    → are_ids (described lnf_fields_def x no_ids).1 ≡ true
unfolding described
described-are_ids x t positive typed = elim (Option-cases (get_elem? lnf_fields_def x)) [
  | inl at ↦ absurd (no_type_behind x t (rw (at, at) at typed))
  | inr (d, at) ↦
      let ok = all_from-get_elem? has_ids 0 x x lnf_fields_def d table_ids at (omega arith) in
      rw (ne→== x 0 positive) at ok
]

size_of_width :
    (size : ℕ) (t : FfType) (o : Option FfType)
    → is_width size o ≡ true
    → o ≡ some t
    → size ≡ type_bytes t
size_of_width size t none h e = absurd (none-ne-some t e)
size_of_width size t (some u) h e = (==_iff _ _).0 h ∙ ap type_bytes (some-injective u t e)

size_at :
    (k : ℕ) (d : FieldDef) (t : FfType)
    → get_elem? lnf_fields_def k ≡ some d
    → ff_type (field_type k) ≡ some t
    → d.size ≡ type_bytes t
size_at k d t at typed =
    size_of_width d.size t (ff_type (field_type k))
      (all_from-get_elem? has_width 0 k k lnf_fields_def d table_widths at (omega arith)) typed

type_bytes-le : (t : FfType) → type_bytes t ≤ 128
type_bytes-le t = ground arith

IsField-are_ids :
    (l : FfLvalue) (t : FfType) (ids : List ℕ)
    → are_ids ids ≡ true
    → ff_type (field_type (get_or ids 0 0)) ≡ some t
    → IsField (record l { type = t; id = ids })
IsField-are_ids l t ids h typed =
    let first = get_or ids 0 0 in
    let second = get_or ids 1 0 in
    let same = field_type second == field_type first in
    let (known, h') =
      and-both (not (first == 0)) ((second == 0 || same) && get_or ids 2 0 == 0) h in
    let (both, ended) = and-both (second == 0 || same) (get_or ids 2 0 == 0) h' in
    let alike : second ≢ 0 → field_type second ≡ field_type first =
      λ set. (==_iff _ _).0 (rw (ne→== second 0 set) at both) in
    record {
      known = ==→ne first 0 (not_true _ known);
      typed = typed;
      both = alike;
      ended = (==_iff _ _).0 ended;
      sized = λ d at. size_at first d t at typed;
      sized_second = λ set d at. size_at second d t at (ap ff_type (alike set) ∙ typed);
      room = type_bytes-le t;
    }

-- a sound field, where one is found
abbrev Fine : Made FfLvalue → Type 0
Fine (made info) = IsField info
Fine (error e) = Unit
Fine wild = Unit

set_type-Fine :
    (l : FfLvalue) (p : Option FfType × List ℕ)
    → ((t : FfType) → p.0 ≡ some t → are_ids p.1 ≡ true)
    → p.0 ≡ ff_type (field_type (get_or p.1 0 0))
    → Fine (set_type p l)
set_type-Fine l (none, ids) ok same = tt
set_type-Fine l (some t, ids) ok same = IsField-are_ids l t ids (ok t refl) (sym same)

described-typed :
    (x : ℕ) (id : List ℕ)
    → (described lnf_fields_def x id).0
      ≡ ff_type (field_type (get_or (described lnf_fields_def x id).1 0 0))
unfolding described
described-typed x id = refl

set_field-Fine :
    (x : ℕ) (l : FfLvalue) → x ≢ 0 → l.id ≡ no_ids → Fine (set_field lnf_fields_def x l)
unfolding set_field
set_field-Fine x l positive fresh =
    let plain = record l { id = no_ids; options = if x == 0x0b then 1 else l.options } in
    rw fresh (
      set_type-Fine plain (described lnf_fields_def x no_ids) (λ t. described-are_ids x t positive)
        (described-typed x no_ids))

set_parsed-Fine : (p : Parsed) (l : FfLvalue) → l.id ≡ no_ids → Fine (set_parsed lnf_fields_def p l)
unfolding set_parsed
set_parsed-Fine (field x b b6) l fresh = elim (Bool-cases (x == 0)) [
  | inl e ↦ rw e tt
  | inr e ↦ rw e (set_field-Fine x l (==→ne x 0 e) fresh)
]
set_parsed-Fine err_other l fresh = tt
set_parsed-Fine null_write l fresh = tt
set_parsed-Fine undefined l fresh = tt

id-family : (inet inet6 s : List ℕ) (l : FfLvalue) → (family inet inet6 s l).1.id ≡ l.id
id-family inet inet6 s l =
    elim (Bool-cases (strcmp_equal s (codes "inet") || strcmp_equal s (codes "ipv4"))) [
      | inl e ↦ rw e refl
      | inr e ↦
          rw e
            (elim (Bool-cases (strcmp_equal s (codes "inet6") || strcmp_equal s (codes "ipv6"))) [
              | inl e ↦ rw e refl
              | inr e ↦ rw e refl
            ])
    ]

-- Whatever text a filter gives as the name of a field, when the lookup in the table of fields
-- succeeds, it gives a field or, for a pair, two fields of the same type; the type of the value in
-- ffilter is the one for the type of the field; the size that the table has for each of the fields
-- is the size of a value of that type; and it is at most the 128 bytes of the buffer in which
-- ff_eval_node lets the getter of the field write.
pub lookup_func-IsField :
    (strtol : List ℕ → ℕ) (inet inet6 s : List ℕ) (info : FfLvalue)
    → lookup_func strtol inet inet6 lnf_fields_def (some s) no_lvalue ≡ made info
    → IsField info
unfolding lookup_func
lookup_func-IsField strtol inet inet6 s info found =
    let (name, m) = family inet inet6 s no_lvalue in
    let fine =
      set_parsed-Fine (lnf_fld_parse strtol lnf_fields_def (some name) none none) m
        (id-family inet inet6 s no_lvalue) in
    rw found at fine
