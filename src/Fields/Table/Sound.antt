-- ===== src/Fields/Table/Sound.antt =====
-- src/fields.c: what every entry of the table keeps.
use libnf.Base.{
  ℕ, ◌<◌, ◌≡◌, ◌≢◌, refl, sym, ◌∙◌, inl, inr, Bool, true, false, not, ◌&&◌, ◌||◌, List, [], ◌∷◌,
  Option, none, some, ltb, ◌==◌, if◌then◌else◌, get_elem?, length, All, Option-cases, arith,
  all_from, all_from-get_elem?, and-both, ltb→lt, ==_iff,
}
use mathlib.Core.Option.{none-ne-some, some-injective}
use libnf.Fields.{FieldDef}
use libnf.Fields.Access.{is_pair, lnf_fld_type, deps_of, table_fields}
use libnf.Fields.Table.{lnf_fields_def}
use libnf.MemHeap.Setup.{is_some, mem_fadd, type_size, Mem}
use libnf.MemHeap.Setup.Invariant.{IsMem, Returns, mem_fadd-IsMem}

-- how deep a calculated field depends on others
abbrev depth : ℕ → ℕ
depth field =
    if field == 0xa1 || field == 0xa2 then 2 else if field == 0xa0 || field == 0xa3 then 1 else 0

abbrev field_type : ℕ → ℕ
field_type = lnf_fld_type lnf_fields_def

-- A field of a type that stores handle has the size of that type; the name fits the buffer of
-- lnf_fld_info; a calculated field depends on shallower fields that stores handle; the two fields of
-- a pair have its type, but for the entry 0xc3.
pub record IsEntry (i : ℕ) (d : FieldDef) : Type 0 where
  pub sized : (n : ℕ) → type_size d.type ≡ some n → d.size ≡ n
  pub short : (s : List ℕ) → d.name ≡ some s → length s < 4096
  pub ranked : All (λ dep. depth dep < depth i) (deps_of (some d))
  pub stored : All (λ dep. is_some (type_size (field_type dep)) ≡ true) (deps_of (some d))
  pub paired :
      i ≢ 0xc3
      → is_pair d.pair_field ≡ true
      → (field_type d.pair_field.0 ≡ d.type) × (field_type d.pair_field.1 ≡ d.type)

abbrev is_size : ℕ → Option ℕ → Bool
is_size size none = true
is_size size (some n) = size == n

abbrev is_short : Option (List ℕ) → Bool
is_short none = true
is_short (some s) = ltb (length s) 4096

abbrev are_ranked : ℕ → List ℕ → Bool
are_ranked n [] = true
are_ranked n (dep ∷ deps) = ltb (depth dep) n && are_ranked n deps

abbrev are_stored : List ℕ → Bool
are_stored [] = true
are_stored (dep ∷ deps) = is_some (type_size (field_type dep)) && are_stored deps

abbrev are_paired : ℕ → FieldDef → Bool
are_paired i d =
    i == 0xc3
    || (not (is_pair d.pair_field)
        || (field_type d.pair_field.0 == d.type && field_type d.pair_field.1 == d.type))

abbrev is_sound : ℕ → FieldDef → Bool
is_sound i d =
    is_size d.size (type_size d.type)
    && (is_short d.name
        && (are_ranked (depth i) (deps_of (some d))
            && (are_stored (deps_of (some d)) && are_paired i d)))

table_sound : all_from is_sound 0 lnf_fields_def ≡ true
unfolding type_size
table_sound = refl

size_of_type : (size n : ℕ) (o : Option ℕ) → is_size size o ≡ true → o ≡ some n → size ≡ n
size_of_type size n none h e = absurd (none-ne-some n e)
size_of_type size n (some m) h e = let same : size ≡ m = ground arith in same ∙ some-injective m n e

short_of_name :
    (name : Option (List ℕ)) (s : List ℕ) → is_short name ≡ true → name ≡ some s → length s < 4096
short_of_name none s h e = absurd (none-ne-some s e)
short_of_name (some t) s h e = rw (sym (some-injective t s e)) (ground arith)

all_ranked : (n : ℕ) (deps : List ℕ) → are_ranked n deps ≡ true → All (λ dep. depth dep < n) deps
all_ranked n [] h = tt
all_ranked n (dep ∷ deps) h =
    let (lower, more) = and-both (ltb (depth dep) n) (are_ranked n deps) h in
    (ltb→lt (depth dep) n lower, all_ranked n deps more)

all_stored :
    (deps : List ℕ)
    → are_stored deps ≡ true
    → All (λ dep. is_some (type_size (field_type dep)) ≡ true) deps
all_stored [] h = tt
all_stored (dep ∷ deps) h =
    let (known, more) = and-both (is_some (type_size (field_type dep))) (are_stored deps) h in
    (known, all_stored deps more)

pair_types :
    (i : ℕ) (d : FieldDef)
    → are_paired i d ≡ true
    → i ≢ 0xc3
    → is_pair d.pair_field ≡ true
    → (field_type d.pair_field.0 ≡ d.type) × (field_type d.pair_field.1 ≡ d.type)
pair_types i d h other pair =
    let e : (i == 0xc3) ≡ false = ground arith in
    let h' = rw (e, pair) at h in
    let (one, two) =
      and-both (field_type d.pair_field.0 == d.type) (field_type d.pair_field.1 == d.type) h' in
    ((==_iff _ _).0 one, (==_iff _ _).0 two)

-- Every entry of the table of fields is sound: when stores handle its type, its size is the size that
-- lnf_mem_fadd takes for that type; its name is shorter than the buffer of lnf_fld_info; the
-- fields that it depends on are of types that stores handle and lie lower in a ranking by
-- depth, so that no field depends on itself; and, the entry 0xc3 excepted, when both fields of
-- a pair are set, they have the type of the entry.
pub lnf_fields_def-IsEntry :
    (i : ℕ) (d : FieldDef) → get_elem? lnf_fields_def i ≡ some d → IsEntry i d
lnf_fields_def-IsEntry i d at =
    let ok = all_from-get_elem? is_sound 0 i i lnf_fields_def d table_sound at (omega arith) in
    let (size, h) = and-both _ _ ok in
    let (name, h) = and-both _ _ h in
    let (rank, h) = and-both _ _ h in
    let (store, pair) = and-both _ _ h in
    record {
      sized = λ n. size_of_type d.size n (type_size d.type) size;
      short = λ s. short_of_name d.name s name;
      ranked = all_ranked (depth i) (deps_of (some d)) rank;
      stored = all_stored (deps_of (some d)) store;
      paired = pair_types i d pair;
    }

deps_ranked :
    (field : ℕ)
    → All (λ dep. depth dep < depth field) ((table_fields lnf_fields_def).calc_deps field)
deps_ranked field = elim (Option-cases (get_elem? lnf_fields_def field)) [
  | inl none_at ↦ rw none_at tt
  | inr (d, at) ↦ rw at (lnf_fields_def-IsEntry field d at).ranked
]

depth_at_most : (field : ℕ) → depth field < 3
depth_at_most field = ground arith

-- With the table of fields, adding any field to a store returns, whether malloc succeeds or not for
-- it and for each of the fields that it depends on: lnf_mem_fadd calls itself at most two deep for
-- the fields that a calculated field depends on. Whatever it returns, the fields of the key and of
-- the value stay laid out from 0 without a gap, and the two lengths stay the sums of their sizes.
pub mem_fadd-lnf_fields_def :
    (alloc : ℕ → Bool) (mem : Mem) (field flags numbits numbits6 : ℕ)
    → IsMem mem
    → Returns (mem_fadd (table_fields lnf_fields_def) 3 alloc mem field flags numbits numbits6)
mem_fadd-lnf_fields_def alloc mem field flags numbits numbits6 =
    mem_fadd-IsMem (table_fields lnf_fields_def) alloc depth deps_ranked 3 mem field flags numbits
      numbits6 (depth_at_most field)
