-- ===== src/Tests/Fields.antt =====
-- The text of a field, for a small table.
use libnf.Base.{
  ◌<◌, sym, ap, ◌∙◌, length, get_elem?, arith, zero, suc, ℕ, ◌+◌, ◌-◌, ◌*◌, ◌≡◌, refl, List, [],
  ◌∷◌, ◌++◌, none, some, take, ◌==◌, ◌||◌, false,
}
use libnf.Fields.{
  FieldDef, field, null_write, undefined, lnf_fld_parse, find_field, strsep, split_last,
  strcmp_equal,
}
use libnf.Fields.Info.{lnf_fld_info, data_bytes}
use libnf.Fields.Known.{lnf_fld_info-lnf_fld_parse}
use libnf.Base.Bytes.{store}
use mathlib.Core.Option.{none-ne-some, some-injective}
use libnf.Fields.Parse.{with_bits, lnf_fld_parse-with_bits}

-- decimal digits
abbrev digits : ℕ → List ℕ → ℕ
digits v [] = v
digits v (c ∷ s) = digits (v * 10 + (c - b'0')) s

abbrev no_field : FieldDef
no_field = record {
  type = 0;
  size = 0;
  default_aggr = 0;
  default_sort = 0;
  calc_dependency = [];
  pair_field = (0, 0);
  name = none;
  fld_descr = none;
  ipfix_name = none;
  ipfix_enterprise = 0;
  ipfix_id = 0;
  ipfix_name6 = none;
  ipfix_enterprise6 = 0;
  ipfix_id6 = 0;
}

abbrev ip_text : List ℕ
ip_text = b'i' ∷ b'p' ∷ []

abbrev ip_field : FieldDef
ip_field = record no_field { type = 0xA1; size = 16; name = some ip_text }

abbrev icmp_text : List ℕ
icmp_text = b'v' ∷ b'4' ∷ []

abbrev small_table : List FieldDef
small_table =
    no_field
    ∷ ip_field
    ∷ record no_field { type = 0x08; name = some (b'c' ∷ []); ipfix_name = some icmp_text }
    ∷ []

abbrev bits_24 : List ℕ
bits_24 = b'2' ∷ b'4' ∷ []

abbrev bits_64 : List ℕ
bits_64 = b'6' ∷ b'4' ∷ []

ip_plain :
    ((split_last b'i' (b'p' ∷ [])).1 == b'4' || (split_last b'i' (b'p' ∷ [])).1 == b'6') ≡ false
unfolding split_last
ip_plain = refl

ip_found : find_field ip_text 0 (take 255 small_table) ≡ some (1, ip_field)
unfolding find_field strcmp_equal
ip_found = refl

lnf_fld_parse-with_bits_example :
    (lnf_fld_parse
        (digits 0)
        small_table
        (some (with_bits ip_text bits_24 bits_64))
        (some 0)
        (some 0)
      ≡ field 1 (some 24) (some 64))
    × (lnf_fld_parse
          (digits 0)
          small_table
          (some (with_bits (ip_text ++ b'4' ∷ []) bits_24 bits_64))
          (some 0)
          (some 0)
        ≡ field 1 (some 24) (some 64))
    × (lnf_fld_parse
          (digits 0)
          small_table
          (some (with_bits (ip_text ++ b'6' ∷ []) bits_24 bits_64))
          (some 0)
          (some 0)
        ≡ field 1 (some 24) (some 24))
lnf_fld_parse-with_bits_example =
    lnf_fld_parse-with_bits (digits 0) small_table b'i' (b'p' ∷ []) bits_24 bits_64 0 ip_field 0 0
      (refl, (refl, tt)) ip_plain (refl, (refl, tt)) ip_found refl

-- The IPFIX name v4 is not found: its 4 is taken for a suffix.
icmp_lost :
    lnf_fld_parse (digits 0) small_table (some icmp_text) (some 0) (some 0)
    ≡ field 0 (some 0) (some 0)
unfolding lnf_fld_parse find_field strsep split_last strcmp_equal
icmp_lost = refl

empty_name : lnf_fld_parse (digits 0) small_table (some []) none none ≡ undefined
unfolding lnf_fld_parse strsep
empty_name = refl

-- name6/m with `numbits6` NULL
six_null :
    lnf_fld_parse (digits 0) small_table (some (ip_text ++ b'6' ∷ b'/' ∷ bits_24)) (some 0) none
    ≡ null_write
unfolding lnf_fld_parse find_field strsep split_last strcmp_equal
six_null = refl

short_name :
    (e d : FieldDef) (n s : List ℕ)
    → e.name ≡ some n
    → length n < 4096
    → some e ≡ some d
    → d.name ≡ some s
    → length s < 4096
short_name e d n s own lt h r =
    let same : some n ≡ some s = sym own ∙ (ap (λ x. x.name) (some-injective e d h) ∙ r) in
    let text : n ≡ s = some-injective n s same in rw (sym text) lt

small_table_short :
    (j : ℕ) (d : FieldDef) (s : List ℕ)
    → get_elem? small_table j ≡ some d
    → d.name ≡ some s
    → length s < 4096
small_table_short zero d s h r =
    absurd (none-ne-some s (ap (λ x. x.name) (some-injective no_field d h) ∙ r))
small_table_short (suc zero) d s h r = short_name _ d ip_text s refl (omega arith) h r
small_table_short (suc (suc zero)) d s h r = short_name _ d (b'c' ∷ []) s refl (omega arith) h r
small_table_short (suc (suc (suc j))) d s h r = absurd (none-ne-some d h)

ip_parsed :
    lnf_fld_parse (digits 0) small_table (some (with_bits ip_text bits_24 bits_64)) (some 0) none
    ≡ field 1 (some 24) none
unfolding lnf_fld_parse find_field strsep split_last strcmp_equal
ip_parsed = refl

lnf_fld_info-lnf_fld_parse_example :
    (1 < 255)
    × (d : FieldDef) × (s : List ℕ) × (get_elem? small_table 1 ≡ some d)
    × (d.name ≡ some s)
    × (lnf_fld_info small_table 1 0x04 4096 ≡ data_bytes (s ++ 0 ∷ []))
lnf_fld_info-lnf_fld_parse_example =
    lnf_fld_info-lnf_fld_parse (digits 0) small_table (some (with_bits ip_text bits_24 bits_64))
      (some 0) none 0 (some 24) none small_table_short ip_parsed

-- the fields that have a name, with the end mark
listed :
    lnf_fld_info small_table 0 0x01 12
    ≡ data_bytes (1 ∷ 0 ∷ 0 ∷ 0 ∷ 2 ∷ 0 ∷ 0 ∷ 0 ∷ 255 ∷ 0 ∷ 0 ∷ 0 ∷ [])
unfolding lnf_fld_info store
listed = refl
