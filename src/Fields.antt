-- ===== src/Fields.antt =====
-- src/fields.c: what the table of fields says of a field, and the field that a text names. The table
-- is an argument; a string is the list of its characters before the terminating 0.
pub mod Parse
pub mod Info
pub mod Known
pub mod Entry
pub mod Access
pub mod Table
use libnf.Base.{
  ℕ, zero, suc, ◌+◌, ◌*◌, Bool, true, false, ◌&&◌, ◌||◌, List, [], ◌∷◌, ◌++◌, Option, none, some,
  ltb, leb, ◌==◌, if◌then◌else◌, length, take, get_elem?,
}
use libnf.Base.Bytes.{store}

-- `lnf_field_def_t` without the getter and the setter
pub record FieldDef : Type 0 where
  pub type : ℕ
  pub size : ℕ
  pub default_aggr : ℕ
  pub default_sort : ℕ
  pub calc_dependency : List ℕ
  pub pair_field : ℕ × ℕ
  pub name : Option (List ℕ)
  pub fld_descr : Option (List ℕ)
  pub ipfix_name : Option (List ℕ)
  pub ipfix_enterprise : ℕ
  pub ipfix_id : ℕ
  pub ipfix_name6 : Option (List ℕ)
  pub ipfix_enterprise6 : ℕ
  pub ipfix_id6 : ℕ

-- `strcmp(a, b) == 0`
unfoldable pub strcmp_equal : List ℕ → List ℕ → Bool
strcmp_equal [] [] = true
strcmp_equal (a ∷ s) (b ∷ t) = a == b && strcmp_equal s t
strcmp_equal _ _ = false

abbrev pub is_name : List ℕ → Option (List ℕ) → Bool
is_name name none = false
is_name name (some s) = strcmp_equal name s

abbrev pub is_some : Option (List ℕ) → Bool
is_some none = false
is_some (some s) = true

-- the tests of the loop on one entry
abbrev pub is_called : List ℕ → FieldDef → Bool
is_called name d =
    is_some d.name
    && (is_name name d.name || is_name name d.ipfix_name || is_name name d.ipfix_name6)

-- the `for` loop over the entries from `i` on
unfoldable pub find_field : List ℕ → ℕ → List FieldDef → Option (ℕ × FieldDef)
find_field name i [] = none
find_field name i (d ∷ ds) =
    let further = find_field name (suc i) ds in if is_called name d then some (i, d) else further

-- `strsep(&str, "/")` where `str` is not NULL: the token, and `str` afterwards
unfoldable pub strsep : List ℕ → List ℕ × Option (List ℕ)
strsep [] = ([], none)
strsep (c ∷ s) = let more = strsep s in if c == b'/' then ([], some s) else (c ∷ more.0, more.1)

-- a name without its last character, and that character
unfoldable pub split_last : ℕ → List ℕ → List ℕ × ℕ
split_last c [] = ([], c)
split_last c (d ∷ s) = let more = split_last d s in (c ∷ more.0, more.1)

-- The field with `*numbits` and `*numbits6`, where they are not NULL; a write through NULL; a name of
-- length 0, whose last character is read before its first.
pub data Parsed : Type 0 where
  field : ℕ → Option ℕ → Option ℕ → Parsed
  err_other null_write undefined : Parsed

abbrev pub put : Option ℕ → ℕ → Option ℕ
put none v = none
put (some b) v = some v

-- The number behind the first slash. `none` is a write through NULL.
abbrev pub first_bits : Bool → ℕ → Option ℕ → Option ℕ → Option (Option ℕ × Option ℕ)
first_bits six v none b6 = some (none, b6)
first_bits true v (some b) none = none
first_bits true v (some b) (some b6) = some (some b, some v)
first_bits false v (some b) b6 = some (some v, b6)

-- The number behind the second slash; after a 6 it is the first number again.
abbrev pub second_bits : Bool → ℕ → Option ℕ → Option ℕ → Option ℕ → Option (Option ℕ × Option ℕ)
second_bits six v none b b6 = some (b, b6)
second_bits six v (some v2) b none = some (b, none)
second_bits true v (some v2) none (some b6) = none
second_bits true v (some v2) (some b) (some b6) = some (some v, some b6)
second_bits false v (some v2) b (some b6) = some (b, some v2)

abbrev pub finish : ℕ → Option (Option ℕ × Option ℕ) → Parsed
finish i none = null_write
finish i (some (b, b6)) = field i b b6

abbrev pub finish_both : Bool → ℕ → ℕ → Option ℕ → Option (Option ℕ × Option ℕ) → Parsed
finish_both six i v v2 none = null_write
finish_both six i v v2 (some (b, b6)) = finish i (second_bits six v v2 b b6)

-- `strtol` gives the `int` that is stored.
module _ (strtol : List ℕ → ℕ) where
  abbrev pub map_strtol : Option (List ℕ) → Option ℕ
  map_strtol none = none
  map_strtol (some s) = some (strtol s)

  -- both numbers, from `str` behind the name
  abbrev pub read_both : Bool → ℕ → Option (List ℕ) → Option ℕ → Option ℕ → Parsed
  read_both six i none b b6 = field i b b6
  read_both six i (some s) b b6 =
      let (strbits, str) = strsep s in
      finish_both six i (strtol strbits) (map_strtol str) (first_bits six (strtol strbits) b b6)

  -- LNF_ADDR is 0xA1, LNF_UINT64 is 0x64
  abbrev pub parse_found :
      Bool → Option (ℕ × FieldDef) → Option (List ℕ) → Option ℕ → Option ℕ → Parsed
  parse_found six none str b b6 = field 0 b b6
  parse_found six (some (zero, d)) str b b6 = field 0 b b6
  parse_found six (some (suc i, d)) str b b6 =
      if d.type == 0xA1
      then read_both six (suc i) str (put b 32) (put b6 128)
      else if d.type == 0x64
      then read_both six (suc i) str (put b 0) (put b6 0)
      else field (suc i) (put b 0) (put b6 0)

  abbrev pub parse_name : List FieldDef → List ℕ → Option (List ℕ) → Option ℕ → Option ℕ → Parsed
  parse_name table [] str b b6 = undefined
  parse_name table (c ∷ s) str b b6 =
      let (front, last) = split_last c s in
      let name = if last == b'4' || last == b'6' then front else c ∷ s in
      parse_found (last == b'6') (find_field name 0 (take 255 table)) str b b6

  -- `numbits` and `numbits6` are what they point to.
  unfoldable pub lnf_fld_parse : List FieldDef → Option (List ℕ) → Option ℕ → Option ℕ → Parsed
  unfolding strsep split_last find_field
  lnf_fld_parse table none b b6 = err_other
  lnf_fld_parse table (some s) b b6 = let (name, str) = strsep s in parse_name table name str b b6
