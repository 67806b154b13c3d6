-- ===== src/LnfFilter.antt =====
-- src/lnf_filter.c: what the library tells ffilter of its fields. `strtol` is that of lnf_fld_parse;
-- `inet` and `inet6` are the texts that snprintf writes of AF_INET and AF_INET6.
pub mod Literals
pub mod Values
pub mod Typed
pub mod Named
pub mod Leaves
use libnf.Base.{
  ℕ, zero, suc, Bool, ◌||◌, List, [], ◌∷◌, Option, none, some, set, get_or, ◌==◌, if◌then◌else◌,
  get_elem?,
}
use libnf.Base.Bytes.{codes}
use libnf.Fields.{
  FieldDef, Parsed, field, err_other, null_write, undefined, lnf_fld_parse, strcmp_equal,
}
use libnf.Fields.Access.{lnf_fld_type}
use libnf.Filter.Types.{FfType}
use libnf.Filter.Attr.{FfLvalue}
use libnf.Filter.Leaf.{FfError, Made, made, error, wild}

-- the `switch` on the type of a field
abbrev pub ff_type : ℕ → Option FfType
ff_type type =
    if type == 0x08
    then some FfType.uint8
    else if type == 0x16
    then some FfType.uint16
    else if type == 0x32
    then some FfType.uint32
    else if type == 0x64
    then some FfType.uint64
    else if type == 0x70
    then some FfType.double
    else if type == 0xA1
    then some FfType.addr
    else if type == 0xA2
    then some FfType.mac
    else if type == 0xAB
    then some FfType.mpls
    else none

abbrev pub pair_field_of : Option FieldDef → ℕ × ℕ
pair_field_of none = (0, 0)
pair_field_of (some d) = d.pair_field

-- `id` when field `x` is the pair, or plain
abbrev pub ids_of : ℕ → ℕ × ℕ → List ℕ → List ℕ
ids_of x (first, second) id = if first == 0 then set id 0 x else set (set id 0 first) 1 second

-- the type in ffilter and `id`
unfoldable pub described : List FieldDef → ℕ → List ℕ → Option FfType × List ℕ
described table x id =
    let ids = ids_of x (pair_field_of (get_elem? table x)) id in
    (ff_type (lnf_fld_type table (get_or ids 0 0)), ids)

abbrev pub set_type : Option FfType × List ℕ → FfLvalue → Made FfLvalue
set_type (none, ids) l = error FfError.err_unsup
set_type (some type, ids) l = made (record l { type = type; id = ids })

-- from the field `x` on; LNF_FLD_TCP_FLAGS is 0x0b, FF_OPTS_FLAGS is 1
unfoldable pub set_field : List FieldDef → ℕ → FfLvalue → Made FfLvalue
set_field table x l =
    set_type (described table x l.id) (record l { options = if x == 0x0b then 1 else l.options })

-- Behind a name lnf_fld_parse does not give LNF_ERR_OTHER, which would be a negative index.
unfoldable pub set_parsed : List FieldDef → Parsed → FfLvalue → Made FfLvalue
unfolding set_field
set_parsed table (field x b b6) l = if x == 0 then error FfError.err_unkn else set_field table x l
set_parsed table err_other l = wild
set_parsed table null_write l = wild
set_parsed table undefined l = wild

-- a name of an address family; FF_OPTS_CONST is 0x10
abbrev pub set_family : List ℕ → FfLvalue → FfLvalue
set_family text l = record l { literal = some text; options = 0x10 }

module _ (inet inet6 : List ℕ) where
  abbrev pub family : List ℕ → FfLvalue → List ℕ × FfLvalue
  family s l =
      if strcmp_equal s (codes "inet") || strcmp_equal s (codes "ipv4")
      then (codes "inetfamily", set_family inet l)
      else if strcmp_equal s (codes "inet6") || strcmp_equal s (codes "ipv6")
      then (codes "inetfamily", set_family inet6 l)
      else (s, l)

module _ (strtol : List ℕ → ℕ) (inet inet6 : List ℕ) where
  -- `lnf_ff_lookup_func`; `lvalue` is what it finds there
  unfoldable pub lookup_func : List FieldDef → Option (List ℕ) → FfLvalue → Made FfLvalue
  unfolding strcmp_equal lnf_fld_parse set_parsed
  lookup_func table none l = error FfError.err_other
  lookup_func table (some s) l =
      let (name, m) = family inet inet6 s l in
      set_parsed table (lnf_fld_parse strtol table (some name) none none) m

-- `lnf_ff_data_func`: the bytes that the getter leaves at `data`, and whether `size` is set to 0.
-- `fget` gives them with LNF_OK, or whether it failed with LNF_ERR_NAN.
pub data Data : Type 0 where
  data_bytes : List ℕ → Data
  other other_empty : Data

pub data Got : Type 0 where
  got : List ℕ → Got
  nan failed : Got

abbrev pub data_func : (ℕ → Got) → ℕ → Data
data_func fget index = elim (fget index) [
  | got bs ↦ data_bytes bs
  | nan ↦ other_empty
  | failed ↦ other
]
