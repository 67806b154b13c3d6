-- ===== src/Fields/Entry.antt =====
-- src/include/libnf.h, src/fields.h: the constants and the form of an entry of the table of fields.
use Prim.Native.String.{String}
use libnf.Base.{ℕ, List, [], ◌∷◌, Option, none, some}
use libnf.Base.Bytes.{codes}
use libnf.Fields.{FieldDef}

-- LNF_UINT8 and the other types
abbrev pub uint8 : ℕ
uint8 = 0x08

abbrev pub uint16 : ℕ
uint16 = 0x16

abbrev pub uint32 : ℕ
uint32 = 0x32

abbrev pub uint64 : ℕ
uint64 = 0x64

abbrev pub double : ℕ
double = 0x70

abbrev pub addr : ℕ
addr = 0xA1

abbrev pub mac : ℕ
mac = 0xA2

abbrev pub text : ℕ
text = 0xAA

abbrev pub mpls : ℕ
mpls = 0xAB

abbrev pub acl : ℕ
acl = 0xAC

abbrev pub basic_record1 : ℕ
basic_record1 = 0xB1

-- LNF_AGGR_MIN and so on
abbrev pub aggr_min : ℕ
aggr_min = 1

abbrev pub aggr_max : ℕ
aggr_max = 2

abbrev pub aggr_sum : ℕ
aggr_sum = 3

abbrev pub aggr_or : ℕ
aggr_or = 4

abbrev pub aggr_key : ℕ
aggr_key = 8

-- LNF_SORT_NONE and so on
abbrev pub sort_none : ℕ
sort_none = 0

abbrev pub sort_asc : ℕ
sort_asc = 0x10

abbrev pub sort_desc : ℕ
sort_desc = 0x20

abbrev pub no_deps : List ℕ
no_deps = 0 ∷ 0 ∷ 0 ∷ 0 ∷ []

abbrev pub no_pair : ℕ × ℕ
no_pair = (0, 0)

-- an IPFIX element: its name, the enterprise and the identifier
pub record Element : Type 0 where
  pub name : Option (List ℕ)
  pub enterprise : ℕ
  pub id : ℕ

abbrev pub no_element : Element
no_element = record { name = none; enterprise = 0; id = 0 }

abbrev pub element : String → ℕ → ℕ → Element
element name enterprise id = record { name = some (codes name); enterprise = enterprise; id = id }

-- what the table has where nothing is written
abbrev pub no_field_def : FieldDef
no_field_def = record {
  type = 0;
  size = 0;
  default_aggr = 0;
  default_sort = 0;
  calc_dependency = no_deps;
  pair_field = no_pair;
  name = none;
  fld_descr = none;
  ipfix_name = none;
  ipfix_enterprise = 0;
  ipfix_id = 0;
  ipfix_name6 = none;
  ipfix_enterprise6 = 0;
  ipfix_id6 = 0;
}

-- an entry in the order of the fields of the structure, with its number
abbrev pub field_def :
    ℕ → ℕ → ℕ → ℕ → ℕ → List ℕ → ℕ × ℕ → String → String → Element → Element → ℕ × FieldDef
field_def id type size aggr sort deps pair name descr ipfix ipfix6 = (
  id,
  record {
    type = type;
    size = size;
    default_aggr = aggr;
    default_sort = sort;
    calc_dependency = deps;
    pair_field = pair;
    name = some (codes name);
    fld_descr = some (codes descr);
    ipfix_name = ipfix.name;
    ipfix_enterprise = ipfix.enterprise;
    ipfix_id = ipfix.id;
    ipfix_name6 = ipfix6.name;
    ipfix_enterprise6 = ipfix6.enterprise;
    ipfix_id6 = ipfix6.id;
  },
)
