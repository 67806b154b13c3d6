-- ===== src/Fields/Table/Computed.antt =====
-- src/fields.c, `lnf_fields_def`: calculated fields, the basic record and pairs.
use libnf.Base.{ℕ, List, [], ◌∷◌}
use libnf.Fields.{FieldDef}
use libnf.Fields.Entry.{
  addr, aggr_key, aggr_sum, basic_record1, double, field_def, no_deps, no_element, no_field_def,
  no_pair, sort_asc, sort_desc, sort_none, uint16, uint32, uint64,
}

abbrev pub computed_fields : List (ℕ × FieldDef)
computed_fields =
    field_def 0xa0 uint64 8 aggr_sum sort_asc (0x01 ∷ 0x02 ∷ 0 ∷ 0 ∷ []) no_pair "duration"
      "Flow duration (in milliseconds)" no_element no_element
    ∷ field_def 0xa1 double 8 aggr_sum sort_desc (0x04 ∷ 0xa0 ∷ 0 ∷ 0 ∷ []) no_pair "bps"
        "Bytes per second" no_element no_element
    ∷ field_def 0xa2 double 8 aggr_sum sort_desc (0x05 ∷ 0xa0 ∷ 0 ∷ 0 ∷ []) no_pair "pps"
        "Packets per second" no_element no_element
    ∷ field_def 0xa3 double 8 aggr_sum sort_asc (0x05 ∷ 0x04 ∷ 0 ∷ 0 ∷ []) no_pair "bpp"
        "Bytes per packet" no_element no_element
    ∷ field_def 0xb0 basic_record1 80 aggr_key sort_none no_deps no_pair "brec1" "basic record 1"
        no_element no_element
    ∷ field_def 0xc0 uint16 2 aggr_key sort_none no_deps (0x09, 0x0a) "port"
        "Source or destination port (pair field)" no_element no_element
    ∷ field_def 0xc1 addr 16 aggr_key sort_none no_deps (0x0c, 0x0d) "ip"
        "Source or destination ip address (pair field)" no_element no_element
    ∷ field_def 0xc5 addr 16 aggr_key sort_none no_deps (0x0c, 0x0d) "net"
        "Source or destination ip address (pair field)" no_element no_element
    ∷ field_def 0xc2 uint32 4 aggr_key sort_none no_deps (0x13, 0x14) "as"
        "Source or destination ASn (pair field)" no_element no_element
    ∷ field_def 0xc3 uint16 2 aggr_key sort_none no_deps (0x13, 0x14) "if"
        "Input or output interface (pair field)" no_element no_element
    ∷ field_def 0xc4 uint16 2 aggr_key sort_none no_deps (0x19, 0x1a) "vlan"
        "Source or destination vlan (pair field)" no_element no_element
    ∷ (0xff, no_field_def)
    ∷ []
