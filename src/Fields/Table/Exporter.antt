-- ===== src/Fields/Table/Exporter.antt =====
-- src/fields.c, `lnf_fields_def`: the exporter.
use libnf.Base.{ℕ, List, [], ◌∷◌}
use libnf.Fields.{FieldDef}
use libnf.Fields.Entry.{
  addr, aggr_key, element, field_def, no_deps, no_element, no_pair, sort_asc, uint8,
}

abbrev pub exporter_fields : List (ℕ × FieldDef)
exporter_fields =
    field_def 0x24 addr 16 aggr_key sort_asc no_deps no_pair "routerip" "Exporting router IP"
      (element "exporterIPv4Address" 0 130) (element "exporterIPv6Address" 0 131)
    ∷ field_def 0x64 addr 16 aggr_key sort_asc no_deps no_pair "router" "Exporting router IP"
        (element "exporterIPv4Address" 0 130) (element "exporterIPv6Address" 0 131)
    ∷ field_def 0x25 uint8 1 aggr_key sort_asc no_deps no_pair "engine-type" "Type of exporter"
        (element "engineType" 0 38) no_element
    ∷ field_def 0x26 uint8 1 aggr_key sort_asc no_deps no_pair "engine-id"
        "Internal SysID of exporter" (element "engineId" 0 39) no_element
    ∷ field_def 0x65 uint8 1 aggr_key sort_asc no_deps no_pair "systype" "Type of exporter"
        (element "engineType" 0 38) no_element
    ∷ field_def 0x66 uint8 1 aggr_key sort_asc no_deps no_pair "sysid" "Internal SysID of exporter"
        (element "engineId" 0 39) no_element
    ∷ []
