-- ===== src/Fields/Table/Routing.antt =====
-- src/fields.c, `lnf_fields_def`: routing, the second half of layer 3.
use libnf.Base.{ℕ, List, [], ◌∷◌}
use libnf.Fields.{FieldDef}
use libnf.Fields.Entry.{
  addr, aggr_key, element, field_def, no_deps, no_element, no_pair, sort_asc, uint32, uint8,
}

abbrev pub routing_fields : List (ℕ × FieldDef)
routing_fields =
    field_def 0x11 uint8 1 aggr_key sort_asc no_deps no_pair "tos" "Source type of service"
      (element "ipClassOfService" 0 5) no_element
    ∷ field_def 0x12 uint8 1 aggr_key sort_asc no_deps no_pair "dsttos"
        "Destination type of service" (element "postIpClassOfService" 0 55) no_element
    ∷ field_def 0x13 uint32 4 aggr_key sort_asc no_deps no_pair "srcas" "Source AS number"
        (element "bgpSourceAsNumber" 0 16) no_element
    ∷ field_def 0x14 uint32 4 aggr_key sort_asc no_deps no_pair "dstas" "Destination AS number"
        (element "bgpDestinationAsNumber" 0 17) no_element
    ∷ field_def 0x15 uint32 4 aggr_key sort_asc no_deps no_pair "nextas" "BGP Next AS"
        (element "bgpNextAdjacentAsNumber" 0 128) no_element
    ∷ field_def 0x16 uint32 4 aggr_key sort_asc no_deps no_pair "prevas" "BGP Previous AS"
        (element "bgpPrevAdjacentAsNumber" 0 129) no_element
    ∷ field_def 0x17 addr 16 aggr_key sort_asc no_deps no_pair "bgpnexthop" "BGP next hop"
        (element "bgpNextHopIPv4Address" 0 18) (element "bgpNextHopIPv6Address" 0 63)
    ∷ field_def 0x18 uint8 1 aggr_key sort_asc no_deps no_pair "proto" "IP protocol"
        (element "protocolIdentifier" 0 4) no_element
    ∷ []
