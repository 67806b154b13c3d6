-- ===== src/Fields/Table/Address.antt =====
-- src/fields.c, `lnf_fields_def`: addresses, the first half of layer 3.
use libnf.Base.{ℕ, List, [], ◌∷◌}
use libnf.Fields.{FieldDef}
use libnf.Fields.Entry.{addr, aggr_key, element, field_def, no_deps, no_pair, sort_asc, uint8}

abbrev pub address_fields : List (ℕ × FieldDef)
address_fields =
    field_def 0x0c addr 16 aggr_key sort_asc no_deps no_pair "srcip" "Source IP address"
      (element "sourceIPv4Address" 0 8) (element "sourceIPv6Address" 0 27)
    ∷ field_def 0x0d addr 16 aggr_key sort_asc no_deps no_pair "dstip" "Destination IP address"
        (element "destinationIPv4Address" 0 12) (element "destinationIPv6Address" 0 28)
    ∷ field_def 0x70 addr 16 aggr_key sort_asc no_deps no_pair "srcnet" "Source IP address"
        (element "sourceIPv4Address" 0 8) (element "sourceIPv6Address" 0 27)
    ∷ field_def 0x71 addr 16 aggr_key sort_asc no_deps no_pair "dstnet" "Destination IP address"
        (element "destinationIPv4Address" 0 12) (element "destinationIPv6Address" 0 28)
    ∷ field_def 0x0e addr 16 aggr_key sort_asc no_deps no_pair "nextip" "IP next hop"
        (element "ipNextHopIPv4Address" 0 15) (element "ipNextHopIPv6Address" 0 62)
    ∷ field_def 0x63 addr 16 aggr_key sort_asc no_deps no_pair "nexthop" "IP next hop"
        (element "ipNextHopIPv4Address" 0 15) (element "ipNextHopIPv6Address" 0 62)
    ∷ field_def 0x0f uint8 1 aggr_key sort_asc no_deps no_pair "srcmask" "Source mask"
        (element "sourceIPv4PrefixLength" 0 9) (element "sourceIPv6PrefixLength" 0 29)
    ∷ field_def 0x10 uint8 1 aggr_key sort_asc no_deps no_pair "dstmask" "Destination mask"
        (element "destinationIPv4PrefixLength" 0 13) (element "destinationIPv6PrefixLength" 0 30)
    ∷ []
