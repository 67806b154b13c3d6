-- ===== src/Fields/Table/Firewall.antt =====
-- src/fields.c, `lnf_fields_def`: events of firewalls.
use libnf.Base.{ℕ, List, [], ◌∷◌}
use libnf.Fields.{FieldDef}
use libnf.Fields.Entry.{
  addr, aggr_key, aggr_min, element, field_def, no_deps, no_element, no_pair, sort_asc, uint16,
  uint32, uint64, uint8,
}

abbrev pub firewall_fields : List (ℕ × FieldDef)
firewall_fields =
    field_def 0x27 uint64 8 aggr_min sort_asc no_deps no_pair "eventtime"
      "NSEL The time that the flow was created" no_element no_element
    ∷ field_def 0x28 uint32 4 aggr_key sort_asc no_deps no_pair "connid"
        "NSEL An identifier of a unique flow for the device" (element "flowId" 0 148) no_element
    ∷ field_def 0x29 uint8 1 aggr_key sort_asc no_deps no_pair "icmp-code" "NSEL ICMP code value"
        (element "icmpCodeIPv4" 0 177) (element "icmpCodeIPv6" 0 179)
    ∷ field_def 0x2a uint8 1 aggr_key sort_asc no_deps no_pair "icmp-type" "NSEL ICMP type value"
        (element "icmpTypeIPv4" 0 176) (element "icmpTypeIPv6" 0 178)
    ∷ field_def 0x67 uint8 1 aggr_key sort_asc no_deps no_pair "icmpcode" "NSEL ICMP code value"
        (element "icmpCodeIPv4" 0 177) (element "icmpCodeIPv6" 0 179)
    ∷ field_def 0x68 uint8 1 aggr_key sort_asc no_deps no_pair "icmptype" "NSEL ICMP type value"
        (element "icmpTypeIPv4" 0 176) (element "icmpTypeIPv6" 0 178)
    ∷ field_def 0x2b uint16 2 aggr_key sort_asc no_deps no_pair "xevent" "NSEL Extended event code"
        (element "firewallEvent" 0 233) no_element
    ∷ field_def 0x41 uint8 1 aggr_key sort_asc no_deps no_pair "event" "NSEL Extended event code"
        no_element no_element
    ∷ field_def 0x2c addr 16 aggr_key sort_asc no_deps no_pair "xsrcip"
        "NSEL Mapped source IPv4 address" (element "postNATSourceIPv4Address" 0 225)
        (element "postNATSourceIPv6Address" 0 281)
    ∷ field_def 0x2d addr 16 aggr_key sort_asc no_deps no_pair "xdstip"
        "NSEL Mapped destination IPv4 address" (element "postNATDestinationIPv4Address" 0 226)
        (element "postNATDestinationIPv6Address" 0 282)
    ∷ field_def 0x2e uint16 2 aggr_key sort_asc no_deps no_pair "xsrcport" "NSEL Mapped source port"
        (element "postNAPTSourceTransportPort" 0 227) no_element
    ∷ field_def 0x2f uint16 2 aggr_key sort_asc no_deps no_pair "xdstport"
        "NSEL Mapped destination port" (element "postNAPTDestinationTransportPort" 0 228) no_element
    ∷ []
