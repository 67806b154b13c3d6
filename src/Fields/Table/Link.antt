-- ===== src/Fields/Table/Link.antt =====
-- src/fields.c, `lnf_fields_def`: layers 2 and 1, and MPLS.
use libnf.Base.{ℕ, List, [], ◌∷◌}
use libnf.Fields.{FieldDef}
use libnf.Fields.Entry.{
  aggr_key, element, field_def, mac, mpls, no_deps, no_element, no_pair, sort_asc, sort_none,
  uint16, uint32, uint8,
}

abbrev pub link_fields : List (ℕ × FieldDef)
link_fields =
    field_def 0x19 uint16 2 aggr_key sort_asc no_deps no_pair "srcvlan" "Source vlan label"
      (element "vlanId" 0 58) no_element
    ∷ field_def 0x1a uint16 2 aggr_key sort_asc no_deps no_pair "dstvlan" "Destination vlan label"
        (element "postVlanId" 0 59) no_element
    ∷ field_def 0x1b mac 6 aggr_key sort_asc no_deps no_pair "insrcmac" "In source MAC address"
        (element "sourceMacAddress" 0 56) no_element
    ∷ field_def 0x1c mac 6 aggr_key sort_asc no_deps no_pair "outsrcmac"
        "Out destination MAC address" (element "destinationMacAddress" 0 80) no_element
    ∷ field_def 0x1d mac 6 aggr_key sort_asc no_deps no_pair "indstmac" "In destination MAC address"
        (element "postSourceMacAddress" 0 81) no_element
    ∷ field_def 0x1e mac 6 aggr_key sort_asc no_deps no_pair "outdstmac" "Out source MAC address"
        (element "postDestinationMacAddress" 0 57) no_element
    ∷ field_def 0x1f mpls 40 aggr_key sort_none no_deps no_pair "mpls" "MPLS labels" no_element
        no_element
    ∷ field_def 0x20 uint32 4 aggr_key sort_asc no_deps no_pair "inif" "SNMP input interface number"
        (element "ingressInterface" 0 10) no_element
    ∷ field_def 0x21 uint32 4 aggr_key sort_asc no_deps no_pair "outif"
        "SNMP output interface number" (element "egressInterface" 0 14) no_element
    ∷ field_def 0x22 uint8 1 aggr_key sort_asc no_deps no_pair "dir"
        "Flow directions ingress/egress" (element "flowDirection" 0 61) no_element
    ∷ field_def 0x23 uint8 1 aggr_key sort_asc no_deps no_pair "fwd" "Forwarding status"
        (element "forwardingStatus" 0 89) no_element
    ∷ []
