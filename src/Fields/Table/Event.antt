-- ===== src/Fields/Table/Event.antt =====
-- src/fields.c, `lnf_fields_def`: events and blocks of address translation.
use libnf.Base.{ℕ, List, [], ◌∷◌}
use libnf.Fields.{FieldDef}
use libnf.Fields.Entry.{
  aggr_key, element, field_def, no_deps, no_element, no_pair, sort_asc, uint16, uint32, uint8,
}

abbrev pub event_fields : List (ℕ × FieldDef)
event_fields =
    field_def 0x37 uint32 4 aggr_key sort_asc no_deps no_pair "ingressvrfid"
      "NEL NAT ingress vrf id" (element "ingressVRFID" 0 234) no_element
    ∷ field_def 0x38 uint8 1 aggr_key sort_asc no_deps no_pair "eventflag"
        "NAT event flag (always set to 1 by nfdump)" no_element no_element
    ∷ field_def 0x39 uint32 4 aggr_key sort_asc no_deps no_pair "egressvrfid" "NAT egress VRF ID"
        (element "egressVRFID" 0 235) no_element
    ∷ field_def 0x3a uint16 2 aggr_key sort_asc no_deps no_pair "blockstart" "NAT pool block start"
        (element "portRangeStart" 0 361) no_element
    ∷ field_def 0x3b uint16 2 aggr_key sort_asc no_deps no_pair "blockend" "NAT pool block end"
        (element "portRangeEnd" 0 362) no_element
    ∷ field_def 0x3c uint16 2 aggr_key sort_asc no_deps no_pair "blockstep" "NAT pool block step"
        (element "portRangeStepSize" 0 363) no_element
    ∷ field_def 0x3d uint16 2 aggr_key sort_asc no_deps no_pair "blocksize" "NAT pool block size"
        (element "portRangeNumPorts" 0 364) no_element
    ∷ []
