-- ===== src/Fields/Table/Traffic.antt =====
-- src/fields.c, `lnf_fields_def`: times, counters and ports.
use libnf.Base.{ℕ, List, [], ◌∷◌}
use libnf.Fields.{FieldDef}
use libnf.Fields.Entry.{
  aggr_key, aggr_max, aggr_min, aggr_or, aggr_sum, element, field_def, no_deps, no_element, no_pair,
  sort_asc, sort_desc, uint16, uint64, uint8,
}

abbrev pub traffic_fields : List (ℕ × FieldDef)
traffic_fields =
    field_def 0x01 uint64 8 aggr_min sort_asc no_deps no_pair "first"
      "Timestamp of the first packet seen (in miliseconds)" (element "flowStartSysUpTime" 0 22)
      no_element
    ∷ field_def 0x02 uint64 8 aggr_max sort_asc no_deps no_pair "last"
        "Timestamp of the last packet seen (in miliseconds)" (element "flowEndSysUpTime" 0 21)
        no_element
    ∷ field_def 0x03 uint64 8 aggr_max sort_asc no_deps no_pair "received"
        "Timestamp regarding when the packet was received by collector"
        (element "collectionTimeMillisecondse" 0 258) no_element
    ∷ field_def 0x04 uint64 8 aggr_sum sort_desc no_deps no_pair "bytes" "The number of bytes"
        (element "octetDeltaCount" 0 1) no_element
    ∷ field_def 0x05 uint64 8 aggr_sum sort_desc no_deps no_pair "packets" "The number of packets"
        (element "packetDeltaCount" 0 2) no_element
    ∷ field_def 0x60 uint64 8 aggr_sum sort_desc no_deps no_pair "pkts" "The number of packets"
        (element "packetDeltaCount" 0 2) no_element
    ∷ field_def 0x06 uint64 8 aggr_sum sort_desc no_deps no_pair "outbytes"
        "The number of output bytes" (element "postOctetDeltaCount" 0 23) no_element
    ∷ field_def 0x07 uint64 8 aggr_sum sort_desc no_deps no_pair "outpackets"
        "The number of output packets" (element "postPacketDeltaCount" 0 24) no_element
    ∷ field_def 0x61 uint64 8 aggr_sum sort_desc no_deps no_pair "outpkts"
        "The number of output packets" (element "postPacketDeltaCount" 0 24) no_element
    ∷ field_def 0x08 uint64 8 aggr_sum sort_desc no_deps no_pair "flows"
        "The number of flows (aggregated)" (element "deltaFlowCount" 0 3) no_element
    ∷ field_def 0x09 uint16 2 aggr_key sort_asc no_deps no_pair "srcport" "Source port"
        (element "sourceTransportPort" 0 7) no_element
    ∷ field_def 0x0a uint16 2 aggr_key sort_asc no_deps no_pair "dstport" "Destination port"
        (element "destinationTransportPort" 0 11) no_element
    ∷ field_def 0x0b uint8 1 aggr_or sort_asc no_deps no_pair "flags" "TCP flags"
        (element "tcpControlBits" 0 6) no_element
    ∷ field_def 0x69 uint8 1 aggr_or sort_asc no_deps no_pair "tcpflags" "TCP flags"
        (element "tcpControlBits" 0 6) no_element
    ∷ []
