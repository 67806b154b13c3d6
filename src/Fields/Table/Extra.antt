-- ===== src/Fields/Table/Extra.antt =====
-- src/fields.c, `lnf_fields_def`: extra and special fields.
use libnf.Base.{ℕ, List, [], ◌∷◌}
use libnf.Fields.{FieldDef}
use libnf.Fields.Entry.{
  addr, aggr_key, aggr_sum, element, field_def, no_deps, no_element, no_pair, sort_asc, uint16,
  uint32, uint64,
}

abbrev pub extra_fields : List (ℕ × FieldDef)
extra_fields =
    field_def 0x3e uint64 8 aggr_key sort_asc no_deps no_pair "cl"
      "nprobe latency client_nw_delay_usec" no_element no_element
    ∷ field_def 0x3f uint64 8 aggr_key sort_asc no_deps no_pair "sl"
        "nprobe latency server_nw_delay_usec" no_element no_element
    ∷ field_def 0x40 uint64 8 aggr_key sort_asc no_deps no_pair "al"
        "nprobe latency appl_latency_usec" no_element no_element
    ∷ field_def 0x44 uint32 4 aggr_key sort_asc no_deps no_pair "inetfamily"
        "IENT family for src/dst IP address (ipv4 or ipv6); platform dependant"
        (element "ipVersion" 0 60) no_element
    ∷ field_def 0x45 addr 16 aggr_key sort_asc no_deps no_pair "exporterid" "Exporter IP address"
        no_element no_element
    ∷ field_def 0x46 uint32 4 aggr_key sort_asc no_deps no_pair "exporterid"
        "Exporter Observation Domain ID" no_element no_element
    ∷ field_def 0x47 uint32 4 aggr_key sort_asc no_deps no_pair "exporterversion"
        "Version of exporter" no_element no_element
    ∷ field_def 0x48 uint32 4 aggr_sum sort_asc no_deps no_pair "exporterversion"
        "Naumber of sequence failures of data received from exporter" no_element no_element
    ∷ field_def 0x49 uint16 2 aggr_key sort_asc no_deps no_pair "samplermode" "Sampling mode"
        no_element no_element
    ∷ field_def 0x4a uint32 4 aggr_key sort_asc no_deps no_pair "sampleinterval"
        "Ssampling interval" no_element no_element
    ∷ field_def 0x4b uint32 4 aggr_key sort_asc no_deps no_pair "samplerid"
        "Sampler ID assigned by exporting device" no_element no_element
    ∷ []
