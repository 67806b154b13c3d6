-- ===== src/Fields/Table/Acl.antt =====
-- src/fields.c, `lnf_fields_def`: access lists.
use libnf.Base.{ℕ, List, [], ◌∷◌}
use libnf.Fields.{FieldDef}
use libnf.Fields.Entry.{
  acl, aggr_key, element, field_def, no_deps, no_element, no_pair, sort_asc, text, uint32,
}

abbrev pub acl_fields : List (ℕ × FieldDef)
acl_fields =
    field_def 0x30 uint32 4 aggr_key sort_asc no_deps no_pair "iacl"
      "Hash value or ID of the ACL name" no_element no_element
    ∷ field_def 0x31 uint32 4 aggr_key sort_asc no_deps no_pair "iace"
        "Hash value or ID of the ACL name" no_element no_element
    ∷ field_def 0x32 uint32 4 aggr_key sort_asc no_deps no_pair "ixace"
        "Hash value or ID of an extended ACE configuration" no_element no_element
    ∷ field_def 0x42 acl 12 aggr_key sort_asc no_deps no_pair "ingressacl"
        "96 bit value including all items in ACL (iacl, iace, ixace)" no_element no_element
    ∷ field_def 0x33 uint32 4 aggr_key sort_asc no_deps no_pair "eacl"
        "Hash value or ID of the ACL name" no_element no_element
    ∷ field_def 0x34 uint32 4 aggr_key sort_asc no_deps no_pair "eace"
        "Hash value or ID of the ACL name" no_element no_element
    ∷ field_def 0x35 uint32 4 aggr_key sort_asc no_deps no_pair "exace"
        "Hash value or ID of an extended ACE configuration" no_element no_element
    ∷ field_def 0x43 acl 12 aggr_key sort_asc no_deps no_pair "egressacl"
        "96 bit value including all items in ACL (eacl, eace, exace)" no_element no_element
    ∷ field_def 0x36 text 256 aggr_key sort_asc no_deps no_pair "username" "NSEL username"
        (element "userName" 0 371) no_element
    ∷ []
