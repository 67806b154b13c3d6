-- ===== src/Fields/Table.antt =====
-- src/fields.c: the table `lnf_fields_def`, of 256 entries; its parts stand in the children.
pub mod Traffic
pub mod Address
pub mod Routing
pub mod Link
pub mod Exporter
pub mod Firewall
pub mod Acl
pub mod Event
pub mod Extra
pub mod Computed
pub mod Names
pub mod Sound
use libnf.Base.{ℕ, zero, suc, ◌+◌, List, [], ◌∷◌, ◌++◌, ◌==◌, if◌then◌else◌}
use libnf.Fields.{FieldDef}
use libnf.Fields.Entry.{no_field_def}
use libnf.Fields.Table.Traffic.{traffic_fields}
use libnf.Fields.Table.Address.{address_fields}
use libnf.Fields.Table.Routing.{routing_fields}
use libnf.Fields.Table.Link.{link_fields}
use libnf.Fields.Table.Exporter.{exporter_fields}
use libnf.Fields.Table.Firewall.{firewall_fields}
use libnf.Fields.Table.Acl.{acl_fields}
use libnf.Fields.Table.Event.{event_fields}
use libnf.Fields.Table.Extra.{extra_fields}
use libnf.Fields.Table.Computed.{computed_fields}

-- the entry that an initializer with a number gives, or one that nothing is written to
abbrev pub entry_of : List (ℕ × FieldDef) → ℕ → FieldDef
entry_of [] i = no_field_def
entry_of ((j, d) ∷ entries) i = let others = entry_of entries i in if j == i then d else others

abbrev pub initializers : List (ℕ × FieldDef)
initializers =
    traffic_fields
    ++ (address_fields
        ++ (routing_fields
            ++ (link_fields
                ++ (exporter_fields
                    ++ (firewall_fields
                        ++ (acl_fields ++ (event_fields ++ (extra_fields ++ computed_fields))))))))

-- the entries `i` to `i + count - 1`
abbrev pub entries_from : ℕ → ℕ → List FieldDef
entries_from i zero = []
entries_from i (suc count) = entry_of initializers i ∷ entries_from (suc i) count

abbrev pub lnf_fields_def : List FieldDef
lnf_fields_def = entries_from 0 256
