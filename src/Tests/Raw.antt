-- ===== src/Tests/Raw.antt =====
-- Records as TLV text, on a small record with fields of the table of src/fields.c.
use libnf.Base.{
  ℕ, ◌≤◌, ◌<◌, ◌≡◌, ◌≢◌, refl, List, [], ◌∷◌, Option, none, some, length, arith, ◌==◌,
  if◌then◌else◌, ◌⊎◌, inl, inr, Bool-cases, ==_iff, get_elem?,
}
use mathlib.Core.Option.{none-ne-some}
use libnf.Fields.{FieldDef}
use libnf.Fields.Access.{lnf_fld_type}
use libnf.Fields.Table.{lnf_fields_def}
use libnf.Base.Bytes.{store, bytes}
use libnf.Record.Raw.{FldType, net_order, ok, raw_entries, lnf_rec_get_raw, lnf_rec_set_raw}
use libnf.Record.Raw.RoundTrip.{Fits, lnf_rec_set_raw-lnf_rec_get_raw}
use libnf.Record.Raw.Bounds.{length-lnf_rec_get_raw, lnf_rec_set_raw-some}

-- A record is the list of its fields.
abbrev Fields : Type 0
Fields = List (ℕ × List ℕ)

abbrev add_field : Fields → ℕ → List ℕ → Fields
add_field rec field bs = (field, bs) ∷ rec

abbrev no_fields : Fields → Fields
no_fields rec = []

-- types and sizes of fields in the table of the program
abbrev raw_type : ℕ → FldType
raw_type type =
    if type == 0x16
    then FldType.fld_uint16
    else if type == 0x32
    then FldType.fld_uint32
    else if type == 0x64
    then FldType.fld_uint64
    else FldType.fld_other

abbrev table_type : ℕ → FldType
table_type i = raw_type (lnf_fld_type lnf_fields_def i)

abbrev size_of : Option FieldDef → ℕ
size_of none = 0
size_of (some d) = d.size

abbrev table_size : ℕ → ℕ
table_size i = size_of (get_elem? lnf_fields_def i)

-- the source port 0x09 and the protocol 0x18
abbrev port_and_protocol : ℕ → Option (List ℕ)
port_and_protocol i =
    if i == 0x09 then some (80 ∷ 0 ∷ []) else (if i == 0x18 then some (6 ∷ []) else none)

sizes :
    (i : ℕ) (bs : List ℕ)
    → port_and_protocol i ≡ some bs
    → Fits (table_type i) (table_size i) × (0 < table_size i) × (table_size i < 512)
sizes i bs set = elim (Bool-cases (i == 0x09)) [
  | inl e ↦ rw ((==_iff i 0x09).0 e) (refl, omega arith, omega arith)
  | inr a ↦ elim (Bool-cases (i == 0x18)) [
    | inl e ↦ rw ((==_iff i 0x18).0 e) (tt, omega arith, omega arith)
    | inr b ↦ absurd (none-ne-some bs (rw (a, b) at set))
  ]
]

abbrev text : List ℕ
text = 1 ∷ 0 ∷ 11 ∷ 0 ∷ 9 ∷ 0 ∷ 2 ∷ 0 ∷ 0 ∷ 80 ∷ 24 ∷ 0 ∷ 1 ∷ 0 ∷ 6 ∷ []

lnf_rec_set_raw-lnf_rec_get_raw_example :
    lnf_rec_set_raw add_field no_fields table_type [] text 32
    ≡ some (ok ((0x18, 6 ∷ []) ∷ (0x09, 80 ∷ 0 ∷ []) ∷ []))
unfolding lnf_rec_get_raw raw_entries net_order store bytes
lnf_rec_set_raw-lnf_rec_get_raw_example =
    lnf_rec_set_raw-lnf_rec_get_raw add_field no_fields table_type port_and_protocol table_size
      sizes 255 0 32 32 text [] (omega arith) refl (omega arith) (omega arith)

length-lnf_rec_get_raw_example : (length text ≤ 32) ⊎ (length text ≡ 4)
unfolding lnf_rec_get_raw raw_entries net_order store bytes
length-lnf_rec_get_raw_example =
    length-lnf_rec_get_raw port_and_protocol table_type table_size 255 1 0 32 text refl

-- an entry that tells a size of 255 and has no data
abbrev short_text : List ℕ
short_text = 1 ∷ 0 ∷ 5 ∷ 0 ∷ 1 ∷ 0 ∷ 255 ∷ 0 ∷ 9 ∷ []

lnf_rec_set_raw-some_example : lnf_rec_set_raw add_field no_fields table_type [] short_text 9 ≢ none
lnf_rec_set_raw-some_example = lnf_rec_set_raw-some add_field no_fields table_type [] short_text 9
