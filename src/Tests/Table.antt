-- ===== src/Tests/Table.antt =====
-- The table of fields of src/fields.c: names, an entry and the fields that stores add.
use libnf.Base.{ℕ, ◌≡◌, refl, List, some, none, true, arith, Bool, not, ◌==◌}
use libnf.Base.Bytes.{codes}
use libnf.Fields.{field, find_field, lnf_fld_parse, split_last, strcmp_equal, strsep}
use libnf.Fields.Table.{entry_of, initializers, lnf_fields_def}
use libnf.Fields.Table.Names.{lnf_fld_parse-name}
use libnf.Fields.Access.{lnf_fld_type, table_fields}
use libnf.Fields.Table.Sound.{IsEntry, lnf_fields_def-IsEntry, mem_fadd-lnf_fields_def}
use libnf.MemHeap.Aggr.Fast.{fast_list}
use libnf.MemHeap.FieldList.{add_or_upd, end_of, is_full, next_offset, update_in}
use libnf.MemHeap.Setup.{
  add_deps, add_val, fadd_one, mem_fadd, mem_fastaggr, mem_init, new_field, select_func, type_size,
}
use libnf.MemHeap.Setup.Invariant.{IsMem, Returns}
use libnf.Tests.Setup.{values}

-- no number is read
abbrev no_number : List ℕ → ℕ
no_number s = 0

lnf_fld_parse-name_example :
    lnf_fld_parse no_number lnf_fields_def (some (codes "srcip")) (some 0) none
    ≡ field 0x0c (some 32) none
lnf_fld_parse-name_example =
    lnf_fld_parse-name no_number 0x0c (entry_of initializers 0x0c) (codes "srcip") (some 0) none
      refl refl (omega arith) (omega arith)

-- The name of the entry 0x46 gives the field 0x45.
exporterid_lost :
    lnf_fld_parse no_number lnf_fields_def (some (codes "exporterid")) (some 0) (some 0)
    ≡ field 0x45 (some 32) (some 128)
unfolding lnf_fld_parse find_field strsep split_last strcmp_equal
exporterid_lost = refl

lnf_fields_def-IsEntry_example : IsEntry 0xa1 (entry_of initializers 0xa1)
lnf_fields_def-IsEntry_example = lnf_fields_def-IsEntry 0xa1 (entry_of initializers 0xa1) refl

-- The pair "if" has 16 bits, but its fields have 32.
if_pair :
    ((entry_of initializers 0xc3).type ≡ 0x16)
    × (lnf_fld_type lnf_fields_def (entry_of initializers 0xc3).pair_field.0 ≡ 0x32)
if_pair = (refl, refl)

new-IsMem : IsMem (mem_init 10)
unfolding mem_init
new-IsMem = record { key_laid = tt; val_laid = tt; key_sized = refl; val_sized = refl }

-- malloc fails for the second field that 0xa1 depends on
abbrev no_second : ℕ → Bool
no_second id = not (id == 0xa0)

mem_fadd-lnf_fields_def_example :
    Returns (mem_fadd (table_fields lnf_fields_def) 3 no_second (mem_init 10) 0xa1 0 0 0)
mem_fadd-lnf_fields_def_example =
    mem_fadd-lnf_fields_def no_second (mem_init 10) 0xa1 0 0 0 new-IsMem

-- The fast mode sets up the fields of the fast callback.
fast_fields :
    values (mem_fastaggr (table_fields lnf_fields_def) 3 (λ id. true) (mem_init 10) 1) ≡ fast_list
unfolding mem_fastaggr mem_fadd fadd_one type_size new_field select_func add_val add_or_upd
    update_in next_offset is_full end_of add_deps mem_init
fast_fields = refl
