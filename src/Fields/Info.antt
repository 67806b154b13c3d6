-- ===== src/Fields/Info.antt =====
-- src/fields.c, `lnf_fld_info`: what the table says of a field, and the fields it has.
use libnf.Base.{
  ℕ, suc, List, [], ◌∷◌, ◌++◌, Option, none, some, ltb, leb, ◌==◌, if◌then◌else◌, length, take,
  get_elem?,
}
use libnf.Base.Bytes.{store}
use libnf.Fields.{FieldDef, is_some}

-- The bytes at `data` behind LNF_OK, the errors, and strcpy from NULL or behind the end of `buf`.
pub data Answer : Type 0 where
  data_bytes : List ℕ → Answer
  err_unkfld err_notset err_nomem err_other undefined : Answer

-- the last lines: `bs` is what `buf` has
abbrev pub copy_out : ℕ → List ℕ → Answer
copy_out size bs = if leb (length bs) size then data_bytes bs else err_nomem

abbrev pub copy_int : ℕ → ℕ → Answer
copy_int size v = copy_out size (store 4 v)

-- strcpy to `buf`, of LNF_INFO_BUFSIZE bytes
abbrev pub copy_text : ℕ → Option (List ℕ) → Answer
copy_text size none = undefined
copy_text size (some s) = if ltb (length s) 4096 then copy_out size (s ++ 0 ∷ []) else undefined

abbrev pub copy_ipfix : ℕ → Option (List ℕ) → Answer
copy_ipfix size none = err_notset
copy_ipfix size (some s) = copy_text size (some s)

-- the `switch` on `info`, the constants LNF_FLD_INFO_
abbrev pub field_info : ℕ → ℕ → Option FieldDef → Answer
field_info info size none = undefined
field_info info size (some d) =
    if info == 0x02
    then copy_int size d.type
    else if info == 0x1F
    then copy_int size d.size
    else if info == 0x04
    then copy_text size d.name
    else if info == 0x08
    then copy_text size d.fld_descr
    else if info == 0x0B
    then copy_int size d.default_aggr
    else if info == 0x0E
    then copy_int size d.default_sort
    else if info == 0x11
    then copy_ipfix size d.ipfix_name
    else if info == 0x12
    then copy_int size d.ipfix_enterprise
    else if info == 0x14
    then copy_int size d.ipfix_id
    else if info == 0x18
    then copy_ipfix size d.ipfix_name6
    else if info == 0x1B
    then copy_int size d.ipfix_enterprise6
    else if info == 0x1E
    then copy_int size d.ipfix_id6
    else err_other

-- the `for` loop over the entries from `i` on, with the end mark
abbrev pub field_ids : ℕ → List FieldDef → List ℕ
field_ids i [] = store 4 0xFF
field_ids i (d ∷ ds) =
    let more = field_ids (suc i) ds in if is_some d.name then store 4 i ++ more else more

-- `fld` is the pattern of an `int`; a negative one is above LNF_FLD_TERM_.
unfoldable pub lnf_fld_info : List FieldDef → ℕ → ℕ → ℕ → Answer
lnf_fld_info table fld info size =
    if info == 0x01
    then copy_out size (field_ids 0 (take 255 table))
    else if ltb 0xFF fld
    then err_unkfld
    else field_info info size (get_elem? table fld)
