-- ===== src/Record/Raw.antt =====
-- src/libnf.c, src/libnf_internal.h: records as TLV text. The record and its fields are parameters:
-- `fget` gives the data of a field that is set, `fset` sets a field from data.
pub mod Entries
pub mod RoundTrip
pub mod Bounds
use libnf.Base.{
  ℕ, zero, suc, ◌+◌, ◌-◌, ◌*◌, ◌%◌, ◌^◌, Bool, true, false, not, List, [], ◌∷◌, ◌++◌, Option, none,
  some, ltb, leb, ◌==◌, if◌then◌else◌, length, take, drop,
}
use libnf.Base.Bytes.{byte, load, store, bytes}

-- what the types of fields are told apart by here
pub data FldType : Type 0 where
  fld_uint16 fld_uint32 fld_uint64 fld_other : FldType

-- LNF_REC_RAW_TLV and LNF_MAX_FIELD_LEN
abbrev pub raw_tlv : ℕ
raw_tlv = 1

abbrev pub max_field_len : ℕ
max_field_len = 512

-- `sizeof(lnf_rec_raw_t)`: the version, a byte of padding and the size; and the header of an entry
abbrev pub raw_head : ℕ
raw_head = 4

abbrev pub entry_head : ℕ
entry_head = 4

abbrev pub reverse : List ℕ → List ℕ → List ℕ
reverse [] out = out
reverse (b ∷ bs) out = reverse bs (b ∷ out)

-- htons, htonl, htonll and their inverses on the number at the start of the data
abbrev pub swap : ℕ → List ℕ → List ℕ
swap n data_ = reverse (bytes n data_) [] ++ drop n data_

unfoldable pub net_order : FldType → List ℕ → List ℕ
net_order FldType.fld_uint16 bs = swap 2 bs
net_order FldType.fld_uint32 bs = swap 4 bs
net_order FldType.fld_uint64 bs = swap 8 bs
net_order FldType.fld_other bs = bs

-- LNF_OK, LNF_ERR_OTHER_MSG and LNF_ERR_NOMEM
pub data Ret {ℓ} (A : Type ℓ) : Type ℓ where
  ok : A → Ret A
  err_other_msg : Ret A
  err_nomem : Ret A

-- an `lnf_rec_raw_entry_t` in host byte order, as the machine stores it
abbrev pub entry : ℕ → List ℕ → List ℕ
entry field bs = store 2 field ++ (store 2 (length bs) ++ bs)

abbrev pub prepend : List ℕ → Option (List ℕ) → Option (List ℕ)
prepend bs none = none
prepend bs (some more) = some (bs ++ more)

-- the offset behind the entry of a field, if it is set
abbrev pub advance : ℕ → ℕ → Option (List ℕ) → ℕ
advance offset fld_size none = offset
advance offset fld_size (some bs) = offset + entry_head + fld_size

-- An entry is written before the room for it is looked at.
abbrev pub put_entry : ℕ → ℕ → ℕ → ℕ → FldType → Option (List ℕ) → Option (List ℕ) → Option (List ℕ)
put_entry size behind i fld_size fld_type none more = more
put_entry size behind i fld_size fld_type (some bs) more =
    let e = entry i (bytes fld_size (net_order fld_type bs)) in
    if ltb size behind then none else prepend e more

module _ (fget : ℕ → Option (List ℕ)) (fld_type : ℕ → FldType) (fld_size : ℕ → ℕ) where
  -- the fields `i` to `i + count - 1`
  unfoldable pub raw_entries : ℕ → ℕ → ℕ → ℕ → Option (List ℕ)
  unfolding net_order
  raw_entries size offset zero i = some []
  raw_entries size offset (suc count) i =
      let behind = advance offset (fld_size i) (fget i) in
      let more = raw_entries size behind count (suc i) in
      put_entry size behind i (fld_size i) (fld_type i) (fget i) more

  -- `term` is LNF_FLD_TERM_, `pad` what the padding held before. The result are the bytes that
  -- `*ret_size` counts.
  unfoldable pub lnf_rec_get_raw : ℕ → ℕ → ℕ → ℕ → Ret (List ℕ)
  unfolding raw_entries
  lnf_rec_get_raw term type pad size =
      if not (type == raw_tlv) then err_other_msg else elim (raw_entries size raw_head term 0) [
        | none ↦ err_nomem
        | some es ↦ ok (raw_tlv ∷ pad ∷ (store 2 (length es) ++ es))
      ]

module _ {R : Type 0} (fset : R → ℕ → List ℕ → R) (clear : R → R) (fld_type : ℕ → FldType) where
  -- The `while` loop at `left` = `buf + offset`. It ends, as each entry is longer than 0: the size
  -- of the text is fuel enough, and `none` is no result of the code.
  unfoldable pub set_entries : ℕ → ℕ → ℕ → List ℕ → R → Option (Ret R)
  unfolding net_order
  set_entries zero size offset left rec = none
  set_entries (suc fuel) size offset left rec =
      let field = load 2 left in
      let data_size = load 2 (drop 2 left) in
      let bs = net_order (fld_type field) (bytes data_size (drop 4 left)) in
      let offset' = offset + entry_head + data_size in
      let next =
        set_entries fuel size offset' (drop (entry_head + data_size) left) (fset rec field bs) in
      if ltb offset size
      then (if leb max_field_len data_size then some err_nomem else next)
      else some (ok rec)

  unfoldable pub lnf_rec_set_raw : R → List ℕ → ℕ → Option (Ret R)
  unfolding set_entries
  lnf_rec_set_raw rec buf size =
      let raw_size = load 2 (drop 2 buf) in
      if ltb size raw_head
      then some err_other_msg
      else (if not (byte buf == raw_tlv)
          then some err_other_msg
          else (if ltb size (raw_size + raw_head)
              then some err_other_msg
              else set_entries (suc raw_size) raw_size raw_head (drop raw_head buf) (clear rec)))
