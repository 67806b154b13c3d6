-- ===== src/MemHeap/Fill.antt =====
-- src/memheap.c: the rows of a record. A field of the record is read by `fget`, which gives the data
-- of a field that is set and leaves the buffer alone for another; `fset` sets a field from data, and
-- `is_v4compat` is IN6_IS_ADDR_V4COMPAT on 16 bytes. `numbits` and `numbits6` are patterns of an
-- `int`: a negative one is not below a `size_t`.
pub mod Prefix
pub mod Coarse
use Prim.Native.Nat.{bit_and}
use libnf.Base.{
  ℕ, zero, suc, ◌+◌, ◌-◌, ◌*◌, ◌/◌, ◌%◌, ◌^◌, Bool, true, false, not, ◌&&◌, List, [], ◌∷◌, ◌++◌,
  Option, none, some, ltb, ◌==◌, if◌then◌else◌, drop, take,
}
use libnf.Base.Bytes.{bytes, load, store, load_big, store_big}
use libnf.MemHeap.FieldList.{Field}
use libnf.MemHeap.Aggr.{patch}

-- `~(0xFF... >> from)` on `w` bits
abbrev pub keep_mask : ℕ → ℕ → ℕ
keep_mask w from = 2 ^ w - 1 - (2 ^ w - 1) / 2 ^ from

-- `lnf_clear_bits_v4` on the 4 bytes at `buf`
unfoldable pub clear_bits_v4 : ℕ → List ℕ → List ℕ
clear_bits_v4 from buf =
    if ltb from 32 then store_big 4 (bit_and (load_big 4 buf) (keep_mask 32 from)) else bytes 4 buf

-- `lnf_clear_bits_v6` on the 16 bytes at `buf`
unfoldable pub clear_bits_v6 : ℕ → List ℕ → List ℕ
clear_bits_v6 from buf =
    if from == 64
    then bytes 8 buf ++ store 8 0
    else if ltb from 64
    then store_big 8 (bit_and (load_big 8 buf) (keep_mask 64 from)) ++ store 8 0
    else if ltb 64 from && ltb from 128
    then bytes 8 buf ++ store_big 8 (bit_and (load_big 8 (drop 8 buf)) (keep_mask 64 (from - 64)))
    else bytes 16 buf

-- `lnf_align_uint64` on a value, for an `align` whose product with 1000 is an `int`; it is an `int`
-- and so positive below 2 ^ 31.
unfoldable pub align_uint64 : ℕ → ℕ → ℕ
align_uint64 align v = if ltb 0 align && ltb align (2 ^ 31) then v - v % (align * 1000) else v

-- The field that a pair field stands for: `pairset` is 0 outside of the pair mode, or the number of
-- the pair. LNF_FLD_ZERO_ is 0.
unfoldable pub pair_field : (ℕ → ℕ → ℕ) → ℕ → ℕ → ℕ
pair_field fld_pair pairset field =
    if not (pairset == 0) && not (fld_pair field 1 == 0) && not (fld_pair field 2 == 0)
    then fld_pair field pairset
    else field

-- a write of data, if the getter makes one
abbrev pub put_data : ℕ → Option (List ℕ) → List ℕ → List ℕ
put_data offset none buf = buf
put_data offset (some bs) buf = patch offset bs buf

module _ (is_v4compat : List ℕ → Bool) where
  -- what becomes of the data of a field at its offset
  unfoldable pub coarsen : Field → List ℕ → List ℕ
  unfolding clear_bits_v4 clear_bits_v6 align_uint64
  coarsen f buf =
      if f.type == 0xA1
      then (if is_v4compat (bytes 16 (drop f.offset buf))
          then patch (f.offset + 12) (clear_bits_v4 f.numbits (drop (f.offset + 12) buf)) buf
          else patch f.offset (clear_bits_v6 f.numbits6 (drop f.offset buf)) buf)
      else if f.type == 0x64 && ltb 0 f.numbits && ltb f.numbits (2 ^ 31)
      then patch f.offset (store 8 (align_uint64 f.numbits (load 8 (drop f.offset buf)))) buf
      else buf

  -- `lnf_mem_fill_buf`, whose result no caller uses: what it leaves in `buf`
  unfoldable pub fill_buf : (ℕ → ℕ → ℕ) → (ℕ → Option (List ℕ)) → ℕ → List Field → List ℕ → List ℕ
  unfolding coarsen pair_field
  fill_buf fld_pair fget pairset [] buf = buf
  fill_buf fld_pair fget pairset (f ∷ l) buf =
      let data_ = fget (pair_field fld_pair pairset f.field) in
      fill_buf fld_pair fget pairset l (coarsen f (put_data f.offset data_ buf))

-- `lnf_mem_fill_rec`
unfoldable pub fill_rec : {R : Type 0} → (R → ℕ → List ℕ → R) → List Field → List ℕ → R → R
fill_rec fset [] buf rec = rec
fill_rec fset (f ∷ l) buf rec = fill_rec fset l buf (fset rec f.field (drop f.offset buf))
