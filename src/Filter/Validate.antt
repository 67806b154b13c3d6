-- ===== src/Filter/Validate.antt =====
-- src/ffilter/fcore.c, `ff_validate`: which operation a leaf gets.
use libnf.Base.{ℕ, ◌&&◌, List, ltb, ◌==◌, if◌then◌else◌}
use libnf.Filter.Types.{FfType, FfAttr, FfOper}
use libnf.Filter.Attr.{
  FfLvalue, has_option, opts_mpls_exp, opts_mpls_eos, opts_mpls_label, net_mask, net_ver,
  set_mpls_label,
}

-- A check returns the operation, and the value of the leaf with what was written to it.
abbrev pub Checked : Type 0
Checked = FfAttr × List ℕ

-- the branch of `ff_validate` for FF_OP_EQ on an address
unfoldable pub validate_addr : List ℕ → FfAttr
validate_addr value =
    if net_ver value == 4 && net_mask value 3 == 0
    then FfAttr.eq_ad4
    else if net_ver value == 6
        && (net_mask value 0 == 0
            && (net_mask value 1 == 0 && (net_mask value 2 == 0 && net_mask value 3 == 0)))
    then FfAttr.eq_ad6
    else FfAttr.eq_adp

-- the branches for an MPLS stack, by the operator
unfoldable pub validate_mpls_eq : List ℕ → FfLvalue → Checked
validate_mpls_eq value info =
    if has_option info opts_mpls_label
    then if ltb info.n 11
      then (FfAttr.eq_mlx, set_mpls_label value info.n)
      else (FfAttr.eq_ml, value)
    else if has_option info opts_mpls_exp
    then if ltb info.n 11 then (FfAttr.eq_mex, set_mpls_label value info.n) else (FfAttr.err, value)
    else if has_option info opts_mpls_eos
    then (FfAttr.eq_mes, value)
    else (FfAttr.eq_ml, value)

unfoldable pub validate_mpls_gt : List ℕ → FfLvalue → Checked
validate_mpls_gt value info =
    if has_option info opts_mpls_label
    then if ltb info.n 11 then (FfAttr.gt_mlx, set_mpls_label value info.n) else (FfAttr.err, value)
    else if has_option info opts_mpls_exp
    then if ltb info.n 11 then (FfAttr.gt_mex, set_mpls_label value info.n) else (FfAttr.err, value)
    else if has_option info opts_mpls_eos
    then (FfAttr.gt_mes, value)
    else (FfAttr.err, value)

unfoldable pub validate_mpls_lt : List ℕ → FfLvalue → Checked
validate_mpls_lt value info =
    if has_option info opts_mpls_label
    then if ltb info.n 11 then (FfAttr.lt_mlx, set_mpls_label value info.n) else (FfAttr.err, value)
    else if has_option info opts_mpls_exp
    then if ltb info.n 11 then (FfAttr.lt_mex, set_mpls_label value info.n) else (FfAttr.err, value)
    else if has_option info opts_mpls_eos
    then (FfAttr.lt_mes, value)
    else (FfAttr.err, value)

unfoldable pub validate_mpls_is : List ℕ → FfLvalue → Checked
validate_mpls_is value info =
    if has_option info opts_mpls_label
    then if ltb info.n 11 then (FfAttr.is_mlx, set_mpls_label value info.n) else (FfAttr.err, value)
    else if has_option info opts_mpls_exp && ltb info.n 11
    then (FfAttr.is_mex, set_mpls_label value info.n)
    else (FfAttr.err, value)

unfoldable pub validate_eq : FfType → List ℕ → FfLvalue → Checked
unfolding validate_mpls_eq validate_addr
validate_eq FfType.int64 value info = (FfAttr.eq_i8, value)
validate_eq FfType.int32 value info = (FfAttr.eq_i4, value)
validate_eq FfType.int16 value info = (FfAttr.eq_i2, value)
validate_eq FfType.int8 value info = (FfAttr.eq_i1, value)
validate_eq FfType.signed value info = (FfAttr.eq_i, value)
validate_eq FfType.signed_big value info = (FfAttr.eq_ibe, value)
validate_eq FfType.uint64 value info = (FfAttr.eq_ui8, value)
validate_eq FfType.uint32 value info = (FfAttr.eq_ui4, value)
validate_eq FfType.uint16 value info = (FfAttr.eq_ui2, value)
validate_eq FfType.uint8 value info = (FfAttr.eq_ui1, value)
validate_eq FfType.timestamp value info = (FfAttr.eq_ui, value)
validate_eq FfType.unsigned value info = (FfAttr.eq_ui, value)
validate_eq FfType.timestamp_big value info = (FfAttr.eq_uibe, value)
validate_eq FfType.unsigned_big value info = (FfAttr.eq_uibe, value)
validate_eq FfType.double value info = (FfAttr.eq_re, value)
validate_eq FfType.string value info = (FfAttr.eq_str, value)
validate_eq FfType.mac value info = (FfAttr.eq_mac, value)
validate_eq FfType.addr value info = (validate_addr value, value)
validate_eq FfType.mpls value info = validate_mpls_eq value info
validate_eq _ value info = (FfAttr.err, value)

unfoldable pub validate_gt : FfType → List ℕ → FfLvalue → Checked
unfolding validate_mpls_gt
validate_gt FfType.int64 value info = (FfAttr.gt_i8, value)
validate_gt FfType.int32 value info = (FfAttr.gt_i4, value)
validate_gt FfType.int16 value info = (FfAttr.gt_i2, value)
validate_gt FfType.int8 value info = (FfAttr.gt_i1, value)
validate_gt FfType.signed value info = (FfAttr.gt_i, value)
validate_gt FfType.signed_big value info = (FfAttr.gt_ibe, value)
validate_gt FfType.uint64 value info = (FfAttr.gt_ui8, value)
validate_gt FfType.uint32 value info = (FfAttr.gt_ui4, value)
validate_gt FfType.uint16 value info = (FfAttr.gt_ui2, value)
validate_gt FfType.uint8 value info = (FfAttr.gt_ui1, value)
validate_gt FfType.timestamp value info = (FfAttr.gt_ui, value)
validate_gt FfType.unsigned value info = (FfAttr.gt_ui, value)
validate_gt FfType.timestamp_big value info = (FfAttr.gt_uibe, value)
validate_gt FfType.unsigned_big value info = (FfAttr.gt_uibe, value)
validate_gt FfType.double value info = (FfAttr.gt_re, value)
validate_gt FfType.mpls value info = validate_mpls_gt value info
validate_gt _ value info = (FfAttr.err, value)

unfoldable pub validate_lt : FfType → List ℕ → FfLvalue → Checked
unfolding validate_mpls_lt
validate_lt FfType.int64 value info = (FfAttr.lt_i8, value)
validate_lt FfType.int32 value info = (FfAttr.lt_i4, value)
validate_lt FfType.int16 value info = (FfAttr.lt_i2, value)
validate_lt FfType.int8 value info = (FfAttr.lt_i1, value)
validate_lt FfType.signed value info = (FfAttr.lt_i, value)
validate_lt FfType.signed_big value info = (FfAttr.lt_ibe, value)
validate_lt FfType.uint64 value info = (FfAttr.lt_ui8, value)
validate_lt FfType.uint32 value info = (FfAttr.lt_ui4, value)
validate_lt FfType.uint16 value info = (FfAttr.lt_ui2, value)
validate_lt FfType.uint8 value info = (FfAttr.lt_ui1, value)
validate_lt FfType.timestamp value info = (FfAttr.lt_ui, value)
validate_lt FfType.unsigned value info = (FfAttr.lt_ui, value)
validate_lt FfType.timestamp_big value info = (FfAttr.lt_uibe, value)
validate_lt FfType.unsigned_big value info = (FfAttr.lt_uibe, value)
validate_lt FfType.double value info = (FfAttr.lt_re, value)
validate_lt FfType.mpls value info = validate_mpls_lt value info
validate_lt _ value info = (FfAttr.err, value)

unfoldable pub validate_is : FfType → List ℕ → FfLvalue → Checked
unfolding validate_mpls_is
validate_is FfType.int64 value info = (FfAttr.is_i8, value)
validate_is FfType.int32 value info = (FfAttr.is_i4, value)
validate_is FfType.int16 value info = (FfAttr.is_i2, value)
validate_is FfType.int8 value info = (FfAttr.is_i1, value)
validate_is FfType.signed value info = (FfAttr.is_i, value)
validate_is FfType.signed_big value info = (FfAttr.is_ibe, value)
validate_is FfType.uint64 value info = (FfAttr.is_ui8, value)
validate_is FfType.uint32 value info = (FfAttr.is_ui4, value)
validate_is FfType.uint16 value info = (FfAttr.is_ui2, value)
validate_is FfType.uint8 value info = (FfAttr.is_ui1, value)
validate_is FfType.unsigned value info = (FfAttr.is_ui, value)
validate_is FfType.unsigned_big value info = (FfAttr.is_uibe, value)
validate_is FfType.string value info = (FfAttr.is_str, value)
validate_is FfType.mpls value info = validate_mpls_is value info
validate_is _ value info = (FfAttr.err, value)

unfoldable pub ff_validate : FfType → FfOper → List ℕ → FfLvalue → Checked
unfolding validate_eq validate_gt validate_lt validate_is
ff_validate type FfOper.eq value info = validate_eq type value info
ff_validate type FfOper.gt value info = validate_gt type value info
ff_validate type FfOper.lt value info = validate_lt type value info
ff_validate type FfOper.isset value info = validate_is type value info
ff_validate type FfOper.among value info = (FfAttr.in_list, value)
ff_validate type _ value info = (FfAttr.err, value)
