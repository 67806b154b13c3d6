-- ===== src/Filter/Types.antt =====
-- src/ffilter/ffilter.h: the enumerations of the filter.
-- The enumerators lose the prefixes FF_TYPE_, FFAT_ and FF_OP_; FFAT_IN is `in_list` and FF_OP_IN
-- is `among`, since `in` is a reserved word.

-- `ff_type_t`
pub data FfType : Type 0 where
  unsupported unsigned unsigned_big signed signed_big uint8 uint16 uint32 uint64 int8 int16 : FfType
  int32 int64 double addr mac string mpls timestamp timestamp_big term : FfType

-- `ff_attr_t`, the operation of a leaf together with the type that it works on
pub data FfAttr : Type 0 where
  err : FfAttr
  eq_ui eq_uibe eq_ui8 eq_ui4 eq_ui2 eq_ui1 eq_i eq_ibe eq_i8 eq_i4 eq_i2 eq_i1 eq_re eq_str :
      FfAttr
  eq_tsb eq_ts eq_mac eq_ad4 eq_ad6 eq_adp eq_ml eq_mlx eq_mex eq_mes : FfAttr
  gt_ui gt_uibe gt_ui8 gt_ui4 gt_ui2 gt_ui1 gt_i gt_ibe gt_i8 gt_i4 gt_i2 gt_i1 gt_re gt_str :
      FfAttr
  gt_tsb gt_ts gt_mac gt_ad4 gt_ad6 gt_adp gt_ml gt_mlx gt_mex gt_mes : FfAttr
  lt_ui lt_uibe lt_ui8 lt_ui4 lt_ui2 lt_ui1 lt_i lt_ibe lt_i8 lt_i4 lt_i2 lt_i1 lt_re lt_str :
      FfAttr
  lt_tsb lt_ts lt_mac lt_ad4 lt_ad6 lt_adp lt_ml lt_mlx lt_mex lt_mes : FfAttr
  is_ui is_uibe is_ui8 is_ui4 is_ui2 is_ui1 is_i is_ibe is_i8 is_i4 is_i2 is_i1 is_re is_str :
      FfAttr
  is_tsb is_ts is_mac is_ad4 is_ad6 is_adp is_ml is_mlx is_mex is_mes : FfAttr
  ins_ui ins_uibe ins_ui8 ins_ui4 ins_ui2 ins_ui1 ins_i ins_ibe ins_i8 ins_i4 ins_i2 ins_i1 : FfAttr
  ins_re ins_str ins_tsb ins_ts ins_mac ins_ad4 ins_ad6 ins_adp ins_ml ins_mlx ins_mex ins_mes :
      FfAttr
  exist in_list : FfAttr

-- `ff_oper_t`
pub data FfOper : Type 0 where
  undef not or and among any noop eq lt gt isset isnset exists : FfOper
