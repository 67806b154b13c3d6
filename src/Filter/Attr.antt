-- ===== src/Filter/Attr.antt =====
-- src/ffilter: the left values of a filter, the parts of its values, and the negation of an operation.
pub mod Negate
use libnf.Base.{
  ℕ, zero, suc, ◌+◌, ◌-◌, ◌*◌, ◌/◌, ◌%◌, ◌^◌, ◌≡◌, refl, Bool, true, false, ◌&&◌, List, [], ◌∷◌,
  ◌++◌, Option, arith, ltb, ◌==◌, if◌then◌else◌, take, drop,
}
use libnf.Base.Bytes.{load, store}
use libnf.Filter.Types.{FfType, FfAttr, FfOper}

-- `ff_lvalue_t`. `id` holds the indexes of the four external ids, 0 where there is none.
pub record FfLvalue : Type 0 where
  pub type : FfType
  pub id : List ℕ
  pub options : ℕ
  pub n : ℕ
  pub literal : Option (List ℕ)

-- `options & flag` for a flag of one bit
abbrev pub has_option : FfLvalue → ℕ → Bool
has_option info flag = info.options / flag % 2 == 1

abbrev pub opts_flags : ℕ
opts_flags = 1

abbrev pub opts_mpls_exp : ℕ
opts_mpls_exp = 2

abbrev pub opts_mpls_eos : ℕ
opts_mpls_eos = 4

abbrev pub opts_mpls_label : ℕ
opts_mpls_label = 8

abbrev pub opts_const : ℕ
opts_const = 16

-- `ff_net_t`: 16 bytes of address, 16 of mask, and the version
abbrev pub net_ip : List ℕ → ℕ → ℕ
net_ip value i = load 4 (drop (4 * i) value)

abbrev pub net_mask : List ℕ → ℕ → ℕ
net_mask value i = load 4 (drop (16 + 4 * i) value)

abbrev pub net_ver : List ℕ → ℕ
net_ver value = load 4 (drop 32 value)

-- `fl->mpls.label = n`
abbrev pub set_mpls_label : List ℕ → ℕ → List ℕ
set_mpls_label value n = take 4 value ++ store 4 n ++ drop 8 value

unfoldable pub ff_negate : FfAttr → FfAttr
ff_negate FfAttr.is_ui = FfAttr.ins_ui
ff_negate FfAttr.is_uibe = FfAttr.ins_uibe
ff_negate FfAttr.is_ui8 = FfAttr.ins_ui8
ff_negate FfAttr.is_ui4 = FfAttr.ins_ui4
ff_negate FfAttr.is_ui2 = FfAttr.ins_ui2
ff_negate FfAttr.is_ui1 = FfAttr.ins_ui1
ff_negate FfAttr.is_i = FfAttr.ins_i
ff_negate FfAttr.is_ibe = FfAttr.ins_ibe
ff_negate FfAttr.is_i8 = FfAttr.ins_i8
ff_negate FfAttr.is_i4 = FfAttr.ins_i4
ff_negate FfAttr.is_i2 = FfAttr.ins_i2
ff_negate FfAttr.is_i1 = FfAttr.ins_i1
ff_negate FfAttr.is_re = FfAttr.ins_re
ff_negate FfAttr.is_str = FfAttr.ins_str
ff_negate FfAttr.is_tsb = FfAttr.ins_tsb
ff_negate FfAttr.is_ts = FfAttr.ins_ts
ff_negate FfAttr.is_mac = FfAttr.ins_mac
ff_negate FfAttr.is_ad4 = FfAttr.ins_ad4
ff_negate FfAttr.is_ad6 = FfAttr.ins_ad6
ff_negate FfAttr.is_adp = FfAttr.ins_adp
ff_negate FfAttr.is_ml = FfAttr.ins_ml
ff_negate FfAttr.is_mlx = FfAttr.ins_mlx
ff_negate FfAttr.is_mex = FfAttr.ins_mex
ff_negate FfAttr.is_mes = FfAttr.ins_mes
ff_negate FfAttr.ins_ui = FfAttr.is_ui
ff_negate FfAttr.ins_uibe = FfAttr.is_uibe
ff_negate FfAttr.ins_ui8 = FfAttr.is_ui8
ff_negate FfAttr.ins_ui4 = FfAttr.is_ui4
ff_negate FfAttr.ins_ui2 = FfAttr.is_ui2
ff_negate FfAttr.ins_ui1 = FfAttr.is_ui1
ff_negate FfAttr.ins_i = FfAttr.is_i
ff_negate FfAttr.ins_ibe = FfAttr.is_ibe
ff_negate FfAttr.ins_i8 = FfAttr.is_i8
ff_negate FfAttr.ins_i4 = FfAttr.is_i4
ff_negate FfAttr.ins_i2 = FfAttr.is_i2
ff_negate FfAttr.ins_i1 = FfAttr.is_i1
ff_negate FfAttr.ins_re = FfAttr.is_re
ff_negate FfAttr.ins_str = FfAttr.is_str
ff_negate FfAttr.ins_tsb = FfAttr.is_tsb
ff_negate FfAttr.ins_ts = FfAttr.is_ts
ff_negate FfAttr.ins_mac = FfAttr.is_mac
ff_negate FfAttr.ins_ad4 = FfAttr.is_ad4
ff_negate FfAttr.ins_ad6 = FfAttr.is_ad6
ff_negate FfAttr.ins_adp = FfAttr.is_adp
ff_negate FfAttr.ins_ml = FfAttr.is_ml
ff_negate FfAttr.ins_mlx = FfAttr.is_mlx
ff_negate FfAttr.ins_mex = FfAttr.is_mex
ff_negate FfAttr.ins_mes = FfAttr.is_mes
ff_negate _ = FfAttr.err
