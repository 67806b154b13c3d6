-- ===== src/Filter/OperEval.antt =====
-- src/ffilter/fcore.c, `ff_oper_eval_V2`: a leaf against the data of a record.
-- `none` stands for the result -1. The `switch` is cut into consecutive groups of cases, each of
-- which passes on what it does not handle. A double is its 8 bytes: how doubles compare is the
-- parameter `real`.
pub mod Data
pub mod Flags
pub mod Compare
use Prim.Native.Nat.{bit_and}
use libnf.Base.{
  ℕ, zero, suc, ◌+◌, ◌-◌, ◌*◌, ◌/◌, ◌%◌, ◌^◌, ◌≡◌, refl, Bool, true, false, not, ◌&&◌, ◌||◌, List,
  [], ◌∷◌, ◌++◌, Option, none, some, arith, ltb, ◌==◌, if◌then◌else◌, take, drop,
}
use libnf.Base.Int.{ℤ, ltb_ℤ}
use libnf.Base.Bytes.{load, load_big, signed, same_bytes, same_prefix, strcasestr}
use libnf.Filter.Types.{FfType, FfAttr, FfOper}
use libnf.Filter.Labels.{eval_mpls, eval_prefix}
use libnf.Filter.Attr.{net_ip, net_mask, net_ver}

-- the comparisons of the machine's doubles, on their representations
pub record Reals : Type 0 where
  pub real_eq : ℕ → ℕ → Bool
  pub real_lt : ℕ → ℕ → Bool

abbrev pub eq_ℤ : ℤ → ℤ → Bool
eq_ℤ a b = not (ltb_ℤ a b) && not (ltb_ℤ b a)

-- The first `switch`: the record's number in host byte order.
unfoldable pub from_net : ℕ → List ℕ → Option ℕ
from_net size rc =
    if size == 8
    then some (load_big 8 rc)
    else if size == 4
    then some (load_big 4 rc)
    else if size == 2
    then some (load_big 2 rc)
    else if size == 1
    then some (load 1 rc)
    else none

unfoldable pub from_host : ℕ → List ℕ → Option ℕ
from_host size rc =
    if size == 8
    then some (load 8 rc)
    else if size == 4
    then some (load 4 rc)
    else if size == 2
    then some (load 2 rc)
    else if size == 1
    then some (load 1 rc)
    else none

-- For the other operations `hord` is not read.
unfoldable pub host_order : FfAttr → ℕ → List ℕ → Option ℕ
host_order FfAttr.eq_uibe size rc = from_net size rc
host_order FfAttr.gt_uibe size rc = from_net size rc
host_order FfAttr.lt_uibe size rc = from_net size rc
host_order FfAttr.is_uibe size rc = from_net size rc
host_order FfAttr.ins_uibe size rc = from_net size rc
host_order FfAttr.eq_ibe size rc = from_net size rc
host_order FfAttr.gt_ibe size rc = from_net size rc
host_order FfAttr.lt_ibe size rc = from_net size rc
host_order FfAttr.is_ibe size rc = from_net size rc
host_order FfAttr.ins_ibe size rc = from_net size rc
host_order FfAttr.eq_ui size rc = from_host size rc
host_order FfAttr.gt_ui size rc = from_host size rc
host_order FfAttr.lt_ui size rc = from_host size rc
host_order FfAttr.is_ui size rc = from_host size rc
host_order FfAttr.ins_ui size rc = from_host size rc
host_order FfAttr.eq_i size rc = from_host size rc
host_order FfAttr.gt_i size rc = from_host size rc
host_order FfAttr.lt_i size rc = from_host size rc
host_order FfAttr.is_i size rc = from_host size rc
host_order FfAttr.ins_i size rc = from_host size rc
host_order _ size rc = some 0

unfoldable pub eval_addr : FfAttr → ℕ → List ℕ → List ℕ → Option Bool
unfolding eval_prefix eval_mpls
eval_addr FfAttr.eq_ad4 size rc fl = some (
    if size == 4
    then net_ip rc 0 == net_ip fl 3
    else net_ip rc 0 == 0 && (net_ip rc 1 == 0 && (net_ip rc 2 == 0 && net_ip rc 3 == net_ip fl 3)))
eval_addr FfAttr.eq_ad6 size rc fl = some (if size == 4 then false else same_bytes 16 rc fl)
eval_addr FfAttr.eq_adp size rc fl = some (eval_prefix size rc fl)
eval_addr attr size rc fl = eval_mpls attr rc fl

module _ (real : Reals) where
  -- doubles, strings and MAC addresses; `vsize` is the length of the leaf's string
  unfoldable pub eval_other : FfAttr → ℕ → ℕ → List ℕ → List ℕ → Option Bool
  unfolding eval_addr
  eval_other FfAttr.eq_re vsize size rc fl = some (real.real_eq (load 8 rc) (load 8 fl))
  eval_other FfAttr.gt_re vsize size rc fl = some (real.real_lt (load 8 fl) (load 8 rc))
  eval_other FfAttr.lt_re vsize size rc fl = some (real.real_lt (load 8 rc) (load 8 fl))
  eval_other FfAttr.eq_str vsize size rc fl = some (same_prefix vsize rc fl)
  eval_other FfAttr.is_str vsize size rc fl = some (strcasestr rc fl)
  eval_other FfAttr.ins_str vsize size rc fl = some (not (strcasestr rc fl))
  eval_other FfAttr.eq_mac vsize size rc fl = some (same_bytes 6 rc fl)
  eval_other attr vsize size rc fl = eval_addr attr size rc fl

  unfoldable pub eval_signed : FfAttr → ℕ → ℕ → ℕ → List ℕ → List ℕ → Option Bool
  unfolding eval_other
  eval_signed FfAttr.eq_ibe hord vsize size rc fl =
      some (eq_ℤ (signed 64 hord) (signed 64 (load 8 fl)))
  eval_signed FfAttr.eq_i hord vsize size rc fl =
      some (eq_ℤ (signed 64 hord) (signed 64 (load 8 fl)))
  eval_signed FfAttr.eq_i8 hord vsize size rc fl =
      some (eq_ℤ (signed 64 (load 8 rc)) (signed 64 (load 8 fl)))
  eval_signed FfAttr.eq_i4 hord vsize size rc fl =
      some (eq_ℤ (signed 32 (load 4 rc)) (signed 64 (load 8 fl)))
  eval_signed FfAttr.eq_i2 hord vsize size rc fl =
      some (eq_ℤ (signed 16 (load 2 rc)) (signed 64 (load 8 fl)))
  eval_signed FfAttr.eq_i1 hord vsize size rc fl =
      some (eq_ℤ (signed 8 (load 1 rc)) (signed 64 (load 8 fl)))
  eval_signed FfAttr.gt_ibe hord vsize size rc fl =
      some (ltb_ℤ (signed 64 (load 8 fl)) (signed 64 hord))
  eval_signed FfAttr.gt_i hord vsize size rc fl =
      some (ltb_ℤ (signed 64 (load 8 fl)) (signed 64 hord))
  eval_signed FfAttr.gt_i8 hord vsize size rc fl =
      some (ltb_ℤ (signed 64 (load 8 fl)) (signed 64 (load 8 rc)))
  eval_signed FfAttr.gt_i4 hord vsize size rc fl =
      some (ltb_ℤ (signed 64 (load 8 fl)) (signed 32 (load 4 rc)))
  eval_signed FfAttr.gt_i2 hord vsize size rc fl =
      some (ltb_ℤ (signed 64 (load 8 fl)) (signed 16 (load 2 rc)))
  eval_signed FfAttr.gt_i1 hord vsize size rc fl =
      some (ltb_ℤ (signed 64 (load 8 fl)) (signed 8 (load 1 rc)))
  eval_signed FfAttr.lt_ibe hord vsize size rc fl =
      some (ltb_ℤ (signed 64 hord) (signed 64 (load 8 fl)))
  eval_signed FfAttr.lt_i hord vsize size rc fl =
      some (ltb_ℤ (signed 64 hord) (signed 64 (load 8 fl)))
  eval_signed FfAttr.lt_i8 hord vsize size rc fl =
      some (ltb_ℤ (signed 64 (load 8 rc)) (signed 64 (load 8 fl)))
  eval_signed FfAttr.lt_i4 hord vsize size rc fl =
      some (ltb_ℤ (signed 32 (load 4 rc)) (signed 64 (load 8 fl)))
  eval_signed FfAttr.lt_i2 hord vsize size rc fl =
      some (ltb_ℤ (signed 16 (load 2 rc)) (signed 64 (load 8 fl)))
  eval_signed FfAttr.lt_i1 hord vsize size rc fl =
      some (ltb_ℤ (signed 8 (load 1 rc)) (signed 64 (load 8 fl)))
  eval_signed attr hord vsize size rc fl = eval_other attr vsize size rc fl

  unfoldable pub eval_bits : FfAttr → ℕ → ℕ → ℕ → List ℕ → List ℕ → Option Bool
  unfolding eval_signed
  eval_bits FfAttr.is_uibe hord vsize size rc fl = some (bit_and hord (load 8 fl) == load 8 fl)
  eval_bits FfAttr.is_ui hord vsize size rc fl = some (bit_and hord (load 8 fl) == load 8 fl)
  eval_bits FfAttr.is_ibe hord vsize size rc fl = some (bit_and hord (load 8 fl) == load 8 fl)
  eval_bits FfAttr.is_i hord vsize size rc fl = some (bit_and hord (load 8 fl) == load 8 fl)
  eval_bits FfAttr.is_ui8 hord vsize size rc fl =
      some (bit_and (load 8 rc) (load 8 fl) == load 8 fl)
  eval_bits FfAttr.is_i8 hord vsize size rc fl = some (bit_and (load 8 rc) (load 8 fl) == load 8 fl)
  eval_bits FfAttr.is_ui4 hord vsize size rc fl =
      some (bit_and (load 4 rc) (load 8 fl) == load 8 fl)
  eval_bits FfAttr.is_i4 hord vsize size rc fl = some (bit_and (load 4 rc) (load 8 fl) == load 8 fl)
  eval_bits FfAttr.is_ui2 hord vsize size rc fl =
      some (bit_and (load 2 rc) (load 8 fl) == load 8 fl)
  eval_bits FfAttr.is_i2 hord vsize size rc fl = some (bit_and (load 2 rc) (load 8 fl) == load 8 fl)
  eval_bits FfAttr.is_ui1 hord vsize size rc fl =
      some (bit_and (load 1 rc) (load 8 fl) == load 8 fl)
  eval_bits FfAttr.is_i1 hord vsize size rc fl = some (bit_and (load 1 rc) (load 8 fl) == load 8 fl)
  eval_bits FfAttr.ins_uibe hord vsize size rc fl = some (bit_and hord (load 8 fl) == 0)
  eval_bits FfAttr.ins_ui hord vsize size rc fl = some (bit_and hord (load 8 fl) == 0)
  eval_bits FfAttr.ins_ibe hord vsize size rc fl = some (bit_and hord (load 8 fl) == 0)
  eval_bits FfAttr.ins_i hord vsize size rc fl = some (bit_and hord (load 8 fl) == 0)
  eval_bits FfAttr.ins_ui8 hord vsize size rc fl = some (bit_and (load 8 rc) (load 8 fl) == 0)
  eval_bits FfAttr.ins_i8 hord vsize size rc fl = some (bit_and (load 8 rc) (load 8 fl) == 0)
  eval_bits FfAttr.ins_ui4 hord vsize size rc fl = some (bit_and (load 4 rc) (load 8 fl) == 0)
  eval_bits FfAttr.ins_i4 hord vsize size rc fl = some (bit_and (load 4 rc) (load 8 fl) == 0)
  eval_bits FfAttr.ins_ui2 hord vsize size rc fl = some (bit_and (load 2 rc) (load 8 fl) == 0)
  eval_bits FfAttr.ins_i2 hord vsize size rc fl = some (bit_and (load 2 rc) (load 8 fl) == 0)
  eval_bits FfAttr.ins_ui1 hord vsize size rc fl = some (bit_and (load 1 rc) (load 8 fl) == 0)
  eval_bits FfAttr.ins_i1 hord vsize size rc fl = some (bit_and (load 1 rc) (load 8 fl) == 0)
  eval_bits attr hord vsize size rc fl = eval_signed attr hord vsize size rc fl

  unfoldable pub eval_unsigned : FfAttr → ℕ → ℕ → ℕ → List ℕ → List ℕ → Option Bool
  unfolding eval_bits
  eval_unsigned FfAttr.eq_uibe hord vsize size rc fl = some (hord == load 8 fl)
  eval_unsigned FfAttr.eq_ui hord vsize size rc fl = some (hord == load 8 fl)
  eval_unsigned FfAttr.eq_ui8 hord vsize size rc fl = some ((load 8 rc) == load 8 fl)
  eval_unsigned FfAttr.eq_ui4 hord vsize size rc fl = some ((load 4 rc) == load 8 fl)
  eval_unsigned FfAttr.eq_ui2 hord vsize size rc fl = some ((load 2 rc) == load 8 fl)
  eval_unsigned FfAttr.eq_ui1 hord vsize size rc fl = some ((load 1 rc) == load 8 fl)
  eval_unsigned FfAttr.gt_uibe hord vsize size rc fl = some (ltb (load 8 fl) hord)
  eval_unsigned FfAttr.gt_ui hord vsize size rc fl = some (ltb (load 8 fl) hord)
  eval_unsigned FfAttr.gt_ui8 hord vsize size rc fl = some (ltb (load 8 fl) (load 8 rc))
  eval_unsigned FfAttr.gt_ui4 hord vsize size rc fl = some (ltb (load 8 fl) (load 4 rc))
  eval_unsigned FfAttr.gt_ui2 hord vsize size rc fl = some (ltb (load 8 fl) (load 2 rc))
  eval_unsigned FfAttr.gt_ui1 hord vsize size rc fl = some (ltb (load 8 fl) (load 1 rc))
  eval_unsigned FfAttr.lt_uibe hord vsize size rc fl = some (ltb hord (load 8 fl))
  eval_unsigned FfAttr.lt_ui hord vsize size rc fl = some (ltb hord (load 8 fl))
  eval_unsigned FfAttr.lt_ui8 hord vsize size rc fl = some (ltb (load 8 rc) (load 8 fl))
  eval_unsigned FfAttr.lt_ui4 hord vsize size rc fl = some (ltb (load 4 rc) (load 8 fl))
  eval_unsigned FfAttr.lt_ui2 hord vsize size rc fl = some (ltb (load 2 rc) (load 8 fl))
  eval_unsigned FfAttr.lt_ui1 hord vsize size rc fl = some (ltb (load 1 rc) (load 8 fl))
  eval_unsigned attr hord vsize size rc fl = eval_bits attr hord vsize size rc fl

  -- the record's data, their size, and the leaf's operation, length and value
  unfoldable pub ff_oper_eval : List ℕ → ℕ → FfAttr → ℕ → List ℕ → Option Bool
  unfolding host_order eval_unsigned
  ff_oper_eval rc size opcode vsize fl = elim (host_order opcode size rc) [
    | none ↦ none
    | some hord ↦ eval_unsigned opcode hord vsize size rc fl
  ]
