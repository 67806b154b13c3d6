-- ===== src/Filter/OperEval/Flags.antt =====
-- src/ffilter/fcore.c: the operations on flags and their negations.
use Prim.Native.Nat.{bit_and}
use libnf.Base.{ℕ, ◌≡◌, ◌≢◌, ◌↔◌, ◌⊎◌, not, false, refl, List, Option, none, some, arith, ◌==◌}
use mathlib.Core.Option
use libnf.Base.Bytes.{load}
use libnf.Filter.Types.{FfAttr}
use libnf.Filter.Attr.{ff_negate}
use libnf.Filter.OperEval.Data.{host_number, net_number, from_host-host_number, from_net-net_number}
use libnf.Filter.OperEval.{Reals, ff_oper_eval, host_order, eval_unsigned, eval_bits}

-- The number that an FFAT_IS operation on integers looks at, for data of a size that it can read.
abbrev pub flag_word : FfAttr → ℕ → List ℕ → Option ℕ
flag_word FfAttr.is_ui size rc = host_number size rc
flag_word FfAttr.is_i size rc = host_number size rc
flag_word FfAttr.is_uibe size rc = net_number size rc
flag_word FfAttr.is_ibe size rc = net_number size rc
flag_word FfAttr.is_ui8 size rc = some (load 8 rc)
flag_word FfAttr.is_i8 size rc = some (load 8 rc)
flag_word FfAttr.is_ui4 size rc = some (load 4 rc)
flag_word FfAttr.is_i4 size rc = some (load 4 rc)
flag_word FfAttr.is_ui2 size rc = some (load 2 rc)
flag_word FfAttr.is_i2 size rc = some (load 2 rc)
flag_word FfAttr.is_ui1 size rc = some (load 1 rc)
flag_word FfAttr.is_i1 size rc = some (load 1 rc)
flag_word _ size rc = none

module _ (real : Reals) (rc : List ℕ) (size vsize : ℕ) (fl : List ℕ) where
  -- The test and its negation look at the same number.
  flag_tests :
      (attr : FfAttr) (x : ℕ)
      → flag_word attr size rc ≡ some x
      → (ff_oper_eval real rc size attr vsize fl ≡ some (bit_and x (load 8 fl) == load 8 fl))
        × (ff_oper_eval real rc size (ff_negate attr) vsize fl ≡ some (bit_and x (load 8 fl) == 0))
  unfolding ff_oper_eval ff_negate host_order eval_unsigned eval_bits
  flag_tests FfAttr.err x e = cc
  flag_tests _ x e =
      let host = from_host-host_number size rc in
      let net = from_net-net_number size rc in ground arith

  -- A test of flags passes exactly when all bits asked for are set in the data's number, in the byte
  -- order of its type; its negation passes exactly when none of them is. So where the data hold some
  -- but not all of the bits, both fail; everywhere else exactly one of them passes. The value asked
  -- for is not 0.
  pub flags-ff_negate :
      (attr : FfAttr) (x : ℕ)
      → flag_word attr size rc ≡ some x
      → load 8 fl ≢ 0
      → (ff_oper_eval real rc size attr vsize fl ≡ some (bit_and x (load 8 fl) == load 8 fl))
        × (ff_oper_eval real rc size (ff_negate attr) vsize fl ≡ some (bit_and x (load 8 fl) == 0))
        × (bit_and x (load 8 fl) ≢ 0
            → bit_and x (load 8 fl) ≢ load 8 fl
            → (ff_oper_eval real rc size attr vsize fl ≡ some false)
              × (ff_oper_eval real rc size (ff_negate attr) vsize fl ≡ some false))
        × ((ff_oper_eval real rc size (ff_negate attr) vsize fl
              ≡ Option.map not (ff_oper_eval real rc size attr vsize fl))
            ↔ ((bit_and x (load 8 fl) ≡ 0) ⊎ (bit_and x (load 8 fl) ≡ load 8 fl)))
  flags-ff_negate attr x e pos =
      let (all_set, none_set) = flag_tests attr x e in
      rw (all_set, none_set)
        (
          refl,
          refl,
          λ some_set not_all. (ground arith, ground arith),
          (λ h. ground arith, λ h. ground arith),
        )
