-- ===== src/Filter/OperEval/Compare.antt =====
-- src/ffilter/fcore.c: the comparisons of integers, from the check of a leaf to its evaluation.
use libnf.Base.{ℕ, ◌≡◌, refl, sym, List, Option, none, some, arith, ltb, ◌==◌}
use libnf.Base.Int.{ℤ, ltb_ℤ}
use libnf.Base.Bytes.{load, signed}
use libnf.Filter.Types.{FfType, FfOper}
use libnf.Filter.Attr.{FfLvalue}
use libnf.Filter.Validate.{validate_eq, validate_gt, validate_lt, ff_validate}
use libnf.Filter.OperEval.Data.{host_number, net_number, from_host-host_number, from_net-net_number}
use libnf.Filter.OperEval.{
  Reals, eq_ℤ, from_net, from_host, host_order, eval_signed, eval_bits, eval_unsigned, ff_oper_eval,
}

-- The number in data of an unsigned type, where `host` and `net` are the numbers of the two byte
-- orders; `none` for other types.
abbrev pub value_by : Option ℕ → Option ℕ → FfType → List ℕ → Option ℕ
value_by host net FfType.unsigned rc = host
value_by host net FfType.unsigned_big rc = net
value_by host net FfType.timestamp rc = host
value_by host net FfType.timestamp_big rc = net
value_by host net FfType.uint64 rc = some (load 8 rc)
value_by host net FfType.uint32 rc = some (load 4 rc)
value_by host net FfType.uint16 rc = some (load 2 rc)
value_by host net FfType.uint8 rc = some (load 1 rc)
value_by host net _ rc = none

-- the number of the type's byte order; `none` also for sizes that cannot be read
abbrev pub unsigned_value : FfType → ℕ → List ℕ → Option ℕ
unsigned_value type size rc = value_by (host_number size rc) (net_number size rc) type rc

-- the same for signed types of a fixed size
abbrev pub signed_value : FfType → List ℕ → Option ℤ
signed_value FfType.int64 rc = some (signed 64 (load 8 rc))
signed_value FfType.int32 rc = some (signed 32 (load 4 rc))
signed_value FfType.int16 rc = some (signed 16 (load 2 rc))
signed_value FfType.int8 rc = some (signed 8 (load 1 rc))
signed_value _ rc = none

module _ (real : Reals) (rc : List ℕ) (size vsize : ℕ) (fl : List ℕ) (value : List ℕ)
    (info : FfLvalue) where
  unsigned_tests :
      (type : FfType) (x : ℕ)
      → value_by (from_host size rc) (from_net size rc) type rc ≡ some x
      → (ff_oper_eval real rc size (ff_validate type FfOper.eq value info).0 vsize fl
          ≡ some (x == load 8 fl))
        × (ff_oper_eval real rc size (ff_validate type FfOper.gt value info).0 vsize fl
            ≡ some (ltb (load 8 fl) x))
        × (ff_oper_eval real rc size (ff_validate type FfOper.lt value info).0 vsize fl
            ≡ some (ltb x (load 8 fl)))
  unfolding ff_validate validate_eq validate_gt validate_lt ff_oper_eval host_order eval_unsigned
      eval_bits
  unsigned_tests FfType.addr x e = cc
  unsigned_tests FfType.mpls x e = cc
  unsigned_tests _ x e = ground arith

  -- A leaf of an unsigned type that ff_validate accepted for =, > or < compares the number in the
  -- record's data with the leaf's 64-bit value in that way, as long as the data have a size that can
  -- be read. That number has the lowest byte first for the types in host order, of 1, 2, 4 or 8 bytes
  -- or of the type's own size, and the highest byte first for the types in network order.
  pub ff_oper_eval-unsigned :
      (type : FfType) (x : ℕ)
      → unsigned_value type size rc ≡ some x
      → (ff_oper_eval real rc size (ff_validate type FfOper.eq value info).0 vsize fl
          ≡ some (x == load 8 fl))
        × (ff_oper_eval real rc size (ff_validate type FfOper.gt value info).0 vsize fl
            ≡ some (ltb (load 8 fl) x))
        × (ff_oper_eval real rc size (ff_validate type FfOper.lt value info).0 vsize fl
            ≡ some (ltb x (load 8 fl)))
  ff_oper_eval-unsigned type x e =
      unsigned_tests type x
        (rw (sym (from_host-host_number size rc), sym (from_net-net_number size rc)) at e)

  -- A leaf of a signed type of a fixed size that ff_validate accepted for =, > or < compares the signed
  -- number in the record's data with the leaf's 64-bit signed value in that way.
  pub ff_oper_eval-signed :
      (type : FfType) (x : ℤ)
      → signed_value type rc ≡ some x
      → (ff_oper_eval real rc size (ff_validate type FfOper.eq value info).0 vsize fl
          ≡ some (eq_ℤ x (signed 64 (load 8 fl))))
        × (ff_oper_eval real rc size (ff_validate type FfOper.gt value info).0 vsize fl
            ≡ some (ltb_ℤ (signed 64 (load 8 fl)) x))
        × (ff_oper_eval real rc size (ff_validate type FfOper.lt value info).0 vsize fl
            ≡ some (ltb_ℤ x (signed 64 (load 8 fl))))
  unfolding ff_validate validate_eq validate_gt validate_lt ff_oper_eval host_order eval_unsigned
      eval_bits eval_signed
  ff_oper_eval-signed FfType.int64 x e =
      let this : x ≡ signed 64 (load 8 rc) = cc in rw this (refl, refl, refl)
  ff_oper_eval-signed FfType.int32 x e =
      let this : x ≡ signed 32 (load 4 rc) = cc in rw this (refl, refl, refl)
  ff_oper_eval-signed FfType.int16 x e =
      let this : x ≡ signed 16 (load 2 rc) = cc in rw this (refl, refl, refl)
  ff_oper_eval-signed FfType.int8 x e =
      let this : x ≡ signed 8 (load 1 rc) = cc in rw this (refl, refl, refl)
  ff_oper_eval-signed _ x e = cc
