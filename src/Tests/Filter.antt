-- ===== src/Tests/Filter.antt =====
-- src/ffilter on small filters.
use Prim.Native.Nat.{bit_and}
use libnf.Base.{
  ◌≢◌, false, ℕ, ◌≡◌, refl, ◌↔◌, ◌⊎◌, not, List, [], ◌∷◌, Option, none, some, arith, ltb, ◌==◌,
}
use mathlib.Core.Option
use libnf.Base.Bytes.{load}
use libnf.Filter.Types.{FfType, FfAttr, FfOper}
use libnf.Filter.Attr.{ff_negate}
use libnf.Filter.Attr.Negate.{ff_negate-ff_negate}
use libnf.Filter.OperEval.{Reals, ff_oper_eval, host_order, eval_unsigned, eval_bits}
use libnf.Base.Bytes.{signed}
use libnf.Base.Int.{negsuc, ltb_ℤ}
use libnf.Filter.Attr.{FfLvalue}
use libnf.Filter.Validate.{ff_validate}
use libnf.Filter.OperEval.{eq_ℤ}
use libnf.Filter.OperEval.Compare.{ff_oper_eval-unsigned, ff_oper_eval-signed}
use libnf.Filter.OperEval.Flags.{flags-ff_negate}
use libnf.Filter.Node.{
  NodeFields, Node, null, ff_eval, ff_eval_node, node_result, eval_leaf, eval_data,
}
use libnf.Filter.Node.Meaning.{
  Expr, anything, leaf, negation, conjunction, build, denote, ff_eval-build,
}

-- integers in place of the machine's doubles
abbrev integers : Reals
integers = record { real_eq = ◌==◌; real_lt = ltb }

-- a record is the bytes of its only field
abbrev whole_record : List ℕ → ℕ → Option (List ℕ × ℕ)
whole_record rec field = some (rec, 8)

abbrev leaf_of : FfAttr → NodeFields
leaf_of attr = record {
  field = 1;
  value = 2 ∷ [];
  vsize = 8;
  type = FfType.uint64;
  oper = FfOper.eq;
  opcode = attr;
}

abbrev cleared : NodeFields
cleared = leaf_of FfAttr.err

-- `any and not (flags 2)`
abbrev has_no_flag : Expr
has_no_flag = conjunction anything (negation (leaf (leaf_of FfAttr.is_ui8) null null))

ff_eval-build_example :
    (n : Node) × (build (some cleared) has_no_flag ≡ some n)
    × (ff_eval integers whole_record [] n (6 ∷ [])
        ≡ denote integers whole_record [] has_no_flag (6 ∷ []))
unfolding ff_negate ff_eval_node node_result eval_leaf eval_data ff_oper_eval host_order
    eval_unsigned eval_bits load
ff_eval-build_example =
    ff_eval-build integers whole_record [] cleared refl has_no_flag (6 ∷ []) (tt, λ no. refl)

-- the data have one of the two bits asked for
flags-ff_negate_example :
    let attr = FfAttr.is_ui in
    let tests = ff_oper_eval integers (2 ∷ []) 1 attr 8 (3 ∷ []) in
    let negated = ff_oper_eval integers (2 ∷ []) 1 (ff_negate attr) 8 (3 ∷ []) in
    let common = bit_and 2 (load 8 (3 ∷ [])) in
    (tests ≡ some (common == load 8 (3 ∷ [])))
    × (negated ≡ some (common == 0))
    × (common ≢ 0 → common ≢ load 8 (3 ∷ []) → (tests ≡ some false) × (negated ≡ some false))
    × ((negated ≡ Option.map not tests) ↔ ((common ≡ 0) ⊎ (common ≡ load 8 (3 ∷ []))))
unfolding load
flags-ff_negate_example =
    flags-ff_negate integers (2 ∷ []) 1 8 (3 ∷ []) FfAttr.is_ui 2 refl (λ e. omega (arith, e))

negated_twice : ff_negate (ff_negate FfAttr.is_ui) ≡ FfAttr.is_ui
unfolding ff_negate
negated_twice = ff_negate-ff_negate FfAttr.is_ui (λ e. cc)

abbrev port : FfLvalue
port = record { type = FfType.uint16; id = 1 ∷ []; options = 0; n = 0; literal = none }

ff_oper_eval-unsigned_example :
    (ff_oper_eval integers
        (80 ∷ 1 ∷ [])
        2
        (ff_validate FfType.uint16 FfOper.eq (80 ∷ 1 ∷ []) port).0
        8
        (80 ∷ 1 ∷ [])
      ≡ some (336 == load 8 (80 ∷ 1 ∷ [])))
    × (ff_oper_eval integers
          (80 ∷ 1 ∷ [])
          2
          (ff_validate FfType.uint16 FfOper.gt (80 ∷ 1 ∷ []) port).0
          8
          (80 ∷ 1 ∷ [])
        ≡ some (ltb (load 8 (80 ∷ 1 ∷ [])) 336))
    × (ff_oper_eval integers
          (80 ∷ 1 ∷ [])
          2
          (ff_validate FfType.uint16 FfOper.lt (80 ∷ 1 ∷ []) port).0
          8
          (80 ∷ 1 ∷ [])
        ≡ some (ltb 336 (load 8 (80 ∷ 1 ∷ []))))
unfolding load
ff_oper_eval-unsigned_example =
    ff_oper_eval-unsigned integers (80 ∷ 1 ∷ []) 2 8 (80 ∷ 1 ∷ []) (80 ∷ 1 ∷ []) port FfType.uint16
      336 refl

ff_oper_eval-signed_example :
    (ff_oper_eval integers
        (255 ∷ [])
        1
        (ff_validate FfType.int8 FfOper.eq (5 ∷ []) port).0
        8
        (5 ∷ [])
      ≡ some (eq_ℤ (negsuc 0) (signed 64 (load 8 (5 ∷ [])))))
    × (ff_oper_eval integers
          (255 ∷ [])
          1
          (ff_validate FfType.int8 FfOper.gt (5 ∷ []) port).0
          8
          (5 ∷ [])
        ≡ some (ltb_ℤ (signed 64 (load 8 (5 ∷ []))) (negsuc 0)))
    × (ff_oper_eval integers
          (255 ∷ [])
          1
          (ff_validate FfType.int8 FfOper.lt (5 ∷ []) port).0
          8
          (5 ∷ [])
        ≡ some (ltb_ℤ (negsuc 0) (signed 64 (load 8 (5 ∷ [])))))
unfolding load
ff_oper_eval-signed_example =
    ff_oper_eval-signed integers (255 ∷ []) 1 8 (5 ∷ []) (5 ∷ []) port FfType.int8 (negsuc 0) refl
