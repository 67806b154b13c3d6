-- ===== src/Filter/Attr/Negate.antt =====
-- src/ffilter/fcore.c, `ff_negate`: the pairs of operations that it exchanges.
use libnf.Base.{◌≡◌, refl, ◌≢◌, ◌⊎◌, inl, inr, arith}
use libnf.Filter.Types.{FfAttr}
use libnf.Filter.Attr.{ff_negate}

pub err-cases : (a : FfAttr) → (a ≡ FfAttr.err) ⊎ (a ≢ FfAttr.err)
err-cases FfAttr.err = inl refl
err-cases _ = inr (λ e. cc)

-- An operation that has a negation is the negation of its negation.
pub ff_negate-ff_negate : (a : FfAttr) → ff_negate a ≢ FfAttr.err → ff_negate (ff_negate a) ≡ a
unfolding ff_negate
ff_negate-ff_negate FfAttr.err h = absurd (h refl)
ff_negate-ff_negate _ h = ground arith
