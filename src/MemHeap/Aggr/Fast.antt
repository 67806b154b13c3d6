-- ===== src/MemHeap/Aggr/Fast.antt =====
-- src/memheap.c: the fast aggregation against the general one on the same fields.
use libnf.Base.{ℕ, ◌≡◌, refl, Bool, true, false, List, [], ◌∷◌, if◌then◌else◌}
use libnf.MemHeap.FieldList.{AggrFunc, Field, aggr_sum, aggr_min, aggr_max}
use libnf.MemHeap.Aggr.{Doubles, patch, aggr_bytes, aggr_callback, fastaggr_callback}

abbrev pub fast_field : ℕ → ℕ → ℕ → AggrFunc → Field
fast_field field offset flag func = record {
  field = field;
  size = 8;
  type = 0x64;
  offset = offset;
  aggr_flag = flag;
  sort_flag = 0;
  numbits = 0;
  numbits6 = 0;
  aggr_func = func;
}

-- The value list that `lnf_mem_fastaggr` sets up: LNF_FLD_FIRST, LNF_FLD_LAST, LNF_FLD_DOCTETS,
-- LNF_FLD_DPKTS and LNF_FLD_AGGR_FLOWS.
abbrev pub fast_list : List Field
fast_list =
    fast_field 1 0 1 (aggr_min 8)
    ∷ fast_field 2 8 2 (aggr_max 8)
    ∷ fast_field 4 16 3 (aggr_sum 8)
    ∷ fast_field 5 24 3 (aggr_sum 8)
    ∷ fast_field 8 32 3 (aggr_sum 8)
    ∷ []

patch-if :
    (c : Bool) (offset : ℕ) (new buf : List ℕ)
    → patch offset (if c then new else []) buf ≡ (if c then patch offset new buf else buf)
unfolding patch
patch-if true offset new buf = refl
patch-if false offset new buf = refl

-- The fast aggregation leaves in every row what the general one leaves with the fields of the fast
-- mode in their order.
pub fastaggr_callback-aggr_callback :
    (doubles : Doubles) (hval uval : List ℕ)
    → fastaggr_callback hval uval ≡ aggr_callback doubles fast_list hval uval
unfolding fastaggr_callback aggr_callback aggr_bytes
fastaggr_callback-aggr_callback doubles h u = rw (patch-if, patch-if) refl
