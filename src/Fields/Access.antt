-- ===== src/Fields/Access.antt =====
-- src/fields.h, src/libnf.c: what the rest of the program asks of the table of fields, which is an
-- argument; a number that no entry has gives 0.
use libnf.Base.{
  ℕ, zero, suc, Bool, false, not, ◌&&◌, List, [], ◌∷◌, Option, none, some, ltb, ◌==◌, if◌then◌else◌,
  take, get_elem?,
}
use libnf.Fields.{FieldDef}
use libnf.MemHeap.Setup.{Fields}

abbrev pub type_of : Option FieldDef → ℕ
type_of none = 0
type_of (some d) = d.type

abbrev pub aggr_of : Option FieldDef → ℕ
aggr_of none = 0
aggr_of (some d) = d.default_aggr

-- both fields of a pair are set
abbrev pub is_pair : ℕ × ℕ → Bool
is_pair (first, second) = not (first == 0) && not (second == 0)

abbrev pub pair_of : Option FieldDef → Bool
pair_of none = false
pair_of (some d) = is_pair d.pair_field

-- the numbers before LNF_FLD_ZERO_
abbrev pub until_zero : List ℕ → List ℕ
until_zero [] = []
until_zero (zero ∷ deps) = []
until_zero (suc n ∷ deps) = suc n ∷ until_zero deps

-- The fields that `__lnf_fld_calc_dep` gives from 0 on; MAX_CALC_DEPS is 4.
abbrev pub deps_of : Option FieldDef → List ℕ
deps_of none = []
deps_of (some d) = until_zero (take 4 d.calc_dependency)

-- LNF_NONE is 0, LNF_FLD_TERM_ is 0xFF
abbrev pub lnf_fld_type : List FieldDef → ℕ → ℕ
lnf_fld_type table field = if ltb 0xFF field then 0 else type_of (get_elem? table field)

-- what a store asks of the table
abbrev pub table_fields : List FieldDef → Fields
table_fields table = record {
  fld_type = lnf_fld_type table;
  fld_aggr = λ field. aggr_of (get_elem? table field);
  fld_pair = λ field. pair_of (get_elem? table field);
  calc_deps = λ field. deps_of (get_elem? table field);
}
