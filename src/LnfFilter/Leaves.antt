-- ===== src/LnfFilter/Leaves.antt =====
-- src/lnf_filter.c with src/ffilter/ffilter.c: the leaves of a filter with the callbacks that
-- lnf_filter_init_v2 sets.
use libnf.Base.{
  ℕ, ◌≤◌, ◌≡◌, sym, ap, inl, inr, Bool, ◌||◌, List, Option, none, some, ltb, ◌==◌, length, arith,
  Bool-cases,
}
use libnf.Base.Bytes.{length-store}
use libnf.Filter.Types.{FfType, FfOper}
use libnf.Filter.Attr.{FfLvalue}
use libnf.Filter.Node.{NodeFields, Node}
use libnf.Filter.Leaf.{Env, Made, made, error, wild}
use libnf.Filter.Leaf.Build.{ff_new_leaf}
use libnf.Filter.Leaf.Leaves.{IsValues, ff_new_leaf-Each}
use libnf.Filter.Leaf.Trees.{Each}
use libnf.Filter.Leaf.Typed.{Holds, IsMap}
use libnf.Fields.Table.{lnf_fields_def}
use libnf.LnfFilter.{lookup_func}
use libnf.LnfFilter.Literals.{nff_port_map, nff_proto_id_map}
use libnf.LnfFilter.Typed.{no_lvalue}
use libnf.LnfFilter.Values.{add_flags, find_literal, map_flags, map_value, put_value, rval_map_func}

-- what a callback gives with FF_OK
abbrev pub given : {A : Type 0} → Made A → Option A
given (made a) = some a
given (error e) = none
given wild = none

-- `ff_options->ff_lookup_func`, on the lvalue that ff_new_leaf clears
abbrev pub ff_lookup_func : (List ℕ → ℕ) → List ℕ → List ℕ → List ℕ → Option FfLvalue
ff_lookup_func strtol inet inet6 s =
    given (lookup_func strtol inet inet6 lnf_fields_def (some s) no_lvalue)

-- `ff_options->ff_rval_map_func`
abbrev pub ff_rval_map_func : List ℕ → FfType → ℕ → Option (List ℕ × ℕ)
ff_rval_map_func valstr type id = given (rval_map_func (some valstr) id)

abbrev pub with_callbacks : {T : Type 0} → Env T → Env T
with_callbacks env = record env { rval_map = some ff_rval_map_func }

-- the size is not above the number of bytes
abbrev Fits : Made (List ℕ × ℕ) → Type 0
Fits (made (value, vsize)) = vsize ≤ length value
Fits (error e) = Unit
Fits wild = Unit

put_value-Fits : (o : Option ℕ) → Fits (put_value o)
put_value-Fits none = tt
put_value-Fits (some val) = omega (arith, length-store 8 val)

map_flags-Fits : (s : List ℕ) → Fits (map_flags s)
map_flags-Fits s = elim (Bool-cases (ltb 9 (length s))) [
  | inl e ↦ rw e tt
  | inr e ↦ rw e (put_value-Fits (add_flags 0 s))
]

map_value-Fits : (s : List ℕ) (id : ℕ) → Fits (map_value s id)
map_value-Fits s id = elim (Bool-cases (id == 0x18)) [
  | inl e ↦ rw e (put_value-Fits (find_literal s nff_proto_id_map))
  | inr e ↦ rw e (elim (Bool-cases (id == 0x0b || id == 0x69)) [
    | inl e ↦ rw e (map_flags-Fits s)
    | inr e ↦ rw e (elim (Bool-cases (id == 0x09 || id == 0x0a)) [
      | inl e ↦ rw e (put_value-Fits (find_literal s nff_port_map))
      | inr e ↦ rw e tt
    ])
  ])
]

rval_map_func-Fits : (s : List ℕ) (id : ℕ) → Fits (rval_map_func (some s) id)
unfolding rval_map_func
rval_map_func-Fits s id = elim (Bool-cases (id == 0)) [
  | inl e ↦ rw e tt
  | inr e ↦ rw e (map_value-Fits s id)
]

given-Fits :
    (m : Made (List ℕ × ℕ)) (value : List ℕ) (vsize : ℕ)
    → Fits m
    → given m ≡ some (value, vsize)
    → vsize ≤ length value
given-Fits (made (bs, n)) value vsize h e =
    let put : List ℕ × ℕ = (bs, n) in
    let got : List ℕ × ℕ = (value, vsize) in
    let same : put ≡ got = cc e in
    let bytes : bs ≡ value = ap (λ p. p.0) same in
    let size : n ≡ vsize = ap (λ p. p.1) same in rw (sym bytes, sym size) h
given-Fits (error x) value vsize h e = cc e
given-Fits wild value vsize h e = cc e

ff_rval_map_func-IsMap : IsMap (some ff_rval_map_func)
ff_rval_map_func-IsMap s type id value vsize =
    given-Fits (rval_map_func (some s) id) value vsize (rval_map_func-Fits s id)

-- With the callbacks of this library, every node of the tree that ff_new_leaf makes of a field's
-- name, an operation and a value holds at least as many bytes as its value's size says: for
-- numbers, names of protocols, ports and flags, constants, lists of values and pairs of fields.
-- The list is one that ff_new_mval built.
pub ff_new_leaf-ff_lookup_func :
    {T : Type 0} (env : Env T) (strtol : List ℕ → ℕ) (inet inet6 : List ℕ) (alloc alloc_2 : Bool)
    (memory : ℕ) (fresh : Option NodeFields) (fieldstr : List ℕ) (oper : FfOper) (valstr : List ℕ)
    (list n : Node)
    → IsValues list
    → ff_new_leaf
        (with_callbacks env)
        alloc
        alloc_2
        (some (ff_lookup_func strtol inet inet6))
        memory
        fresh
        fieldstr
        oper
        valstr
        list
      ≡ made n
    → Each Holds n
ff_new_leaf-ff_lookup_func env strtol inet inet6 alloc alloc_2 memory fresh fieldstr oper valstr
      list n =
    ff_new_leaf-Each (with_callbacks env) ff_rval_map_func-IsMap alloc alloc_2
      (some (ff_lookup_func strtol inet inet6)) memory fresh fieldstr oper valstr list n
