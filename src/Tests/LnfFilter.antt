-- ===== src/Tests/LnfFilter.antt =====
-- src/lnf_filter.c: names and values that a filter looks up.
use libnf.Base.{
  ℕ, ◌<◌, ◌≡◌, refl, inl, true, false, Bool, List, [], ◌∷◌, some, none, all_from, get_elem?, arith,
  ◌==◌, Option,
}
use libnf.Base.Digits.{digit}
use libnf.Base.Bytes.{codes, same_nocase, store}
use libnf.Fields.{find_field, lnf_fld_parse, split_last, strcmp_equal, strsep}
use libnf.Fields.Table.{entry_of, initializers, lnf_fields_def}
use libnf.Base.Int.{pos}
use libnf.Filter.Types.{FfType, FfAttr, FfOper}
use libnf.Filter.Validate.{ff_validate, validate_eq}
use libnf.Filter.Literal.{Errno, str_to_uint, str_to_uint64, ff_strtoull, saturate_uint}
use libnf.Filter.Node.{
  NodeFields, Node, null, node, ff_new_node, alloc_node, ff_branch_node, fork_leaves, join_leaves,
  join_pairs,
}
use libnf.Filter.Leaf.{Env, ff_type_validate, ff_type_cast, cast_as}
use libnf.Filter.Leaf.Build.{ff_new_leaf, fill_leaf, fork_pair, leaf_oper, leaf_value}
use libnf.Filter.Leaf.Trees.{Each}
use libnf.Filter.Leaf.Typed.{Holds}
use libnf.LnfFilter.Leaves.{ff_new_leaf-ff_lookup_func}
use libnf.Filter.Attr.{FfLvalue}
use libnf.Filter.Leaf.{made}
use libnf.LnfFilter.{described, lookup_func, set_field, set_parsed}
use libnf.LnfFilter.Literals.{Literal, nff_port_map, nff_proto_id_map}
use libnf.LnfFilter.Named.{lookup_func-name}
use libnf.LnfFilter.Typed.{IsField, lookup_func-IsField, no_lvalue}
use libnf.LnfFilter.Values.{find_literal, rval_map_func}
use libnf.LnfFilter.Values.Flags.{flag_letters, has, one_if, rval_map_func-letters}

-- no number is read
abbrev no_number : List ℕ → ℕ
no_number s = 0

abbrev found : List ℕ → FfType → ℕ → ℕ → Option (List ℕ) → FfLvalue
found id type options n literal = record {
  type = type;
  id = id;
  options = options;
  n = n;
  literal = literal;
}

-- AF_INET6 of Linux
inet6_found :
    lookup_func no_number (codes "2") (codes "10") lnf_fields_def (some (codes "inet6")) no_lvalue
    ≡ made (found (0x44 ∷ 0 ∷ 0 ∷ 0 ∷ []) FfType.uint32 0x10 0 (some (codes "10")))
unfolding lookup_func set_parsed set_field described lnf_fld_parse find_field strsep split_last
    strcmp_equal
inet6_found = refl

ip_found :
    lookup_func no_number (codes "2") (codes "10") lnf_fields_def (some (codes "ip")) no_lvalue
    ≡ made (found (0x0c ∷ 0x0d ∷ 0 ∷ 0 ∷ []) FfType.addr 0 0 none)
unfolding lookup_func set_parsed set_field described lnf_fld_parse find_field strsep split_last
    strcmp_equal
ip_found = refl

lookup_func-IsField_example : IsField (found (0x0c ∷ 0x0d ∷ 0 ∷ 0 ∷ []) FfType.addr 0 0 none)
lookup_func-IsField_example =
    lookup_func-IsField no_number (codes "2") (codes "10") (codes "ip")
      (found (0x0c ∷ 0x0d ∷ 0 ∷ 0 ∷ []) FfType.addr 0 0 none) ip_found

lookup_func-name_example :
    lookup_func no_number
      (codes "2")
      (codes "10")
      lnf_fields_def
      (some (codes "tcpflags"))
      no_lvalue
    ≡ made (found (0x69 ∷ 0 ∷ 0 ∷ 0 ∷ []) FfType.uint8 0 0 none)
lookup_func-name_example =
    lookup_func-name no_number (codes "2") (codes "10") 0x69 (entry_of initializers 0x69)
      (codes "tcpflags") FfType.uint8 refl refl (omega arith) (omega arith) refl refl

rval_map_func-letters_example :
    (v : ℕ) × (rval_map_func (some (codes "SAS")) 0x0b ≡ made (store 8 v, 8))
    × (v < 512)
    × ((j d : ℕ) → get_elem? flag_letters j ≡ some d → digit v j ≡ one_if (has d (codes "SAS")))
rval_map_func-letters_example =
    rval_map_func-letters (codes "SAS") 0x0b (inl refl) (omega arith) refl

abbrev is_found : List Literal → ℕ → Literal → Bool
is_found dict i l = elim (find_literal l.name dict) [ none ↦ false | some value ↦ value == l.value ]

-- every name has its number
protocols_found : all_from (is_found nff_proto_id_map) 0 nff_proto_id_map ≡ true
unfolding find_literal same_nocase
protocols_found = refl

ports_found : all_from (is_found nff_port_map) 0 nff_port_map ≡ true
unfolding find_literal same_nocase
ports_found = refl

-- A C library that reads no number.
abbrev unread : Env ℕ
unread = record {
  strtoull = λ s. record { value = 0; used = 0; errno = Errno.clear };
  strtoll = λ s. record { value = pos 0; used = 0; errno = Errno.clear };
  strtod = λ s. record { value = 0; used = 0; errno = Errno.clear };
  huge = λ v. false;
  strtoul_10 = λ s. (0, 0);
  strtoul_16 = λ s. (0, 0);
  pton = record { inet = λ s. none; inet6 = λ s. none };
  strptime = λ s. none;
  mktime = λ t. t;
  rval_map = none;
}

-- what malloc returns for a node
abbrev fresh : NodeFields
fresh = record {
  field = 7;
  value = [];
  vsize = 9;
  type = FfType.mac;
  oper = FfOper.undef;
  opcode = FfAttr.err;
}

abbrev proto_leaf : Node
proto_leaf =
    node
      (record {
        field = 0x18;
        value = 6 ∷ 0 ∷ 0 ∷ 0 ∷ 0 ∷ 0 ∷ 0 ∷ 0 ∷ [];
        vsize = 8;
        type = FfType.uint8;
        oper = FfOper.eq;
        opcode = FfAttr.eq_ui1;
      })
      null null

-- "proto tcp"
proto_made : Each Holds proto_leaf
unfolding ff_new_leaf fill_leaf fork_pair leaf_oper leaf_value ff_type_validate ff_type_cast cast_as
    ff_validate validate_eq str_to_uint str_to_uint64 ff_strtoull saturate_uint ff_new_node
    alloc_node ff_branch_node fork_leaves join_leaves join_pairs store lookup_func set_parsed
    set_field described lnf_fld_parse find_field strsep split_last strcmp_equal rval_map_func
    find_literal same_nocase
proto_made =
    ff_new_leaf-ff_lookup_func unread no_number (codes "2") (codes "10") true true 8 (some fresh)
      (codes "proto") FfOper.noop (codes "tcp") null proto_leaf tt refl
