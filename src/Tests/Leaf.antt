-- ===== src/Tests/Leaf.antt =====
-- Leaves of the filter, on small inputs.
use libnf.Base.{
  ℕ, ◌-◌, ◌≡◌, refl, List, [], ◌∷◌, Option, none, some, true, false, length, leb, if◌then◌else◌,
}
use libnf.Base.Bytes.{store, bytes}
use libnf.Base.Int.{pos}
use libnf.Filter.Types.{FfType, FfAttr, FfOper}
use libnf.Filter.Attr.{FfLvalue}
use libnf.Filter.Validate.{ff_validate, validate_eq}
use libnf.Filter.Literal.{Errno, str_to_uint, str_to_uint64, ff_strtoull, saturate_uint}
use libnf.Filter.Node.{
  NodeFields, Node, null, node, ff_new_node, alloc_node, ff_duplicate_node, copy_node,
  ff_branch_node, fork_leaves, join_leaves, join_pairs,
}
use libnf.Filter.Leaf.{Env, ff_type_validate, ff_type_cast, cast_as}
use libnf.Filter.Leaf.Build.{ff_new_leaf, fill_leaf, fork_pair, leaf_oper, leaf_value}
use libnf.Filter.Leaf.Copy.{copy_of, needed, ff_duplicate_node-copy_of}
use libnf.Filter.Leaf.Trees.{Each}
use libnf.Filter.Leaf.Typed.{Holds}
use libnf.Filter.Leaf.Leaves.{ff_new_leaf-Each}

-- what malloc returns for a node
abbrev fresh : NodeFields
fresh = record {
  field = 7;
  value = [];
  vsize = 9;
  type = FfType.mac;
  oper = FfOper.undef;
  opcode = FfAttr.err;
}

-- A C library that reads every number as 80.
abbrev eighty : Env ℕ
eighty = record {
  strtoull = λ s. record { value = 80; used = length s; errno = Errno.clear };
  strtoll = λ s. record { value = pos 80; used = length s; errno = Errno.clear };
  strtod = λ s. record { value = 80; used = length s; errno = Errno.clear };
  huge = λ v. false;
  strtoul_10 = λ s. (80, length s);
  strtoul_16 = λ s. (80, length s);
  pton = record { inet = λ s. none; inet6 = λ s. none };
  strptime = λ s. none;
  mktime = λ t. t;
  rval_map = none;
}

-- the pair of the source and destination port
abbrev port_pair : List ℕ → Option FfLvalue
port_pair name =
    some
      (record { type = FfType.uint16; id = 3 ∷ 4 ∷ 0 ∷ 0 ∷ []; options = 0; n = 0; literal = none })

abbrev port_leaf : ℕ → Node
port_leaf id =
    node
      (record {
        field = id;
        value = 80 ∷ 0 ∷ 0 ∷ 0 ∷ 0 ∷ 0 ∷ 0 ∷ 0 ∷ [];
        vsize = 8;
        type = FfType.uint16;
        oper = FfOper.eq;
        opcode = FfAttr.eq_ui2;
      })
      null null

abbrev port_tree : Node
port_tree =
    node (record fresh { vsize = 0; type = FfType.unsupported; oper = FfOper.or }) (port_leaf 3)
      (port_leaf 4)

-- "port = 80"
ports_made : Each Holds port_tree
unfolding ff_new_leaf fill_leaf fork_pair leaf_oper leaf_value ff_type_validate ff_type_cast cast_as
    ff_validate validate_eq str_to_uint str_to_uint64 ff_strtoull saturate_uint ff_new_node
    alloc_node ff_duplicate_node copy_node bytes ff_branch_node fork_leaves join_leaves join_pairs
    store
ports_made =
    ff_new_leaf-Each eighty tt true true (some port_pair) 8 (some fresh) (b'p' ∷ []) FfOper.eq
      (b'8' ∷ b'0' ∷ []) null port_tree tt refl

ff_duplicate_node-copy_of_example :
    ff_duplicate_node 4 port_tree
    ≡ (if leb (needed port_tree) 4 then some (4 - needed port_tree, copy_of port_tree) else none)
ff_duplicate_node-copy_of_example = ff_duplicate_node-copy_of 4 port_tree
