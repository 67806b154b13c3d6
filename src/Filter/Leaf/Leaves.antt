-- ===== src/Filter/Leaf/Leaves.antt =====
-- src/ffilter/ffilter.c: every node of the tree that ff_new_leaf returns holds its value.
use libnf.Base.{
  ℕ, ◌≡◌, refl, sym, inl, inr, Bool, List, [], ◌∷◌, Option, none, some, ◌==◌, drop, Bool-cases,
  Option-cases, get_or,
}
use libnf.Base.Bytes.{c_string}
use libnf.Filter.Types.{FfType, FfOper}
use libnf.Filter.Attr.{FfLvalue, has_option, opts_const}
use libnf.Filter.Node.{
  NodeFields, Node, null, node, ff_new_node, fork_leaves, join_leaves, ff_branch_node,
}
use libnf.Filter.Leaf.{FfError, Env, Made, made, error, wild, ff_type_validate}
use libnf.Filter.Leaf.Build.{
  transform_list, ff_transform_mval, leaf_oper, leaf_value, fill_leaf, given_value, without_value,
  constant, fork_pair, finish_leaf, ff_new_leaf, field_name, root_oper,
}
use libnf.Filter.Leaf.Typed.{Holds, IsMap, of_made, ff_type_validate-Holds}
use libnf.Filter.Leaf.Copy.{fork_leaves-Each}
use libnf.Filter.Leaf.Trees.{Each, ff_new_node-Each, join_leaves-Each}

-- what hangs on the left of a list of values, which the parser leaves empty
abbrev pub IsValues : Node → Type 0
IsValues null = Unit
IsValues (node f l r) = (l ≡ null) × IsValues r

module _ {T : Type 0} (env : Env T) (map_sizes : IsMap env.rval_map) (alloc alloc_2 : Bool) where
  transform_list-Each :
      (type : FfType) (field : ℕ) (info : FfLvalue) (list n : Node)
      → IsValues list
      → transform_list env alloc alloc_2 type field info list ≡ made n
      → Each Holds n
  unfolding transform_list
  transform_list-Each type field info null n hl h = let same : null ≡ n = cc h in rw (sym same) tt
  transform_list-Each type field info (node f l r) n hl h =
      let g = record f { type = type; field = field } in
      let rest = transform_list env alloc alloc_2 type field info r in
      let behind : NodeFields → Node → Made Node = λ a k. made (node a l k) in
      let further : NodeFields → Made Node =
        λ a. elim rest [ made k ↦ behind a k | error e ↦ error e | wild ↦ wild ] in
      let (a, e, h') =
        of_made (ff_type_validate env alloc alloc_2 (c_string f.value) g info) further n h in
      let (k, e', h'') = of_made rest (behind a) n h' in
      let same : node a l k ≡ n = cc h'' in
      let more = transform_list-Each type field info r k hl.1 e' in
      let first =
        ff_type_validate-Holds env map_sizes alloc alloc_2 g a (c_string f.value) info e in
      rw (sym same) (first, rw hl.0 tt, more)

  constant-Holds :
      (f g : NodeFields) (info : FfLvalue) (x : FfError)
      → constant env alloc alloc_2 f info x ≡ made g
      → Holds g
  constant-Holds f g info x h = elim (Bool-cases (has_option info opts_const)) [
    | inr e ↦ cc (rw e at h)
    | inl e ↦ elim (Option-cases info.literal) [
      | inl l ↦ cc (rw (e, l) at h)
      | inr (lit, l) ↦
          ff_type_validate-Holds env map_sizes alloc alloc_2 f g lit info (rw (e, l) at h)
    ]
  ]

  without_value-Holds :
      (oper : FfOper) (str : List ℕ) (f g : NodeFields) (info : FfLvalue) (x : FfError)
      → Holds f
      → without_value env alloc alloc_2 oper str f info x ≡ made g
      → Holds g
  without_value-Holds FfOper.exists [] f g info x hf h = let same : f ≡ g = cc h in rw (sym same) hf
  without_value-Holds FfOper.exists (c ∷ s) f g info x hf h = cc h
  without_value-Holds _ str f g info x hf h = constant-Holds f g info x h

  given_value-Holds :
      (str : List ℕ) (f g : NodeFields) (info : FfLvalue)
      → given_value env alloc alloc_2 str f info ≡ made g
      → Holds g
  given_value-Holds [] f g info h = cc h
  given_value-Holds (c ∷ s) f g info h =
      ff_type_validate-Holds env map_sizes alloc alloc_2 f g (c ∷ s) info h

  leaf_value-Holds :
      (oper : FfOper) (str : List ℕ) (f g : NodeFields) (info : FfLvalue)
      → Holds f
      → leaf_value env alloc alloc_2 oper str f info ≡ made g
      → Holds g
  unfolding leaf_value
  leaf_value-Holds oper str f g info hf h = from (given_value env alloc alloc_2 str f info) refl
    where
      from : (m : Made NodeFields) → given_value env alloc alloc_2 str f info ≡ m → Holds g
      from (made a) e =
          let same : a ≡ g = cc (rw (e, leaf_value) at h) in
          rw (sym same) (given_value-Holds str f a info e)
      from (error x) e = without_value-Holds oper str f g info x hf (rw (e, leaf_value) at h)
      from wild e = cc (rw (e, leaf_value) at h)

  fill_leaf-Each :
      (oper : FfOper) (f : NodeFields) (str : List ℕ) (list n : Node) (info : FfLvalue)
      → Holds f
      → IsValues list
      → fill_leaf env alloc alloc_2 oper f str list info ≡ made n
      → Each Holds n
  unfolding fill_leaf ff_transform_mval
  fill_leaf-Each FfOper.among f str null n info hf hl h = cc h
  fill_leaf-Each FfOper.among f str (node g l r) n info hf hl h =
      let list = transform_list env alloc alloc_2 f.type f.field info (node g l r) in
      let (k, e, h') = of_made list (λ k. made (node f null k)) n h in
      let same : node f null k ≡ n = cc h' in
      rw (sym same) (hf, tt, transform_list-Each f.type f.field info (node g l r) k hl e)
  fill_leaf-Each oper f str list n info hf hl h =
      let leaf = leaf_value env alloc alloc_2 oper str f info in
      let (a, e, h') = of_made leaf (λ a. made (node a null null)) n h in
      let same : node a null null ≡ n = cc h' in
      rw (sym same) (leaf_value-Holds oper str f a info hf e, tt, tt)

  fork_pair-Each :
      (memory : ℕ) (fresh : Option NodeFields) (fieldstr : List ℕ) (info : FfLvalue) (leaf n : Node)
      → Each Holds leaf
      → fork_pair env alloc alloc_2 memory fresh fieldstr info leaf ≡ made n
      → Each Holds n
  unfolding fork_pair ff_branch_node
  fork_pair-Each memory fresh fieldstr info leaf n hl h =
      elim (Bool-cases (get_or info.id 1 0 == 0)) [
        | inl e ↦ let same : leaf ≡ n = cc (rw (e, fork_pair) at h) in rw (sym same) hl
        | inr e ↦ elim (Option-cases (fork_leaves memory leaf (drop 1 info.id))) [
          | inl c ↦ cc (rw (e, ff_branch_node, c, fork_pair) at h)
          | inr (leaves, c) ↦
              elim (Option-cases
                (join_leaves 2 fresh (root_oper env alloc alloc_2 fieldstr) (leaf ∷ leaves))) [
                  | inl q ↦ cc (rw (e, ff_branch_node, c, q, fork_pair) at h)
                  | inr (root, q) ↦
                      let same : root ≡ n = cc (rw (e, ff_branch_node, c, q, fork_pair) at h) in
                      let all = fork_leaves-Each memory leaf (drop 1 info.id) leaves hl c in
                      rw (sym same) (join_leaves-Each 2 fresh _ (leaf ∷ leaves) root (hl, all) q)
                ]
        ]
      ]

  finish_leaf-Each :
      (memory : ℕ) (fresh : Option NodeFields) (fieldstr str : List ℕ) (list leaf n : Node)
      (info : FfLvalue)
      → Each Holds leaf
      → IsValues list
      → finish_leaf env alloc alloc_2 memory fresh fieldstr str list info (some leaf) ≡ made n
      → Each Holds n
  finish_leaf-Each memory fresh fieldstr str list null n info hl hv h = cc h
  finish_leaf-Each memory fresh fieldstr str list (node f l r) n info hl hv h =
      let g = record f { type = info.type; field = get_or info.id 0 0 } in
      let fork : Node → Made Node = λ k. fork_pair env alloc alloc_2 memory fresh fieldstr info k in
      let (k, e, h') = of_made (fill_leaf env alloc alloc_2 g.oper g str list info) fork n h in
      fork_pair-Each memory fresh fieldstr info k n
        (fill_leaf-Each g.oper g str list k info hl.0 hv e) h'

  -- Every node of the tree that ff_new_leaf makes has at least as many bytes of its value as it says.
  -- The callback of the options has to give the size of what it wrote, and the list is one that
  -- ff_new_mval built.
  pub ff_new_leaf-Each :
      (lookup : Option (List ℕ → Option FfLvalue)) (memory : ℕ) (fresh : Option NodeFields)
      (fieldstr : List ℕ) (oper : FfOper) (valstr : List ℕ) (list n : Node)
      → IsValues list
      → ff_new_leaf env alloc alloc_2 lookup memory fresh fieldstr oper valstr list ≡ made n
      → Each Holds n
  unfolding ff_new_leaf
  ff_new_leaf-Each none memory fresh fieldstr oper valstr list n hv h = cc h
  ff_new_leaf-Each (some lookup) memory fresh fieldstr oper valstr list n hv h =
      elim (Option-cases (lookup (field_name env alloc alloc_2 fieldstr))) [
        | inl e ↦ cc (rw (e, ff_new_leaf) at h)
        | inr (info, e) ↦
            let op = leaf_oper env alloc alloc_2 oper info in
            elim (Option-cases (ff_new_node fresh null op null)) [
              | inl q ↦ cc (rw (e, q, ff_new_leaf) at h)
              | inr (leaf, q) ↦
                  let held = ff_new_node-Each fresh null null leaf op tt tt q in
                  finish_leaf-Each memory fresh fieldstr valstr list leaf n info held hv
                    (rw (e, q, ff_new_leaf) at h)
            ]
      ]
