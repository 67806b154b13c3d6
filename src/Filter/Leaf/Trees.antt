-- ===== src/Filter/Leaf/Trees.antt =====
-- src/ffilter/ffilter.c: joining leaves and negating a node keep the values of all nodes.
use libnf.Base.{
  ℕ, zero, suc, ◌≡◌, sym, inl, inr, List, [], ◌∷◌, Option, none, some, length, take, arith,
  Option-cases, ◌/◌, All,
}
use libnf.Filter.Types.{FfType, FfAttr, FfOper}
use libnf.Filter.Attr.{ff_negate}
use libnf.Filter.Node.{
  NodeFields, Node, null, node, set_opcode, alloc_node, negate_node, ff_new_node, join_pairs,
  join_leaves,
}
use libnf.Filter.Leaf.Typed.{Holds}

-- all nodes of a tree
abbrev pub Each : (NodeFields → Type 0) → Node → Type 0
Each P null = Unit
Each P (node f l r) = P f × Each P l × Each P r

alloc_node-Each :
    (fresh : Option NodeFields) (a b n : Node) (oper : FfOper)
    → Each Holds a
    → Each Holds b
    → alloc_node fresh a oper b ≡ some n
    → Each Holds n
unfolding alloc_node
alloc_node-Each none a b n oper ha hb h = cc h
alloc_node-Each (some f) a b n oper ha hb h =
    let g = record f { vsize = 0; type = FfType.unsupported; oper = oper } in
    let same : node g a b ≡ n = cc h in rw (sym same) (omega arith, ha, hb)

negate_node-Each :
    (fresh : Option NodeFields) (f : NodeFields) (l r a b n : Node) (neg : FfAttr)
    → Each Holds (node f l r)
    → Each Holds a
    → Each Holds b
    → negate_node fresh f l r neg a b ≡ some n
    → Each Holds n
unfolding negate_node
negate_node-Each fresh f l r a b n FfAttr.err hf ha hb h =
    alloc_node-Each fresh a b n FfOper.not ha hb h
negate_node-Each fresh f l r a b n neg hf ha hb h =
    let same : node (set_opcode f neg) l r ≡ n = cc h in rw (sym same) hf

pub ff_new_node-Each :
    (fresh : Option NodeFields) (a b n : Node) (oper : FfOper)
    → Each Holds a
    → Each Holds b
    → ff_new_node fresh a oper b ≡ some n
    → Each Holds n
unfolding ff_new_node
ff_new_node-Each fresh null null n FfOper.not ha hb h = cc h
ff_new_node-Each fresh (node f l r) (node f' l' r') n FfOper.not ha hb h = cc h
ff_new_node-Each fresh null (node f l r) n FfOper.not ha hb h =
    negate_node-Each fresh f l r null (node f l r) n (ff_negate f.opcode) hb ha hb h
ff_new_node-Each fresh (node f l r) null n FfOper.not ha hb h =
    negate_node-Each fresh f l r (node f l r) null n (ff_negate f.opcode) ha ha hb h
ff_new_node-Each fresh null null n oper ha hb h = alloc_node-Each fresh null null n oper ha hb h
ff_new_node-Each fresh a b n oper ha hb h = alloc_node-Each fresh a b n oper ha hb h

join_pairs-Each :
    (fresh : Option NodeFields) (oper : FfOper) (leaves ns : List Node)
    → All (Each Holds) leaves
    → join_pairs fresh oper leaves ≡ some ns
    → All (Each Holds) ns
unfolding join_pairs
join_pairs-Each fresh oper [] ns hs h = let same : [] ≡ ns = cc h in rw (sym same) tt
join_pairs-Each fresh oper (a ∷ []) ns hs h = elim (Option-cases (ff_new_node fresh a oper null)) [
  | inl e ↦ cc (rw (e, join_pairs) at h)
  | inr (n, e) ↦
      let same : n ∷ [] ≡ ns = cc (rw (e, join_pairs) at h) in
      rw (sym same) (ff_new_node-Each fresh a null n oper hs.0 tt e, tt)
]
join_pairs-Each fresh oper (a ∷ b ∷ leaves) ns hs h =
    elim (Option-cases (ff_new_node fresh a oper b)) [
      | inl e ↦ cc (rw (e, join_pairs) at h)
      | inr (n, e) ↦ elim (Option-cases (join_pairs fresh oper leaves)) [
        | inl q ↦ cc (rw (e, q, join_pairs) at h)
        | inr (rest, q) ↦
            let same : n ∷ rest ≡ ns = cc (rw (e, q, join_pairs) at h) in
            let first = ff_new_node-Each fresh a b n oper hs.0 hs.1.0 e in
            rw (sym same) (first, join_pairs-Each fresh oper leaves rest hs.1.1 q)
      ]
    ]

All-take : (n : ℕ) (ns : List Node) → All (Each Holds) ns → All (Each Holds) (take n ns)
All-take zero ns h = tt
All-take (suc n) [] h = tt
All-take (suc n) (a ∷ ns) h = (h.0, All-take n ns h.1)

pub join_leaves-Each :
    (rounds : ℕ) (fresh : Option NodeFields) (oper : FfOper) (leaves : List Node) (n : Node)
    → All (Each Holds) leaves
    → join_leaves rounds fresh oper leaves ≡ some n
    → Each Holds n
unfolding join_leaves
join_leaves-Each rounds fresh oper [] n hs h = cc h
join_leaves-Each rounds fresh oper (a ∷ []) n hs h = let same : a ≡ n = cc h in rw (sym same) hs.0
join_leaves-Each zero fresh oper (a ∷ b ∷ leaves) n hs h = cc h
join_leaves-Each (suc rounds) fresh oper (a ∷ b ∷ leaves) n hs h =
    elim (Option-cases (join_pairs fresh oper (a ∷ b ∷ leaves))) [
      | inl e ↦ cc (rw (e, join_leaves) at h)
      | inr (ns, e) ↦
          let half = length (a ∷ b ∷ leaves) / 2 in
          let pairs = join_pairs-Each fresh oper (a ∷ b ∷ leaves) ns hs e in
          join_leaves-Each rounds fresh oper (take half ns) n (All-take half ns pairs)
            (rw (e, join_leaves) at h)
    ]
