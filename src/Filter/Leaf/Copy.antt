-- ===== src/Filter/Leaf/Copy.antt =====
-- src/ffilter/ffilter.c: what a copy of a node is.
use libnf.Base.{
  ℕ, zero, suc, ◌+◌, ◌-◌, ◌≡◌, ◌∙◌, inl, inr, Option, none, some, ltb, leb, if◌then◌else◌, arith,
  Bool-cases, Option-cases, sym, ap, refl, List, [], ◌∷◌, ◌==◌, All,
}
use libnf.Base.Bytes.{bytes, length-bytes}
use libnf.Filter.Node.{
  NodeFields, Node, null, node, Copied, copy_node, ff_duplicate_node, set_field, add_leaf,
  fork_leaves,
}
use libnf.Filter.Leaf.Typed.{Holds}
use libnf.Filter.Leaf.Trees.{Each}

abbrev cost : NodeFields → ℕ
cost f = if ltb 0 f.vsize then 2 else 1

abbrev copied : NodeFields → NodeFields
copied f = if ltb 0 f.vsize then record f { value = bytes f.vsize f.value } else f

unfoldable pub needed : Node → ℕ
needed null = 0
needed (node f l r) = needed l + needed r + cost f

unfoldable pub copy_of : Node → Node
copy_of null = null
copy_of (node f l r) = node (copied f) (copy_of l) (copy_of r)

copy_node-cost :
    (memory : ℕ) (f : NodeFields) (lc rc : Node)
    → copy_node memory f lc rc
      ≡ (if leb (cost f) memory then some (memory - cost f, node (copied f) lc rc) else none)
unfolding copy_node
copy_node-cost zero f lc rc = ground arith
copy_node-cost (suc zero) f lc rc = ground arith
copy_node-cost (suc (suc memory)) f lc rc = ground arith

-- ff_duplicate_node copies every node of a tree with the bytes of its value where the memory is
-- enough for all of them, and else returns NULL.
pub ff_duplicate_node-copy_of :
    (memory : ℕ) (n : Node)
    → ff_duplicate_node memory n
      ≡ (if leb (needed n) memory then some (memory - needed n, copy_of n) else none)
unfolding ff_duplicate_node needed copy_of
ff_duplicate_node-copy_of memory null = ground arith
ff_duplicate_node-copy_of memory (node f l r) =
    let left = ff_duplicate_node-copy_of memory l in
    let right = ff_duplicate_node-copy_of (memory - needed l) r in
    elim (Bool-cases (leb (needed l) memory)) [
      | inr short ↦ rw (left, short) (ground arith)
      | inl fits ↦ elim (Bool-cases (leb (needed r) (memory - needed l))) [
        | inr short ↦ rw (left, fits) (rw (right, short) (ground arith))
        | inl enough ↦
            rw (left, fits)
              (rw (right, enough) (copy_node-cost _ f (copy_of l) (copy_of r) ∙ ground arith))
      ]
    ]

copied-Holds : (f : NodeFields) → Holds f → Holds (copied f)
copied-Holds f h = elim (Bool-cases (ltb 0 f.vsize)) [
  | inl e ↦ rw e (omega (arith, length-bytes f.vsize f.value))
  | inr e ↦ rw e h
]

abbrev node_of : Copied → Node
node_of none = null
node_of (some (memory, n)) = n

copy_of-Each : (n : Node) → Each Holds n → Each Holds (copy_of n)
unfolding copy_of
copy_of-Each null h = tt
copy_of-Each (node f l r) h = (copied-Holds f h.0, copy_of-Each l h.1, copy_of-Each r h.2)

ff_duplicate_node-Each :
    (memory left : ℕ) (n copy : Node)
    → Each Holds n
    → ff_duplicate_node memory n ≡ some (left, copy)
    → Each Holds copy
ff_duplicate_node-Each memory left n copy h e = elim (Bool-cases (leb (needed n) memory)) [
  | inr short ↦ cc (rw (ff_duplicate_node-copy_of memory n, short) at e)
  | inl enough ↦
      let made : some (memory - needed n, copy_of n) ≡ some (left, copy) =
        rw (ff_duplicate_node-copy_of memory n, enough) at e in
      let same : copy_of n ≡ copy = ap (λ o. node_of o) made in rw (sym same) (copy_of-Each n h)
]

set_field-Each : (n : Node) (index : ℕ) → Each Holds n → Each Holds (set_field n index)
set_field-Each null index h = h
set_field-Each (node f l r) index h = h

add_leaf-Each :
    (a : Node) (o : Option (List Node)) (leaves : List Node)
    → Each Holds a
    → ((ls : List Node) → o ≡ some ls → All (Each Holds) ls)
    → add_leaf a o ≡ some leaves
    → All (Each Holds) leaves
add_leaf-Each a none leaves h hs e = cc e
add_leaf-Each a (some ls) leaves h hs e =
    let same : a ∷ ls ≡ leaves = cc e in rw (sym same) (h, hs ls refl)

pub fork_leaves-Each :
    (memory : ℕ) (leaf : Node) (ids : List ℕ) (leaves : List Node)
    → Each Holds leaf
    → fork_leaves memory leaf ids ≡ some leaves
    → All (Each Holds) leaves
unfolding fork_leaves
fork_leaves-Each memory leaf [] leaves h e = let same : [] ≡ leaves = cc e in rw (sym same) tt
fork_leaves-Each memory leaf (index ∷ ids) leaves h e = elim (Bool-cases (index == 0)) [
  | inl last ↦ elim (Option-cases (ff_duplicate_node memory leaf)) [
    | inl c ↦ let same : [] ≡ leaves = cc (rw (c, last, fork_leaves) at e) in rw (sym same) tt
    | inr (lc, c) ↦ let same : [] ≡ leaves = cc (rw (c, last, fork_leaves) at e) in rw (sym same) tt
  ]
  | inr more ↦ elim (Option-cases (ff_duplicate_node memory leaf)) [
    | inl c ↦ cc (rw (c, more, fork_leaves) at e)
    | inr ((left, copy), c) ↦
        add_leaf-Each (set_field copy index) (fork_leaves left leaf ids) leaves
          (set_field-Each copy index (ff_duplicate_node-Each memory left leaf copy h c))
          (λ ls q. fork_leaves-Each left leaf ids ls h q) (rw (c, more, fork_leaves) at e)
  ]
]
