-- ===== src/Filter/Node.antt =====
-- src/ffilter/ffilter.c: the nodes of the filter tree, how the parser's actions build them, and
-- their evaluation. Memory that malloc returns holds what was there before: a new node starts as
-- `fresh`, and `none` for `fresh` is a malloc that fails.
pub mod Meaning
use libnf.Base.{
  ℕ, zero, suc, ◌+◌, ◌/◌, ◌≡◌, refl, Bool, true, false, not, ◌&&◌, ◌||◌, List, [], ◌∷◌, ◌++◌,
  Option, none, some, arith, ltb, ◌==◌, if◌then◌else◌, drop, replicate, length, take,
}
use libnf.Base.Bytes.{bytes}
use libnf.Filter.Types.{FfType, FfAttr, FfOper}
use libnf.Filter.Attr.{ff_negate, FfLvalue}
use libnf.Filter.OperEval.{Reals, ff_oper_eval}

-- `ff_node_t` without its children
pub record NodeFields : Type 0 where
  pub field : ℕ
  pub value : List ℕ
  pub vsize : ℕ
  pub type : FfType
  pub oper : FfOper
  pub opcode : FfAttr

pub data Node : Type 0 where
  null : Node
  node : NodeFields → Node → Node → Node

abbrev pub set_opcode : NodeFields → FfAttr → NodeFields
set_opcode f attr = record f { opcode = attr }

-- the end of `ff_new_node`
unfoldable pub alloc_node : Option NodeFields → Node → FfOper → Node → Option Node
alloc_node none left oper right = none
alloc_node (some fresh) left oper right =
    some (node (record fresh { vsize = 0; type = FfType.unsupported; oper = oper }) left right)

-- FF_OP_NOT over its only child: the operation of the child is negated where it has a negation.
unfoldable pub negate_node :
    Option NodeFields → NodeFields → Node → Node → FfAttr → Node → Node → Option Node
unfolding alloc_node
negate_node fresh f l r FfAttr.err left right = alloc_node fresh left FfOper.not right
negate_node fresh f l r neg left right = some (node (set_opcode f neg) l r)

unfoldable pub ff_new_node : Option NodeFields → Node → FfOper → Node → Option Node
unfolding negate_node
ff_new_node fresh null FfOper.not (node f l r) =
    negate_node fresh f l r (ff_negate f.opcode) null (node f l r)
ff_new_node fresh (node f l r) FfOper.not null =
    negate_node fresh f l r (ff_negate f.opcode) (node f l r) null
ff_new_node fresh null FfOper.not null = none
ff_new_node fresh (node f l r) FfOper.not (node f' l' r') = none
ff_new_node fresh left oper right = alloc_node fresh left oper right

abbrev pub set_field : Node → ℕ → Node
set_field null index = null
set_field (node f l r) index = node (record f { field = index }) l r

-- A copy and the memory that is left, or NULL. Memory is the number of mallocs that still succeed.
abbrev pub Copied : Type 0
Copied = Option (ℕ × Node)

-- The copy of a value is only as long as `vsize`: the 0 behind a string is not copied.
unfoldable pub copy_node : ℕ → NodeFields → Node → Node → Copied
copy_node zero f lc rc = none
copy_node (suc memory) f lc rc =
    if ltb 0 f.vsize
    then elim memory [
      | zero ↦ none
      | suc left ↦ some (left, node (record f { value = bytes f.vsize f.value }) lc rc)
    ]
    else some (memory, node f lc rc)

abbrev pub copy_right : NodeFields → Node → Copied → Copied
copy_right f lc none = none
copy_right f lc (some (memory, rc)) = copy_node memory f lc rc

-- A child that is missing is not copied.
unfoldable pub ff_duplicate_node : ℕ → Node → Copied
unfolding copy_node
ff_duplicate_node memory null = some (memory, null)
ff_duplicate_node memory (node f l r) = elim (ff_duplicate_node memory l) [
  | none ↦ none
  | some (left, lc) ↦ copy_right f lc (ff_duplicate_node left r)
]

abbrev pub add_leaf : Node → Option (List Node) → Option (List Node)
add_leaf leaf none = none
add_leaf leaf (some leaves) = some (leaf ∷ leaves)

-- The first loop of `ff_branch_node`: a copy of the leaf for every further id; `none` when one fails.
unfoldable pub fork_leaves : ℕ → Node → List ℕ → Option (List Node)
unfolding ff_duplicate_node
fork_leaves memory leaf [] = some []
fork_leaves memory leaf (index ∷ ids) = elim (ff_duplicate_node memory leaf) [
  | none ↦ if index == 0 then some [] else none
  | some (left, copy) ↦
      let others = fork_leaves left leaf ids in
      if index == 0 then some [] else add_leaf (set_field copy index) others
]

-- One round of the second loop: `leaf[i >> 1]` from `leaf[i]` and `leaf[i + 1]`.
unfoldable pub join_pairs : Option NodeFields → FfOper → List Node → Option (List Node)
unfolding ff_new_node
join_pairs fresh oper [] = some []
join_pairs fresh oper (a ∷ []) = elim (ff_new_node fresh a oper null) [
  | none ↦ none
  | some n ↦ some (n ∷ [])
]
join_pairs fresh oper (a ∷ b ∷ leaves) = elim (ff_new_node fresh a oper b) [
  | none ↦ none
  | some n ↦ elim (join_pairs fresh oper leaves) [ none ↦ none | some ns ↦ some (n ∷ ns) ]
]

-- `while (forked > 1)`: there are at most four leaves, so two rounds are enough.
unfoldable pub join_leaves : ℕ → Option NodeFields → FfOper → List Node → Option Node
unfolding join_pairs
join_leaves rounds fresh oper [] = none
join_leaves rounds fresh oper (a ∷ []) = some a
join_leaves zero fresh oper (a ∷ b ∷ leaves) = none
join_leaves (suc rounds) fresh oper (a ∷ b ∷ leaves) =
    elim (join_pairs fresh oper (a ∷ b ∷ leaves)) [
      | none ↦ none
      | some ns ↦ join_leaves rounds fresh oper (take (length (a ∷ b ∷ leaves) / 2) ns)
    ]

unfoldable pub ff_branch_node : ℕ → Option NodeFields → Node → FfOper → FfLvalue → Option Node
unfolding fork_leaves join_leaves
ff_branch_node memory fresh leaf oper lvalue = elim (fork_leaves memory leaf (drop 1 lvalue.id)) [
  | none ↦ none
  | some leaves ↦ join_leaves 2 fresh oper (leaf ∷ leaves)
]

-- a result greater than 0
abbrev pub hit : Option Bool → Bool
hit (some true) = true
hit _ = false

-- what the children decide, `none` where the node itself is looked at: `left` and `right` are
-- `none` for a child that is not there
unfoldable pub eval_children : FfOper → Option Bool → Option Bool → Option Bool
eval_children FfOper.not (some l) right = some (not l)
eval_children FfOper.not none (some r) = some (not r)
eval_children FfOper.or (some true) right = some true
eval_children FfOper.or (some false) (some r) = some r
eval_children FfOper.or none (some r) = some r
eval_children FfOper.and (some false) right = some false
eval_children FfOper.and (some true) (some r) = some r
eval_children FfOper.and none (some r) = some false
eval_children _ left right = none

abbrev pub child_hit : Node → Option Bool → Option Bool
child_hit null result = none
child_hit (node f l r) result = some (hit result)

-- the result of a node, from its children's and from what it gives as a leaf
unfoldable pub node_result : FfOper → Option Bool → Option Bool → Option Bool → Option Bool
unfolding eval_children
node_result FfOper.any left right own = some true
node_result oper left right own = elim (eval_children oper left right) [
  | some b ↦ some b
  | none ↦ own
]

-- `data` gives what FF_OK of the callback `ff_data_func` leaves: the data and their size. `stack` is
-- what the 128 bytes of `buf` hold when the function is entered.
module _ {R : Type 0} (real : Reals) (ff_data_func : R → ℕ → Option (List ℕ × ℕ))
    (stack : List ℕ) where
  -- the `do` loop of FF_OP_IN; it is not entered with a null list
  unfoldable pub eval_among : List ℕ → ℕ → Node → Option Bool
  eval_among rc size null = none
  eval_among rc size (node f l null) = ff_oper_eval real rc size f.opcode f.vsize f.value
  eval_among rc size (node f l (node f' l' r')) =
      let others = eval_among rc size (node f' l' r') in
      let first = ff_oper_eval real rc size f.opcode f.vsize f.value in
      if hit first then first else others

  -- the last `switch` of `ff_eval_node`
  unfoldable pub eval_data : List ℕ → ℕ → Bool → FfOper → NodeFields → Node → Option Bool
  unfolding eval_among
  eval_data rc size exist FfOper.exists f right = some exist
  eval_data rc size exist FfOper.among f right = eval_among rc size right
  eval_data rc size exist FfOper.not f right = none
  eval_data rc size exist FfOper.or f right = none
  eval_data rc size exist FfOper.and f right = none
  eval_data rc size exist _ f right = ff_oper_eval real rc size f.opcode f.vsize f.value

  unfoldable pub eval_leaf : R → NodeFields → Node → Option Bool
  unfolding eval_data
  eval_leaf rec f right = elim (ff_data_func rec f.field) [
    | some (rc, size) ↦ eval_data rc size true f.oper f right
    | none ↦ eval_data (replicate f.vsize 0 ++ drop f.vsize stack) f.vsize false f.oper f right
  ]

  unfoldable pub ff_eval_node : Node → R → Option Bool
  unfolding eval_leaf node_result
  ff_eval_node null rec = none
  ff_eval_node (node f l r) rec =
      node_result f.oper (child_hit l (ff_eval_node l rec)) (child_hit r (ff_eval_node r rec))
        (eval_leaf rec f r)

  unfoldable pub ff_eval : Node → R → Bool
  unfolding ff_eval_node
  ff_eval root rec = hit (ff_eval_node root rec)
