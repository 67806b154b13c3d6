-- ===== src/Filter/Node/Meaning.antt =====
-- src/ffilter: the expressions of the grammar, the tree that the parser's actions build for one,
-- and what the filter means by it.
use libnf.Base.{
  ℕ, ◌≡◌, refl, sym, ap, ap₂, ◌∙◌, inl, inr, ◌≢◌, Bool, true, false, not, ◌&&◌, ◌||◌, List, Option,
  none, some, Bool-cases,
}
use libnf.Filter.Types.{FfType, FfAttr, FfOper}
use libnf.Filter.Attr.{ff_negate}
use libnf.Filter.Attr.Negate.{err-cases, ff_negate-ff_negate}
use libnf.Filter.OperEval.{Reals}
use libnf.Filter.Node.{
  NodeFields, Node, null, node, set_opcode, alloc_node, negate_node, ff_new_node, hit, ff_eval_node,
  ff_eval, node_result,
}

-- `expr` of ffilter_gram.y; a leaf is what `ff_new_leaf` returned, with its children
pub data Expr : Type 0 where
  anything : Expr
  leaf : NodeFields → Node → Node → Expr
  negation : Expr → Expr
  conjunction disjunction : Expr → Expr → Expr

abbrev pub bind_node : Option Node → (Node → Option Node) → Option Node
bind_node none f = none
bind_node (some n) f = f n

-- the actions of the parser
unfoldable pub build : Option NodeFields → Expr → Option Node
unfolding ff_new_node
build fresh anything = ff_new_node fresh null FfOper.any null
build fresh (leaf f l r) = some (node f l r)
build fresh (negation e) = bind_node (build fresh e) (λ n. ff_new_node fresh null FfOper.not n)
build fresh (conjunction e e') =
    bind_node (build fresh e)
      (λ n. bind_node (build fresh e') (λ m. ff_new_node fresh n FfOper.and m))
build fresh (disjunction e e') =
    bind_node (build fresh e)
      (λ n. bind_node (build fresh e') (λ m. ff_new_node fresh n FfOper.or m))

hit-and :
    (a b own : Option Bool)
    → hit (node_result FfOper.and (some (hit a)) (some (hit b)) own) ≡ hit a && hit b
unfolding node_result
hit-and a b own = elim (Bool-cases (hit a)) [
  | inl e ↦ rw (e, node_result) (elim (Bool-cases (hit b)) [ inl e' ↦ rw e' | inr e' ↦ rw e' ])
  | inr e ↦ rw (e, node_result)
]

hit-or :
    (a b own : Option Bool)
    → hit (node_result FfOper.or (some (hit a)) (some (hit b)) own) ≡ hit a || hit b
unfolding node_result
hit-or a b own = elim (Bool-cases (hit a)) [
  | inl e ↦ rw (e, node_result)
  | inr e ↦ rw (e, node_result) (elim (Bool-cases (hit b)) [ inl e' ↦ rw e' | inr e' ↦ rw e' ])
]

hit-not :
    (oper : FfOper) (a own : Option Bool)
    → oper ≡ FfOper.not
    → hit (node_result oper none (some (hit a)) own) ≡ not (hit a)
unfolding node_result
hit-not oper a own o = elim (Bool-cases (hit a)) [ inl e ↦ rw (o, e) | inr e ↦ rw (o, e) ]

negate_node_opcode :
    (fresh : Option NodeFields) (f : NodeFields) (l r : Node) (a : FfAttr) (left right : Node)
    → a ≢ FfAttr.err
    → negate_node fresh f l r a left right ≡ some (node (set_opcode f a) l r)
unfolding negate_node
negate_node_opcode fresh f l r FfAttr.err left right h = absurd (h refl)
negate_node_opcode fresh f l r _ left right h = refl

not-not : (b : Bool) → not (not b) ≡ b
not-not true = refl
not-not false = refl

module _ {R : Type 0} (real : Reals) (ff_data_func : R → ℕ → Option (List ℕ × ℕ))
    (stack : List ℕ) where
  matches : Node → R → Bool
  matches n rec = hit (ff_eval_node real ff_data_func stack n rec)

  -- the meaning of an expression, as Boolean logic over its leaves
  abbrev pub denote : Expr → R → Bool
  denote anything rec = true
  denote (leaf f l r) rec = hit (ff_eval_node real ff_data_func stack (node f l r) rec)
  denote (negation e) rec = not (denote e rec)
  denote (conjunction e e') rec = denote e rec && denote e' rec
  denote (disjunction e e') rec = denote e rec || denote e' rec

  matches-and :
      (f : NodeFields) (l r : Node) (rec : R)
      → f.oper ≡ FfOper.and
      → l ≢ null
      → r ≢ null
      → matches (node f l r) rec ≡ matches l rec && matches r rec
  unfolding matches ff_eval_node
  matches-and f null r rec e hl hr = absurd (hl refl)
  matches-and f (node g a b) null rec e hl hr = absurd (hr refl)
  matches-and f (node g a b) (node g' a' b') rec e hl hr = rw e (hit-and _ _ _)

  matches-or :
      (f : NodeFields) (l r : Node) (rec : R)
      → f.oper ≡ FfOper.or
      → l ≢ null
      → r ≢ null
      → matches (node f l r) rec ≡ matches l rec || matches r rec
  unfolding matches ff_eval_node
  matches-or f null r rec e hl hr = absurd (hl refl)
  matches-or f (node g a b) null rec e hl hr = absurd (hr refl)
  matches-or f (node g a b) (node g' a' b') rec e hl hr = rw e (hit-or _ _ _)

  matches-not :
      (f g : NodeFields) (l r : Node) (rec : R)
      → f.oper ≡ FfOper.not
      → matches (node f null (node g l r)) rec ≡ not (matches (node g l r) rec)
  unfolding matches ff_eval_node
  matches-not f g l r rec e = hit-not f.oper _ _ e

  -- Negating the operation of a node, where that is possible, negates its match.
  abbrev pub Negates : Node → R → Type 0
  Negates null rec = Unit
  Negates (node f l r) rec =
      ff_negate f.opcode ≢ FfAttr.err
      → hit
          (ff_eval_node real ff_data_func stack (node (set_opcode f (ff_negate f.opcode)) l r) rec)
        ≡ not (hit (ff_eval_node real ff_data_func stack (node f l r) rec))

  -- all leaves of an expression do so
  abbrev pub LeavesNegate : Expr → R → Type 0
  LeavesNegate anything rec = Unit
  LeavesNegate (leaf f l r) rec = Negates (node f l r) rec
  LeavesNegate (negation e) rec = LeavesNegate e rec
  LeavesNegate (conjunction e e') rec = LeavesNegate e rec × LeavesNegate e' rec
  LeavesNegate (disjunction e e') rec = LeavesNegate e rec × LeavesNegate e' rec

  -- what holds of the tree of an expression
  record IsBuilt (b : Bool) (rec : R) (n : Node) : Type 0 where
    exists : n ≢ null
    means : matches n rec ≡ b
    negates : Negates n rec

  module _ (fresh : NodeFields) (clear : ff_negate fresh.opcode ≡ FfAttr.err) where
    new_not :
        (b : Bool) (rec : R) (n : Node)
        → IsBuilt b rec n
        → (m : Node) × (ff_new_node (some fresh) null FfOper.not n ≡ some m) × IsBuilt (not b) rec m
    unfolding ff_new_node alloc_node
    new_not b rec null h = absurd (h.exists refl)
    new_not b rec (node f l r) h = elim (err-cases (ff_negate f.opcode)) [
      | inl e ↦ (
        node (record fresh { vsize = 0; type = FfType.unsupported; oper = FfOper.not }) null
            (node f l r),
        rw (e, negate_node),
        record {
          exists = λ e'. cc;
          means = matches-not _ f l r rec refl ∙ ap not h.means;
          negates = λ no. absurd (no clear);
        },
      )
      | inr some_negation ↦ (
        node (set_opcode f (ff_negate f.opcode)) l r,
        negate_node_opcode (some fresh) f l r (ff_negate f.opcode) null (node f l r) some_negation,
        record {
          exists = λ e'. cc;
          means = unfold matches in h.negates some_negation ∙ ap not (unfold matches in h.means);
          negates = λ again.
              rw (ff_negate-ff_negate f.opcode some_negation)
                (sym (not-not _) ∙ ap not (sym (h.negates some_negation)));
        },
      )
    ]

    abbrev inner : FfOper → Node → Node → Node
    inner oper n m = node (record fresh { vsize = 0; type = FfType.unsupported; oper = oper }) n m

    new_and : (n m : Node) → ff_new_node (some fresh) n FfOper.and m ≡ some (inner FfOper.and n m)
    unfolding ff_new_node alloc_node
    new_and null m = refl
    new_and (node f l r) m = refl

    new_or : (n m : Node) → ff_new_node (some fresh) n FfOper.or m ≡ some (inner FfOper.or n m)
    unfolding ff_new_node alloc_node
    new_or null m = refl
    new_or (node f l r) m = refl

    Builds : Expr → R → Type 0
    Builds e rec = (n : Node) × (build (some fresh) e ≡ some n) × IsBuilt (denote e rec) rec n

    build_lem : (e : Expr) (rec : R) → LeavesNegate e rec → Builds e rec
    unfolding build Builds ff_new_node alloc_node
    build_lem anything rec h = (
      inner FfOper.any null null,
      refl,
      record {
        exists = λ e. cc;
        means = unfold matches ff_eval_node node_result in refl;
        negates = λ no. absurd (no clear);
      },
    )
    build_lem (leaf f l r) rec h =
        (node f l r, refl, record { exists = λ e. cc; means = unfold matches in refl; negates = h })
    build_lem (negation e) rec h =
        let (n, b, built) = build_lem e rec h in
        let (m, made, done) = new_not (denote e rec) rec n built in (m, rw b made, done)
    build_lem (conjunction e e') rec h =
        let (n, b, x) = build_lem e rec h.0 in
        let (m, b', y) = build_lem e' rec h.1 in
        (
          inner FfOper.and n m,
          rw (b, b') (new_and n m),
          record {
            exists = λ z. cc;
            means = matches-and _ n m rec refl x.exists y.exists ∙ ap₂ ◌&&◌ x.means y.means;
            negates = λ no. absurd (no clear);
          },
        )
    build_lem (disjunction e e') rec h =
        let (n, b, x) = build_lem e rec h.0 in
        let (m, b', y) = build_lem e' rec h.1 in
        (
          inner FfOper.or n m,
          rw (b, b') (new_or n m),
          record {
            exists = λ z. cc;
            means = matches-or _ n m rec refl x.exists y.exists ∙ ap₂ ◌||◌ x.means y.means;
            negates = λ no. absurd (no clear);
          },
        )

    -- The tree that the parser builds for an expression exists and, evaluated on a record, matches
    -- exactly where the Boolean meaning of the expression is true. This asks that malloc succeeds
    -- with memory whose old contents are no negatable operation, and that at this record the
    -- negated operation of each leaf is its logical negation.
    pub ff_eval-build :
        (e : Expr) (rec : R)
        → LeavesNegate e rec
        → (n : Node) × (build (some fresh) e ≡ some n)
          × (ff_eval real ff_data_func stack n rec ≡ denote e rec)
    unfolding ff_eval Builds
    ff_eval-build e rec h =
        let (n, b, built) = build_lem e rec h in (n, b, unfold matches in built.means)
