-- ===== src/Filter/Leaf/Build.antt =====
-- src/ffilter/ffilter.c: ff_new_leaf, ff_new_mval and ff_transform_mval, the actions of the parser
-- that make leaves and lists of values.
use libnf.Base.{
  ℕ, Bool, ◌||◌, List, [], ◌∷◌, ◌++◌, Option, none, some, ◌==◌, if◌then◌else◌, length, get_or,
}
use libnf.Base.Bytes.{c_string}
use libnf.Filter.Types.{FfType, FfOper}
use libnf.Filter.Attr.{FfLvalue, has_option, opts_flags, opts_const}
use libnf.Filter.Node.{NodeFields, Node, null, node, ff_new_node, ff_branch_node}
use libnf.Filter.Leaf.{FfError, err_other_msg, Env, Made, made, error, wild, ff_type_validate}

module _ {T : Type 0} (env : Env T) (alloc alloc_2 : Bool) where
  -- the `do` loop of ff_transform_mval over the list, for a node of the given type and field
  unfoldable pub transform_list : FfType → ℕ → FfLvalue → Node → Made Node
  unfolding ff_type_validate
  transform_list type field info null = made null
  transform_list type field info (node f l r) =
      let others = transform_list type field info r in
      let g = record f { type = type; field = field } in
      elim (ff_type_validate env alloc alloc_2 (c_string f.value) g info) [
        | made h ↦ elim others [
          | made rest ↦ made (node h l rest)
          | error e ↦ error e
          | wild ↦ wild
        ]
        | error e ↦ error e
        | wild ↦ wild
      ]

  -- The loop is entered before the list is looked at.
  unfoldable pub ff_transform_mval : NodeFields → Node → FfLvalue → Made Node
  unfolding transform_list
  ff_transform_mval f null info = wild
  ff_transform_mval f (node g l r) info = elim (transform_list f.type f.field info (node g l r)) [
    | made list ↦ made (node f null list)
    | error e ↦ error e
    | wild ↦ wild
  ]

  -- FF_OP_NOOP becomes the usual operator of the field.
  abbrev pub usual_oper : FfType → Bool → FfOper
  usual_oper FfType.string flags = FfOper.isset
  usual_oper _ flags = if flags then FfOper.isset else FfOper.eq

  unfoldable pub leaf_oper : FfOper → FfLvalue → FfOper
  leaf_oper FfOper.noop info = usual_oper info.type (has_option info opts_flags)
  leaf_oper oper info = oper

  -- The value that a constant has by itself.
  abbrev pub constant : NodeFields → FfLvalue → FfError → Made NodeFields
  constant f info e =
      if has_option info opts_const
      then elim info.literal [
        | none ↦ error err_other_msg
        | some literal ↦ ff_type_validate env alloc alloc_2 literal f info
      ]
      else error e

  -- A leaf without a value, or with one that could not be converted. The grammar gives FF_OP_EXIST
  -- no value; what a failed conversion would leave in the leaf is not told.
  abbrev pub without_value : FfOper → List ℕ → NodeFields → FfLvalue → FfError → Made NodeFields
  without_value FfOper.exists [] f info e = made f
  without_value FfOper.exists (c ∷ s) f info e = wild
  without_value oper valstr f info e = constant f info e

  abbrev pub given_value : List ℕ → NodeFields → FfLvalue → Made NodeFields
  given_value [] f info = error err_other_msg
  given_value (c ∷ s) f info = ff_type_validate env alloc alloc_2 (c ∷ s) f info

  unfoldable pub leaf_value : FfOper → List ℕ → NodeFields → FfLvalue → Made NodeFields
  unfolding ff_type_validate
  leaf_value oper valstr f info = elim (given_value valstr f info) [
    | made g ↦ made g
    | error e ↦ without_value oper valstr f info e
    | wild ↦ wild
  ]

  -- the value of the leaf: a list of nodes for FF_OP_IN, a text for the others
  unfoldable pub fill_leaf : FfOper → NodeFields → List ℕ → Node → FfLvalue → Made Node
  unfolding ff_transform_mval leaf_value
  fill_leaf FfOper.among f valstr list info = ff_transform_mval f list info
  fill_leaf oper f valstr list info = elim (leaf_value oper valstr f info) [
    | made g ↦ made (node g null null)
    | error e ↦ error e
    | wild ↦ wild
  ]

  abbrev pub root_oper : List ℕ → FfOper
  root_oper fieldstr = if get_or fieldstr 0 0 == b'&' then FfOper.and else FfOper.or

  abbrev pub field_name : List ℕ → List ℕ
  field_name [] = []
  field_name (c ∷ s) = if c == b'&' || c == b'|' then s else c ∷ s

  -- The fields of a pair. Where ff_branch_node fails the leaf is freed, and returned all the same.
  unfoldable pub fork_pair : ℕ → Option NodeFields → List ℕ → FfLvalue → Node → Made Node
  unfolding ff_branch_node
  fork_pair memory fresh fieldstr info leaf =
      if get_or info.id 1 0 == 0
      then made leaf
      else elim (ff_branch_node memory fresh leaf (root_oper fieldstr) info) [
        | some root ↦ made root
        | none ↦ wild
      ]

  abbrev pub finish_leaf :
      ℕ → Option NodeFields → List ℕ → List ℕ → Node → FfLvalue → Option Node → Made Node
  finish_leaf memory fresh fieldstr valstr list info none = error err_other_msg
  finish_leaf memory fresh fieldstr valstr list info (some null) = error err_other_msg
  finish_leaf memory fresh fieldstr valstr list info (some (node f l r)) =
      let g = record f { type = info.type; field = get_or info.id 0 0 } in
      elim (fill_leaf g.oper g valstr list info) [
        | made leaf ↦ fork_pair memory fresh fieldstr info leaf
        | error e ↦ error e
        | wild ↦ wild
      ]

  -- `lookup` is ff_lookup_func, `none` where it is not set or gives no FF_OK. An error stands for
  -- the NULL that is returned. `memory` is the number of mallocs for copies that succeed.
  unfoldable pub ff_new_leaf :
      Option (List ℕ → Option FfLvalue)
      → ℕ
      → Option NodeFields
      → List ℕ
      → FfOper
      → List ℕ
      → Node
      → Made Node
  unfolding fill_leaf fork_pair leaf_oper ff_new_node
  ff_new_leaf none memory fresh fieldstr oper valstr list = error err_other_msg
  ff_new_leaf (some lookup) memory fresh fieldstr oper valstr list =
      elim (lookup (field_name fieldstr)) [
        | none ↦ error err_other_msg
        | some info ↦
            finish_leaf memory fresh fieldstr valstr list info
              (ff_new_node fresh null (leaf_oper oper info) null)
      ]

-- a value in a list, in front of the others
unfoldable pub ff_new_mval : Option NodeFields → Bool → List ℕ → FfOper → Node → Option Node
ff_new_mval none alloc valstr oper nptr = none
ff_new_mval (some fresh) alloc valstr oper nptr =
    let f = record fresh {
      value = valstr ++ (0 ∷ []);
      vsize = length valstr;
      type = FfType.string;
      oper = oper;
    } in
    if alloc then some (node f null nptr) else none
