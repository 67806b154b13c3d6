-- ===== src/Filter/Leaf.antt =====
-- src/ffilter/ffilter.c: the leaves that the parser's actions make: the conversion of their values,
-- lists of values, copies, and leaves for a pair of fields. The callbacks of `ff_options_t` and the
-- C library are parameters.
pub mod Build
pub mod Copy
pub mod Stores
pub mod Typed
pub mod Trees
pub mod Leaves
use libnf.Base.{
  ℕ, zero, suc, ◌+◌, ◌≡◌, refl, Bool, true, false, not, ◌&&◌, ◌||◌, List, [], ◌∷◌, ◌++◌, Option,
  none, some, ltb, ◌==◌, if◌then◌else◌, length, replicate, get_or,
}
use libnf.Base.Bytes.{c_string}
use libnf.Base.Int.{ℤ}
use libnf.Filter.Types.{FfType, FfAttr, FfOper}
use libnf.Filter.Attr.{FfLvalue, has_option, opts_flags, opts_const}
use libnf.Filter.Validate.{Checked, ff_validate}
use libnf.Filter.Literal.{Cast, stored, failed, undefined, Scan, str_to_uint, str_to_uint64}
use libnf.Filter.Literal.Signed.{str_to_int64, str_to_real}
use libnf.Filter.Address.{Pton, str_to_addr, str_to_mac, str_to_timestamp}
use libnf.Filter.Node.{NodeFields, Node, null, node, ff_new_node, ff_branch_node}

-- `ff_error_t` without FF_OK
pub data FfError : Type 0 where
  err_nomem err_unkn err_unsup err_other err_other_msg : FfError

-- What the conversions use of the C library, and the callback ff_rval_map_func of the options
-- (`none` where it is not set): the bytes and the size that it leaves of a literal, or no FF_OK.
pub record Env (T : Type 0) : Type 0 where
  pub strtoull : List ℕ → Scan ℕ
  pub strtoll : List ℕ → Scan ℤ
  pub strtod : List ℕ → Scan ℕ
  pub huge : ℕ → Bool
  pub strtoul_10 : List ℕ → ℕ × ℕ
  pub strtoul_16 : List ℕ → ℕ × ℕ
  pub pton : Pton
  pub strptime : List ℕ → Option (T × List ℕ)
  pub mktime : T → ℕ
  pub rval_map : Option (List ℕ → FfType → ℕ → Option (List ℕ × ℕ))

-- A result of the leaf's code. `wild`: a signed product out of range, a mask written behind its
-- end, or a node that was freed before.
pub data Made (A : Type 0) : Type 0 where
  made : A → Made A
  error : FfError → Made A
  wild : Made A

abbrev pub set_value : NodeFields → List ℕ → ℕ → NodeFields
set_value f value vsize = record f { value = value; vsize = vsize }

-- the conversions that only report FF_ERR_OTHER_MSG
abbrev pub or_message : NodeFields → ℕ → Cast → Made NodeFields
or_message f vsize (stored bs) = made (set_value f bs vsize)
or_message f vsize failed = error err_other_msg
or_message f vsize undefined = wild

-- an `ff_mpls_t` of the value and no label; `alloc_2` is for the second malloc
abbrev pub or_label : NodeFields → Bool → Cast → Made NodeFields
or_label f alloc_2 (stored bs) =
    if alloc_2 then made (set_value f (bs ++ replicate 4 0) 8) else error err_nomem
or_label f alloc_2 failed = error err_other_msg
or_label f alloc_2 undefined = wild

abbrev pub is_err : FfAttr → Bool
is_err FfAttr.err = true
is_err _ = false

module _ {T : Type 0} (env : Env T) (alloc alloc_2 : Bool) where
  -- what is left of a literal that is no number
  abbrev pub map_literal : NodeFields → List ℕ → Made NodeFields
  map_literal f valstr = elim env.rval_map [
    | none ↦ error err_other_msg
    | some func ↦ elim (func valstr f.type f.field) [
      | some (value, vsize) ↦ made (set_value f value vsize)
      | none ↦ error err_other_msg
    ]
  ]

  abbrev pub or_literal : NodeFields → List ℕ → Cast → Made NodeFields
  or_literal f valstr (stored bs) = made (set_value f bs 8)
  or_literal f valstr failed = if alloc_2 then map_literal f valstr else error err_nomem
  or_literal f valstr undefined = wild

  abbrev pub cast_unsigned : NodeFields → List ℕ → Made NodeFields
  cast_unsigned f valstr = or_literal f valstr (str_to_uint64 env.strtoull alloc valstr)

  abbrev pub cast_signed : NodeFields → List ℕ → Made NodeFields
  cast_signed f valstr = or_message f 8 (str_to_int64 env.strtoll alloc valstr)

  abbrev pub cast_time : NodeFields → List ℕ → Made NodeFields
  cast_time f valstr = or_message f 8 (str_to_timestamp env.strptime env.mktime alloc valstr)

  abbrev pub cast_string : NodeFields → List ℕ → Made NodeFields
  cast_string f valstr =
      if alloc then made (set_value f (valstr ++ (0 ∷ [])) (length valstr)) else error err_nomem

  -- the `switch` of ff_type_cast
  unfoldable pub cast_as : FfType → NodeFields → List ℕ → Made NodeFields
  unfolding str_to_uint str_to_uint64 str_to_int64 str_to_real str_to_addr str_to_mac
      str_to_timestamp
  cast_as FfType.mpls f valstr =
      or_label f alloc_2 (str_to_uint env.strtoull alloc valstr FfType.uint32)
  cast_as FfType.double f valstr = or_message f 8 (str_to_real env.strtod env.huge alloc valstr)
  cast_as FfType.addr f valstr =
      or_message f 36 (str_to_addr env.strtoul_10 env.pton alloc alloc_2 valstr)
  cast_as FfType.uint64 f valstr = cast_unsigned f valstr
  cast_as FfType.uint32 f valstr = cast_unsigned f valstr
  cast_as FfType.uint16 f valstr = cast_unsigned f valstr
  cast_as FfType.uint8 f valstr = cast_unsigned f valstr
  cast_as FfType.unsigned_big f valstr = cast_unsigned f valstr
  cast_as FfType.unsigned f valstr = cast_unsigned f valstr
  cast_as FfType.int64 f valstr = cast_signed f valstr
  cast_as FfType.int32 f valstr = cast_signed f valstr
  cast_as FfType.int16 f valstr = cast_signed f valstr
  cast_as FfType.int8 f valstr = cast_signed f valstr
  cast_as FfType.signed_big f valstr = cast_signed f valstr
  cast_as FfType.signed f valstr = cast_signed f valstr
  cast_as FfType.string f valstr = cast_string f valstr
  cast_as FfType.mac f valstr = or_message f 6 (str_to_mac env.strtoul_16 alloc valstr)
  cast_as FfType.timestamp_big f valstr = cast_time f valstr
  cast_as FfType.timestamp f valstr = cast_time f valstr
  cast_as FfType.unsupported f valstr = error err_other_msg
  cast_as FfType.term f valstr = error err_other_msg

  unfoldable pub ff_type_cast : List ℕ → NodeFields → Made NodeFields
  unfolding cast_as
  ff_type_cast valstr f = cast_as f.type f valstr

  abbrev pub checked : NodeFields → FfLvalue → Checked → Made NodeFields
  checked f info c =
      if is_err c.0
      then error err_other_msg
      else made (record f { value = c.1; type = info.type; opcode = c.0 })

  unfoldable pub ff_type_validate : List ℕ → NodeFields → FfLvalue → Made NodeFields
  unfolding ff_type_cast ff_validate
  ff_type_validate valstr f info = elim (ff_type_cast valstr f) [
    | made g ↦ checked g info (ff_validate g.type g.oper g.value info)
    | error e ↦ error e
    | wild ↦ wild
  ]
