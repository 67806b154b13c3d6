-- ===== src/MemHeap/Setup.antt =====
-- src/memheap.c: the settings of a store, the fields that its rows are made of.
-- What fields.c says of a field is the parameter `fields`.
pub mod Invariant
use Prim.Native.Nat.{bit_and, bit_or}
use libnf.Base.{
  ℕ, zero, suc, ◌+◌, Bool, true, false, not, ◌&&◌, ◌||◌, List, [], ◌∷◌, Option, none, some, ltb,
  ◌==◌, if◌then◌else◌,
}
use libnf.MemHeap.FieldList.{
  AggrFunc, aggr_sum, aggr_or, aggr_min, aggr_max, aggr_sum_double, aggr_min_double,
  aggr_max_double, aggr_empty, Field, add_or_upd, lookup_field,
}

-- `lnf_fld_type`, LNF_FLD_INFO_AGGR of `lnf_fld_info`, whether both results of `__lnf_fld_pair` are
-- set, and the results of `__lnf_fld_calc_dep` up to LNF_FLD_ZERO_
pub record Fields : Type 0 where
  pub fld_type : ℕ → ℕ
  pub fld_aggr : ℕ → ℕ
  pub fld_pair : ℕ → Bool
  pub calc_deps : ℕ → List ℕ

-- LNF_OK and the errors
pub data Ret : Type 0 where
  ok err_nomem err_unkfld err_other : Ret

-- the settings in `lnf_mem_t`
pub record Mem : Type 0 where
  pub key_list : List Field
  pub key_len : ℕ
  pub val_list : List Field
  pub val_len : ℕ
  pub fastaggr_mode : ℕ
  pub sort_field : ℕ
  pub sort_offset : ℕ
  pub sort_flags : ℕ
  pub statistics_mode : Bool
  pub list_mode : Bool
  pub nfdump_comp_statistics : Bool
  pub hash_table_buckets : ℕ

-- `lnf_mem_init`; `buckets` is HASH_TABLE_INIT_SIZE
unfoldable pub mem_init : ℕ → Mem
mem_init buckets = record {
  key_list = [];
  key_len = 0;
  val_list = [];
  val_len = 0;
  fastaggr_mode = 0;
  sort_field = 0;
  sort_offset = 0;
  sort_flags = 0;
  statistics_mode = false;
  list_mode = false;
  nfdump_comp_statistics = false;
  hash_table_buckets = buckets;
}

-- `lnf_mem_setopt`; `val` is the `int` that `data` points to
unfoldable pub mem_setopt : Mem → ℕ → ℕ → ℕ → Ret × Mem
mem_setopt mem opt val size =
    if opt == 1
    then if size == 4 then (ok, record mem { hash_table_buckets = val }) else (err_other, mem)
    else if opt == 2
    then (ok, record mem { list_mode = true })
    else if opt == 3
    then (ok, record mem { nfdump_comp_statistics = true })
    else (err_other, mem)

-- the size of a type in bytes
unfoldable pub type_size : ℕ → Option ℕ
type_size type =
    if type == 0x08
    then some 1
    else if type == 0x16
    then some 2
    else if type == 0x32
    then some 4
    else if type == 0x64 || type == 0x70
    then some 8
    else if type == 0xA1
    then some 16
    else if type == 0xA2
    then some 6
    else none

-- the functions on integers of `w` bytes, by LNF_AGGR_MIN, MAX, SUM and OR
abbrev integer_func : ℕ → ℕ → AggrFunc
integer_func w flag =
    if flag == 1
    then aggr_min w
    else if flag == 2
    then aggr_max w
    else if flag == 3
    then aggr_sum w
    else if flag == 4
    then aggr_or w
    else aggr_empty

abbrev double_func : ℕ → AggrFunc
double_func flag =
    if flag == 1
    then aggr_min_double
    else if flag == 2
    then aggr_max_double
    else if flag == 3
    then aggr_sum_double
    else aggr_empty

unfoldable pub select_func : ℕ → ℕ → AggrFunc
select_func type flag =
    if type == 0x08
    then integer_func 1 flag
    else if type == 0x16
    then integer_func 2 flag
    else if type == 0x32
    then integer_func 4 flag
    else if type == 0x64
    then integer_func 8 flag
    else if type == 0x70
    then double_func flag
    else aggr_empty

abbrev pub is_some {ℓ} : {A : Type ℓ} → Option A → Bool
is_some none = false
is_some (some _) = true

-- The changes of the sort settings; `part` is LNF_SORT_FLD_IN_KEY or LNF_SORT_FLD_IN_VAL.
abbrev pub sort_by : Mem → ℕ → ℕ → ℕ → ℕ → Mem
sort_by mem part field offset flag =
    if flag == 0
    then mem
    else record mem { sort_field = field; sort_offset = offset; sort_flags = bit_or part flag }

module _ (fields : Fields) where
  -- the field that `lnf_mem_fadd` describes in `fld`
  unfoldable pub new_field : ℕ → ℕ → ℕ → ℕ → ℕ → Field
  unfolding select_func
  new_field size field flags numbits numbits6 =
      let type = fields.fld_type field in
      let flag =
        if bit_and flags 0xF == 0
        then if ltb 0 numbits && type == 0x64 then 8 else fields.fld_aggr field
        else bit_and flags 0xF in
      record {
        field = field;
        size = size;
        type = type;
        offset = 0;
        aggr_flag = flag;
        sort_flag = bit_and flags 0xF0;
        numbits = numbits;
        numbits6 = numbits6;
        aggr_func = select_func type flag;
      }

  -- `fld` is added to the keys or the values; LNF_MAX_KEY_LEN is 512, LNF_MAX_VAL_LEN 256
  unfoldable pub add_key : Bool → Mem → Field → Ret × Mem
  unfolding add_or_upd
  add_key alloc mem fld = elim (add_or_upd alloc mem.key_list fld 512) [
    | none ↦ (err_nomem, mem)
    | some (list, len, offset) ↦
        let m = record mem { key_list = list; key_len = len } in
        let n = sort_by m 1 fld.field offset fld.sort_flag in
        (ok, if fields.fld_pair fld.field then record n { statistics_mode = true } else n)
  ]

  unfoldable pub add_val : Bool → Mem → Field → Ret × Mem
  unfolding add_or_upd
  add_val alloc mem fld = elim (add_or_upd alloc mem.val_list fld 256) [
    | none ↦ (err_nomem, mem)
    | some (list, len, offset) ↦
        let m = record mem { val_list = list; val_len = len } in
        (ok, sort_by m 2 fld.field offset fld.sort_flag)
  ]

  -- `lnf_mem_fadd` up to the fields that the field depends on
  unfoldable pub fadd_one : Bool → Mem → ℕ → ℕ → ℕ → ℕ → Ret × Mem
  unfolding type_size new_field add_key add_val
  fadd_one alloc mem field flags numbits numbits6 = elim (type_size (fields.fld_type field)) [
    | none ↦ (err_unkfld, mem)
    | some size ↦
        let fld = new_field size field flags numbits numbits6 in
        if fld.aggr_flag == 8 then add_key alloc mem fld else add_val alloc mem fld
  ]

  -- The loop over the fields that a field depends on, with `lnf_mem_fadd` as `add`: those that
  -- stand in no list yet are added.
  unfoldable pub add_deps : (Mem → ℕ → Option (Ret × Mem)) → Mem → List ℕ → Option (Ret × Mem)
  unfolding lookup_field
  add_deps add mem [] = some (ok, mem)
  add_deps add mem (dep ∷ deps) =
      if is_some (lookup_field mem.key_list dep) || is_some (lookup_field mem.val_list dep)
      then add_deps add mem deps
      else elim (add mem dep) [
        | none ↦ none
        | some (ret, m) ↦ elim ret [
          | ok ↦ add_deps add m deps
          | err_nomem ↦ some (err_nomem, m)
          | err_unkfld ↦ some (err_unkfld, m)
          | err_other ↦ some (err_other, m)
        ]
      ]

  -- `lnf_mem_fadd`; the fuel bounds the depth of dependencies, `none` when it runs out. `alloc` says of
  -- each field whether malloc succeeds when it is added; no field is added twice in one call.
  unfoldable pub mem_fadd : ℕ → (ℕ → Bool) → Mem → ℕ → ℕ → ℕ → ℕ → Option (Ret × Mem)
  unfolding fadd_one add_deps
  mem_fadd zero alloc mem field flags numbits numbits6 = none
  mem_fadd (suc fuel) alloc mem field flags numbits numbits6 =
      let (ret, m) = fadd_one (alloc field) mem field flags numbits numbits6 in
      elim ret [
        | ok ↦ add_deps (λ n dep. mem_fadd fuel alloc n dep 0 0 0) m (fields.calc_deps field)
        | err_nomem ↦ some (err_nomem, m)
        | err_unkfld ↦ some (err_unkfld, m)
        | err_other ↦ some (err_other, m)
      ]

  abbrev pub after : Option (Ret × Mem) → (Mem → Option (Ret × Mem)) → Option (Ret × Mem)
  after none next = none
  after (some (ret, m)) next = next m

  -- `lnf_mem_fastaggr`, which does not look at the results of its calls
  unfoldable pub mem_fastaggr : ℕ → (ℕ → Bool) → Mem → ℕ → Option (Ret × Mem)
  unfolding mem_fadd
  mem_fastaggr fuel alloc mem mode =
      if mode == 1 || mode == 2
      then after (mem_fadd fuel alloc (record mem { fastaggr_mode = 1 }) 1 1 0 0) (λ m.
        after (mem_fadd fuel alloc m 2 2 0 0) (λ m. after (mem_fadd fuel alloc m 4 3 0 0) (λ m.
          after (mem_fadd fuel alloc m 5 3 0 0)
            (λ m. after (mem_fadd fuel alloc m 8 3 0 0) (λ m. some (ok, m))))))
      else some (err_other, mem)
