-- ===== src/MemHeap/FieldList.antt =====
-- src/memheap.c: the lists of the fields that make up the key and the value of a row.
pub mod Layout
use libnf.Base.{
  ℕ, zero, suc, ◌+◌, Bool, List, [], ◌∷◌, ◌++◌, Option, none, some, ◌==◌, leb, if◌then◌else◌,
}

-- the aggregation functions, with the size of their type in bytes
pub data AggrFunc : Type 0 where
  aggr_sum aggr_or aggr_min aggr_max : ℕ → AggrFunc
  aggr_sum_double aggr_min_double aggr_max_double : AggrFunc
  aggr_empty : AggrFunc

-- `lnf_fieldlist_t`
pub record Field : Type 0 where
  pub field : ℕ
  pub size : ℕ
  pub type : ℕ
  pub offset : ℕ
  pub aggr_flag : ℕ
  pub sort_flag : ℕ
  pub numbits : ℕ
  pub numbits6 : ℕ
  pub aggr_func : AggrFunc

-- `offset + size` of the last field
unfoldable pub end_of : List Field → ℕ
end_of [] = 0
end_of (f ∷ []) = f.offset + f.size
end_of (f ∷ g ∷ l) = end_of (g ∷ l)

-- The offset of a field that is added: for a list of one field its size, whatever its offset.
unfoldable pub next_offset : List Field → ℕ
unfolding end_of
next_offset [] = 0
next_offset (f ∷ []) = f.size
next_offset (f ∷ g ∷ l) = end_of (g ∷ l)

abbrev pub update : Field → Field → Field
update f snode = record f {
  aggr_flag = snode.aggr_flag;
  sort_flag = snode.sort_flag;
  numbits = snode.numbits;
  numbits6 = snode.numbits6;
  aggr_func = snode.aggr_func;
}

-- The first loop: the list with the field updated, and its offset; `none` when it is not there.
unfoldable pub update_in : List Field → Field → Option (List Field × ℕ)
update_in [] snode = none
update_in (f ∷ l) snode =
    let others = update_in l snode in
    if f.field == snode.field
    then some (update f snode ∷ l, f.offset)
    else elim others [ none ↦ none | some (l', offset) ↦ some (f ∷ l', offset) ]

-- Whether the new field is refused; `node->offset` is 0 when the code compares.
unfoldable pub is_full : List Field → Field → ℕ → Bool
is_full [] snode maxsize = Bool.false
is_full (f ∷ l) snode maxsize = leb maxsize (0 + snode.size)

-- `lnf_filedlist_add_or_upd`: the list, `*sizep` and `*roffset`; `none` stands for LNF_ERR_NOMEM,
-- which leaves the list as it is. `mem` says whether malloc succeeds.
unfoldable pub add_or_upd : Bool → List Field → Field → ℕ → Option (List Field × ℕ × ℕ)
unfolding update_in next_offset is_full
add_or_upd mem list snode maxsize = elim (update_in list snode) [
  | some (list', offset) ↦ some (list', end_of list', offset)
  | none ↦
      if mem
      then if is_full list snode maxsize
        then none
        else (let node : Field = record snode { offset = next_offset list } in
            some (list ++ node ∷ [], node.offset + node.size, node.offset))
      else none
]

-- `lnf_filedlist_lookup`
unfoldable pub lookup_field : List Field → ℕ → Option Field
lookup_field [] field = none
lookup_field (f ∷ l) field =
    let later = lookup_field l field in if f.field == field then some f else later
