-- ===== src/Tests/Setup.antt =====
-- src/memheap.c: the fields that a store adds, for two plain fields and one calculated from them.
use libnf.Base.{
  ℕ, ◌<◌, ◌≡◌, refl, true, false, List, [], ◌∷◌, none, some, arith, All, ◌==◌, if◌then◌else◌,
  Option, Bool-cases, inl, inr,
}
use libnf.MemHeap.Aggr.Fast.{fast_list}
use libnf.MemHeap.FieldList.{add_or_upd, update_in, next_offset, is_full, end_of, Field}
use libnf.MemHeap.Setup.{
  Fields, Ret, Mem, mem_init, mem_fadd, mem_fastaggr, fadd_one, type_size, new_field, select_func,
  add_val, add_deps,
}
use libnf.MemHeap.Setup.Invariant.{IsMem, Returns, mem_fadd-IsMem}

-- all fields are LNF_UINT64 that are summed; field 30 is calculated from 4 and 5
abbrev small : Fields
small = record {
  fld_type = λ field. 0x64;
  fld_aggr = λ field. 3;
  fld_pair = λ field. false;
  calc_deps = λ field. if field == 30 then 4 ∷ 5 ∷ [] else [];
}

abbrev depth : ℕ → ℕ
depth field = if field == 30 then 1 else 0

small_ranked : (field : ℕ) → All (λ dep. depth dep < depth field) (small.calc_deps field)
small_ranked field = elim (Bool-cases (field == 30)) [
  | inl calc ↦ rw calc (omega arith, (omega arith, tt))
  | inr plain ↦ rw plain tt
]

empty-IsMem : IsMem (mem_init 10)
unfolding mem_init
empty-IsMem = record { key_laid = tt; val_laid = tt; key_sized = refl; val_sized = refl }

small_added : Returns (mem_fadd small 2 (λ id. true) (mem_init 10) 30 0 0 0)
small_added =
    mem_fadd-IsMem small (λ id. true) depth small_ranked 2 (mem_init 10) 30 0 0 0 (omega arith)
      empty-IsMem

abbrev pub values : Option (Ret × Mem) → List Field
values none = []
values (some (ret, mem)) = mem.val_list

-- The fast mode sets up the fields of the fast callback.
values-mem_fastaggr : values (mem_fastaggr small 1 (λ id. true) (mem_init 10) 1) ≡ fast_list
unfolding mem_fastaggr mem_fadd fadd_one type_size new_field select_func add_val add_or_upd
    update_in next_offset is_full end_of add_deps mem_init
values-mem_fastaggr = refl
