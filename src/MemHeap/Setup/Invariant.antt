-- ===== src/MemHeap/Setup/Invariant.antt =====
-- src/memheap.c: the layout of the rows through the calls that add fields.
use libnf.Base.{
  ℕ, zero, suc, ◌<◌, ◌≡◌, refl, inl, inr, Bool, ◌||◌, List, [], ◌∷◌, Option, none, some, arith,
  ◌==◌, All, All-mono, Bool-cases, Option-cases,
}
use libnf.MemHeap.FieldList.{Field, lookup_field}
use libnf.MemHeap.FieldList.Layout.{IsLaid, width, add_or_upd-cases}
use libnf.MemHeap.Setup.{
  Fields, Ret, ok, err_nomem, err_unkfld, err_other, Mem, is_some, sort_by, type_size, new_field,
  add_key, add_val, fadd_one, add_deps, mem_fadd,
}

-- The fields of the key and of the value are laid out from 0 without a gap, and the two lengths are
-- the sums of their sizes.
pub record IsMem (mem : Mem) : Type 0 where
  pub key_laid : IsLaid 0 mem.key_list
  pub val_laid : IsLaid 0 mem.val_list
  pub key_sized : mem.key_len ≡ width mem.key_list
  pub val_sized : mem.val_len ≡ width mem.val_list

sort_by-IsMem :
    (mem : Mem) (part field offset flag : ℕ)
    → IsMem mem
    → IsMem (sort_by mem part field offset flag)
sort_by-IsMem mem part field offset flag k = elim (Bool-cases (flag == 0)) [
  | inl unsorted ↦ rw unsorted k
  | inr sorted ↦ rw sorted (record {
    key_laid = k.key_laid;
    val_laid = k.val_laid;
    key_sized = k.key_sized;
    val_sized = k.val_sized;
  })
]

-- Adding a field returns, and leaves a sound store.
abbrev pub Returns : Option (Ret × Mem) → Type 0
Returns result = (ret : Ret) × (mem : Mem) × (result ≡ some (ret, mem)) × IsMem mem

module _ (fields : Fields) (alloc : Bool) where
  add_key-IsMem : (mem : Mem) (fld : Field) → IsMem mem → IsMem (add_key fields alloc mem fld).1
  unfolding add_key
  add_key-IsMem mem fld k = elim (add_or_upd-cases alloc mem.key_list fld 512 k.key_laid) [
    | inl e ↦ rw (e, add_key) k
    | inr (list, offset, e, laid) ↦
        let sorted =
          sort_by-IsMem (record mem { key_list = list; key_len = width list }) 1 fld.field offset
            fld.sort_flag
            (record {
              key_laid = laid;
              val_laid = k.val_laid;
              key_sized = refl;
              val_sized = k.val_sized;
            }) in
        rw (e, add_key)
          (elim (Bool-cases (fields.fld_pair fld.field)) [
            | inl pair ↦ rw pair (record {
              key_laid = sorted.key_laid;
              val_laid = sorted.val_laid;
              key_sized = sorted.key_sized;
              val_sized = sorted.val_sized;
            })
            | inr one ↦ rw one sorted
          ])
  ]

  add_val-IsMem : (mem : Mem) (fld : Field) → IsMem mem → IsMem (add_val fields alloc mem fld).1
  unfolding add_val
  add_val-IsMem mem fld k = elim (add_or_upd-cases alloc mem.val_list fld 256 k.val_laid) [
    | inl e ↦ rw (e, add_val) k
    | inr (list, offset, e, laid) ↦
        rw (e, add_val)
          (sort_by-IsMem _ 2 fld.field offset fld.sort_flag (record {
            key_laid = k.key_laid;
            val_laid = laid;
            key_sized = k.key_sized;
            val_sized = refl;
          }))
  ]

  fadd_one-IsMem :
      (mem : Mem) (field flags numbits numbits6 : ℕ)
      → IsMem mem
      → IsMem (fadd_one fields alloc mem field flags numbits numbits6).1
  unfolding fadd_one
  fadd_one-IsMem mem field flags numbits numbits6 k =
      elim (Option-cases (type_size (fields.fld_type field))) [
        | inl e ↦ rw (e, fadd_one) k
        | inr (size, e) ↦
            let fld = new_field fields size field flags numbits numbits6 in
            rw (e, fadd_one)
              (elim (Bool-cases (fld.aggr_flag == 8)) [
                | inl key ↦ rw key (add_key-IsMem mem fld k)
                | inr val ↦ rw val (add_val-IsMem mem fld k)
              ])
      ]

  add_deps-IsMem :
      (add : Mem → ℕ → Option (Ret × Mem)) (deps : List ℕ) (mem : Mem)
      → All (λ dep. (n : Mem) → IsMem n → Returns (add n dep)) deps
      → IsMem mem
      → Returns (add_deps fields add mem deps)
  unfolding add_deps
  add_deps-IsMem add [] mem adds k = (ok, mem, refl, k)
  add_deps-IsMem add (dep ∷ deps) mem adds k =
      elim (Bool-cases
        (is_some (lookup_field mem.key_list dep) || is_some (lookup_field mem.val_list dep))) [
          | inl known ↦ rw known (add_deps-IsMem add deps mem adds.1 k)
          | inr new ↦ rw new (added (λ m l. add_deps-IsMem add deps m adds.1 l) (adds.0 mem k))
        ]
    where
      added :
          ((m : Mem) → IsMem m → Returns (add_deps fields add m deps))
          → Returns (add mem dep)
          → Returns (elim (add mem dep) [
            | none ↦ none
            | some (ret, m) ↦ elim ret [
              | ok ↦ add_deps fields add m deps
              | err_nomem ↦ some (err_nomem, m)
              | err_unkfld ↦ some (err_unkfld, m)
              | err_other ↦ some (err_other, m)
            ]
          ])
      added later (ok, m, e, k') = rw e (later m k')
      added later (err_nomem, m, e, k') = rw e (err_nomem, m, refl, k')
      added later (err_unkfld, m, e, k') = rw e (err_unkfld, m, refl, k')
      added later (err_other, m, e, k') = rw e (err_other, m, refl, k')

  -- What `mem_fadd` makes of the result of its first part.
  finish-IsMem :
      (result : Ret × Mem) (next : Mem → Option (Ret × Mem))
      → IsMem result.1
      → ((m : Mem) → IsMem m → Returns (next m))
      → Returns (elim result.0 [
        | ok ↦ next result.1
        | err_nomem ↦ some (err_nomem, result.1)
        | err_unkfld ↦ some (err_unkfld, result.1)
        | err_other ↦ some (err_other, result.1)
      ])
  finish-IsMem (ok, m) next k later = later m k
  finish-IsMem (err_nomem, m) next k later = (err_nomem, m, refl, k)
  finish-IsMem (err_unkfld, m) next k later = (err_unkfld, m, refl, k)
  finish-IsMem (err_other, m) next k later = (err_other, m, refl, k)

module _ (fields : Fields) (alloc : ℕ → Bool) (rank : ℕ → ℕ)
    (ranked : (field : ℕ) → All (λ dep. rank dep < rank field) (fields.calc_deps field)) where
  -- When calculated fields depend on each other without a cycle, so that they can be ranked, adding
  -- a field returns within as much fuel as its rank, whether malloc succeeds or not for this and
  -- for each of the fields it depends on; whatever
  -- it returns, the fields of the key and of the value stay laid out from 0 without a gap,
  -- and the two lengths stay the sums of their sizes.
  pub mem_fadd-IsMem :
      (fuel : ℕ) (mem : Mem) (field flags numbits numbits6 : ℕ)
      → rank field < fuel
      → IsMem mem
      → Returns (mem_fadd fields fuel alloc mem field flags numbits numbits6)
  unfolding mem_fadd
  mem_fadd-IsMem zero mem field flags numbits numbits6 h k = absurd (omega arith)
  mem_fadd-IsMem (suc fuel) mem field flags numbits numbits6 h k =
      let deps = fields.calc_deps field in
      let adds =
        All-mono (λ dep. rank dep < rank field)
          (λ dep. (n : Mem) → IsMem n → Returns (mem_fadd fields fuel alloc n dep 0 0 0)) deps
          (λ dep lower n l. mem_fadd-IsMem fuel n dep 0 0 0 (omega arith) l) (ranked field) in
      finish-IsMem fields (alloc field)
        (fadd_one fields (alloc field) mem field flags numbits numbits6)
        (λ m. add_deps fields (λ n dep. mem_fadd fields fuel alloc n dep 0 0 0) m deps)
        (fadd_one-IsMem fields (alloc field) mem field flags numbits numbits6 k)
        (λ m l.
          add_deps-IsMem fields (alloc field) (λ n dep. mem_fadd fields fuel alloc n dep 0 0 0) deps
            m adds l)
