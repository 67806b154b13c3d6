-- ===== src/HashTable/Insert.antt =====
-- src/hash_table.c, `hash_table_insert_hash`: an insertion changes the value of its key alone.
use libnf.Base.{
  ℕ, ◌%◌, ◌<◌, ◌≡◌, refl, sym, ap, ◌∙◌, ◌≢◌, inl, inr, true, false, List, [], ◌∷◌, ◌++◌, Option,
  none, some, arith, ◌==◌, ==_iff, if◌then◌else◌, length, get_or, All, Bool-cases, Option-cases,
  length-set,
}
use libnf.Base.Bytes.{bytes, same_bytes, same_bytes_iff, same_bytes-bytes, same_bytes_of_eq}
use libnf.HashTable.{
  Row, Heap, no_row, row, HashTable, find_row, link_row, count_entry, bucket_of, lookup, aggregate,
  new_row, add_row,
}
use libnf.HashTable.Lookup.{
  get_or-append_left, get_or-append_length, get_or-set, InHeap, IsTable, find_row-found,
  find_row_congr, view, chain_of, lookup_lem, chain_of-InHeap, lookup_congr,
}

module _ (xxh64 : List ℕ → ℕ) (aggr : List ℕ → List ℕ → List ℕ → List ℕ) where
  -- The value of a key after an insertion, from its value before.
  abbrev pub stored : HashTable → List ℕ → List ℕ → Option (List ℕ) → List ℕ
  stored t key val none = bytes t.vallen val
  stored t key val (some old) = aggr key old val

  pub length-aggregate :
      (h : Heap) (p : ℕ) (key val : List ℕ) → length (aggregate aggr h p key val) ≡ length h
  unfolding aggregate
  length-aggregate h p key val =
      length-set h p (record (row h p) { val = aggr key (row h p).val val })

  aggregate-key :
      (h : Heap) (p x : ℕ) (key val : List ℕ)
      → p < length h
      → (row (aggregate aggr h p key val) x).key ≡ (row h x).key
  unfolding aggregate
  aggregate-key h p x key val fits =
      ground
        (arith, get_or-set h p x (record (row h p) { val = aggr key (row h p).val val }) no_row)

  aggregate-val :
      (h : Heap) (p x : ℕ) (key val : List ℕ)
      → p < length h
      → (row (aggregate aggr h p key val) x).val
        ≡ (if p == x then aggr key (row h p).val val else (row h x).val)
  unfolding aggregate
  aggregate-val h p x key val fits =
      ground
        (arith, get_or-set h p x (record (row h p) { val = aggr key (row h p).val val }) no_row)

  pub aggregate-keys :
      (h : Heap) (p : ℕ) (key val : List ℕ) (chain : List ℕ)
      → p < length h
      → All (λ x. (row (aggregate aggr h p key val) x).key ≡ (row h x).key) chain
  aggregate-keys h p key val [] fits = tt
  aggregate-keys h p key val (x ∷ chain) fits =
      (aggregate-key h p x key val fits, aggregate-keys h p key val chain fits)

  pub lookup-aggregate :
      (h : Heap) (t : HashTable) (p : ℕ) (key val q : List ℕ)
      → p < length h
      → lookup xxh64 (aggregate aggr h p key val) t q ≡ lookup xxh64 h t q
  lookup-aggregate h t p key val q fits =
      rw (lookup_lem xxh64, lookup_lem xxh64)
        (find_row_congr h (aggregate aggr h p key val) t.keylen q q (chain_of xxh64 t q) refl
          (aggregate-keys h p key val (chain_of xxh64 t q) fits))

  pub lookup-found :
      {h : Heap} {t : HashTable} (key : List ℕ) (p : ℕ)
      → IsTable h t
      → lookup xxh64 h t key ≡ some p
      → (p < length h) × (bytes t.keylen (row h p).key ≡ bytes t.keylen key)
  lookup-found {h} {t} key p v e =
      find_row-found h t.keylen key (chain_of xxh64 t key) p (chain_of-InHeap xxh64 key v)
        (sym (lookup_lem xxh64 h t key) ∙ e)

  -- Rows found for different keys are different.
  rows_apart :
      {h : Heap} {t : HashTable} (key q : List ℕ) (p x : ℕ)
      → IsTable h t
      → lookup xxh64 h t key ≡ some p
      → lookup xxh64 h t q ≡ some x
      → same_bytes t.keylen key q ≡ false
      → p ≢ x
  rows_apart {h} {t} key q p x v e found other px =
      let n = t.keylen in
      let same =
        sym (lookup-found key p v e).1
        ∙ ap (λ z. bytes n (row h z).key) px
        ∙ (lookup-found q x v found).1 in
      cc (same_bytes_of_eq n key q same, other)

  pub view-aggregate :
      (h : Heap) (t : HashTable) (p : ℕ) (key val q : List ℕ)
      → IsTable h t
      → lookup xxh64 h t key ≡ some p
      → view xxh64 (aggregate aggr h p key val) t q ≡ (
          if same_bytes t.keylen key q then some (aggr key (row h p).val val) else view xxh64 h t q)
  unfolding view
  view-aggregate h t p key val q v e =
      let (fits, holds) = lookup-found key p v e in
      rw (lookup-aggregate h t p key val q fits) (elim (Bool-cases (same_bytes t.keylen key q)) [
        | inl same ↦
            let here =
              sym (lookup_congr xxh64 h t key q ((same_bytes_iff t.keylen key q).0 same)) ∙ e in
            rw (same, here) (ap some (aggregate-val h p p key val fits ∙ ground arith))
        | inr other ↦ rw other (elim (Option-cases (lookup xxh64 h t q)) [
          | inl none_there ↦ rw none_there
          | inr (x, found) ↦ rw found (
              ap some (
                aggregate-val h p x key val fits
                ∙ ground (arith, rows_apart key q p x v e found other)))
        ])
      ])

  chain_of-add_row :
      (h : Heap) (t : HashTable) (key val q : List ℕ)
      → 0 < length t.buckets
      → chain_of xxh64 (add_row xxh64 h t key val).1 q ≡ (
          if bucket_of xxh64 t key == bucket_of xxh64 t q
          then length h ∷ chain_of xxh64 t q
          else chain_of xxh64 t q)
  unfolding chain_of add_row bucket_of
  chain_of-add_row h t key val q pos =
      let i = xxh64 (bytes t.keylen key) % length t.buckets in
      let j = xxh64 (bytes t.keylen q) % length t.buckets in
      rw length-set (
        get_or-set t.buckets i j (length h ∷ get_or t.buckets i []) [] (omega arith) ∙ ground arith)

  find_row-append :
      (h : Heap) (n : ℕ) (q : List ℕ) (r : Row) (chain : List ℕ)
      → InHeap h chain
      → find_row (h ++ r ∷ []) n q chain ≡ find_row h n q chain
  find_row-append h n q r chain fits =
      find_row_congr h (h ++ r ∷ []) n q q chain refl (keys chain fits)
    where
      keys : (l : List ℕ) → InHeap h l → All (λ p. (row (h ++ r ∷ []) p).key ≡ (row h p).key) l
      keys [] f = tt
      keys (p ∷ l) f =
          (ap (λ (z : Row). z.key) (get_or-append_left h (r ∷ []) p no_row f.0), keys l f.1)

  find_row-new :
      (h : Heap) (t : HashTable) (key val q : List ℕ) (chain : List ℕ)
      → InHeap h chain
      → find_row (h ++ new_row xxh64 t key val ∷ []) t.keylen q (length h ∷ chain)
        ≡ (if same_bytes t.keylen key q then some (length h) else find_row h t.keylen q chain)
  unfolding find_row
  find_row-new h t key val q chain fits = rw (
    get_or-append_length,
    same_bytes-bytes,
    find_row-append h t.keylen q (new_row xxh64 t key val) chain fits,
  )

  bucket_of_congr :
      (t : HashTable) (key q : List ℕ)
      → same_bytes t.keylen key q ≡ true
      → (bucket_of xxh64 t key == bucket_of xxh64 t q) ≡ true
  unfolding bucket_of
  bucket_of_congr t key q e =
      (==_iff _ _).1 (ap (λ b. xxh64 b % length t.buckets) ((same_bytes_iff t.keylen key q).0 e))

  pub lookup-add_row :
      (h : Heap) (t : HashTable) (key val q : List ℕ)
      → IsTable h t
      → lookup xxh64 (add_row xxh64 h t key val).0 (add_row xxh64 h t key val).1 q
        ≡ (if same_bytes t.keylen key q then some (length h) else lookup xxh64 h t q)
  lookup-add_row h t key val q v =
      let chain = chain_of xxh64 t q in
      let fits = chain_of-InHeap xxh64 q v in
      let found = find_row-new h t key val q chain fits in
      let old = find_row-append h t.keylen q (new_row xxh64 t key val) chain fits in
      lookup_lem xxh64 (add_row xxh64 h t key val).0 (add_row xxh64 h t key val).1 q
      ∙ rw (chain_of-add_row h t key val q v.roomy, lookup_lem xxh64 h t q)
          (unfold add_row link_row count_entry in
            (elim (Bool-cases (same_bytes t.keylen key q)) [
              | inl same ↦ rw (bucket_of_congr t key q same) found
              | inr other ↦ elim (Bool-cases (bucket_of xxh64 t key == bucket_of xxh64 t q)) [
                | inl e ↦ rw e found
                | inr e ↦ rw (e, other) old
              ]
            ]))
