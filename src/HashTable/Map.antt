-- ===== src/HashTable/Map.antt =====
-- src/hash_table.c: what a client sees of insertions, single and in sequence.
use libnf.Base.{
  ℕ, ◌≤◌, ◌<◌, ◌≡◌, ◌≢◌, inl, inr, true, List, [], ◌∷◌, ◌++◌, none, some, arith, if◌then◌else◌,
  length, All, All-mono, Bool-cases, Option-cases, length-append, length-set,
}
use libnf.Base.Bytes.{bytes, same_bytes}
use libnf.HashTable.{
  Heap, no_row, HashTable, link_row, count_entry, lookup, aggregate, new_row, add_row, insert_hash,
}
use libnf.HashTable.Lookup.{
  get_or-append_left, get_or-append_length, All-get_or, All-set, InHeap, IsTable, view,
}
use libnf.HashTable.Insert.{stored, view-aggregate, lookup-add_row, lookup-found, length-aggregate}

pub InHeap-mono : (h h' : Heap) (l : List ℕ) → length h ≤ length h' → InHeap h l → InHeap h' l
InHeap-mono h h' l le = All-mono (λ p. p < length h) (λ p. p < length h') l (λ p k. omega arith)

chained_mono :
    (h h' : Heap) (b : List (List ℕ)) → length h ≤ length h' → All (InHeap h) b → All (InHeap h') b
chained_mono h h' b le = All-mono (InHeap h) (InHeap h') b (λ l. InHeap-mono h h' l le)

module _ (xxh64 : List ℕ → ℕ) (aggr : List ℕ → List ℕ → List ℕ → List ℕ) where
  view-add_row :
      (h : Heap) (t : HashTable) (key val q : List ℕ)
      → IsTable h t
      → view xxh64 (add_row xxh64 h t key val).0 (add_row xxh64 h t key val).1 q
        ≡ (if same_bytes t.keylen key q then some (bytes t.vallen val) else view xxh64 h t q)
  unfolding view
  view-add_row h t key val q v = rw (lookup-add_row xxh64 aggr h t key val q v) (
      unfold add_row in
      (elim (Bool-cases (same_bytes t.keylen key q)) [
        | inl same ↦ rw same (rw get_or-append_length)
        | inr other ↦ rw other (elim (Option-cases (lookup xxh64 h t q)) [
          | inl e ↦ rw e
          | inr (x, e) ↦ rw e (
              rw (
                get_or-append_left h (new_row xxh64 t key val ∷ []) x no_row
                  (lookup-found xxh64 aggr q x v e).0))
        ])
      ]))

  add_row-IsTable :
      (h : Heap) (t : HashTable) (key val : List ℕ)
      → IsTable h t
      → IsTable (add_row xxh64 h t key val).0 (add_row xxh64 h t key val).1
  unfolding add_row link_row count_entry
  add_row-IsTable h t key val v = record {
    roomy = rw length-set v.roomy;
    chained =
        let h' = h ++ new_row xxh64 t key val ∷ [] in
        let grows : length h < length h' =
          omega (arith, length-append h (new_row xxh64 t key val ∷ [])) in
        let old = chained_mono h h' t.buckets (omega arith) v.chained in
        All-set (InHeap h') t.buckets _ _ (grows, All-get_or (InHeap h') t.buckets _ [] tt old) old;
  }

  aggregate-IsTable :
      (h : Heap) (t : HashTable) (p : ℕ) (key val : List ℕ)
      → IsTable h t
      → IsTable (aggregate aggr h p key val) t
  aggregate-IsTable h t p key val v = record {
    roomy = v.roomy;
    chained =
        chained_mono h (aggregate aggr h p key val) t.buckets
          (omega (arith, length-aggregate xxh64 aggr h p key val)) v.chained;
  }

  -- After an insertion with memory left, the key has the aggregate of its old value and the new
  -- one, or the new value if it had none; every other key keeps its value; the table stays sound.
  pub view-insert_hash :
      (h : Heap) (t : HashTable) (key val q : List ℕ)
      → IsTable h t
      → let (r, h', t') = insert_hash xxh64 aggr true h t key val in
        (view xxh64 h' t' q ≡ (
          if same_bytes t.keylen key q
          then some (stored xxh64 aggr t key val (view xxh64 h t key))
          else view xxh64 h t q))
        × (r ≢ none)
        × IsTable h' t'
  unfolding insert_hash view
  view-insert_hash h t key val q v = elim (Option-cases (lookup xxh64 h t key)) [
    | inl e ↦
        rw (e, insert_hash) (view-add_row h t key val q v, (λ n. cc), add_row-IsTable h t key val v)
    | inr (p, e) ↦
        rw (e, insert_hash)
          (
            view-aggregate xxh64 aggr h t p key val q v e,
            (λ n. cc),
            aggregate-IsTable h t p key val v,
          )
  ]
