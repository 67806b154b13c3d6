-- ===== src/HashTable/Conservation.antt =====
-- src/hash_table.c: the sums over a table that was filled from empty.
use libnf.Base.{
  ℕ, zero, suc, ◌+◌, ◌%◌, ◌^◌, ◌<◌, ◌≡◌, refl, ◌∙◌, List, [], ◌∷◌, true, arith, length, All,
  replicate, length-replicate,
}
use libnf.Base.Bytes.{bytes}
use libnf.HashTable.{Heap, HashTable, init, insert_hash, insert_all}
use libnf.HashTable.Lookup.{IsTable, InHeap}
use libnf.HashTable.Map.{view-insert_hash}
use libnf.HashTable.Totals.{IsLinked, total, insert_hash-Adds, occurrences}

All-replicate : {A : Type 0} (P : A → Type 0) (n : ℕ) (a : A) → P a → All P (replicate n a)
All-replicate P zero a h = tt
All-replicate P (suc n) a h = (h, All-replicate P n a h)

-- A new table with at least one bucket is sound, whatever the heap holds.
init-IsTable : (h : Heap) (n keylen vallen : ℕ) → 0 < n → IsTable h (init n keylen vallen)
unfolding init
init-IsTable h n keylen vallen pos = record {
  roomy = rw (length-replicate n) pos;
  chained = All-replicate (InHeap h) n [] tt;
}

init-IsLinked : (h : Heap) (n keylen vallen : ℕ) → IsLinked h (init n keylen vallen)
unfolding init
init-IsLinked h n keylen vallen = record {
  listed = tt;
  once = All-replicate (All (λ p. occurrences p [] ≡ 1)) n [] tt;
  counted = refl;
}

-- The measure of the values of some records.
abbrev pub offered : (List ℕ → ℕ) → List (List ℕ × List ℕ) → ℕ
offered m [] = 0
offered m ((key, val) ∷ records) = m val + offered m records

module _ (xxh64 : List ℕ → ℕ) (aggr : List ℕ → List ℕ → List ℕ → List ℕ) (m : List ℕ → ℕ)
    (additive : (key old val : List ℕ) → m (aggr key old val) % 2 ^ 64 ≡ (m old + m val) % 2 ^ 64)
    (w : ℕ) (reads : (val : List ℕ) → m (bytes w val) ≡ m val) where
  insert_all-total :
      (h : Heap) (t : HashTable) (records : List (List ℕ × List ℕ))
      → t.vallen ≡ w
      → IsTable h t
      → IsLinked h t
      → let (h', t') = insert_all xxh64 aggr h t records in
        (total m h' t'.slist % 2 ^ 64 ≡ (total m h t.slist + offered m records) % 2 ^ 64)
        × (t'.numentries ≡ length t'.slist)
  unfolding insert_all
  insert_all-total h t [] width v k = (omega arith, k.counted)
  insert_all-total h t ((key, val) ∷ records) width v k =
      let (_, h', t') = insert_hash xxh64 aggr true h t key val in
      let adds = insert_hash-Adds xxh64 aggr m additive w reads h t key val width v k in
      let (_, _, sound) = view-insert_hash xxh64 aggr h t key val key v in
      let (sums, counts) = insert_all-total h' t' records (adds.vallen ∙ width) sound adds.linked in
      (omega (arith, adds.sum), counts)

  -- However records are spread over keys and buckets: after they are inserted into a new table, a
  -- measure that the aggregation adds up sums over the rows of the list to what was offered, modulo
  -- 2 ^ 64, and the counter of entries is the length of the list.
  pub init-insert_all-total :
      (h : Heap) (numbuckets keylen : ℕ) (records : List (List ℕ × List ℕ))
      → 0 < numbuckets
      → let (h', t') = insert_all xxh64 aggr h (init numbuckets keylen w) records in
        (total m h' t'.slist % 2 ^ 64 ≡ offered m records % 2 ^ 64)
        × (t'.numentries ≡ length t'.slist)
  unfolding init
  init-insert_all-total h n keylen records pos =
      let t = init n keylen w in
      let (sums, counts) =
        insert_all-total h t records refl (init-IsTable h n keylen w pos)
          (init-IsLinked h n keylen w) in
      (omega (arith, sums), counts)
