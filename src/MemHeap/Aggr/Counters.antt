-- ===== src/MemHeap/Aggr/Counters.antt =====
-- src/memheap.c: the counters of the flows over all the rows of a store.
use mathlib.Core.Path.{subst}
use libnf.Base.{
  ℕ, zero, suc, ◌+◌, ◌*◌, ◌%◌, ◌^◌, ◌≤◌, ◌<◌, ◌≡◌, refl, ap, ◌∙◌, some, get_elem?, List, [], ◌∷◌,
  arith, drop, length,
}
use libnf.Base.Bytes.{byte, rest, load, bytes}
use libnf.HashTable.{Heap, init, insert_all}
use libnf.HashTable.Totals.{total}
use libnf.HashTable.Conservation.{offered, init-insert_all-total}
use libnf.MemHeap.FieldList.{Field, aggr_sum}
use libnf.MemHeap.FieldList.Layout.{IsLaid, width}
use libnf.MemHeap.Aggr.{Doubles, aggr_callback}
use libnf.MemHeap.Aggr.Fields.{drop-nil}
use libnf.MemHeap.Aggr.Rows.{AllFit, field_value, aggr_callback-field}

load-bytes_start : (w n : ℕ) (p : List ℕ) → n ≤ w → load n (bytes w p) ≡ load n p
unfolding load bytes
load-bytes_start w zero p h = refl
load-bytes_start zero (suc n) p h = absurd (omega arith)
load-bytes_start (suc w) (suc n) p h =
    ap (λ v. byte p + 256 * v) (load-bytes_start w n (rest p) (omega arith))

-- Copying a row keeps what lies inside the bytes that are copied.
load-drop-bytes :
    (o w n : ℕ) (p : List ℕ) → o + n ≤ w → load n (drop o (bytes w p)) ≡ load n (drop o p)
unfolding bytes
load-drop-bytes zero w n p h = load-bytes_start w n p (omega arith)
load-drop-bytes (suc o) zero n p h = absurd (omega arith)
load-drop-bytes (suc o) (suc w) n [] h =
    load-drop-bytes o w n [] (omega arith) ∙ ap (load n) (drop-nil o)
load-drop-bytes (suc o) (suc w) n (b ∷ p) h = load-drop-bytes o w n p (omega arith)

end-get_elem? :
    (start : ℕ) (l : List Field) (i : ℕ) (f : Field)
    → IsLaid start l
    → get_elem? l i ≡ some f
    → f.offset + f.size ≤ start + width l
end-get_elem? start [] i f h e = cc
end-get_elem? start (g ∷ l) zero f h e =
    let this : g ≡ f = cc in
    subst (λ x. x.offset + x.size ≤ start + width (g ∷ l)) this (let o = h.0 in omega arith)
end-get_elem? start (g ∷ l) (suc i) f h e =
    omega (arith, end-get_elem? (start + g.size) l i f h.1 e)

-- A new table into which records are inserted with the aggregation of the store, with memory left:
-- for a field that LNF_AGGR_SUM adds up in 64 bits, the sum over the rows of the table is the sum
-- over the records, modulo 2 ^ 64, however the records share keys and buckets; and the counter of
-- entries is the length of the list. The fields of the value are laid out without a gap, and each
-- aggregation function fits the size of its field.
pub aggr_callback-total :
    (xxh64 : List ℕ → ℕ) (doubles : Doubles) (l : List Field) (i : ℕ) (f : Field) (h : Heap)
    (numbuckets keylen : ℕ) (records : List (List ℕ × List ℕ))
    → IsLaid 0 l
    → AllFit l
    → get_elem? l i ≡ some f
    → f.aggr_func ≡ aggr_sum 8
    → 0 < numbuckets
    → let (h', t') =
        insert_all xxh64
          (λ key. aggr_callback doubles l)
          h
          (init numbuckets keylen (width l))
          records in
      (total (field_value f) h' t'.slist % 2 ^ 64 ≡ offered (field_value f) records % 2 ^ 64)
      × (t'.numentries ≡ length t'.slist)
aggr_callback-total xxh64 doubles l i f h numbuckets keylen records laid fit at sums some_bucket =
    let additive = λ (key old val : List ℕ).
      ap (λ v. v % 2 ^ 64) (aggr_callback-field doubles 0 l i f old val laid fit at)
      ∙ rw sums (omega arith) in
    init-insert_all-total xxh64 (λ key. aggr_callback doubles l) (field_value f) additive (width l)
      (λ val.
        load-drop-bytes f.offset (width l) f.size val
          (omega (arith, end-get_elem? 0 l i f laid at)))
      h numbuckets keylen records some_bucket
