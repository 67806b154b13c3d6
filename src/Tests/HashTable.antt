-- ===== src/Tests/HashTable.antt =====
-- src/hash_table.c on small tables.
use libnf.Base.{
  ℕ, ◌+◌, ◌≡◌, refl, ◌≢◌, List, [], ◌∷◌, Option, none, some, arith, if◌then◌else◌, true,
}
use libnf.Base.Bytes.{byte, bytes, same_bytes}
use libnf.HashTable.{
  Heap, HashTable, init, insert_hash, insert_all, lookup, find_row, join, splice_after,
}
use libnf.HashTable.Lookup.{IsTable, view}
use libnf.HashTable.Insert.{stored}
use libnf.HashTable.Map.{view-insert_hash}
use libnf.HashTable.{first}
use libnf.HashTable.Walk.{walk, walk-first}
use libnf.HashTable.Join.{join-slist}

-- a hash function, and an aggregation that adds single bytes
abbrev hash_byte : List ℕ → ℕ
hash_byte key = byte key

abbrev add_byte : List ℕ → List ℕ → List ℕ → List ℕ
add_byte key old val = (byte old + byte val) ∷ []

-- three records, two of which share a key, in two buckets
abbrev records : List (List ℕ × List ℕ)
records = (1 ∷ [], 10 ∷ []) ∷ (3 ∷ [], 20 ∷ []) ∷ (1 ∷ [], 7 ∷ []) ∷ []

-- the table that the records leave
abbrev filled_heap : Heap
filled_heap =
    record { hash = 1; key = 1 ∷ []; val = 17 ∷ [] }
    ∷ record { hash = 3; key = 3 ∷ []; val = 20 ∷ [] }
    ∷ []

abbrev filled : HashTable
filled = record {
  keylen = 1;
  vallen = 1;
  buckets = [] ∷ (1 ∷ 0 ∷ []) ∷ [];
  slist = 1 ∷ 0 ∷ [];
  slast = some 0;
  numentries = 2;
}

filled_lem : insert_all hash_byte add_byte [] (init 2 1 1) records ≡ (filled_heap, filled)
unfolding insert_all init insert_hash lookup find_row bytes same_bytes
filled_lem = refl

filled-IsTable : IsTable filled_heap filled
filled-IsTable = record {
  roomy = omega arith;
  chained = (tt, ((omega arith, (omega arith, tt)), tt));
}

view-insert_hash_example :
    let (r, h', t') = insert_hash hash_byte add_byte true filled_heap filled (3 ∷ []) (5 ∷ []) in
    (view hash_byte h' t' (3 ∷ []) ≡ (
      if same_bytes 1 (3 ∷ []) (3 ∷ [])
      then some (
          stored hash_byte add_byte filled
            (3 ∷ [])
            (5 ∷ [])
            (view hash_byte filled_heap filled (3 ∷ [])))
      else view hash_byte filled_heap filled (3 ∷ [])))
    × (r ≢ none)
    × IsTable h' t'
view-insert_hash_example =
    view-insert_hash hash_byte add_byte filled_heap filled (3 ∷ []) (5 ∷ []) (3 ∷ []) filled-IsTable

abbrev table_of : List ℕ → Option ℕ → ℕ → HashTable
table_of slist slast numentries = record {
  keylen = 1;
  vallen = 1;
  buckets = [] ∷ [];
  slist = slist;
  slast = slast;
  numentries = numentries;
}

-- The rows behind a stale `slast` are lost, here row 2.
join_stale :
    (join (table_of (0 ∷ 1 ∷ 2 ∷ []) (some 1) 3) (table_of (4 ∷ []) (some 4) 1)).0.slist
    ≡ 0 ∷ 1 ∷ 4 ∷ []
unfolding join splice_after
join_stale = refl

join-slist_example :
    let td = table_of (0 ∷ 1 ∷ 2 ∷ []) (some 1) 3 in
    let ts = table_of (4 ∷ 5 ∷ []) (some 5) 2 in
    let (td', ts') = join td ts in
    (td'.slist ≡ 0 ∷ 1 ∷ 4 ∷ 5 ∷ [])
    × (td'.numentries ≡ 3 + 2)
    × (td'.slast ≡ some 5)
    × (ts'.slist ≡ [])
    × (ts'.numentries ≡ 0)
join-slist_example =
    join-slist (table_of (0 ∷ 1 ∷ 2 ∷ []) (some 1) 3) (table_of (4 ∷ 5 ∷ []) (some 5) 2) 1 (0 ∷ [])
      (2 ∷ []) refl refl refl

walked_all : walk 2 filled (first filled) ≡ 1 ∷ 0 ∷ []
walked_all = walk-first filled (refl, (refl, tt))
