-- ===== src/HashTable.antt =====
-- src/hash_table.c: rows in a chained hash table that are also linked in one list.
-- The heap is the list of the rows allocated so far, and a pointer to a row is its index in it:
-- malloc appends, and free gives nothing back. The chain of a bucket is the list of the rows that
-- `hnext` links, the list of a table the rows that `snext` links from `sfirst`.
pub mod Lookup
pub mod Insert
pub mod Map
pub mod Totals
pub mod Conservation
pub mod Join
pub mod Walk
use libnf.Base.{
  ℕ, zero, suc, ◌+◌, ◌%◌, ◌≡◌, Bool, true, false, not, List, [], ◌∷◌, ◌++◌, Option, none, some,
  ◌==◌, ltb, if◌then◌else◌, length, get_or, set, replicate,
}
use libnf.Base.Bytes.{bytes, same_bytes}
use libnf.ListSort.{list_sort}

-- `hash_table_row_hdr_t` with the key and the value that follow it
pub record Row : Type 0 where
  pub hash : ℕ
  pub key : List ℕ
  pub val : List ℕ

abbrev pub Heap : Type 0
Heap = List Row

abbrev pub no_row : Row
no_row = record { hash = 0; key = []; val = [] }

abbrev pub row : Heap → ℕ → Row
row h p = get_or h p no_row

-- `hash_table_t` without its callbacks
pub record HashTable : Type 0 where
  pub keylen : ℕ
  pub vallen : ℕ
  pub buckets : List (List ℕ)
  pub slist : List ℕ
  pub slast : Option ℕ
  pub numentries : ℕ

-- `hash_table_init` followed by `hash_table_entry_len`
unfoldable pub init : ℕ → ℕ → ℕ → HashTable
init numbuckets keylen vallen = record {
  keylen = keylen;
  vallen = vallen;
  buckets = replicate numbuckets [];
  slist = [];
  slast = none;
  numentries = 0;
}

-- the loop of `hash_table_lookup` over a chain
unfoldable pub find_row : Heap → ℕ → List ℕ → List ℕ → Option ℕ
find_row h keylen key [] = none
find_row h keylen key (p ∷ chain) =
    if same_bytes keylen (row h p).key key then some p else find_row h keylen key chain

abbrev pub is_none {ℓ} : {A : Type ℓ} → Option A → Bool
is_none none = true
is_none (some _) = false

-- what the insertions do to the list: the new row goes to its head
unfoldable pub link_row : HashTable → ℕ → HashTable
link_row t p = record t {
  slist = p ∷ t.slist;
  slast = elim t.slist [ [] ↦ some p | _ ∷ _ ↦ t.slast ];
}

unfoldable pub count_entry : HashTable → HashTable
count_entry t = record t { numentries = t.numentries + 1 }

-- `xxh64` is the hash function of xxhash.c over the bytes of a key; `aggr` is the callback that
-- returns what it leaves in the stored value.
module _ (xxh64 : List ℕ → ℕ) where
  unfoldable pub bucket_of : HashTable → List ℕ → ℕ
  bucket_of t key = xxh64 (bytes t.keylen key) % length t.buckets

  -- The row, or `none` for NULL.
  unfoldable pub lookup : Heap → HashTable → List ℕ → Option ℕ
  unfolding find_row bucket_of
  lookup h t key = find_row h t.keylen key (get_or t.buckets (bucket_of t key) [])

  abbrev pub new_row : HashTable → List ℕ → List ℕ → Row
  new_row t key val = record {
    hash = xxh64 (bytes t.keylen key);
    key = bytes t.keylen key;
    val = bytes t.vallen val;
  }

  unfoldable pub add_row : Heap → HashTable → List ℕ → List ℕ → Heap × HashTable
  unfolding link_row count_entry bucket_of
  add_row h t key val =
      let p = length h in
      let i = bucket_of t key in
      let t' = record t { buckets = set t.buckets i (p ∷ get_or t.buckets i []) } in
      (h ++ new_row t key val ∷ [], link_row (count_entry t') p)

unfoldable pub insert_list : Bool → Heap → HashTable → List ℕ → List ℕ → Option ℕ × Heap × HashTable
unfolding link_row count_entry
insert_list mem h t key val =
    let r : Row = record { hash = 0; key = bytes t.keylen key; val = bytes t.vallen val } in
    if mem
    then (some (length h), h ++ r ∷ [], link_row (count_entry t) (length h))
    else (none, h, count_entry t)

module _ (aggr : List ℕ → List ℕ → List ℕ → List ℕ) where
  -- `aggr_callback(key, pval, val, …)` on the row at `p`
  unfoldable pub aggregate : Heap → ℕ → List ℕ → List ℕ → Heap
  aggregate h p key val = set h p (record (row h p) { val = aggr key (row h p).val val })

module _ (xxh64 : List ℕ → ℕ) (aggr : List ℕ → List ℕ → List ℕ → List ℕ) where
  -- `mem` says whether malloc succeeds; `none` is the result NULL.
  unfoldable pub insert_hash :
      Bool → Heap → HashTable → List ℕ → List ℕ → Option ℕ × Heap × HashTable
  unfolding lookup aggregate add_row
  insert_hash mem h t key val = elim (lookup xxh64 h t key) [
    | some p ↦ (some p, aggregate aggr h p key val, t)
    | none ↦
        if mem
        then (some (length h), (add_row xxh64 h t key val).0, (add_row xxh64 h t key val).1)
        else (none, h, count_entry t)
  ]

  -- Insertions in sequence, with memory left for each.
  unfoldable pub insert_all : Heap → HashTable → List (List ℕ × List ℕ) → Heap × HashTable
  unfolding insert_hash
  insert_all h t [] = (h, t)
  insert_all h t ((key, val) ∷ records) =
      let (r, h', t') = insert_hash true h t key val in insert_all h' t' records

  -- The inner loop of `hash_table_merge`, over a chain of `ts`: whether it went through, the heap and
  -- `td`. `mem` says of each row whether malloc succeeds when it is inserted into `td`.
  unfoldable pub merge_chain : (ℕ → Bool) → Heap → HashTable → List ℕ → Bool × Heap × HashTable
  unfolding insert_hash
  merge_chain mem h td [] = (true, h, td)
  merge_chain mem h td (p ∷ chain) =
      let (r, h', td') = insert_hash (mem p) h td (row h p).key (row h p).val in
      let others = merge_chain mem h' td' chain in if is_none r then (false, h', td') else others

  unfoldable pub merge_buckets :
      (ℕ → Bool) → Heap → HashTable → List (List ℕ) → Bool × Heap × HashTable
  unfolding merge_chain
  merge_buckets mem h td [] = (true, h, td)
  merge_buckets mem h td (chain ∷ buckets) =
      let (whole, h', td') = merge_chain mem h td chain in
      let others = merge_buckets mem h' td' buckets in if whole then others else (false, h', td')

  abbrev emptied : HashTable → HashTable
  emptied ts = record ts { buckets = []; slist = []; slast = none; numentries = 0 }

  -- `hash_table_merge`: whether the result is not NULL, the heap, `td` and `ts` afterwards. Behind NULL
  -- the rows that were inserted are freed, but still listed in `ts`.
  unfoldable pub merge :
      (ℕ → Bool) → Heap → HashTable → HashTable → Bool × Heap × HashTable × HashTable
  unfolding merge_buckets
  merge mem h td ts =
      let (whole, h', td') = merge_buckets mem h td ts.buckets in
      (whole, h', td', if whole then emptied ts else ts)

-- The nodes of a list up to the first `p`, with what follows: `p->snext = tail`.
unfoldable pub splice_after : ℕ → List ℕ → List ℕ → List ℕ
splice_after p [] tail = []
splice_after p (q ∷ l) tail =
    let others = q ∷ splice_after p l tail in if q == p then q ∷ tail else others

-- `hash_table_join`: `td` and `ts` afterwards
unfoldable pub join : HashTable → HashTable → HashTable × HashTable
unfolding splice_after
join td ts = (
  record td {
    slist = elim td.slast [ some p ↦ splice_after p td.slist ts.slist | none ↦ ts.slist ];
    slast = ts.slast;
    numentries = td.numentries + ts.numentries;
  },
  record ts { slist = []; slast = none; numentries = 0 },
)

-- `hash_table_sort`; `compare` is `sort_callback > 0` on two rows
unfoldable pub sort : (Row → Row → Bool) → ℕ → Heap → HashTable → Option HashTable
sort compare fuel h t = elim (list_sort (λ p q. compare (row h p) (row h q)) fuel t.slist) [
  | none ↦ none
  | some l ↦ some (record t { slist = l })
]

-- `hash_table_clean` of a table that was not sorted by the heap sort
unfoldable pub clean : HashTable → HashTable
clean t = record t {
  buckets = replicate (length t.buckets) [];
  slist = [];
  slast = none;
  numentries = 0;
}

-- `hash_table_free`
unfoldable pub free_table : HashTable → HashTable
unfolding clean
free_table t = record (clean t) { buckets = [] }

-- `hash_table_first` and `hash_table_next`
unfoldable pub first : HashTable → Option ℕ
first t = elim t.slist [ [] ↦ none | p ∷ _ ↦ some p ]

unfoldable pub next_in : List ℕ → ℕ → Option ℕ
next_in [] p = none
next_in (q ∷ l) p =
    let later = next_in l p in if q == p then elim l [ [] ↦ none | r ∷ _ ↦ some r ] else later

unfoldable pub next : HashTable → Option ℕ → Option ℕ
unfolding next_in
next t none = none
next t (some p) = next_in t.slist p
