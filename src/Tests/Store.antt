-- ===== src/Tests/Store.antt =====
-- src/memheap.c: a store with a key of one address and a value of one counter.
use libnf.Base.{
  ℕ, ◌+◌, ◌^◌, ◌≡◌, refl, inl, inr, Bool, true, false, List, [], ◌∷◌, ◌++◌, Option, none, some,
  ◌==◌, ltb, if◌then◌else◌, arith, replicate, drop,
}
use libnf.Base.Bytes.{byte, bytes, load_big, store, store_big, load, same_bytes}
use libnf.ListSort.{list_sort, sort_passes, merge_pass, merge_runs, step_along}
use libnf.HashTable.{Row, init, sort, first, next, next_in, insert_hash, lookup, find_row}
use libnf.MemHeap.FieldList.{Field, aggr_sum, aggr_empty}
use libnf.MemHeap.Aggr.{Doubles, aggr_callback, aggr_bytes, patch}
use libnf.MemHeap.Order.{sort_callback, precedes}
use libnf.MemHeap.Setup.{Mem, Fields}
use libnf.MemHeap.Fill.{coarsen, fill_buf, clear_bits_v4, pair_field}
use libnf.MemHeap.Fill.Prefix.{floor_to}
use libnf.MemHeap.Fill.Coarse.{cleared, load_big-coarsen}
use libnf.MemHeap.Threads.{ThStatus, upd}
use libnf.MemHeap.Store.{
  ok, Store, Table, Alloc, write, value_of, thread_id, insert, new_store, thread_init,
}
use libnf.MemHeap.Store.Cursor.{first_c, next_c, lookup_raw_c, read_raw_c}
use libnf.MemHeap.Store.Cursor.Ordered.{InOrderOf, read_rows, read_rows-first_c}
use libnf.MemHeap.Store.Held.{IsReady, contents, put_record, raw_of, held}
use libnf.MemHeap.Store.Written.{held-write}

abbrev whole : Doubles
whole = record { double_add = ◌+◌; double_lt = ltb }

-- addresses with a prefix of 24 or 64 bits
abbrev address : Field
address = record {
  field = 6;
  size = 16;
  type = 0xA1;
  offset = 0;
  aggr_flag = 8;
  sort_flag = 0;
  numbits = 24;
  numbits6 = 64;
  aggr_func = aggr_empty;
}

abbrev octets : Field
octets = record {
  field = 4;
  size = 8;
  type = 0x64;
  offset = 0;
  aggr_flag = 3;
  sort_flag = 0x10;
  numbits = 0;
  numbits6 = 0;
  aggr_func = aggr_sum 8;
}

-- sorted by the counter, ascending
abbrev settings : Mem
settings = record {
  key_list = address ∷ [];
  key_len = 16;
  val_list = octets ∷ [];
  val_len = 8;
  fastaggr_mode = 0;
  sort_field = 4;
  sort_offset = 0;
  sort_flags = 0x12;
  statistics_mode = false;
  list_mode = false;
  nfdump_comp_statistics = false;
  hash_table_buckets = 2;
}

-- a prefix of twelve zeros tells an IPv4 address
abbrev is_v4 : List ℕ → Bool
is_v4 a = load 8 a == 0

abbrev ipv4 : ℕ → List ℕ
ipv4 last = replicate 12 0 ++ (10 ∷ 0 ∷ 1 ∷ last ∷ [])

load_big-coarsen_example :
    let buf = ipv4 77 ++ 5 ∷ [] in
    let buf' = coarsen is_v4 address buf in
    (load_big 16 (drop 0 buf')
      ≡ floor_to (2 ^ cleared is_v4 address (drop 0 buf)) (load_big 16 (drop 0 buf)))
    × (drop 16 buf' ≡ drop 16 buf)
load_big-coarsen_example = load_big-coarsen is_v4 address (ipv4 77 ++ 5 ∷ []) refl (omega arith)

coarsened : coarsen is_v4 address (ipv4 77 ++ 5 ∷ []) ≡ ipv4 0 ++ 5 ∷ []
unfolding coarsen clear_bits_v4 patch store_big load_big bytes load
coarsened = refl

-- a record is a function from fields to data
abbrev FlowRec : Type 0
FlowRec = ℕ → Option (List ℕ)

abbrev flow : ℕ → ℕ → FlowRec
flow last count field =
    if field == 6 then some (ipv4 last) else if field == 4 then some (store 8 count) else none

abbrev get_flow : FlowRec → ℕ → Option (List ℕ)
get_flow rec field = rec field

abbrev set_flow : FlowRec → ℕ → List ℕ → FlowRec
set_flow rec field bs = upd rec field (some bs)

abbrev no_flow : FlowRec → FlowRec
no_flow rec field = none

abbrev no_pair : ℕ → ℕ → ℕ
no_pair field n = 0

abbrev fields : Fields
fields = record {
  fld_type = λ field. if field == 4 then 0x64 else 0xA1;
  fld_aggr = λ field. 3;
  fld_pair = λ field. false;
  calc_deps = λ field. [];
}

abbrev hash_byte : List ℕ → ℕ
hash_byte key = byte key

abbrev plenty : Alloc
plenty = record { id = true; buckets = true; row1 = true; row2 = true }

abbrev blank : List ℕ
blank = replicate 16 0xee

-- the store behind the first call of thread 5, which has the identifier 0
abbrev table0 : Table
table0 = record { rows = init 2 16 8; fast = false }

abbrev begun : Store
begun = (thread_init plenty 5 (new_store settings)).1

begun-IsReady : IsReady begun table0
unfolding thread_init new_store init
begun-IsReady = record {
  here = refl;
  sound = record { roomy = omega arith; chained = (tt, (tt, tt)) };
  keylen = refl;
  vallen = refl;
  aggregates = refl;
}

own_zero : begun.own_id 5 ≡ some 0
unfolding thread_init new_store
own_zero = refl

held-write_example :
    let keybuf = fill_buf is_v4 no_pair (flow 77 100) 0 begun.mem.key_list blank in
    let keybuf2 = fill_buf is_v4 no_pair (flow 77 100) 2 begun.mem.key_list blank in
    let valbuf = value_of whole hash_byte is_v4 no_pair (flow 77 100) begun.mem blank in
    let (ret, s') =
      write whole hash_byte is_v4 no_pair (flow 77 100) plenty 5 blank blank blank begun in
    (ret ≡ ok)
    × (held whole hash_byte fields is_v4 no_pair get_flow set_flow no_flow s' (ipv4 0)
        ≡ raw_of whole hash_byte begun.mem (ipv4 0) (
            put_record whole hash_byte false begun.mem keybuf keybuf2 valbuf
              (contents whole hash_byte begun.heap table0)
              (ipv4 0)))
unfolding thread_init new_store
held-write_example =
    held-write whole hash_byte fields is_v4 no_pair get_flow set_flow no_flow plenty 5 blank blank
      blank (ipv4 0) (flow 77 100) begun table0 own_zero begun-IsReady refl refl

-- Two addresses of one prefix share a row, which has the sum of their counters.
abbrev written : Store
written =
    (write whole hash_byte is_v4 no_pair (flow 80 23) plenty 5 blank blank blank
      (write whole hash_byte is_v4 no_pair (flow 77 100) plenty 5 blank blank blank begun).1).1

written_sum :
    held whole hash_byte fields is_v4 no_pair get_flow set_flow no_flow written (ipv4 0)
    ≡ some (ipv4 0 ++ store 8 123)
unfolding held write thread_init thread_id new_store insert insert_hash lookup find_row same_bytes
    bytes init fill_buf coarsen clear_bits_v4 patch store_big load_big store load value_of
    aggr_callback aggr_bytes pair_field lookup_raw_c read_raw_c
written_sum = refl

-- three rows that were written, to be sorted by their counters
abbrev counted : ℕ → ℕ → Row
counted last count = record { hash = 0; key = ipv4 last; val = store 8 count }

abbrev full : Table
full = record {
  rows = record {
    keylen = 16;
    vallen = 8;
    buckets = (2 ∷ 1 ∷ 0 ∷ []) ∷ [] ∷ [];
    slist = 2 ∷ 1 ∷ 0 ∷ [];
    slast = some 0;
    numentries = 3;
  };
  fast = false;
}

abbrev filled : Store
filled = record {
  mem = settings;
  heap = counted 1 50 ∷ counted 2 20 ∷ counted 3 90 ∷ [];
  own_id = λ tid. some 0;
  status = λ id. ThStatus.write;
  numthreads = 1;
  table = λ id. some full;
  read_cursor = none;
  sorted = false;
}

-- the counter depends on field 6, so that values are computed before the sort
abbrev calculating : Fields
calculating = record fields { calc_deps = λ field. if field == 4 then 6 ∷ [] else [] }

read_rows-first_c_example :
    InOrderOf whole calculating hash_byte is_v4 no_pair get_flow set_flow no_flow settings 8
      (2 ∷ 1 ∷ 0 ∷ [])
      5
      filled.heap
      (first_c whole calculating hash_byte is_v4 no_pair get_flow set_flow no_flow
        (flow 0 0)
        filled)
read_rows-first_c_example =
    read_rows-first_c whole calculating hash_byte is_v4 no_pair get_flow set_flow no_flow (flow 0 0)
      filled full 8 5 refl refl refl (λ e. omega arith) (inl (refl, refl)) (inr refl)
      (refl, (refl, (refl, tt))) (omega arith, (omega arith, (omega arith, tt))) (omega arith)

-- The rows are then read in the order 1, 0, 2.
sorted_rows :
    read_rows whole fields hash_byte is_v4 no_pair get_flow set_flow no_flow 5
      (first_c whole fields hash_byte is_v4 no_pair get_flow set_flow no_flow (flow 0 0) filled)
    ≡ 1 ∷ 0 ∷ 2 ∷ []
unfolding read_rows first_c next_c sort list_sort sort_passes merge_pass merge_runs step_along first
    next next_in sort_callback precedes store load bytes
sorted_rows = refl
