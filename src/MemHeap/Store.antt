-- ===== src/MemHeap/Store.antt =====
-- src/memheap.c: a store as its threads write to it. The rows of all hash tables stand in one heap;
-- a thread is a number, and what pthread_getspecific gives it is `own_id`. Pairs of a return value
-- and the store afterwards are the results; `undefined` is an access outside of an array or to
-- memory that was never set up.
pub mod Cursor
pub mod Held
pub mod Written
use libnf.Base.{
  ℕ, zero, suc, ◌+◌, Bool, true, false, not, ◌&&◌, List, [], ◌∷◌, Option, none, some, ltb, ◌==◌,
  if◌then◌else◌, drop,
}
use libnf.Base.Bytes.{bytes, same_bytes}
use libnf.HashTable.{HashTable, Heap, init, insert_list, insert_hash, is_none}
use libnf.MemHeap.FieldList.{Field}
use libnf.MemHeap.Aggr.{Doubles, aggr_callback, fastaggr_callback}
use libnf.MemHeap.Setup.{Mem}
use libnf.MemHeap.Fill.{put_data, fill_buf}
use libnf.MemHeap.Threads.{ThStatus, upd}

-- LNF_OK, LNF_EOF and the errors
pub data Ret : Type 0 where
  ok eof err_nomem err_other undefined : Ret

-- a hash table that was set up, and whether its callback is the one of the fast mode
pub record Table : Type 0 where
  pub rows : HashTable
  pub fast : Bool

-- `lnf_mem_t`: the settings, and what changes with reading and writing
pub record Store : Type 0 where
  pub mem : Mem
  pub heap : Heap
  pub own_id : ℕ → Option ℕ
  pub status : ℕ → ThStatus
  pub numthreads : ℕ
  pub table : ℕ → Option Table
  pub read_cursor : Option ℕ
  pub sorted : Bool

-- which calls of malloc succeed: for the identifier, the buckets, the first and the second row
pub record Alloc : Type 0 where
  pub id : Bool
  pub buckets : Bool
  pub row1 : Bool
  pub row2 : Bool

-- `lnf_mem_init` without its failures
unfoldable pub new_store : Mem → Store
new_store mem = record {
  mem = mem;
  heap = [];
  own_id = λ tid. none;
  status = λ id. ThStatus.empty;
  numthreads = 0;
  table = λ id. none;
  read_cursor = none;
  sorted = false;
}

abbrev new_table : Mem → Table
new_table mem = record {
  rows = init mem.hash_table_buckets mem.key_len mem.val_len;
  fast = mem.fastaggr_mode == 1;
}

-- `lnf_mem_thread_init`; LNF_MAX_THREADS is 128, a number that passes the test
unfoldable pub thread_init : Alloc → ℕ → Store → Ret × Store
thread_init alloc tid s =
    let id = s.numthreads in
    let s' = record s { own_id = upd s.own_id tid (some id); numthreads = suc id } in
    if ltb 128 id
    then (err_other, s)
    else if not alloc.id
    then (err_nomem, s)
    else if id == 128
    then (undefined, s')
    else if not alloc.buckets
    then (err_nomem, s')
    else (ok, record s' { table = upd s.table id (some (new_table s.mem)) })

-- The identifier of the thread, of which a new one is made if it has none; otherwise the error.
abbrev pub with_own : Ret × Store → ℕ → Ret × Option ℕ × Store
with_own (ok, s) tid = elim (s.own_id tid) [
  | none ↦ (err_other, none, s)
  | some id ↦ (ok, some id, s)
]
with_own (ret, s) tid = (ret, none, s)

unfoldable pub thread_id : Alloc → ℕ → Store → Ret × Option ℕ × Store
unfolding thread_init
thread_id alloc tid s = elim (s.own_id tid) [
  | some id ↦ (ok, some id, s)
  | none ↦ with_own (thread_init alloc tid s) tid
]

abbrev pub set_status : ℕ → ThStatus → Store → Store
set_status id status s = record s { status = upd s.status id status }

module _ (doubles : Doubles) (xxh64 : List ℕ → ℕ) where
  -- the callback of a table, on a stored value and a new one
  abbrev pub callback : Bool → List Field → List ℕ → List ℕ → List ℕ → List ℕ
  callback true list key hval uval = fastaggr_callback hval uval
  callback false list key hval uval = aggr_callback doubles list hval uval

  -- what an insertion leaves in the store
  abbrev pub put_rows : ℕ → Table → Store → Option ℕ × Heap × HashTable → Ret × Store
  put_rows id t s (r, heap, rows) =
      let s' = record s { heap = heap; table = upd s.table id (some (record t { rows = rows })) } in
      (if is_none r then err_nomem else ok, s')

  -- hash_table_insert_list or hash_table_insert_hash on the table `id`
  abbrev pub insert_into : Bool → Bool → ℕ → List ℕ → List ℕ → Store → Option Table → Ret × Store
  insert_into list_mode row id key val s none = (undefined, s)
  insert_into true row id key val s (some t) =
      put_rows id t s (insert_list row s.heap t.rows key val)
  insert_into false row id key val s (some t) =
      put_rows id t s (insert_hash xxh64 (callback t.fast s.mem.val_list) row s.heap t.rows key val)

  unfoldable pub insert : Bool → Bool → ℕ → List ℕ → List ℕ → Store → Ret × Store
  insert list_mode row id key val s = insert_into list_mode row id key val s (s.table id)

  abbrev write_as : Alloc → Bool → List ℕ → Ret × Option ℕ × Store → Ret × Store
  write_as alloc first buff (ret, none, s) = (ret, s)
  write_as alloc first buff (ret, some id, s) =
      let s' = if first then set_status id ThStatus.write s else s in
      insert s.mem.list_mode alloc.row1 id buff (drop s.mem.key_len buff) s'

  -- `lnf_mem_write_raw`. The status is set for a new identifier only.
  unfoldable pub write_raw : Alloc → ℕ → List ℕ → ℕ → Store → Ret × Store
  unfolding thread_id insert
  write_raw alloc tid buff buffsize s =
      if not (buffsize == s.mem.key_len + s.mem.val_len)
      then (err_other, s)
      else write_as alloc (is_none (s.own_id tid)) buff (thread_id alloc tid s)

  -- The record is what its getters give. `key1`, `key2` and `val` are what the buffers on the stack
  -- hold before.
  module _ (is_v4compat : List ℕ → Bool) (fld_pair : ℕ → ℕ → ℕ) (fget : ℕ → Option (List ℕ)) where
    -- the value of a record in the fast mode
    unfoldable pub fast_value : List ℕ → List ℕ
    fast_value val = put_data 32 (fget 8) (
        put_data 24 (fget 5) (put_data 16 (fget 4) (put_data 8 (fget 2) (put_data 0 (fget 1) val))))

    unfoldable pub value_of : Mem → List ℕ → List ℕ
    unfolding fast_value fill_buf
    value_of mem val =
        if mem.fastaggr_mode == 1
        then fast_value val
        else fill_buf is_v4compat fld_pair fget 0 mem.val_list val

    -- the key for the second of a pair, unless it is that for the first
    abbrev pub write_second : Alloc → ℕ → List ℕ → List ℕ → List ℕ → Store → Ret × Store
    write_second alloc id keybuf keybuf2 valbuf s =
        if s.mem.nfdump_comp_statistics && same_bytes s.mem.key_len keybuf keybuf2
        then (ok, s)
        else insert false alloc.row2 id keybuf2 valbuf s

    abbrev pub write_pair : Alloc → ℕ → List ℕ → List ℕ → List ℕ → Ret × Store → Ret × Store
    write_pair alloc id keybuf keybuf2 valbuf (ok, s) =
        if s.mem.statistics_mode then write_second alloc id keybuf keybuf2 valbuf s else (ok, s)
    write_pair alloc id keybuf keybuf2 valbuf (ret, s) = (ret, s)

    abbrev pub write_keys : Alloc → List ℕ → List ℕ → List ℕ → Ret × Option ℕ × Store → Ret × Store
    write_keys alloc keybuf keybuf2 valbuf (ret, none, s) = (ret, s)
    write_keys alloc keybuf keybuf2 valbuf (ret, some id, s) =
        let s' = set_status id ThStatus.write s in
        if s.mem.list_mode
        then insert true alloc.row1 id keybuf valbuf s'
        else write_pair alloc id keybuf keybuf2 valbuf (insert false alloc.row1 id keybuf valbuf s')

    -- `lnf_mem_write`
    unfoldable pub write : Alloc → ℕ → List ℕ → List ℕ → List ℕ → Store → Ret × Store
    unfolding thread_id insert value_of
    write alloc tid key1 key2 val s =
        let pairset = if s.mem.statistics_mode then 1 else 0 in
        let keybuf = fill_buf is_v4compat fld_pair fget pairset s.mem.key_list key1 in
        let keybuf2 = fill_buf is_v4compat fld_pair fget 2 s.mem.key_list key2 in
        write_keys alloc keybuf keybuf2 (value_of s.mem val) (thread_id alloc tid s)
