-- ===== src/MemHeap/Threads.antt =====
-- src/memheap.c, `lnf_mem_merge_threads`: the tables of the threads are merged into that of thread 0.
-- Each critical section of the mutex, and the merge of two tables outside of it, is one step of a
-- thread; the threads take steps in any order. All tables have their rows in one heap.
pub mod Turns
pub mod Sums
pub mod Progress
pub mod Ends
use libnf.HashTable.{
  Heap, HashTable, free_table, join as hash_table_join, merge as hash_table_merge,
}
use libnf.Base.{
  ℕ, zero, suc, ◌+◌, Bool, true, false, List, [], ◌∷◌, Option, none, some, ◌==◌, if◌then◌else◌,
}

-- `thread_status`, without the prefix LNF_TH_. Only `merge` is ever tested for.
pub data ThStatus : Type 0 where
  empty write merge merging merged cleared : ThStatus

abbrev pub is_merge : ThStatus → Bool
is_merge ThStatus.merge = true
is_merge _ = false

-- Where a thread is: before the call, in the loop, behind the choice of the thread to merge into,
-- behind the merge, behind the call, or behind a merge that failed.
pub data Pc : Type 0 where
  idle waiting done stopped : Pc
  joining joined : ℕ → Pc

-- the heap and the tables of the store `lnf_mem`
pub record System : Type 0 where
  pub status : ℕ → ThStatus
  pub heap : Heap
  pub table : ℕ → HashTable
  pub pc : ℕ → Pc

abbrev pub upd {ℓ} : {A : Type ℓ} → (ℕ → A) → ℕ → A → ℕ → A
upd f i v j = if j == i then v else f j

-- the `for` loop over the threads `i` to `i + count - 1`
unfoldable pub first_ready : (ℕ → ThStatus) → ℕ → ℕ → Option ℕ
first_ready status zero i = none
first_ready status (suc count) i =
    let further = first_ready status count (suc i) in
    if is_merge (status i) then some i else further

-- What the merge of two tables takes: `lnf_mem->list_mode`, the hash function and the aggregation of
-- the tables, and for each row whether malloc succeeds when it is inserted.
pub record Merging : Type 0 where
  pub list_mode : Bool
  pub xxh64 : List ℕ → ℕ
  pub aggr : List ℕ → List ℕ → List ℕ → List ℕ
  pub mem : ℕ → Bool

-- hash_table_join or hash_table_merge of two tables: whether the result is not NULL, the heap and the
-- tables
unfoldable pub combine :
    Merging → Heap → HashTable → HashTable → Bool × Heap × HashTable × HashTable
unfolding hash_table_join hash_table_merge
combine m h td ts =
    if m.list_mode
    then (true, h, (hash_table_join td ts).0, (hash_table_join td ts).1)
    else hash_table_merge m.xxh64 m.aggr m.mem h td ts

module _ (merging : Merging) where
  unfoldable pub announce : ℕ → System → System
  announce t s = record s {
    status = upd s.status t ThStatus.merge;
    pc = upd s.pc t (if t == 0 then done else waiting);
  }

  abbrev pub take_turn : ℕ → System → Option ℕ → System
  take_turn t s none = s
  take_turn t s (some i) = record s {
    status = upd (upd s.status t ThStatus.merged) i ThStatus.merging;
    pc = upd s.pc t (joining i);
  }

  unfoldable pub choose : ℕ → System → System
  unfolding first_ready
  choose t s = if is_merge (s.status t) then take_turn t s (first_ready s.status t 0) else s

  abbrev pub put_tables : ℕ → ℕ → System → Bool × Heap × HashTable × HashTable → System
  put_tables t i s (whole, h, td, ts) = record s {
    heap = h;
    table = upd (upd s.table t (if whole then free_table ts else ts)) i td;
    pc = upd s.pc t (if whole then joined i else stopped);
  }

  unfoldable pub join_tables : ℕ → ℕ → System → System
  join_tables t i s = put_tables t i s (combine merging s.heap (s.table i) (s.table t))

  unfoldable pub release : ℕ → ℕ → System → System
  release t i s = record s {
    status = upd (upd s.status t ThStatus.cleared) i ThStatus.merge;
    pc = upd s.pc t done;
  }

  -- the next step of thread `t`
  abbrev pub move : ℕ → System → Pc → System
  move t s idle = announce t s
  move t s waiting = choose t s
  move t s (joining i) = join_tables t i s
  move t s (joined i) = release t i s
  move t s done = s
  move t s stopped = s

  unfoldable pub step : ℕ → System → System
  unfolding announce choose join_tables release
  step t s = move t s (s.pc t)

  -- The threads take steps in the order of the list.
  unfoldable pub run : List ℕ → System → System
  unfolding step
  run [] s = s
  run (t ∷ ts) s = run ts (step t s)
