-- ===== src/Tests/Threads.antt =====
-- The merge of threads, for three threads.
use libnf.Base.{
  ℕ, zero, suc, ◌≤◌, ◌<◌, ◌≡◌, refl, true, false, List, [], ◌∷◌, Option, some, length, All, arith,
  ◌==◌, if◌then◌else◌,
}
use libnf.HashTable.{Heap, HashTable, Row, splice_after, join as hash_table_join}
use libnf.MemHeap.Threads.{
  Merging, combine, ThStatus, idle, done, System, run, step, announce, choose, join_tables, release,
  first_ready,
}
use libnf.MemHeap.Threads.Turns.{IsTurn, run-IsTurn}
use libnf.MemHeap.Threads.Progress.{IsLive}
use libnf.MemHeap.Threads.Ends.{run-returns}

-- list mode, whose merge needs no memory
abbrev listing : Merging
listing = record { list_mode = true; xxh64 = λ key. 0; aggr = λ key a b. a; mem = λ p. false }

abbrev list_table : List ℕ → Option ℕ → HashTable
list_table rows last = record {
  keylen = 0;
  vallen = 1;
  buckets = [];
  slist = rows;
  slast = last;
  numentries = length rows;
}

abbrev rows_of : ℕ → HashTable
rows_of t =
    if t == 0
    then list_table (0 ∷ []) (some 0)
    else (if t == 1 then list_table (1 ∷ 2 ∷ []) (some 2) else list_table (3 ∷ []) (some 3))

abbrev counter_row : ℕ → Row
counter_row n = record { hash = 0; key = []; val = n ∷ [] }

abbrev writing : System
writing = record {
  status = λ t. ThStatus.write;
  heap = counter_row 5 ∷ counter_row 6 ∷ counter_row 7 ∷ counter_row 8 ∷ [];
  table = rows_of;
  pc = λ t. idle;
}

writing-IsTurn : IsTurn writing
writing-IsTurn = record {
  there = λ j o. cc o;
  sender = λ j k q. cc q;
  below = λ j k q. cc q;
  receiver = λ j k q. cc q;
  alone = λ j j' k p q. cc q;
}

-- Thread 2 merges into thread 0, then thread 1 does.
abbrev order : List ℕ
order = 2 ∷ 0 ∷ 1 ∷ 2 ∷ 2 ∷ 1 ∷ 2 ∷ 1 ∷ 1 ∷ 1 ∷ []

run-IsTurn_example : IsTurn (run listing order writing)
run-IsTurn_example = run-IsTurn listing order writing writing-IsTurn

all_return : (j : ℕ) → j < 3 → (run listing order writing).pc j ≡ done
unfolding combine run step announce choose join_tables release first_ready
all_return zero h = refl
all_return (suc zero) h = refl
all_return (suc (suc zero)) h = refl
all_return (suc (suc (suc j))) h = absurd (omega arith)

-- the table of thread 0 then holds the records of all
merged_table : ((run listing order writing).table 0).slist ≡ 0 ∷ 3 ∷ 1 ∷ 2 ∷ []
unfolding combine hash_table_join splice_after run step announce choose join_tables release
    first_ready
merged_table = refl

writing-IsLive : IsLive 2 writing
writing-IsLive = record {
  outside = λ j o. refl;
  zero_calls = λ q. cc q;
  no_failure = λ j q. cc q;
  open_waiting = λ j q. cc q;
  open_zero = λ q. cc q;
  merging_by = λ k q. cc q;
}

listing_merges : (h : Heap) (td ts : HashTable) → (combine listing h td ts).0 ≡ true
unfolding combine
listing_merges h td ts = refl

-- Thread 2 has called and was chosen to merge into thread 0, the others have not gone on.
abbrev begun : List ℕ
begun = 2 ∷ 0 ∷ 2 ∷ []

run-returns_example :
    (ts : List ℕ) × (length ts ≤ 12)
    × All (λ t. t < 3) ts
    × ((j : ℕ) → j < 3 → (run listing ts (run listing begun writing)).pc j ≡ done)
run-returns_example =
    run-returns listing listing_merges 2 begun writing (omega arith) writing-IsTurn writing-IsLive
