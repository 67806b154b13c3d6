-- ===== src/MemHeap/Store/Held.antt =====
-- src/memheap.c: what a client reads back of the records that were written.
use libnf.Base.{
  ℕ, ◌+◌, ◌≡◌, ◌≢◌, refl, ◌∙◌, inl, inr, Bool, true, false, ◌&&◌, List, ◌++◌, Option, none, some,
  ltb, ◌==◌, if◌then◌else◌, arith, Option-cases,
}
use libnf.Base.Bytes.{bytes, same_bytes}
use libnf.HashTable.{
  HashTable, Heap, row, lookup, insert_hash, is_none, add_row, link_row, count_entry,
}
use libnf.HashTable.Lookup.{IsTable, view}
use libnf.HashTable.Insert.{lookup-found, stored}
use libnf.HashTable.Map.{view-insert_hash}
use libnf.MemHeap.Aggr.{Doubles}
use libnf.MemHeap.Setup.{Mem, Fields}
use libnf.MemHeap.Threads.Turns.{upd_self}
use libnf.MemHeap.Store.{Ret, ok, err_nomem, Store, Table, callback, insert}
use libnf.MemHeap.Store.Cursor.{is_empty, Found, lookup_raw_c, read_raw_c}

-- The table of thread 0 is set up for the key and the value of the store, which aggregates.
pub record IsReady (s : Store) (t : Table) : Type 0 where
  pub here : s.table 0 ≡ some t
  pub sound : IsTable s.heap t.rows
  pub keylen : t.rows.keylen ≡ s.mem.key_len
  pub vallen : t.rows.vallen ≡ s.mem.val_len
  pub aggregates : s.mem.list_mode ≡ false

some_row : (r : Option ℕ) → r ≢ none → (if is_none r then err_nomem else ok) ≡ ok
some_row none h = absurd (h refl)
some_row (some p) h = refl

module _ (doubles : Doubles) (xxh64 : List ℕ → ℕ) where
  -- what a table holds for a key
  abbrev pub contents : Heap → Table → List ℕ → Option (List ℕ)
  contents heap t key = view xxh64 heap t.rows key

  -- The value of a key after a record was written under it, from its value before.
  abbrev pub merged : Bool → Mem → List ℕ → List ℕ → Option (List ℕ) → List ℕ
  merged fast mem key val none = bytes mem.val_len val
  merged fast mem key val (some old) = callback doubles xxh64 fast mem.val_list key old val

  abbrev pub put_in :
      Bool → Mem → List ℕ → List ℕ → (List ℕ → Option (List ℕ)) → List ℕ → Option (List ℕ)
  put_in fast mem key val m q =
      if same_bytes mem.key_len key q then some (merged fast mem key val (m key)) else m q

  insert_hash-lens :
      (aggr : List ℕ → List ℕ → List ℕ → List ℕ) (heap : Heap) (t : HashTable) (key val : List ℕ)
      → ((insert_hash xxh64 aggr true heap t key val).2.keylen ≡ t.keylen)
        × ((insert_hash xxh64 aggr true heap t key val).2.vallen ≡ t.vallen)
  unfolding insert_hash add_row link_row count_entry
  insert_hash-lens aggr heap t key val = elim (Option-cases (lookup xxh64 heap t key)) [
    | inl e ↦ rw (e, insert_hash) (refl, refl)
    | inr (p, e) ↦ rw (e, insert_hash) (refl, refl)
  ]

  stored-merged :
      (t : Table) (mem : Mem) (key val : List ℕ) (old : Option (List ℕ))
      → t.rows.vallen ≡ mem.val_len
      → stored xxh64 (callback doubles xxh64 t.fast mem.val_list) t.rows key val old
        ≡ merged t.fast mem key val old
  stored-merged t mem key val none e = rw e refl
  stored-merged t mem key val (some old) e = refl

  -- An insertion into the table of thread 0: the record is put in, and all stays ready.
  pub record Puts (s : Store) (t : Table) (key val : List ℕ) (r : Ret × Store) : Type 0 where
    pub done : r.0 ≡ ok
    pub table : Table
    pub ready : IsReady r.1 table
    pub same_mem : r.1.mem ≡ s.mem
    pub same_status : r.1.status ≡ s.status
    pub same_fast : table.fast ≡ t.fast
    pub holds :
        (q : List ℕ) → contents r.1.heap table q ≡ put_in t.fast s.mem key val (contents s.heap t) q

  pub insert-Puts :
      (s : Store) (t : Table) (key val : List ℕ)
      → IsReady s t
      → Puts s t key val (insert doubles xxh64 false true 0 key val s)
  unfolding insert
  insert-Puts s t key val h =
      let aggr = callback doubles xxh64 t.fast s.mem.val_list in
      let (r, heap, rows) = insert_hash xxh64 aggr true s.heap t.rows key val in
      let lens = insert_hash-lens aggr s.heap t.rows key val in
      let all = λ (q : List ℕ). view-insert_hash xxh64 aggr s.heap t.rows key val q h.sound in
      rw h.here (record {
        done = some_row _ (all key).1;
        table = record t { rows = rows };
        ready = record {
          here = upd_self s.table 0 _;
          sound = (all key).2;
          keylen = lens.0 ∙ h.keylen;
          vallen = lens.1 ∙ h.vallen;
          aggregates = h.aggregates;
        };
        same_mem = refl;
        same_status = refl;
        same_fast = refl;
        holds = λ q. (all q).0 ∙ rw (h.keylen, stored-merged t s.mem key val _ h.vallen) refl;
      })

  -- the value of a key, with the key before it, as it is read in the raw format
  abbrev pub raw_of : Mem → List ℕ → Option (List ℕ) → Option (List ℕ)
  raw_of mem key none = none
  raw_of mem key (some val) = some (bytes mem.key_len key ++ bytes mem.val_len val)

  -- A record is written to a store whose table of thread 0 aggregates: `keybuf2` is the key of the
  -- second of a pair.
  abbrev pub put_record :
      Bool → Mem → List ℕ → List ℕ → List ℕ → (List ℕ → Option (List ℕ)) → List ℕ → Option (List ℕ)
  put_record fast mem keybuf keybuf2 val m =
      let once = put_in fast mem keybuf val m in
      if mem.statistics_mode
      then (if mem.nfdump_comp_statistics && same_bytes mem.key_len keybuf keybuf2
          then once
          else put_in fast mem keybuf2 val once)
      else once

  module _ (fields : Fields) (is_v4compat : List ℕ → Bool) {R : Type 0} (fld_pair : ℕ → ℕ → ℕ)
      (fget : R → ℕ → Option (List ℕ)) (fset : R → ℕ → List ℕ → R) (rec_clear : R → R) where
    -- what a client reads in the raw format at the row that it finds
    abbrev pub read_found : ℕ → Found → Option (List ℕ)
    read_found size (ok, some p, s) =
        (read_raw_c doubles fields xxh64 is_v4compat fld_pair fget fset rec_clear s p size).0
    read_found size _ = none

    -- what a client reads under the key of a buffer
    unfoldable pub held : Store → List ℕ → Option (List ℕ)
    held s q =
        let size = s.mem.key_len + s.mem.val_len in
        read_found size
          (lookup_raw_c doubles fields xxh64 is_v4compat fld_pair fget fset rec_clear s q size none)

    pub held-contents :
        (s : Store) (t : Table) (q : List ℕ)
        → IsReady s t
        → is_empty (s.status 0) ≡ false
        → held s q ≡ raw_of s.mem q (contents s.heap t q)
    unfolding held lookup_raw_c read_raw_c view
    held-contents s t q h used =
        let size = s.mem.key_len + s.mem.val_len in
        let fits : (size == size) ≡ true = ground arith in
        let room : ltb size size ≡ false = ground arith in
        elim (Option-cases (lookup xxh64 s.heap t.rows q)) [
          | inl e ↦ rw (fits, used, h.here, e) refl
          | inr (p, e) ↦
              let (lt, same) =
                lookup-found xxh64 (callback doubles xxh64 t.fast s.mem.val_list) q p h.sound e in
              let same' : bytes s.mem.key_len (row s.heap p).key ≡ bytes s.mem.key_len q =
                rw h.keylen at same in
              rw (fits, used, h.here, e, room, same') refl
        ]
