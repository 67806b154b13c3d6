-- ===== src/MemHeap/Store/Written.antt =====
-- src/memheap.c: a store after `lnf_mem_write`.
use libnf.Base.{
  ℕ, ◌≡◌, refl, sym, ap, ◌∙◌, Bool, true, false, ◌&&◌, List, Option, some, if◌then◌else◌,
}
use libnf.Base.Bytes.{same_bytes}
use libnf.MemHeap.Aggr.{Doubles}
use libnf.MemHeap.Setup.{Mem, Fields}
use libnf.MemHeap.Fill.{fill_buf}
use libnf.MemHeap.Threads.{ThStatus}
use libnf.MemHeap.Threads.Turns.{upd_self}
use libnf.MemHeap.Store.{
  Ret, ok, Store, Table, Alloc, insert, write, write_pair, thread_id, set_status, value_of,
  write_keys,
}
use libnf.MemHeap.Store.Cursor.{is_empty}
use libnf.MemHeap.Store.Held.{
  IsReady, contents, put_in, put_record, insert-Puts, held, held-contents, raw_of,
}

module _ (doubles : Doubles) (xxh64 : List ℕ → ℕ) where
  -- A call that returned LNF_OK and left a table that holds `m`.
  record Leaves (mem : Mem) (m : List ℕ → Option (List ℕ)) (r : Ret × Store) : Type 0 where
    pub done : r.0 ≡ ok
    pub table : Table
    pub ready : IsReady r.1 table
    pub same_mem : r.1.mem ≡ mem
    pub used : is_empty (r.1.status 0) ≡ false
    pub holds : (q : List ℕ) → contents doubles xxh64 r.1.heap table q ≡ m q

  if_false : (b : Bool) (x y : Ret × Store) → b ≡ false → (if b then x else y) ≡ y
  if_false b x y e = rw e refl

  either-Leaves :
      (stats same : Bool) (mem : Mem) (m1 m2 : List ℕ → Option (List ℕ)) (r1 r2 : Ret × Store)
      → Leaves mem m1 r1
      → Leaves mem m2 r2
      → Leaves mem
          (if stats then (if same then m1 else m2) else m1)
          (if stats then (if same then r1 else r2) else r1)
  either-Leaves true true mem m1 m2 r1 r2 h k = h
  either-Leaves true false mem m1 m2 r1 r2 h k = k
  either-Leaves false same mem m1 m2 r1 r2 h k = h

  insert-Leaves :
      (s : Store) (t : Table) (key val : List ℕ) (mem : Mem) (m : List ℕ → Option (List ℕ))
      → IsReady s t
      → is_empty (s.status 0) ≡ false
      → s.mem ≡ mem
      → ((q : List ℕ)
          → put_in doubles xxh64 t.fast s.mem key val (contents doubles xxh64 s.heap t) q ≡ m q)
      → Leaves mem m (insert doubles xxh64 false true 0 key val s)
  insert-Leaves s t key val mem m h used same spec =
      let p = insert-Puts doubles xxh64 s t key val h in
      record {
        done = p.done;
        table = p.table;
        ready = p.ready;
        same_mem = p.same_mem ∙ same;
        used = ap (λ f. is_empty (f 0)) p.same_status ∙ used;
        holds = λ q. p.holds q ∙ spec q;
      }

  -- What is put in depends on the callback, the settings and what was held.
  put_in_congr :
      (fast fast' : Bool) (mem mem' : Mem) (key val : List ℕ) (m m' : List ℕ → Option (List ℕ))
      → fast ≡ fast'
      → mem ≡ mem'
      → ((q : List ℕ) → m q ≡ m' q)
      → (q : List ℕ)
      → put_in doubles xxh64 fast mem key val m q ≡ put_in doubles xxh64 fast' mem' key val m' q
  put_in_congr fast fast' mem mem' key val m m' e f g q =
      ap (λ x. put_in doubles xxh64 x mem key val m q) e
      ∙ ap (λ x. put_in doubles xxh64 fast' x key val m q) f
      ∙ rw (g key, g q) refl

  module _ (is_v4compat : List ℕ → Bool) (fld_pair : ℕ → ℕ → ℕ) (fget : ℕ → Option (List ℕ)) where
    abbrev pair : Alloc → List ℕ → List ℕ → List ℕ → Ret × Store → Ret × Store
    pair alloc = write_pair doubles xxh64 is_v4compat fld_pair fget alloc 0

    -- the second part of a write, when the first returned LNF_OK
    abbrev after_first : Alloc → Mem → List ℕ → List ℕ → List ℕ → Ret × Store → Ret × Store
    after_first alloc mem k1 k2 v r =
        if mem.statistics_mode
        then (if mem.nfdump_comp_statistics && same_bytes mem.key_len k1 k2
            then r
            else insert doubles xxh64 false alloc.row2 0 k2 v r.1)
        else r

    pair_ok :
        (alloc : Alloc) (mem : Mem) (k1 k2 v : List ℕ) (r : Ret × Store)
        → r.0 ≡ ok
        → r.1.mem ≡ mem
        → pair alloc k1 k2 v r ≡ after_first alloc mem k1 k2 v r
    pair_ok alloc mem k1 k2 v (ret, s) e f =
        ap (λ x. pair alloc k1 k2 v (x, s)) e
        ∙ ap (λ x. after_first alloc x k1 k2 v (ok, s)) f
        ∙ ap (λ x. after_first alloc mem k1 k2 v (x, s)) (sym e)

    pair-Leaves :
        (alloc : Alloc) (s : Store) (t : Table) (k1 k2 v : List ℕ)
        → IsReady s t
        → is_empty (s.status 0) ≡ false
        → alloc.row2 ≡ true
        → Leaves s.mem
            (put_record doubles xxh64 t.fast s.mem k1 k2 v (contents doubles xxh64 s.heap t))
            (pair alloc k1 k2 v (insert doubles xxh64 false true 0 k1 v s))
    pair-Leaves alloc s t k1 k2 v h used room =
        let r = insert doubles xxh64 false true 0 k1 v s in
        let p = insert-Puts doubles xxh64 s t k1 v h in
        let once = put_in doubles xxh64 t.fast s.mem k1 v (contents doubles xxh64 s.heap t) in
        let used' = ap (λ f. is_empty (f 0)) p.same_status ∙ used in
        let one = insert-Leaves s t k1 v s.mem once h used refl (λ q. refl) in
        let two =
          insert-Leaves r.1 p.table k2 v s.mem (put_in doubles xxh64 t.fast s.mem k2 v once) p.ready
            used' p.same_mem
            (put_in_congr p.table.fast t.fast r.1.mem s.mem k2 v _ once p.same_fast p.same_mem
              p.holds) in
        rw (pair_ok alloc s.mem k1 k2 v r p.done p.same_mem, room)
          (either-Leaves s.mem.statistics_mode
            (s.mem.nfdump_comp_statistics && same_bytes s.mem.key_len k1 k2) s.mem once
            (put_in doubles xxh64 t.fast s.mem k2 v once) r
            (insert doubles xxh64 false true 0 k2 v r.1) one two)

    -- the keys and the value that `lnf_mem_write` builds
    abbrev key_of : Store → ℕ → List ℕ → List ℕ
    key_of s pairset key = fill_buf is_v4compat fld_pair fget pairset s.mem.key_list key

    thread_id_known :
        (alloc : Alloc) (tid : ℕ) (s : Store)
        → s.own_id tid ≡ some 0
        → thread_id alloc tid s ≡ (ok, some 0, s)
    unfolding thread_id
    thread_id_known alloc tid s own = rw (own, thread_id) refl

    write-pair :
        (alloc : Alloc) (tid : ℕ) (key1 key2 val : List ℕ) (s : Store)
        → s.own_id tid ≡ some 0
        → s.mem.list_mode ≡ false
        → alloc.row1 ≡ true
        → let first = key_of s (if s.mem.statistics_mode then 1 else 0) key1 in
          let v = value_of doubles xxh64 is_v4compat fld_pair fget s.mem val in
          write doubles xxh64 is_v4compat fld_pair fget alloc tid key1 key2 val s
          ≡ pair alloc first
              (key_of s 2 key2)
              v
              (insert doubles xxh64 false true 0 first v (set_status 0 ThStatus.write s))
    unfolding write
    write-pair alloc tid key1 key2 val s own aggregates room =
        let first = key_of s (if s.mem.statistics_mode then 1 else 0) key1 in
        let v = value_of doubles xxh64 is_v4compat fld_pair fget s.mem val in
        let s' = set_status 0 ThStatus.write s in
        let row = λ (b : Bool).
          pair alloc first (key_of s 2 key2) v (insert doubles xxh64 false b 0 first v s') in
        ap (write_keys doubles xxh64 is_v4compat fld_pair fget alloc first (key_of s 2 key2) v)
          (thread_id_known alloc tid s own)
        ∙ if_false s.mem.list_mode _ _ aggregates
        ∙ ap row room

  module _ (fields : Fields) (is_v4compat : List ℕ → Bool) {R : Type 0} (fld_pair : ℕ → ℕ → ℕ)
      (fget : R → ℕ → Option (List ℕ)) (fset : R → ℕ → List ℕ → R) (rec_clear : R → R) where
    -- After `lnf_mem_write` by the thread with the identifier 0, in a store that aggregates and has
    -- memory left, a client that looks a key up and reads it in the raw format finds the record:
    -- under its key the value of the record if the key was new, and else the aggregate of the old
    -- value and this one. With pair fields the record is put in under both of its keys, one after
    -- the other, and only once in the mode that is compatible with nfdump if the keys are equal. Every
    -- other key reads as before.
    pub held-write :
        (alloc : Alloc) (tid : ℕ) (key1 key2 val q : List ℕ) (rec : R) (s : Store) (t : Table)
        → s.own_id tid ≡ some 0
        → IsReady s t
        → alloc.row1 ≡ true
        → alloc.row2 ≡ true
        → let fill =
            λ (pairset : ℕ). fill_buf is_v4compat fld_pair (fget rec) pairset s.mem.key_list in
          let keybuf = fill (if s.mem.statistics_mode then 1 else 0) key1 in
          let keybuf2 = fill 2 key2 in
          let valbuf = value_of doubles xxh64 is_v4compat fld_pair (fget rec) s.mem val in
          let (ret, s') =
            write doubles xxh64 is_v4compat fld_pair (fget rec) alloc tid key1 key2 val s in
          (ret ≡ ok)
          × (held doubles xxh64 fields is_v4compat fld_pair fget fset rec_clear s' q
              ≡ raw_of doubles xxh64 s.mem q (
                  put_record doubles xxh64 t.fast s.mem keybuf keybuf2 valbuf
                    (contents doubles xxh64 s.heap t)
                    q))
    held-write alloc tid key1 key2 val q rec s t own h room1 room2 =
        let first =
          key_of is_v4compat fld_pair (fget rec) s (if s.mem.statistics_mode then 1 else 0) key1 in
        let second = key_of is_v4compat fld_pair (fget rec) s 2 key2 in
        let v = value_of doubles xxh64 is_v4compat fld_pair (fget rec) s.mem val in
        let s1 = set_status 0 ThStatus.write s in
        let h1 : IsReady s1 t = record {
          here = h.here;
          sound = h.sound;
          keylen = h.keylen;
          vallen = h.vallen;
          aggregates = h.aggregates;
        } in
        let used = ap is_empty (upd_self s.status 0 ThStatus.write) in
        let l =
          pair-Leaves is_v4compat fld_pair (fget rec) alloc s1 t first second v h1 used room2 in
        let r =
          pair is_v4compat fld_pair (fget rec) alloc first second v
            (insert doubles xxh64 false true 0 first v s1) in
        let held_now = contents doubles xxh64 r.1.heap l.table q in
        let all =
          write-pair is_v4compat fld_pair (fget rec) alloc tid key1 key2 val s own h.aggregates
            room1 in
        rw all (
          l.done,
          held-contents doubles xxh64 fields is_v4compat fld_pair fget fset rec_clear _ l.table q
                l.ready l.used
              ∙ ap (λ m. raw_of doubles xxh64 m q held_now) l.same_mem
              ∙ ap (raw_of doubles xxh64 s.mem q) (l.holds q),
        )
