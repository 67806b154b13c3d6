-- ===== src/MemHeap/Store/Cursor.antt =====
-- src/memheap.c: reading a store, from the table of thread 0. The functions that return a cursor
-- give the return value, the cursor and the store afterwards; a cursor is the address of a row.
pub mod Ordered
pub mod Calculated
use libnf.Base.{
  ℕ, zero, suc, ◌+◌, Bool, true, false, not, ◌&&◌, List, [], ◌∷◌, ◌++◌, Option, none, some, ltb,
  ◌==◌, if◌then◌else◌, set, length,
}
use libnf.Base.Bytes.{bytes}
use libnf.HashTable.{HashTable, Heap, Row, row, lookup, sort, clean, first, next}
use libnf.MemHeap.FieldList.{Field}
use libnf.MemHeap.Aggr.{Doubles}
use libnf.MemHeap.Order.{SortBy, sort_callback}
use libnf.MemHeap.Setup.{Mem, Fields}
use libnf.MemHeap.Fill.{fill_buf, fill_rec}
use libnf.MemHeap.Threads.{ThStatus, upd}
use libnf.MemHeap.Store.{Ret, ok, eof, err_nomem, err_other, undefined, Table, Store}

abbrev pub is_empty : ThStatus → Bool
is_empty ThStatus.empty = true
is_empty _ = false

abbrev pub Found : Type 0
Found = Ret × Option ℕ × Store

-- LNF_EOF without a row
abbrev pub found : Option ℕ → Store → Found
found none s = (eof, none, s)
found (some p) s = (ok, some p, s)

-- the column to sort by, and the type of its field
abbrev pub sort_column : Fields → Mem → SortBy
sort_column fields mem = record {
  type = fields.fld_type mem.sort_field;
  sort_offset = mem.sort_offset;
  sort_flags = mem.sort_flags;
}

abbrev pub first_dep : List ℕ → ℕ
first_dep [] = 0
first_dep (dep ∷ deps) = dep

abbrev pub put_table : HashTable → Table → Store → Store
put_table rows t s = record s { table = upd s.table 0 (some (record t { rows = rows })) }

-- `doubles`, `fields` and `xxh64` as for writing; `R` is the type of the record that the store has
-- for calculations, with its getters and setters.
module _ (doubles : Doubles) (fields : Fields) (xxh64 : List ℕ → ℕ) (is_v4compat : List ℕ → Bool)
    {R : Type 0} (fld_pair : ℕ → ℕ → ℕ) (fget : R → ℕ → Option (List ℕ)) (fset : R → ℕ → List ℕ → R)
    (rec_clear : R → R) where
  -- the body of the loop of `lnf_mem_upd_calc_fields`, on the row at `p`
  abbrev pub calc_row : Mem → ℕ → R × Heap → R × Heap
  calc_row mem p (rec, heap) =
      let r = row heap p in
      let rec' = fill_rec fset mem.key_list r.key (fill_rec fset mem.val_list r.val rec) in
      let val = fill_buf is_v4compat fld_pair (fget rec') 0 mem.val_list r.val in
      (rec', set heap p (record r { val = val }))

  -- `lnf_mem_upd_calc_fields`, over the rows of the list from `hash_table_first` on
  unfoldable pub upd_calc_fields : Mem → List ℕ → R × Heap → R × Heap
  upd_calc_fields mem [] state = state
  upd_calc_fields mem (p ∷ l) state = upd_calc_fields mem l (calc_row mem p state)

  -- The heap that is sorted: calculated fields are computed first when the field to sort by is one.
  abbrev pub sort_heap : R → Mem → HashTable → Heap → Heap
  sort_heap rec mem rows heap =
      if first_dep (fields.calc_deps mem.sort_field) == 0
      then heap
      else (upd_calc_fields mem rows.slist (rec, heap)).1

  abbrev pub after_sort : Option HashTable → Table → Store → Found
  after_sort none t s = (undefined, none, s)
  after_sort (some rows) t s = found (first rows) (record (put_table rows t s) { sorted = true })

  -- the table sorted if it is to be, and its first row; list_sort makes a pass less than it has rows
  abbrev pub first_of : R → Store → Option Table → Found
  first_of rec s none = (undefined, none, s)
  first_of rec s (some t) =
      let heap = sort_heap rec s.mem t.rows s.heap in
      let compare = sort_callback doubles (sort_column fields s.mem) in
      if not s.sorted && not (s.mem.sort_field == 0)
      then after_sort (sort compare (suc (length t.rows.slist)) heap t.rows) t
          (record s { heap = heap })
      else found (first t.rows) s

  -- `lnf_mem_first_c`
  unfoldable pub first_c : R → Store → Found
  unfolding upd_calc_fields
  first_c rec s = if is_empty (s.status 0) then (eof, none, s) else first_of rec s (s.table 0)

  abbrev pub next_of : Store → Option Table → Option ℕ → Found
  next_of s none cursor = (undefined, none, s)
  next_of s (some t) cursor = found (next t.rows cursor) s

  -- `lnf_mem_next_c`
  unfoldable pub next_c : Store → Option ℕ → Found
  next_c s cursor = if is_empty (s.status 0) then (eof, cursor, s) else next_of s (s.table 0) cursor

  abbrev pub lookup_of : Store → Option Table → List ℕ → Found
  lookup_of s none key = (undefined, none, s)
  lookup_of s (some t) key = found (lookup xxh64 s.heap t.rows key) s

  -- `lnf_mem_lookup_c`; `key` is what the buffer on the stack holds before
  unfoldable pub lookup_c : R → Store → List ℕ → Found
  lookup_c rec s key =
      if is_empty (s.status 0)
      then (eof, none, s)
      else lookup_of s (s.table 0) (fill_buf is_v4compat fld_pair (fget rec) 0 s.mem.key_list key)

  -- `lnf_mem_lookup_raw_c`; the cursor is left alone by the error
  unfoldable pub lookup_raw_c : Store → List ℕ → ℕ → Option ℕ → Found
  lookup_raw_c s buff buffsize cursor =
      if not (buffsize == s.mem.key_len + s.mem.val_len)
      then (err_other, cursor, s)
      else if is_empty (s.status 0)
      then (eof, none, s)
      else lookup_of s (s.table 0) buff

  -- `lnf_mem_read_c`: the record
  unfoldable pub read_c : Store → ℕ → R → R
  read_c s cursor rec =
      let r = row s.heap cursor in
      fill_rec fset s.mem.val_list r.val (fill_rec fset s.mem.key_list r.key (rec_clear rec))

  -- `lnf_mem_read_raw_c`: the bytes that are copied to `buff`, none with LNF_ERR_NOMEM, and `*len`
  unfoldable pub read_raw_c : Store → ℕ → ℕ → Option (List ℕ) × ℕ
  read_raw_c s cursor buffsize =
      let len = s.mem.key_len + s.mem.val_len in
      let r = row s.heap cursor in
      (
        if ltb buffsize len
            then none
            else some (bytes s.mem.key_len r.key ++ bytes s.mem.val_len r.val),
        len,
      )

  -- the move of the cursor of the store in `lnf_mem_read` and `lnf_mem_read_raw`
  abbrev pub keep_cursor : Found → Found
  keep_cursor (ret, cursor, s) = (ret, cursor, record s { read_cursor = cursor })

  abbrev pub advance_from : R → Store → Option ℕ → Found
  advance_from calc s none = keep_cursor (first_c calc s)
  advance_from calc s (some p) = keep_cursor (next_c s (some p))

  -- `lnf_mem_read`: the record that is read, if the return value is LNF_OK
  abbrev pub read_at : Found → R → Ret × R × Store
  read_at (ok, some p, s) rec = (ok, read_c s p rec, s)
  read_at (ok, none, s) rec = (undefined, rec, s)
  read_at (ret, cursor, s) rec = (ret, rec, s)

  unfoldable pub read : R → Store → R → Ret × R × Store
  unfolding first_c next_c read_c
  read calc s rec = read_at (advance_from calc s s.read_cursor) rec

  -- `lnf_mem_read_raw`: what `lnf_mem_read_raw_c` gives, if there is a row
  abbrev pub raw_ret : Option (List ℕ) → Ret
  raw_ret none = err_nomem
  raw_ret (some bs) = ok

  abbrev pub read_raw_at : Found → ℕ → Ret × Option (Option (List ℕ) × ℕ) × Store
  read_raw_at (ok, some p, s) buffsize =
      let out = read_raw_c s p buffsize in (raw_ret out.0, some out, s)
  read_raw_at (ok, none, s) buffsize = (undefined, none, s)
  read_raw_at (ret, cursor, s) buffsize = (ret, none, s)

  unfoldable pub read_raw : R → Store → ℕ → Ret × Option (Option (List ℕ) × ℕ) × Store
  unfolding first_c next_c read_raw_c
  read_raw calc s buffsize = read_raw_at (advance_from calc s s.read_cursor) buffsize

  -- `lnf_mem_read_reset`
  unfoldable pub read_reset : R → Store → Store
  unfolding first_c
  read_reset calc s = let (ret, cursor, s') = first_c calc s in record s' { read_cursor = cursor }

abbrev pub clean_table : Store → Option Table → Store
clean_table s none = s
clean_table s (some t) = put_table (clean t.rows) t s

-- `lnf_mem_clean`
unfoldable pub store_clean : Store → Store
store_clean s =
    if is_empty (s.status 0)
    then s
    else record (clean_table s (s.table 0)) { status = upd s.status 0 ThStatus.empty }
