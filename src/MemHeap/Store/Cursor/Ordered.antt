-- ===== src/MemHeap/Store/Cursor/Ordered.antt =====
-- src/memheap.c: the order in which the rows of a sorted store are read.
use mathlib.Core.List.{Perm, Permᴰ}
use mathlib.Core.Logic.{∥∥₁_elim}
use native.Mathlib.Nat.{ℕ_set}
use Prim.Native.Nat.{bit_and}
use libnf.Base.{
  ℕ, zero, suc, ◌^◌, ◌≤◌, ◌<◌, All, ◌≡◌, ◌≢◌, refl, ap, ◌∙◌, ◌⊎◌, Bool, true, false, List, [], ◌∷◌,
  Option, none, some, arith, ◌==◌, if◌then◌else◌, length,
}
use libnf.Base.Bits.{power_pos}
use libnf.ListSort.Merge.{IsSorted}
use libnf.HashTable.{Heap, HashTable, row, first, next}
use libnf.HashTable.Totals.{occurrences}
use libnf.HashTable.Walk.{IsDistinct, walk, walk-first_more}
use libnf.MemHeap.Aggr.{Doubles}
use libnf.MemHeap.Order.Ascending.{IsInteger, InOrder, sort-InOrder}
use libnf.MemHeap.Setup.{Mem, Fields}
use libnf.MemHeap.Store.Cursor.Calculated.{Computed, sort_heap-Computed}
use libnf.MemHeap.Store.{ok, Store, Table}
use libnf.MemHeap.Store.Cursor.{
  is_empty, Found, found, sort_column, put_table, sort_heap, first_c, next_c,
}

abbrev hit : ℕ → ℕ → ℕ
hit p q = if q == p then 1 else 0

occurrences-Permᴰ : (p : ℕ) {l m : List ℕ} → Permᴰ l m → occurrences p l ≡ occurrences p m
occurrences-Permᴰ p Permᴰ.nil = refl
occurrences-Permᴰ p (Permᴰ.cons e d) = omega (arith, ap (hit p) e, occurrences-Permᴰ p d)
occurrences-Permᴰ p (Permᴰ.swap e f) = omega (arith, ap (hit p) e, ap (hit p) f)
occurrences-Permᴰ p (Permᴰ.trans d e) = occurrences-Permᴰ p d ∙ occurrences-Permᴰ p e

occurrences-Perm : (p : ℕ) {l m : List ℕ} → Perm l m → occurrences p l ≡ occurrences p m
occurrences-Perm p h = ∥∥₁_elim h (ℕ_set _ _) (occurrences-Permᴰ p)

occurrences_le : (l : List ℕ) → IsDistinct l → (p : ℕ) → occurrences p l ≤ 1
occurrences_le [] h p = omega arith
occurrences_le (q ∷ l) h p = ground (arith, occurrences_le l h.1 p, h.0)

IsDistinct-occurrences : (l : List ℕ) → ((p : ℕ) → occurrences p l ≤ 1) → IsDistinct l
IsDistinct-occurrences [] h = tt
IsDistinct-occurrences (q ∷ l) h =
    (ground (arith, h q), IsDistinct-occurrences l (λ p. ground (arith, h p)))

IsDistinct-Perm : (l m : List ℕ) → Perm l m → IsDistinct m → IsDistinct l
IsDistinct-Perm l m h d =
    IsDistinct-occurrences l (λ p. omega (arith, occurrences-Perm p h, occurrences_le m d p))

length-Permᴰ : {l m : List ℕ} → Permᴰ l m → length l ≡ length m
length-Permᴰ Permᴰ.nil = refl
length-Permᴰ (Permᴰ.cons e d) = ap suc (length-Permᴰ d)
length-Permᴰ (Permᴰ.swap e f) = refl
length-Permᴰ (Permᴰ.trans d e) = length-Permᴰ d ∙ length-Permᴰ e

length-Perm : {l m : List ℕ} → Perm l m → length l ≡ length m
length-Perm h = ∥∥₁_elim h (ℕ_set _ _) length-Permᴰ

enough_passes : (n : ℕ) → n ≤ 2 ^ suc n
enough_passes zero = omega arith
enough_passes (suc n) = omega (arith, enough_passes n, power_pos n)

module _ (doubles : Doubles) (fields : Fields) (xxh64 : List ℕ → ℕ) (is_v4compat : List ℕ → Bool)
    {R : Type 0} (fld_pair : ℕ → ℕ → ℕ) (fget : R → ℕ → Option (List ℕ)) (fset : R → ℕ → List ℕ → R)
    (rec_clear : R → R) where
  -- The rows that a client reads from a result on, with `lnf_mem_next_c`, until there is none or
  -- the fuel ends.
  unfoldable pub read_rows : ℕ → Found → List ℕ
  read_rows zero f = []
  read_rows (suc n) (ok, some p, s) =
      p
      ∷ read_rows n
          (next_c doubles fields xxh64 is_v4compat fld_pair fget fset rec_clear s (some p))
  read_rows (suc n) _ = []

  read_rows-found :
      (n : ℕ) (s : Store) (t : Table) (cursor : Option ℕ)
      → is_empty (s.status 0) ≡ false
      → s.table 0 ≡ some t
      → read_rows n (found cursor s) ≡ walk n t.rows cursor
  unfolding read_rows walk next_c
  read_rows-found zero s t cursor used e = refl
  read_rows-found (suc n) s t none used e = refl
  read_rows-found (suc n) s t (some p) used e =
      rw (used, e, read_rows-found n s t (next t.rows (some p)) used e) refl

  -- What is read from a result on: the rows of a list, each once, in the order of the sort flags
  -- of their keys and values in the store then, which counts as sorted, and whose rows are those of the
  -- heap from before with calculated fields computed.
  abbrev pub InOrderOf : Mem → ℕ → List ℕ → ℕ → Heap → Found → Type 0
  InOrderOf mem w slist n heap (ret, cursor, s) =
      Perm (read_rows n (ret, cursor, s)) slist
      × IsSorted (λ p q. InOrder (sort_column fields mem) w (row s.heap p) (row s.heap q))
          (read_rows n (ret, cursor, s))
      × (s.sorted ≡ true)
      × Computed doubles fields xxh64 is_v4compat fld_pair fget fset rec_clear mem heap s.heap slist

  sorted-InOrderOf :
      (s : Store) (t : Table) (rows : HashTable) (w n : ℕ) (slist : List ℕ) (before : Heap)
      → is_empty (s.status 0) ≡ false
      → Perm rows.slist slist
      → IsSorted
          (λ p q. InOrder (sort_column fields s.mem) w (row s.heap p) (row s.heap q))
          rows.slist
      → IsDistinct slist
      → length slist ≤ n
      → Computed doubles fields xxh64 is_v4compat fld_pair fget fset rec_clear s.mem before s.heap
          slist
      → InOrderOf s.mem w slist n before
          (found (first rows) (record (put_table rows t s) { sorted = true }))
  sorted-InOrderOf s t rows w n slist before used perm sorted distinct enough computed =
      let s' = record (put_table rows t s) { sorted = true } in
      let once = IsDistinct-Perm rows.slist slist perm distinct in
      let all : read_rows n (found (first rows) s') ≡ rows.slist =
        read_rows-found n s' (record t { rows = rows }) (first rows) used refl
        ∙ walk-first_more n rows once (omega (arith, length-Perm perm)) in
      state (first rows) all
    where
      state :
          (cursor : Option ℕ)
          → read_rows n (found cursor (record (put_table rows t s) { sorted = true })) ≡ rows.slist
          → InOrderOf s.mem w slist n before
              (found cursor (record (put_table rows t s) { sorted = true }))
      state none all = rw all (perm, sorted, refl, computed)
      state (some p) all = rw all (perm, sorted, refl, computed)

  -- A used store that was not sorted yet and is to be sorted by an integer field of its key or
  -- value: reading by `lnf_mem_first_c` and `lnf_mem_next_c` ends after as many rows as the table of
  -- thread 0 has, and gives each of them once, in the order that the sort flags ask for of their
  -- keys and values then, and the store counts as sorted. When the field to sort by depends on other
  -- fields, the value of each of these rows is then what the getters give of a record into which all
  -- fields of its value and key were put, its key is kept, and so are all rows outside of the list;
  -- else the heap is as it was. The rows of the list are in the heap.
  pub read_rows-first_c :
      (rec : R) (s : Store) (t : Table) (w n : ℕ)
      → is_empty (s.status 0) ≡ false
      → s.table 0 ≡ some t
      → s.sorted ≡ false
      → s.mem.sort_field ≢ 0
      → IsInteger (fields.fld_type s.mem.sort_field) w
      → (bit_and s.mem.sort_flags 0xF ≡ 1) ⊎ (bit_and s.mem.sort_flags 0xF ≡ 2)
      → IsDistinct t.rows.slist
      → All (λ p. p < length s.heap) t.rows.slist
      → length t.rows.slist ≤ n
      → InOrderOf s.mem w t.rows.slist n s.heap
          (first_c doubles fields xxh64 is_v4compat fld_pair fget fset rec_clear rec s)
  unfolding first_c
  read_rows-first_c rec s t w n used e fresh field integer column distinct inside enough =
      let heap =
        sort_heap doubles fields xxh64 is_v4compat fld_pair fget fset rec_clear rec s.mem t.rows
          s.heap in
      let passes = enough_passes (length t.rows.slist) in
      let (rows, sorts, perm, sorted) =
        sort-InOrder doubles (sort_column fields s.mem) w integer column (length t.rows.slist) heap
          t.rows (omega (arith, passes)) in
      let to_sort : (s.mem.sort_field == 0) ≡ false = ground arith in
      let s' = record s { heap = heap } in
      rw (used, e, fresh, to_sort, sorts)
        (sorted-InOrderOf s' t rows w n t.rows.slist s.heap used perm sorted distinct enough (
          sort_heap-Computed doubles fields xxh64 is_v4compat fld_pair fget fset rec_clear s.mem rec
            t.rows s.heap distinct inside))
