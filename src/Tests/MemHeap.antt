-- ===== src/Tests/MemHeap.antt =====
-- src/memheap.c on rows of two fields.
use mathlib.Core.List.{Perm}
use libnf.Base.{
  ℕ, ◌+◌, ◌%◌, ◌^◌, ◌≡◌, refl, inl, inr, List, [], ◌∷◌, some, true, arith, ltb, length,
}
use libnf.Base.Bytes.{byte, store}
use libnf.ListSort.Merge.{IsSorted}
use libnf.HashTable.{Heap, row, HashTable, init, insert_all, sort}
use libnf.HashTable.Totals.{total}
use libnf.HashTable.Conservation.{offered}
use libnf.MemHeap.FieldList.{Field, aggr_sum, aggr_max, add_or_upd, is_full}
use libnf.MemHeap.FieldList.Layout.{width, Places, add_or_upd-Places}
use libnf.MemHeap.Aggr.{Doubles, aggr_callback, fastaggr_callback}
use libnf.MemHeap.Aggr.Fields.{combine}
use libnf.MemHeap.Aggr.Rows.{field_value, aggr_callback-field}
use libnf.MemHeap.Aggr.Fast.{fast_field, fast_list, fastaggr_callback-aggr_callback}
use libnf.MemHeap.Aggr.Counters.{aggr_callback-total}
use libnf.MemHeap.Order.{SortBy, sort_callback}
use libnf.MemHeap.Order.Ascending.{InOrder, sort-InOrder}

-- an integer arithmetic in place of the machine's doubles
abbrev whole : Doubles
whole = record { double_add = ◌+◌; double_lt = ltb }

-- the bytes of flows and of the time of the last packet
abbrev octets : Field
octets = fast_field 4 0 3 (aggr_sum 8)

abbrev latest : Field
latest = fast_field 2 8 2 (aggr_max 8)

abbrev value_list : List Field
value_list = octets ∷ latest ∷ []

abbrev hash_byte : List ℕ → ℕ
hash_byte key = byte key

abbrev value : ℕ → List ℕ
value n = store 8 n

abbrev records : List (List ℕ × List ℕ)
records = (1 ∷ [], value 10) ∷ (3 ∷ [], value 20) ∷ (1 ∷ [], value 7) ∷ []

aggr_callback-total_example :
    let (h', t') =
      insert_all hash_byte
        (λ key. aggr_callback whole value_list)
        []
        (init 2 1 (width value_list))
        records in
    (total (field_value octets) h' t'.slist % 2 ^ 64
      ≡ offered (field_value octets) records % 2 ^ 64)
    × (t'.numentries ≡ length t'.slist)
aggr_callback-total_example =
    aggr_callback-total hash_byte whole value_list 0 octets [] 2 1 records (refl, (refl, tt))
      (refl, (refl, tt)) refl refl (omega arith)

aggr_callback-field_example :
    field_value latest (aggr_callback whole value_list (value 1) (value 2))
    ≡ combine whole latest.aggr_func (field_value latest (value 1)) (field_value latest (value 2))
aggr_callback-field_example =
    aggr_callback-field whole 0 value_list 1 latest (value 1) (value 2) (refl, (refl, tt))
      (refl, (refl, tt)) refl

fastaggr_callback-aggr_callback_example :
    fastaggr_callback (value 3) (value 4) ≡ aggr_callback whole fast_list (value 3) (value 4)
fastaggr_callback-aggr_callback_example = fastaggr_callback-aggr_callback whole (value 3) (value 4)

add_or_upd-Places_example :
    (list' : List Field) × (offset : ℕ) × (add_or_upd true value_list
        (fast_field 5 0 3 (aggr_sum 8))
        256
      ≡ some (list', width list', offset))
    × Places 0 (fast_field 5 0 3 (aggr_sum 8)) list' offset
unfolding is_full
add_or_upd-Places_example =
    add_or_upd-Places value_list (fast_field 5 0 3 (aggr_sum 8)) 256 (refl, (refl, tt)) refl

abbrev heap : Heap
heap =
    record { hash = 1; key = 1 ∷ []; val = value 10 }
    ∷ record { hash = 3; key = 3 ∷ []; val = value 20 }
    ∷ []

abbrev table : HashTable
table = record {
  keylen = 1;
  vallen = 8;
  buckets = [] ∷ (0 ∷ 1 ∷ []) ∷ [];
  slist = 0 ∷ 1 ∷ [];
  slast = some 1;
  numentries = 2;
}

-- by the bytes, descending, and the field in the value
abbrev by_octets : SortBy
by_octets = record { type = 0x64; sort_offset = 0; sort_flags = 0x22 }

sort-InOrder_example :
    (t' : HashTable) × (sort (sort_callback whole by_octets) 1 heap table ≡ some t')
    × Perm t'.slist table.slist
    × IsSorted (λ p q. InOrder by_octets 8 (row heap p) (row heap q)) t'.slist
sort-InOrder_example =
    sort-InOrder whole by_octets 8 (inl (refl, refl)) (inr refl) 0 heap table (omega arith)
