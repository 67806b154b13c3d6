-- ===== src/MemHeap.antt =====
-- src/memheap.c: the aggregating store of flow records, which lays fields out in rows and keeps the
-- rows in hash tables. The children: the layout of the rows, the aggregation of two rows, the order
-- of the rows.
pub mod FieldList
pub mod Aggr
pub mod Order
pub mod Setup
pub mod Threads
pub mod Fill
pub mod Store
