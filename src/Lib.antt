-- ===== src/Lib.antt =====
-- A model of libnf, the library that reads, filters and aggregates network flow records.
--
-- How the parts work together: a filter is parsed into a tree of nodes (src/ffilter), each leaf with
-- an operation that ff_validate chose for the type of its field, and the tree is evaluated on
-- records. An aggregating store (src/memheap.c) packs the fields of a record into a key and a value
-- and inserts them into a hash table (src/hash_table.c) whose callback aggregates the values of equal
-- keys field by field; for reading, the rows are sorted by a merge sort of the list that links them
-- (src/list_sort.c), with the callback of the store.
--
-- Which file models which part:
--   Base                the shared names, lists, integers; Base/Bytes is memory as bytes on a
--                       little-endian machine, with memcmp, memcpy and the string functions used
--   ListSort            list_sort of src/list_sort.c; Merge, Passes and Sorted are its lemmas
--   HashTable           src/hash_table.c over a heap of rows; Lookup, Insert and Map are the table as
--                       a map, Totals and Conservation its list and counter, Join hash_table_join,
--                       Walk reading by hash_table_first and hash_table_next
--   Filter/Types, Attr  the enumerations and values of src/ffilter/ffilter.h, ff_negate
--   Filter/Validate     ff_validate of src/ffilter/fcore.c
--   Filter/OperEval     ff_oper_eval_V2 of src/ffilter/fcore.c, with Filter/Labels; Data is about the
--                       numbers in data, Flags tests of flags, Compare comparisons of integers
--   Filter/Node         ff_new_node, ff_duplicate_node, ff_branch_node, ff_eval_node and
--                       ff_eval of src/ffilter/ffilter.c; Meaning is the expressions of the grammar
--   Filter/Literal      get_unit, ff_strtoull, str_to_uint and saturation of src/ffilter/ffilter.c;
--                       Signed is ff_strtoll, str_to_int and str_to_real; Suffix, Unsigned, Numbers
--                       and Laws are about them
--   Filter/Address      int_to_netmask, unwrap_ip, str_to_addr, str_to_mac and str_to_timestamp; Mask,
--                       Network and Mac are about them
--   Filter/Leaf         ff_type_cast and ff_type_validate; Build is ff_new_leaf, ff_new_mval and
--                       ff_transform_mval; Copy, Stores, Typed, Trees and Leaves
--                       are about the values of leaves
--   LnfFilter           the callbacks of src/lnf_filter.c for ffilter: lnf_ff_lookup_func and
--                       lnf_ff_data_func, in Values lnf_rval_map_func, in Literals src/literals.c;
--                       Typed, Named and Values/Flags are about them, Leaves about the leaves of
--                       ffilter with these callbacks
--   MemHeap/FieldList   lnf_filedlist_add_or_upd and lnf_filedlist_lookup of src/memheap.c
--   MemHeap/Aggr        the aggregation functions and callbacks; Fields, Rows, Fast and Counters are
--                       about them
--   MemHeap/Order       lnf_mem_sort_callback
--   MemHeap/Setup       lnf_mem_init, lnf_mem_setopt, lnf_mem_fadd, lnf_mem_fastaggr
--   MemHeap/Fill        lnf_mem_fill_buf, lnf_mem_fill_rec and the masks of src/memheap.c; Prefix and
--                       Coarse are about addresses
--   MemHeap/Store       lnf_mem_thread_init, lnf_mem_write and lnf_mem_write_raw; Cursor is reading;
--                       Held, Written, Cursor/Calculated and Cursor/Ordered are about them
--   MemHeap/Threads     lnf_mem_merge_threads of src/memheap.c as steps of its threads, on one
--                       heap of rows; Turns, Sums, Progress and Ends are about them
--   RingBuf             src/lnf_ringbuf.c as steps of a writer and readers on shared memory
--   BitArray            src/bit_array.c
--   Fields              lnf_fld_parse of src/fields.c over the table of fields, in Info
--                       lnf_fld_info; Parse and Known are about them; Access is lnf_fld_type and the
--                       functions of src/fields.h
--   Fields/Entry, Table lnf_fields_def of src/fields.c, the table in use; the children of Table are
--                       its parts, Names and Sound are about it
--   Record/Raw          lnf_rec_get_raw and lnf_rec_set_raw of src/libnf.c; Entries, RoundTrip and
--                       Bounds are about them
--   Tests               runs on small inputs
--
-- The loops of list_sort run on fuel: the inner one on the length of the list, since each merge
-- takes a node, and the outer one on a number of passes, where n passes are enough for 2 ^ n
-- nodes. lnf_mem_fadd calls itself on fuel for the fields that a calculated field depends on, for
-- which the depth of the dependencies is enough (3 for the table in use), and the wait of
-- lnf_ring_write on rounds, of which it makes at most three more than LNF_RING_STUCK_LIMIT. The loop
-- of lnf_rec_set_raw runs on the size of the text, since each entry is longer than 0. All other loops
-- are recursions on their lists.
--
-- Parameters: XXH64 (a copy of another library), the machine's doubles, the callback that gives
-- the data of a record, the getters and setters of its fields, IN6_IS_ADDR_V4COMPAT, what a store
-- asks of the table of fields, what malloc leaves in fresh memory and whether it succeeds; for the
-- values of a filter the number and address conversions of the C library and the callbacks of
-- ff_options_t; for the names of fields strtol and the numbers of
-- the address families as text; for TLV records the getter and setter of a field.
--
-- Not modelled: reading and writing files (nfdump's code is not in the repository), the getters
-- and setters of fields on nfdump's records, the lexer and the generated parser,
-- what makes and releases whole filters (ff_init, ff_free, lnf_filter_free), the heap sort of
-- the hash table (nothing calls it), the tools, the examples and the Perl binding.
pub mod Base
pub mod ListSort
pub mod LnfFilter
pub mod HashTable
pub mod Filter
pub mod MemHeap
pub mod BitArray
pub mod RingBuf
pub mod Fields
pub mod Record
mod Tests
