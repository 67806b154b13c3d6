-- ===== src/MemHeap/Aggr.antt =====
-- src/memheap.c: the aggregation of a record into a stored row.
-- A buffer is a list of bytes; what is past its end reads as 0, and a write past its end extends it.
pub mod Fields
pub mod Rows
pub mod Fast
pub mod Counters
use Prim.Native.Nat.{bit_or}
use libnf.Base.{ℕ, zero, suc, ◌+◌, Bool, List, [], ◌∷◌, ltb, if◌then◌else◌, drop}
use libnf.Base.Bytes.{byte, rest, load, store, bytes}
use libnf.MemHeap.FieldList.{
  AggrFunc, aggr_sum, aggr_or, aggr_min, aggr_max, aggr_sum_double, aggr_min_double,
  aggr_max_double, aggr_empty, Field,
}

-- the machine's doubles, on their representations
pub record Doubles : Type 0 where
  pub double_add : ℕ → ℕ → ℕ
  pub double_lt : ℕ → ℕ → Bool

-- a write of some bytes at an offset
abbrev pub overlay : List ℕ → List ℕ → List ℕ
overlay [] buf = buf
overlay (b ∷ new) buf = b ∷ overlay new (rest buf)

unfoldable pub patch : ℕ → List ℕ → List ℕ → List ℕ
patch offset [] buf = buf
patch zero (b ∷ new) buf = overlay (b ∷ new) buf
patch (suc offset) (b ∷ new) buf = byte buf ∷ patch offset (b ∷ new) (rest buf)

module _ (doubles : Doubles) where
  -- The bytes that an aggregation function writes at `a`, none where it leaves `*a` alone.
  unfoldable pub aggr_bytes : AggrFunc → List ℕ → List ℕ → List ℕ
  aggr_bytes (aggr_sum w) a b = store w (load w a + load w b)
  aggr_bytes (aggr_or w) a b = store w (bit_or (load w a) (load w b))
  aggr_bytes (aggr_min w) a b = if ltb (load w b) (load w a) then bytes w b else []
  aggr_bytes (aggr_max w) a b = if ltb (load w a) (load w b) then bytes w b else []
  aggr_bytes aggr_sum_double a b = store 8 (doubles.double_add (load 8 a) (load 8 b))
  aggr_bytes aggr_min_double a b = if doubles.double_lt (load 8 b) (load 8 a) then bytes 8 b else []
  aggr_bytes aggr_max_double a b = if doubles.double_lt (load 8 a) (load 8 b) then bytes 8 b else []
  aggr_bytes aggr_empty a b = []

  -- `lnf_mem_aggr_callback`: what is left in `hval`
  unfoldable pub aggr_callback : List Field → List ℕ → List ℕ → List ℕ
  unfolding aggr_bytes patch
  aggr_callback [] hval uval = hval
  aggr_callback (f ∷ l) hval uval =
      let written = aggr_bytes f.aggr_func (drop f.offset hval) (drop f.offset uval) in
      aggr_callback l (patch f.offset written hval) uval

-- the uint64_t at an offset of `lnf_fastaggr_t`
abbrev pub word : ℕ → List ℕ → ℕ
word offset buf = load 8 (drop offset buf)

abbrev pub set_word : ℕ → ℕ → List ℕ → List ℕ
set_word offset v buf = patch offset (store 8 v) buf

abbrev pub copy_word : ℕ → List ℕ → List ℕ → List ℕ
copy_word offset from buf = patch offset (bytes 8 (drop offset from)) buf

-- `lnf_mem_fastaggr_callback`, statement by statement: `first`, `last`, `doctets`, `dpkts` and
-- `aggr_flows` stand at 0, 8, 16, 24 and 32.
unfoldable pub fastaggr_callback : List ℕ → List ℕ → List ℕ
unfolding patch
fastaggr_callback h u =
    let h1 = if ltb (word 0 u) (word 0 h) then copy_word 0 u h else h in
    let h2 = if ltb (word 8 h1) (word 8 u) then copy_word 8 u h1 else h1 in
    let h3 = set_word 16 (word 16 h2 + word 16 u) h2 in
    let h4 = set_word 24 (word 24 h3 + word 24 u) h3 in set_word 32 (word 32 h4 + word 32 u) h4
