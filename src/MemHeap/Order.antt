-- ===== src/MemHeap/Order.antt =====
-- src/memheap.c: the order of the rows for reading, `lnf_mem_sort_callback`.
pub mod Ascending
use Prim.Native.Nat.{bit_and}
use mathlib.Core.Option
use libnf.Base.{
  ℕ, zero, suc, ◌+◌, ◌^◌, ◌≤◌, ◌≡◌, refl, sym, ap, ◌∙◌, ◌⊎◌, inl, inr, Bool, true, false, not, List,
  [], ◌∷◌, Option, none, some, arith, ltb, ◌==◌, if◌then◌else◌, drop, length, Bool-cases,
}
use libnf.Base.Bytes.{byte, rest, load}
use libnf.HashTable.{Row}
use libnf.MemHeap.Aggr.{Doubles}

-- `memcmp(a, b, n) > 0`
unfoldable pub greater_bytes : ℕ → List ℕ → List ℕ → Bool
greater_bytes zero a b = false
greater_bytes (suc n) a b =
    let others = greater_bytes n (rest a) (rest b) in
    if byte a == byte b then others else ltb (byte b) (byte a)

-- what the callback reads of `lnf_mem_t`; `type` is the type of the field to sort by
pub record SortBy : Type 0 where
  pub type : ℕ
  pub sort_offset : ℕ
  pub sort_flags : ℕ

module _ (doubles : Doubles) where
  -- the `switch` on the type of the field; `none` where it returns 0 at once
  unfoldable pub precedes : ℕ → List ℕ → List ℕ → Option Bool
  unfolding greater_bytes
  precedes type i1 i2 =
      if type == 0x64
      then some (ltb (load 8 i1) (load 8 i2))
      else if type == 0x32
      then some (ltb (load 4 i1) (load 4 i2))
      else if type == 0x16
      then some (ltb (load 2 i1) (load 2 i2))
      else if type == 0x08
      then some (ltb (load 1 i1) (load 1 i2))
      else if type == 0x70
      then some (doubles.double_lt (load 8 i1) (load 8 i2))
      else if type == 0xA1
      then some (greater_bytes 16 i1 i2)
      else if type == 0xA2
      then some (greater_bytes 6 i1 i2)
      else none

  abbrev pub by_column : SortBy → List ℕ → List ℕ → Bool
  by_column s i1 i2 = elim (precedes s.type (drop s.sort_offset i1) (drop s.sort_offset i2)) [
    | none ↦ false
    | some ret ↦ if bit_and s.sort_flags 0xF0 == 0x20 then not ret else ret
  ]

  -- `lnf_mem_sort_callback(key1, val1, key2, val2, lnf_mem) > 0`
  unfoldable pub sort_callback : SortBy → Row → Row → Bool
  unfolding precedes
  sort_callback s r1 r2 =
      if bit_and s.sort_flags 0xF == 1
      then by_column s r1.key r2.key
      else if bit_and s.sort_flags 0xF == 2
      then by_column s r1.val r2.val
      else false
