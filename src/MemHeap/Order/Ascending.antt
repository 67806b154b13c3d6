-- ===== src/MemHeap/Order/Ascending.antt =====
-- src/memheap.c: the rows as the callback sorts them.
use Prim.Native.Nat.{bit_and}
use mathlib.Core.List.{Perm}
use libnf.Base.{
  ℕ, suc, ◌^◌, ◌≤◌, ◌≡◌, refl, sym, ap, ◌∙◌, ◌⊎◌, inl, inr, Bool, true, false, not, List, some,
  arith, ltb, ◌==◌, if◌then◌else◌, drop, length, Bool-cases, ltb→lt,
}
use libnf.Base.Bytes.{load}
use libnf.ListSort.Merge.{IsSorted}
use libnf.ListSort.Sorted.{list_sort-IsSorted}
use libnf.HashTable.{Row, Heap, row, HashTable, sort}
use libnf.MemHeap.Aggr.{Doubles}
use libnf.MemHeap.Order.{SortBy, precedes, by_column, sort_callback}

-- the size of an integer type in bytes
abbrev pub IsInteger : ℕ → ℕ → Type 0
IsInteger type w =
    ((type ≡ 0x64) × (w ≡ 8))
    ⊎ (((type ≡ 0x32) × (w ≡ 4)) ⊎ (((type ≡ 0x16) × (w ≡ 2)) ⊎ ((type ≡ 0x08) × (w ≡ 1))))

-- the number that a row is sorted by
abbrev pub sort_value : SortBy → ℕ → Row → ℕ
sort_value s w r =
    load w (drop s.sort_offset (if bit_and s.sort_flags 0xF == 1 then r.key else r.val))

-- the order that the flags ask for
abbrev pub InOrder : SortBy → ℕ → Row → Row → Type 0
InOrder s w r1 r2 =
    if bit_and s.sort_flags 0xF0 == 0x20
    then (sort_value s w r2 ≤ sort_value s w r1)
    else (sort_value s w r1 ≤ sort_value s w r2)

InOrder_trans :
    (s : SortBy) (w : ℕ) (a b c : Row) → InOrder s w a b → InOrder s w b c → InOrder s w a c
InOrder_trans s w a b c h k = elim (Bool-cases (bit_and s.sort_flags 0xF0 == 0x20)) [
  | inl desc ↦ rw desc (omega (arith, rw desc at h, rw desc at k))
  | inr asc ↦ rw asc (omega (arith, rw asc at h, rw asc at k))
]

not_ltb : (x y : ℕ) → not (ltb x y) ≡ true → y ≤ x
not_ltb x y e = ground arith

not_false : (b : Bool) → not b ≡ false → b ≡ true
not_false true e = refl
not_false false e = cc

module _ (doubles : Doubles) where
  precedes-IsInteger :
      (type w : ℕ) (i1 i2 : List ℕ)
      → IsInteger type w
      → precedes doubles type i1 i2 ≡ some (ltb (load w i1) (load w i2))
  unfolding precedes
  precedes-IsInteger type w i1 i2 (inl (e, f)) = rw (e, f) refl
  precedes-IsInteger type w i1 i2 (inr (inl (e, f))) = rw (e, f) refl
  precedes-IsInteger type w i1 i2 (inr (inr (inl (e, f)))) = rw (e, f) refl
  precedes-IsInteger type w i1 i2 (inr (inr (inr (e, f)))) = rw (e, f) refl

  module _ (s : SortBy) (w : ℕ) (integer : IsInteger s.type w)
      (column : (bit_and s.sort_flags 0xF ≡ 1) ⊎ (bit_and s.sort_flags 0xF ≡ 2)) where
    by_column-lem :
        (i1 i2 : List ℕ)
        → by_column doubles s i1 i2 ≡ (
            if bit_and s.sort_flags 0xF0 == 0x20
            then not (ltb (load w (drop s.sort_offset i1)) (load w (drop s.sort_offset i2)))
            else ltb (load w (drop s.sort_offset i1)) (load w (drop s.sort_offset i2)))
    by_column-lem i1 i2 =
        rw
          (
            precedes-IsInteger s.type w (drop s.sort_offset i1) (drop s.sort_offset i2) integer,
            by_column,
          )
          refl

    sort_callback-lem :
        (a b : Row)
        → sort_callback doubles s a b ≡ (
            if bit_and s.sort_flags 0xF0 == 0x20
            then not (ltb (sort_value s w a) (sort_value s w b))
            else ltb (sort_value s w a) (sort_value s w b))
    unfolding sort_callback
    sort_callback-lem a b = elim column [
      | inl key ↦ rw key (by_column-lem a.key b.key)
      | inr val ↦ rw val (by_column-lem a.val b.val)
    ]

    first : (a b : Row) → sort_callback doubles s a b ≡ true → InOrder s w a b
    first a b e =
        let e' = sym (sort_callback-lem a b) ∙ e in
        elim (Bool-cases (bit_and s.sort_flags 0xF0 == 0x20)) [
          | inl desc ↦ rw desc (let e'' = rw desc at e' in not_ltb _ _ e'')
          | inr asc ↦ rw asc (omega (arith, ltb→lt _ _ (rw asc at e')))
        ]

    second : (a b : Row) → sort_callback doubles s a b ≡ false → InOrder s w b a
    second a b e =
        let e' = sym (sort_callback-lem a b) ∙ e in
        elim (Bool-cases (bit_and s.sort_flags 0xF0 == 0x20)) [
          | inl desc ↦ rw desc (omega (arith, ltb→lt _ _ (not_false _ (rw desc at e'))))
          | inr asc ↦ rw asc (not_ltb _ _ (ap not (rw asc at e')))
        ]

    -- Sorting a table ends within `fuel + 1` passes when it has at most 2 ^ (fuel + 1) rows. It keeps the rows
    -- and puts them in ascending order of the integer field to sort by, or in descending order when
    -- the flags say LNF_SORT_DESC; the flags must say where the field is, in the key or the value.
    pub sort-InOrder :
        (fuel : ℕ) (h : Heap) (t : HashTable)
        → length t.slist ≤ 2 ^ suc fuel
        → (t' : HashTable) × (sort (sort_callback doubles s) (suc fuel) h t ≡ some t')
          × Perm t'.slist t.slist
          × IsSorted (λ p q. InOrder s w (row h p) (row h q)) t'.slist
    unfolding sort
    sort-InOrder fuel h t enough =
        let Le : ℕ → ℕ → Type 0 = λ p q. InOrder s w (row h p) (row h q) in
        let (l, e, perm, sorted) =
          list_sort-IsSorted (λ p q. sort_callback doubles s (row h p) (row h q)) Le
            (λ a b c. InOrder_trans s w (row h a) (row h b) (row h c))
            (λ a b. first (row h a) (row h b)) (λ a b. second (row h a) (row h b)) fuel t.slist
            enough in
        (record t { slist = l }, rw (e, sort) refl, perm, sorted)
