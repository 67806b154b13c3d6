-- ===== src/HashTable/Join.antt =====
-- src/hash_table.c: `hash_table_join`, which writes `snext` of the row that `slast` points to.
use libnf.Base.{ℕ, ◌+◌, ◌≡◌, refl, List, [], ◌∷◌, ◌++◌, some, arith}
use libnf.HashTable.{HashTable, splice_after, join}
use libnf.HashTable.Totals.{occurrences}

splice_after-append :
    (p : ℕ) (front back tail : List ℕ)
    → occurrences p front ≡ 0
    → splice_after p (front ++ p ∷ back) tail ≡ front ++ p ∷ tail
unfolding splice_after
splice_after-append p [] back tail fresh = ground arith
splice_after-append p (q ∷ front) back tail fresh =
    ground (arith, splice_after-append p front back tail (ground arith))

-- When `slast` of the first table points to a row that stands once before `back` in its list, joining
-- keeps the rows up to that one, puts the second list after it, drops `back`, adds up the two
-- counters, takes over `slast` of the second table and leaves that table without rows.
pub join-slist :
    (td ts : HashTable) (p : ℕ) (front back : List ℕ)
    → td.slast ≡ some p
    → td.slist ≡ front ++ p ∷ back
    → occurrences p front ≡ 0
    → let (td', ts') = join td ts in
      (td'.slist ≡ front ++ p ∷ ts.slist)
      × (td'.numentries ≡ td.numentries + ts.numentries)
      × (td'.slast ≡ ts.slast)
      × (ts'.slist ≡ [])
      × (ts'.numentries ≡ 0)
unfolding join
join-slist td ts p front back last rows fresh =
    (rw (last, rows, splice_after-append p front back ts.slist fresh) refl, refl, refl, refl, refl)
