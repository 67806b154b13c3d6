-- ===== src/MemHeap/Store/Cursor/Calculated.antt =====
-- src/memheap.c: the rows in the heap after the calculated fields were computed.
use libnf.Base.{
  ℕ, ◌<◌, ◌≡◌, ◌≢◌, refl, ◌∙◌, inl, inr, Bool, true, false, List, [], ◌∷◌, Option, set, length,
  length-set, ◌==◌, All, All-mono, Bool-cases, ==_iff, ==→ne, arith,
}
use mathlib.Core.Path.{subst}
use libnf.HashTable.{Heap, HashTable, Row, row}
use libnf.MemHeap.Aggr.{Doubles}
use libnf.MemHeap.Setup.{Mem, Fields}
use libnf.MemHeap.Fill.{fill_buf, fill_rec}
use libnf.MemHeap.Store.Cursor.{calc_row, first_dep, sort_heap, upd_calc_fields}
use libnf.HashTable.Lookup.{get_or-set}
use libnf.HashTable.Totals.{occurrences}
use libnf.HashTable.Walk.{IsDistinct}

row-set_ne :
    (h : Heap) (p q : ℕ) (x : Row) → p < length h → (p == q) ≡ false → row (set h p x) q ≡ row h q
row-set_ne h p q x inside ne = get_or-set h p q x _ inside ∙ rw ne refl

row-set_self : (h : Heap) (p : ℕ) (x : Row) → p < length h → row (set h p x) p ≡ x
row-set_self h p x inside =
    let same : (p == p) ≡ true = ground arith in get_or-set h p p x _ inside ∙ rw same refl

module _ (is_v4compat : List ℕ → Bool) {R : Type 0} (fld_pair : ℕ → ℕ → ℕ)
    (fget : R → ℕ → Option (List ℕ)) (fset : R → ℕ → List ℕ → R) (mem : Mem) where
  -- A row as it is behind the computation: its key is kept, and its value is what the getters give of
  -- a record into which all fields of the value and of the key were put.
  abbrev pub Calculated : Row → Row → Type 0
  Calculated old new =
      (rec : R) × (new ≡ record old {
        val =
            fill_buf is_v4compat fld_pair
              (fget (fill_rec fset mem.key_list old.key (fill_rec fset mem.val_list old.val rec))) 0
              mem.val_list old.val;
      })

  abbrev pub AllCalculated : Heap → Heap → List ℕ → Type 0
  AllCalculated h h' l = All (λ p. Calculated (row h p) (row h' p)) l

  AllCalculated-set :
      (h h' : Heap) (p : ℕ) (x : Row) (l : List ℕ)
      → p < length h
      → occurrences p l ≡ 0
      → AllCalculated (set h p x) h' l
      → AllCalculated h h' l
  AllCalculated-set h h' p x [] inside out all = tt
  AllCalculated-set h h' p x (q ∷ l) inside out all =
      let ne : (p == q) ≡ false = ground arith in
      let more : occurrences p l ≡ 0 = ground arith in
      (
        subst (λ r. Calculated r (row h' q)) (row-set_ne h p q x inside ne) all.0,
        AllCalculated-set h h' p x l inside more all.1,
      )

module _ (doubles : Doubles) (fields : Fields) (xxh64 : List ℕ → ℕ) (is_v4compat : List ℕ → Bool)
    {R : Type 0} (fld_pair : ℕ → ℕ → ℕ) (fget : R → ℕ → Option (List ℕ)) (fset : R → ℕ → List ℕ → R)
    (rec_clear : R → R) (mem : Mem) where
  -- The rows of the list are calculated, all other rows are kept.
  abbrev pub Effect : Heap → Heap → List ℕ → Type 0
  Effect h h' l =
      AllCalculated is_v4compat fld_pair fget fset mem h h' l
      × ((q : ℕ) → occurrences q l ≡ 0 → row h' q ≡ row h q)

  pub upd_calc_fields-Calculated :
      (l : List ℕ) (rec : R) (h : Heap)
      → IsDistinct l
      → All (λ p. p < length h) l
      → Effect h
          (upd_calc_fields doubles fields xxh64 is_v4compat fld_pair fget fset rec_clear mem l
            (rec, h)).1
          l
  unfolding upd_calc_fields
  upd_calc_fields-Calculated [] rec h distinct inside = (tt, λ q out. refl)
  upd_calc_fields-Calculated (p ∷ l) rec h distinct inside =
      let state =
        calc_row doubles fields xxh64 is_v4compat fld_pair fget fset rec_clear mem p (rec, h) in
      let filled =
        fill_rec fset mem.key_list (row h p).key (fill_rec fset mem.val_list (row h p).val rec) in
      let new : Row = record (row h p) {
        val = fill_buf is_v4compat fld_pair (fget filled) 0 mem.val_list (row h p).val;
      } in
      let h1 = set h p new in
      let long = length-set h p new in
      let still =
        All-mono (λ q. q < length h) (λ q. q < length h1) l (λ q lt. omega (arith, long))
          inside.1 in
      let (all, others) = upd_calc_fields-Calculated l state.0 h1 distinct.1 still in
      let here = others p distinct.0 ∙ row-set_self h p new inside.0 in
      let h' =
        (upd_calc_fields doubles fields xxh64 is_v4compat fld_pair fget fset rec_clear mem l
          state).1 in
      (
        (
          (rec, here),
          AllCalculated-set is_v4compat fld_pair fget fset mem h h' p new l inside.0 distinct.0 all,
        ),
        λ q out.
            let ne : (p == q) ≡ false = ground arith in
            let more : occurrences q l ≡ 0 = ground arith in
            others q more ∙ row-set_ne h p q new inside.0 ne,
      )

  -- Nothing changes when the field to sort by depends on no other one; else the rows are calculated.
  abbrev pub Computed : Heap → Heap → List ℕ → Type 0
  Computed h h' l =
      (first_dep (fields.calc_deps mem.sort_field) ≡ 0 → h' ≡ h)
      × (first_dep (fields.calc_deps mem.sort_field) ≢ 0 → Effect h h' l)

  pub sort_heap-Computed :
      (rec : R) (t : HashTable) (h : Heap)
      → IsDistinct t.slist
      → All (λ p. p < length h) t.slist
      → Computed h
          (sort_heap doubles fields xxh64 is_v4compat fld_pair fget fset rec_clear rec mem t h)
          t.slist
  sort_heap-Computed rec t h distinct inside =
      elim (Bool-cases (first_dep (fields.calc_deps mem.sort_field) == 0)) [
        | inl none_dep ↦ rw none_dep (λ e. refl, λ ne. absurd (ne ((==_iff _ 0).0 none_dep)))
        | inr dep ↦ rw dep (
          λ e. absurd (==→ne _ 0 dep e),
          λ ne. upd_calc_fields-Calculated t.slist rec h distinct inside,
        )
      ]
