-- ===== src/HashTable/Walk.antt =====
-- src/hash_table.c: reading all rows by `hash_table_first` and `hash_table_next`.
use mathlib.Core.List.{append_assoc}
use libnf.Base.{
  ℕ, zero, suc, ◌≤◌, ◌≡◌, refl, sym, ap, ◌∙◌, List, [], ◌∷◌, ◌++◌, Option, false, none, some, arith,
  ◌==◌, length,
}
use libnf.HashTable.{HashTable, first, next_in, next}
use libnf.HashTable.Totals.{occurrences}

-- The rows that a client reads from a cursor on, until there is no next one or the fuel ends.
unfoldable pub walk : ℕ → HashTable → Option ℕ → List ℕ
unfolding next
walk zero t cursor = []
walk (suc fuel) t none = []
walk (suc fuel) t (some p) = p ∷ walk fuel t (next t (some p))

-- No row stands twice.
abbrev pub IsDistinct : List ℕ → Type 0
IsDistinct [] = Unit
IsDistinct (p ∷ l) = (occurrences p l ≡ 0) × IsDistinct l

abbrev head : List ℕ → Option ℕ
head [] = none
head (p ∷ l) = some p

next_in-append :
    (p : ℕ) (front back : List ℕ)
    → occurrences p front ≡ 0
    → next_in (front ++ p ∷ back) p ≡ head back
unfolding next_in
next_in-append p [] [] fresh = ground arith
next_in-append p [] (q ∷ back) fresh = ground arith
next_in-append p (q ∷ front) back fresh = ground (arith, next_in-append p front back (ground arith))

-- Distinct rows stay so when those at the front are left out, and none of the rest is among them.
fresh-append :
    (p : ℕ) (front back : List ℕ) → IsDistinct (front ++ p ∷ back) → occurrences p front ≡ 0
fresh-append p [] back h = refl
fresh-append p (q ∷ front) back h =
    let rest = fresh-append p front back h.1 in
    let apart = occurrences_apart q p front back h.0 in ground arith
  where
    occurrences_apart :
        (q p : ℕ) (front back : List ℕ) → occurrences q (front ++ p ∷ back) ≡ 0 → (p == q) ≡ false
    occurrences_apart q p [] back e = ground arith
    occurrences_apart q p (r ∷ front) back e = occurrences_apart q p front back (ground arith)

walk-append :
    (fuel : ℕ) (t : HashTable) (front back : List ℕ)
    → t.slist ≡ front ++ back
    → IsDistinct t.slist
    → length back ≤ fuel
    → walk fuel t (head back) ≡ back
unfolding walk next
walk-append zero t front [] e h enough = refl
walk-append (suc fuel) t front [] e h enough = refl
walk-append zero t front (p ∷ back) e h enough = absurd (omega arith)
walk-append (suc fuel) t front (p ∷ back) e h enough =
    let fresh = fresh-append p front back (rw e at h) in
    let after : next_in t.slist p ≡ head back = rw e (next_in-append p front back fresh) in
    let more =
      walk-append fuel t (front ++ p ∷ []) back (e ∙ sym (append_assoc front (p ∷ []) back)) h
        (omega arith) in
    ap (λ l. p ∷ l) (ap (walk fuel t) after ∙ more)

first_lem : (t : HashTable) (l : List ℕ) → t.slist ≡ l → first t ≡ head l
unfolding first
first_lem t [] e = rw (e, first) refl
first_lem t (p ∷ l) e = rw (e, first) refl

pub walk-first_more :
    (fuel : ℕ) (t : HashTable)
    → IsDistinct t.slist
    → length t.slist ≤ fuel
    → walk fuel t (first t) ≡ t.slist
walk-first_more fuel t h enough =
    ap (walk fuel t) (first_lem t t.slist refl) ∙ walk-append fuel t [] t.slist refl h enough

-- Reading from the first row on, by the next row each time, gives the rows of the list in its order,
-- each once, within as many steps as there are rows; no row may stand twice in the list.
pub walk-first : (t : HashTable) → IsDistinct t.slist → walk (length t.slist) t (first t) ≡ t.slist
walk-first t h = walk-first_more (length t.slist) t h (omega arith)
