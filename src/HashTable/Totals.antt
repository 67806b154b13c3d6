-- ===== src/HashTable/Totals.antt =====
-- src/hash_table.c: the list of a table against its chains. Every row that a chain reaches stands
-- once in the list, so what is summed over the list counts each stored value once.
use libnf.Base.{
  ℕ, ◌+◌, ◌*◌, ◌%◌, ◌^◌, ◌≤◌, ◌<◌, ◌≡◌, refl, sym, ◌∙◌, inl, inr, true, List, [], ◌∷◌, ◌++◌, some,
  arith, ◌==◌, if◌then◌else◌, length, All, Bool-cases, Option-cases, length-append,
}
use mathlib.Core.Path.{subst}
use libnf.Base.Bytes.{bytes, same_bytes}
use libnf.HashTable.{
  Row, Heap, no_row, row, HashTable, find_row, link_row, count_entry, lookup, aggregate, new_row,
  add_row, insert_hash,
}
use libnf.HashTable.Lookup.{
  get_or-append_left, get_or-append_length, get_or-set, All-get_or, All-set, InHeap, IsTable,
  chain_of, lookup_lem,
}
use libnf.HashTable.Insert.{lookup-found, length-aggregate}
use libnf.HashTable.Map.{InHeap-mono}

abbrev pub occurrences : ℕ → List ℕ → ℕ
occurrences p [] = 0
occurrences p (q ∷ l) = (if q == p then 1 else 0) + occurrences p l

-- How the list and the counter of a table stand to its chains.
pub record IsLinked (h : Heap) (t : HashTable) : Type 0 where
  pub listed : InHeap h t.slist
  pub once : All (All (λ p. occurrences p t.slist ≡ 1)) t.buckets
  pub counted : t.numentries ≡ length t.slist

-- A measure of values, summed over the rows of a list.
abbrev pub total : (List ℕ → ℕ) → Heap → List ℕ → ℕ
total m h [] = 0
total m h (p ∷ l) = m (row h p).val + total m h l

occurrences_fresh :
    (h : Heap) (l : List ℕ) (p : ℕ) → InHeap h l → length h ≤ p → occurrences p l ≡ 0
occurrences_fresh h [] p fits le = refl
occurrences_fresh h (q ∷ l) p fits le = ground (arith, occurrences_fresh h l p fits.1 le)

total-append :
    (m : List ℕ → ℕ) (h : Heap) (r : Row) (l : List ℕ)
    → InHeap h l
    → total m (h ++ r ∷ []) l ≡ total m h l
total-append m h r [] fits = refl
total-append m h r (p ∷ l) fits =
    rw (get_or-append_left h (r ∷ []) p no_row fits.0, total-append m h r l fits.1)

find_row-All :
    (P : ℕ → Type 0) (h : Heap) (n : ℕ) (key : List ℕ) (chain : List ℕ) (p : ℕ)
    → All P chain
    → find_row h n key chain ≡ some p
    → P p
unfolding find_row
find_row-All P h n key [] p all e = cc
find_row-All P h n key (q ∷ chain) p all e = elim (Bool-cases (same_bytes n (row h q).key key)) [
  | inl same ↦ let here : q ≡ p = ground arith in subst P here all.0
  | inr other ↦ find_row-All P h n key chain p all.1 (ground arith)
]

module _ (aggr : List ℕ → List ℕ → List ℕ → List ℕ) (m : List ℕ → ℕ) where
  total-aggregate :
      (h : Heap) (p : ℕ) (key val : List ℕ) (l : List ℕ)
      → p < length h
      → total m (aggregate aggr h p key val) l + m (row h p).val * occurrences p l
        ≡ total m h l + m (aggr key (row h p).val val) * occurrences p l
  unfolding aggregate
  total-aggregate h p key val [] fits = omega arith
  total-aggregate h p key val (q ∷ l) fits =
      let r : Row = record (row h p) { val = aggr key (row h p).val val } in
      ground (arith, get_or-set h p q r no_row, total-aggregate h p key val l fits)

module _ (xxh64 : List ℕ → ℕ) (aggr : List ℕ → List ℕ → List ℕ → List ℕ) (m : List ℕ → ℕ) where
  -- What an insertion with memory left does to the list and to a sum over it.
  pub record Adds (h : Heap) (t : HashTable) (val : List ℕ) (h' : Heap) (t' : HashTable)
      : Type 0 where
    pub linked : IsLinked h' t'
    pub sum : total m h' t'.slist % 2 ^ 64 ≡ (total m h t.slist + m val) % 2 ^ 64
    pub vallen : t'.vallen ≡ t.vallen

  lookup-once :
      {h : Heap} {t : HashTable} (key : List ℕ) (p : ℕ)
      → IsLinked h t
      → lookup xxh64 h t key ≡ some p
      → occurrences p t.slist ≡ 1
  unfolding chain_of
  lookup-once {h} {t} key p k e =
      find_row-All (λ x. occurrences x t.slist ≡ 1) h t.keylen key (chain_of xxh64 t key) p
        (All-get_or (All (λ x. occurrences x t.slist ≡ 1)) t.buckets _ [] tt k.once)
        (sym (lookup_lem xxh64 h t key) ∙ e)

  once_linked :
      (h : Heap) (l : List ℕ) (chain : List ℕ)
      → InHeap h chain
      → All (λ p. occurrences p l ≡ 1) chain
      → All (λ p. occurrences p (length h ∷ l) ≡ 1) chain
  once_linked h l [] fits once = tt
  once_linked h l (p ∷ chain) fits once =
      (let f = fits.0 in let o = once.0 in ground arith, once_linked h l chain fits.1 once.1)

  once-All :
      (h : Heap) (l : List ℕ) (b : List (List ℕ))
      → All (InHeap h) b
      → All (All (λ p. occurrences p l ≡ 1)) b
      → All (All (λ p. occurrences p (length h ∷ l) ≡ 1)) b
  once-All h l [] fits once = tt
  once-All h l (c ∷ b) fits once = (once_linked h l c fits.0 once.0, once-All h l b fits.1 once.1)

  module _
      (additive : (key old val : List ℕ)
        → m (aggr key old val) % 2 ^ 64 ≡ (m old + m val) % 2 ^ 64) where
    aggregate-Adds :
        (h : Heap) (t : HashTable) (p : ℕ) (key val : List ℕ)
        → IsTable h t
        → IsLinked h t
        → lookup xxh64 h t key ≡ some p
        → Adds h t val (aggregate aggr h p key val) t
    aggregate-Adds h t p key val v k e =
        let (fits, _) = lookup-found xxh64 aggr key p v e in
        let one = lookup-once key p k e in
        record {
          linked = record {
            listed =
                InHeap-mono h _ t.slist (omega (arith, length-aggregate xxh64 aggr h p key val))
                  k.listed;
            once = k.once;
            counted = k.counted;
          };
          sum = omega (
            arith,
            rw one at (total-aggregate aggr m h p key val t.slist fits),
            additive key (row h p).val val,
          );
          vallen = refl;
        }

    module _ (w : ℕ) (reads : (val : List ℕ) → m (bytes w val) ≡ m val) where
      add_row-Adds :
          (h : Heap) (t : HashTable) (key val : List ℕ)
          → t.vallen ≡ w
          → IsTable h t
          → IsLinked h t
          → Adds h t val (add_row xxh64 h t key val).0 (add_row xxh64 h t key val).1
      unfolding add_row link_row count_entry
      add_row-Adds h t key val width v k =
          let r = new_row xxh64 t key val in
          let grown = length-append h (r ∷ []) in
          record {
            linked = record {
              listed = (omega arith, InHeap-mono h (h ++ r ∷ []) t.slist (omega arith) k.listed);
              once =
                  let P = λ (x : ℕ). occurrences x (length h ∷ t.slist) ≡ 1 in
                  let old = once-All h t.slist t.buckets v.chained k.once in
                  let fresh = occurrences_fresh h t.slist (length h) k.listed (omega arith) in
                  All-set (All P) t.buckets _ _
                    (ground arith, All-get_or (All P) t.buckets _ [] tt old) old;
              counted = omega (arith, k.counted);
            };
            sum =
                rw (get_or-append_length, total-append m h r t.slist k.listed)
                  (rw width (omega (arith, reads val)));
            vallen = refl;
          }

      pub insert_hash-Adds :
          (h : Heap) (t : HashTable) (key val : List ℕ)
          → t.vallen ≡ w
          → IsTable h t
          → IsLinked h t
          → let (r, h', t') = insert_hash xxh64 aggr true h t key val in Adds h t val h' t'
      unfolding insert_hash
      insert_hash-Adds h t key val width v k = elim (Option-cases (lookup xxh64 h t key)) [
        | inl e ↦ rw (e, insert_hash) (add_row-Adds h t key val width v k)
        | inr (p, e) ↦ rw (e, insert_hash) (aggregate-Adds h t p key val v k e)
      ]
