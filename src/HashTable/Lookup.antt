-- ===== src/HashTable/Lookup.antt =====
-- src/hash_table.c: the table as a map from keys to values.
use libnf.Base.{
  ℕ, zero, suc, ◌<◌, ◌≡◌, refl, sym, List, [], ◌∷◌, ◌++◌, Option, some, arith, ◌==◌, if◌then◌else◌,
  length, get_or, set, All,
}
use mathlib.Core.Option
use libnf.Base.Bytes.{bytes, same_bytes_iff}
use libnf.HashTable.{Heap, row, HashTable, find_row, bucket_of, lookup}

module _ {ℓ} {A : Type ℓ} where
  pub get_or-append_left :
      (xs ys : List A) (i : ℕ) (d : A) → i < length xs → get_or (xs ++ ys) i d ≡ get_or xs i d
  get_or-append_left [] ys i d h = absurd (omega arith)
  get_or-append_left (x ∷ xs) ys zero d h = refl
  get_or-append_left (x ∷ xs) ys (suc i) d h = get_or-append_left xs ys i d (omega arith)

  pub get_or-append_length : (xs : List A) (y : A) (d : A) → get_or (xs ++ y ∷ []) (length xs) d ≡ y
  get_or-append_length [] y d = refl
  get_or-append_length (x ∷ xs) y d = get_or-append_length xs y d

  -- A write is read back at its index, and nowhere else.
  pub get_or-set :
      (xs : List A) (i j : ℕ) (v d : A)
      → i < length xs
      → get_or (set xs i v) j d ≡ (if i == j then v else get_or xs j d)
  get_or-set [] i j v d h = absurd (omega arith)
  get_or-set (x ∷ xs) zero zero v d h = refl
  get_or-set (x ∷ xs) zero (suc j) v d h = ground arith
  get_or-set (x ∷ xs) (suc i) zero v d h = ground arith
  get_or-set (x ∷ xs) (suc i) (suc j) v d h = ground (arith, get_or-set xs i j v d)

  pub All-get_or {κ} :
      (P : A → Type κ) (xs : List A) (i : ℕ) (d : A) → P d → All P xs → P (get_or xs i d)
  All-get_or P [] i d h k = h
  All-get_or P (x ∷ xs) zero d h k = k.0
  All-get_or P (x ∷ xs) (suc i) d h k = All-get_or P xs i d h k.1

  pub All-set {κ} :
      (P : A → Type κ) (xs : List A) (i : ℕ) (v : A) → P v → All P xs → All P (set xs i v)
  All-set P [] i v h k = k
  All-set P (x ∷ xs) zero v h k = (h, k.1)
  All-set P (x ∷ xs) (suc i) v h k = (k.0, All-set P xs i v h k.1)

-- The addresses of a list of rows lie in the heap.
abbrev pub InHeap : Heap → List ℕ → Type 0
InHeap h = All (λ p. p < length h)

-- All chains lie in the heap, and there is a bucket to use.
pub record IsTable (h : Heap) (t : HashTable) : Type 0 where
  pub roomy : 0 < length t.buckets
  pub chained : All (InHeap h) t.buckets

-- A row found in a chain is in the heap, and holds the key that was looked for.
pub find_row-found :
    (h : Heap) (n : ℕ) (key : List ℕ) (chain : List ℕ) (p : ℕ)
    → InHeap h chain
    → find_row h n key chain ≡ some p
    → (p < length h) × (bytes n (row h p).key ≡ bytes n key)
unfolding find_row
find_row-found h n key [] p fits e = cc
find_row-found h n key (q ∷ chain) p fits e =
    ground (arith, find_row-found h n key chain p fits.1, same_bytes_iff n (row h q).key key)

-- The search reads only the keys of the rows of the chain.
pub find_row_congr :
    (h h' : Heap) (n : ℕ) (key key' : List ℕ) (chain : List ℕ)
    → bytes n key ≡ bytes n key'
    → All (λ p. (row h' p).key ≡ (row h p).key) chain
    → find_row h' n key' chain ≡ find_row h n key chain
unfolding find_row
find_row_congr h h' n key key' [] e keep = refl
find_row_congr h h' n key key' (q ∷ chain) e keep =
    grind (arith, find_row_congr h h' n key key' chain e keep.1, same_bytes_iff)

module _ (xxh64 : List ℕ → ℕ) where
  -- The value that the table holds for a key.
  unfoldable pub view : Heap → HashTable → List ℕ → Option (List ℕ)
  view h t key = Option.map (λ p. (row h p).val) (lookup xxh64 h t key)

  unfoldable pub chain_of : HashTable → List ℕ → List ℕ
  chain_of t key = get_or t.buckets (bucket_of xxh64 t key) []

  pub lookup_lem :
      (h : Heap) (t : HashTable) (key : List ℕ)
      → lookup xxh64 h t key ≡ find_row h t.keylen key (chain_of t key)
  unfolding lookup chain_of
  lookup_lem h t key = refl

  pub chain_of-InHeap :
      {h : Heap} {t : HashTable} (key : List ℕ) → IsTable h t → InHeap h (chain_of t key)
  unfolding chain_of
  chain_of-InHeap {h} {t} key v = All-get_or (InHeap h) t.buckets _ [] tt v.chained

  -- Equal keys have one bucket, and one row.
  pub lookup_congr :
      (h : Heap) (t : HashTable) (k q : List ℕ)
      → bytes t.keylen k ≡ bytes t.keylen q
      → lookup xxh64 h t k ≡ lookup xxh64 h t q
  unfolding lookup bucket_of
  lookup_congr h t k q e = rw e (find_row_congr h h t.keylen q k _ (sym e) (keys _))
    where
      keys : (l : List ℕ) → All (λ p. (row h p).key ≡ (row h p).key) l
      keys [] = tt
      keys (p ∷ l) = (refl, keys l)
