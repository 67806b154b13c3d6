-- ===== src/ListSort.antt =====
-- src/list_sort.c: the bottom-up merge sort of the linked rows of a hash table.
-- A pointer into the list is the suffix that starts at it: each node's `snext` is read before the
-- node is appended to the output, so no suffix still to be read has been changed.
pub mod Merge
pub mod Passes
pub mod Sorted
use libnf.Base.{
  ℕ, zero, suc, ◌+◌, ◌*◌, ◌≤◌, ◌≡◌, Bool, true, false, List, [], ◌∷◌, ◌++◌, Option, none, some,
  length, if◌then◌else◌, leb,
}

module _ {ℓ} {A : Type ℓ} (callback : A → A → Bool) where
  -- The `for` that steps `insize` places along from `p`: the steps made, and `q`.
  unfoldable pub step_along : ℕ → List A → ℕ × List A
  step_along zero q = (0, q)
  step_along (suc i) [] = (0, [])
  step_along (suc i) (x ∷ []) = (1, [])
  step_along (suc i) (x ∷ y ∷ q) = let (n, r) = step_along i (y ∷ q) in (suc n, r)

  -- The inner `while`: merges `psize` nodes from `p` and at most `qsize` from `q`. It returns what
  -- is appended to the output, and `q`.
  unfoldable pub merge_runs : ℕ → List A → ℕ → List A → List A × List A
  merge_runs zero p zero q = ([], q)
  merge_runs zero p (suc m) [] = ([], [])
  merge_runs zero p (suc m) (y ∷ q) = let (out, r) = merge_runs zero p m q in (y ∷ out, r)
  merge_runs (suc n) [] m q = ([], q)
  merge_runs (suc n) (x ∷ p) zero q = let (out, r) = merge_runs n p zero q in (x ∷ out, r)
  merge_runs (suc n) (x ∷ p) (suc m) [] = let (out, r) = merge_runs n p (suc m) [] in (x ∷ out, r)
  merge_runs (suc n) (x ∷ p) (suc m) (y ∷ q) = elim (callback x y) [
    | true ↦ let (out, r) = merge_runs n p (suc m) (y ∷ q) in (x ∷ out, r)
    | false ↦ let (out, r) = merge_runs (suc n) (x ∷ p) m q in (y ∷ out, r)
  ]

  -- The middle `while`, one merge a round: the merges done, and the new list. Each round takes at
  -- least one node, so the length of the list is fuel enough.
  unfoldable pub merge_pass : ℕ → ℕ → List A → ℕ × List A
  merge_pass zero insize p = (0, [])
  merge_pass (suc fuel) insize [] = (0, [])
  merge_pass (suc fuel) insize (x ∷ p) =
      let (psize, q) = step_along insize (x ∷ p) in
      let (out, rest) = merge_runs psize (x ∷ p) insize q in
      let (nmerges, list) = merge_pass fuel insize rest in (suc nmerges, out ++ list)

  -- The outer `while`: passes with `insize` doubled, until one of them makes a single merge.
  unfoldable pub sort_passes : ℕ → ℕ → List A → Option (List A)
  sort_passes zero insize list = none
  sort_passes (suc fuel) insize list =
      let (nmerges, merged) = merge_pass (length list) insize list in
      let again = sort_passes fuel (insize * 2) merged in
      if leb nmerges 1 then some merged else again

  unfoldable pub list_sort : ℕ → List A → Option (List A)
  list_sort fuel [] = some []
  list_sort fuel (x ∷ list) = sort_passes fuel 1 (x ∷ list)
