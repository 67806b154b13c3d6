-- ===== src/ListSort/Merge.antt =====
-- src/list_sort.c, the two inner loops: what one round of a pass does to the list.
use libnf.Base.{
  ℕ, zero, suc, ◌+◌, ◌≤◌, ◌≡◌, refl, inl, inr, Bool, true, false, List, [], ◌∷◌, ◌++◌, arith,
  length, take, drop, take-nil, drop-nil, Bool-cases, All, All-mono,
}
use mathlib.Core.List.{Perm, perm_middle, append-nil}
use mathlib.Core.List.Perm
use libnf.ListSort.{step_along, merge_runs}

-- Earlier items are related to all later ones.
abbrev pub IsSorted {ℓ κ} : {A : Type ℓ} → (A → A → Type κ) → List A → Type κ
IsSorted Le [] = Unit
IsSorted Le (x ∷ xs) = All (Le x) xs × IsSorted Le xs

module _ {ℓ} {A : Type ℓ} (callback : A → A → Bool) where
  pub merge_two : List A → List A → List A
  merge_two [] q = q
  merge_two (x ∷ p) [] = x ∷ p
  merge_two (x ∷ p) (y ∷ q) = elim (callback x y) [
    | true ↦ x ∷ merge_two p (y ∷ q)
    | false ↦ y ∷ merge_two (x ∷ p) q
  ]

  merge_first :
      (x : A) (xs : List A) (y : A) (ys : List A)
      → callback x y ≡ true
      → merge_two (x ∷ xs) (y ∷ ys) ≡ x ∷ merge_two xs (y ∷ ys)
  unfolding merge_two
  merge_first x xs y ys e = rw (e, merge_two)

  merge_second :
      (x : A) (xs : List A) (y : A) (ys : List A)
      → callback x y ≡ false
      → merge_two (x ∷ xs) (y ∷ ys) ≡ y ∷ merge_two (x ∷ xs) ys
  unfolding merge_two
  merge_second x xs y ys e = rw (e, merge_two)

  merge_two-nil : (xs : List A) → merge_two xs [] ≡ xs
  unfolding merge_two
  merge_two-nil [] = refl
  merge_two-nil (x ∷ xs) = refl

  pub step_along_lem :
      (n : ℕ) (l : List A) → step_along callback n l ≡ (length (take n l), drop n l)
  unfolding step_along
  step_along_lem zero l = refl
  step_along_lem (suc i) [] = refl
  step_along_lem (suc i) (x ∷ []) = rw (take-nil, drop-nil)
  step_along_lem (suc i) (x ∷ y ∷ q) = rw (step_along_lem i (y ∷ q))

  pub merge_runs_lem :
      (n : ℕ) (p : List A) (m : ℕ) (q : List A)
      → n ≤ length p
      → merge_runs callback n p m q ≡ (merge_two (take n p) (take m q), drop m q)
  unfolding merge_runs merge_two
  merge_runs_lem zero p zero q h = unfold merge_two in refl
  merge_runs_lem zero p (suc m) [] h = unfold merge_two in refl
  merge_runs_lem zero p (suc m) (y ∷ q) h =
      rw (merge_runs_lem zero p m q h) (unfold merge_two in refl)
  merge_runs_lem (suc n) [] m q h = absurd (omega arith)
  merge_runs_lem (suc n) (x ∷ p) zero q h =
      rw (merge_runs_lem n p zero q (omega arith)) (rw merge_two-nil)
  merge_runs_lem (suc n) (x ∷ p) (suc m) [] h =
      rw (merge_runs_lem n p (suc m) [] (omega arith)) (rw merge_two-nil)
  merge_runs_lem (suc n) (x ∷ p) (suc m) (y ∷ q) h = elim (Bool-cases (callback x y)) [
    | inl e ↦
        rw (merge_first x (take n p) y (take m q) e, e, merge_runs)
          (rw (merge_runs_lem n p (suc m) (y ∷ q) (omega arith)))
    | inr e ↦
        rw (merge_second x (take n p) y (take m q) e, e, merge_runs)
          (rw (merge_runs_lem (suc n) (x ∷ p) m q h))
  ]

  pub merge_two-perm : (xs ys : List A) → Perm (merge_two xs ys) (xs ++ ys)
  unfolding merge_two
  merge_two-perm [] ys = Perm.rfl
  merge_two-perm (x ∷ xs) [] = rw (append-nil xs) Perm.rfl
  merge_two-perm (x ∷ xs) (y ∷ ys) = elim (Bool-cases (callback x y)) [
    | inl e ↦ rw (merge_first x xs y ys e) (Perm.cons x (merge_two-perm xs (y ∷ ys)))
    | inr e ↦ rw (merge_second x xs y ys e) (
        Perm.trans (Perm.cons y (merge_two-perm (x ∷ xs) ys)) (Perm.symm (perm_middle (x ∷ xs) ys)))
  ]

  pub length-merge_two : (p q : List A) → length p + length q ≡ length (merge_two p q)
  unfolding merge_two
  length-merge_two p [] = ground (arith, merge_two-nil p)
  length-merge_two [] (y ∷ q) = omega arith
  length-merge_two (x ∷ p) (y ∷ q) =
      let left = length-merge_two p (y ∷ q) in
      let right = length-merge_two (x ∷ p) q in ground (arith, left, right)

  pub merge-All {κ} :
      (P : A → Type κ) (xs ys : List A) → All P xs → All P ys → All P (merge_two xs ys)
  unfolding merge_two
  merge-All P [] ys h k = k
  merge-All P (x ∷ xs) [] h k = h
  merge-All P (x ∷ xs) (y ∷ ys) h k = elim (Bool-cases (callback x y)) [
    | inl e ↦ rw (merge_first x xs y ys e) (h.0, merge-All P xs (y ∷ ys) h.1 k)
    | inr e ↦ rw (merge_second x xs y ys e) (k.0, merge-All P (x ∷ xs) ys h k.1)
  ]

  module _ {κ} (Le : A → A → Type κ) (trans : (a b c : A) → Le a b → Le b c → Le a c)
      (first : (a b : A) → callback a b ≡ true → Le a b)
      (second : (a b : A) → callback a b ≡ false → Le b a) where
    pub merge_two-IsSorted :
        (xs ys : List A) → IsSorted Le xs → IsSorted Le ys → IsSorted Le (merge_two xs ys)
    unfolding merge_two
    merge_two-IsSorted [] ys h k = k
    merge_two-IsSorted (x ∷ xs) [] h k = h
    merge_two-IsSorted (x ∷ xs) (y ∷ ys) h k = elim (Bool-cases (callback x y)) [
      | inl e ↦
          let le : Le x y = first x y e in
          let below : All (Le x) ys = All-mono (Le y) (Le x) ys (λ c. trans x y c le) k.0 in
          rw (merge_first x xs y ys e)
            (merge-All (Le x) xs (y ∷ ys) h.0 (le, below), merge_two-IsSorted xs (y ∷ ys) h.1 k)
      | inr e ↦
          let le : Le y x = second x y e in
          let below : All (Le y) xs = All-mono (Le x) (Le y) xs (λ c. trans y x c le) h.0 in
          rw (merge_second x xs y ys e)
            (merge-All (Le y) (x ∷ xs) ys (le, below) k.0, merge_two-IsSorted (x ∷ xs) ys h k.1)
    ]
