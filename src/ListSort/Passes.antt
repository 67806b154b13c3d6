-- ===== src/ListSort/Passes.antt =====
-- src/list_sort.c, the middle loop: what a pass does to the list, and how many merges it makes.
use libnf.Base.{
  ℕ, zero, suc, ◌+◌, ◌-◌, ◌≤◌, ◌<◌, ◌≡◌, refl, ap, ◌∙◌, inr, Bool, List, [], ◌∷◌, ◌++◌, arith,
  length, length-append, take, drop, length-take, length-drop, take-append-drop, take-append_run,
}
use mathlib.Core.List.{Perm, append-nil, append_assoc}
use mathlib.Core.List.Perm
use libnf.ListSort.{merge_pass}
use libnf.ListSort.Merge.{
  merge_two, step_along_lem, merge_runs_lem, merge_two-perm, length-merge_two,
}

module _ {ℓ} {A : Type ℓ} where
  pub take_of_le : (n : ℕ) (l : List A) → length l ≤ n → (take n l ≡ l) × (drop n l ≡ [])
  take_of_le n l h = rw append-nil at (take-append_run n l [] (inr (h, refl)))

  take-length-take : (n : ℕ) (l : List A) → take (length (take n l)) l ≡ take n l
  take-length-take zero l = refl
  take-length-take (suc n) [] = refl
  take-length-take (suc n) (x ∷ l) = ap (λ r. x ∷ r) (take-length-take n l)

module _ {ℓ} {A : Type ℓ} (callback : A → A → Bool) where
  unfoldable pub round : ℕ → List A → List A
  round k l = merge_two callback (take k l) (take k (drop k l))

  unfoldable pub round_rest : ℕ → List A → List A
  round_rest k l = drop k (drop k l)

  pub merge_pass-cons :
      (f k : ℕ) (x : A) (p : List A)
      → merge_pass callback (suc f) k (x ∷ p) ≡ (
        suc (merge_pass callback f k (round_rest k (x ∷ p))).0,
        round k (x ∷ p) ++ (merge_pass callback f k (round_rest k (x ∷ p))).1,
      )
  unfolding merge_pass round round_rest
  merge_pass-cons f k x p = rw (
    step_along_lem callback k (x ∷ p),
    merge_runs_lem callback (length (take k (x ∷ p))) (x ∷ p) k (drop k (x ∷ p))
        (omega (arith, length-take k (x ∷ p))),
    take-length-take k (x ∷ p),
  )

  pub length-round_rest : (k : ℕ) (l : List A) → length (round_rest k l) ≡ length l - (k + k)
  unfolding round_rest
  length-round_rest k l = omega (arith, length-drop k (drop k l), length-drop k l)

  pub length-round : (k : ℕ) (l : List A) → length (round k l) + length (round_rest k l) ≡ length l
  unfolding round round_rest
  length-round k l = omega (
    arith,
    length-merge_two callback (take k l) (take k (drop k l)),
    length-take k l,
    length-take k (drop k l),
    length-drop k l,
    length-drop k (drop k l),
  )

  round-perm : (k : ℕ) (l : List A) → Perm (round k l ++ round_rest k l) l
  unfolding round round_rest
  round-perm k l =
      let halves = merge_two-perm callback (take k l) (take k (drop k l)) in
      let whole : (take k l ++ take k (drop k l)) ++ drop k (drop k l) ≡ l =
        append_assoc (take k l) (take k (drop k l)) (drop k (drop k l))
        ∙ ap (λ r. take k l ++ r) (take-append-drop k (drop k l))
        ∙ take-append-drop k l in
      rw whole at (Perm.append halves (Perm.refl (drop k (drop k l))))

  pub merge_pass-perm :
      (f k : ℕ) (l : List A) → 0 < k → length l ≤ f → Perm (merge_pass callback f k l).1 l
  merge_pass-perm zero k [] pos h = unfold merge_pass in Perm.rfl
  merge_pass-perm zero k (x ∷ l) pos h = absurd (omega arith)
  merge_pass-perm (suc f) k [] pos h = unfold merge_pass in Perm.rfl
  merge_pass-perm (suc f) k (x ∷ p) pos h = rw (merge_pass-cons f k x p) (
      Perm.trans
        (Perm.append (Perm.refl (round k (x ∷ p))) (
          merge_pass-perm f k (round_rest k (x ∷ p)) pos
            (omega (arith, length-round_rest k (x ∷ p)))))
        (round-perm k (x ∷ p)))

  merge_pass_none :
      (f k : ℕ) (l : List A)
      → length l ≤ f
      → ((merge_pass callback f k l).0 ≡ 0 → length l ≡ 0)
        × (length l ≡ 0 → (merge_pass callback f k l).0 ≡ 0)
  merge_pass_none zero k l h = unfold merge_pass in (λ _. omega arith, λ _. omega arith)
  merge_pass_none (suc f) k [] h = unfold merge_pass in (λ _. omega arith, λ _. omega arith)
  merge_pass_none (suc f) k (x ∷ p) h =
      rw (merge_pass-cons f k x p) (λ e. absurd (omega arith), λ e. absurd (omega arith))

  -- A list that two runs make up takes one merge_two; a longer list takes more.
  pub merge_pass_once :
      (f k : ℕ) (l : List A)
      → 0 < k
      → length l ≤ f
      → ((merge_pass callback f k l).0 ≤ 1 → length l ≤ k + k)
        × (length l ≤ k + k → (merge_pass callback f k l).0 ≤ 1)
  merge_pass_once zero k l pos h = unfold merge_pass in (λ _. omega arith, λ _. omega arith)
  merge_pass_once (suc f) k [] pos h = unfold merge_pass in (λ _. omega arith, λ _. omega arith)
  merge_pass_once (suc f) k (x ∷ p) pos h =
      let n = length-round_rest k (x ∷ p) in
      let (only, none_left) = merge_pass_none f k (round_rest k (x ∷ p)) (omega arith) in
      rw (merge_pass-cons f k x p)
        (λ e. omega (arith, only (omega arith)), λ e. omega (arith, none_left (omega arith)))

  pub length-merge_pass :
      (f k : ℕ) (l : List A)
      → 0 < k
      → length l ≤ f
      → length (merge_pass callback f k l).1 ≡ length l
  length-merge_pass zero k l pos h = unfold merge_pass in omega arith
  length-merge_pass (suc f) k [] pos h = unfold merge_pass in refl
  length-merge_pass (suc f) k (x ∷ p) pos h =
      let rest = round_rest k (x ∷ p) in
      rw (merge_pass-cons f k x p) (
        omega (
          arith,
          length-append (round k (x ∷ p)) (merge_pass callback f k rest).1,
          length-merge_pass f k rest pos (omega (arith, length-round_rest k (x ∷ p))),
          length-round k (x ∷ p),
        ))
