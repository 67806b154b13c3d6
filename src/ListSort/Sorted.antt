-- ===== src/ListSort/Sorted.antt =====
-- src/list_sort.c, the outer loop: the passes end, and leave one sorted run.
use libnf.Base.{
  ℕ, zero, suc, ◌+◌, ◌*◌, ◌^◌, ◌≤◌, ◌<◌, ◌≡◌, refl, ap, ◌∙◌, ◌⊎◌, inl, inr, Bool, true, false, List,
  [], ◌∷◌, ◌++◌, some, arith, length, take, drop, take-append_run, Bool-cases, leb, leb→le,
}
use mathlib.Core.List.{Perm}
use mathlib.Core.List.Perm
use native.Mathlib.Decide.{dec_le}
use native.Mathlib.Nat.{pow-suc}
use libnf.ListSort.{merge_pass, sort_passes, list_sort}
use libnf.ListSort.Passes.{
  take_of_le, round, round_rest, merge_pass-cons, length-round_rest, length-round, merge_pass-perm,
  merge_pass_once, length-merge_pass,
}
use libnf.ListSort.Merge.{IsSorted, merge_two-IsSorted}

module _ {ℓ} {A : Type ℓ} (callback : A → A → Bool) where
  module _ {κ} (Le : A → A → Type κ) (trans : (a b c : A) → Le a b → Le b c → Le a c)
      (first : (a b : A) → callback a b ≡ true → Le a b)
      (second : (a b : A) → callback a b ≡ false → Le b a) where
    -- Each run of `k` items is sorted.
    data Runs (k : ℕ) : List A → Type (ℓ ⊔ κ) where
      end : Runs k []
      run : (l : List A) → IsSorted Le (take k l) → Runs k (drop k l) → Runs k l

    Runs-take : (k : ℕ) {l : List A} → Runs k l → IsSorted Le (take k l)
    Runs-take zero end = tt
    Runs-take (suc k) end = tt
    Runs-take k (run l s r) = s

    Runs-drop : (k : ℕ) {l : List A} → Runs k l → Runs k (drop k l)
    Runs-drop zero end = end
    Runs-drop (suc k) end = end
    Runs-drop k (run l s r) = r

    Runs-append :
        (k : ℕ) (a b : List A)
        → (length a ≡ k) ⊎ ((length a ≤ k) × (b ≡ []))
        → IsSorted Le a
        → Runs k b
        → Runs k (a ++ b)
    Runs-append k a b h s r =
        let (first_run, others) = take-append_run k a b h in
        run (a ++ b) (rw first_run s) (rw others r)

    Runs-one : (l : List A) → Runs 1 l
    Runs-one [] = end
    Runs-one (x ∷ l) = run (x ∷ l) (tt, tt) (Runs-one l)

    merge_pass-nil : (f k : ℕ) (l : List A) → length l ≡ 0 → (merge_pass callback f k l).1 ≡ []
    unfolding merge_pass
    merge_pass-nil zero k l e = refl
    merge_pass-nil (suc f) k [] e = refl
    merge_pass-nil (suc f) k (x ∷ p) e = absurd (omega arith)

    -- A pass doubles the length of the sorted runs.
    merge_pass-Runs :
        (f k : ℕ) (l : List A)
        → 0 < k
        → length l ≤ f
        → Runs k l
        → Runs (k * 2) (merge_pass callback f k l).1
    merge_pass-Runs zero k l pos h r = unfold merge_pass in end
    merge_pass-Runs (suc f) k [] pos h r = unfold merge_pass in end
    merge_pass-Runs (suc f) k (x ∷ p) pos h r =
        let l = x ∷ p in
        let rest = round_rest callback k l in
        let size = length-round_rest callback k l in
        rw (merge_pass-cons callback f k x p) (
          Runs-append (k * 2) (round callback k l) (merge_pass callback f k rest).1
            (elim (dec_le (k + k) (length l)) [
              | yes full ↦ inl (omega (arith, length-round callback k l))
              | no part ↦
                  inr (
                    omega (arith, length-round callback k l),
                    merge_pass-nil f k rest (omega arith),
                  )
            ])
            (unfold round in
              merge_two-IsSorted callback Le trans first second (take k l) (take k (drop k l))
                (Runs-take k r) (Runs-take k (Runs-drop k r)))
            (merge_pass-Runs f k rest pos (omega arith)
              (unfold round_rest in Runs-drop k (Runs-drop k r))))

    single_run :
        (k : ℕ) (l : List A)
        → 0 < k
        → Runs k l
        → length l ≤ k + k
        → IsSorted Le (merge_pass callback (length l) k l).1
    single_run k l pos r h =
        let merged = (merge_pass callback (length l) k l).1 in
        let size : length merged ≤ k * 2 =
          omega (arith, length-merge_pass callback (length l) k l pos (omega arith)) in
        let runs = merge_pass-Runs (length l) k l pos (omega arith) r in
        rw ((take_of_le (k * 2) merged size).0) at (Runs-take (k * 2) runs)

    sort_passes_stop :
        (f k : ℕ) (l : List A)
        → leb (merge_pass callback (length l) k l).0 1 ≡ true
        → sort_passes callback (suc f) k l ≡ some (merge_pass callback (length l) k l).1
    unfolding sort_passes
    sort_passes_stop f k l e = rw e

    sort_passes_again :
        (f k : ℕ) (l : List A)
        → leb (merge_pass callback (length l) k l).0 1 ≡ false
        → sort_passes callback (suc f) k l
          ≡ sort_passes callback f (k * 2) (merge_pass callback (length l) k l).1
    unfolding sort_passes
    sort_passes_again f k l e = rw e

    one_merge :
        (k : ℕ) (l : List A)
        → 0 < k
        → leb (merge_pass callback (length l) k l).0 1 ≡ true
        → length l ≤ k + k
    one_merge k l pos e =
        (merge_pass_once callback (length l) k l pos (omega arith)).0 (leb→le _ _ e)

    more_merges :
        (k : ℕ) (l : List A)
        → 0 < k
        → leb (merge_pass callback (length l) k l).0 1 ≡ false
        → ¬ (length l ≤ k + k)
    more_merges k l pos e h =
        ground (arith, (merge_pass_once callback (length l) k l pos (omega arith)).1 h)

    -- With a last pass that the fuel still reaches, the passes end in one sorted run.
    sort_passes_sorts :
        (f k : ℕ) (l : List A)
        → 0 < k
        → length l ≤ k * 2 ^ suc f
        → Runs k l
        → (s : List A) × (sort_passes callback (suc f) k l ≡ some s) × Perm s l × IsSorted Le s
    sort_passes_sorts zero k l pos h r =
        elim (Bool-cases (leb (merge_pass callback (length l) k l).0 1)) [
          | inl e ↦ (
            (merge_pass callback (length l) k l).1,
            sort_passes_stop 0 k l e,
            merge_pass-perm callback (length l) k l pos (omega arith),
            single_run k l pos r (one_merge k l pos e),
          )
          | inr e ↦ absurd (more_merges k l pos e (omega arith))
        ]
    sort_passes_sorts (suc f) k l pos h r =
        let merged = (merge_pass callback (length l) k l).1 in
        let size = length-merge_pass callback (length l) k l pos (omega arith) in
        elim (Bool-cases (leb (merge_pass callback (length l) k l).0 1)) [
          | inl e ↦ (
            merged,
            sort_passes_stop (suc f) k l e,
            merge_pass-perm callback (length l) k l pos (omega arith),
            single_run k l pos r (one_merge k l pos e),
          )
          | inr e ↦
              let (s, runs, perm, sorted) =
                sort_passes_sorts f (k * 2) merged (omega arith)
                  (omega (arith, pow-suc 2 (suc f), ap (λ t. k * t) (pow-suc 2 (suc f))))
                  (merge_pass-Runs (length l) k l pos (omega arith) r) in
              (
                s,
                sort_passes_again (suc f) k l e ∙ runs,
                Perm.trans perm (merge_pass-perm callback (length l) k l pos (omega arith)),
                sorted,
              )
        ]

    -- `list_sort` ends within `fuel + 1` passes on a list of at most 2 ^ (fuel + 1) nodes. What it returns is
    -- a rearrangement of the list, sorted by any transitive relation that `callback` decides.
    pub list_sort-IsSorted :
        (fuel : ℕ) (list : List A)
        → length list ≤ 2 ^ suc fuel
        → (s : List A) × (list_sort callback (suc fuel) list ≡ some s) × Perm s list × IsSorted Le s
    unfolding list_sort
    list_sort-IsSorted fuel [] h = ([], refl, Perm.rfl, tt)
    list_sort-IsSorted fuel (x ∷ list) h =
        sort_passes_sorts fuel 1 (x ∷ list) (omega arith) (omega arith) (Runs-one (x ∷ list))
