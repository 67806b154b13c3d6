-- ===== src/Base/Every.antt =====
-- A Boolean test of every element of a list with its position, for tables that are checked by a run.
use Prim.Native.Nat.{ℕ, zero, suc, ◌+◌}
use mathlib.Core.Path.{◌≡◌, refl, sym, ap, ◌∙◌}
use mathlib.Core.Bool.{Bool, true, false, not, ◌&&◌, ◌||◌}
use mathlib.Core.List.{List, [], ◌∷◌}
use mathlib.Core.Option.{some, none-ne-some, some-injective}
use native.Mathlib.Omega.{arith}
use libnf.Base.Lists.{get_elem?}

pub and-both : (a b : Bool) → (a && b) ≡ true → (a ≡ true) × (b ≡ true)
and-both true b h = (refl, h)
and-both false b h = cc h

pub or-neither : (a b : Bool) → (a || b) ≡ false → (a ≡ false) × (b ≡ false)
or-neither true b h = cc h
or-neither false b h = (refl, h)

pub not_true : (b : Bool) → not b ≡ true → b ≡ false
not_true true h = cc h
not_true false h = refl

module _ {ℓ} {A : Type ℓ} (test : ℕ → A → Bool) where
  abbrev pub all_from : ℕ → List A → Bool
  all_from i [] = true
  all_from i (a ∷ l) = test i a && all_from (suc i) l

  pub all_from-get_elem? :
      (n m j : ℕ) (l : List A) (a : A)
      → all_from n l ≡ true
      → get_elem? l m ≡ some a
      → j ≡ n + m
      → test j a ≡ true
  all_from-get_elem? n m j [] a h e q = absurd (none-ne-some a e)
  all_from-get_elem? n zero j (x ∷ l) a h e q =
      let same : j ≡ n = omega arith in
      ap (λ i. test i a) same ∙ ap (test n) (sym (some-injective x a e)) ∙ (and-both _ _ h).0
  all_from-get_elem? n (suc m) j (x ∷ l) a h e q =
      all_from-get_elem? (suc n) m j l a (and-both _ _ h).1 e (omega arith)
