-- ===== src/MemHeap/Threads/Sums.antt =====
-- Sums over the threads.
use libnf.Base.{ℕ, zero, suc, ◌+◌, ◌*◌, ◌≤◌, ◌<◌, ◌≡◌, refl, sym, ap, arith}
use libnf.MemHeap.Threads.{upd}
use libnf.MemHeap.Threads.Turns.{upd_self, upd-ne}
use native.Mathlib.Nat.{suc-mul}
use native.Mathlib.Decide.{ℕ_discrete}

pub sum : ℕ → (ℕ → ℕ) → ℕ
sum zero f = 0
sum (suc n) f = f n + sum n f

pub sum-eq : (n : ℕ) (f g : ℕ → ℕ) → ((j : ℕ) → f j ≡ g j) → sum n f ≡ sum n g
unfolding sum
sum-eq zero f g h = refl
sum-eq (suc n) f g h = omega (arith, h n, sum-eq n f g h)

sum-upd_out : (n : ℕ) (f : ℕ → ℕ) (i v : ℕ) → n ≤ i → sum n (upd f i v) ≡ sum n f
unfolding sum
sum-upd_out zero f i v h = refl
sum-upd_out (suc n) f i v h =
    let other = upd-ne f i n v (λ e. omega arith) in
    omega (arith, other, sum-upd_out n f i v (omega arith))

pub sum-upd : (n : ℕ) (f : ℕ → ℕ) (i v : ℕ) → i < n → sum n (upd f i v) + f i ≡ sum n f + v
unfolding sum
sum-upd zero f i v h = absurd (omega arith)
sum-upd (suc n) f i v h = elim (ℕ_discrete i n) [
  | yes e ↦
      let here : upd f i v n ≡ v = rw (sym e) (upd_self f i v) in
      let same : f i ≡ f n = ap f e in omega (arith, here, same, sum-upd_out n f i v (omega arith))
  | no ne ↦
      let other = upd-ne f i n v (λ e. ne (sym e)) in
      omega (arith, other, sum-upd n f i v (omega arith))
]

pub sum-bound : (n c : ℕ) (f : ℕ → ℕ) → ((j : ℕ) → f j ≤ c) → sum n f ≤ n * c
unfolding sum
sum-bound zero c f h = omega arith
sum-bound (suc n) c f h = omega (arith, h n, sum-bound n c f h, suc-mul n c)
