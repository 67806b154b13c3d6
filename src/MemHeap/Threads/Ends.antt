-- ===== src/MemHeap/Threads/Ends.antt =====
-- src/memheap.c, `lnf_mem_merge_threads`: every call of it can return.
use libnf.Base.{
  ℕ, zero, suc, ◌+◌, ◌*◌, ◌≤◌, ◌<◌, ◌≡◌, ◌≢◌, refl, sym, ap, ◌∙◌, ◌⊎◌, inl, inr, true, List, [],
  ◌∷◌, none, some, ◌==◌, if◌then◌else◌, arith, Bool-cases, All, length,
}
use libnf.HashTable.{Heap, HashTable}
use libnf.MemHeap.Threads.{
  Merging, combine, ThStatus, is_merge, Pc, idle, waiting, done, stopped, joining, joined, System,
  upd, first_ready, announce, choose, join_tables, release, step, run,
}
use libnf.MemHeap.Threads.Turns.{IsTurn, target, is_open, step-IsTurn, run-IsTurn}
use libnf.MemHeap.Threads.Sums.{sum, sum-eq, sum-upd, sum-bound}
use libnf.MemHeap.Threads.Progress.{IsLive, step-IsLive}
use mathlib.Core.Option.{none-ne-some}
use native.Mathlib.Decide.{ℕ_discrete}

-- the steps a thread has before it at most
abbrev weight : Pc → ℕ
weight idle = 4
weight waiting = 3
weight (joining i) = 2
weight (joined i) = 1
weight done = 0
weight stopped = 0

abbrev rank : ℕ → System → ℕ
rank n s = sum (suc n) (λ j. weight (s.pc j))

first_ready-some :
    (status : ℕ → ThStatus) (count i k : ℕ)
    → i ≤ k
    → k < i + count
    → is_merge (status k) ≡ true
    → (m : ℕ) × (first_ready status count i ≡ some m)
unfolding first_ready
first_ready-some status zero i k a b h = absurd (omega arith)
first_ready-some status (suc count) i k a b h = elim (Bool-cases (is_merge (status i))) [
  | inl e ↦ (i, rw e refl)
  | inr e ↦
      let apart : i ≢ k = λ w. cc (e, h, ap (λ x. is_merge (status x)) w) in
      let (m, r) = first_ready-some status count (suc i) k (omega arith) (omega arith) h in
      (m, rw e r)
]

weight_bound : (p : Pc) → weight p ≤ 4
weight_bound idle = omega arith
weight_bound waiting = omega arith
weight_bound (joining i) = omega arith
weight_bound (joined i) = omega arith
weight_bound done = omega arith
weight_bound stopped = omega arith

is_done : (p : Pc) → (p ≡ done) ⊎ (p ≢ done)
is_done idle = inr (λ q. cc q)
is_done waiting = inr (λ q. cc q)
is_done (joining i) = inr (λ q. cc q)
is_done (joined i) = inr (λ q. cc q)
is_done done = inl refl
is_done stopped = inr (λ q. cc q)

done_or_not :
    (n : ℕ) (pc : ℕ → Pc) → ((j : ℕ) → j < n → pc j ≡ done) ⊎ ((j : ℕ) × (j < n) × (pc j ≢ done))
done_or_not zero pc = inl (λ j h. absurd (omega arith))
done_or_not (suc n) pc = elim (done_or_not n pc) [
  | inr (j, lt, w) ↦ inr (j, omega arith, w)
  | inl rest ↦ elim (is_done (pc n)) [
    | inr w ↦ inr (n, omega arith, w)
    | inl e ↦
        inl (λ j h. elim (ℕ_discrete j n) [ yes q ↦ ap pc q ∙ e | no q ↦ rest j (omega arith) ])
  ]
]

open-cases : (x : ThStatus) → is_open x ≡ true → (x ≡ ThStatus.merge) ⊎ (x ≡ ThStatus.merging)
open-cases ThStatus.merge h = inl refl
open-cases ThStatus.merging h = inr refl
open-cases ThStatus.empty h = cc h
open-cases ThStatus.write h = cc h
open-cases ThStatus.merged h = cc h
open-cases ThStatus.cleared h = cc h

ltb_cases : (n t : ℕ) → (n < t) ⊎ (t ≤ n)
ltb_cases zero zero = inr (omega arith)
ltb_cases zero (suc t) = inl (omega arith)
ltb_cases (suc n) zero = inr (omega arith)
ltb_cases (suc n) (suc t) = elim (ltb_cases n t) [
  | inl h ↦ inl (omega arith)
  | inr h ↦ inr (omega arith)
]

module _ (merging : Merging)
    (total : (h : Heap) (td ts : HashTable) → (combine merging h td ts).0 ≡ true) where
  -- One of the threads 0 to `n` can take a step that brings it nearer to its return.
  abbrev Goes : ℕ → System → Type 0
  Goes n s =
      (t : ℕ) × (p : Pc) × (t ≤ n)
      × ((step merging t s).pc ≡ upd s.pc t p)
      × (weight p < weight (s.pc t))

  idle-Goes : (n t : ℕ) (s : System) → t ≤ n → s.pc t ≡ idle → Goes n s
  unfolding step announce
  idle-Goes n t s le e = (t, (if t == 0 then done else waiting), le, rw e refl, rw e (ground arith))

  target-Goes : (n t k : ℕ) (s : System) → IsLive n s → target (s.pc t) ≡ some k → Goes n s
  unfolding step join_tables release
  target-Goes n t k s h q = from (s.pc t) refl q
    where
      outside_idle : (n < t) → target (s.pc t) ≡ none
      outside_idle lt = ap target (h.outside t lt)

      inside : t ≤ n
      inside = elim (ltb_cases n t) [
        | inl lt ↦ absurd (none-ne-some k (sym (outside_idle lt) ∙ q))
        | inr le ↦ le
      ]

      from : (p : Pc) → s.pc t ≡ p → target p ≡ some k → Goes n s
      from (joining i) e r =
          let c = total s.heap (s.table i) (s.table t) in
          (t, joined i, inside, rw (e, c) refl, rw e (omega arith))
      from (joined i) e r = (t, done, inside, rw e refl, rw e (omega arith))
      from idle e r = cc r
      from waiting e r = cc r
      from done e r = cc r
      from stopped e r = cc r

  waiting-Goes :
      (n t : ℕ) (s : System)
      → t ≤ n
      → t ≢ 0
      → s.pc t ≡ waiting
      → s.status t ≡ ThStatus.merge
      → s.status 0 ≡ ThStatus.merge
      → Goes n s
  unfolding step choose
  waiting-Goes n t s le w e h z =
      let (m, r) = first_ready-some s.status t 0 0 (omega arith) (omega arith) (rw z refl) in
      (t, joining m, le, rw (e, h, r) refl, rw e (omega arith))

  open-Goes :
      (n k : ℕ) (s : System)
      → IsLive n s
      → is_open (s.status k) ≡ true
      → (s.status k ≡ ThStatus.merge) ⊎ Goes n s
  open-Goes n k s h o = elim (open-cases (s.status k) o) [
    | inl e ↦ inl e
    | inr e ↦ let (j, r) = h.merging_by k e in inr (target-Goes n j k s h r)
  ]

  -- Thread 0 has returned and another one has not.
  rest-Goes : (n j : ℕ) (s : System) → IsLive n s → s.pc 0 ≡ done → j ≤ n → s.pc j ≢ done → Goes n s
  rest-Goes n j s h z le w = from (s.pc j) refl
    where
      apart : j ≢ 0
      apart = λ q. w (ap s.pc q ∙ z)

      from : (p : Pc) → s.pc j ≡ p → Goes n s
      from idle e = idle-Goes n j s le e
      from waiting e = elim (open-Goes n j s h (h.open_waiting j e)) [
        | inr go ↦ go
        | inl own ↦ elim (open-Goes n 0 s h (h.open_zero z)) [
          | inr go ↦ go
          | inl first ↦ waiting-Goes n j s le apart e own first
        ]
      ]
      from (joining i) e = target-Goes n j i s h (ap target e)
      from (joined i) e = target-Goes n j i s h (ap target e)
      from done e = absurd (w e)
      from stopped e = absurd (h.no_failure j e)

  some-Goes : (n j : ℕ) (s : System) → IsLive n s → j ≤ n → s.pc j ≢ done → Goes n s
  some-Goes n j s h le w = from (s.pc 0) refl
    where
      from : (p : Pc) → s.pc 0 ≡ p → Goes n s
      from idle e = idle-Goes n 0 s (omega arith) e
      from waiting e = absurd (h.zero_calls e)
      from (joining i) e = target-Goes n 0 i s h (ap target e)
      from (joined i) e = target-Goes n 0 i s h (ap target e)
      from done e = rest-Goes n j s h e le w
      from stopped e = absurd (h.no_failure 0 e)

  step-rank :
      (n t : ℕ) (p : Pc) (s : System)
      → t ≤ n
      → (step merging t s).pc ≡ upd s.pc t p
      → weight p < weight (s.pc t)
      → rank n (step merging t s) < rank n s
  step-rank n t p s le e lt =
      let pointwise : (j : ℕ)
          → weight ((step merging t s).pc j) ≡ upd (λ i. weight (s.pc i)) t (weight p) j =
        λ j.
          ap (λ f. weight (f j)) e
          ∙ elim (ℕ_discrete j t) [ yes q ↦ ground arith | no q ↦ ground arith ] in
      let same = sum-eq (suc n) _ _ pointwise in
      let moved = sum-upd (suc n) (λ i. weight (s.pc i)) t (weight p) (omega arith) in
      omega (arith, same, moved, lt)

  abbrev Returns : ℕ → ℕ → System → Type 0
  Returns r n s =
      (ts : List ℕ) × (length ts ≤ r)
      × All (λ t. t < suc n) ts
      × ((j : ℕ) → j < suc n → (run merging ts s).pc j ≡ done)

  run-rank : (r n : ℕ) (s : System) → rank n s ≤ r → IsTurn s → IsLive n s → Returns r n s
  unfolding run
  run-rank zero n s le u h = elim (done_or_not (suc n) s.pc) [
    | inl d ↦ ([], omega arith, tt, d)
    | inr (j, lt, w) ↦
        let (t, p, inside, e, lower) = some-Goes n j s h (omega arith) w in
        let less = step-rank n t p s inside e lower in absurd (omega arith)
  ]
  run-rank (suc r) n s le u h = elim (done_or_not (suc n) s.pc) [
    | inl d ↦ ([], omega arith, tt, d)
    | inr (j, lt, w) ↦
        let (t, p, inside, e, lower) = some-Goes n j s h (omega arith) w in
        let less = step-rank n t p s inside e lower in
        let (ts, few, only, d) =
          run-rank r n (step merging t s) (omega arith) (step-IsTurn merging t s u)
            (step-IsLive merging total n t s inside u h) in
        (t ∷ ts, omega arith, (omega arith, only), d)
  ]

  rank_bound : (n : ℕ) (s : System) → rank n s ≤ suc n * 4
  rank_bound n s = sum-bound (suc n) 4 (λ j. weight (s.pc j)) (λ j. weight_bound (s.pc j))

  run-IsLive :
      (before : List ℕ) (n : ℕ) (s : System)
      → All (λ t. t < suc n) before
      → IsTurn s
      → IsLive n s
      → IsLive n (run merging before s)
  unfolding run
  run-IsLive [] n s b u h = h
  run-IsLive (t ∷ before) n s b u h =
      run-IsLive before n (step merging t s) b.1 (step-IsTurn merging t s u)
        (step-IsLive merging total n t s (omega (arith, b.0)) u h)

  -- When no merge of two tables fails, the threads 0 to `n` cannot block each other for ever:
  -- whatever steps they took before, from a state in which each waiting thread can be chosen or is
  -- merged into and each table that is merged into has a thread that merges (such as before the first
  -- call), there are at most 4 * (n + 1) further steps that bring all of them to the end of
  -- lnf_mem_merge_threads.
  pub run-returns :
      (n : ℕ) (before : List ℕ) (s : System)
      → All (λ t. t < suc n) before
      → IsTurn s
      → IsLive n s
      → (ts : List ℕ) × (length ts ≤ suc n * 4)
        × All (λ t. t < suc n) ts
        × ((j : ℕ) → j < suc n → (run merging ts (run merging before s)).pc j ≡ done)
  run-returns n before s b u h =
      let now = run merging before s in
      run-rank (suc n * 4) n now (rank_bound n now) (run-IsTurn merging before s u)
        (run-IsLive before n s b u h)
