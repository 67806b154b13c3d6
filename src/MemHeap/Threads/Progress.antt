-- ===== src/MemHeap/Threads/Progress.antt =====
-- src/memheap.c, `lnf_mem_merge_threads`: the threads cannot wait for each other for ever.
use libnf.Base.{
  ℕ, ◌≤◌, ◌<◌, ◌≡◌, ◌≢◌, refl, sym, ap, ◌∙◌, inl, inr, true, some, arith, Bool-cases, Option-cases,
}
use libnf.HashTable.{Heap, HashTable}
use libnf.MemHeap.Threads.{
  Merging, combine, ThStatus, is_merge, Pc, idle, waiting, done, stopped, joining, joined, System,
  upd, first_ready, announce, choose, join_tables, release, move, step,
}
use libnf.MemHeap.Threads.Turns.{IsTurn, target, is_open, upd_self, upd-ne, first_ready-lt}
use native.Mathlib.Decide.{ℕ_discrete}

-- A state of threads 0 to `n` from which each of them can go on: no merge failed, a thread that
-- waits can be chosen or is merged into, and a thread that is merged into has one that merges.
pub record IsLive (n : ℕ) (s : System) : Type 0 where
  pub outside : (j : ℕ) → n < j → s.pc j ≡ idle
  pub zero_calls : s.pc 0 ≢ waiting
  pub no_failure : (j : ℕ) → s.pc j ≢ stopped
  pub open_waiting : (j : ℕ) → s.pc j ≡ waiting → is_open (s.status j) ≡ true
  pub open_zero : s.pc 0 ≡ done → is_open (s.status 0) ≡ true
  pub merging_by : (k : ℕ) → s.status k ≡ ThStatus.merging → (j : ℕ) × (target (s.pc j) ≡ some k)

module _ (merging : Merging) where
  announce-IsLive :
      (n t : ℕ) (s : System) → t ≤ n → s.pc t ≡ idle → IsLive n s → IsLive n (announce merging t s)
  unfolding announce
  announce-IsLive n t s le e h = record {
    outside = λ j o. ground (arith, h.outside j);
    zero_calls = elim (ℕ_discrete 0 t) [
      | yes w ↦ rw (sym w) (λ q. cc q)
      | no w ↦ rw (upd-ne s.pc t 0 _ w) h.zero_calls
    ];
    no_failure = λ j. elim (ℕ_discrete j t) [
      | yes w ↦ rw (w, upd_self s.pc t _) (λ q. ground arith)
      | no w ↦ rw (upd-ne s.pc t j _ w) (h.no_failure j)
    ];
    open_waiting = λ j q. ground (arith, h.open_waiting j);
    open_zero = λ q. ground (arith, h.open_zero);
    merging_by = λ k q. elim (ℕ_discrete k t) [
      | yes w ↦ cc (rw (w, upd_self s.status t _) at q)
      | no w ↦
          let (j, r) = h.merging_by k (rw (upd-ne s.status t k _ w) at q) in
          let other : j ≢ t = λ v. cc (r, ap (λ x. target (s.pc x)) v, ap target e) in
          (j, ap target (upd-ne s.pc t j _ other) ∙ r)
    ];
  }

  release-IsLive :
      (n t i : ℕ) (s : System)
      → t ≤ n
      → s.pc t ≡ joined i
      → IsTurn s
      → IsLive n s
      → IsLive n (release merging t i s)
  unfolding release
  release-IsLive n t i s le e u h =
      let own : target (s.pc t) ≡ some i = ap target e in
      let lt = u.below t i own in
      record {
        outside = λ j o. ground (arith, h.outside j);
        zero_calls = elim (ℕ_discrete 0 t) [
          | yes w ↦ absurd (omega arith)
          | no w ↦ rw (upd-ne s.pc t 0 _ w) h.zero_calls
        ];
        no_failure = λ j. elim (ℕ_discrete j t) [
          | yes w ↦ rw (w, upd_self s.pc t _) (λ q. cc q)
          | no w ↦ rw (upd-ne s.pc t j _ w) (h.no_failure j)
        ];
        open_waiting = λ j q. ground (arith, h.open_waiting j);
        open_zero = λ q. ground (arith, h.open_zero);
        merging_by = λ k q. elim (ℕ_discrete k i) [
          | yes w ↦ cc (rw (w, upd_self (upd s.status t ThStatus.cleared) i _) at q)
          | no w ↦ elim (ℕ_discrete k t) [
            | yes v ↦ ground arith
            | no v ↦
                let (j, r) = h.merging_by k (ground arith) in
                let other : j ≢ t = λ x. w (cc (r, ap (λ y. target (s.pc y)) x, own)) in
                (j, ap target (upd-ne s.pc t j _ other) ∙ r)
          ]
        ];
      }

  join_tables-IsLive :
      (total : (h : Heap) (td ts : HashTable) → (combine merging h td ts).0 ≡ true) (n t i : ℕ)
      (s : System)
      → t ≤ n
      → s.pc t ≡ joining i
      → IsTurn s
      → IsLive n s
      → IsLive n (join_tables merging t i s)
  unfolding join_tables
  join_tables-IsLive total n t i s le e u h =
      let own : target (s.pc t) ≡ some i = ap target e in
      let lt = u.below t i own in
      let c = total s.heap (s.table i) (s.table t) in
      rw c (record {
        outside = λ j o. ground (arith, h.outside j);
        zero_calls = rw (upd-ne s.pc t 0 (joined i) (λ w. omega arith)) h.zero_calls;
        no_failure = λ j. elim (ℕ_discrete j t) [
          | yes w ↦ rw (w, upd_self s.pc t (joined i)) (λ q. cc q)
          | no w ↦ rw (upd-ne s.pc t j (joined i) w) (h.no_failure j)
        ];
        open_waiting = λ j q. ground (arith, h.open_waiting j);
        open_zero = λ q. ground (arith, h.open_zero);
        merging_by = λ k q.
            let (j, r) = h.merging_by k q in
            elim (ℕ_discrete j t) [
              | yes w ↦
                  let same : target (s.pc j) ≡ some i = rw w own in
                  (t, rw (upd_self s.pc t (joined i)) (sym same ∙ r))
              | no w ↦ (j, ap target (upd-ne s.pc t j (joined i) w) ∙ r)
            ];
      })

  choose-IsLive :
      (n t : ℕ) (s : System) → t ≤ n → s.pc t ≡ waiting → IsLive n s → IsLive n (choose merging t s)
  unfolding choose
  choose-IsLive n t s le e h = elim (Bool-cases (is_merge (s.status t))) [
    | inr closed ↦ rw closed h
    | inl ready ↦ elim (Option-cases (first_ready s.status t 0)) [
      | inl c ↦ rw (ready, c) h
      | inr (i, c) ↦
          let (lt, open_i) = first_ready-lt s.status t 0 i c in
          let below_t : i < t = omega arith in
          rw (ready, c)
            (record {
              outside = λ j o. ground (arith, h.outside j);
              zero_calls = rw (upd-ne s.pc t 0 (joining i) (λ w. omega arith)) h.zero_calls;
              no_failure = λ j. elim (ℕ_discrete j t) [
                | yes w ↦ rw (w, upd_self s.pc t (joining i)) (λ q. cc q)
                | no w ↦ rw (upd-ne s.pc t j (joining i) w) (h.no_failure j)
              ];
              open_waiting = λ j q. elim (ℕ_discrete j t) [
                | yes w ↦ cc (rw (w, upd_self s.pc t (joining i)) at q)
                | no w ↦ ground (arith, h.open_waiting j)
              ];
              open_zero = λ q. ground (arith, h.open_zero);
              merging_by = λ k q. elim (ℕ_discrete k i) [
                | yes w ↦ (t, rw (w, upd_self s.pc t (joining i)) refl)
                | no w ↦ elim (ℕ_discrete k t) [
                  | yes v ↦ ground arith
                  | no v ↦
                      let (j, r) = h.merging_by k (ground arith) in
                      let other : j ≢ t = λ x. cc (r, ap (λ y. target (s.pc y)) x, ap target e) in
                      (j, ap target (upd-ne s.pc t j (joining i) other) ∙ r)
                ]
              ];
            })
    ]
  ]

  pub step-IsLive :
      (total : (h : Heap) (td ts : HashTable) → (combine merging h td ts).0 ≡ true) (n t : ℕ)
      (s : System)
      → t ≤ n
      → IsTurn s
      → IsLive n s
      → IsLive n (step merging t s)
  unfolding step
  step-IsLive total n t s le u h = from (s.pc t) refl
    where
      from : (p : Pc) → s.pc t ≡ p → IsLive n (move merging t s p)
      from idle e = announce-IsLive n t s le e h
      from waiting e = choose-IsLive n t s le e h
      from (joining i) e = join_tables-IsLive total n t i s le e u h
      from (joined i) e = release-IsLive n t i s le e u h
      from done e = h
      from stopped e = h
