-- ===== src/MemHeap/Threads/Turns.antt =====
-- src/memheap.c, `lnf_mem_merge_threads`: no two threads merge into one table, and none from a table
-- that is merged into.
use libnf.Base.{
  ℕ, zero, suc, ◌+◌, ◌<◌, ◌≡◌, ◌≢◌, refl, sym, ap, ◌∙◌, ◌⊎◌, inl, inr, Bool, true, false, List, [],
  ◌∷◌, Option, none, some, ◌==◌, if◌then◌else◌, arith, Bool-cases, Option-cases,
}
use libnf.MemHeap.Threads.{
  Merging, combine, ThStatus, is_merge, Pc, idle, waiting, done, stopped, joining, joined, System,
  upd, first_ready, announce, choose, join_tables, release, move, step, run,
}
use mathlib.Core.Option.{none-ne-some}
use native.Mathlib.Decide.{ℕ_discrete}

-- the thread that a thread merges into
abbrev pub target : Pc → Option ℕ
target (joining i) = some i
target (joined i) = some i
target _ = none

-- a thread whose table others may merge into, or do
abbrev pub is_open : ThStatus → Bool
is_open ThStatus.merge = true
is_open ThStatus.merging = true
is_open _ = false

-- a thread that called and does not merge: it waits, or is thread 0
abbrev pub is_there : Pc → ℕ → Bool
is_there waiting t = true
is_there done t = t == 0
is_there _ t = false

pub record IsTurn (s : System) : Type 0 where
  pub there : (j : ℕ) → is_open (s.status j) ≡ true → is_there (s.pc j) j ≡ true
  pub sender : (j k : ℕ) → target (s.pc j) ≡ some k → s.status j ≡ ThStatus.merged
  pub below : (j k : ℕ) → target (s.pc j) ≡ some k → k < j
  pub receiver : (j k : ℕ) → target (s.pc j) ≡ some k → s.status k ≡ ThStatus.merging
  pub alone : (j j' k : ℕ) → target (s.pc j) ≡ some k → target (s.pc j') ≡ some k → j ≡ j'

pub upd_self {ℓ} : {A : Type ℓ} (f : ℕ → A) (i : ℕ) (v : A) → upd f i v i ≡ v
upd_self f i v = ground arith

pub upd-ne {ℓ} : {A : Type ℓ} (f : ℕ → A) (i j : ℕ) (v : A) → j ≢ i → upd f i v j ≡ f j
upd-ne f i j v h = ground arith

pub first_ready-lt :
    (status : ℕ → ThStatus) (count i k : ℕ)
    → first_ready status count i ≡ some k
    → (k < i + count) × (is_merge (status k) ≡ true)
unfolding first_ready
first_ready-lt status zero i k h = cc h
first_ready-lt status (suc count) i k h = elim (Bool-cases (is_merge (status i))) [
  | inl e ↦ let same : i ≡ k = cc (rw (e, first_ready) at h) in rw (sym same) (omega arith, e)
  | inr e ↦
      let (lt, ready) = first_ready-lt status count (suc i) k (rw (e, first_ready) at h) in
      (omega arith, ready)
]

-- A thread that does not merge after its step: the merges of the others are as before.
pub target-upd :
    (pc : ℕ → Pc) (t : ℕ) (v : Pc) (j k : ℕ)
    → target v ≡ none
    → target (upd pc t v j) ≡ some k
    → (j ≢ t) × (target (pc j) ≡ some k)
target-upd pc t v j k fresh q = elim (ℕ_discrete j t) [
  | yes w ↦
      let own : target (upd pc t v j) ≡ none = rw (w, upd_self pc t v) fresh in
      absurd (none-ne-some k (sym own ∙ q))
  | no w ↦ (w, ap target (sym (upd-ne pc t j v w)) ∙ q)
]

-- A thread that merges into `i` after its step, and the others.
pub target-upd-some :
    (pc : ℕ → Pc) (t i : ℕ) (v : Pc) (j k : ℕ)
    → target v ≡ some i
    → target (upd pc t v j) ≡ some k
    → ((j ≡ t) × (k ≡ i)) ⊎ ((j ≢ t) × (target (pc j) ≡ some k))
target-upd-some pc t i v j k own q = elim (ℕ_discrete j t) [
  | yes w ↦
      let here : target (upd pc t v j) ≡ some i = rw (w, upd_self pc t v) own in
      inl (w, cc (here, q))
  | no w ↦ inr (w, ap target (sym (upd-ne pc t j v w)) ∙ q)
]

module _ (merging : Merging) where
  announce-IsTurn : (t : ℕ) (s : System) → s.pc t ≡ idle → IsTurn s → IsTurn (announce merging t s)
  unfolding announce
  announce-IsTurn t s e h =
      let fresh : target (if t == 0 then done else waiting) ≡ none = ground arith in
      let shut : is_open (s.status t) ≡ false = ground (arith, h.there t) in
      let old = λ (j k : ℕ). target-upd s.pc t (if t == 0 then done else waiting) j k fresh in
      record {
        there = λ j o. elim (ℕ_discrete j t) [
          | yes q ↦ rw q (ground arith)
          | no n ↦ ground (arith, h.there j)
        ];
        sender = λ j k q. let (n, r) = old j k q in ground (arith, h.sender j k r);
        below = λ j k q. h.below j k (old j k q).1;
        receiver = λ j k q. ground (arith, h.receiver j k (old j k q).1);
        alone = λ j j' k p q. h.alone j j' k (old j k p).1 (old j' k q).1;
      }

  release-IsTurn :
      (t i : ℕ) (s : System) → s.pc t ≡ joined i → IsTurn s → IsTurn (release merging t i s)
  unfolding release
  release-IsTurn t i s e h =
      let own : target (s.pc t) ≡ some i = ap target e in
      let mine = h.sender t i own in
      let theirs = h.receiver t i own in
      let apart = h.below t i own in
      let old = λ (j k : ℕ). target-upd s.pc t done j k refl in
      record {
        there = λ j o. elim (ℕ_discrete j t) [
          | yes q ↦ rw q (ground arith)
          | no n ↦ ground (arith, h.there j)
        ];
        sender = λ j k q. let (n, r) = old j k q in ground (arith, h.sender j k r);
        below = λ j k q. h.below j k (old j k q).1;
        receiver = λ j k q.
            let (n, r) = old j k q in
            let other : k ≢ i = λ w. n (h.alone j t i (r ∙ ap some w) own) in
            ground (arith, h.receiver j k r);
        alone = λ j j' k p q. h.alone j j' k (old j k p).1 (old j' k q).1;
      }

  join_tables-IsTurn :
      (t i : ℕ) (s : System) → s.pc t ≡ joining i → IsTurn s → IsTurn (join_tables merging t i s)
  unfolding join_tables
  join_tables-IsTurn t i s e h =
      let own : target (s.pc t) ≡ some i = ap target e in
      let mine = h.sender t i own in
      elim (Bool-cases (combine merging s.heap (s.table i) (s.table t)).0) [
        | inr c ↦
            let old = λ (j k : ℕ). target-upd s.pc t stopped j k refl in
            rw c (record {
              there = λ j o. ground (arith, h.there j);
              sender = λ j k q. h.sender j k (old j k q).1;
              below = λ j k q. h.below j k (old j k q).1;
              receiver = λ j k q. h.receiver j k (old j k q).1;
              alone = λ j j' k p q. h.alone j j' k (old j k p).1 (old j' k q).1;
            })
        | inl c ↦
            let old : (j k : ℕ)
                → target (upd s.pc t (joined i) j) ≡ some k
                → target (s.pc j) ≡ some k =
              λ j k q. elim (target-upd-some s.pc t i (joined i) j k refl q) [
                | inl (w, v) ↦ rw (w, v) own
                | inr (w, r) ↦ r
              ] in
            rw c (record {
              there = λ j o. ground (arith, h.there j);
              sender = λ j k q. h.sender j k (old j k q);
              below = λ j k q. h.below j k (old j k q);
              receiver = λ j k q. h.receiver j k (old j k q);
              alone = λ j j' k p q. h.alone j j' k (old j k p) (old j' k q);
            })
      ]

  choose-IsTurn : (t : ℕ) (s : System) → s.pc t ≡ waiting → IsTurn s → IsTurn (choose merging t s)
  unfolding choose
  choose-IsTurn t s e h = elim (Bool-cases (is_merge (s.status t))) [
    | inr closed ↦ rw closed h
    | inl ready ↦ elim (Option-cases (first_ready s.status t 0)) [
      | inl c ↦ rw (ready, c) h
      | inr (i, c) ↦
          let (lt, open_i) = first_ready-lt s.status t 0 i c in
          let new = λ (j k : ℕ). target-upd-some s.pc t i (joining i) j k refl in
          let below_t : i < t = omega arith in
          rw (ready, c)
            (record {
              there = λ j o. ground (arith, h.there j);
              sender = λ j k q. elim (new j k q) [
                | inl (w, v) ↦ rw w (ground arith)
                | inr (w, r) ↦ ground (arith, h.sender j k r)
              ];
              below = λ j k q. elim (new j k q) [
                | inl (w, v) ↦ rw (w, v) below_t
                | inr (w, r) ↦ h.below j k r
              ];
              receiver = λ j k q. elim (new j k q) [
                | inl (w, v) ↦ rw v (ground arith)
                | inr (w, r) ↦ ground (arith, h.receiver j k r)
              ];
              alone = λ j j' k p q. elim (new j k p) [
                | inl (w, v) ↦ elim (new j' k q) [
                  | inl (w', v') ↦ w ∙ sym w'
                  | inr (w', r') ↦ ground (arith, h.receiver j' k r')
                ]
                | inr (w, r) ↦ elim (new j' k q) [
                  | inl (w', v') ↦ ground (arith, h.receiver j k r)
                  | inr (w', r') ↦ h.alone j j' k r r'
                ]
              ];
            })
    ]
  ]

  pub step-IsTurn : (t : ℕ) (s : System) → IsTurn s → IsTurn (step merging t s)
  unfolding step
  step-IsTurn t s h = from (s.pc t) refl
    where
      from : (p : Pc) → s.pc t ≡ p → IsTurn (move merging t s p)
      from idle e = announce-IsTurn t s e h
      from waiting e = choose-IsTurn t s e h
      from (joining i) e = join_tables-IsTurn t i s e h
      from (joined i) e = release-IsTurn t i s e h
      from done e = h
      from stopped e = h

  -- In whatever order the threads take their steps: a thread merges only into a thread before it,
  -- which is marked as merging and itself waits or is thread 0, and no other thread merges into
  -- the same table at that time.
  pub run-IsTurn : (ts : List ℕ) (s : System) → IsTurn s → IsTurn (run merging ts s)
  unfolding run
  run-IsTurn [] s h = h
  run-IsTurn (t ∷ ts) s h = run-IsTurn ts (step merging t s) (step-IsTurn t s h)
