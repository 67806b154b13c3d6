-- ===== src/RingBuf/Reader.antt =====
-- src/lnf_ringbuf.c: reading takes the data off the queue.
use libnf.Base.{
  ℕ, suc, ◌+◌, ◌≡◌, refl, sym, ◌∙◌, inl, inr, true, false, not, List, [], ◌∷◌, Option, none, some,
  arith, leb, ◌==◌, length, Bool-cases, ==_iff,
}
use libnf.RingBuf.{ent_read, is_ready, Shm, Ring, put, ring_next, read_begin, read_end, ring_read}
use libnf.RingBuf.Queue.{slot, IsUnread, IsQueue, slot-ring_next, ring_next-lt, get_elem?-lt}

-- what a reader leaves in the ring while it holds its entry
abbrev held : Shm → ℕ → Shm
held shm pos =
    let ent = shm.entries pos in put shm pos (record ent { num_readers = ent.num_readers + 1 })

read_begin-old :
    (shm : Shm) (ring : Ring)
    → leb (shm.entries ring.read_pos).sequence ring.last_read_sequence ≡ true
    → read_begin shm ring ≡ none
unfolding read_begin
read_begin-old shm ring old =
    elim (Bool-cases (not (is_ready (shm.entries ring.read_pos).status))) [
      | inl idle ↦ rw idle refl
      | inr ready ↦ rw (ready, old) refl
    ]

read_begin-ready :
    (shm : Shm) (ring : Ring)
    → (shm.entries ring.read_pos).status ≡ ent_read
    → leb (shm.entries ring.read_pos).sequence ring.last_read_sequence ≡ false
    → read_begin shm ring ≡ some (held shm ring.read_pos)
unfolding read_begin
read_begin-ready shm ring ready fresh = rw (ready, fresh) refl

same_pos : (pos : ℕ) → (pos == pos) ≡ true
same_pos pos = ground arith

-- Holding and releasing an entry changes nothing but numbers of readers.
read_end-kept :
    (shm : Shm) (ring : Ring) (pos : ℕ)
    → let shm' = (read_end true (held shm ring.read_pos) ring).0 in
      ((shm'.entries pos).status ≡ (shm.entries pos).status)
      × ((shm'.entries pos).sequence ≡ (shm.entries pos).sequence)
      × ((shm'.entries pos).raw ≡ (shm.entries pos).raw)
unfolding read_end
read_end-kept shm ring pos = elim (Bool-cases (pos == ring.read_pos)) [
  | inl same ↦
      let here : pos ≡ ring.read_pos = (==_iff _ _).0 same in
      rw (same, same_pos ring.read_pos) (rw here (refl, refl, refl))
  | inr other ↦ rw other (refl, refl, refl)
]

front-IsUnread :
    (shm : Shm) (ring : Ring) (raw : List ℕ) (queue : List (List ℕ))
    → IsQueue shm ring (raw ∷ queue)
    → IsUnread shm ring.read_pos (suc ring.last_read_sequence) raw
front-IsUnread shm ring raw queue k =
    let u = k.unread 0 raw refl in
    let inside = k.inside in
    let place : slot shm.size ring.read_pos 0 ≡ ring.read_pos = ground arith in
    let sequence : (shm.entries (slot shm.size ring.read_pos 0)).sequence
        ≡ suc ring.last_read_sequence =
      omega (arith, u.numbered) in
    record {
      ready = rw place at u.ready;
      numbered = rw place at sequence;
      holds = rw place at u.holds;
    }

-- A reader that moves on by one entry and one sequence has the rest of the queue before it.
IsQueue-rest :
    (shm shm' : Shm) (ring ring' : Ring) (raw : List ℕ) (queue : List (List ℕ))
    → IsQueue shm ring (raw ∷ queue)
    → shm'.size ≡ shm.size
    → shm'.write_pos ≡ shm.write_pos
    → shm'.last_write_sequence ≡ shm.last_write_sequence
    → ((pos : ℕ)
        → ((shm'.entries pos).status ≡ (shm.entries pos).status)
          × ((shm'.entries pos).sequence ≡ (shm.entries pos).sequence)
          × ((shm'.entries pos).raw ≡ (shm.entries pos).raw))
    → ring'.read_pos ≡ ring_next shm.size ring.read_pos
    → ring'.last_read_sequence ≡ suc ring.last_read_sequence
    → IsQueue shm' ring' queue
IsQueue-rest shm shm' ring ring' raw queue k size pos written kept moved seen =
    let room = k.enough in
    record {
      inside = rw (size, moved) (ring_next-lt shm.size ring.read_pos k.inside);
      enough = omega arith;
      ends =
          pos
          ∙ k.ends
          ∙ rw (size, moved)
              (slot-ring_next shm.size ring.read_pos (length queue) k.inside (omega arith));
      counts = omega (arith, k.counts);
      past = λ p. rw ((kept p).1, written) (k.past p);
      unread = λ i d e.
          let u = k.unread (suc i) d e in
          let (status, sequence, same_raw) = kept (slot shm'.size ring'.read_pos i) in
          let fits = get_elem?-lt queue i d e in
          let place : slot shm'.size ring'.read_pos i ≡ slot shm.size ring.read_pos (suc i) =
            rw (size, moved)
              (sym (slot-ring_next shm.size ring.read_pos i k.inside (omega arith))) in
          record {
            ready = status ∙ rw place u.ready;
            numbered = sequence ∙ rw place (u.numbered ∙ omega arith);
            holds = same_raw ∙ rw place u.holds;
          };
    }

read_end-IsQueue :
    (shm : Shm) (ring : Ring) (raw : List ℕ) (queue : List (List ℕ))
    → IsQueue shm ring (raw ∷ queue)
    → let (shm', ring') = read_end true (held shm ring.read_pos) ring in
      IsQueue shm' ring' queue × (ring'.lost_counter ≡ ring.lost_counter)
unfolding read_end
read_end-IsQueue shm ring raw queue k =
    let f = front-IsUnread shm ring raw queue k in
    let same = same_pos ring.read_pos in
    let next_one : (ring.last_read_sequence + 1 == (shm.entries ring.read_pos).sequence) ≡ true =
      rw f.numbered (ground arith) in
    (
      IsQueue-rest shm _ ring _ raw queue k refl refl refl (read_end-kept shm ring) refl
          (rw same f.numbered),
      rw same (rw next_one refl),
    )

module _ {R : Type 0} (set_raw : List ℕ → Option R) where
  -- Reading returns the record of the first data that the reader has not read, takes them off the
  -- queue and counts no record as lost, provided that the record can be set from the data.
  pub ring_read-IsQueue :
      (shm : Shm) (ring : Ring) (raw : List ℕ) (queue : List (List ℕ)) (rec : R)
      → IsQueue shm ring (raw ∷ queue)
      → set_raw raw ≡ some rec
      → let (result, shm', ring') = ring_read set_raw shm ring in
        (result ≡ some (some rec))
        × IsQueue shm' ring' queue
        × (ring'.lost_counter ≡ ring.lost_counter)
  unfolding ring_read
  ring_read-IsQueue shm ring raw queue rec k e =
      let f = front-IsUnread shm ring raw queue k in
      let fresh : leb (shm.entries ring.read_pos).sequence ring.last_read_sequence ≡ false =
        let n = f.numbered in ground arith in
      let found : set_raw ((held shm ring.read_pos).entries ring.read_pos).raw ≡ some rec =
        rw (same_pos ring.read_pos) (rw f.holds e) in
      let (queue', lost) = read_end-IsQueue shm ring raw queue k in
      rw (read_begin-ready shm ring f.ready fresh, ring_read) (rw found (refl, queue', lost))

  -- When the reader has read everything, reading without blocking returns LNF_EOF and changes
  -- nothing.
  pub ring_read-empty :
      (shm : Shm) (ring : Ring)
      → IsQueue shm ring []
      → ring_read set_raw shm ring ≡ (none, shm, ring)
  unfolding ring_read
  ring_read-empty shm ring k =
      let old : leb (shm.entries ring.read_pos).sequence ring.last_read_sequence ≡ true =
        let p = k.past ring.read_pos in let c = k.counts in ground arith in
      rw (read_begin-old shm ring old, ring_read) refl
