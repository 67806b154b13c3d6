-- ===== src/RingBuf/Queue.antt =====
-- src/lnf_ringbuf.c: the ring as a queue of the data that a reader has not read.
use libnf.Base.{
  ℕ, zero, suc, ◌+◌, ◌-◌, ◌%◌, ◌^◌, ◌≤◌, ◌<◌, ◌≡◌, refl, sym, ap, ◌∙◌, ◌⊎◌, inl, inr, true, false,
  List, [], ◌∷◌, ◌++◌, some, arith, ltb, ◌==◌, if◌then◌else◌, length, get_elem?, length-append,
  ==_iff,
}
use libnf.RingBuf.{
  ent_read, Shm, Ring, new_shm, new_ring, ring_next, write_begin, write_end, ring_write,
}
use libnf.RingBuf.Writer.{ring_write_lem}

-- the entry `i` places after `pos`
abbrev pub slot : ℕ → ℕ → ℕ → ℕ
slot size pos i = if ltb (pos + i) size then pos + i else pos + i - size

-- The entry at `pos` has some data, ready to be read under a sequence.
pub record IsUnread (shm : Shm) (pos sequence : ℕ) (raw : List ℕ) : Type 0 where
  pub ready : (shm.entries pos).status ≡ ent_read
  pub numbered : (shm.entries pos).sequence ≡ sequence
  pub holds : (shm.entries pos).raw ≡ raw

-- What the reader has not read is the queue, no more than the ring holds.
pub record IsQueue (shm : Shm) (ring : Ring) (queue : List (List ℕ)) : Type 0 where
  pub inside : ring.read_pos < shm.size
  pub enough : length queue ≤ shm.size
  pub ends : shm.write_pos ≡ slot shm.size ring.read_pos (length queue)
  pub counts : shm.last_write_sequence ≡ ring.last_read_sequence + length queue
  pub past : (pos : ℕ) → (shm.entries pos).sequence ≤ shm.last_write_sequence
  pub unread :
      (i : ℕ) (raw : List ℕ)
      → get_elem? queue i ≡ some raw
      → IsUnread shm (slot shm.size ring.read_pos i) (suc (ring.last_read_sequence + i)) raw

-- A new ring has nothing unread.
pub new_shm-IsQueue : (size : ℕ) → 0 < size → IsQueue (new_shm size) new_ring []
unfolding new_shm
new_shm-IsQueue size pos = record {
  inside = pos;
  enough = omega arith;
  ends = ground arith;
  counts = refl;
  past = λ i. omega arith;
  unread = λ i raw e. cc;
}

get_elem?-snoc :
    {A : Type 0} (q : List A) (x : A) (i : ℕ) (d : A)
    → get_elem? (q ++ x ∷ []) i ≡ some d
    → ((i < length q) × (get_elem? q i ≡ some d)) ⊎ ((i ≡ length q) × (x ≡ d))
get_elem?-snoc [] x zero d e = inr (refl, cc)
get_elem?-snoc [] x (suc i) d e = cc
get_elem?-snoc (y ∷ q) x zero d e = inl (omega arith, e)
get_elem?-snoc (y ∷ q) x (suc i) d e = elim (get_elem?-snoc q x i d e) [
  | inl (before, f) ↦ inl (omega arith, f)
  | inr (last, f) ↦ inr (omega arith, f)
]

pub ring_next-slot :
    (size pos i : ℕ)
    → pos < size
    → i < size
    → ring_next size (slot size pos i) ≡ slot size pos (i + 1)
unfolding ring_next
ring_next-slot size pos i h k = ground arith

pub slot-ring_next :
    (size pos i : ℕ)
    → pos < size
    → i < size
    → slot size pos (suc i) ≡ slot size (ring_next size pos) i
unfolding ring_next
slot-ring_next size pos i h k = ground arith

pub ring_next-lt : (size pos : ℕ) → pos < size → ring_next size pos < size
unfolding ring_next
ring_next-lt size pos h = ground arith

pub get_elem?-lt : {A : Type 0} (q : List A) (i : ℕ) (d : A) → get_elem? q i ≡ some d → i < length q
get_elem?-lt [] i d e = cc
get_elem?-lt (x ∷ q) zero d e = omega arith
get_elem?-lt (x ∷ q) (suc i) d e = omega (arith, get_elem?-lt q i d e)

slot_ne : (size pos i n : ℕ) → i < n → n < size → (slot size pos i == slot size pos n) ≡ false
slot_ne size pos i n h k = ground arith

pub write_end-IsQueue :
    (shm : Shm) (ring : Ring) (queue : List (List ℕ)) (raw : List ℕ)
    → IsQueue shm ring queue
    → length queue < shm.size
    → IsQueue (write_end (some raw) (write_begin shm 0)) ring (queue ++ raw ∷ [])
unfolding write_end write_begin
write_end-IsQueue shm ring queue raw k room =
    let grown = length-append queue (raw ∷ []) in
    record {
      inside = k.inside;
      enough = omega arith;
      ends =
          ap (ring_next shm.size) k.ends
          ∙ ring_next-slot shm.size ring.read_pos (length queue) k.inside room
          ∙ ap (slot shm.size ring.read_pos) (omega arith);
      counts = omega (arith, k.counts);
      past = λ pos. let old = k.past pos in ground arith;
      unread = λ i d e. elim (get_elem?-snoc queue raw i d e) [
        | inl (before, f) ↦
            let u = k.unread i d f in
            let apart : (slot shm.size ring.read_pos i == shm.write_pos) ≡ false =
              rw k.ends (slot_ne shm.size ring.read_pos i (length queue) before room) in
            record {
              ready = rw apart u.ready;
              numbered = rw apart u.numbered;
              holds = rw apart u.holds;
            }
        | inr (last, f) ↦
            let same : (slot shm.size ring.read_pos i == shm.write_pos) ≡ true =
              (==_iff _ _).1 (ap (slot shm.size ring.read_pos) last ∙ sym k.ends) in
            record {
              ready = rw same refl;
              numbered = rw same (omega (arith, k.counts));
              holds = rw same f;
            }
      ];
    }

-- Writing a record adds its data at the end of what a reader has not read, as long as that is less
-- than the whole ring. The writer returns after at most `limit + 3` rounds of waiting, even if
-- readers that died hold the entry.
pub ring_write-IsQueue :
    (limit : ℕ) (shm : Shm) (writer reader : Ring) (queue : List (List ℕ)) (raw : List ℕ)
    → IsQueue shm reader queue
    → length queue < shm.size
    → (shm' : Shm) × (writer' : Ring) × (ring_write limit
          (suc (suc (limit + 1)))
          (some raw)
          shm
          writer
        ≡ some (shm', writer'))
      × IsQueue shm' reader (queue ++ raw ∷ [])
ring_write-IsQueue limit shm writer reader queue raw k room = (
  write_end (some raw) (write_begin shm 0),
  record writer {
    stuck_counter =
        if ltb 0 (shm.entries shm.write_pos).num_readers
        then (writer.stuck_counter + 1) % 2 ^ 64
        else writer.stuck_counter;
  },
  ring_write_lem limit (some raw) shm writer,
  write_end-IsQueue shm reader queue raw k room,
)
