-- ===== src/Tests/RingBuf.antt =====
-- src/lnf_ringbuf.c on a ring of two entries.
use libnf.Base.{ℕ, ◌≡◌, refl, List, [], ◌∷◌, Option, some, none, arith}
use libnf.RingBuf.{
  ent_read, Shm, Ring, new_shm, new_ring, ring_write, ring_read, write_begin, write_end,
}
use libnf.RingBuf.Writer.{ring_write_lem}
use libnf.RingBuf.Queue.{IsQueue, new_shm-IsQueue, write_end-IsQueue, ring_write-IsQueue}
use libnf.RingBuf.Reader.{ring_read-IsQueue, ring_read-empty}

-- data that are a single byte
abbrev one_byte : List ℕ → Option ℕ
one_byte (b ∷ []) = some b
one_byte _ = none

abbrev fresh : Shm
fresh = new_shm 2

abbrev written : Shm
written = write_end (some (7 ∷ [])) (write_begin fresh 0)

ring_write-IsQueue_example :
    (shm' : Shm) × (writer' : Ring) × (ring_write 5 8 (some (7 ∷ [])) fresh new_ring
      ≡ some (shm', writer'))
    × IsQueue shm' new_ring ((7 ∷ []) ∷ [])
unfolding new_shm
ring_write-IsQueue_example =
    ring_write-IsQueue 5 fresh new_ring new_ring [] (7 ∷ []) (new_shm-IsQueue 2 (omega arith))
      (omega arith)

written-IsQueue : IsQueue written new_ring ((7 ∷ []) ∷ [])
unfolding new_shm
written-IsQueue =
    write_end-IsQueue fresh new_ring [] (7 ∷ []) (new_shm-IsQueue 2 (omega arith)) (omega arith)

ring_read-IsQueue_example :
    let (result, shm', ring') = ring_read one_byte written new_ring in
    (result ≡ some (some 7)) × IsQueue shm' ring' [] × (ring'.lost_counter ≡ 0)
ring_read-IsQueue_example =
    ring_read-IsQueue one_byte written new_ring (7 ∷ []) [] 7 written-IsQueue refl

nothing_read : ring_read one_byte fresh new_ring ≡ (none, fresh, new_ring)
nothing_read = ring_read-empty one_byte fresh new_ring (new_shm-IsQueue 2 (omega arith))

abbrev unread_by : ℕ → Shm
unread_by readers = record (new_shm 2) {
  entries = λ i. record { status = ent_read; num_readers = readers; sequence = 0; raw = [] };
}

-- Three dead readers hold up a writer until the limit, here 2, is passed.
ring_write_lem_example :
    ring_write 2 5 none (unread_by 3) new_ring
    ≡ some (write_end none (write_begin (unread_by 3) 0), record new_ring { stuck_counter = 1 })
unfolding new_shm
ring_write_lem_example = ring_write_lem 2 none (unread_by 3) new_ring
