-- ===== src/RingBuf/Writer.antt =====
-- src/lnf_ringbuf.c: a reader that died does not block the writer.
use libnf.Base.{
  ℕ, zero, suc, ◌+◌, ◌%◌, ◌^◌, ◌≡◌, refl, ap, ◌∙◌, some, arith, ltb, lt→ltb, List, Option, true,
  false, if◌then◌else◌, Bool-cases, inl, inr,
}
use libnf.RingBuf.{Shm, Ring, wait_readers, write_begin, write_end, ring_write}

module _ (limit num_readers : ℕ) (held : ltb 0 num_readers ≡ true) where
  wait_readers_again :
      (fuel counter stuck : ℕ)
      → ltb limit counter ≡ false
      → wait_readers limit (suc fuel) counter num_readers stuck
        ≡ wait_readers limit fuel (counter + 1) num_readers stuck
  unfolding wait_readers
  wait_readers_again fuel counter stuck early = rw (held, early) refl

  wait_readers_give_up :
      (fuel counter stuck : ℕ)
      → ltb limit counter ≡ true
      → wait_readers limit (suc fuel) counter num_readers stuck
        ≡ wait_readers limit fuel (counter + 1) 0 ((stuck + 1) % 2 ^ 64)
  unfolding wait_readers
  wait_readers_give_up fuel counter stuck late = rw (held, late) refl

  wait_readers_lem :
      (rounds counter stuck : ℕ)
      → counter + rounds ≡ limit + 1
      → wait_readers limit (suc (suc rounds)) counter num_readers stuck
        ≡ some (0, (stuck + 1) % 2 ^ 64)
  wait_readers_lem zero counter stuck e =
      let late : ltb limit counter ≡ true = lt→ltb limit counter (omega arith) in
      wait_readers_give_up 1 counter stuck late ∙ unfold wait_readers in refl
  wait_readers_lem (suc rounds) counter stuck e =
      let early : ltb limit counter ≡ false = ground arith in
      wait_readers_again (suc (suc rounds)) counter stuck early
      ∙ wait_readers_lem rounds (counter + 1) stuck (omega arith)

wait_readers_free :
    (limit fuel counter num_readers stuck : ℕ)
    → ltb 0 num_readers ≡ false
    → wait_readers limit (suc fuel) counter num_readers stuck ≡ some (0, stuck)
unfolding wait_readers
wait_readers_free limit fuel counter n stuck free =
    let gone : n ≡ 0 = ground arith in rw free (ap (λ x. some (x, stuck)) gone)

-- Whatever number of readers hold the entry for ever, writing ends: after at most `limit + 3` rounds
-- the writer has gone on as if nobody read the entry, and counts one stuck state if somebody did.
pub ring_write_lem :
    (limit : ℕ) (raw : Option (List ℕ)) (shm : Shm) (ring : Ring)
    → ring_write limit (suc (suc (limit + 1))) raw shm ring
      ≡ some (
        write_end raw (write_begin shm 0),
        record ring {
          stuck_counter =
              if ltb 0 (shm.entries shm.write_pos).num_readers
              then (ring.stuck_counter + 1) % 2 ^ 64
              else ring.stuck_counter;
        },
      )
unfolding ring_write
ring_write_lem limit raw shm ring =
    let n = (shm.entries shm.write_pos).num_readers in
    elim (Bool-cases (ltb 0 n)) [
      | inl held ↦
          rw
            (
              wait_readers_lem limit n held (limit + 1) 0 ring.stuck_counter (omega arith),
              ring_write,
            )
            (rw held refl)
      | inr free ↦
          rw (wait_readers_free limit (suc (limit + 1)) 0 n ring.stuck_counter free, ring_write)
            (rw free refl)
    ]
