-- ===== src/RingBuf.antt =====
-- src/lnf_ringbuf.c: the ring of records in shared memory, one writer's and one reader's code. The
-- sections that hold the lock are steps of their own; `lnf_ring_read` and `lnf_ring_write` run them
-- in turn with nobody in between. A sequence is a `long`; its overflow is not modelled.
pub mod Queue
pub mod Writer
pub mod Reader
use libnf.Base.{
  ℕ, zero, suc, ◌+◌, ◌-◌, ◌%◌, ◌^◌, Bool, true, false, not, ◌||◌, List, [], Option, none, some,
  ◌==◌, ltb, leb, if◌then◌else◌,
}

-- `lnf_ring_entry_status_t`
pub data Status : Type 0 where
  ent_empty ent_write ent_read : Status

-- `lnf_ring_entry_t`
pub record Entry : Type 0 where
  pub status : Status
  pub num_readers : ℕ
  pub sequence : ℕ
  pub raw : List ℕ

-- `lnf_ring_shm_t` without its lock
pub record Shm : Type 0 where
  pub last_write_sequence : ℕ
  pub size : ℕ
  pub write_pos : ℕ
  pub entries : ℕ → Entry

-- what `lnf_ring_t` keeps for one process
pub record Ring : Type 0 where
  pub last_read_sequence : ℕ
  pub read_pos : ℕ
  pub stuck_counter : ℕ
  pub lost_counter : ℕ
  pub total_counter : ℕ

-- what `lnf_ring_init` leaves: the shared memory when it creates it, zeroed by ftruncate and for
-- LNF_RINGBUF_SIZE entries, and a connection
unfoldable pub new_shm : ℕ → Shm
new_shm size = record {
  last_write_sequence = 0;
  size = size;
  write_pos = 0;
  entries = λ i. record { status = ent_empty; num_readers = 0; sequence = 0; raw = [] };
}

abbrev pub new_ring : Ring
new_ring = record {
  last_read_sequence = 0;
  read_pos = 0;
  stuck_counter = 0;
  lost_counter = 0;
  total_counter = 0;
}

-- `entries[pos] = ent`
abbrev pub put : Shm → ℕ → Entry → Shm
put shm pos ent = record shm { entries = λ i. if i == pos then ent else shm.entries i }

-- `lnf_ring_next`
unfoldable pub ring_next : ℕ → ℕ → ℕ
ring_next size index = if leb size (index + 1) then 0 else index + 1

abbrev pub is_ready : Status → Bool
is_ready ent_read = true
is_ready _ = false

-- The first section of `lnf_ring_read`: the entry is held, or `none` when there is nothing to read.
unfoldable pub read_begin : Shm → Ring → Option Shm
read_begin shm ring =
    let ent = shm.entries ring.read_pos in
    if not (is_ready ent.status) || leb ent.sequence ring.last_read_sequence
    then none
    else some (put shm ring.read_pos (record ent { num_readers = ent.num_readers + 1 }))

-- The rest: `ok` says whether `lnf_rec_set_raw` returned LNF_OK for the data of the
-- entry. The entry is held by this reader, so `num_readers` is at least 1.
unfoldable pub read_end : Bool → Shm → Ring → Shm × Ring
unfolding ring_next
read_end ok shm ring =
    let ent = shm.entries ring.read_pos in
    let lost =
      if ring.last_read_sequence + 1 == ent.sequence
      then ring.lost_counter
      else (ring.lost_counter + (ent.sequence + 2 ^ 64 - ring.last_read_sequence + 1)) % 2 ^ 64 in
    (
      put shm ring.read_pos (record ent { num_readers = ent.num_readers - 1 }),
      record ring {
        last_read_sequence = ent.sequence;
        lost_counter = lost;
        read_pos = if ok then ring_next shm.size ring.read_pos else ring.read_pos;
        total_counter = if ok then (ring.total_counter + 1) % 2 ^ 64 else ring.total_counter;
      },
    )

-- The wait for readers in `lnf_ring_write` while nobody else runs, one round for each unit of fuel:
-- what is left of `num_readers`, and the ring's `stuck_counter`. `limit` is LNF_RING_STUCK_LIMIT.
unfoldable pub wait_readers : ℕ → ℕ → ℕ → ℕ → ℕ → Option (ℕ × ℕ)
wait_readers limit zero counter num_readers stuck = none
wait_readers limit (suc fuel) counter num_readers stuck =
    let given_up = wait_readers limit fuel (counter + 1) 0 ((stuck + 1) % 2 ^ 64) in
    let again = wait_readers limit fuel (counter + 1) num_readers stuck in
    if ltb 0 num_readers
    then if ltb limit counter then given_up else again
    else some (num_readers, stuck)

-- The section that takes an entry for writing.
unfoldable pub write_begin : Shm → ℕ → Shm
write_begin shm num_readers =
    put shm shm.write_pos
      (record (shm.entries shm.write_pos) { status = ent_write; num_readers = num_readers })

-- What follows: `raw` is what `lnf_rec_get_raw` wrote into the entry, `none` when it failed.
unfoldable pub write_end : Option (List ℕ) → Shm → Shm
unfolding ring_next
write_end none shm =
    put shm shm.write_pos (record (shm.entries shm.write_pos) { status = ent_empty })
write_end (some raw) shm =
    record (put shm shm.write_pos (record (shm.entries shm.write_pos) {
      status = ent_read;
      sequence = shm.last_write_sequence + 1;
      raw = raw;
    })) {
      last_write_sequence = shm.last_write_sequence + 1;
      write_pos = ring_next shm.size shm.write_pos;
    }

-- `lnf_ring_write`; `none` when the fuel of the wait runs out
unfoldable pub ring_write : ℕ → ℕ → Option (List ℕ) → Shm → Ring → Option (Shm × Ring)
unfolding wait_readers write_begin write_end
ring_write limit fuel raw shm ring =
    elim (wait_readers limit fuel 0 (shm.entries shm.write_pos).num_readers ring.stuck_counter) [
      | none ↦ none
      | some (num_readers, stuck) ↦
          some (write_end raw (write_begin shm num_readers), record ring { stuck_counter = stuck })
    ]

module _ {R : Type 0} (set_raw : List ℕ → Option R) where
  -- The result of `lnf_ring_read` without blocking: `none` for LNF_EOF, `some none` when the record
  -- cannot be set from the data.
  unfoldable pub ring_read : Shm → Ring → Option (Option R) × Shm × Ring
  unfolding read_begin read_end
  ring_read shm ring = elim (read_begin shm ring) [
    | none ↦ (none, shm, ring)
    | some held ↦ elim (set_raw (held.entries ring.read_pos).raw) [
      | none ↦ (some none, (read_end false held ring).0, (read_end false held ring).1)
      | some rec ↦ (some (some rec), (read_end true held ring).0, (read_end true held ring).1)
    ]
  ]
