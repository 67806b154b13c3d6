-- ===== src/Record/Raw/Entries.antt =====
-- src/libnf.c: the entries of a TLV text, and how the loop of lnf_rec_set_raw takes them.
use libnf.Base.{
  ℕ, zero, suc, ◌+◌, ◌^◌, ◌<◌, ◌≡◌, refl, ap, List, [], ◌∷◌, ◌++◌, some, length, drop, arith,
  length-append, All,
}
use mathlib.Core.List.{append_assoc}
use libnf.Base.Bytes.{load, store, bytes}
use libnf.Record.Raw.{FldType, net_order, ok, entry, set_entries}

-- A field as it is written: its number and its data in network order.
abbrev pub Entries : Type 0
Entries = List (ℕ × List ℕ)

abbrev pub written : Entries → List ℕ
written [] = []
written ((field, bs) ∷ es) = entry field bs ++ written es

pub bytes-append : (bs more : List ℕ) → bytes (length bs) (bs ++ more) ≡ bs
unfolding bytes
bytes-append [] more = refl
bytes-append (b ∷ bs) more = ap (λ r. b ∷ r) (bytes-append bs more)

drop-append_length : (bs more : List ℕ) → drop (length bs) (bs ++ more) ≡ more
drop-append_length [] more = refl
drop-append_length (b ∷ bs) more = drop-append_length bs more

pub load-store_two : (v : ℕ) (more : List ℕ) → v < 2 ^ 16 → load 2 (store 2 v ++ more) ≡ v
unfolding load store
load-store_two v more h = omega arith

-- The four numbers that the loop takes from the start of an entry.
field-entry :
    (field : ℕ) (bs more : List ℕ) → field < 2 ^ 16 → load 2 (entry field bs ++ more) ≡ field
unfolding load store
field-entry field bs more h = omega arith

size-entry :
    (field : ℕ) (bs more : List ℕ)
    → length bs < 512
    → load 2 (drop 2 (entry field bs ++ more)) ≡ length bs
unfolding load store
size-entry field bs more h = omega arith

drop_four-entry : (field : ℕ) (bs more : List ℕ) → drop 4 (entry field bs ++ more) ≡ bs ++ more
unfolding store
drop_four-entry field bs more = refl

drop_all-entry :
    (field : ℕ) (bs more : List ℕ) → drop (4 + length bs) (entry field bs ++ more) ≡ more
unfolding store
drop_all-entry field bs more =
    let steps : 4 + length bs ≡ suc (suc (suc (suc (length bs)))) = omega arith in
    rw steps (drop-append_length bs more)

pub length-entry :
    (field : ℕ) (bs more : List ℕ) → length (entry field bs ++ more) ≡ 4 + length bs + length more
unfolding store
length-entry field bs more = omega (arith, length-append bs more)

pub drop_length-store : (n : ℕ) (text : List ℕ) → drop 2 (store 2 n ++ text) ≡ text
unfolding store
drop_length-store n text = refl

module _ {R : Type 0} (fset : R → ℕ → List ℕ → R) (clear : R → R) (fld_type : ℕ → FldType) where
  abbrev pub set_all : Entries → R → R
  set_all [] rec = rec
  set_all ((field, bs) ∷ es) rec = set_all es (fset rec field (net_order (fld_type field) bs))

  abbrev pub IsEntry : ℕ × List ℕ → Type 0
  IsEntry e = (e.0 < 2 ^ 16) × (0 < length e.1) × (length e.1 < 512)

  pub set_entries-written :
      (es : Entries) (fuel size offset : ℕ) (rec : R) (behind : List ℕ)
      → All IsEntry es
      → offset + length (written es) ≡ 4 + size
      → length (written es) < fuel
      → set_entries fset clear fld_type fuel size offset (written es ++ behind) rec
        ≡ some (ok (set_all es rec))
  unfolding set_entries
  set_entries-written [] zero size offset rec behind h e f = absurd (omega arith)
  set_entries-written [] (suc fuel) size offset rec behind h e f = ground arith
  set_entries-written ((field, bs) ∷ es) zero size offset rec behind h e f = absurd (omega arith)
  set_entries-written ((field, bs) ∷ es) (suc fuel) size offset rec behind h e f =
      let more = written es ++ behind in
      let long = length-entry field bs (written es) in
      let next =
        set_entries-written es fuel size (offset + 4 + length bs)
          (fset rec field (net_order (fld_type field) bs)) behind h.1 (omega arith) (omega arith) in
      rw
        (
          append_assoc (entry field bs) (written es) behind,
          field-entry field bs more h.0.0,
          size-entry field bs more h.0.2,
          drop_all-entry field bs more,
          drop_four-entry field bs more,
          bytes-append bs more,
          next,
        )
        (ground (arith, h.0))
