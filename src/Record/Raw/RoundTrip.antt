-- ===== src/Record/Raw/RoundTrip.antt =====
-- src/libnf.c: what lnf_rec_get_raw writes, lnf_rec_set_raw reads back.
use libnf.Base.{
  ℕ, zero, suc, ◌+◌, ◌^◌, ◌≤◌, ◌<◌, ◌≡◌, refl, sym, ap, ◌∙◌, false, List, [], ◌∷◌, ◌++◌, Option,
  none, some, ltb, length, drop, arith, inl, inr, Bool-cases, Option-cases, All,
}
use mathlib.Core.List.{append-nil}
use libnf.Base.Bytes.{byte, load, store, bytes, length-bytes}
use libnf.Record.Raw.Entries.{
  Entries, written, set_all, IsEntry, set_entries-written, load-store_two, drop_length-store,
}
use libnf.Record.Raw.{
  FldType, net_order, ok, entry, raw_entries, lnf_rec_get_raw, set_entries, lnf_rec_set_raw,
  raw_tlv,
}

-- The size of a field is that of its type.
abbrev pub Fits : FldType → ℕ → Type 0
Fits FldType.fld_uint16 n = n ≡ 2
Fits FldType.fld_uint32 n = n ≡ 4
Fits FldType.fld_uint64 n = n ≡ 8
Fits FldType.fld_other n = Unit

net_order-net_order :
    (t : FldType) (n : ℕ) (bs : List ℕ)
    → Fits t n
    → net_order t (bytes n (net_order t bs)) ≡ bytes n bs
unfolding net_order bytes
net_order-net_order FldType.fld_uint16 n bs h = rw h refl
net_order-net_order FldType.fld_uint32 n bs h = rw h refl
net_order-net_order FldType.fld_uint64 n bs h = rw h refl
net_order-net_order FldType.fld_other n bs h = refl

module _ {R : Type 0} (fset : R → ℕ → List ℕ → R) (clear : R → R) (fld_type : ℕ → FldType)
    (fget : ℕ → Option (List ℕ)) (fld_size : ℕ → ℕ)
    (sizes : (i : ℕ) (bs : List ℕ)
      → fget i ≡ some bs
      → Fits (fld_type i) (fld_size i) × (0 < fld_size i) × (fld_size i < 512)) where
  -- the fields that are set, as they are written
  abbrev present : ℕ → ℕ → Entries
  present zero i = []
  present (suc count) i = elim (fget i) [
    | none ↦ present count (suc i)
    | some bs ↦ (i, bytes (fld_size i) (net_order (fld_type i) bs)) ∷ present count (suc i)
  ]

  -- Sets every field that `fget` gives, with its data.
  abbrev pub copy_fields : ℕ → ℕ → R → R
  copy_fields zero i rec = rec
  copy_fields (suc count) i rec = elim (fget i) [
    | none ↦ copy_fields count (suc i) rec
    | some bs ↦ copy_fields count (suc i) (fset rec i (bytes (fld_size i) bs))
  ]

  raw_entries-present :
      (size offset count i : ℕ) (es : List ℕ)
      → raw_entries fget fld_type fld_size size offset count i ≡ some es
      → es ≡ written (present count i)
  unfolding raw_entries
  raw_entries-present size offset zero i es h = cc h
  raw_entries-present size offset (suc count) i es h = elim (Option-cases (fget i)) [
    | inl e ↦
        rw (e, written)
          (raw_entries-present size offset count (suc i) es (rw (e, raw_entries) at h))
    | inr (bs, e) ↦
        let next = offset + 4 + fld_size i in
        let item = entry i (bytes (fld_size i) (net_order (fld_type i) bs)) in
        elim (Bool-cases (ltb size next)) [
          | inl full ↦ cc (rw (e, full, raw_entries) at h)
          | inr room ↦
              elim (Option-cases (raw_entries fget fld_type fld_size size next count (suc i))) [
                | inl q ↦ cc (rw (e, room, q, raw_entries) at h)
                | inr (more, q) ↦
                    let same : item ++ more ≡ es = cc (rw (e, room, q, raw_entries) at h) in
                    let tail = raw_entries-present size next count (suc i) more q in
                    rw (e, written) (sym same ∙ ap (λ r. item ++ r) tail)
              ]
        ]
  ]

  set_all-present :
      (count i : ℕ) (rec : R)
      → set_all fset clear fld_type (present count i) rec ≡ copy_fields count i rec
  set_all-present zero i rec = refl
  set_all-present (suc count) i rec = elim (Option-cases (fget i)) [
    | inl e ↦ rw (e, set_all, copy_fields) (set_all-present count (suc i) rec)
    | inr (bs, e) ↦
        rw (e, set_all, copy_fields)
          (rw (net_order-net_order (fld_type i) (fld_size i) bs (sizes i bs e).0)
            (set_all-present count (suc i) _))
  ]

  present-IsEntry :
      (count i : ℕ) → i + count ≤ 2 ^ 16 → All (IsEntry fset clear fld_type) (present count i)
  present-IsEntry zero i h = tt
  present-IsEntry (suc count) i h = elim (Option-cases (fget i)) [
    | inl e ↦ rw (e, All) (present-IsEntry count (suc i) (omega arith))
    | inr (bs, e) ↦
        let size = length-bytes (fld_size i) (net_order (fld_type i) bs) in
        let (fits, some_of, short) = sizes i bs e in
        rw (e, All)
          ((omega arith, omega arith, omega arith), present-IsEntry count (suc i) (omega arith))
  ]

  length-text :
      (pad : ℕ) (text buf : List ℕ)
      → raw_tlv ∷ pad ∷ (store 2 (length text) ++ text) ≡ buf
      → length buf ≡ 4 + length text
  unfolding store
  length-text pad text buf same = rw (sym same) (omega arith)

  accepted :
      (rec : R) (buf : List ℕ) (size n : ℕ)
      → byte buf ≡ 1
      → load 2 (drop 2 buf) ≡ n
      → n + 4 ≤ size
      → lnf_rec_set_raw fset clear fld_type rec buf size
        ≡ set_entries fset clear fld_type (suc n) n 4 (drop 4 buf) (clear rec)
  unfolding lnf_rec_set_raw
  accepted rec buf size n version stored room =
      let enough : ltb size 4 ≡ false = ground arith in
      let whole : ltb size (n + 4) ≡ false = ground arith in
      rw (version, stored, enough, whole) refl

  raw_text-set :
      (pad size : ℕ) (es : Entries) (rec : R)
      → All (IsEntry fset clear fld_type) es
      → 4 + length (written es) ≤ size
      → length (written es) < 2 ^ 16
      → lnf_rec_set_raw fset clear fld_type rec
          (raw_tlv ∷ pad ∷ (store 2 (length (written es)) ++ written es))
          size
        ≡ some (ok (set_all fset clear fld_type es (clear rec)))
  raw_text-set pad size es rec h room short =
      let text = written es in
      let n = length text in
      let buf = raw_tlv ∷ pad ∷ (store 2 n ++ text) in
      let behind : drop 4 buf ≡ text ++ [] = drop_length-store n text ∙ sym (append-nil text) in
      accepted rec buf size n refl (load-store_two n text short) (omega arith)
      ∙ rw behind (
          set_entries-written fset clear fld_type es (suc n) n 4 (clear rec) [] h refl
            (omega arith))

  -- A text that lnf_rec_get_raw returned is accepted by lnf_rec_set_raw from a buffer of at least
  -- its size, and sets in the cleared record every field that was set, with its data in host order:
  -- no field is lost or changed. The size of each field that is set is that of its type and from 1
  -- to 511, and the text is below 64 kB.
  pub lnf_rec_set_raw-lnf_rec_get_raw :
      (term pad limit size : ℕ) (buf : List ℕ) (rec : R)
      → term ≤ 2 ^ 16
      → lnf_rec_get_raw fget fld_type fld_size term raw_tlv pad limit ≡ ok buf
      → length buf ≤ size
      → length buf < 2 ^ 16
      → lnf_rec_set_raw fset clear fld_type rec buf size
        ≡ some (ok (copy_fields term 0 (clear rec)))
  unfolding lnf_rec_get_raw lnf_rec_set_raw
  lnf_rec_set_raw-lnf_rec_get_raw term pad limit size buf rec ht h hs hl =
      elim (Option-cases (raw_entries fget fld_type fld_size limit 4 term 0)) [
        | inl e ↦ cc (rw (e, lnf_rec_get_raw) at h)
        | inr (es, e) ↦
            let same : raw_tlv ∷ pad ∷ (store 2 (length es) ++ es) ≡ buf =
              cc (rw (e, lnf_rec_get_raw) at h) in
            let text = raw_entries-present limit 4 term 0 es e in
            let whole = ap (λ t. raw_tlv ∷ pad ∷ (store 2 (length t) ++ t)) (sym text) ∙ same in
            let long = length-text pad (written (present term 0)) buf whole in
            ap (λ b. lnf_rec_set_raw fset clear fld_type rec b size) (sym whole)
            ∙ raw_text-set pad size (present term 0) rec (present-IsEntry term 0 (omega arith))
                (omega arith) (omega arith)
            ∙ ap (λ r. some (ok r)) (set_all-present term 0 (clear rec))
      ]
