-- ===== src/Record/Raw/Bounds.antt =====
-- src/libnf.c: the room that lnf_rec_get_raw takes, and that lnf_rec_set_raw ends on every text.
use libnf.Base.{
  ℕ, zero, suc, ◌+◌, ◌*◌, ◌≤◌, ◌<◌, ◌≡◌, refl, sym, ap, List, [], ◌∷◌, ◌++◌, Option, none, some,
  ltb, leb, ◌==◌, length, drop, arith, ◌⊎◌, inl, inr, Bool-cases, Option-cases, length-append,
  ltb→lt, ◌≢◌,
}
use libnf.Base.Bytes.{byte, load, store, bytes, length-bytes, length-store}
use libnf.Record.Raw.Entries.{length-entry}
use libnf.Record.Raw.{
  FldType, net_order, ok, entry, raw_entries, lnf_rec_get_raw, set_entries, lnf_rec_set_raw,
  raw_tlv,
}

module _ (fget : ℕ → Option (List ℕ)) (fld_type : ℕ → FldType) (fld_size : ℕ → ℕ) where
  raw_entries-le :
      (size offset count i : ℕ) (es : List ℕ)
      → raw_entries fget fld_type fld_size size offset count i ≡ some es
      → (offset + length es ≤ size) ⊎ (es ≡ [])
  unfolding raw_entries
  raw_entries-le size offset zero i es h = inr (cc h)
  raw_entries-le size offset (suc count) i es h = elim (Option-cases (fget i)) [
    | inl e ↦ raw_entries-le size offset count (suc i) es (rw (e, raw_entries) at h)
    | inr (bs, e) ↦
        let next = offset + 4 + fld_size i in
        let data_ = bytes (fld_size i) (net_order (fld_type i) bs) in
        elim (Bool-cases (ltb size next)) [
          | inl full ↦ cc (rw (e, full, raw_entries) at h)
          | inr room ↦
              elim (Option-cases (raw_entries fget fld_type fld_size size next count (suc i))) [
                | inl q ↦ cc (rw (e, room, q, raw_entries) at h)
                | inr (more, q) ↦
                    let same : entry i data_ ++ more ≡ es =
                      cc (rw (e, room, q, raw_entries) at h) in
                    let size_of = length-bytes (fld_size i) (net_order (fld_type i) bs) in
                    let long = length-entry i data_ more in
                    rw (sym same) (elim (raw_entries-le size next count (suc i) more q) [
                      | inl fits ↦ inl (omega arith)
                      | inr nothing ↦
                          let alone : length more ≡ 0 = ap length nothing in
                          let enough : next ≤ size = ground arith in inl (omega arith)
                    ])
              ]
        ]
  ]

  -- A text that lnf_rec_get_raw returns fits the buffer, or is the head without an entry, for
  -- which the room is not looked at.
  pub length-lnf_rec_get_raw :
      (term type pad size : ℕ) (buf : List ℕ)
      → lnf_rec_get_raw fget fld_type fld_size term type pad size ≡ ok buf
      → (length buf ≤ size) ⊎ (length buf ≡ 4)
  unfolding lnf_rec_get_raw
  length-lnf_rec_get_raw term type pad size buf h = elim (Bool-cases (type == raw_tlv)) [
    | inr other ↦ cc (rw (other, lnf_rec_get_raw) at h)
    | inl tlv ↦ elim (Option-cases (raw_entries fget fld_type fld_size size 4 term 0)) [
      | inl e ↦ cc (rw (tlv, e, lnf_rec_get_raw) at h)
      | inr (es, e) ↦
          let same : raw_tlv ∷ pad ∷ (store 2 (length es) ++ es) ≡ buf =
            cc (rw (tlv, e, lnf_rec_get_raw) at h) in
          let long = length-append (store 2 (length es)) es in
          let two = length-store 2 (length es) in
          rw (sym same) (elim (raw_entries-le size 4 term 0 es e) [
            | inl fits ↦ inl (omega arith)
            | inr nothing ↦ inr (rw nothing (unfold store in refl))
          ])
    ]
  ]

module _ {R : Type 0} (fset : R → ℕ → List ℕ → R) (clear : R → R) (fld_type : ℕ → FldType) where
  set_entries-some :
      (fuel size offset : ℕ) (left : List ℕ) (rec : R)
      → 0 < fuel
      → size + 4 ≤ offset + 4 * fuel
      → set_entries fset clear fld_type fuel size offset left rec ≢ none
  unfolding set_entries
  set_entries-some zero size offset left rec some_fuel h = absurd (omega arith)
  set_entries-some (suc fuel) size offset left rec some_fuel h =
      let data_size = load 2 (drop 2 left) in
      let field = load 2 left in
      let bs = net_order (fld_type field) (bytes data_size (drop 4 left)) in
      elim (Bool-cases (ltb offset size)) [
        | inr done ↦ rw done (λ q. cc q)
        | inl more ↦ elim (Bool-cases (leb 512 data_size)) [
          | inl long ↦ rw (more, long) (λ q. cc q)
          | inr short ↦
              let further : offset < size = ltb→lt _ _ more in
              rw (more, short)
                (set_entries-some fuel size (offset + 4 + data_size) (drop (4 + data_size) left)
                  (fset rec field bs) (omega arith) (omega arith))
        ]
      ]

  -- The loop of lnf_rec_set_raw ends on every text, also one that no lnf_rec_get_raw wrote: the
  -- fuel that the definition gives it is enough, and there is a result.
  pub lnf_rec_set_raw-some :
      (rec : R) (buf : List ℕ) (size : ℕ) → lnf_rec_set_raw fset clear fld_type rec buf size ≢ none
  unfolding lnf_rec_set_raw
  lnf_rec_set_raw-some rec buf size =
      let n = load 2 (drop 2 buf) in
      elim (Bool-cases (ltb size 4)) [
        | inl e ↦ rw e (λ q. cc q)
        | inr e ↦ elim (Bool-cases (byte buf == 1)) [
          | inr v ↦ rw (e, v) (λ q. cc q)
          | inl v ↦ elim (Bool-cases (ltb size (n + 4))) [
            | inl w ↦ rw (e, v, w) (λ q. cc q)
            | inr w ↦
                rw (e, v, w)
                  (set_entries-some (suc n) n 4 (drop 4 buf) (clear rec) (omega arith)
                    (omega arith))
          ]
        ]
      ]
