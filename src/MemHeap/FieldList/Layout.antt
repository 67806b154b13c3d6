-- ===== src/MemHeap/FieldList/Layout.antt =====
-- src/memheap.c: the offsets of the fields of a row.
use libnf.Base.{
  Bool, ℕ, ◌+◌, ◌≤◌, ◌≡◌, refl, ap, ◌≢◌, ◌⊎◌, true, false, List, [], ◌∷◌, ◌++◌, none, some, arith,
  ◌==◌, All, Bool-cases, inl, inr,
}
use libnf.MemHeap.FieldList.{
  Field, end_of, next_offset, update, update_in, is_full, add_or_upd, lookup_field,
}

-- The fields follow each other without a gap from an offset on.
abbrev pub IsLaid : ℕ → List Field → Type 0
IsLaid start [] = Unit
IsLaid start (f ∷ l) = (f.offset ≡ start) × IsLaid (start + f.size) l

abbrev pub width : List Field → ℕ
width [] = 0
width (f ∷ l) = f.size + width l

end_of-IsLaid :
    (start : ℕ) (f : Field) (l : List Field)
    → IsLaid start (f ∷ l)
    → end_of (f ∷ l) ≡ start + width (f ∷ l)
unfolding end_of
end_of-IsLaid start f [] h = let o = h.0 in omega arith
end_of-IsLaid start f (g ∷ l) h = omega (arith, end_of-IsLaid (start + f.size) g l h.1)

next_offset-IsLaid : (l : List Field) → IsLaid 0 l → next_offset l ≡ width l
unfolding next_offset
next_offset-IsLaid [] h = refl
next_offset-IsLaid (f ∷ []) h = omega arith
next_offset-IsLaid (f ∷ g ∷ l) h = omega (arith, end_of-IsLaid (0 + f.size) g l h.1)

IsLaid-append :
    (start : ℕ) (l : List Field) (f : Field)
    → IsLaid start l
    → f.offset ≡ start + width l
    → IsLaid start (l ++ f ∷ [])
IsLaid-append start [] f h e = (omega arith, tt)
IsLaid-append start (g ∷ l) f h e = (h.0, IsLaid-append (start + g.size) l f h.1 (omega arith))

width-append : (l : List Field) (f : Field) → width (l ++ f ∷ []) ≡ width l + f.size
width-append [] f = omega arith
width-append (g ∷ l) f = omega (arith, width-append l f)

-- What adding or updating a field leaves: the layout, and the field where the offset says.
pub record Places (start : ℕ) (snode : Field) (list' : List Field) (offset : ℕ) : Type 0 where
  pub laid : IsLaid start list'
  pub placed : Field
  pub found : lookup_field list' snode.field ≡ some placed
  pub here : placed.offset ≡ offset
  pub combines : placed.aggr_func ≡ snode.aggr_func
  pub fits : offset + placed.size ≤ start + width list'

record Updated (start : ℕ) (l : List Field) (snode : Field) : Type 0 where
  list' : List Field
  offset : ℕ
  done : update_in l snode ≡ some (list', offset)
  places : Places start snode list' offset
  filled : list' ≢ []

Lacks : ℕ → List Field → Type 0
Lacks field l = All (λ f. (f.field == field) ≡ false) l

update_in-cases :
    (start : ℕ) (l : List Field) (snode : Field)
    → IsLaid start l
    → ((update_in l snode ≡ none) × Lacks snode.field l) ⊎ Updated start l snode
unfolding update_in lookup_field Lacks
update_in-cases start [] snode h = inl (refl, tt)
update_in-cases start (f ∷ l) snode h = elim (Bool-cases (f.field == snode.field)) [
  | inl same ↦ inr (record {
    list' = update f snode ∷ l;
    offset = f.offset;
    done = rw same;
    places = record {
      laid = h;
      placed = update f snode;
      found = rw same;
      here = refl;
      combines = refl;
      fits = let o = h.0 in omega arith;
    };
    filled = λ e. cc;
  })
  | inr other ↦ elim (update_in-cases (start + f.size) l snode h.1) [
    | inl missing ↦ inl (rw (other, missing.0), (other, missing.1))
    | inr u ↦
        let p = u.places in
        inr (record {
          list' = f ∷ u.list';
          offset = u.offset;
          done = rw (other, u.done);
          places = record {
            laid = (h.0, p.laid);
            placed = p.placed;
            found = rw (other, p.found);
            here = p.here;
            combines = p.combines;
            fits = omega (arith, p.fits);
          };
          filled = λ e. cc;
        })
  ]
]

lookup_field-append :
    (l : List Field) (node : Field)
    → Lacks node.field l
    → lookup_field (l ++ node ∷ []) node.field ≡ some node
unfolding Lacks lookup_field
lookup_field-append [] node h = ground arith
lookup_field-append (f ∷ l) node h = rw (h.0, lookup_field-append l node h.1)

end_of-width : (l : List Field) → l ≢ [] → IsLaid 0 l → end_of l ≡ width l
end_of-width [] h laid = absurd (h refl)
end_of-width (f ∷ l) h laid = omega (arith, end_of-IsLaid 0 f l laid)

-- With memory left and room for the field: the fields of a list that are laid out from 0 without a
-- gap stay so when a field is added or updated, the size returned is the sum of their sizes, and
-- the offset returned is where the field stands, with its new aggregation function.
pub add_or_upd-Places :
    (list : List Field) (snode : Field) (maxsize : ℕ)
    → IsLaid 0 list
    → is_full list snode maxsize ≡ false
    → (list' : List Field) × (offset : ℕ) × (add_or_upd true list snode maxsize
        ≡ some (list', width list', offset))
      × Places 0 snode list' offset
unfolding add_or_upd
add_or_upd-Places list snode maxsize h room = elim (update_in-cases 0 list snode h) [
  | inr u ↦ (
    u.list',
    u.offset,
    rw (u.done, add_or_upd) (rw (end_of-width u.list' u.filled u.places.laid)),
    u.places,
  )
  | inl missing ↦
      let node : Field = record snode { offset = next_offset list } in
      let o = next_offset-IsLaid list h in
      let w = width-append list node in
      (
        list ++ node ∷ [],
        next_offset list,
        rw (missing.0, add_or_upd, room)
            (ap (λ s. some (list ++ node ∷ [], s, next_offset list)) (omega arith)),
        record {
          laid = IsLaid-append 0 list node h (omega arith);
          placed = node;
          found = lookup_field-append list node missing.1;
          here = refl;
          combines = refl;
          fits = omega arith;
        },
      )
]

-- Adding or updating fails, or keeps the layout and returns the sum of the sizes.
pub add_or_upd-cases :
    (alloc : Bool) (list : List Field) (snode : Field) (maxsize : ℕ)
    → IsLaid 0 list
    → (add_or_upd alloc list snode maxsize ≡ none)
      ⊎ ((list' : List Field) × (offset : ℕ) × (add_or_upd alloc list snode maxsize
            ≡ some (list', width list', offset))
          × IsLaid 0 list')
unfolding add_or_upd
add_or_upd-cases alloc list snode maxsize h = elim (update_in-cases 0 list snode h) [
  | inr u ↦ inr (
    u.list',
    u.offset,
    rw (u.done, add_or_upd) (rw (end_of-width u.list' u.filled u.places.laid)),
    u.places.laid,
  )
  | inl missing ↦ elim (Bool-cases alloc) [
    | inr failed ↦ inl (rw (missing.0, add_or_upd, failed) refl)
    | inl given ↦ elim (Bool-cases (is_full list snode maxsize)) [
      | inl full ↦ inl (rw (missing.0, add_or_upd, given, full) refl)
      | inr room ↦
          let (list', offset, e, places) = add_or_upd-Places list snode maxsize h room in
          inr (list', offset, rw given e, places.laid)
    ]
  ]
]
