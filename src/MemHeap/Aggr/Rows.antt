-- ===== src/MemHeap/Aggr/Rows.antt =====
-- src/memheap.c: the callback of the hash tables against the aggregation of each field.
use mathlib.Core.Path.{subst}
use libnf.Base.{
  ℕ, zero, suc, ◌+◌, ◌≤◌, ◌≡◌, refl, ap, some, get_elem?, ◌∙◌, List, [], ◌∷◌, arith, drop, All,
}
use libnf.Base.Bytes.{load}
use libnf.MemHeap.FieldList.{Field}
use libnf.MemHeap.FieldList.Layout.{IsLaid}
use libnf.MemHeap.Aggr.{Doubles, patch, aggr_bytes, aggr_callback}
use libnf.MemHeap.Aggr.Fields.{
  drop-patch, load-patch_before, drop-patch_after, combine, Fits, load-aggr_bytes,
  length-aggr_bytes,
}

abbrev pub AllFit : List Field → Type 0
AllFit l = All (λ f. Fits f.aggr_func f.size) l

-- the value of a field in a row
abbrev pub field_value : Field → List ℕ → ℕ
field_value f row = load f.size (drop f.offset row)

start-get_elem? :
    (start : ℕ) (l : List Field) (i : ℕ) (f : Field)
    → IsLaid start l
    → get_elem? l i ≡ some f
    → start ≤ f.offset
start-get_elem? start [] i f h e = cc
start-get_elem? start (g ∷ l) zero f h e =
    let this : g ≡ f = cc in subst (λ x. start ≤ x.offset) this (let o = h.0 in omega arith)
start-get_elem? start (g ∷ l) (suc i) f h e =
    omega (arith, start-get_elem? (start + g.size) l i f h.1 e)

module _ (doubles : Doubles) where
  abbrev written : Field → List ℕ → List ℕ → List ℕ
  written f hval uval = aggr_bytes doubles f.aggr_func (drop f.offset hval) (drop f.offset uval)

  -- What stands before the fields of a list is left alone.
  aggr_callback-before :
      (start : ℕ) (l : List Field) (i n : ℕ) (hval uval : List ℕ)
      → IsLaid start l
      → i + n ≤ start
      → load n (drop i (aggr_callback doubles l hval uval)) ≡ load n (drop i hval)
  unfolding aggr_callback
  aggr_callback-before start [] i n hval uval h le = refl
  aggr_callback-before start (f ∷ l) i n hval uval h le =
      aggr_callback-before (start + f.size) l i n (patch f.offset (written f hval uval) hval) uval
        h.1 (omega arith)
      ∙ load-patch_before f.offset i n (written f hval uval) hval (let o = h.0 in omega arith)

  -- The value of a field whose function fits its size is the aggregate of its two values, whatever
  -- the other fields of a row laid out without a gap are.
  pub aggr_callback-field :
      (start : ℕ) (l : List Field) (i : ℕ) (f : Field) (hval uval : List ℕ)
      → IsLaid start l
      → AllFit l
      → get_elem? l i ≡ some f
      → field_value f (aggr_callback doubles l hval uval)
        ≡ combine doubles f.aggr_func (field_value f hval) (field_value f uval)
  unfolding aggr_callback
  aggr_callback-field start [] i f hval uval h fit e = cc
  aggr_callback-field start (g ∷ l) zero f hval uval h fit e =
      let here : field_value g (aggr_callback doubles (g ∷ l) hval uval)
          ≡ combine doubles g.aggr_func (field_value g hval) (field_value g uval) =
        aggr_callback-before (start + g.size) l g.offset g.size
          (patch g.offset (written g hval uval) hval) uval h.1 (let o = h.0 in omega arith)
        ∙ ap (load g.size) (drop-patch g.offset (written g hval uval) hval)
        ∙ load-aggr_bytes doubles g.aggr_func g.size (drop g.offset hval) (drop g.offset uval)
            fit.0 in
      let this : g ≡ f = cc in
      subst
        (λ x.
          field_value x (aggr_callback doubles (g ∷ l) hval uval)
          ≡ combine doubles x.aggr_func (field_value x hval) (field_value x uval))
        this here
  aggr_callback-field start (g ∷ l) (suc i) f hval uval h fit e =
      let row = patch g.offset (written g hval uval) hval in
      let after = start-get_elem? (start + g.size) l i f h.1 e in
      let short =
        length-aggr_bytes doubles g.aggr_func g.size (drop g.offset hval) (drop g.offset uval)
          fit.0 in
      let same : field_value f row ≡ field_value f hval = ap (load f.size) (
        drop-patch_after g.offset f.offset (written g hval uval) hval
          (let o = h.0 in omega arith)) in
      aggr_callback-field (start + g.size) l i f row uval h.1 fit.1 e
      ∙ ap (λ v. combine doubles f.aggr_func v (field_value f uval)) same
