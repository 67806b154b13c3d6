-- ===== src/Filter/Leaf/Typed.antt =====
-- src/ffilter/ffilter.c: the leaves that are made hold their value: the `vsize` bytes of every node
-- are bytes that were written.
use libnf.Base.{
  ℕ, ◌≤◌, ◌≡◌, refl, sym, inl, inr, Bool, true, false, List, [], ◌∷◌, ◌++◌, Option, none, some,
  length, replicate, arith, Bool-cases, Option-cases, length-append,
}
use libnf.Filter.Types.{FfType}
use libnf.Filter.Attr.{FfLvalue}
use libnf.Filter.Validate.{ff_validate}
use libnf.Filter.Literal.{Cast, stored, failed, undefined, str_to_uint64}
use libnf.Filter.Node.{NodeFields}
use libnf.Filter.Leaf.{
  Env, Made, made, error, wild, set_value, or_message, or_label, map_literal, or_literal, cast_as,
  ff_type_cast, cast_unsigned, cast_signed, cast_time, cast_string, checked, is_err,
  ff_type_validate,
}
use libnf.Filter.Leaf.Stores.{
  Stores, ff_validate-le, str_to_uint-Stores, str_to_int64-Stores, str_to_real-Stores,
  str_to_timestamp-Stores, str_to_mac-Stores, str_to_addr-Stores,
}

-- the bytes of the value are there
abbrev pub Holds : NodeFields → Type 0
Holds f = f.vsize ≤ length f.value

-- what is documented of ff_rval_map_func: the size that it gives is the size of what it wrote
abbrev pub IsMap : Option (List ℕ → FfType → ℕ → Option (List ℕ × ℕ)) → Type 0
IsMap none = Unit
IsMap (some func) =
    (str : List ℕ) (type : FfType) (field : ℕ) (value : List ℕ) (vsize : ℕ)
    → func str type field ≡ some (value, vsize)
    → vsize ≤ length value

or_message-Holds :
    (f g : NodeFields) (n : ℕ) (c : Cast) → Stores n c → or_message f n c ≡ made g → Holds g
or_message-Holds f g n (stored bs) s h =
    let e : set_value f bs n ≡ g = cc h in rw (sym e) (s bs refl)
or_message-Holds f g n failed s h = cc h
or_message-Holds f g n undefined s h = cc h

or_label-Holds :
    (f g : NodeFields) (a : Bool) (c : Cast) → Stores 4 c → or_label f a c ≡ made g → Holds g
or_label-Holds f g true (stored bs) s h =
    let e : set_value f (bs ++ replicate 4 0) 8 ≡ g = cc h in
    rw (sym e) (omega (arith, s bs refl, length-append bs (replicate 4 0)))
or_label-Holds f g false (stored bs) s h = cc h
or_label-Holds f g a failed s h = cc h
or_label-Holds f g a undefined s h = cc h

-- The only result that carries an item is the one that was made.
pub of_made :
    {A B : Type 0} (m : Made A) (k : A → Made B) (b : B)
    → (elim m [ made a ↦ k a | error e ↦ error e | wild ↦ wild ]) ≡ made b
    → (a : A) × (m ≡ made a) × (k a ≡ made b)
of_made (made a) k b h = (a, refl, h)
of_made (error e) k b h = cc h
of_made wild k b h = cc h

module _ {T : Type 0} (env : Env T) (map_sizes : IsMap env.rval_map) (alloc alloc_2 : Bool) where
  map_literal-Holds :
      (f g : NodeFields) (str : List ℕ) → map_literal env alloc alloc_2 f str ≡ made g → Holds g
  map_literal-Holds f g str h = from env.rval_map refl map_sizes
    where
      from :
          (m : Option (List ℕ → FfType → ℕ → Option (List ℕ × ℕ)))
          → env.rval_map ≡ m
          → IsMap m
          → Holds g
      from none e sizes = cc (rw e at h)
      from (some func) e sizes = elim (Option-cases (func str f.type f.field)) [
        | inl q ↦ cc (rw (e, q) at h)
        | inr ((value, vsize), q) ↦
            let same : set_value f value vsize ≡ g = cc (rw (e, q) at h) in
            rw (sym same) (sizes str f.type f.field value vsize q)
      ]

  or_literal-Holds :
      (f g : NodeFields) (str : List ℕ) (c : Cast)
      → Stores 8 c
      → or_literal env alloc alloc_2 f str c ≡ made g
      → Holds g
  or_literal-Holds f g str (stored bs) s h =
      let e : set_value f bs 8 ≡ g = cc h in rw (sym e) (s bs refl)
  or_literal-Holds f g str failed s h = elim (Bool-cases alloc_2) [
    | inl a ↦ map_literal-Holds f g str (rw a at h)
    | inr a ↦ cc (rw a at h)
  ]
  or_literal-Holds f g str undefined s h = cc h

  unsigned-Holds :
      (f g : NodeFields) (str : List ℕ) → cast_unsigned env alloc alloc_2 f str ≡ made g → Holds g
  unfolding str_to_uint64
  unsigned-Holds f g str h =
      or_literal-Holds f g str _ (str_to_uint-Stores env.strtoull alloc str FfType.uint64 8 refl) h

  signed-Holds :
      (f g : NodeFields) (str : List ℕ) → cast_signed env alloc alloc_2 f str ≡ made g → Holds g
  signed-Holds f g str h = or_message-Holds f g 8 _ (str_to_int64-Stores env.strtoll alloc str) h

  time-Holds :
      (f g : NodeFields) (str : List ℕ) → cast_time env alloc alloc_2 f str ≡ made g → Holds g
  time-Holds f g str h =
      or_message-Holds f g 8 _ (str_to_timestamp-Stores env.strptime env.mktime alloc str) h

  string-Holds :
      (f g : NodeFields) (str : List ℕ) → cast_string env alloc alloc_2 f str ≡ made g → Holds g
  string-Holds f g str h = elim (Bool-cases alloc) [
    | inl a ↦
        let same : set_value f (str ++ (0 ∷ [])) (length str) ≡ g = cc (rw a at h) in
        rw (sym same) (omega (arith, length-append str (0 ∷ [])))
    | inr a ↦ cc (rw a at h)
  ]

  cast_as-Holds :
      (t : FfType) (f g : NodeFields) (str : List ℕ)
      → cast_as env alloc alloc_2 t f str ≡ made g
      → Holds g
  unfolding cast_as
  cast_as-Holds FfType.mpls f g str h =
      or_label-Holds f g alloc_2 _ (str_to_uint-Stores env.strtoull alloc str FfType.uint32 4 refl)
        h
  cast_as-Holds FfType.double f g str h =
      or_message-Holds f g 8 _ (str_to_real-Stores env.strtod env.huge alloc str) h
  cast_as-Holds FfType.addr f g str h =
      or_message-Holds f g 36 _ (str_to_addr-Stores env.strtoul_10 env.pton alloc alloc_2 str) h
  cast_as-Holds FfType.mac f g str h =
      or_message-Holds f g 6 _ (str_to_mac-Stores env.strtoul_16 alloc str) h
  cast_as-Holds FfType.string f g str h = string-Holds f g str h
  cast_as-Holds FfType.uint64 f g str h = unsigned-Holds f g str h
  cast_as-Holds FfType.uint32 f g str h = unsigned-Holds f g str h
  cast_as-Holds FfType.uint16 f g str h = unsigned-Holds f g str h
  cast_as-Holds FfType.uint8 f g str h = unsigned-Holds f g str h
  cast_as-Holds FfType.unsigned_big f g str h = unsigned-Holds f g str h
  cast_as-Holds FfType.unsigned f g str h = unsigned-Holds f g str h
  cast_as-Holds FfType.int64 f g str h = signed-Holds f g str h
  cast_as-Holds FfType.int32 f g str h = signed-Holds f g str h
  cast_as-Holds FfType.int16 f g str h = signed-Holds f g str h
  cast_as-Holds FfType.int8 f g str h = signed-Holds f g str h
  cast_as-Holds FfType.signed_big f g str h = signed-Holds f g str h
  cast_as-Holds FfType.signed f g str h = signed-Holds f g str h
  cast_as-Holds FfType.timestamp_big f g str h = time-Holds f g str h
  cast_as-Holds FfType.timestamp f g str h = time-Holds f g str h
  cast_as-Holds FfType.unsupported f g str h = cc h
  cast_as-Holds FfType.term f g str h = cc h

  pub ff_type_validate-Holds :
      (f g : NodeFields) (str : List ℕ) (info : FfLvalue)
      → ff_type_validate env alloc alloc_2 str f info ≡ made g
      → Holds g
  unfolding ff_type_validate ff_type_cast
  ff_type_validate-Holds f g str info h =
      let check : NodeFields → Made NodeFields =
        λ a. checked env alloc alloc_2 a info (ff_validate a.type a.oper a.value info) in
      let (a, e, c) = of_made (ff_type_cast env alloc alloc_2 str f) check g h in
      let bytes = cast_as-Holds f.type f a str (unfold ff_type_cast in e) in
      let kept = ff_validate-le a.type a.oper a.value info in
      elim (Bool-cases (is_err (ff_validate a.type a.oper a.value info).0)) [
        | inl bad ↦ cc (rw bad at c)
        | inr good ↦
            let same : (record a {
              value = (ff_validate a.type a.oper a.value info).1;
              type = info.type;
              opcode = (ff_validate a.type a.oper a.value info).0;
            })
                ≡ g =
              cc (rw good at c) in
            rw (sym same) (omega arith)
      ]
