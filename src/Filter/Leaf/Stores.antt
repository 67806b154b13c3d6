-- ===== src/Filter/Leaf/Stores.antt =====
-- src/ffilter/ffilter.c: how many bytes the conversions store, and that validation drops none.
use libnf.Base.{
  ℕ, zero, suc, ◌*◌, ◌%◌, ◌^◌, ◌≤◌, ◌≡◌, refl, inl, inr, Bool, true, false, List, ◌++◌, Option,
  none, some, length, take, drop, arith, Option-cases, length-append, length-take, length-drop,
}
use libnf.Base.Int.{ℤ}
use libnf.Base.Bytes.{store, length-store}
use libnf.Filter.Types.{FfType, FfOper}
use libnf.Filter.Attr.{FfLvalue, set_mpls_label}
use libnf.Filter.Validate.{
  ff_validate, validate_eq, validate_gt, validate_lt, validate_is, validate_mpls_eq,
  validate_mpls_gt, validate_mpls_lt, validate_mpls_is,
}
use libnf.Filter.Literal.{Cast, stored, Scan, Read, uint_size, store_uint, ff_strtoull, str_to_uint}
use libnf.Filter.Literal.Signed.{finish, ff_strtoll, str_to_int, str_to_int64, str_to_real, pattern}
use libnf.Filter.Address.{str_to_addr, str_to_mac, mac_octets, octet_end, str_to_timestamp, Pton}
use libnf.Filter.Address.Network.{str_to_addr-IsNet}

-- Writing the label of an MPLS value makes no value shorter, and nothing else is written.
label-le : (v : List ℕ) (n : ℕ) → length v ≤ length (set_mpls_label v n)
label-le v n = omega (
  arith,
  length-append (take 4 v ++ store 4 n) (drop 8 v),
  length-append (take 4 v) (store 4 n),
  length-store 4 n,
  length-take 4 v,
  length-drop 8 v,
)

mpls_eq-le : (v : List ℕ) (i : FfLvalue) → length v ≤ length (validate_mpls_eq v i).1
unfolding validate_mpls_eq
mpls_eq-le v i = ground (arith, label-le v i.n)

mpls_gt-le : (v : List ℕ) (i : FfLvalue) → length v ≤ length (validate_mpls_gt v i).1
unfolding validate_mpls_gt
mpls_gt-le v i = ground (arith, label-le v i.n)

mpls_lt-le : (v : List ℕ) (i : FfLvalue) → length v ≤ length (validate_mpls_lt v i).1
unfolding validate_mpls_lt
mpls_lt-le v i = ground (arith, label-le v i.n)

mpls_is-le : (v : List ℕ) (i : FfLvalue) → length v ≤ length (validate_mpls_is v i).1
unfolding validate_mpls_is
mpls_is-le v i = ground (arith, label-le v i.n)

pub ff_validate-le :
    (t : FfType) (o : FfOper) (v : List ℕ) (i : FfLvalue)
    → length v ≤ length (ff_validate t o v i).1
unfolding ff_validate
ff_validate-le FfType.mpls FfOper.eq v i = unfold validate_eq in mpls_eq-le v i
ff_validate-le FfType.mpls FfOper.gt v i = unfold validate_gt in mpls_gt-le v i
ff_validate-le FfType.mpls FfOper.lt v i = unfold validate_lt in mpls_lt-le v i
ff_validate-le FfType.mpls FfOper.isset v i = unfold validate_is in mpls_is-le v i
ff_validate-le _ FfOper.eq v i = unfold validate_eq in omega arith
ff_validate-le _ FfOper.gt v i = unfold validate_gt in omega arith
ff_validate-le _ FfOper.lt v i = unfold validate_lt in omega arith
ff_validate-le _ FfOper.isset v i = unfold validate_is in omega arith
ff_validate-le t _ v i = omega arith

-- a conversion that stores at least `n` bytes
abbrev pub Stores : ℕ → Cast → Type 0
Stores n c = (bs : List ℕ) → c ≡ stored bs → n ≤ length bs

pub str_to_uint-Stores :
    (strtoull : List ℕ → Scan ℕ) (alloc : Bool) (str : List ℕ) (type : FfType) (n : ℕ)
    → uint_size type ≡ some n
    → Stores n (str_to_uint strtoull alloc str type)
unfolding str_to_uint
str_to_uint-Stores strtoull alloc str type n e bs h =
    let size : Read ℕ → Cast = λ r. store_uint alloc r.value type n in
    ground (arith, length-store n (ff_strtoull strtoull str).value)

pub str_to_int64-Stores :
    (strtoll : List ℕ → Scan ℤ) (alloc : Bool) (str : List ℕ)
    → Stores 8 (str_to_int64 strtoll alloc str)
unfolding str_to_int64 str_to_int
str_to_int64-Stores strtoll alloc str bs h = from (ff_strtoll strtoll str) refl
  where
    from : (r : Option (Read ℤ)) → ff_strtoll strtoll str ≡ r → 8 ≤ length bs
    from none e = cc (rw e at h)
    from (some r) e =
        let done : finish alloc FfType.int64 (some r) ≡ stored bs = rw e at h in
        ground (arith, length-store 8 (pattern 64 r.value))

pub str_to_real-Stores :
    (strtod : List ℕ → Scan ℕ) (huge : ℕ → Bool) (alloc : Bool) (str : List ℕ)
    → Stores 8 (str_to_real strtod huge alloc str)
unfolding str_to_real
str_to_real-Stores strtod huge alloc str bs h = ground (arith, length-store 8 (strtod str).value)

pub str_to_timestamp-Stores :
    {T : Type 0} (strptime : List ℕ → Option (T × List ℕ)) (mktime : T → ℕ) (alloc : Bool)
    (str : List ℕ)
    → Stores 8 (str_to_timestamp strptime mktime alloc str)
unfolding str_to_timestamp
str_to_timestamp-Stores strptime mktime alloc str bs h = elim (Option-cases (strptime str)) [
  | inl e ↦ cc (rw (e, str_to_timestamp) at h)
  | inr ((tm, left), e) ↦
      let read = rw (e, str_to_timestamp) at h in
      ground (arith, length-store 8 (mktime tm * 1000 % 2 ^ 64))
]

length-mac_octets :
    (strtoul : List ℕ → ℕ × ℕ) (rounds : ℕ) (text octets : List ℕ)
    → mac_octets strtoul rounds text ≡ some octets
    → length octets ≡ suc rounds
unfolding mac_octets
length-mac_octets strtoul zero text octets h = ground arith
length-mac_octets strtoul (suc rounds) text octets h =
    let end = octet_end strtoul text in
    elim (Option-cases (mac_octets strtoul rounds end)) [
      | inl e ↦ ground arith
      | inr (more, e) ↦ ground (arith, length-mac_octets strtoul rounds end more e)
    ]

pub str_to_mac-Stores :
    (strtoul : List ℕ → ℕ × ℕ) (alloc : Bool) (str : List ℕ)
    → Stores 6 (str_to_mac strtoul alloc str)
unfolding str_to_mac
str_to_mac-Stores strtoul alloc str bs h = elim (Option-cases (mac_octets strtoul 5 str)) [
  | inl e ↦ ground arith
  | inr (octets, e) ↦ ground (arith, length-mac_octets strtoul 5 str octets e)
]

pub str_to_addr-Stores :
    (strtoul : List ℕ → ℕ × ℕ) (pton : Pton) (alloc alloc_ip : Bool) (str : List ℕ)
    → Stores 36 (str_to_addr strtoul pton alloc alloc_ip str)
str_to_addr-Stores strtoul pton false alloc_ip str bs h = unfold str_to_addr in cc h
str_to_addr-Stores strtoul pton true alloc_ip str bs h =
    let net = str_to_addr-IsNet strtoul pton alloc_ip str bs h in
    rw net.parts (
      omega (
        arith,
        length-append net.ip (net.mask ++ store 4 net.ver),
        length-append net.mask (store 4 net.ver),
        length-store 4 net.ver,
        net.sizes,
      ))
