-- ===== src/Filter/Address/Network.antt =====
-- src/ffilter/ffilter.c: what str_to_addr stores.
use libnf.Base.{
  ℕ, zero, suc, ◌+◌, ◌%◌, ◌≡◌, refl, sym, ap, ap₂, ◌∙◌, ◌⊎◌, inl, inr, Bool, true, not, ◌&&◌, List,
  [], ◌∷◌, ◌++◌, none, some, leb, ◌==◌, drop, take, length, replicate, arith, Bool-cases,
  Option-cases, length-append,
}
use libnf.Base.Bytes.{byte, bytes, store, length-bytes, store_big}
use libnf.Filter.Literal.{Cast, stored, failed}
use libnf.Filter.Address.{
  and_bytes, net_bytes, IpVersion, is_ipv6, Pton, low_word, read_net, read_mask, read_bits,
  read_behind, overrun, unwrap_ip, split_mask, str_to_addr, int_to_netmask, mask_words,
}
use libnf.Base.Bits.{bit_and-mask}

-- A stored network: the address holds no bit outside the mask, and the version is 4 or 6. For
-- version 4 the first 12 bytes of address and mask are 0.
pub record IsNet (bs : List ℕ) : Type 0 where
  pub ip : List ℕ
  pub mask : List ℕ
  pub ver : ℕ
  pub parts : bs ≡ ip ++ (mask ++ store 4 ver)
  pub sizes : (length ip ≡ 16) × (length mask ≡ 16)
  pub masked : and_bytes ip mask ≡ ip
  pub version :
      (ver ≡ 6) ⊎ ((ver ≡ 4) × (take 12 ip ≡ replicate 12 0) × (take 12 mask ≡ replicate 12 0))

mask-and_bytes : (ip mask : List ℕ) → and_bytes (and_bytes ip mask) mask ≡ and_bytes ip mask
mask-and_bytes [] mask = refl
mask-and_bytes (a ∷ ip) [] = refl
mask-and_bytes (a ∷ ip) (b ∷ mask) =
    ap₂ (λ x xs. x ∷ xs) (bit_and-mask a b) (mask-and_bytes ip mask)

length-and_bytes :
    (ip mask : List ℕ) → length ip ≡ length mask → length (and_bytes ip mask) ≡ length ip
length-and_bytes [] [] e = refl
length-and_bytes [] (b ∷ mask) e = absurd (omega arith)
length-and_bytes (a ∷ ip) [] e = absurd (omega arith)
length-and_bytes (a ∷ ip) (b ∷ mask) e = ap suc (length-and_bytes ip mask (omega arith))

net_bytes-IsNet_six :
    (ip mask : List ℕ) → length ip ≡ 16 → length mask ≡ 16 → IsNet (net_bytes ip mask 6)
unfolding net_bytes
net_bytes-IsNet_six ip mask i m = record {
  ip = and_bytes ip mask;
  mask = mask;
  ver = 6;
  parts = refl;
  sizes = (length-and_bytes ip mask (omega arith) ∙ i, m);
  masked = mask-and_bytes ip mask;
  version = inl refl;
}

length-low_word : (word : List ℕ) → length (low_word word) ≡ 16
length-low_word word = omega (arith, length-bytes 4 word)

net_bytes-IsNet_four : (ip mask : List ℕ) → IsNet (net_bytes (low_word ip) (low_word mask) 4)
unfolding net_bytes
net_bytes-IsNet_four ip mask = record {
  ip = and_bytes (low_word ip) (low_word mask);
  mask = low_word mask;
  ver = 4;
  parts = refl;
  sizes = (
    length-and_bytes (low_word ip) (low_word mask) (length-low_word ip ∙ sym (length-low_word mask))
        ∙ length-low_word ip,
    length-low_word mask,
  );
  masked = mask-and_bytes (low_word ip) (low_word mask);
  version = inr (refl, refl, refl);
}

read_six :
    (pton : Pton) (ip_str mask bs : List ℕ)
    → length mask ≡ 16
    → (elim (pton.inet6 ip_str) as (λ _. Cast) [
      | some ip ↦ stored (net_bytes (bytes 16 ip) mask 6)
      | none ↦ failed
    ])
      ≡ stored bs
    → IsNet bs
read_six pton ip_str mask bs m h = elim (Option-cases (pton.inet6 ip_str)) [
  | inl e ↦ cc (rw e at h)
  | inr (ip, e) ↦
      let same : net_bytes (bytes 16 ip) mask 6 ≡ bs = cc (rw e at h) in
      rw (sym same) (net_bytes-IsNet_six (bytes 16 ip) mask (length-bytes 16 ip) m)
]

read_net-IsNet :
    (pton : Pton) (ip_str : List ℕ) (numbits : ℕ) (ip_ver : IpVersion) (mask bs : List ℕ)
    → length mask ≡ 16
    → read_net pton ip_str numbits ip_ver mask ≡ stored bs
    → IsNet bs
unfolding read_net
read_net-IsNet pton ip_str numbits ip_ver mask bs m h = elim (Option-cases (pton.inet ip_str)) [
  | inl e ↦ read_six pton ip_str mask bs m (rw (e, read_net) at h)
  | inr (ip, e) ↦ elim (Bool-cases (leb numbits 32 && not (is_ipv6 ip_ver))) [
    | inl four ↦
        let same : net_bytes (low_word ip) (low_word mask) 4 ≡ bs =
          cc (rw (e, four, read_net) at h) in
        rw (sym same) (net_bytes-IsNet_four ip mask)
    | inr six ↦ read_six pton ip_str mask bs m (rw (e, six, read_net) at h)
  ]
]

length-mask_words : (full bits : ℕ) → length (mask_words 4 full bits (replicate 16 0)) ≡ 16
unfolding mask_words store_big
length-mask_words zero bits = refl
length-mask_words (suc zero) bits = refl
length-mask_words (suc (suc zero)) bits = refl
length-mask_words (suc (suc (suc zero))) bits = refl
length-mask_words (suc (suc (suc (suc full)))) bits = refl

length-int_to_netmask : (numbits : ℕ) → length (int_to_netmask numbits (replicate 16 0)).1 ≡ 16
unfolding int_to_netmask
length-int_to_netmask numbits = length-mask_words _ (numbits % 32)

read_mask-IsNet :
    (pton : Pton) (ip_str mask bs : List ℕ) → read_mask pton ip_str mask ≡ stored bs → IsNet bs
unfolding read_mask
read_mask-IsNet pton ip_str mask bs h = elim (Option-cases (pton.inet mask)) [
  | inr (m, e) ↦
      read_net-IsNet pton ip_str 0 IpVersion.ipv4 _ bs
        (length-append (bytes 4 m) (replicate 12 0) ∙ ap (λ k. k + 12) (length-bytes 4 m))
        (rw (e, read_mask) at h)
  | inl e ↦ elim (Option-cases (pton.inet6 mask)) [
    | inr (m, f) ↦
        read_net-IsNet pton ip_str 0 IpVersion.ipv6 _ bs (length-bytes 16 m)
          (rw (e, f, read_mask) at h)
    | inl f ↦ cc (rw (e, f, read_mask) at h)
  ]
]

read_bits-IsNet :
    (pton : Pton) (alloc : Bool) (ip_str : List ℕ) (numbits : ℕ) (bs : List ℕ)
    → read_bits pton alloc ip_str numbits ≡ stored bs
    → IsNet bs
unfolding read_bits
read_bits-IsNet pton alloc ip_str numbits bs h =
    let m = length-int_to_netmask numbits in
    elim (Bool-cases (overrun numbits)) [
      | inl over ↦ cc (rw over at h)
      | inr within ↦ elim (Bool-cases (int_to_netmask numbits (replicate 16 0)).0) [
        | inr bad ↦ cc (rw (within, bad) at h)
        | inl good ↦ elim (Option-cases (unwrap_ip alloc ip_str numbits)) [
          | inl e ↦
              read_net-IsNet pton ip_str numbits IpVersion.ipv6 _ bs m (rw (within, good, e) at h)
          | inr (ip, e) ↦
              read_net-IsNet pton ip numbits IpVersion.ipv4 _ bs m (rw (within, good, e) at h)
        ]
      ]
    ]

read_behind-IsNet :
    (strtoul : List ℕ → ℕ × ℕ) (pton : Pton) (alloc_ip : Bool) (ip_str mask bs : List ℕ)
    → read_behind strtoul pton alloc_ip ip_str mask ≡ stored bs
    → IsNet bs
read_behind-IsNet strtoul pton alloc_ip ip_str mask bs h =
    elim (Bool-cases (not (byte (drop (strtoul mask).1 mask) == 0))) [
      | inl e ↦ read_mask-IsNet pton ip_str mask bs (rw e at h)
      | inr e ↦ read_bits-IsNet pton alloc_ip ip_str _ bs (rw e at h)
    ]

-- Whatever the text and its mask, what str_to_addr stores is a masked address with its mask.
pub str_to_addr-IsNet :
    (strtoul : List ℕ → ℕ × ℕ) (pton : Pton) (alloc_ip : Bool) (str bs : List ℕ)
    → str_to_addr strtoul pton true alloc_ip str ≡ stored bs
    → IsNet bs
unfolding str_to_addr
str_to_addr-IsNet strtoul pton alloc_ip str bs h = from (split_mask str).1 refl
  where
    from : (mask : List ℕ) → (split_mask str).1 ≡ mask → IsNet bs
    from [] e = read_net-IsNet pton (split_mask str).0 0 IpVersion.unknown _ bs refl (rw e at h)
    from (c ∷ m) e =
        read_behind-IsNet strtoul pton alloc_ip (split_mask str).0 (c ∷ m) bs (rw e at h)
