-- ===== src/Filter/Address.antt =====
-- src/ffilter/ffilter.c: addresses and times written in a filter. strtoul, inet_pton, strptime and
-- mktime are parameters; strtok_r and strchr are written out. A string is the list of its
-- characters before the terminating 0.
pub mod Mask
pub mod Mac
pub mod Network
use libnf.Base.{
  ℕ, zero, suc, ◌+◌, ◌-◌, ◌*◌, ◌/◌, ◌%◌, ◌^◌, Bool, true, false, not, ◌&&◌, ◌||◌, List, [], ◌∷◌,
  ◌++◌, Option, none, some, ltb, leb, ◌==◌, if◌then◌else◌, drop, take, replicate,
}
use libnf.Base.Bytes.{byte, rest, bytes, store, store_big}
use libnf.Filter.Literal.{Cast, stored, failed, undefined}
use Prim.Native.Nat.{bit_and}

-- `~(~0U >> bits)`
abbrev pub high_bits : ℕ → ℕ
high_bits bits = 2 ^ 32 - 1 - (2 ^ 32 - 1) / 2 ^ bits

-- The loop of int_to_netmask and the word behind it, over the `room` words from word `x` on.
unfoldable pub mask_words : ℕ → ℕ → ℕ → List ℕ → List ℕ
unfolding store_big
mask_words zero full bits mask = mask
mask_words (suc room) zero bits mask = store_big 4 (high_bits bits) ++ drop 4 mask
mask_words (suc room) (suc full) bits mask =
    0xff ∷ 0xff ∷ 0xff ∷ 0xff ∷ mask_words room full bits (drop 4 mask)

-- `numbits` is the pattern of an `int`. From 160 bits on the loop writes behind the mask, which
-- `overrun` tells; a negative number passes the loop.
abbrev pub is_negative : ℕ → Bool
is_negative numbits = leb (2 ^ 31) numbits

abbrev pub overrun : ℕ → Bool
overrun numbits = leb 160 numbits && not (is_negative numbits)

unfoldable pub int_to_netmask : ℕ → List ℕ → Bool × List ℕ
unfolding mask_words
int_to_netmask numbits mask =
    let full = if is_negative numbits then 0 else numbits / 32 in
    (not (ltb 128 numbits || is_negative numbits), mask_words 4 full (numbits % 32) mask)

unfoldable pub count_dots : List ℕ → ℕ
count_dots [] = 0
count_dots (c ∷ s) = let n = count_dots s in if c == b'.' then n + 1 else n

unfoldable pub zero_octets : ℕ → List ℕ
zero_octets zero = []
zero_octets (suc n) = b'.' ∷ b'0' ∷ zero_octets n

-- The search for dots starts behind the first character.
unfoldable pub unwrap_ip : Bool → List ℕ → ℕ → Option (List ℕ)
unfolding count_dots zero_octets
unwrap_ip alloc ip_str numbits =
    let min_octets = numbits / 8 + (if ltb 0 (numbits % 8) then 1 else 0) in
    let octet = count_dots (rest ip_str) + 1 in
    if ltb octet min_octets
    then none
    else (if alloc then some (ip_str ++ zero_octets (4 - octet)) else none)

abbrev pub is_delim : ℕ → Bool
is_delim c = c == b'\\' || c == b'/' || c == b' '

unfoldable pub token : List ℕ → List ℕ
token [] = []
token (c ∷ s) = let t = c ∷ token s in if is_delim c then [] else t

unfoldable pub behind : List ℕ → List ℕ
behind [] = []
behind (c ∷ s) = let t = behind s in if is_delim c then s else t

-- The two calls of strtok_r: `ip_str` as it is left, and the mask. The first call passes the
-- delimiters before the address, which stay part of `ip_str`.
unfoldable pub split_mask : List ℕ → List ℕ × List ℕ
unfolding token behind
split_mask [] = ([], [])
split_mask (c ∷ s) =
    let more = split_mask s in
    if is_delim c then (c ∷ more.0, more.1) else (token (c ∷ s), behind (c ∷ s))

abbrev pub and_bytes : List ℕ → List ℕ → List ℕ
and_bytes (a ∷ s) (b ∷ t) = bit_and a b ∷ and_bytes s t
and_bytes _ _ = []

-- an `ff_net_t`: the masked address, the mask and the version
unfoldable pub net_bytes : List ℕ → List ℕ → ℕ → List ℕ
net_bytes ip mask ver = and_bytes ip mask ++ (mask ++ store 4 ver)

-- `ip_ver`, where the text tells it
pub data IpVersion : Type 0 where
  unknown ipv4 ipv6 : IpVersion

abbrev pub is_ipv6 : IpVersion → Bool
is_ipv6 IpVersion.ipv6 = true
is_ipv6 _ = false

-- inet_pton by family, the bytes of an address or `none` for a text that is none
pub record Pton : Type 0 where
  pub inet : List ℕ → Option (List ℕ)
  pub inet6 : List ℕ → Option (List ℕ)

abbrev pub low_word : List ℕ → List ℕ
low_word word = replicate 12 0 ++ bytes 4 word

-- the end of str_to_addr
unfoldable pub read_net : Pton → List ℕ → ℕ → IpVersion → List ℕ → Cast
unfolding net_bytes
read_net pton ip_str numbits ip_ver mask =
    let six = elim (pton.inet6 ip_str) as (λ _. Cast) [
      | some ip ↦ stored (net_bytes (bytes 16 ip) mask 6)
      | none ↦ failed
    ] in
    elim (pton.inet ip_str) [
      | some ip ↦
          if leb numbits 32 && not (is_ipv6 ip_ver)
          then stored (net_bytes (low_word ip) (low_word mask) 4)
          else six
      | none ↦ six
    ]

-- a mask written as an address
unfoldable pub read_mask : Pton → List ℕ → List ℕ → Cast
unfolding read_net
read_mask pton ip_str mask = elim (pton.inet mask) [
  | some m ↦ read_net pton ip_str 0 IpVersion.ipv4 (bytes 4 m ++ replicate 12 0)
  | none ↦ elim (pton.inet6 mask) [
    | some m ↦ read_net pton ip_str 0 IpVersion.ipv6 (bytes 16 m)
    | none ↦ failed
  ]
]

-- a mask written as a number of bits
unfoldable pub read_bits : Pton → Bool → List ℕ → ℕ → Cast
unfolding read_net int_to_netmask unwrap_ip
read_bits pton alloc ip_str numbits =
    let (valid, mask) = int_to_netmask numbits (replicate 16 0) in
    if overrun numbits
    then undefined
    else (if not valid then failed else elim (unwrap_ip alloc ip_str numbits) [
      | some ip ↦ read_net pton ip numbits IpVersion.ipv4 mask
      | none ↦ read_net pton ip_str numbits IpVersion.ipv6 mask
    ])

abbrev read_behind : (List ℕ → ℕ × ℕ) → Pton → Bool → List ℕ → List ℕ → Cast
read_behind strtoul pton alloc_ip ip_str mask =
    let (number, used) = strtoul mask in
    if not (byte (drop used mask) == 0)
    then read_mask pton ip_str mask
    else read_bits pton alloc_ip ip_str (number % 2 ^ 32)

-- `alloc`: strdup and the first malloc have the memory, `alloc_ip` that of unwrap_ip. strtoul (base
-- 10) gives the number and the characters it passed.
unfoldable pub str_to_addr : (List ℕ → ℕ × ℕ) → Pton → Bool → Bool → List ℕ → Cast
unfolding split_mask read_net read_mask read_bits
str_to_addr strtoul pton alloc alloc_ip str =
    let (ip_str, mask) = split_mask str in
    let whole = read_net pton ip_str 0 IpVersion.unknown (replicate 16 0xff) in
    if not alloc
    then failed
    else elim mask [ [] ↦ whole | c ∷ m ↦ read_behind strtoul pton alloc_ip ip_str (c ∷ m) ]

-- isspace and isxdigit in the C locale
abbrev pub is_space : ℕ → Bool
is_space c = c == 32 || leb 9 c && leb c 13

abbrev pub is_xdigit : ℕ → Bool
is_xdigit c = leb b'0' c && leb c b'9' || leb b'A' c && leb c b'F' || leb b'a' c && leb c b'f'

unfoldable pub skip_spaces : List ℕ → List ℕ
skip_spaces [] = []
skip_spaces (c ∷ s) = let t = skip_spaces s in if is_space c then t else c ∷ s

-- one colon, and the spaces around it
unfoldable pub skip_colon : List ℕ → List ℕ
unfolding skip_spaces
skip_colon end =
    let next = skip_spaces end in if byte next == b':' then skip_spaces (rest next) else next

abbrev prepend : ℕ → Option (List ℕ) → Option (List ℕ)
prepend num none = none
prepend num (some octets) = some (num ∷ octets)

-- strtoul (base 16) gives its value and the characters it passes
module _ (strtoul : List ℕ → ℕ × ℕ) where
  abbrev pub octet : List ℕ → ℕ
  octet text = (strtoul text).0 % 2 ^ 32

  unfoldable pub octet_end : List ℕ → List ℕ
  unfolding skip_colon
  octet_end text = skip_colon (drop (strtoul text).1 text)

  -- The loop of str_to_mac, which has `rounds` rounds after this one.
  unfoldable pub mac_octets : ℕ → List ℕ → Option (List ℕ)
  unfolding octet_end
  mac_octets zero text =
      if ltb 255 (octet text)
      then none
      else (if byte (octet_end text) == 0 then some (octet text ∷ []) else none)
  mac_octets (suc rounds) text =
      let more = mac_octets rounds (octet_end text) in
      if ltb 255 (octet text)
      then none
      else (if is_xdigit (byte (octet_end text)) then prepend (octet text) more else none)

  unfoldable pub str_to_mac : Bool → List ℕ → Cast
  unfolding mac_octets
  str_to_mac alloc str =
      if not alloc
      then failed
      else elim (mac_octets 5 str) [ some octets ↦ stored octets | none ↦ failed ]

-- strptime gives the broken-down time and what is left of the text, mktime the pattern of a
-- `time_t`, with -1 for a time it cannot represent.
module _ {T : Type 0} (strptime : List ℕ → Option (T × List ℕ)) (mktime : T → ℕ) where
  unfoldable pub str_to_timestamp : Bool → List ℕ → Cast
  str_to_timestamp alloc str = elim (strptime str) [
    | none ↦ failed
    | some (tm, left) ↦
        if not (byte left == 0)
        then failed
        else (if mktime tm == 2 ^ 64 - 1
            then failed
            else (if alloc then stored (store 8 (mktime tm * 1000 % 2 ^ 64)) else failed))
  ]
