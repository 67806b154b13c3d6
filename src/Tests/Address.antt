-- ===== src/Tests/Address.antt =====
-- Addresses, on small inputs.
use libnf.Base.{
  ℕ, ◌+◌, ◌-◌, ◌*◌, ◌/◌, ◌%◌, ◌^◌, ◌<◌, ◌≡◌, refl, ap, List, [], ◌∷◌, ◌++◌, none, some, true,
  replicate, arith, leb, if◌then◌else◌, ◌==◌,
}
use libnf.Base.Bytes.{load_big, byte, rest, store, bytes, store_big}
use libnf.Filter.Literal.{stored}
use libnf.Filter.Address.{
  Pton, int_to_netmask, mask_words, unwrap_ip, count_dots, zero_octets, str_to_addr, str_to_mac,
  split_mask, token, behind, read_net, read_bits, net_bytes,
}
use libnf.Filter.Address.Mask.{load_big-int_to_netmask}
use libnf.Filter.Address.Mac.{ReadsHex, hex_digit, print_mac, str_to_mac-print_mac}
use libnf.Filter.Address.Network.{IsNet, str_to_addr-IsNet}

load_big-int_to_netmask_example :
    ((int_to_netmask 20 (replicate 16 0)).0 ≡ true)
    × (load_big 16 (int_to_netmask 20 (replicate 16 0)).1 ≡ 2 ^ 128 - 2 ^ 108)
load_big-int_to_netmask_example = load_big-int_to_netmask 20 (omega arith)

abbrev hex_value : ℕ → ℕ
hex_value c = if leb c b'9' then c - b'0' else c - b'a' + 10

-- two hexadecimal digits at most
abbrev two_digits : List ℕ → ℕ × ℕ
two_digits s = (16 * hex_value (byte s) + hex_value (byte (rest s)), 2)

hex_value-hex_digit : (d : ℕ) → d < 16 → hex_value (hex_digit d) ≡ d
hex_value-hex_digit d h = ground arith

two_digits-ReadsHex : ReadsHex two_digits
two_digits-ReadsHex b text h x =
    let high = hex_value-hex_digit (b / 16) (omega arith) in
    let low = hex_value-hex_digit (b % 16) (omega arith) in ap (λ v. (v, 2)) (omega arith)

str_to_mac-print_mac_example :
    str_to_mac two_digits true (print_mac (0 ∷ 26 ∷ 43 ∷ 60 ∷ 77 ∷ 255 ∷ []))
    ≡ stored (0 ∷ 26 ∷ 43 ∷ 60 ∷ 77 ∷ 255 ∷ [])
str_to_mac-print_mac_example =
    str_to_mac-print_mac two_digits (0 ∷ 26 ∷ 43 ∷ 60 ∷ 77 ∷ 255 ∷ []) two_digits-ReadsHex refl
      (omega arith)

-- 10.1.0.0 is the only address that this inet_pton knows.
abbrev ten_one : Pton
ten_one = record {
  inet = λ s. if byte s == b'1' then some (10 ∷ 1 ∷ 2 ∷ 3 ∷ []) else none;
  inet6 = λ s. none;
}

-- "10.1/8"
abbrev short_net : List ℕ
short_net = b'1' ∷ b'0' ∷ b'.' ∷ b'1' ∷ b'/' ∷ b'8' ∷ []

abbrev stored_net : List ℕ
stored_net =
    replicate 12 0 ++ (10 ∷ 0 ∷ 0 ∷ 0 ∷ replicate 12 0) ++ (255 ∷ 0 ∷ 0 ∷ 0 ∷ 4 ∷ 0 ∷ 0 ∷ 0 ∷ [])

str_to_addr-IsNet_example : IsNet stored_net
unfolding str_to_addr split_mask token behind read_bits read_net net_bytes int_to_netmask mask_words
    store_big unwrap_ip count_dots zero_octets store bytes
str_to_addr-IsNet_example = str_to_addr-IsNet (λ s. (8, 1)) ten_one true short_net stored_net refl

-- "ff::/8" gets zero octets like a short IPv4 address, and is no address then
short_prefix :
    unwrap_ip true (b'f' ∷ b'f' ∷ b':' ∷ b':' ∷ []) 8
    ≡ some (b'f' ∷ b'f' ∷ b':' ∷ b':' ∷ b'.' ∷ b'0' ∷ b'.' ∷ b'0' ∷ b'.' ∷ b'0' ∷ [])
unfolding unwrap_ip count_dots zero_octets
short_prefix = refl
