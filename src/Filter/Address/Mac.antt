-- ===== src/Filter/Address/Mac.antt =====
-- src/ffilter/ffilter.c: MAC addresses as they are printed.
use libnf.Base.{
  ℕ, ◌+◌, ◌-◌, ◌/◌, ◌%◌, ◌<◌, ◌≡◌, refl, ◌∙◌, true, false, List, [], ◌∷◌, some, ltb, if◌then◌else◌,
  length, All, arith,
}
use libnf.Base.Bytes.{byte}
use libnf.Filter.Literal.{stored}
use libnf.Filter.Address.{
  is_xdigit, skip_spaces, skip_colon, octet, octet_end, mac_octets, str_to_mac,
}
use native.Mathlib.Nat.{mod-eq_of_lt}

abbrev pub hex_digit : ℕ → ℕ
hex_digit d = if ltb d 10 then b'0' + d else b'a' + (d - 10)

abbrev pub hex_octet : ℕ → List ℕ → List ℕ
hex_octet b text = hex_digit (b / 16) ∷ hex_digit (b % 16) ∷ text

-- "xx:xx:xx"
unfoldable pub print_mac : List ℕ → List ℕ
print_mac [] = []
print_mac (b ∷ []) = hex_octet b []
print_mac (b ∷ c ∷ bs) = hex_octet b (b':' ∷ print_mac (c ∷ bs))

-- what strtoul documents of two hexadecimal digits before another character
abbrev pub ReadsHex : (List ℕ → ℕ × ℕ) → Type 0
ReadsHex strtoul =
    (b : ℕ) (text : List ℕ)
    → b < 256
    → is_xdigit (byte text) ≡ false
    → strtoul (hex_octet b text) ≡ (b, 2)

starts_hex :
    (b : ℕ) (bs : List ℕ)
    → b < 256
    → (is_xdigit (byte (print_mac (b ∷ bs))) ≡ true)
      × (skip_spaces (print_mac (b ∷ bs)) ≡ print_mac (b ∷ bs))
unfolding print_mac skip_spaces
starts_hex b [] h = (ground arith, ground arith)
starts_hex b (c ∷ bs) h = (ground arith, ground arith)

octet-hex_octet :
    (strtoul : List ℕ → ℕ × ℕ) (b : ℕ) (text : List ℕ)
    → ReadsHex strtoul
    → b < 256
    → is_xdigit (byte text) ≡ false
    → octet strtoul (hex_octet b text) ≡ b
octet-hex_octet strtoul b text reads h x = rw (reads b text h x) (mod-eq_of_lt (omega arith))

octet_end-hex_octet :
    (strtoul : List ℕ → ℕ × ℕ) (b : ℕ) (text : List ℕ)
    → ReadsHex strtoul
    → b < 256
    → is_xdigit (byte text) ≡ false
    → octet_end strtoul (hex_octet b text) ≡ skip_colon text
unfolding octet_end
octet_end-hex_octet strtoul b text reads h x = rw (reads b text h x) refl

colon_next :
    (b : ℕ) (bs : List ℕ) → b < 256 → skip_colon (b':' ∷ print_mac (b ∷ bs)) ≡ print_mac (b ∷ bs)
unfolding skip_colon skip_spaces
colon_next b bs h = (starts_hex b bs h).1

mac_octets-print_mac :
    (strtoul : List ℕ → ℕ × ℕ) (b : ℕ) (bs : List ℕ)
    → ReadsHex strtoul
    → All (λ c. c < 256) (b ∷ bs)
    → mac_octets strtoul (length bs) (print_mac (b ∷ bs)) ≡ some (b ∷ bs)
unfolding mac_octets print_mac
mac_octets-print_mac strtoul b [] reads h =
    let end : octet_end strtoul (hex_octet b []) ≡ [] =
      octet_end-hex_octet strtoul b [] reads h.0 refl ∙ unfold skip_colon skip_spaces in refl in
    rw (octet-hex_octet strtoul b [] reads h.0 refl, end) (ground arith)
mac_octets-print_mac strtoul b (c ∷ bs) reads h =
    let text = b':' ∷ print_mac (c ∷ bs) in
    let end : octet_end strtoul (hex_octet b text) ≡ print_mac (c ∷ bs) =
      octet_end-hex_octet strtoul b text reads h.0 refl ∙ colon_next c bs h.1.0 in
    let more = mac_octets-print_mac strtoul c bs reads h.1 in
    let (digit, _) = starts_hex c bs h.1.0 in
    rw (octet-hex_octet strtoul b text reads h.0 refl, end, digit, more) (ground arith)

-- Six octets printed with colons between them are read back, given that strtoul reads two
-- hexadecimal digits before a character that is none.
pub str_to_mac-print_mac :
    (strtoul : List ℕ → ℕ × ℕ) (octets : List ℕ)
    → ReadsHex strtoul
    → length octets ≡ 6
    → All (λ c. c < 256) octets
    → str_to_mac strtoul true (print_mac octets) ≡ stored octets
unfolding str_to_mac
str_to_mac-print_mac strtoul [] reads six h = absurd (omega arith)
str_to_mac-print_mac strtoul (b ∷ bs) reads six h =
    let rounds : length bs ≡ 5 = omega arith in
    rw (rw rounds at (mac_octets-print_mac strtoul b bs reads h)) refl
