-- ===== src/Base/Bytes.antt =====
-- Memory as a list of bytes on a little-endian machine with two's complement integers, and the
-- functions of the C library that compare it. A byte past the end of the list reads as 0.
use libnf.Base.{
  ℕ, zero, suc, ◌+◌, ◌-◌, ◌*◌, ◌/◌, ◌%◌, ◌^◌, Bool, true, false, ◌&&◌, ◌||◌, List, [], ◌∷◌, ◌<◌,
  sym, ◌∙◌, ltb, leb, ◌==◌, if◌then◌else◌, length, ◌≢◌, ◌≡◌, refl, ap, ◌↔◌, arith,
}
use native.Mathlib.Nat.{div-add-mod, mod-lt, mod-eq_of_lt, mul-add-mod_self_left}
use Prim.Native.Char.{code}
use Prim.Native.String.{String}
use libnf.Base.Int.{ℤ, pos, negsuc}

abbrev pub byte : List ℕ → ℕ
byte [] = 0
byte (b ∷ bs) = b

abbrev pub rest : List ℕ → List ℕ
rest [] = []
rest (b ∷ bs) = bs

-- the characters of a literal
abbrev pub codes : String → List ℕ
codes String.[] = []
codes (String.◌∷◌ c s) = code c ∷ codes s

-- `*(uintN_t *)p` for N = 8 n
unfoldable pub load : ℕ → List ℕ → ℕ
load zero bs = 0
load (suc n) bs = byte bs + 256 * load n (rest bs)

-- the same after ntohs, ntohl or ntohll
unfoldable pub load_big : ℕ → List ℕ → ℕ
load_big zero bs = 0
load_big (suc n) bs = byte bs * 256 ^ n + load_big n (rest bs)

-- the bytes of an integer, lowest first
unfoldable pub store : ℕ → ℕ → List ℕ
store zero v = []
store (suc n) v = v % 256 ∷ store n (v / 256)

-- `*p = htonl(v)` and the like: the bytes of an integer, highest first
unfoldable pub store_big : ℕ → ℕ → List ℕ
store_big zero v = []
store_big (suc n) v = v / 256 ^ n % 256 ∷ store_big n v

-- the signed number that a pattern of `w` bits stands for
abbrev pub signed : ℕ → ℕ → ℤ
signed w v = if ltb (v * 2) (2 ^ w) then pos v else negsuc (2 ^ w - v - 1)

-- `memcmp(a, b, n) == 0`
unfoldable pub same_bytes : ℕ → List ℕ → List ℕ → Bool
same_bytes zero a b = true
same_bytes (suc n) a b = byte a == byte b && same_bytes n (rest a) (rest b)

-- `strncmp(a, b, n) == 0`
unfoldable pub same_prefix : ℕ → List ℕ → List ℕ → Bool
same_prefix zero a b = true
same_prefix (suc n) a b = byte a == byte b && (byte a == 0 || same_prefix n (rest a) (rest b))

-- the characters of a string before its terminating 0
unfoldable pub c_string : List ℕ → List ℕ
c_string [] = []
c_string (b ∷ bs) = let s = b ∷ c_string bs in if b == 0 then [] else s

abbrev pub to_lower : ℕ → ℕ
to_lower c = if leb b'A' c && leb c b'Z' then c + 32 else c

unfoldable pub starts_with_nocase : List ℕ → List ℕ → Bool
starts_with_nocase s [] = true
starts_with_nocase [] (c ∷ p) = false
starts_with_nocase (b ∷ s) (c ∷ p) = to_lower b == to_lower c && starts_with_nocase s p

unfoldable pub contains_nocase : List ℕ → List ℕ → Bool
unfolding starts_with_nocase
contains_nocase [] p = starts_with_nocase [] p
contains_nocase (b ∷ s) p = starts_with_nocase (b ∷ s) p || contains_nocase s p

-- `strcasestr(hay, needle) != NULL`
unfoldable pub strcasestr : List ℕ → List ℕ → Bool
unfolding c_string contains_nocase
strcasestr hay needle = contains_nocase (c_string hay) (c_string needle)

-- `strcasecmp(a, b) == 0`
unfoldable pub same_nocase : List ℕ → List ℕ → Bool
same_nocase [] [] = true
same_nocase (a ∷ s) (b ∷ t) = to_lower a == to_lower b && same_nocase s t
same_nocase _ _ = false

-- the `n` bytes that memcpy moves from `p`
unfoldable pub bytes : ℕ → List ℕ → List ℕ
bytes zero p = []
bytes (suc n) p = byte p ∷ bytes n (rest p)

pub length-bytes : (n : ℕ) (p : List ℕ) → length (bytes n p) ≡ n
unfolding bytes
length-bytes zero p = refl
length-bytes (suc n) p = ap suc (length-bytes n (rest p))

pub same_bytes_iff : (n : ℕ) (a b : List ℕ) → (same_bytes n a b ≡ true) ↔ (bytes n a ≡ bytes n b)
unfolding same_bytes bytes
same_bytes_iff zero a b = (λ _. refl, λ _. refl)
same_bytes_iff (suc n) a b = ground (arith, same_bytes_iff n (rest a) (rest b))

pub bytes-bytes : (n : ℕ) (p : List ℕ) → bytes n (bytes n p) ≡ bytes n p
unfolding bytes
bytes-bytes zero p = refl
bytes-bytes (suc n) p = ap (λ r. byte p ∷ r) (bytes-bytes n (rest p))

pub same_bytes-bytes : (n : ℕ) (a b : List ℕ) → same_bytes n (bytes n a) b ≡ same_bytes n a b
unfolding same_bytes bytes
same_bytes-bytes zero a b = refl
same_bytes-bytes (suc n) a b = rw (same_bytes-bytes n (rest a) (rest b))

pub same_bytes_of_eq : (n : ℕ) (a b : List ℕ) → bytes n a ≡ bytes n b → same_bytes n a b ≡ true
same_bytes_of_eq n a b = (same_bytes_iff n a b).1

pub same_bytes_of_ne : (n : ℕ) (a b : List ℕ) → bytes n a ≢ bytes n b → same_bytes n a b ≡ false
same_bytes_of_ne n a b h = ground (arith, same_bytes_iff n a b)

pub load-bytes : (n : ℕ) (p : List ℕ) → load n (bytes n p) ≡ load n p
unfolding load bytes
load-bytes zero p = refl
load-bytes (suc n) p = ap (λ v. byte p + 256 * v) (load-bytes n (rest p))

mod_mul : (v m : ℕ) → 0 < m → v % 256 + 256 * (v / 256 % m) ≡ v % (256 * m)
mod_mul v m positive =
    let r = v % 256 + 256 * (v / 256 % m) in
    let whole = div-add-mod (v / 256) m in
    let below = mod-lt (v / 256) positive in
    let split : 256 * m * (v / 256 / m) + r ≡ v = omega arith in
    sym (
      ap (λ x. x % (256 * m)) (sym split)
      ∙ mul-add-mod_self_left (256 * m) (v / 256 / m) r
      ∙ mod-eq_of_lt (omega arith))

pow_pos : (n : ℕ) → 0 < 256 ^ n
pow_pos zero = omega arith
pow_pos (suc n) = omega (arith, pow_pos n)

-- An integer is read back modulo the range of its width.
pub load-store : (n v : ℕ) → load n (store n v) ≡ v % 256 ^ n
unfolding load store
load-store zero v = omega arith
load-store (suc n) v =
    let split = mod_mul v (256 ^ n) (pow_pos n) in
    let power : 256 * 256 ^ n ≡ 256 ^ suc n = omega arith in
    rw (load-store n (v / 256)) (split ∙ ap (λ m. v % m) power)

pub length-store : (n v : ℕ) → length (store n v) ≡ n
unfolding store
length-store zero v = refl
length-store (suc n) v = ap suc (length-store n (v / 256))
