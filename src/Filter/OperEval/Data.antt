-- ===== src/Filter/OperEval/Data.antt =====
-- src/ffilter/fcore.c: the numbers in data of 1, 2, 4 or 8 bytes in the two byte orders.
use libnf.Base.{
  ℕ, ◌≡◌, refl, ap, arith, inl, inr, ◌||◌, List, Option, none, some, ◌==◌, ==_iff, if◌then◌else◌,
  Bool-cases,
}
use libnf.Base.Bytes.{load, load_big}
use libnf.Filter.OperEval.{from_net, from_host}

-- the number whose lowest byte comes first
abbrev pub host_number : ℕ → List ℕ → Option ℕ
host_number size rc =
    if size == 8 || (size == 4 || (size == 2 || size == 1)) then some (load size rc) else none

-- the number whose highest byte comes first
abbrev pub net_number : ℕ → List ℕ → Option ℕ
net_number size rc =
    if size == 8 || (size == 4 || (size == 2 || size == 1)) then some (load_big size rc) else none

pub from_host-host_number : (size : ℕ) (rc : List ℕ) → from_host size rc ≡ host_number size rc
unfolding from_host
from_host-host_number size rc = elim (Bool-cases (size == 8)) [
  | inl e ↦ rw ((==_iff size 8).0 e) refl
  | inr a ↦ elim (Bool-cases (size == 4)) [
    | inl e ↦ rw ((==_iff size 4).0 e) refl
    | inr b ↦ elim (Bool-cases (size == 2)) [
      | inl e ↦ rw ((==_iff size 2).0 e) refl
      | inr c ↦ elim (Bool-cases (size == 1)) [
        | inl e ↦ rw ((==_iff size 1).0 e) refl
        | inr d ↦ rw (a, b, c, d) refl
      ]
    ]
  ]
]

last_byte : (rc : List ℕ) → load 1 rc ≡ load_big 1 rc
unfolding load load_big
last_byte rc = omega arith

pub from_net-net_number : (size : ℕ) (rc : List ℕ) → from_net size rc ≡ net_number size rc
unfolding from_net
from_net-net_number size rc = elim (Bool-cases (size == 8)) [
  | inl e ↦ rw ((==_iff size 8).0 e) refl
  | inr a ↦ elim (Bool-cases (size == 4)) [
    | inl e ↦ rw ((==_iff size 4).0 e) refl
    | inr b ↦ elim (Bool-cases (size == 2)) [
      | inl e ↦ rw ((==_iff size 2).0 e) refl
      | inr c ↦ elim (Bool-cases (size == 1)) [
        | inl e ↦ rw ((==_iff size 1).0 e) (ap some (last_byte rc))
        | inr d ↦ rw (a, b, c, d) refl
      ]
    ]
  ]
]
