-- ===== src/LnfFilter/Values.antt =====
-- src/lnf_filter.c, lnf_rval_map_func: the numbers of protocols, ports and TCP flags that a filter
-- names.
pub mod Flags
use Prim.Native.Nat.{bit_or}
use libnf.Base.{
  ℕ, zero, suc, ◌-◌, ◌^◌, Bool, ◌||◌, List, [], ◌∷◌, Option, none, some, ltb, ◌==◌, if◌then◌else◌,
  length,
}
use libnf.Base.Bytes.{codes, same_nocase, store}
use libnf.Filter.Leaf.{FfError, Made, made, error}
use libnf.LnfFilter.Literals.{Literal, nff_port_map, nff_proto_id_map}

-- `tcp_ctl_bits`
abbrev pub tcp_ctl_bits : List ℕ
tcp_ctl_bits = codes "FSRPAUECNX"

abbrev pub next : Option ℕ → Option ℕ
next none = none
next (some k) = some (suc k)

-- `strchr(s, c)` as the position from `s` on, for a character that is not 0
unfoldable pub strchr : ℕ → List ℕ → Option ℕ
strchr c [] = none
strchr c (d ∷ s) = let further = strchr c s in if d == c then some 0 else next further

-- one more flag; the X sets all
abbrev pub add_flag : ℕ → ℕ → ℕ
add_flag val k = if k == 9 then 2 ^ 9 - 1 else bit_or val (2 ^ k)

-- the loop over the characters
unfoldable pub add_flags : ℕ → List ℕ → Option ℕ
add_flags val [] = some val
add_flags val (c ∷ s) = elim (strchr c tcp_ctl_bits) [
  | none ↦ none
  | some k ↦ add_flags (add_flag val k) s
]

-- the search in `dict`
unfoldable pub find_literal : List ℕ → List Literal → Option ℕ
find_literal s [] = none
find_literal s (l ∷ dict) =
    let further = find_literal s dict in if same_nocase s l.name then some l.value else further

-- 8 bytes in `buf` and their number
abbrev pub put_value : Option ℕ → Made (List ℕ × ℕ)
put_value none = error FfError.err_other
put_value (some val) = made (store 8 val, 8)

abbrev pub map_flags : List ℕ → Made (List ℕ × ℕ)
map_flags s = if ltb 9 (length s) then error FfError.err_other else put_value (add_flags 0 s)

-- the fields 0x18 LNF_FLD_PROT, 0x0b and 0x69 LNF_FLD_TCP_FLAGS, 0x09 and 0x0a for the ports
abbrev pub map_value : List ℕ → ℕ → Made (List ℕ × ℕ)
map_value s id =
    if id == 0x18
    then put_value (find_literal s nff_proto_id_map)
    else if id == 0x0b || id == 0x69
    then map_flags s
    else if id == 0x09 || id == 0x0a
    then put_value (find_literal s nff_port_map)
    else error FfError.err_unsup

-- `lnf_rval_map_func`
unfoldable pub rval_map_func : Option (List ℕ) → ℕ → Made (List ℕ × ℕ)
rval_map_func none id = error FfError.err_other
rval_map_func (some s) id = if id == 0 then error FfError.err_other else map_value s id
