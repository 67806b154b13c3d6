-- ===== src/Filter/Labels.antt =====
-- src/ffilter/fcore.c, `ff_oper_eval_V2`: the cases on MPLS labels and on networks.
use Prim.Native.Nat.{bit_and}
use libnf.Base.{
  ℕ, zero, suc, ◌+◌, ◌-◌, ◌*◌, ◌/◌, ◌%◌, ◌^◌, Bool, true, false, not, ◌&&◌, ◌||◌, List, Option,
  none, some, ltb, ◌==◌, if◌then◌else◌, drop,
}
use libnf.Base.Bytes.{load}
use libnf.Filter.Types.{FfAttr}
use libnf.Filter.Attr.{net_ip, net_mask, net_ver}

-- `ff_mpls_label_t`: the bits of label `i` of the record
abbrev pub mpls_id : List ℕ → ℕ → ℕ
mpls_id rc i = load 4 (drop (4 * i) rc)

abbrev pub id_eos : List ℕ → ℕ → Bool
id_eos rc i = mpls_id rc i % 2 == 1

abbrev pub id_exp : List ℕ → ℕ → ℕ
id_exp rc i = mpls_id rc i / 2 % 8

abbrev pub id_label : List ℕ → ℕ → ℕ
id_label rc i = mpls_id rc i / 16 % 2 ^ 20

abbrev pub mpls_val : List ℕ → ℕ
mpls_val fl = load 4 fl

-- `fl->mpls.label - 1`, in uint32_t
abbrev pub mpls_index : List ℕ → ℕ
mpls_index fl = (load 4 (drop 4 fl) + 2 ^ 32 - 1) % 2 ^ 32

-- The loop over the labels up to the bottom of the stack: whether the last label seen passes.
unfoldable pub any_label : (ℕ → Bool) → List ℕ → ℕ → ℕ → Bool
any_label test rc zero x = false
any_label test rc (suc left) x =
    let more = any_label test rc left (x + 1) in
    if test (id_label rc x) then true else if id_eos rc x then false else more

-- The loop that finds the bottom of the stack: 10 if there is none.
unfoldable pub bottom : List ℕ → ℕ → ℕ → ℕ
bottom rc zero x = x
bottom rc (suc left) x = let more = bottom rc left (x + 1) in if id_eos rc x then x else more

unfoldable pub eval_mpls : FfAttr → List ℕ → List ℕ → Option Bool
unfolding any_label bottom
eval_mpls FfAttr.eq_ml rc fl = some (any_label (λ l. mpls_val fl == l) rc 10 0)
eval_mpls FfAttr.gt_ml rc fl = some (any_label (λ l. ltb (mpls_val fl) l) rc 10 0)
eval_mpls FfAttr.lt_ml rc fl = some (any_label (λ l. ltb l (mpls_val fl)) rc 10 0)
eval_mpls FfAttr.eq_mlx rc fl = some (mpls_val fl == id_label rc (mpls_index fl))
eval_mpls FfAttr.gt_mlx rc fl = some (ltb (mpls_val fl) (id_label rc (mpls_index fl)))
eval_mpls FfAttr.lt_mlx rc fl = some (ltb (id_label rc (mpls_index fl)) (mpls_val fl))
eval_mpls FfAttr.eq_mex rc fl = some (mpls_val fl == id_exp rc (mpls_index fl))
eval_mpls FfAttr.gt_mex rc fl = some (ltb (mpls_val fl) (id_exp rc (mpls_index fl)))
eval_mpls FfAttr.lt_mex rc fl = some (ltb (id_exp rc (mpls_index fl)) (mpls_val fl))
eval_mpls FfAttr.is_mex rc fl =
    some (mpls_val fl == bit_and (mpls_val fl) (id_exp rc (mpls_index fl)))
eval_mpls FfAttr.ins_mex rc fl = some (bit_and (mpls_val fl) (id_exp rc (mpls_index fl)) == 0)
eval_mpls FfAttr.eq_mes rc fl = some (mpls_val fl == bottom rc 10 0 + 1)
eval_mpls FfAttr.gt_mes rc fl = some (ltb (mpls_val fl) (bottom rc 10 0 + 1))
eval_mpls FfAttr.lt_mes rc fl = some (ltb (bottom rc 10 0 + 1) (mpls_val fl))
eval_mpls _ rc fl = none

-- `FFAT_EQ_ADP`: the address of the record, masked, against the network of the leaf
unfoldable pub eval_prefix : ℕ → List ℕ → List ℕ → Bool
eval_prefix size rc fl =
    if size == 4
    then not (net_ver fl == 6) && bit_and (net_ip rc 0) (net_mask fl 3) == net_ip fl 3
    else if net_ver fl == 6 && (net_ip rc 0 == 0 && (net_ip rc 1 == 0 && net_ip rc 2 == 0))
    then false
    else masked 0
      && (masked 1 && (masked 2 && masked 3))
      && not (
          net_ver fl == 4
          && (not (net_ip rc 0 == 0) || (not (net_ip rc 1 == 0) || not (net_ip rc 2 == 0))))
  where
    masked : ℕ → Bool
    masked x = bit_and (net_ip rc x) (net_mask fl x) == net_ip fl x
