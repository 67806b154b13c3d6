-- ===== src/Tests/ListSort.antt =====
-- src/list_sort.c on short lists.
use mathlib.Core.List.{Perm}
use libnf.Base.{ℕ, ◌≤◌, ◌≡◌, refl, true, false, List, [], ◌∷◌, some, ltb, ltb→lt, arith}
use libnf.ListSort.{list_sort, sort_passes, merge_pass, merge_runs, step_along}
use libnf.ListSort.Merge.{IsSorted}
use libnf.ListSort.Sorted.{list_sort-IsSorted}

abbrev ages : List ℕ
ages = 5 ∷ 2 ∷ 9 ∷ 2 ∷ 7 ∷ []

list_sort_5 : list_sort ltb 3 ages ≡ some (2 ∷ 2 ∷ 5 ∷ 7 ∷ 9 ∷ [])
unfolding list_sort sort_passes merge_pass merge_runs step_along
list_sort_5 = refl

ltb_first : (a b : ℕ) → ltb a b ≡ true → a ≤ b
ltb_first a b e = omega (arith, ltb→lt a b e)

ltb_second : (a b : ℕ) → ltb a b ≡ false → b ≤ a
ltb_second a b e = ground arith

le_trans : (a b c : ℕ) → a ≤ b → b ≤ c → a ≤ c
le_trans a b c h k = omega arith

list_sort-IsSorted_example :
    (s : List ℕ) × (list_sort ltb 3 ages ≡ some s) × Perm s ages × IsSorted ◌≤◌ s
list_sort-IsSorted_example =
    list_sort-IsSorted ltb ◌≤◌ le_trans ltb_first ltb_second 2 ages (omega arith)
