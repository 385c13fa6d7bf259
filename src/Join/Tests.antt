-- ===== src/Join/Tests.antt =====
-- Runs of `Join` (join/join.go) and the theorems on it at concrete slices.
use di.Prelude.{ℕ, ◌-◌, ◌≡◌, refl, List, [], ◌∷◌, ℤ, pos, negsuc, ltb, if◌then◌else◌}
use mathlib.Core.List.{mem-cons_self}
use di.Join.{join, slice_del}
use di.Join.Greedy.{Greedy, start, Negative, join-Greedy}
use di.Join.Partition.{lefts, rights, join_partition, join_matched, join_settled}
use di.Prelude.{Perm}

-- A left number takes the nearest right number that is not below it.
abbrev above : ℕ → ℕ → ℤ
above l r = if ltb r l then negsuc 0 else pos (r - l)

abbrev wanted : List ℕ
wanted = 5 ∷ 9 ∷ 1 ∷ []

abbrev offered : List ℕ
offered = 8 ∷ 3 ∷ 5 ∷ 6 ∷ []

join_runs :
    join above wanted offered
    ≡ record { pairs = (5, 5) ∷ (1, 3) ∷ []; lonely_lefts = 9 ∷ []; lonely_rights = 8 ∷ 6 ∷ [] }
unfolding join
join_runs = refl

slice_del_runs : slice_del {R = ℕ} (1 ∷ 2 ∷ 3 ∷ 4 ∷ []) 1 ≡ 1 ∷ 4 ∷ 3 ∷ []
unfolding slice_del
slice_del_runs = refl

join-Greedy_example : Greedy above wanted (start above offered) (join above wanted offered)
join-Greedy_example = join-Greedy above wanted offered

join_partition_example :
    Perm wanted (lefts (join above wanted offered))
    × Perm offered (rights (join above wanted offered))
join_partition_example = join_partition above wanted offered

join_matched_example : ¬ Negative (above 5 5)
unfolding join
join_matched_example = join_matched above wanted offered (5, 5) mem-cons_self

join_settled_example : Negative (above 9 8)
unfolding join
join_settled_example = join_settled above wanted offered 9 8 mem-cons_self mem-cons_self
