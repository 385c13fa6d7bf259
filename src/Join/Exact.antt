-- ===== src/Join/Exact.antt =====
-- `Join` (join/join.go) with a score that is zero for equal elements and negative for all others: the
-- loops over its results that delete the left elements that stay alone and make the right ones.
use mathlib.Core.HLevel.{¬_prop, ×_prop}
use mathlib.Core.List.{
  mem-append, mem-append_left, mem-append_right, mem-map, mem-map_of_mem, Nodup-append, Mem-prop,
  dec_mem,
}
use mathlib.Core.List.Perm
use mathlib.Core.Logic.{∥∥₁_elim}
use mathlib.Core.Logic.Or
use di.Prelude.{◌≡◌, sym, ◌∙◌, subst, List, map, Mem, Nodup, ℤ, pos}
use di.Join.{Joined, join}
use di.Join.Partition.{join-lefts, join-rights, join_matched, join_settled}
use di.Join.Greedy.{Negative}

module _ {A : Type 0} (score : A → A → ℤ) (score_match : (l r : A) → ¬ Negative (score l r) → l ≡ r)
    (current target : List A) where
  abbrev joined : Joined A A
  joined = join score current target

  paired_eq : (l r : A) → Mem (l, r) joined.pairs → l ≡ r
  paired_eq l r m = score_match l r (join_matched score current target (l, r) m)

  -- A left element that is not to be deleted is wanted.
  pub kept_wanted : (k : A) → Mem k current → ¬ Mem k joined.lonely_lefts → Mem k target
  kept_wanted k m n =
      Or.elim Mem-prop (mem-append.0 ((Perm.mem_iff (join-lefts score current target)).0 m))
        (λ o. ∥∥₁_elim (mem-map.0 o) Mem-prop λ ((l, r), p, e).
          (Perm.mem_iff (join-rights score current target)).1 (
            mem-append_left joined.lonely_rights (
              subst (λ x. Mem x (map (λ p. p.1) joined.pairs)) (sym (paired_eq l r p) ∙ e)
                (mem-map_of_mem (λ p. p.1) p))))
        (λ o. absurd (n o))

  pub made_wanted : (k : A) → Mem k joined.lonely_rights → Mem k target
  made_wanted k m =
      (Perm.mem_iff (join-rights score current target)).1
        (mem-append_right (map (λ p. p.1) joined.pairs) m)

  module _ (distinct : Nodup current) where
    -- A wanted element is to be made, or it is a left element that is not to be deleted.
    pub wanted_kept :
        (k : A)
        → Mem k target
        → ¬ Mem k joined.lonely_rights
        → Mem k current × ¬ Mem k joined.lonely_lefts
    wanted_kept k m n =
        Or.elim (×_prop Mem-prop ¬_prop)
          (mem-append.0 ((Perm.mem_iff (join-rights score current target)).0 m))
          (λ o. ∥∥₁_elim (mem-map.0 o) (×_prop Mem-prop ¬_prop) λ ((l, r), p, e).
            let at : Mem k (map (λ p. p.0) joined.pairs) =
              subst (λ x. Mem x (map (λ p. p.0) joined.pairs)) (paired_eq l r p ∙ e)
                (mem-map_of_mem (λ p. p.0) p) in
            (
              (Perm.mem_iff (join-lefts score current target)).1
                  (mem-append_left joined.lonely_lefts at),
              λ q.
                  (Nodup-append.0 (Perm.nodup (join-lefts score current target) distinct)).2 k at q,
            ))
          (λ o. absurd (n o))

    -- An element that is wanted is not to be deleted.
    pub stays :
        Discrete A
        → ((k : A) → score k k ≡ pos 0)
        → (k : A) → Mem k target
        → ¬ Mem k joined.lonely_lefts
    stays discrete same k m q = elim (dec_mem discrete k joined.lonely_rights) [
      | yes n ↦ subst Negative (same k) (join_settled score current target k k q n)
      | no n ↦ (wanted_kept k m n).1 q
    ]
