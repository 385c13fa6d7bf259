-- ===== src/Join/Partition.antt =====
-- What every call of `Join` (join/join.go) guarantees to its callers.
use mathlib.Core.List.{
  map-append, append_assoc, append-nil, mem-append, mem-cons, perm_middle, not-mem-nil,
  mem-cons_of_mem,
}
use mathlib.Core.List.Perm
use mathlib.Core.Logic.Or
use mathlib.Core.HLevel.{¬_prop}
use di.Prelude.{List, ◌∷◌, ◌++◌, map, Perm, Mem, ℤ, perm_snoc, subst}
use di.Join.{Joined, join}
use di.Join.Greedy.{Negative, Negative-prop, Round, Greedy, takes, stays, ends, turn, join-Greedy}

-- All left elements that a result holds, and all right ones.
abbrev pub lefts : {L R : Type 0} → Joined L R → List L
lefts s = map (λ p. p.0) s.pairs ++ s.lonely_lefts

abbrev pub rights : {L R : Type 0} → Joined L R → List R
rights s = map (λ p. p.1) s.pairs ++ s.lonely_rights

module _ {L R : Type 0} (score : L → R → ℤ) where
  lefts-Round :
      (l : L) (ls : List L) {s t : Joined L R}
      → Round score l s t
      → Perm (lefts s ++ l ∷ ls) (lefts t ++ ls)
  lefts-Round l ls {s} (takes r rest k p e low f) =
      rw (f, map-append)
        (Perm.trans (perm_middle (lefts s) ls)
          (Perm.symm (Perm.append_right ls (perm_snoc l (map (λ q. q.0) s.pairs) s.lonely_lefts))))
  lefts-Round l ls {s} (stays low f) =
      rw (f, ← append_assoc)
        (Perm.trans (perm_middle (lefts s) ls) (Perm.symm (perm_snoc l (lefts s) ls)))

  lefts-Greedy :
      {ls : List L} {s t : Joined L R} → Greedy score ls s t → Perm (lefts s ++ ls) (lefts t)
  lefts-Greedy {s = s} ends = rw append-nil (Perm.refl (lefts s))
  lefts-Greedy (turn {l} {ls} {s} {t} {u} h g) = Perm.trans (lefts-Round l ls h) (lefts-Greedy g)

  rights-Round : (l : L) {s t : Joined L R} → Round score l s t → Perm (rights s) (rights t)
  rights-Round l {s} (takes r rest k p e low f) =
      rw (f, map-append)
        (Perm.trans (Perm.append_left (map (λ q. q.1) s.pairs) p) (
          Perm.trans (perm_middle (map (λ q. q.1) s.pairs) rest)
            (Perm.symm (perm_snoc r (map (λ q. q.1) s.pairs) rest))))
  rights-Round l {s} (stays low f) = rw f (Perm.refl (rights s))

  rights-Greedy :
      {ls : List L} {s t : Joined L R} → Greedy score ls s t → Perm (rights s) (rights t)
  rights-Greedy {s = s} ends = Perm.refl (rights s)
  rights-Greedy (turn {l} h g) = Perm.trans (rights-Round l h) (rights-Greedy g)

  matched-Round :
      (l : L) {s t : Joined L R}
      → Round score l s t
      → ((p : L × R) → Mem p s.pairs → ¬ Negative (score p.0 p.1))
      → (p : L × R) → Mem p t.pairs
      → ¬ Negative (score p.0 p.1)
  matched-Round l (takes r rest k q e low f) h p m =
      Or.elim (¬_prop) (mem-append.0 (subst (λ u. Mem p u.pairs) f m)) (h p)
        (λ n. Or.elim ¬_prop (mem-cons.0 n) (λ x. rw (x, e) (λ z. z)) (λ z. absurd (not-mem-nil z)))
  matched-Round l (stays low f) h p m = h p (subst (λ u. Mem p u.pairs) f m)

  matched-Greedy :
      {ls : List L} {s t : Joined L R}
      → Greedy score ls s t
      → ((p : L × R) → Mem p s.pairs → ¬ Negative (score p.0 p.1))
      → (p : L × R) → Mem p t.pairs
      → ¬ Negative (score p.0 p.1)
  matched-Greedy ends h = h
  matched-Greedy (turn {l} r g) h = matched-Greedy g (matched-Round l r h)

  -- No left element that stayed alone matches a right element that is still there.
  abbrev Settled : Joined L R → Type 0
  Settled s = (l : L) (r : R) → Mem l s.lonely_lefts → Mem r s.lonely_rights → Negative (score l r)

  Settled-Round : (l : L) {s t : Joined L R} → Round score l s t → Settled s → Settled t
  Settled-Round l {s} (takes r rest k p e low f) h =
      rw f (λ x y m n. h x y m ((Perm.mem_iff p).1 (mem-cons_of_mem r n)))
  Settled-Round l {s} (stays low f) h = rw f λ x y m n.
      Or.elim (Negative-prop (score x y)) (mem-append.0 m) (λ o. h x y o n)
        λ o.
          Or.elim (Negative-prop (score x y)) (mem-cons.0 o) (λ q. rw q (low y n))
            (λ z. absurd (not-mem-nil z))

  Settled-Greedy : {ls : List L} {s t : Joined L R} → Greedy score ls s t → Settled s → Settled t
  Settled-Greedy ends h = h
  Settled-Greedy (turn {l} r g) h = Settled-Greedy g (Settled-Round l r h)

  module _ (ls : List L) (rs : List R) where
    pub join-lefts : Perm ls (lefts (join score ls rs))
    join-lefts = lefts-Greedy (join-Greedy score ls rs)

    pub join-rights : Perm rs (rights (join score ls rs))
    join-rights = rights-Greedy (join-Greedy score ls rs)

    -- `Join` loses and invents nothing: the left elements are those of the pairs and the lonely lefts,
    -- the right elements those of the pairs and the lonely rights, each as often as it was given.
    pub join_partition : Perm ls (lefts (join score ls rs)) × Perm rs (rights (join score ls rs))
    join_partition = (join-lefts, join-rights)

    -- No pair that `Join` returns has a negative score.
    pub join_matched : (p : L × R) → Mem p (join score ls rs).pairs → ¬ Negative (score p.0 p.1)
    join_matched = matched-Greedy (join-Greedy score ls rs) (λ p m. absurd (not-mem-nil m))

    -- A left and a right element that are both left over have a negative score: `Join` leaves no pair
    -- unmatched that it could still match.
    pub join_settled :
        (l : L) (r : R)
        → Mem l (join score ls rs).lonely_lefts
        → Mem r (join score ls rs).lonely_rights
        → Negative (score l r)
    join_settled = Settled-Greedy (join-Greedy score ls rs) (λ l r m n. absurd (not-mem-nil m))
