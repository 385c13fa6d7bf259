-- ===== src/Join/Greedy.antt =====
-- `Join` (join/join.go) as a greedy matching, stated without indices, scores in hand or slices.
use di.Prelude.{
  ℕ, ◌≡◌, refl, inl, inr, none, some, List, [], ◌∷◌, ◌++◌, Perm, Mem, ℤ, pos, negsuc, arith,
  All→Mem, get_elem?,
}
use di.Join.{
  Joined, Scan, exact, best, scan, slice_del, match_at, finish, join_step, join_loop, join,
}
pub use di.Join.Rounds.{Negative, AtLeast, Negative-prop}
use di.Join.Rounds.{AtLeast-prop, At, Found, scan-Found, perm-slice_del}

AtLeast-zero : (z : ℤ) → AtLeast 0 z
AtLeast-zero (pos t) = omega arith
AtLeast-zero (negsuc t) = tt

module _ {L R : Type 0} (score : L → R → ℤ) where
  -- One left element: it takes a right element with the lowest score that is not negative, or it
  -- stays alone because every score is negative.
  pub data Round (l : L) (s : Joined L R) : Joined L R → Type 0 where
    takes :
        (r : R) (rest : List R) (k : ℕ) {t : Joined L R}
        → Perm s.lonely_rights (r ∷ rest)
        → score l r ≡ pos k
        → ((x : R) → Mem x s.lonely_rights → AtLeast k (score l x))
        → t ≡ record {
          pairs = s.pairs ++ (l, r) ∷ [];
          lonely_lefts = s.lonely_lefts;
          lonely_rights = rest;
        }
        → Round l s t
    stays :
        {t : Joined L R}
        → ((x : R) → Mem x s.lonely_rights → Negative (score l x))
        → t ≡ record {
          pairs = s.pairs;
          lonely_lefts = s.lonely_lefts ++ l ∷ [];
          lonely_rights = s.lonely_rights;
        }
        → Round l s t

  -- The left elements take their turns in order.
  pub data Greedy : List L → Joined L R → Joined L R → Type 0 where
    ends : {s : Joined L R} → Greedy [] s s
    turn :
        {l : L} {ls : List L} {s t u : Joined L R}
        → Round l s t
        → Greedy ls t u
        → Greedy (l ∷ ls) s u

  taken :
      (l : L) (s : Joined L R) (j k : ℕ)
      → At (score l) s.lonely_rights 0 j k
      → ((x : R) → Mem x s.lonely_rights → AtLeast k (score l x))
      → Round l s (match_at l j s)
  unfolding match_at
  taken l s j k (i, r, e, f, g) low =
      let at : get_elem? s.lonely_rights j ≡ some r = ground arith in
      takes r (slice_del s.lonely_rights j) k (perm-slice_del s.lonely_rights j r at) g low
        (rw (at, match_at))

  step-Round : (l : L) (s : Joined L R) → Round l s (join_step score l s)
  unfolding join_step
  step-Round l s =
      by_scan (scan (score l) s.lonely_rights 0 none) (scan-Found (score l) s.lonely_rights 0 none)
    where
      by_scan : (o : Scan) → Found (score l) s.lonely_rights 0 none o → Round l s (finish l o s)
      by_scan (exact j) h = taken l s j 0 h (λ x m. AtLeast-zero (score l x))
      by_scan (best none) h =
          stays (All→Mem (λ x. Negative-prop (score l x)) s.lonely_rights h.1) refl
      by_scan (best (some (j, k))) (a, w, inl f) = cc
      by_scan (best (some (j, k))) (a, w, inr f) =
          taken l s j k f (All→Mem (λ x. AtLeast-prop k (score l x)) s.lonely_rights a)

  loop-Greedy : (ls : List L) (s : Joined L R) → Greedy ls s (join_loop score ls s)
  unfolding join_loop
  loop-Greedy [] s = ends
  loop-Greedy (l ∷ ls) s = turn (step-Round l s) (loop-Greedy ls (join_step score l s))

  abbrev pub start : List R → Joined L R
  start rs = record { pairs = []; lonely_lefts = []; lonely_rights = rs }

  -- `Join` is the greedy matching: the left elements take their turns in order, each takes a right
  -- element that is still there and whose score is the lowest of those that are not negative, and a
  -- left element stays alone only if all its scores are negative.
  pub join-Greedy : (ls : List L) (rs : List R) → Greedy ls (start rs) (join score ls rs)
  unfolding join
  join-Greedy ls rs = loop-Greedy ls (start rs)
