-- ===== src/Join/Rounds.antt =====
-- One round of `Join` (join/join.go): what the scan finds, and what the deletion leaves.
use mathlib.Core.List.Perm
use native.Mathlib.Bridge.{le_prop}
use di.Prelude.{
  ℕ, zero, suc, ◌+◌, ◌-◌, ◌≤◌, ◌≡◌, refl, ◌⊎◌, inl, inr, Option, none, some, List, [], ◌∷◌, Perm,
  arith, ℤ, pos, negsuc, All, length, get_elem?, set, take,
}
use di.Join.{Scan, exact, best, better, scan, slice_del}

-- "Negative scores are never matched."
abbrev pub Negative : ℤ → Type 0
Negative (pos s) = ⊥
Negative (negsuc s) = Unit

-- No better match than a score of `s`.
abbrev pub AtLeast : ℕ → ℤ → Type 0
AtLeast s (pos t) = s ≤ t
AtLeast s (negsuc t) = Unit

pub Negative-prop : (z : ℤ) → IsProp (Negative z)
Negative-prop (pos s) = hlevel
Negative-prop (negsuc s) = hlevel

pub AtLeast-prop : (s : ℕ) (z : ℤ) → IsProp (AtLeast s z)
AtLeast-prop s (pos t) = le_prop
AtLeast-prop s (negsuc t) = hlevel

module _ {R : Type 0} where
  -- The deletion with the last index named.
  abbrev del : ℕ → List R → ℕ → List R
  del n slice i = elim (get_elem? slice n) [ none ↦ slice | some last ↦ take n (set slice i last) ]

  del-suc : (n : ℕ) (x : R) (xs : List R) (i : ℕ) → del (suc n) (x ∷ xs) (suc i) ≡ x ∷ del n xs i
  del-suc n x xs i = ground arith

  perm-last :
      (xs : List R) (n : ℕ)
      → length xs ≡ suc n
      → (z : R) × (get_elem? xs n ≡ some z) × Perm xs (z ∷ take n xs)
  perm-last [] n h = absurd (omega arith)
  perm-last (x ∷ []) zero h = (x, refl, Perm.refl _)
  perm-last (x ∷ []) (suc n) h = absurd (omega arith)
  perm-last (x ∷ y ∷ ys) zero h = absurd (omega arith)
  perm-last (x ∷ y ∷ ys) (suc n) h =
      let (z, e, p) = perm-last (y ∷ ys) n (omega arith) in
      (z, e, Perm.trans (Perm.cons x p) (Perm.swap z x _))

  perm-del :
      (xs : List R) (n i : ℕ) (r : R)
      → length xs ≡ suc n
      → get_elem? xs i ≡ some r
      → Perm xs (r ∷ del n xs i)
  perm-del [] n i r h e = absurd (omega arith)
  perm-del (x ∷ []) zero zero r h e = Perm.cons' (ground arith) Perm.nil
  perm-del (x ∷ []) zero (suc i) r h e = cc
  perm-del (x ∷ []) (suc n) i r h e = absurd (omega arith)
  perm-del (x ∷ y ∷ ys) zero i r h e = absurd (omega arith)
  perm-del (x ∷ y ∷ ys) (suc n) zero r h e =
      let (z, f, p) = perm-last (y ∷ ys) n (omega arith) in
      rw (f, del) (Perm.cons' (ground arith) p)
  perm-del (x ∷ y ∷ ys) (suc n) (suc i) r h e =
      rw del-suc
        (Perm.trans (Perm.cons x (perm-del (y ∷ ys) n i r (omega arith) e)) (Perm.swap r x _))

  -- `sliceDel` takes out exactly the element at its index.
  pub perm-slice_del :
      (xs : List R) (i : ℕ) (r : R) → get_elem? xs i ≡ some r → Perm xs (r ∷ slice_del xs i)
  unfolding slice_del
  perm-slice_del [] i r e = cc
  perm-slice_del (x ∷ xs) i r e = perm-del (x ∷ xs) (length (x ∷ xs) - 1) i r (omega arith) e

  module _ (score : R → ℤ) where
    -- An element of the slice at distance `k` from index `i`, with a score.
    abbrev pub At : List R → ℕ → ℕ → ℕ → Type 0
    At rs i j s = (k : ℕ) × (r : R) × (j ≡ i + k) × (get_elem? rs k ≡ some r) × (score r ≡ pos s)

    abbrev pub NotWorse : Option (ℕ × ℕ) → ℕ → Type 0
    NotWorse none s = Unit
    NotWorse (some (j, t)) s = s ≤ t

    -- What the scan of `rs` from index `i` with `b` in hand may return.
    abbrev pub Found : List R → ℕ → Option (ℕ × ℕ) → Scan → Type 0
    Found rs i b (exact j) = At rs i j 0
    Found rs i b (best none) = (b ≡ none) × All (λ r. Negative (score r)) rs
    Found rs i b (best (some (j, s))) =
        All (λ r. AtLeast s (score r)) rs × NotWorse b s × ((b ≡ some (j, s)) ⊎ At rs i j s)

    At-shift : (r : R) (rs : List R) (i j s : ℕ) → At rs (i + 1) j s → At (r ∷ rs) i j s
    At-shift r rs i j s (k, x, e, f, g) = (suc k, x, omega arith, f, g)

    Found-skip :
        (r : R) (rs : List R) (i : ℕ) (b : Option (ℕ × ℕ)) (n : ℕ) (o : Scan)
        → score r ≡ negsuc n
        → Found rs (i + 1) b o
        → Found (r ∷ rs) i b o
    Found-skip r rs i b n (exact j) e h = At-shift r rs i j 0 h
    Found-skip r rs i b n (best none) e h = (h.0, (rw e tt, h.1))
    Found-skip r rs i b n (best (some (j, s))) e (a, w, inl f) = ((rw e tt, a), w, inl f)
    Found-skip r rs i b n (best (some (j, s))) e (a, w, inr f) =
        ((rw e tt, a), w, inr (At-shift r rs i j s f))

    better-ne-none : (b : Option (ℕ × ℕ)) (i k : ℕ) → better b i k ≡ none → ⊥
    unfolding better
    better-ne-none b i k e = ground arith

    better-NotWorse :
        (b : Option (ℕ × ℕ)) (i k s : ℕ) → NotWorse (better b i k) s → (s ≤ k) × NotWorse b s
    unfolding better
    better-NotWorse none i k s w = (w, tt)
    better-NotWorse (some (j, t)) i k s w = ground arith

    better-eq :
        (b : Option (ℕ × ℕ)) (i k j s : ℕ)
        → better b i k ≡ some (j, s)
        → (b ≡ some (j, s)) ⊎ ((j ≡ i) × (k ≡ s))
    unfolding better
    better-eq none i k j s e = inr (ground arith, ground arith)
    better-eq (some (l, t)) i k j s e = ground arith

    Found-take :
        (r : R) (rs : List R) (i : ℕ) (b : Option (ℕ × ℕ)) (k : ℕ) (o : Scan)
        → score r ≡ pos k
        → Found rs (i + 1) (better b i k) o
        → Found (r ∷ rs) i b o
    Found-take r rs i b k (exact j) e h = At-shift r rs i j 0 h
    Found-take r rs i b k (best none) e h = absurd (better-ne-none b i k h.0)
    Found-take r rs i b k (best (some (j, s))) e (a, w, inr f) =
        let (le, w') = better-NotWorse b i k s w in ((rw e le, a), w', inr (At-shift r rs i j s f))
    Found-take r rs i b k (best (some (j, s))) e (a, w, inl f) =
        let (le, w') = better-NotWorse b i k s w in
        (
          (rw e le, a),
          w',
          elim (better-eq b i k j s f) [
            | inl g ↦ inl g
            | inr (g, h) ↦ inr (0, r, omega arith, refl, rw h at e)
          ],
        )

    pub scan-Found : (rs : List R) (i : ℕ) (b : Option (ℕ × ℕ)) → Found rs i b (scan score rs i b)
    unfolding scan
    scan-Found [] i none = (refl, tt)
    scan-Found [] i (some (j, s)) = (tt, omega arith, inl refl)
    scan-Found (r ∷ rs) i b = by_score (score r) refl (λ c. scan-Found rs (i + 1) c)
      where
        by_score :
            (z : ℤ)
            → score r ≡ z
            → ((c : Option (ℕ × ℕ)) → Found rs (i + 1) c (scan score rs (i + 1) c))
            → Found (r ∷ rs) i b (scan score (r ∷ rs) i b)
        by_score (negsuc n) e ih = rw (e, scan) (Found-skip r rs i b n _ e (ih b))
        by_score (pos zero) e ih = rw (e, scan) (0, r, omega arith, refl, e)
        by_score (pos (suc k)) e ih =
            rw (e, scan) (Found-take r rs i b (suc k) _ e (ih (better b i (suc k))))
