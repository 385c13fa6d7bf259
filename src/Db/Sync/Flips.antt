-- ===== src/Db/Sync/Flips.antt =====
-- The result of a `Join` (join/join.go) with its sides exchanged.
use di.Prelude.{◌≡◌, refl, ap, List, [], ◌∷◌, ◌++◌, map}
use di.Join.{Joined}
use di.Join.Partition.{lefts, rights}
use di.Db.Sync.{flip}

module _ {S A : Type 0} where
  pub lefts-flip : (j : Joined A S) → lefts (flip j) ≡ rights j
  unfolding flip
  lefts-flip j = ap (λ (l : List S). l ++ j.lonely_rights) (swap-fst j.pairs)
    where
      swap-fst :
          (ps : List (A × S))
          → map (λ p. p.0) (map {B = S × A} (λ p. (p.1, p.0)) ps) ≡ map (λ p. p.1) ps
      swap-fst [] = refl
      swap-fst (p ∷ ps) = ap (λ (l : List S). p.1 ∷ l) (swap-fst ps)

  pub rights-flip : (j : Joined A S) → rights (flip j) ≡ lefts j
  unfolding flip
  rights-flip j = ap (λ (l : List A). l ++ j.lonely_lefts) (swap-snd j.pairs)
    where
      swap-snd :
          (ps : List (A × S))
          → map (λ p. p.1) (map {B = S × A} (λ p. (p.1, p.0)) ps) ≡ map (λ p. p.0) ps
      swap-snd [] = refl
      swap-snd (p ∷ ps) = ap (λ (l : List A). p.0 ∷ l) (swap-snd ps)
