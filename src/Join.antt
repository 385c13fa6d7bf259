-- ===== src/Join.antt =====
-- join/join.go: matching the elements of two slices by a score function.
-- `interface{}` elements are type parameters. A score is a Go `int`; it is only compared.
mod Rounds
pub mod Greedy
pub mod Partition
pub mod Exact
mod Tests
use di.Prelude.{
  ℕ, zero, suc, ◌+◌, ◌-◌, Option, none, some, List, [], ◌∷◌, ◌++◌, ℤ, pos, negsuc, ltb, length,
  get_elem?, set, take, if◌then◌else◌,
}

-- The named results of `Join`, as far as the loop over the left slice has come.
pub record Joined {ℓ κ} (L : Type ℓ) (R : Type κ) : Type (ℓ ⊔ κ) where
  pub pairs : List (L × R)
  pub lonely_lefts : List L
  pub lonely_rights : List R

-- How the loop over `lonelyRights` ends: a score of zero at an index, or the index and the score
-- of `bestIndex` and `bestScore`, `none` where both are still -1.
pub data Scan : Type 0 where
  exact : ℕ → Scan
  best : Option (ℕ × ℕ) → Scan

-- `case s < bestScore || bestScore < 0`
unfoldable pub better : Option (ℕ × ℕ) → ℕ → ℕ → Option (ℕ × ℕ)
better none i s = some (i, s)
better (some (j, t)) i s = if ltb s t then some (i, s) else some (j, t)

module _ {ℓ} {R : Type ℓ} where
  unfoldable pub scan : (R → ℤ) → List R → ℕ → Option (ℕ × ℕ) → Scan
  unfolding better
  scan score [] i b = best b
  scan score (r ∷ rs) i b = elim (score r) [
    | negsuc _ ↦ scan score rs (i + 1) b
    | pos s ↦ elim s [ zero ↦ exact i | suc k ↦ scan score rs (i + 1) (better b i (suc k)) ]
  ]

  -- The last element moves to index `i`, and the slice loses its last place. Every call of the
  -- loop is within the slice; on an empty slice the source would panic.
  unfoldable pub slice_del : List R → ℕ → List R
  slice_del slice i = elim (get_elem? slice (length slice - 1)) [
    | none ↦ slice
    | some last ↦ take (length slice - 1) (set slice i last)
  ]

module _ {ℓ κ} {L : Type ℓ} {R : Type κ} where
  -- `pairs = append(pairs, Pair{l, lonelyRights[i]})` and the deletion that follows it
  unfoldable pub match_at : L → ℕ → Joined L R → Joined L R
  unfolding slice_del
  match_at l i st = elim (get_elem? st.lonely_rights i) [
    | none ↦ st
    | some r ↦ record st {
      pairs = st.pairs ++ (l, r) ∷ [];
      lonely_rights = slice_del st.lonely_rights i;
    }
  ]

  unfoldable pub finish : L → Scan → Joined L R → Joined L R
  unfolding match_at
  finish l (exact i) st = match_at l i st
  finish l (best (some (i, s))) st = match_at l i st
  finish l (best none) st = record st { lonely_lefts = st.lonely_lefts ++ l ∷ [] }

  module _ (score : L → R → ℤ) where
    -- One round of the outer loop.
    unfoldable pub join_step : L → Joined L R → Joined L R
    unfolding finish scan
    join_step l st = finish l (scan (score l) st.lonely_rights 0 none) st

    unfoldable pub join_loop : List L → Joined L R → Joined L R
    unfolding join_step
    join_loop [] st = st
    join_loop (l ∷ ls) st = join_loop ls (join_step l st)

    unfoldable pub join : List L → List R → Joined L R
    unfolding join_loop
    join ls rs = join_loop ls (record { pairs = []; lonely_lefts = []; lonely_rights = rs })
