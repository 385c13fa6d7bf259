-- ===== src/Db/Sync.antt =====
-- The loops by which every component writes the result of a `Join` into a table: delete the rows
-- that are left over, insert a row for each element that is left over, commit every pair.
pub mod Flips
pub mod Effects
pub mod Policy
pub mod Panics
use di.Prelude.{Option, none, some, List, [], ◌∷◌, ◌++◌, map}
use di.Join.{Joined}
use di.Db.{Database, Row, commit, remove, insert_new}

-- The result of a `Join` that has the rows on its left.
unfoldable pub flip : {L R : Type 0} → Joined L R → Joined R L
flip joined = record {
  pairs = map (λ p. (p.1, p.0)) joined.pairs;
  lonely_lefts = joined.lonely_rights;
  lonely_rights = joined.lonely_lefts;
}

module _ {A : Type 0} ⦃row : Row A⦄ where
  -- `for _, r := range lonely { view.Remove(r) }`
  unfoldable pub remove_all : List A → Database → Database
  remove_all [] db = db
  remove_all (r ∷ rs) db = remove_all rs (remove r db)

  -- `for _, l := range lonely { pairs = append(pairs, join.Pair{L: l, R: view.InsertRow()}) }`
  unfoldable pub insert_all : {S : Type 0} → List S → Database → Database × List (S × A)
  insert_all [] db = (db, [])
  insert_all (l ∷ ls) db =
      let (db₁, r) = insert_new db in let (db₂, pairs) = insert_all ls db₁ in (db₂, (l, r) ∷ pairs)

  -- `for _, pair := range pairs { ...; view.Commit(r) }`
  unfoldable pub commit_all : {S : Type 0} → (S → A → A) → List (S × A) → Database → Option Database
  commit_all update [] db = some db
  commit_all update ((l, r) ∷ pairs) db = elim (commit (update l r) db) [
    | none ↦ none
    | some db' ↦ commit_all update pairs db'
  ]

  -- The three loops in a row, over the result of a `Join` with the rows on its right.
  unfoldable pub sync : {S : Type 0} → (S → A → A) → Joined S A → Database → Option Database
  unfolding remove_all insert_all commit_all
  sync update joined db =
      let (db', new) = insert_all joined.lonely_lefts (remove_all joined.lonely_rights db) in
      commit_all update (joined.pairs ++ new) db'
