-- ===== src/Db/Tables.antt =====
-- db/table.go and the row operations of db/db.go, for one table.
-- The rows are the values of the Go map, whose keys are the rows' own ids; their order is the order
-- in which a range over the map meets them, which Go leaves open: no theorem fixes it.
pub mod Effects
use di.Prelude.{
  ℕ, suc, ◌+◌, ◌≡◌, ite, Bool, Option, none, some, List, [], ◌∷◌, filter, map, ℕ_discrete, dec_ne,
  dec_true, ◌==◌, if◌then◌else◌,
}

pub record Table (A : Type 0) : Type 0 where
  pub rows : List A
  pub triggers : List ℕ
  pub trig_seq : ℕ
  pub seq : ℕ

unfoldable pub new_table : {A : Type 0} → Table A
new_table = record { rows = []; triggers = []; trig_seq = 0; seq = 0 }

module _ {A : Type 0} (id : A → ℕ) where
  -- `table.rows[rid]`
  unfoldable pub find : ℕ → List A → Option A
  find rid [] = none
  find rid (r ∷ rs) = if id r == rid then some r else find rid rs

  -- `delete(table.rows, rid)`
  abbrev pub without : ℕ → List A → List A
  without rid = filter λ r. dec_ne (id r) rid

  -- `table.rows[rid] = r` where the id has a row
  abbrev pub overwrite : A → List A → List A
  overwrite r = map λ x. ite (ℕ_discrete (id x) (id r)) r x

  -- `table.seq++; table.rows[getID(r)] = r`
  unfoldable pub insert : A → Table A → Table A
  insert r t = record t { seq = t.seq + 1; rows = r ∷ without (id r) t.rows }

  unfoldable pub remove : A → Table A → Table A
  remove r t = record t { rows = without (id r) t.rows; seq = t.seq + 1 }

  -- `none` is the panic "Type Error" of a commit whose id has no row. A row that is deeply equal to
  -- the stored one does not count as a change.
  unfoldable pub commit : Discrete A → A → Table A → Option (Table A)
  commit deep_equal r t = elim (find (id r) t.rows) [
    | none ↦ none
    | some old ↦
        some (ite (deep_equal old r) t (record t { rows = overwrite r t.rows; seq = t.seq + 1 }))
  ]

-- A range over the rows that keeps those which pass `check`.
unfoldable pub select : {A : Type 0} → (A → Bool) → Table A → List A
select check t = filter (λ r. dec_true (check r)) t.rows
