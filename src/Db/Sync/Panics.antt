-- ===== src/Db/Sync/Panics.antt =====
-- `Commit` of db/db.go on a row that is not there: the panic "Type Error".
use mathlib.Core.HLevel.{⊥_prop}
use mathlib.Core.List.{mem-cons, not-mem-nil, mem-map_of_mem}
use mathlib.Core.Logic.{if_pos, if_neg}
use mathlib.Core.Logic.Or
use di.Prelude.{
  none≢some, some-injective, ℕ, ◌+◌, ◌≡◌, refl, sym, ap, ◌∙◌, subst, inl, inr, none, some, List, [],
  ◌∷◌, map, Mem, Option-cases, ℕ_discrete, ite,
}
use di.Db.{Database, Row, commit}
use di.Db.Tables
use di.Db.Tables.{Table, find, overwrite}
use di.Db.Tables.Effects.{find-some}
use di.Db.Sync.{commit_all}
use di.Db.Sync.Effects.{rows, rows-set_table}

overwrite-ids :
    {A : Type 0} (id : A → ℕ) (r : A) (xs : List A) → map id (overwrite id r xs) ≡ map id xs
overwrite-ids id r [] = refl
overwrite-ids id r (x ∷ xs) = elim (ℕ_discrete (id x) (id r)) [
  | yes e ↦ rw (if_pos _ e) (λ i. sym e i ∷ overwrite-ids id r xs i)
  | no n ↦ rw (if_neg _ n) (ap (λ (l : List ℕ). id x ∷ l) (overwrite-ids id r xs))
]

module _ {A : Type 0} ⦃row : Row A⦄ where
  abbrev pub Lost : Database → A → Type 0
  Lost db r = ¬ Mem (row.id r) (map row.id (rows db))

  ite-ids :
      {P : Type 0} (d : Dec P) (t u : Table A)
      → map row.id u.rows ≡ map row.id t.rows
      → map row.id (ite d t u).rows ≡ map row.id t.rows
  ite-ids (yes p) t u e = refl
  ite-ids (no n) t u e = e

  commit-Lost : (db : Database) (r : A) → Lost db r → commit r db ≡ none
  unfolding commit Tables.commit
  commit-Lost db r lost = elim (Option-cases (find row.id (row.id r) (rows db))) [
    | inl e ↦ rw (e, commit, Tables.commit) refl
    | inr (x, e) ↦
        let (f, m) = find-some row.id (row.id r) (rows db) x e in
        absurd (lost (subst (λ n. Mem n (map row.id (rows db))) f (mem-map_of_mem row.id m)))
  ]

  commit-ids :
      (db db' : Database) (r : A)
      → commit r db ≡ some db'
      → map row.id (rows db') ≡ map row.id (rows db)
  unfolding commit Tables.commit
  commit-ids db db' r e = elim (Option-cases (find row.id (row.id r) (rows db))) [
    | inl f ↦ absurd (none≢some (sym (rw (f, commit, Tables.commit) refl) ∙ e))
    | inr (x, f) ↦
        let stored = ite (row.deep_equal x r) (row.table db) (record (row.table db) {
          rows = overwrite row.id r (rows db);
          seq = (row.table db).seq + 1;
        }) in
        let h : row.set_table db stored ≡ db' =
          some-injective (sym (rw (f, commit, Tables.commit) refl) ∙ e) in
        ap (λ (d : Database). map row.id (rows d)) (sym h)
        ∙ ap (map row.id) (rows-set_table db stored)
        ∙ ite-ids (row.deep_equal x r) (row.table db) _ (overwrite-ids row.id r (rows db))
  ]

  module _ {S : Type 0} (update : S → A → A)
      (keeps : (s : S) (r : A) → row.id (update s r) ≡ row.id r) where
    -- A loop of commits that comes to a row which is not in the database panics.
    pub commit_all-Lost :
        (pairs : List (S × A)) (db db' : Database) (s : S) (r : A)
        → Mem (s, r) pairs
        → Lost db r
        → ¬ (commit_all update pairs db ≡ some db')
    unfolding commit_all
    commit_all-Lost [] db db' s r m lost e = not-mem-nil m
    commit_all-Lost ((t, q) ∷ pairs) db db' s r m lost e =
        elim (Option-cases (commit (update t q) db)) [
          | inl f ↦ none≢some (sym (rw (f, commit_all) refl) ∙ e)
          | inr (db₁, f) ↦
              let rest : commit_all update pairs db₁ ≡ some db' =
                sym (rw (f, commit_all) refl) ∙ e in
              let ids = commit-ids db db₁ (update t q) f in
              Or.elim ⊥_prop (mem-cons.0 m) (λ h. none≢some (sym (stops h) ∙ f))
                (λ n.
                  commit_all-Lost pairs db₁ db' s r n (λ o. lost (subst (Mem (row.id r)) ids o))
                    rest)
        ]
      where
        stops : ◌≡◌ {A = S × A} (s, r) (t, q) → commit (update t q) db ≡ none
        stops h = commit-Lost db (update t q) λ n. lost (
            subst (λ k. Mem k (map row.id (rows db)))
              (keeps t q ∙ ap (λ (p : S × A). row.id p.1) (sym h)) n)
