-- ===== src/Db/Sync/Effects.antt =====
-- What the row operations of db/db.go and the loops over them leave in a database.
use mathlib.Core.List.{
  mem-cons, mem-cons_self, mem-cons_of_mem, mem-map, Nodup-cons, perm_middle, map-append,
}
use mathlib.Core.List.Perm
use mathlib.Core.Logic.{∥∥₁_elim}
use mathlib.Core.Logic.Or
use native.Mathlib.Bridge.{le_prop}
use di.Prelude.{
  filter, dec_true, true, perm_rotate, ℕ, ◌+◌, ◌≤◌, ◌≡◌, refl, sym, ap, ◌∙◌, subst, some, List, [],
  ◌∷◌, ◌++◌, map, Mem, Perm, Nodup, arith,
}
use di.Join.{Joined}
use di.Join.Partition.{rights}
use di.Db.{Database, Row, insert, commit, remove, insert_new}
use di.Db.Tables
use di.Db.Tables.{Table}
use di.Db.Tables.Effects.{without-Perm, commit-Perm, without_others}
use mathlib.Core.HLevel.{⊥_prop}
use di.Db.Tables.{without}
use di.Db.Sync.{remove_all, insert_all, commit_all, sync}

-- `db` is `old` but for the table of `A` and for the ids handed out, which only go up.
abbrev pub Frame : (A : Type 0) ⦃row : Row A⦄ → Database → Database → Type 0
Frame A ⦃row⦄ old db =
    (n : ℕ) × (t : Table A) × (old.id_alloc ≤ db.id_alloc)
    × (db ≡ row.set_table (record old { id_alloc = n }) t)

-- A selection without a test takes every row.
pub select_any : {A : Type 0} (xs : List A) → filter (λ x. dec_true true) xs ≡ xs
select_any [] = refl
select_any (x ∷ xs) = ap (λ (l : List _). x ∷ l) (select_any xs)

insert_all-sources :
    (A : Type 0) ⦃row : Row A⦄ {S : Type 0} (db : Database) (ls : List S)
    → map (λ p. p.0) (insert_all {A = A} ls db).1 ≡ ls
unfolding insert_all
insert_all-sources A db [] = refl
insert_all-sources A {S = S} db (l ∷ ls) =
    ap (λ (k : List S). l ∷ k) (insert_all-sources A (insert_new {A = A} db).0 ls)

module _ {A : Type 0} ⦃row : Row A⦄ where
  abbrev pub rows : Database → List A
  rows db = (row.table db).rows

  -- The table holds the rows `xs`, in some order, under distinct ids that have been handed out;
  -- nothing else has changed since `old`.
  pub record Holds (old db : Database) (xs : List A) : Type 0 where
    pub unique : Nodup (map row.id xs)
    pub bounded : (r : A) → Mem r xs → row.id r ≤ db.id_alloc
    pub perm : Perm (rows db) xs
    pub frame : Frame A old db

  pub rows-set_table : (db : Database) (t : Table A) → rows (row.set_table db t) ≡ t.rows
  rows-set_table db t = ap (λ (u : Table A). u.rows) (row.table-set_table db t)

  rows-alloc : (db : Database) (n : ℕ) → rows (record db { id_alloc = n }) ≡ rows db
  rows-alloc db n = ap (λ (u : Table A). u.rows) (row.table-alloc db n)

  Frame-set : (old db : Database) (t : Table A) → Frame A old db → Frame A old (row.set_table db t)
  Frame-set old db t (n, u, a, e) =
      (n, t, rw row.id_alloc-set_table a, rw e (row.set_table-set_table _ u t))

  Frame-alloc :
      (old db : Database) (m : ℕ)
      → db.id_alloc ≤ m
      → Frame A old db
      → Frame A old (record db { id_alloc = m })
  Frame-alloc old db m le (n, u, a, e) = (
    m,
    u,
    omega arith,
    ap (λ (d : Database). record d { id_alloc = m }) e ∙ row.alloc-set_table _ u m,
  )

  module _ {old db : Database} where
    rows-unique : {xs : List A} → Holds old db xs → Nodup (map row.id (rows db))
    rows-unique h = Perm.nodup (Perm.map row.id (Perm.symm h.perm)) h.unique

    pub Holds-perm : {xs ys : List A} → Perm xs ys → Holds old db xs → Holds old db ys
    Holds-perm p h = record {
      unique = Perm.nodup (Perm.map row.id p) h.unique;
      bounded = λ r m. h.bounded r ((Perm.mem_iff p).1 m);
      perm = Perm.trans h.perm p;
      frame = h.frame;
    }

    pub remove-Holds : (r : A) {xs : List A} → Holds old db (r ∷ xs) → Holds old (remove r db) xs
    unfolding remove Tables.remove
    remove-Holds r {xs} h = record {
      unique = (Nodup-cons.0 h.unique).1;
      bounded = λ x m. rw row.id_alloc-set_table (h.bounded x (mem-cons_of_mem r m));
      perm =
          subst (λ (ys : List A). Perm ys xs) (sym (rows-set_table db _))
            (without-Perm row.id h.perm (rows-unique h));
      frame = Frame-set old db _ h.frame;
    }

    pub commit-Holds :
        (r : A) {old_row : A} {xs : List A}
        → Holds old db (old_row ∷ xs)
        → row.id r ≡ row.id old_row
        → (db' : Database) × (commit r db ≡ some db') × Holds old db' (r ∷ xs)
    unfolding commit
    commit-Holds r {old_row} {xs} h e =
        let (t, f, p) =
          commit-Perm row.id row.deep_equal (row.table db) r h.perm (rows-unique h) e in
        (
          row.set_table db t,
          rw (f, commit),
          record {
            unique = rw e h.unique;
            bounded = λ x m. rw row.id_alloc-set_table (
                Or.elim le_prop (mem-cons.0 m) (λ q. rw (q, e) (h.bounded old_row mem-cons_self))
                  (λ n. h.bounded x (mem-cons_of_mem old_row n)));
            perm = subst (λ (ys : List A). Perm ys (r ∷ xs)) (sym (rows-set_table db t)) p;
            frame = Frame-set old db t h.frame;
          },
        )

    fresh : {xs : List A} → Holds old db xs → ¬ Mem (db.id_alloc + 1) (map row.id xs)
    fresh {xs} h m =
        ∥∥₁_elim (mem-map.0 m) ⊥_prop λ (x, n, e). absurd (omega (arith, h.bounded x n))

    pub insert_new-Holds :
        {xs : List A}
        → Holds old db xs
        → Holds old (insert_new {A = A} db).0 ((insert_new {A = A} db).1 ∷ xs)
    unfolding insert_new Tables.insert
    insert_new-Holds {xs} h = record {
      unique = Nodup-cons.1 (rw (row.id-blank (db.id_alloc + 1)) (fresh h), h.unique);
      bounded = λ x m.
          rw (insert, row.id_alloc-set_table)
            (Or.elim le_prop (mem-cons.0 m)
              (λ q. rw (q, row.id-blank (db.id_alloc + 1)) (omega arith))
              (λ n. omega (arith, h.bounded x n)));
      perm =
          subst (λ (ys : List A). Perm ys (row.blank (db.id_alloc + 1) ∷ xs))
            (sym (rows-set_table _ _))
            (Perm.cons _ (subst (λ (ys : List A). Perm ys xs) (sym others_stay) h.perm));
      frame = Frame-set old _ _ (Frame-alloc old db _ (omega arith) h.frame);
    }
      where
        others_stay :
            without row.id
              (row.id (row.blank (db.id_alloc + 1)))
              (rows (record db { id_alloc = db.id_alloc + 1 }))
            ≡ rows db
        others_stay =
            ap (without row.id (row.id (row.blank (db.id_alloc + 1)))) (rows-alloc db _)
            ∙ without_others row.id _ (rows db) (λ x m e.
              omega
                (arith, h.bounded x ((Perm.mem_iff h.perm).0 m), row.id-blank (db.id_alloc + 1), e))

  remove_all-Holds :
      (old db : Database) (dead xs : List A)
      → Holds old db (dead ++ xs)
      → Holds old (remove_all dead db) xs
  unfolding remove_all
  remove_all-Holds old db [] xs h = h
  remove_all-Holds old db (r ∷ dead) xs h =
      remove_all-Holds old (remove r db) dead xs (remove-Holds r h)

  module _ {S : Type 0} where
    insert_all-Holds :
        (old db : Database) (ls : List S) (xs : List A)
        → Holds old db xs
        → Holds old (insert_all {A = A} ls db).0 (map (λ p. p.1) (insert_all {A = A} ls db).1 ++ xs)
    unfolding insert_all
    insert_all-Holds old db [] xs h = h
    insert_all-Holds old db (l ∷ ls) xs h =
        Holds-perm
          (perm_middle (map (λ p. p.1) (insert_all {A = A} ls (insert_new {A = A} db).0).1) xs)
          (insert_all-Holds old (insert_new {A = A} db).0 ls ((insert_new {A = A} db).1 ∷ xs)
            (insert_new-Holds h))

    module _ (update : S → A → A) (keeps : (s : S) (r : A) → row.id (update s r) ≡ row.id r) where
      pub commit_all-Holds :
          (old db : Database) (pairs : List (S × A)) (xs : List A)
          → Holds old db (map (λ p. p.1) pairs ++ xs)
          → (db' : Database) × (commit_all update pairs db ≡ some db')
            × Holds old db' (map (λ p. update p.0 p.1) pairs ++ xs)
      unfolding commit_all
      commit_all-Holds old db [] xs h = (db, refl, h)
      commit_all-Holds old db ((l, r) ∷ pairs) xs h =
          let (db₁, e, h₁) = commit-Holds (update l r) h (keeps l r) in
          let (db₂, f, h₂) =
            commit_all-Holds old db₁ pairs (update l r ∷ xs)
              (Holds-perm (Perm.symm (perm_middle (map (λ p. p.1) pairs) xs)) h₁) in
          (
            db₂,
            rw (e, commit_all) f,
            Holds-perm (perm_middle (map (λ p. update p.0 p.1) pairs) xs) h₂,
          )

      -- The rows that the three loops write: one for every pair, updated, and one more, updated from a
      -- new row, for every element left over on the left; the rows left over on the right are gone.
      pub sync-Holds :
          (old db : Database) (joined : Joined S A) (xs : List A)
          → Holds old db (rights joined ++ xs)
          → (db' : Database) × (new : List (S × A)) × (sync update joined db ≡ some db')
            × (map (λ p. p.0) new ≡ joined.lonely_lefts)
            × Holds old db' (map (λ p. update p.0 p.1) (joined.pairs ++ new) ++ xs)
      unfolding sync
      sync-Holds old db joined xs h =
          let h₁ =
            remove_all-Holds old db joined.lonely_rights (map (λ p. p.1) joined.pairs ++ xs)
              (Holds-perm (perm_rotate (map (λ p. p.1) joined.pairs) joined.lonely_rights xs) h) in
          let h₂ = insert_all-Holds old _ joined.lonely_lefts _ h₁ in
          let new =
            (insert_all {A = A} joined.lonely_lefts (remove_all joined.lonely_rights db)).1 in
          let (db', e, h₃) = commit_all-Holds old _ (joined.pairs ++ new) xs (
            rw map-append (
              Holds-perm
                (Perm.symm (perm_rotate (map (λ p. p.1) joined.pairs) (map (λ p. p.1) new) xs))
                h₂)) in
          (db', new, e, insert_all-sources A _ joined.lonely_lefts, h₃)
