-- ===== src/Db/Sync/Policy.antt =====
-- The contract of a component that makes the rows which pass a test follow a list of sources: join
-- the sources with those rows, then run the loops of `sync`.
use mathlib.Core.List.{
  map-append, append-nil, filter-append, filter-eq_self, mem-filter, mem-map_of_mem,
  mem-append_left,
}
use mathlib.Core.Bool.{false≢true}
use mathlib.Core.Logic.{if_pos, if_neg}
use mathlib.Core.List.Perm
use di.Prelude.{
  arith, ◌≤◌, ◌≡◌, refl, sym, ap, ◌∙◌, subst, Bool, true, some, List, [], ◌∷◌, ◌++◌, map, filter,
  Mem, Perm, Nodup, ℤ, dec_true, dec_false, perm-filter-split, Bool-cases, inl, inr,
}
use di.Join.{Joined, join}
use di.Join.Partition.{lefts, rights, join-lefts, join-rights}
use di.Db.{Database, Row, select_from}
use di.Db.Tables
use di.Db.Tables.{Table}
use di.Db.Sync.Flips.{lefts-flip, rights-flip}
use di.Db.Sync.{sync, flip}
use di.Db.Sync.Effects.{rows, Frame, Holds, Holds-perm, sync-Holds}

-- Distinct ids, all of them handed out.
pub record WellFormed (A : Type 0) ⦃row : Row A⦄ (db : Database) : Type 0 where
  pub unique : Nodup (map row.id (rows db))
  pub bounded : (r : A) → Mem r (rows db) → row.id r ≤ db.id_alloc

module _ {A : Type 0} ⦃row : Row A⦄ where
  pub WellFormed→Holds : {db : Database} → WellFormed A db → Holds db db (rows {A = A} db)
  WellFormed→Holds {db} w = record {
    unique = w.unique;
    bounded = w.bounded;
    perm = Perm.refl (rows {A = A} db);
    frame = (db.id_alloc, row.table db, omega arith, sym (row.set_table-table db));
  }

  pub Holds→WellFormed : {old db : Database} {xs : List A} → Holds old db xs → WellFormed A db
  Holds→WellFormed h = record {
    unique = Perm.nodup (Perm.map row.id (Perm.symm h.perm)) h.unique;
    bounded = λ r m. h.bounded r ((Perm.mem_iff h.perm).0 m);
  }

  -- A table that stays as it is stays well formed while ids are handed out.
  pub WellFormed-moved :
      (db db' : Database)
      → row.table db' ≡ row.table db
      → db.id_alloc ≤ db'.id_alloc
      → WellFormed A db
      → WellFormed A db'
  WellFormed-moved db db' m a w = record {
    unique = subst (λ (t : Table A). Nodup (map row.id t.rows)) (sym m) w.unique;
    bounded = λ r n. omega (arith, w.bounded r (subst (λ (t : Table A). Mem r t.rows) m n));
  }

  -- The rows that fail a test.
  abbrev pub unselected : (A → Bool) → Database → List A
  unselected check db = filter (λ r. dec_false (check r)) (rows db)

  module _ {S V : Type 0} where
    -- `db'` is `db` after its rows that pass `check` were made to follow `sources`: seen through
    -- `view` they are the sources, each as often as it is given; the matched rows keep what `update`
    -- does not write; the other rows and the other tables are as they were.
    pub record Follows (check : A → Bool) (view : A → V) (source : S → V) (update : S → A → A)
        (sources : List S) (joined : Joined S A) (db db' : Database) : Type 0 where
      pub selected : Perm (map view (select_from check db')) (map source sources)
      pub kept : (s : S) (r : A) → Mem (s, r) joined.pairs → Mem (update s r) (rows db')
      pub others : Perm (unselected check db') (unselected check db)
      pub frame : Frame A db db'
      pub valid : WellFormed A db'

    map-agree :
        (view : A → V) (source : S → V) (update : S → A → A)
        → ((s : S) (r : A) → view (update s r) ≡ source s)
        → (pairs : List (S × A))
        → map view (map (λ p. update p.0 p.1) pairs) ≡ map source (map (λ p. p.0) pairs)
    map-agree view source update agree [] = refl
    map-agree view source update agree ((s, r) ∷ pairs) =
        λ i. agree s r i ∷ map-agree view source update agree pairs i

    module _ (check : A → Bool) (view : A → V) (source : S → V) (update : S → A → A)
        (keeps : (s : S) (r : A) → row.id (update s r) ≡ row.id r)
        (passes : (s : S) (r : A) → check (update s r) ≡ true)
        (agree : (s : S) (r : A) → view (update s r) ≡ source s) where
      filter-updates :
          (pairs : List (S × A))
          → filter (λ r. dec_true (check r)) (map (λ p. update p.0 p.1) pairs)
            ≡ map (λ p. update p.0 p.1) pairs
      filter-updates [] = refl
      filter-updates ((s, r) ∷ pairs) =
          rw (if_pos _ (passes s r)) (ap (λ (l : List A). update s r ∷ l) (filter-updates pairs))

      drop-updates :
          (pairs : List (S × A))
          → filter (λ r. dec_false (check r)) (map (λ p. update p.0 p.1) pairs) ≡ []
      drop-updates [] = refl
      drop-updates ((s, r) ∷ pairs) =
          rw (if_neg _ (λ e. false≢true (sym e ∙ passes s r))) (drop-updates pairs)

      filter-rest :
          (xs : List A)
          → filter (λ r. dec_true (check r)) (filter (λ r. dec_false (check r)) xs) ≡ []
      filter-rest [] = refl
      filter-rest (x ∷ xs) = elim (Bool-cases (check x)) [
        | inl e ↦ rw (if_neg _ (λ f. false≢true (sym f ∙ e))) (filter-rest xs)
        | inr e ↦
            rw
              (
                if_pos (dec_false (check x)) e,
                if_neg (dec_true (check x)) (λ f. false≢true (sym e ∙ f)),
              )
              (filter-rest xs)
      ]

      drop-rest :
          (xs : List A)
          → filter (λ r. dec_false (check r)) (filter (λ r. dec_false (check r)) xs)
            ≡ filter (λ r. dec_false (check r)) xs
      drop-rest xs =
          (filter-eq_self (λ r. dec_false (check r)) {l = filter (λ r. dec_false (check r)) xs}).1
            (λ r m. ((mem-filter (λ x. dec_false (check x)) {l = xs} {x = r}).0 m).1)

      select-written :
          (pairs : List (S × A)) (xs : List A)
          → filter
              (λ r. dec_true (check r))
              (map (λ p. update p.0 p.1) pairs ++ filter (λ r. dec_false (check r)) xs)
            ≡ map (λ p. update p.0 p.1) pairs
      select-written pairs xs = rw (
        filter-append (λ r. dec_true (check r)) (map (λ p. update p.0 p.1) pairs),
        filter-updates,
        filter-rest,
        append-nil,
      )

      drop-written :
          (pairs : List (S × A)) (xs : List A)
          → filter
              (λ r. dec_false (check r))
              (map (λ p. update p.0 p.1) pairs ++ filter (λ r. dec_false (check r)) xs)
            ≡ filter (λ r. dec_false (check r)) xs
      drop-written pairs xs = rw (
        filter-append (λ r. dec_false (check r)) (map (λ p. update p.0 p.1) pairs),
        drop-updates,
        drop-rest,
      )

      view-written :
          (joined : Joined S A) (new : List (S × A))
          → map (λ p. p.0) new ≡ joined.lonely_lefts
          → map view (map (λ p. update p.0 p.1) (joined.pairs ++ new)) ≡ map source (lefts joined)
      view-written joined new n =
          map-agree view source update agree (joined.pairs ++ new)
          ∙ ap (map source) (
              map-append (λ p. p.0) joined.pairs new
              ∙ ap (λ (l : List S). map (λ p. p.0) joined.pairs ++ l) n)

      -- The component's table follows the sources, if the result that is written is a partition of
      -- the sources and of the rows that pass the test.
      pub sync-joined :
          (joined : Joined S A) (sources : List S) (db : Database)
          → Perm sources (lefts joined)
          → Perm (select_from check db) (rights joined)
          → WellFormed A db
          → (db' : Database) × (sync update joined db ≡ some db')
            × Follows check view source update sources joined db db'
      unfolding select_from Tables.select
      sync-joined joined sources db pl pr w =
          let rest = unselected check db in
          let h₀ =
            Holds-perm (Perm.trans (perm-filter-split check (rows db)) (Perm.append_right rest pr))
              (WellFormed→Holds w) in
          let (db', new, e, n, h) = sync-Holds update keeps db db joined rest h₀ in
          (
            db',
            e,
            record {
              selected =
                  Perm.trans
                    (Perm.map view (
                      subst (Perm _) (select-written (joined.pairs ++ new) (rows db))
                        (Perm.filter _ h.perm)))
                    (subst (λ (l : List V). Perm l (map source sources))
                      (sym (view-written joined new n)) (Perm.map source (Perm.symm pl)));
              kept = λ s r m. (Perm.mem_iff h.perm).1 (
                  mem-append_left rest
                    (mem-map_of_mem (λ p. update p.0 p.1) (mem-append_left new m)));
              others =
                  subst (Perm _) (drop-written (joined.pairs ++ new) (rows db))
                    (Perm.filter _ h.perm);
              frame = h.frame;
              valid = Holds→WellFormed h;
            },
          )

      -- With the sources on the left of the join, whatever the score.
      pub sync-Follows :
          (score : S → A → ℤ) (sources : List S) (db : Database)
          → WellFormed A db
          → (db' : Database) × (sync update (join score sources (select_from check db)) db
              ≡ some db')
            × Follows check view source update sources
                (join score sources (select_from check db))
                db
                db'
      sync-Follows score sources db =
          sync-joined (join score sources (select_from check db)) sources db
            (join-lefts score sources (select_from check db))
            (join-rights score sources (select_from check db))

      -- With the rows on the left of the join.
      pub sync-flipped :
          (score : A → S → ℤ) (sources : List S) (db : Database)
          → WellFormed A db
          → (db' : Database) × (sync update (flip (join score (select_from check db) sources)) db
              ≡ some db')
            × Follows check view source update sources
                (flip (join score (select_from check db) sources))
                db
                db'
      sync-flipped score sources db =
          let joined = join score (select_from check db) sources in
          sync-joined (flip joined) sources db
            (subst (Perm sources) (sym (lefts-flip joined))
              (join-rights score (select_from check db) sources))
            (subst (Perm (select_from check db)) (sym (rights-flip joined))
              (join-lefts score (select_from check db) sources))
