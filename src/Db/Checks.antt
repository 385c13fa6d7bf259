-- ===== src/Db/Checks.antt =====
-- A test that decides whether a table of a database is well formed, for concrete databases.
use mathlib.Core.List.{Nodup-cons, Nodup-nil, mem-cons, not-mem-nil, mem-map_of_mem}
use mathlib.Core.HLevel.{⊥_prop}
use mathlib.Core.Logic.Or
use native.Mathlib.Bridge.{le_prop}
use di.Prelude.{
  ℕ, ◌≤◌, ◌≡◌, Bool, true, false, not, ◌&&◌, ◌||◌, List, [], ◌∷◌, map, Mem, Nodup, arith, ◌==◌, leb,
  ℕ_discrete, String-discrete, Strings-discrete, dec_ne,
}
use di.Join.{join}
use di.Db.{Database, Row, new, insert, commit, remove, insert_new, select_from, next_id}
use di.Db.Rows.{
  ℤ-discrete, Role-discrete, Cluster-discrete, Machine-discrete, Container-discrete,
  Minion-discrete, Connection-discrete, Label-discrete, Etcd-discrete,
}
use di.Db.Tables
use di.Db.Sync.{remove_all, insert_all, commit_all, sync}
use di.Db.Sync.Effects.{rows}
use di.Db.Sync.Policy.{WellFormed}

abbrev occurs : ℕ → List ℕ → Bool
occurs n [] = false
occurs n (m ∷ ms) = n == m || occurs n ms

abbrev pub well_numbered : ℕ → List ℕ → Bool
well_numbered top [] = true
well_numbered top (n ∷ ns) = leb n top && not (occurs n ns) && well_numbered top ns

occurs_mem : (n : ℕ) (ms : List ℕ) → occurs n ms ≡ false → ¬ Mem n ms
occurs_mem n [] h m = not-mem-nil m
occurs_mem n (k ∷ ms) h m =
    Or.elim ⊥_prop (mem-cons.0 m) (λ e. ground arith) (occurs_mem n ms (ground arith))

well_numbered-Nodup : (top : ℕ) (ns : List ℕ) → well_numbered top ns ≡ true → Nodup ns
well_numbered-Nodup top [] h = Nodup-nil
well_numbered-Nodup top (n ∷ ns) h =
    Nodup-cons.1 (occurs_mem n ns (ground arith), well_numbered-Nodup top ns (ground arith))

well_numbered-le :
    (top : ℕ) (ns : List ℕ) → well_numbered top ns ≡ true → (n : ℕ) → Mem n ns → n ≤ top
well_numbered-le top [] h k m = absurd (not-mem-nil m)
well_numbered-le top (n ∷ ns) h k m =
    Or.elim le_prop (mem-cons.0 m) (λ e. ground arith) (well_numbered-le top ns (ground arith) k)

pub WellFormed-by_check :
    (A : Type 0) ⦃row : Row A⦄ (db : Database)
    → well_numbered db.id_alloc (map row.id (rows {A = A} db)) ≡ true
    → WellFormed A db
WellFormed-by_check A ⦃row⦄ db h = record {
  unique = well_numbered-Nodup db.id_alloc (map row.id (rows {A = A} db)) h;
  bounded = λ r m. well_numbered-le db.id_alloc _ h (row.id r) (mem-map_of_mem row.id m);
}

-- Opens every operation of the database, so that a test can run a transaction.
unfoldable pub running : Unit {0}
unfolding new insert commit remove insert_new select_from next_id remove_all insert_all commit_all
    sync Tables.find Tables.insert Tables.remove Tables.commit Tables.select Tables.new_table join
    dec_ne ℕ_discrete String-discrete Strings-discrete ℤ-discrete Role-discrete Cluster-discrete
    Machine-discrete Container-discrete Minion-discrete Connection-discrete Label-discrete
    Etcd-discrete
running = tt
