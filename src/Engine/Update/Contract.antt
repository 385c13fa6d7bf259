-- ===== src/Engine/Update/Contract.antt =====
-- `updateTxn` of engine/engine.go as a whole: what UpdatePolicy leaves in the database.
use mathlib.Core.Logic.{if_pos, if_neg}
use mathlib.Core.List.{filter-eq_self}
use di.Prelude.{
  ℕ, ◌+◌, ◌≤◌, String, Bool, true, false, ◌≡◌, ◌≢◌, refl, ap, ◌∙◌, ◌⊎◌, inl, inr, Option, none,
  some, List, [], ◌∷◌, dec_true, filter, Perm, map, arith, str_eq, eq_iff, not, ◌&&◌, ◌==◌,
  Strings-discrete,
}
use di.Dsl.{Range, Dsl}
use di.Db.{Database, cluster_row, machine_row, commit, insert_new, select_from}
use di.Db.Tables
use di.Db.Tables.{Table}
use di.Db.Rows.{Cluster, Machine, Provider, Cluster-discrete}
use di.Db.Sync.Policy.{WellFormed, WellFormed-moved}
use di.Engine.{no_namespace, policy_machines}
use di.Engine.Machines.{policy_view, in_cluster, machine_txn-Follows}
use di.Engine.Update.{
  cluster_id, cluster_txn, cluster_choose, cluster_write, wanted_acls, acl_write, acl_choose,
  acl_txn, after_cluster, update_txn,
}

-- A commit to a table with one cluster, and to the database that holds it.
commit_only :
    (t : Table Cluster) (c c' : Cluster)
    → c'.id ≡ c.id
    → (u : Table Cluster) × (Tables.commit cluster_row.id Cluster-discrete c'
          (record t { rows = c ∷ [] })
        ≡ some u)
      × (u.rows ≡ c' ∷ [])
unfolding Tables.commit Tables.find
commit_only t c c' same =
    let hit : (c.id == c'.id) ≡ true = ground arith in
    elim (Cluster-discrete c c') [
      | yes p ↦ (record t { rows = c ∷ [] }, ground arith, ap (λ (x : Cluster). x ∷ []) p)
      | no p ↦ (record t { rows = c' ∷ []; seq = t.seq + 1 }, ground arith, refl)
    ]

commit_single :
    (db : Database) (c c' : Cluster)
    → db.clusters.rows ≡ c ∷ []
    → c'.id ≡ c.id
    → (t : Table Cluster) × (commit c' db ≡ some (record db { clusters = t })) × (t.rows ≡ c' ∷ [])
unfolding commit
commit_single db c c' e same =
    let (u, f, g) = commit_only db.clusters c c' same in
    let shape : db.clusters ≡ record db.clusters { rows = c ∷ [] } =
      λ i. record db.clusters { rows = e i } in
    (u, ap (write c' db) (ap (Tables.commit cluster_row.id Cluster-discrete c') shape ∙ f), g)
  where
    write : Cluster → Database → Option (Table Cluster) → Option Database
    write c db o = elim o [ none ↦ none | some t ↦ some (record db { clusters = t }) ]

-- What `clusterTxn` leaves of the database `db`: one cluster, with the policy's name and code.
abbrev pub OneCluster : {F : Type 0} → Dsl F → Database → Database → Cluster → Type 0
OneCluster dsl db db' c =
    (db'.clusters.rows ≡ c ∷ [])
    × (c.namespace ≡ dsl.query_string "Namespace")
    × (c.spec ≡ dsl.code)
    × (db'.machines ≡ db.machines)
    × (db.id_alloc ≤ db'.id_alloc)

module _ {F : Type 0} (dsl : Dsl F) (db : Database) where
  cluster_write-One :
      (c : Cluster) (db₁ : Database)
      → db₁.clusters.rows ≡ c ∷ []
      → db₁.machines ≡ db.machines
      → db.id_alloc ≤ db₁.id_alloc
      → (db' : Database) × (c' : Cluster) × (cluster_write
            (dsl.query_string "Namespace")
            dsl.code
            c
            db₁
          ≡ some (db', cluster_id c'.id))
        × OneCluster dsl db db' c'
  unfolding cluster_write
  cluster_write-One c db₁ e m a =
      let c' : Cluster = record c { namespace = dsl.query_string "Namespace"; spec = dsl.code } in
      let (t, f, g) = commit_single db₁ c c' e refl in
      (record db₁ { clusters = t }, c', rw (f, cluster_write), (g, refl, refl, m, a))

  unnamed : dsl.query_string "Namespace" ≢ "" → str_eq (dsl.query_string "Namespace") "" ≡ false
  unnamed named = ground (arith, eq_iff (dsl.query_string "Namespace") "")

  cluster_txn-chosen :
      (cs : List Cluster)
      → dsl.query_string "Namespace" ≢ ""
      → db.clusters.rows ≡ cs
      → cluster_txn dsl db ≡ cluster_choose (dsl.query_string "Namespace") dsl.code cs db
  unfolding cluster_txn select_from Tables.select
  cluster_txn-chosen cs named e = rw (unnamed named) (
      ap (λ (l : List Cluster). cluster_choose (dsl.query_string "Namespace") dsl.code l db)
        ((filter-eq_self (λ (c : Cluster). dec_true true) {l = db.clusters.rows}).1 (λ c m. refl)
          ∙ e))

  cluster_txn-One :
      dsl.query_string "Namespace" ≢ ""
      → (db.clusters.rows ≡ []) ⊎ ((c : Cluster) × (db.clusters.rows ≡ c ∷ []))
      → (db' : Database) × (c : Cluster) × (cluster_txn dsl db ≡ some (db', cluster_id c.id))
        × OneCluster dsl db db' c
  unfolding cluster_txn cluster_choose insert_new Tables.insert
  cluster_txn-One named (inl e) =
      let (db₁, c₁) = insert_new {A = Cluster} db in
      let (db', c, f, g) =
        cluster_write-One c₁ db₁
          (ap (λ (l : List Cluster). c₁ ∷ Tables.without cluster_row.id c₁.id l) e) refl
          (omega arith) in
      (db', c, cluster_txn-chosen [] named e ∙ f, g)
  cluster_txn-One named (inr (c, e)) =
      let (db', c', f, g) = cluster_write-One c db e refl (omega arith) in
      (db', c', cluster_txn-chosen (c ∷ []) named e ∙ f, g)

-- The machines whose addresses `aclTxn` lets through.
abbrev pub reachable : ℕ → Machine → Bool
reachable id m = m.cluster_id == id && not (str_eq m.public_ip "")

select_only :
    (c : Cluster) (db : Database)
    → db.clusters.rows ≡ c ∷ []
    → select_from (λ x. x.id == c.id) db ≡ c ∷ []
unfolding select_from Tables.select
select_only c db e =
    let same : (c.id == c.id) ≡ true = ground arith in
    ap (filter (λ (x : Cluster). dec_true (x.id == c.id))) e
    ∙ if_pos (dec_true (c.id == c.id)) same (c ∷ []) []

module _ {F : Type 0} (my_ip : ℕ → Option String) (dsl : Dsl F) where
  acl_write-One :
      (c : Cluster) (acls : List String) (db : Database)
      → db.clusters.rows ≡ c ∷ []
      → (t : Table Cluster) × (acl_write c acls db ≡ some (record db { clusters = t }))
        × (t.rows ≡ record c { acls = acls } ∷ [])
  unfolding acl_write
  acl_write-One c acls db e = elim (Strings-discrete c.acls acls) [
    | yes p ↦ (
      db.clusters,
      rw (if_pos (Strings-discrete c.acls acls) p),
      e ∙ ap (λ (l : List String). record c { acls = l } ∷ []) p,
    )
    | no p ↦
        let (t, f, g) = commit_single db c (record c { acls = acls }) e refl in
        (t, rw (if_neg (Strings-discrete c.acls acls) p) f, g)
  ]

  acl_txn-One :
      (c : Cluster) (db : Database)
      → db.clusters.rows ≡ c ∷ []
      → (t : Table Cluster) × (acl_txn my_ip dsl c.id db ≡ some (record db { clusters = t }, none))
        × (t.rows
            ≡ record c { acls = wanted_acls my_ip dsl (select_from (reachable c.id) db) } ∷ [])
  unfolding acl_txn acl_choose
  acl_txn-One c db e =
      let acls = wanted_acls my_ip dsl (select_from (reachable c.id) db) in
      let (t, f, g) = acl_write-One c acls db e in
      let found = select_only c db e in
      (t, ap (λ (l : List Cluster). acl_choose my_ip dsl c.id l db) found ∙ rw (f, acl_choose), g)

module _ {F : Type 0} (zero_price : F) (pick_best_size : Provider → Range F → Range F → F → String)
    (my_ip : ℕ → Option String) (dsl : Dsl F) where
  -- `db` is what `UpdatePolicy` promises: one cluster with the policy's name, its code and exactly
  -- the ACLs that `aclTxn` computes from the machines that now stand in the database, and the
  -- machines of that cluster are those of the policy.
  pub record Updated (db : Database) : Type 0 where
    pub cluster : Cluster
    pub only : db.clusters.rows ≡ cluster ∷ []
    pub namespace : cluster.namespace ≡ dsl.query_string "Namespace"
    pub spec : cluster.spec ≡ dsl.code
    pub acls : cluster.acls ≡ wanted_acls my_ip dsl (select_from (reachable cluster.id) db)
    pub machines :
        Perm
          (map (policy_view cluster.id) (select_from (in_cluster cluster.id) db))
          (map (policy_view cluster.id) (policy_machines zero_price pick_best_size dsl))

  after_cluster-Updated :
      (c : Cluster) (db₁ : Database)
      → db₁.clusters.rows ≡ c ∷ []
      → c.namespace ≡ dsl.query_string "Namespace"
      → c.spec ≡ dsl.code
      → WellFormed Machine db₁
      → (db' : Database) × (after_cluster zero_price pick_best_size my_ip dsl (cluster_id c.id) db₁
          ≡ some (db', none))
        × Updated db'
  unfolding after_cluster select_from
  after_cluster-Updated c db₁ e n s w =
      let (db₂, f, h) = machine_txn-Follows zero_price pick_best_size dsl c.id db₁ w in
      let (k, u, a, q) = h.frame in
      let (t, g, o) = acl_txn-One my_ip dsl c db₂ (ap (λ (d : Database). d.clusters.rows) q ∙ e) in
      (
        record db₂ { clusters = t },
        rw (f, after_cluster) g,
        record {
          cluster = record c { acls = wanted_acls my_ip dsl (select_from (reachable c.id) db₂) };
          only = o;
          namespace = n;
          spec = s;
          acls = refl;
          machines = h.selected;
        },
      )

  -- A policy with a namespace, on a database with at most one cluster whose machine ids are distinct
  -- and handed out: `updateTxn` neither panics nor fails, and leaves one cluster, which has the
  -- policy's namespace, its code, the ACLs computed from the machines that then have an address, and
  -- the policy's machines.
  pub update_txn-Updated :
      (db : Database)
      → dsl.query_string "Namespace" ≢ ""
      → (db.clusters.rows ≡ []) ⊎ ((c : Cluster) × (db.clusters.rows ≡ c ∷ []))
      → WellFormed Machine db
      → (db' : Database) × (update_txn zero_price pick_best_size my_ip dsl db ≡ some (db', none))
        × Updated db'
  unfolding update_txn
  update_txn-Updated db named few w =
      let (db₁, c, f, (e, n, s, m, a)) = cluster_txn-One dsl db named few in
      let w₁ = WellFormed-moved db db₁ m a w in
      let (db₂, g, u) = after_cluster-Updated c db₁ e n s w₁ in (db₂, rw (f, update_txn) g, u)

  -- A policy without a namespace is refused before anything is written.
  pub update_txn-unnamed :
      (db : Database)
      → dsl.query_string "Namespace" ≡ ""
      → update_txn zero_price pick_best_size my_ip dsl db ≡ some (db, some no_namespace)
  unfolding update_txn cluster_txn after_cluster
  update_txn-unnamed db e = rw (e, update_txn, cluster_txn)
