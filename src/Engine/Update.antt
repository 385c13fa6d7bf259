-- ===== src/Engine/Update.antt =====
-- `clusterTxn`, `aclTxn`, `resolveACLs` and `updateTxn` of engine/engine.go.
pub mod Contract
use di.Prelude.{
  ℕ, ◌+◌, String, Bool, true, false, not, ◌&&◌, Option, none, some, List, [], ◌∷◌, ◌++◌, ◌<>◌, map,
  ◌==◌, str_eq, ite, if◌then◌else◌, sort_strings, Strings-discrete,
}
use di.Dsl.{Range, Dsl}
use di.Db.{Database, cluster_row, machine_row, commit, insert_new, select_from}
use di.Db.Rows.{Cluster, Machine, Provider}
use di.Engine.{Error, no_namespace, no_cluster, machine_txn}

-- `clusterTxn`: the id of the cluster, or an error before anything is written.
pub data ClusterResult : Type 0 where
  cluster_id : ℕ → ClusterResult
  cluster_error : Error → ClusterResult

cluster_write : String → String → Cluster → Database → Option (Database × ClusterResult)
cluster_write namespace spec cluster view =
    elim (commit (record cluster { namespace = namespace; spec = spec }) view) [
      | none ↦ none
      | some view' ↦ some (view', cluster_id cluster.id)
    ]

-- The `switch` on the number of clusters; more than one panics.
cluster_choose : String → String → List Cluster → Database → Option (Database × ClusterResult)
unfolding cluster_write
cluster_choose namespace spec [] view =
    let (view', cluster) = insert_new {A = Cluster} view in
    cluster_write namespace spec cluster view'
cluster_choose namespace spec (cluster ∷ []) view = cluster_write namespace spec cluster view
cluster_choose namespace spec (c ∷ d ∷ cs) view = none

unfoldable pub cluster_txn : {F : Type 0} → Dsl F → Database → Option (Database × ClusterResult)
unfolding cluster_choose
cluster_txn dsl view =
    let namespace = dsl.query_string "Namespace" in
    if str_eq namespace ""
    then some (view, cluster_error no_namespace)
    else cluster_choose namespace dsl.code (select_from (λ c. true) view) view

-- `my_ip n` is what the n-th call of `myIP`, an HTTP request, returns; `none` is an error.
unfoldable pub resolve_acls : (ℕ → Option String) → ℕ → List String → List String
resolve_acls my_ip n [] = []
resolve_acls my_ip n (acl ∷ acls) =
    if str_eq acl "local"
    then elim (my_ip n) [
      | none ↦ resolve_acls my_ip (n + 1) acls
      | some ip ↦ (ip <> "/32") ∷ resolve_acls my_ip (n + 1) acls
    ]
    else acl ∷ resolve_acls my_ip n acls

-- The list that `aclTxn` compares with the ACLs of the cluster.
unfoldable pub wanted_acls : {F : Type 0} → (ℕ → Option String) → Dsl F → List Machine → List String
unfolding resolve_acls sort_strings
wanted_acls my_ip dsl machines = sort_strings (
    resolve_acls my_ip 0 (dsl.query_str_slice "AdminACL")
    ++ map (λ m. m.public_ip <> "/32") machines)

acl_write : Cluster → List String → Database → Option Database
acl_write cluster acls view =
    ite (Strings-discrete cluster.acls acls) (some view)
      (commit (record cluster { acls = acls }) view)

acl_choose :
    {F : Type 0}
    → (ℕ → Option String)
    → Dsl F
    → ℕ
    → List Cluster
    → Database
    → Option (Database × Option Error)
unfolding acl_write wanted_acls
acl_choose my_ip dsl id [] view = some (view, some (no_cluster id))
acl_choose my_ip dsl id (cluster ∷ _) view =
    let machines =
      select_from (λ m. m.cluster_id == cluster.id && not (str_eq m.public_ip "")) view in
    elim (acl_write cluster (wanted_acls my_ip dsl machines) view) [
      | none ↦ none
      | some view' ↦ some (view', none)
    ]

unfoldable pub acl_txn :
    {F : Type 0} → (ℕ → Option String) → Dsl F → ℕ → Database → Option (Database × Option Error)
unfolding acl_choose
acl_txn my_ip dsl id view = acl_choose my_ip dsl id (select_from (λ c. c.id == id) view) view

module _ {F : Type 0} (zero_price : F) (pick_best_size : Provider → Range F → Range F → F → String)
    (my_ip : ℕ → Option String) where
  after_cluster : Dsl F → ClusterResult → Database → Option (Database × Option Error)
  unfolding machine_txn acl_txn
  after_cluster dsl (cluster_error e) view = some (view, some e)
  after_cluster dsl (cluster_id id) view =
      elim (machine_txn zero_price pick_best_size dsl id view) [
        | none ↦ none
        | some view' ↦ acl_txn my_ip dsl id view'
      ]

  unfoldable pub update_txn : Dsl F → Database → Option (Database × Option Error)
  unfolding after_cluster cluster_txn
  update_txn dsl view = elim (cluster_txn dsl view) [
    | none ↦ none
    | some (view', r) ↦ after_cluster dsl r view'
  ]
