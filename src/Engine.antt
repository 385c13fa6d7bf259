-- ===== src/Engine.antt =====
-- engine/engine.go: the transaction by which a policy becomes the content of the database.
-- `none` is a panic. A transaction that returns an error leaves the database as far as it came.
pub mod Machines
pub mod Update
mod Tests
use di.Prelude.{
  get_or, int_eq, ℕ, suc, String, Bool, true, false, not, ◌&&◌, ◌||◌, Option, none, some, List, [],
  ◌∷◌, ◌++◌, ℤ, pos, negsuc, ◌==◌, str_eq, ite, if◌then◌else◌,
}
use di.Join.{join}
use di.Dsl.{Range, DslMachine, Dsl}
use di.Db.{Database, Row, cluster_row, machine_row, blank_machine, commit, insert_new, select_from}
use di.Db.Rows.{
  Cluster, Machine, Role, role_none, worker, master, Provider, role_eq, parse_role, parse_provider,
}
use di.Db.Sync.{sync}

pub data Error : Type 0 where
  no_namespace : Error
  no_cluster : ℕ → Error

-- DI can only boot if there is at least one master and one worker.
unfoldable pub can_boot_loop : List Machine → Bool → Bool → Bool
can_boot_loop [] has_master has_worker = has_master && has_worker
can_boot_loop (m ∷ ms) has_master has_worker =
    can_boot_loop ms (has_master || role_eq m.role master) (has_worker || role_eq m.role worker)

unfoldable pub can_boot : List Machine → Bool
unfolding can_boot_loop
can_boot machines = can_boot_loop machines false false

-- `scoreFun` of `machineTxn`, for a machine of the policy and one of the database.
unfoldable pub machine_score : Machine → Machine → ℤ
machine_score dsl db =
    if not (str_eq db.provider dsl.provider)
    then negsuc 0
    else if not (str_eq db.region dsl.region)
    then negsuc 0
    else if not (str_eq db.size "") && not (str_eq dsl.size db.size)
    then negsuc 0
    else if not (role_eq db.role role_none) && not (role_eq db.role dsl.role)
    then negsuc 0
    else if not (int_eq db.disk_size dsl.disk_size)
    then negsuc 0
    else if str_eq db.private_ip ""
    then pos 2
    else if str_eq db.public_ip ""
    then pos 1
    else pos 0

-- The assignments before `view.Commit(dbMachine)`.
unfoldable pub update_machine : ℕ → Machine → Machine → Machine
update_machine cluster_id dsl db = record db {
  role = dsl.role;
  size = dsl.size;
  disk_size = dsl.disk_size;
  provider = dsl.provider;
  region = dsl.region;
  ssh_keys = dsl.ssh_keys;
  cluster_id = cluster_id;
}

-- `PickBestSize` of the provider, which `provider.New` looks up.
module _ {F : Type 0} (zero_price : F)
    (pick_best_size : Provider → Range F → Range F → F → String) where
  machine_size : DslMachine F → Provider → F → String
  machine_size m p max_price =
      if not (str_eq m.size "") then m.size else pick_best_size p m.ram m.cpu max_price

  -- One round of `toDBMachine`: `none` where the loop skips the machine.
  to_db_machine_step : DslMachine F → F → Option Machine
  unfolding machine_size
  to_db_machine_step m max_price = elim (parse_role m.role) [
    | none ↦ none
    | some role ↦ elim (parse_provider m.provider) [
      | none ↦ none
      | some p ↦
          let size = machine_size m p max_price in
          if str_eq size ""
          then none
          else some (record (blank_machine 0) {
            role = role;
            provider = p;
            size = size;
            ssh_keys = m.ssh_keys;
            region = m.region;
            disk_size = m.disk_size;
          })
    ]
  ]

  unfoldable pub to_db_machine : List (DslMachine F) → F → List Machine
  unfolding to_db_machine_step
  to_db_machine [] max_price = []
  to_db_machine (m ∷ ms) max_price =
      let rest = to_db_machine ms max_price in
      elim (to_db_machine_step m max_price) [ none ↦ rest | some x ↦ x ∷ rest ]

  -- The machines that `machineTxn` works with.
  unfoldable pub policy_machines : Dsl F → List Machine
  unfolding to_db_machine can_boot
  policy_machines dsl =
      let max_price = get_or (dsl.query_float "MaxPrice") zero_price in
      let machines = to_db_machine dsl.query_machines max_price in
      if can_boot machines then machines else []

  unfoldable pub machine_txn : Dsl F → ℕ → Database → Option Database
  unfolding policy_machines sync
  machine_txn dsl cluster_id view =
      let db_machines = select_from (λ m. m.cluster_id == cluster_id) view in
      sync (update_machine cluster_id) (join machine_score (policy_machines dsl) db_machines) view
