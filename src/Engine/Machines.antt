-- ===== src/Engine/Machines.antt =====
-- `machineTxn` of engine/engine.go makes the machines of a cluster those of the policy.
use di.Prelude.{ℕ, String, Bool, ◌≡◌, ◌⊎◌, refl, some, arith, eq_iff, ◌==◌}
use di.Join.{join}
use di.Join.Greedy.{Negative}
use di.Dsl.{Range, Dsl}
use di.Db.{Database, machine_row, select_from}
use di.Db.Rows.{Machine, role_none, Provider}
use di.Db.Sync.Policy.{WellFormed, Follows, sync-Follows}
use di.Engine.{machine_score, update_machine, policy_machines, machine_txn}

-- What a policy says of a machine: all but its id and what the cloud provider fills in.
abbrev pub policy_view : ℕ → Machine → Machine
policy_view cluster_id m = record m {
  id = 0;
  cluster_id = cluster_id;
  cloud_id = "";
  public_ip = "";
  private_ip = "";
}

abbrev pub in_cluster : ℕ → Machine → Bool
in_cluster cluster_id m = m.cluster_id == cluster_id

module _ {F : Type 0} (zero_price : F) (pick_best_size : Provider → Range F → Range F → F → String)
    (dsl : Dsl F) (cluster_id : ℕ) where
  -- On a database whose machine ids are distinct and handed out, `machineTxn` does not panic, and
  -- afterwards: the machines of the cluster are, up to order and up to what the cloud provider fills
  -- in, the machines that the policy asks for, each as often as it does; a machine that `Join` paired
  -- keeps its row, updated; the machines of other clusters and all other tables are unchanged; and
  -- the ids are still distinct and handed out.
  pub machine_txn-Follows :
      (db : Database)
      → WellFormed Machine db
      → (db' : Database) × (machine_txn zero_price pick_best_size dsl cluster_id db ≡ some db')
        × Follows
            (in_cluster cluster_id)
            (policy_view cluster_id)
            (policy_view cluster_id)
            (update_machine cluster_id)
            (policy_machines zero_price pick_best_size dsl)
            (join machine_score
              (policy_machines zero_price pick_best_size dsl)
              (select_from (in_cluster cluster_id) db))
            db
            db'
  unfolding machine_txn update_machine
  machine_txn-Follows db w =
      sync-Follows (in_cluster cluster_id) (policy_view cluster_id) (policy_view cluster_id)
        (update_machine cluster_id) (λ s r. refl) (λ s r. ground arith) (λ s r. refl) machine_score
        (policy_machines zero_price pick_best_size dsl) db w

-- A machine of the policy whose score with a row is not negative, so that they may be paired, is of
-- the row's provider, region and disk size, and of the size and the role that the row has, if any.
pub score_match :
    (s r : Machine)
    → ¬ Negative (machine_score s r)
    → (r.provider ≡ s.provider)
      × (r.region ≡ s.region)
      × (r.disk_size ≡ s.disk_size)
      × ((r.size ≡ "") ⊎ (r.size ≡ s.size))
      × ((r.role ≡ role_none) ⊎ (r.role ≡ s.role))
unfolding machine_score
score_match s r h = ground (
  arith,
  eq_iff r.provider s.provider,
  eq_iff r.region s.region,
  eq_iff r.size "",
  eq_iff s.size r.size,
)
