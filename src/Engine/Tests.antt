-- ===== src/Engine/Tests.antt =====
-- A policy with a master and a worker, over a database with two clusters.
use mathlib.Core.Option
use mathlib.Core.Bool.{false≢true}
use di.Prelude.{
  map, ◌≢◌, ◌⊎◌, inl, eq_iff, sym, ◌∙◌, false, ℕ, String, ◌≡◌, refl, none, some, [], ◌∷◌, pos,
}
use di.Join.{join}
use di.Dsl.{Range, DslMachine, Dsl}
use di.Db.{Database, machine_row, new, blank_machine, select_from}
use di.Db.Rows.{Machine, Role, role_none, master, worker, Provider, parse_role, parse_provider}
use di.Db.Tables.{new_table}
use di.Db.Checks.{WellFormed-by_check, running}
use di.Db.Sync.Policy.{WellFormed, Follows}
use di.Engine.{machine_score, update_machine, policy_machines, machine_txn}
use di.Join.Greedy.{Negative}
use di.Engine.Update.{update_txn}
use di.Engine.Update.Contract.{Updated, update_txn-Updated}
use di.Engine.Machines.{policy_view, in_cluster, machine_txn-Follows, score_match}

abbrev any_range : Range ℕ
any_range = record { min = 0; max = 0 }

abbrev wanted : String → String → DslMachine ℕ
wanted role size = record {
  provider = "Google";
  role = role;
  size = size;
  cpu = any_range;
  ram = any_range;
  disk_size = pos 0;
  region = "us";
  ssh_keys = [];
}

abbrev policy : Dsl ℕ
policy = record {
  query_machines = wanted "Master" "big" ∷ wanted "Worker" "" ∷ wanted "Nobody" "" ∷ [];
  query_containers = [];
  query_connections = [];
  query_float = λ k. none;
  query_string = λ k. "space";
  query_str_slice = λ k. [];
  code = "(policy)";
}

abbrev always_small : Provider → Range ℕ → Range ℕ → ℕ → String
always_small p ram cpu price = "small"

abbrev old_worker : Machine
old_worker = record (blank_machine 3) {
  cluster_id = 1;
  role = worker;
  provider = "Google";
  region = "us";
  size = "small";
  public_ip = "8.8.8.8";
  private_ip = "10.0.0.2";
}

abbrev elsewhere : Machine
elsewhere = record (blank_machine 4) { cluster_id = 2; provider = "Azure" }

abbrev stray : Machine
stray = record (blank_machine 5) { cluster_id = 1; provider = "Azure" }

abbrev before : Database
before = record new {
  machines = record {
    rows = stray ∷ elsewhere ∷ old_worker ∷ [];
    triggers = [];
    trig_seq = 0;
    seq = 0;
  };
  id_alloc = 5;
}

before-WellFormed : WellFormed Machine before
unfolding running
before-WellFormed = WellFormed-by_check Machine before refl

-- The worker keeps its row, the stray machine goes, a master is new; cluster 2 is left alone.
machine_txn_runs :
    Option.map
      (λ (db : Database). map {B = ℕ × Role} (λ m. (m.id, m.role)) (select_from (in_cluster 1) db))
      (machine_txn 0 always_small policy 1 before)
    ≡ some ((6, master) ∷ (3, worker) ∷ [])
unfolding machine_txn machine_score update_machine parse_role parse_provider running
machine_txn_runs = refl

machine_txn-Follows_example :
    (db' : Database) × (machine_txn 0 always_small policy 1 before ≡ some db')
    × Follows
        (in_cluster 1)
        (policy_view 1)
        (policy_view 1)
        (update_machine 1)
        (policy_machines 0 always_small policy)
        (join machine_score
          (policy_machines 0 always_small policy)
          (select_from (in_cluster 1) before))
        before
        db'
machine_txn-Follows_example = machine_txn-Follows 0 always_small policy 1 before before-WellFormed

named : policy.query_string "Namespace" ≢ ""
named e = absurd (false≢true (sym (refl {a = false}) ∙ (eq_iff "space" "").1 e))

update_txn-Updated_example :
    (db' : Database) × (update_txn 0 always_small (λ n. none) policy before ≡ some (db', none))
    × Updated 0 always_small (λ n. none) policy db'
unfolding new new_table
update_txn-Updated_example =
    update_txn-Updated 0 always_small (λ n. none) policy before named (inl refl) before-WellFormed

abbrev new_worker : Machine
new_worker = record (blank_machine 0) {
  role = worker;
  provider = "Google";
  region = "us";
  size = "small";
}

scored : ¬ Negative (machine_score new_worker old_worker)
unfolding machine_score
scored n = n

score_match_example :
    (old_worker.provider ≡ new_worker.provider)
    × (old_worker.region ≡ new_worker.region)
    × (old_worker.disk_size ≡ new_worker.disk_size)
    × ((old_worker.size ≡ "") ⊎ (old_worker.size ≡ new_worker.size))
    × ((old_worker.role ≡ role_none) ⊎ (old_worker.role ≡ new_worker.role))
score_match_example = score_match new_worker old_worker scored
