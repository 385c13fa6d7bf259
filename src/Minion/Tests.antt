-- ===== src/Minion/Tests.antt =====
-- The transactions of a minion (minion/) at concrete databases.
use mathlib.Core.List.{mem-cons_self, mem-cons_of_mem}
use mathlib.Core.Logic.{◌↔◌}
use di.Prelude.{
  inr, ◌<>◌, ℕ, ◌≡◌, refl, String, true, ◌&&◌, none, some, [], ◌∷◌, map, Mem, pos, arith,
  sort_strings, str_eq, if◌then◌else◌,
}
use di.Join.{join}
use di.Dsl.{Compilation, accepted, rejected, Dsl}
use di.Db.{
  Database, container_row, connection_row, minion_row, etcd_row, new, blank_container,
  blank_connection, blank_minion, blank_etcd, select_from,
}
use di.Db.Rows.{Container, Connection, Minion, Etcd, master, role_eq}
use di.Db.Checks.{WellFormed-by_check, running}
use di.Db.Sync.{flip}
use di.Db.Sync.Effects.{rows, Frame}
use di.Db.Sync.Policy.{WellFormed, Follows}
use di.Minion.Docker.{
  label_true_value, DockerContainer, user_label, is_user_label, parse_user_label,
  parse_user_label-user_label,
}
use di.Minion.Policy.{update_policy}
use di.Minion.Policy.Follow.{any, PolicyHolds, update_policy-PolicyHolds}
use di.Minion.Scheduler.{Plan, sync_db, user_labels}
use di.Minion.Scheduler.Swarm.{make_labels, make_env}
use di.Minion.Scheduler.Swarm.Labels.{user_labels-make_labels}
use di.Minion.Scheduler.Swarm.Affinities.{make_env-exclusive}
use di.Minion.Scheduler.Sync.{Scheduled, sync_db-Scheduled}
use di.Minion.Server.{MinionConfig, pb_worker, get_minion_config, set_minion_config, boot_etcd}
use di.Minion.Server.Calls.{Ends, AtMostOne, set_minion_config-get_minion_config, boot_etcd-row}
use di.Minion.Supervisor.{local_score, run_app_transact}
use di.Minion.Supervisor.Follow.{local_row, local_view, local_source, run_app_transact-Follows}
use di.Minion.Elector.{ok, node_exists, LeaderStore, campaign_round, watch_leader}
use di.Minion.Elector.Election.{won, Leads, answer, campaign_round-Leads}

abbrev policy : Dsl ℕ
policy = record {
  query_machines = [];
  query_containers =
      record { image = "web"; command = []; env = []; exclusive = []; labels = "a" ∷ [] } ∷ [];
  query_connections = record { from = "a"; to = "b"; min_port = pos 80; max_port = pos 80 } ∷ [];
  query_float = λ k. none;
  query_string = λ k. "";
  query_str_slice = λ k. [];
  code = "(policy)";
}

abbrev compile : String → Compilation ℕ
compile code = if str_eq code "(policy)" then accepted policy else rejected

abbrev web : Container
web = record (blank_container 2) { image = "web"; sched_id = "old" }

abbrev job : Container
job = record (blank_container 3) { image = "job" }

abbrev before : Database
before = record new {
  containers = record { rows = web ∷ job ∷ []; triggers = []; trig_seq = 0; seq = 0 };
  connections = record { rows = blank_connection 1 ∷ []; triggers = []; trig_seq = 0; seq = 0 };
  minions = record {
    rows = record (blank_minion 4) { role = master; private_ip = "10.0.0.2" } ∷ [];
    triggers = [];
    trig_seq = 0;
    seq = 0;
  };
  etcds = record { rows = blank_etcd 5 ∷ []; triggers = []; trig_seq = 0; seq = 0 };
  id_alloc = 5;
}

containers-WellFormed : WellFormed Container before
unfolding running
containers-WellFormed = WellFormed-by_check Container before refl

connections-WellFormed : WellFormed Connection before
unfolding running
connections-WellFormed = WellFormed-by_check Connection before refl

minions-WellFormed : WellFormed Minion before
unfolding running
minions-WellFormed = WellFormed-by_check Minion before refl

etcds-WellFormed : WellFormed Etcd before
unfolding running
etcds-WellFormed = WellFormed-by_check Etcd before refl

update_policy-PolicyHolds_example :
    (db' : Database) × (update_policy compile before master "(policy)" ≡ some db')
    × PolicyHolds policy master before db'
update_policy-PolicyHolds_example =
    update_policy-PolicyHolds policy compile before master "(policy)" refl connections-WellFormed
      containers-WellFormed

abbrev daemon : String → String → DockerContainer
daemon id image = record {
  id = id;
  name = "";
  image = image;
  ip = "";
  path = "run";
  args = [];
  pid = pos 7;
  env = [];
  labels = [];
}

sync_db-Scheduled_example :
    (db' : Database) × (plan : Plan) × (sync_db before (daemon "x" "web" ∷ daemon "y" "db" ∷ [])
      ≡ some (db', plan))
    × Scheduled before db' (daemon "x" "web" ∷ daemon "y" "db" ∷ []) plan
sync_db-Scheduled_example =
    sync_db-Scheduled before (daemon "x" "web" ∷ daemon "y" "db" ∷ []) containers-WellFormed

run_app_transact-Follows_example :
    (db' : Database) × (run_app_transact before (daemon "old" "web" ∷ daemon "y" "db" ∷ [])
      ≡ some (
        db',
        map
            (λ c. c.sched_id)
            (join local_score
              (select_from any before)
              (daemon "old" "web" ∷ daemon "y" "db" ∷ [])).lonely_lefts,
      ))
    × Follows any local_view local_source local_row
        (daemon "old" "web" ∷ daemon "y" "db" ∷ [])
        (flip
          (join local_score (select_from any before) (daemon "old" "web" ∷ daemon "y" "db" ∷ [])))
        before
        db'
    × ((d : DockerContainer) (c : Container)
        → Mem
            (d, c)
            (flip (
              join local_score
                (select_from any before)
                (daemon "old" "web" ∷ daemon "y" "db" ∷ []))).pairs
        → c.sched_id ≡ d.id)
run_app_transact-Follows_example =
    run_app_transact-Follows (daemon "old" "web" ∷ daemon "y" "db" ∷ []) before
      containers-WellFormed

parse_user_label-user_label_example :
    (is_user_label (user_label "web") ≡ true) × (parse_user_label (user_label "web") ≡ "web")
parse_user_label-user_label_example = parse_user_label-user_label "web"

abbrev message : MinionConfig
message = record { id = "i-1"; role = pb_worker; private_ip = "10.0.0.3"; spec = "(policy)" }

one_minion : AtMostOne (rows {A = Minion} before)
one_minion = omega arith

one_etcd : AtMostOne (rows {A = Etcd} before)
one_etcd = omega arith

policy-Ends : Ends (compile "(policy)")
policy-Ends = ((λ e. cc), (λ e. cc))

set_minion_config-get_minion_config_example :
    (db' : Database) × (set_minion_config compile message before ≡ some db')
    × (get_minion_config db' ≡ some (record message { spec = "" }))
set_minion_config-get_minion_config_example =
    set_minion_config-get_minion_config compile message before minions-WellFormed
      connections-WellFormed containers-WellFormed policy-Ends one_minion

boot_etcd-row_example :
    (db' : Database) × (row : Etcd) × (boot_etcd ("10.0.0.9" ∷ "10.0.0.2" ∷ []) before ≡ some db')
    × (rows {A = Etcd} db' ≡ row ∷ [])
    × (row.etcd_ips ≡ sort_strings ("10.0.0.9" ∷ "10.0.0.2" ∷ []))
    × Frame Etcd before db'
boot_etcd-row_example =
    boot_etcd-row ("10.0.0.9" ∷ "10.0.0.2" ∷ []) before etcds-WellFormed one_etcd

-- A store whose leader key nobody holds; the state is the holder's address.
abbrev store : LeaderStore String
store = record {
  update = λ ip w. (ip, ok);
  create = λ ip w. if str_eq w "" then (ip, ok) else (w, node_exists);
}

abbrev candidate : Minion
candidate = record (blank_minion 4) { role = master; private_ip = "10.0.0.2" }

-- Before the round commits, the leader's address is written.
abbrev between : Database → Database
between db = elim (watch_leader "10.0.0.7" db) [ none ↦ db | some d ↦ d ]

abbrev followed : Etcd
followed = record (blank_etcd 5) { leader_ip = "10.0.0.7" }

between-WellFormed : WellFormed Etcd (between before)
unfolding running watch_leader
between-WellFormed = WellFormed-by_check Etcd (between before) refl

between_row : rows {A = Etcd} (between before) ≡ followed ∷ []
unfolding running watch_leader
between_row = refl

campaign_round-Leads_example :
    (db' : Database) × (w' : String) × (campaign_round store between (λ d. d) true before ""
      ≡ (role_eq candidate.role master, (some db', w')))
    × Leads
        (role_eq candidate.role master && won (answer store (blank_etcd 5) candidate "").1)
        followed
        (between before)
        db'
campaign_round-Leads_example =
    campaign_round-Leads store between (λ d. d) before "" candidate (blank_etcd 5) followed
      between-WellFormed between_row refl refl refl

abbrev labelled : Container
labelled = record (blank_container 1) {
  labels = "web" ∷ "db" ∷ "web" ∷ [];
  exclusive = ("job", "db") ∷ ("web", "db") ∷ [];
}

user_labels-make_labels_example :
    Mem "db" (user_labels (make_labels labelled))
    ↔ Mem {A = String} "db" ("web" ∷ "db" ∷ "web" ∷ [])
user_labels-make_labels_example = user_labels-make_labels labelled "db"

make_env-exclusive_example :
    Mem ("affinity:" <> user_label "job" <> "!=" <> label_true_value) (make_env labelled)
make_env-exclusive_example =
    make_env-exclusive labelled "db" "job" (mem-cons_of_mem "web" mem-cons_self) (inr mem-cons_self)
