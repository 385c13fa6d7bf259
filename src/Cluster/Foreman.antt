-- ===== src/Cluster/Foreman.antt =====
-- cluster/foreman.go: the foreman of a cluster, which configures the minions.
-- The gRPC clients are a parameter, over a state `W` of everything outside the program.
-- `forEachMinion` runs one goroutine for each minion and waits for all; each has a minion of its
-- own, so they are run here one after the other. A Go map is an association list.
pub mod Marks
pub mod Map
pub mod Quiet
mod Tests
use di.Prelude.{
  find, put, ℕ, String, Bool, true, false, not, ◌&&◌, ◌||◌, Option, none, some, List, [], ◌∷◌, map,
  ◌>>=◌, str_eq, ◌==◌, if◌then◌else◌,
}
use di.Db.{Database, machine_row, cluster_row, blank_machine, commit, select_from}
use di.Db.Rows.{Machine, Cluster, Role, master, role_eq}
use di.Minion.Server.{PbRole, pb_none, pb_worker, pb_master, role_to_pb, pb_to_role, MinionConfig}

-- The interface `client` and the function `newClient`; `none` and `false` are errors.
pub record Rpc (W C : Type 0) : Type 0 where
  pub new_client : String → W → W × Option C
  pub set_minion : C → MinionConfig → W → W × Bool
  pub get_minion : C → W → W × Option MinionConfig
  pub boot_etcd : C → List String → W → W × Bool
  pub close : C → W → W

-- `minion`
pub record Entry (C : Type 0) : Type 0 where
  pub client : C
  pub connected : Bool
  pub machine : Machine
  pub config : MinionConfig
  pub mark : Bool

abbrev pub no_config : MinionConfig
no_config = record { id = ""; role = pb_none; private_ip = ""; spec = "" }

abbrev pb_eq : PbRole → PbRole → Bool
pb_eq pb_none pb_none = true
pb_eq pb_worker pb_worker = true
pb_eq pb_master pb_master = true
pb_eq _ _ = false

-- `newConfig == m.config`
unfoldable pub config_eq : MinionConfig → MinionConfig → Bool
config_eq a b =
    str_eq a.id b.id
    && pb_eq a.role b.role
    && str_eq a.private_ip b.private_ip
    && str_eq a.spec b.spec

module _ {C : Type 0} where
  -- A range over the map that appends the private addresses of the masters.
  unfoldable pub etcd_ips : List (String × Entry C) → List String
  etcd_ips [] = []
  etcd_ips ((ip, m) ∷ minions) =
      let rest = etcd_ips minions in
      if role_eq m.machine.role master && not (str_eq m.machine.private_ip "")
      then m.machine.private_ip ∷ rest
      else rest

  unfoldable pub any_connected : List (String × Entry C) → Bool
  any_connected [] = false
  any_connected ((ip, m) ∷ minions) = m.connected || any_connected minions

  unfoldable pub new_config : String → Entry C → MinionConfig
  new_config spec m = record {
    id = m.machine.cloud_id;
    role = role_to_pb m.machine.role;
    private_ip = m.machine.private_ip;
    spec = spec;
  }

-- The machines that a foreman looks after.
abbrev pub up : ℕ → Machine → Bool
up cluster_id m =
    m.cluster_id == cluster_id
    && not (str_eq m.public_ip "")
    && not (str_eq m.private_ip "")
    && not (str_eq m.cloud_id "")

unfoldable pub cluster_spec : List Cluster → String
cluster_spec (c ∷ []) = c.spec
cluster_spec _ = ""

module _ {W C : Type 0} (rpc : Rpc W C) where
  -- The first loop of `updateMinionMap`.
  unfoldable pub mark_machines :
      List Machine → List (String × Entry C) → W → List (String × Entry C) × W
  unfolding find put
  mark_machines [] minions w = (minions, w)
  mark_machines (m ∷ machines) minions w = elim (find m.public_ip minions) [
    | some min ↦
        mark_machines machines (put m.public_ip (record min { machine = m; mark = true }) minions) w
    | none ↦
        let (w₁, client) = rpc.new_client m.public_ip w in
        elim client [
          | none ↦ mark_machines machines minions w₁
          | some c ↦
              mark_machines machines
                (put m.public_ip
                  (record {
                    client = c;
                    connected = false;
                    machine = m;
                    config = no_config;
                    mark = true;
                  })
                  minions)
                w₁
        ]
  ]

  -- The second loop, which deletes what has not been marked.
  unfoldable pub sweep : List (String × Entry C) → W → List (String × Entry C) × W
  sweep [] w = ([], w)
  sweep ((ip, m) ∷ minions) w =
      let (kept, w₁) = sweep minions (if m.mark then w else rpc.close m.client w) in
      ((if m.mark then (ip, record m { mark = false }) ∷ kept else kept), w₁)

  -- `updateMinionMap`
  unfoldable pub update_minion_map :
      List Machine → List (String × Entry C) → W → List (String × Entry C) × W
  unfolding mark_machines sweep
  update_minion_map machines minions w =
      let (marked, w₁) = mark_machines machines minions w in sweep marked w₁

  -- The requests for the current configuration of every minion.
  unfoldable pub ask_minions : List (String × Entry C) → W → List (String × Entry C) × W
  ask_minions [] w = ([], w)
  ask_minions ((ip, m) ∷ minions) w =
      let (w₁, answer) = rpc.get_minion m.client w in
      let (rest, w₂) = ask_minions minions w₁ in
      (
        (
          ip,
          elim answer [
            | none ↦ record m { config = no_config; connected = false }
            | some config ↦ record m { config = config; connected = true }
          ],
        )
            ∷ rest,
        w₂,
      )

  -- What `runOnce` sends to one minion.
  unfoldable pub send_config : String → List String → Entry C → W → W
  unfolding config_eq new_config
  send_config spec ips m w =
      if not m.connected
      then w
      else if config_eq (new_config spec m) m.config
      then w
      else let (w₁, set) = rpc.set_minion m.client (new_config spec m) w in
        if set then (rpc.boot_etcd m.client ips w₁).0 else w₁

  unfoldable pub send_configs : String → List String → List (String × Entry C) → W → W
  unfolding send_config
  send_configs spec ips [] w = w
  send_configs spec ips ((ip, m) ∷ minions) w =
      send_configs spec ips minions (send_config spec ips m w)

  -- `runOnce`: the minions and the spec of the foreman, and the outside.
  unfoldable pub run_once :
      ℕ → Database → List (String × Entry C) → W → List (String × Entry C) × String × W
  unfolding update_minion_map ask_minions any_connected etcd_ips send_configs cluster_spec
  run_once cluster_id view minions w =
      let spec = cluster_spec (select_from (λ c. c.id == cluster_id) view) in
      let (tracked, w₁) = update_minion_map (select_from (up cluster_id) view) minions w in
      let (asked, w₂) = ask_minions tracked w₁ in
      if any_connected asked
      then (asked, spec, send_configs spec (etcd_ips asked) asked w₂)
      else (asked, spec, w₂)

  -- The last loop of `init`: every minion that answered says what its machine is for.
  unfoldable pub commit_roles :
      List (String × Entry C) → Database → Option (Database × List (String × Entry C))
  commit_roles [] view = some (view, [])
  commit_roles ((ip, m) ∷ minions) view =
      let machine = record m.machine { role = pb_to_role m.config.role } in
      if m.connected
      then (commit machine view >>= λ view₁. commit_roles minions view₁ >>= λ r.
          some (r.0, (ip, record m { machine = machine }) ∷ r.1))
      else (commit_roles minions view >>= λ r. some (r.0, (ip, m) ∷ r.1))

  -- `init`, one transaction.
  unfoldable pub init :
      ℕ → Database → List (String × Entry C) → W → Option (Database × List (String × Entry C)) × W
  unfolding update_minion_map ask_minions commit_roles
  init cluster_id view minions w =
      let (tracked, w₁) = update_minion_map (select_from (up cluster_id) view) minions w in
      let (asked, w₂) = ask_minions tracked w₁ in (commit_roles asked view, w₂)
