-- ===== src/Minion/Supervisor/System.antt =====
-- minion/supervisor/supervisor.go: the rounds that keep the system containers. The daemon of docker is a parameter over the
-- state `W` of the host; `false` is an error, which the supervisor only logs.
use di.Prelude.{
  String, Bool, true, false, not, ◌||◌, ◌&&◌, List, [], ◌∷◌, ◌<>◌, str_eq, if◌then◌else◌,
  Strings-discrete,
}
use di.Db.Rows.{Role, role_none, worker, master, role_eq, Minion, Etcd}
use di.Minion.Supervisor.Options.{
  etcd, ovncontroller, ovnnorthd, ovsdb, ovsvswitchd, swarm, images, RunOptions, options,
  etcd_worker_args, etcd_master_args, swarm_master_args, vsctl,
}

pub record Daemon (W : Type 0) : Type 0 where
  pub run : RunOptions → W → W × Bool
  pub remove : String → W → W × Bool
  pub exec : String → List String → W → W × Bool

-- The fields of `supervisor` that remember the last round.
pub record Supervisor : Type 0 where
  pub role : Role
  pub etcd_ips : List String
  pub leader_ip : String
  pub ip : String
  pub leader : Bool

unfoldable pub same_strings : List String → List String → Bool
same_strings a b = elim (Strings-discrete a b) [ yes _ ↦ true | no _ ↦ false ]

abbrev pub flag_same : Bool → Bool → Bool
flag_same true b = b
flag_same false b = not b

-- `if test { f() }`
abbrev pub when : {W : Type 0} → Bool → (W → W) → W → W
when true f w = f w
when false f w = w

-- The row, if there is exactly one; otherwise what the zero value of Go has.
unfoldable pub only_minion : List Minion → Role × String
only_minion (m ∷ []) = (m.role, m.private_ip)
only_minion _ = (role_none, "")

unfoldable pub only_etcd : List Etcd → List String × String × Bool
only_etcd (e ∷ []) = (e.etcd_ips, e.leader_ip, e.leader)
only_etcd _ = ([], "", false)

module _ {W : Type 0} (dk : Daemon W) where
  unfoldable pub run_system : String → List String → W → W
  unfolding options
  run_system name args w = (dk.run (options name args) w).0

  unfoldable pub remove_system : String → W → W
  remove_system name w = (dk.remove name w).0

  unfoldable pub remove_all : List (String × String) → W → W
  unfolding remove_system
  remove_all [] w = w
  remove_all ((name, _) ∷ rest) w = remove_all rest (remove_system name w)

  -- What follows the check that there is one minion, which is read once more.
  unfoldable pub connect_ovn : String → String → List Minion → W → W
  unfolding vsctl run_system remove_system
  connect_ovn ip leader_ip (m ∷ []) w =
      run_system ovncontroller []
        (remove_system ovncontroller (dk.exec ovsvswitchd (vsctl ip leader_ip m.minion_id) w).0)
  connect_ovn ip leader_ip _ w = w

  unfoldable pub join_swarm : String → String → List Minion → W → W
  unfolding run_system connect_ovn
  join_swarm ip leader_ip minions w =
      connect_ovn ip leader_ip minions
        (run_system swarm ("join" ∷ ("--addr=" <> ip <> ":2375") ∷ "etcd://127.0.0.1:2379" ∷ []) w)

  unfoldable pub update_worker : Supervisor → String → String → List String → List Minion → W → W
  unfolding same_strings etcd_worker_args run_system remove_system join_swarm
  update_worker sv ip leader_ip etcd_ips minions w =
      let w₁ = when (not (same_strings sv.etcd_ips etcd_ips)) (remove_system etcd) w in
      let w₂ =
        when (not (str_eq sv.leader_ip leader_ip) || not (str_eq sv.ip ip)) (remove_system swarm)
          w₁ in
      let w₃ = run_system etcd (etcd_worker_args etcd_ips) w₂ in
      let w₄ = run_system ovsvswitchd [] (run_system ovsdb [] w₃) in
      when (not (str_eq leader_ip "" || str_eq ip "")) (join_swarm ip leader_ip minions) w₄

  unfoldable pub start_master : String → List String → Bool → W → W
  unfolding etcd_master_args swarm_master_args run_system remove_system
  start_master ip etcd_ips leader w =
      let w₁ = run_system etcd (etcd_master_args ip etcd_ips) w in
      let w₂ = run_system swarm (swarm_master_args ip) (run_system ovsdb [] w₁) in
      if leader then run_system ovnnorthd [] w₂ else remove_system ovnnorthd w₂

  unfoldable pub update_master : Supervisor → String → List String → Bool → W → W
  unfolding same_strings start_master remove_system
  update_master sv ip etcd_ips leader w =
      let w₁ =
        when (not (str_eq sv.ip ip) || not (same_strings sv.etcd_ips etcd_ips)) (remove_system etcd)
          w in
      let w₂ = when (not (str_eq sv.ip ip)) (remove_system swarm) w₁ in
      when (not (str_eq ip "" || same_strings etcd_ips [])) (start_master ip etcd_ips leader) w₂

  -- The `switch` over the role.
  unfoldable pub update_role :
      Supervisor → Role → String → List String × String × Bool → List Minion → W → W
  unfolding update_worker update_master
  update_role sv master ip (etcd_ips, leader_ip, leader) minions w =
      update_master sv ip etcd_ips leader w
  update_role sv worker ip (etcd_ips, leader_ip, leader) minions w =
      update_worker sv ip leader_ip etcd_ips minions w
  update_role sv role_none ip row minions w = w

  unfoldable pub unchanged : Supervisor → Role → String → List String × String × Bool → Bool
  unfolding same_strings
  unchanged sv role ip (etcd_ips, leader_ip, leader) =
      role_eq sv.role role
      && same_strings sv.etcd_ips etcd_ips
      && str_eq sv.leader_ip leader_ip
      && str_eq sv.ip ip
      && flag_same sv.leader leader

  -- The tables are read one after the other, and the minions again while a worker is set up.
  unfoldable pub run_system_once :
      List Minion → List Etcd → List Minion → Supervisor → W → Supervisor × W
  unfolding only_minion only_etcd unchanged remove_all update_role
  run_system_once minions etcd_rows later sv w =
      let (role, ip) = only_minion minions in
      let (etcd_ips, leader_ip, leader) = only_etcd etcd_rows in
      let cleared = when (not (role_eq role sv.role)) (remove_all images) w in
      let updated = update_role sv role ip (etcd_ips, leader_ip, leader) later cleared in
      let next : Supervisor = record {
        role = role;
        etcd_ips = etcd_ips;
        leader_ip = leader_ip;
        ip = ip;
        leader = leader;
      } in
      if unchanged sv role ip (etcd_ips, leader_ip, leader) then (sv, w) else (next, updated)
