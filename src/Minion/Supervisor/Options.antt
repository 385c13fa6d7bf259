-- ===== src/Minion/Supervisor/Options.antt =====
-- minion/supervisor/supervisor.go: the system containers and what they are run with.
use di.Prelude.{String, Bool, ◌||◌, List, [], ◌∷◌, ◌<>◌, map, str_eq, if◌then◌else◌}

abbrev pub etcd : String
etcd = "etcd"

abbrev pub ovncontroller : String
ovncontroller = "ovn-controller"

abbrev pub ovnnorthd : String
ovnnorthd = "ovn-northd"

abbrev pub ovsdb : String
ovsdb = "ovsdb-server"

abbrev pub ovsvswitchd : String
ovsvswitchd = "ovs-vswitchd"

abbrev pub swarm : String
swarm = "swarm"

-- `images`
abbrev pub images : List (String × String)
images =
    (etcd, "quay.io/coreos/etcd:v2.2.4")
    ∷ (ovncontroller, "quay.io/netsys/ovn-controller")
    ∷ (ovnnorthd, "quay.io/netsys/ovn-northd")
    ∷ (ovsdb, "quay.io/netsys/ovsdb-server")
    ∷ (ovsvswitchd, "quay.io/netsys/ovs-vswitchd")
    ∷ (swarm, "swarm:1.2.0")
    ∷ []

abbrev pub heartbeat : String
heartbeat = "--heartbeat-interval=500"

abbrev pub election_timeout : String
election_timeout = "--election-timeout=5000"

-- The fields of `docker.RunOptions` that the supervisor sets.
pub record RunOptions : Type 0 where
  pub name : String
  pub image : String
  pub args : List String
  pub binds : List String
  pub network_mode : String
  pub privileged : Bool
  pub volumes_from : List String

-- `images[name]`
unfoldable pub image_of : String → List (String × String) → String
image_of name [] = ""
image_of name ((n, image) ∷ rest) =
    let later = image_of name rest in if str_eq n name then image else later

-- The `switch` of `run`, with what falls through.
unfoldable pub options : String → List String → RunOptions
unfolding image_of
options name args = record {
  name = name;
  image = image_of name images;
  args = args;
  binds =
      if str_eq name etcd || str_eq name ovsdb
      then "/usr/share/ca-certificates:/etc/ssl/certs" ∷ []
      else [];
  network_mode = "host";
  privileged = str_eq name ovsvswitchd;
  volumes_from =
      if str_eq name ovsvswitchd || str_eq name ovnnorthd || str_eq name ovncontroller
      then ovsdb ∷ []
      else [];
}

unfoldable pub node_name : String → String
node_name ip = "master-" <> ip

-- `strings.Join` with a comma
unfoldable pub join_commas : List String → String
join_commas [] = ""
join_commas (s ∷ []) = s
join_commas (s ∷ t ∷ ss) = s <> "," <> join_commas (t ∷ ss)

unfoldable pub initial_cluster_string : List String → String
unfolding node_name join_commas
initial_cluster_string etcd_ips =
    join_commas (map (λ ip. node_name ip <> "=http://" <> ip <> ":2380") etcd_ips)

unfoldable pub etcd_worker_args : List String → List String
unfolding initial_cluster_string
etcd_worker_args etcd_ips =
    ("--initial-cluster=" <> initial_cluster_string etcd_ips)
    ∷ heartbeat
    ∷ election_timeout
    ∷ "--proxy=on"
    ∷ []

unfoldable pub etcd_master_args : String → List String → List String
unfolding initial_cluster_string
etcd_master_args ip etcd_ips =
    ("--name=master-" <> ip)
    ∷ ("--initial-cluster=" <> initial_cluster_string etcd_ips)
    ∷ ("--advertise-client-urls=http://" <> ip <> ":2379")
    ∷ ("--listen-peer-urls=http://" <> ip <> ":2380")
    ∷ ("--initial-advertise-peer-urls=http://" <> ip <> ":2380")
    ∷ "--listen-client-urls=http://0.0.0.0:2379"
    ∷ heartbeat
    ∷ "--initial-cluster-state=new"
    ∷ election_timeout
    ∷ []

unfoldable pub swarm_master_args : String → List String
swarm_master_args ip =
    "manage"
    ∷ "--replication"
    ∷ ("--addr=" <> ip <> ":2377")
    ∷ ("--host=" <> ip <> ":2377")
    ∷ "etcd://127.0.0.1:2379"
    ∷ []

unfoldable pub vsctl : String → String → String → List String
vsctl ip leader_ip minion_id =
    "ovs-vsctl"
    ∷ "set"
    ∷ "Open_vSwitch"
    ∷ "."
    ∷ ("external_ids:ovn-remote=\"tcp:" <> leader_ip <> ":6640\"")
    ∷ ("external_ids:ovn-encap-ip=" <> ip)
    ∷ "external_ids:ovn-encap-type=\"geneve\""
    ∷ ("external_ids:api_server=\"http://" <> leader_ip <> ":9000\"")
    ∷ ("external_ids:system-id=\"di-" <> minion_id <> "\"")
    ∷ "--"
    ∷ "add-br"
    ∷ "di-int"
    ∷ "--"
    ∷ "set"
    ∷ "bridge"
    ∷ "di-int"
    ∷ "fail_mode=secure"
    ∷ []
