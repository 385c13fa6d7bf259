-- ===== src/Minion/Network/Worker.antt =====
-- minion/network/worker.go: what a worker makes of its host, and the names that it gives there.
-- `none` is the panic of a slice that is too long for its text. Ids are ASCII, so that a slice of
-- bytes is one of characters.
pub mod Commands
pub mod Words
pub mod Queries
pub mod Ports
pub mod Updates
pub mod Settled
pub mod Web
pub mod Keyed
pub mod Exposed
pub mod PortMap
pub mod NatRules
pub mod Connected
pub mod Reached
pub mod EtcHosts
pub mod Hosts
pub mod Flows
mod Tests
use Prim.Native.String.{slice, len}
use mathlib.Core.List.{dec_mem}
use di.Prelude.{
  find, ℕ, zero, suc, ◌/◌, ◌%◌, ◌+◌, String, Bool, true, false, Option, none, some, List, [], ◌∷◌,
  ◌++◌, ◌<>◌, ◌>>=◌, ℤ, pos, negsuc, leb, ltb, if◌then◌else◌, ite,
}
use di.Db.Rows.{Container}

pub record NsInfo : Type 0 where
  pub ns : String
  pub pid : ℤ

pub record Netdev : Type 0 where
  pub name : String
  pub up : Bool
  pub peer_ns : String
  pub peer_mtu : ℕ

pub record Route : Type 0 where
  pub ip : String
  pub dev : String
  pub is_default : Bool

pub record OvsPort : Type 0 where
  pub name : String
  pub bridge : String
  pub patch : Bool
  pub peer : String
  pub attached_mac : String
  pub iface_id : String

pub record IpRule : Type 0 where
  pub cmd : String
  pub chain : String
  pub opts : String

pub record OfRule : Type 0 where
  pub table : String
  pub match : String
  pub actions : String

abbrev pub ns_path : String
ns_path = "/var/run/netns"

abbrev pub inner_veth : String
inner_veth = "eth0"

abbrev pub inner_mtu : ℕ
inner_mtu = 1450

abbrev pub di_bridge : String
di_bridge = "di-int"

abbrev pub ovn_bridge : String
ovn_bridge = "br-int"

abbrev pub gateway_ip : String
gateway_ip = "10.0.0.1"

-- `set[a] = struct{}{}`, for the keys of a map of that type
unfoldable pub add_key : {A : Type 0} → Discrete A → A → List A → List A
add_key discrete a set = ite (dec_mem discrete a set) set (set ++ a ∷ [])

-- `m[k]`, for a map of slices or of maps whose values do not matter; a missing key has none.
unfoldable pub list_at : {V : Type 0} → String → List (String × List V) → List V
unfolding find
list_at k m = elim (find k m) [ none ↦ [] | some vs ↦ vs ]

abbrev pub no_words : List String
no_words = []

abbrev pub cons_word : String → List String → List String
cons_word w ws = w ∷ ws

-- `%d`: the last digit comes last. A number has fewer digits than `suc` of it.
unfoldable pub digits : ℕ → ℕ → String
digits zero n = ""
digits (suc fuel) n =
    let rest = digits fuel (n / 10) in
    (if ltb n 10 then "" else rest) <> slice "0123456789" (n % 10) (n % 10 + 1)

unfoldable pub decimal : ℤ → String
unfolding digits
decimal (pos n) = digits (suc n) n
decimal (negsuc n) = "-" <> digits (suc (suc n)) (suc n)

-- `s[0:n]`
unfoldable pub prefix : ℕ → String → Option String
prefix n s = if leb n (len s) then some (slice s 0 n) else none

unfoldable pub network_ns : String → Option String
unfolding prefix
network_ns id = do short ← prefix 13 id; some (short <> "_ns")

unfoldable pub veths : String → Option (String × String)
unfolding prefix
veths id = do short ← prefix 13 id; some (short <> "_i", short <> "_c")

unfoldable pub temp_veth_pair_name : String → Option String
unfolding prefix
temp_veth_pair_name out = do short ← prefix 13 out; some (short <> "_i")

unfoldable pub patch_ports : String → Option (String × String)
unfolding prefix
patch_ports id = do short ← prefix 12 id; some (short <> "_br", short <> "_di")

unfoldable pub target_namespaces : List Container → Option (List NsInfo)
unfolding network_ns
target_namespaces [] = some []
target_namespaces (dbc ∷ containers) = do
  ns ← network_ns dbc.sched_id
  rest ← target_namespaces containers
  some ((record { ns = ns; pid = dbc.pid }) ∷ rest)

unfoldable pub generate_target_veths : List Container → Option (List Netdev)
unfolding network_ns veths
generate_target_veths [] = some []
generate_target_veths (dbc ∷ containers) = do
  (_, veth_out) ← veths dbc.sched_id
  ns ← network_ns dbc.sched_id
  rest ← generate_target_veths containers
  some ((record { name = veth_out; up = true; peer_ns = ns; peer_mtu = inner_mtu }) ∷ rest)

-- The three ports of one container.
unfoldable pub container_ports : Container → String → String → String → List OvsPort
container_ports dbc veth_out peer_br peer_di =
    (record {
      name = veth_out;
      bridge = di_bridge;
      patch = false;
      peer = "";
      attached_mac = "";
      iface_id = "";
    })
    ∷ (record {
      name = peer_di;
      bridge = di_bridge;
      patch = true;
      peer = peer_br;
      attached_mac = "";
      iface_id = "";
    })
    ∷ (record {
      name = peer_br;
      bridge = ovn_bridge;
      patch = true;
      peer = peer_di;
      attached_mac = dbc.mac;
      iface_id = dbc.sched_id;
    })
    ∷ []

unfoldable pub generate_target_ports : List Container → Option (List OvsPort)
unfolding veths patch_ports container_ports
generate_target_ports [] = some []
generate_target_ports (dbc ∷ containers) = do
  (_, veth_out) ← veths dbc.sched_id
  (peer_br, peer_di) ← patch_ports dbc.sched_id
  rest ← generate_target_ports containers
  some (container_ports dbc veth_out peer_br peer_di ++ rest)

abbrev pub target_routes : List Route
target_routes =
    (record { ip = "10.0.0.0/8"; dev = inner_veth; is_default = false })
    ∷ (record { ip = gateway_ip; dev = inner_veth; is_default = true })
    ∷ []
