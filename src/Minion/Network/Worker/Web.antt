-- ===== src/Minion/Network/Worker/Web.antt =====
-- minion/network/worker.go: the ports on which the public internet reaches the containers, and the
-- rules that translate the host's addresses. The order of a Go map is that of its first insertions.
use di.Prelude.{put, String, List, [], ◌∷◌, ◌++◌, ◌<>◌, str_eq, if◌then◌else◌, ℤ}
use di.Db.Rows.{Container, Connection, ℤ-discrete}
use di.Dsl.Func.Labels.{public_label}
use di.Minion.Network.Worker.{decimal, add_key, list_at}

-- `map[string]map[int]struct{}`
abbrev pub Ports : Type 0
Ports = List (String × List ℤ)

-- `portsFromWeb[ip][port] = struct{}{}`, after the map of a new address has been made
unfoldable pub open_port : String → ℤ → Ports → Ports
unfolding list_at put add_key
open_port ip port m = put ip (add_key ℤ-discrete port (list_at ip m)) m

unfoldable pub open_labels : String → Connection → List String → Ports → Ports
unfolding open_port
open_labels ip conn [] m = m
open_labels ip conn (l ∷ labels) m =
    open_labels ip conn labels (if str_eq conn.to l then open_port ip conn.min_port m else m)

unfoldable pub open_connections : Container → List Connection → Ports → Ports
unfolding open_labels
open_connections dbc [] m = m
open_connections dbc (conn ∷ connections) m =
    open_connections dbc connections
      (if str_eq conn.from public_label then open_labels dbc.ip conn dbc.labels m else m)

unfoldable pub open_containers : List Connection → List Container → Ports → Ports
unfolding open_connections
open_containers connections [] m = m
open_containers connections (dbc ∷ containers) m =
    open_containers connections containers (open_connections dbc connections m)

unfoldable pub ports_from_web : List Container → List Connection → Ports
unfolding open_containers
ports_from_web containers connections = open_containers connections containers []

unfoldable pub nat_rule : String → ℤ → String → String
unfolding decimal
nat_rule ip port protocol =
    let number = decimal port in
    "-A PREROUTING -i eth0 -p " <> protocol <> " -m " <> protocol <> " --dport " <> number
    <> " -j DNAT --to-destination " <> ip <> ":" <> number

unfoldable pub port_rules : String → List ℤ → List String
unfolding nat_rule
port_rules ip [] = []
port_rules ip (port ∷ ports) = nat_rule ip port "tcp" ∷ nat_rule ip port "udp" ∷ port_rules ip ports

unfoldable pub web_rules : Ports → List String
unfolding port_rules
web_rules [] = []
web_rules ((ip, ports) ∷ m) = port_rules ip ports ++ web_rules m

-- The rules before they are parsed.
unfoldable pub target_nat_strings : List Container → List Connection → List String
unfolding web_rules ports_from_web
target_nat_strings containers connections =
    "-P PREROUTING ACCEPT"
    ∷ "-P INPUT ACCEPT"
    ∷ "-P OUTPUT ACCEPT"
    ∷ "-P POSTROUTING ACCEPT"
    ∷ "-A POSTROUTING -s 10.0.0.0/8 -o eth0 -j MASQUERADE"
    ∷ web_rules (ports_from_web containers connections)
