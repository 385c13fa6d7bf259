-- ===== src/Minion/Network/Worker/Flows.antt =====
-- minion/network/worker.go: the flows of the bridge di-int that a worker wants, before they are parsed.
-- The numbers of the ports of Open vSwitch are a parameter; the order of a Go map is that of its first
-- insertions.
use Prim.Native.String.{slice}
use di.Prelude.{
  put, ℕ, zero, suc, ◌+◌, ◌/◌, ◌%◌, String, Bool, true, false, not, ◌||◌, ◌&&◌, Option, none, some,
  List, [], ◌∷◌, ◌++◌, ◌<>◌, str_eq, ltb, ◌==◌, if◌then◌else◌, ℤ, pos, negsuc, length, sort_strings,
  String-discrete,
}
use di.Db.Rows.{Container, Connection, Label, ℤ-discrete}
use di.Dsl.Func.Labels.{public_label}
use di.Minion.Network.Worker.{decimal, add_key, list_at, veths, patch_ports}

abbrev pub label_mac : String
label_mac = "0a:00:00:00:00:00"

-- The rules, the error that the caller logs, or the panic of an id that is too short.
pub data Flows : Type 0 where
  rules : List String → Flows
  failed : Flows
  panics : Flows

-- `portsToWeb` and `portsFromWeb`
pub record WebPorts : Type 0 where
  pub to_web : List ℤ
  pub from_web : List ℤ

unfoldable pub web_port : String → Connection → WebPorts → WebPorts
unfolding add_key
web_port l conn ports =
    if str_eq conn.from l && str_eq conn.to public_label
    then record ports { to_web = add_key ℤ-discrete conn.min_port ports.to_web }
    else if str_eq conn.from public_label && str_eq conn.to l
    then record ports { from_web = add_key ℤ-discrete conn.min_port ports.from_web }
    else ports

unfoldable pub web_ports_of : String → List Connection → WebPorts → WebPorts
unfolding web_port
web_ports_of l [] ports = ports
web_ports_of l (conn ∷ connections) ports = web_ports_of l connections (web_port l conn ports)

unfoldable pub web_ports : List String → List Connection → WebPorts → WebPorts
unfolding web_ports_of
web_ports [] connections ports = ports
web_ports (l ∷ labels) connections ports =
    web_ports labels connections (web_ports_of l connections ports)

-- `egressRule` and `ingressRule` with their two verbs filled in
unfoldable pub egress_rule : String → ℤ → String → String → String
egress_rule gateway_mac of_veth protocol port =
    "table=0 priority=5000,in_port="
    <> decimal of_veth
    <> ","
    <> protocol
    <> ","
    <> port
    <> ",dl_dst="
    <> gateway_mac
    <> " actions=LOCAL"

unfoldable pub ingress_rule : String → ℤ → String → String → String
ingress_rule mac of_veth protocol port =
    "table=0 priority=5000,in_port=LOCAL,"
    <> protocol
    <> ","
    <> port
    <> ",dl_dst="
    <> mac
    <> " actions="
    <> decimal of_veth

-- The loops over ports and protocols: `out` is the field of the port in packets that leave the
-- container, and `back` in packets that reach it.
unfoldable pub port_flows : String → String → ℤ → String → String → List ℤ → List String
unfolding egress_rule ingress_rule
port_flows gateway_mac mac of_veth out back [] = []
port_flows gateway_mac mac of_veth out back (port ∷ ports) =
    let leaving = out <> "=" <> decimal port in
    let reaching = back <> "=" <> decimal port in
    egress_rule gateway_mac of_veth "tcp" leaving
    ∷ ingress_rule mac of_veth "tcp" reaching
    ∷ egress_rule gateway_mac of_veth "udp" leaving
    ∷ ingress_rule mac of_veth "udp" reaching
    ∷ port_flows gateway_mac mac of_veth out back ports

abbrev pub is_empty : List ℤ → Bool
is_empty [] = true
is_empty (p ∷ ps) = false

unfoldable pub patch_flows : ℤ → ℤ → List String
patch_flows of_di of_veth =
    ("table=0 priority=5000,in_port=" <> decimal of_di <> " actions=output:" <> decimal of_veth)
    ∷ ("table=2 priority=5000,in_port=" <> decimal of_veth <> " actions=output:" <> decimal of_di)
    ∷ ("table=0 priority=0,in_port=" <> decimal of_veth <> " actions=output:" <> decimal of_di)
    ∷ []

unfoldable pub icmp_flows : String → String → ℤ → List String
icmp_flows gateway_mac mac of_veth =
    ("table=0 priority=5000,icmp,in_port="
      <> decimal of_veth
      <> ",dl_dst="
      <> gateway_mac
      <> " actions=LOCAL")
    ∷ ("table=0 priority=5000,icmp,in_port=LOCAL,dl_dst="
        <> mac
        <> " actions=output:"
        <> decimal of_veth)
    ∷ []

unfoldable pub arp_flows : String → ℤ → ℤ → Bool → Bool → List String
arp_flows mac of_di of_veth to_gateway from_gateway =
    let arp_dst = if to_gateway then decimal of_di <> ",LOCAL" else decimal of_di in
    (if from_gateway
      then ("table=0 priority=4500,arp,in_port=LOCAL,dl_dst=ff:ff:ff:ff:ff:ff actions=output:"
          <> decimal of_veth)
        ∷ []
      else [])
    ++ ("table=0 priority=4500,arp,in_port=" <> decimal of_veth <> " actions=output:" <> arp_dst)
      ∷ ("table=0 priority=4500,arp,in_port=LOCAL,dl_dst="
          <> mac
          <> " actions=output:"
          <> decimal of_veth)
      ∷ []

unfoldable pub container_flows : String → String → ℤ → ℤ → WebPorts → List String
unfolding patch_flows port_flows icmp_flows arp_flows
container_flows gateway_mac mac of_di of_veth ports =
    let web = not (is_empty ports.to_web) || not (is_empty ports.from_web) in
    patch_flows of_di of_veth
    ++ port_flows gateway_mac mac of_veth "tp_src" "tp_dst" ports.from_web
    ++ port_flows gateway_mac mac of_veth "tp_dst" "tp_src" ports.to_web
    ++ (if web then icmp_flows gateway_mac mac of_veth else [])
    ++ arp_flows mac of_di of_veth web (not (is_empty ports.from_web))

-- `LabelMacs`
unfoldable pub add_macs :
    String → List String → List (String × List String) → List (String × List String)
unfolding put add_key list_at
add_macs mac [] m = m
add_macs mac (l ∷ labels) m =
    add_macs mac labels (put l (add_key String-discrete mac (list_at l m)) m)

unfoldable pub label_macs :
    List Container → List (String × List String) → List (String × List String)
unfolding add_macs
label_macs [] m = m
label_macs (dbc ∷ containers) m = label_macs containers (add_macs dbc.mac dbc.labels m)

-- `%x`
unfoldable pub hex_digits : ℕ → ℕ → String
hex_digits zero n = ""
hex_digits (suc fuel) n =
    let rest = hex_digits fuel (n / 16) in
    (if ltb n 16 then "" else rest) <> slice "0123456789abcdef" (n % 16) (n % 16 + 1)

unfoldable pub mac_flows : String → ℕ → List String → List String
unfolding hex_digits
mac_flows ip i [] = []
mac_flows ip i (mac ∷ macs) =
    let reg = (if ltb 0 i then "0x" else "") <> hex_digits (suc i) i in
    ("table=1 priority=5000,ip,nw_dst=" <> ip <> ",reg0=" <> reg <> " actions=mod_dl_dst:" <> mac
      <> ",resubmit(,2)")
    ∷ mac_flows ip (suc i) macs

-- `int(math.Ceil(math.Log2(float64(n))))` is a parameter.
module _ (ceil_log2 : ℕ → ℕ) where
  unfoldable pub multipath : ℕ → String
  multipath n =
      let lg2n = ceil_log2 n in
      let range = if lg2n == 0 then "0" else "0.." <> decimal (pos lg2n) in
      "multipath(symmetric_l3l4,0,modulo_n,"
      <> decimal (pos n)
      <> ",0,NXM_NX_REG0["
      <> range
      <> "])"

  unfoldable pub label_flows : Label → List String → List String
  unfolding multipath mac_flows
  label_flows label [] = []
  label_flows label (mac ∷ macs) =
      ("table=0 priority=4000,dl_dst="
        <> label_mac
        <> ",ip,nw_dst="
        <> label.ip
        <> " actions="
        <> multipath (length (mac ∷ macs))
        <> ",resubmit(,1)")
      ∷ mac_flows label.ip 0 (sort_strings (mac ∷ macs))

  unfoldable pub labels_flows : List (String × List String) → List Label → List String
  unfolding label_flows list_at
  labels_flows macs [] = []
  labels_flows macs (label ∷ labels) =
      let rest = labels_flows macs labels in
      if label.multi_host then label_flows label (list_at label.label macs) ++ rest else rest

unfoldable pub is_negative : ℤ → Bool
is_negative (pos n) = false
is_negative (negsuc n) = true

-- What follows the rules of one container.
unfoldable pub before_rules : List String → Flows → Flows
before_rules new (rules rest) = rules (new ++ rest)
before_rules new failed = failed
before_rules new panics = panics

-- `port_no` opens the database and asks for the number of a port; `none` is an error of either.
-- `gateway_mac` is the address of the bridge, the empty text where it cannot be read.
module _ (gateway_mac : String) (port_no : String → Option ℤ) (connections : List Connection) where
  unfoldable pub numbered_flows : Container → String → String → Flows → Flows
  unfolding is_negative before_rules container_flows web_ports
  numbered_flows dbc veth_out peer_di rest = elim (port_no peer_di) [
    | none ↦ failed
    | some of_di ↦ elim (port_no veth_out) [
      | none ↦ failed
      | some of_veth ↦
          let ports = web_ports dbc.labels connections (record { to_web = []; from_web = [] }) in
          if is_negative of_di || is_negative of_veth
          then failed
          else before_rules (container_flows gateway_mac dbc.mac of_di of_veth ports) rest
    ]
  ]

  unfoldable pub containers_flows : List Container → List String → Flows
  unfolding veths patch_ports numbered_flows
  containers_flows [] last = rules last
  containers_flows (dbc ∷ containers) last =
      let rest = containers_flows containers last in
      elim (veths dbc.sched_id) [
        | none ↦ panics
        | some (_, veth_out) ↦ elim (patch_ports dbc.sched_id) [
          | none ↦ panics
          | some (_, peer_di) ↦ numbered_flows dbc veth_out peer_di rest
        ]
      ]

  unfoldable pub target_flows : (ℕ → ℕ) → List Container → List Label → Flows
  unfolding containers_flows labels_flows label_macs
  target_flows ceil_log2 containers labels =
      containers_flows containers (labels_flows ceil_log2 (label_macs containers []) labels)
