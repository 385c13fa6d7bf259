-- ===== src/Minion/Network/Worker/Commands.antt =====
-- minion/network/worker.go and minion/network/link.go: the commands that the worker runs.
-- `sh` is the package's variable `shVerbose`, which runs a command line: a function of the state `W` of
-- the host. `false` is an error. No command line holds a `%`, so that formatting it once more, as
-- `shVerbose` does, leaves it as it is.
use di.Prelude.{
  String, Bool, true, false, not, Option, none, some, List, [], ◌∷◌, ◌<>◌, ◌>>=◌, pos, str_eq, ◌==◌,
  if◌then◌else◌,
}
use di.Minion.Network.Worker.{
  NsInfo, Netdev, Route, IpRule, OfRule, ns_path, inner_veth, inner_mtu, di_bridge, decimal,
  temp_veth_pair_name,
}

-- What a command comes to: its output, a status other than zero (`*exec.ExitError`), or that it did
-- not run.
pub data Ran : Type 0 where
  stdout : String → Ran
  exit_error : Ran
  not_run : Ran

abbrev pub succeeded : Ran → Bool
succeeded (stdout text) = true
succeeded _ = false

unfoldable pub ip_command : String → String → String
ip_command namespace cmd =
    if str_eq namespace "" then "ip " <> cmd else "ip netns exec " <> namespace <> " ip " <> cmd

unfoldable pub nat_deletion : IpRule → String
nat_deletion rule =
    if str_eq rule.cmd "-A"
    then "iptables -t nat -D " <> rule.chain <> " " <> rule.opts
    else if str_eq rule.cmd "-N"
    then "iptables -t nat -X " <> rule.chain
    else ""

unfoldable pub nat_addition : IpRule → String
nat_addition rule = "iptables -t nat -A " <> rule.chain <> " " <> rule.opts

unfoldable pub route_addition : Route → String
route_addition r =
    if r.is_default
    then "route add default via " <> r.ip
    else "route add " <> r.ip <> " via " <> r.dev

unfoldable pub route_deletion : Route → String
route_deletion r =
    if r.is_default
    then "route del default via " <> r.ip
    else "route delete " <> r.ip <> " via " <> r.dev

-- `strings.Split(args, " ")`, for a flow whose fields hold no space
unfoldable pub flow_addition : OfRule → List String
flow_addition flow =
    "ovs-ofctl"
    ∷ "add-flow"
    ∷ di_bridge
    ∷ (flow.table <> "," <> flow.match <> ",actions=" <> flow.actions)
    ∷ []

unfoldable pub flow_deletion : OfRule → List String
flow_deletion flow =
    "ovs-ofctl" ∷ "del-flows" ∷ "--strict" ∷ di_bridge ∷ (flow.table <> "," <> flow.match) ∷ []

unfoldable pub same_flag : Bool → Bool → Bool
same_flag true b = b
same_flag false b = not b

-- The next command, unless the one before it failed.
unfoldable pub and_then : {W : Type 0} → W × Bool → (W → W × Bool) → W × Bool
and_then (w, ok) next = if ok then next w else (w, false)

module _ {W : Type 0} (sh : String → W → W × Ran) where
  unfoldable pub ip_exec_verbose : String → String → W → W × Ran
  unfolding ip_command
  ip_exec_verbose namespace cmd w = sh (ip_command namespace cmd) w

  -- `sh`, which tells only whether the command failed
  unfoldable pub sh_command : String → W → W × Bool
  sh_command cmd w = let (w', ran) = sh cmd w in (w', succeeded ran)

  unfoldable pub ip_exec : String → String → W → W × Bool
  unfolding ip_exec_verbose
  ip_exec namespace cmd w = let (w', ran) = ip_exec_verbose namespace cmd w in (w', succeeded ran)

  unfoldable pub add_ip : String → String → String → W → W × Bool
  unfolding ip_exec
  add_ip namespace ip dev = ip_exec namespace ("addr add " <> ip <> " dev " <> dev)

  unfoldable pub del_ip : String → String → String → W → W × Bool
  unfolding ip_exec
  del_ip namespace ip dev = ip_exec namespace ("addr del " <> ip <> " dev " <> dev)

  unfoldable pub set_mac : String → String → String → W → W × Bool
  unfolding ip_exec
  set_mac namespace dev mac = ip_exec namespace ("link set dev " <> dev <> " address " <> mac)

  unfoldable pub add_route : String → Route → W → W × Bool
  unfolding ip_exec route_addition
  add_route namespace r = ip_exec namespace (route_addition r)

  unfoldable pub delete_route : String → Route → W → W × Bool
  unfolding ip_exec route_deletion
  delete_route namespace r = ip_exec namespace (route_deletion r)

  unfoldable pub delete_nat_rule : IpRule → W → W × Bool
  unfolding sh_command nat_deletion
  delete_nat_rule rule = sh_command (nat_deletion rule)

  unfoldable pub add_nat_rule : IpRule → W → W × Bool
  unfolding sh_command nat_addition
  add_nat_rule rule = sh_command (nat_addition rule)

  -- `none` is an error.
  unfoldable pub link_exists : String → String → W → W × Option Bool
  unfolding ip_command
  link_exists namespace name w =
      let (w', ran) = sh (ip_command namespace ("link show " <> name)) w in
      elim ran [
        | stdout text ↦ (w', some (not (str_eq text "")))
        | exit_error ↦ (w', some false)
        | not_run ↦ (w', none)
      ]

  unfoldable pub link_delete : String → String → W → W × Bool
  unfolding ip_exec
  link_delete namespace name = ip_exec namespace ("link delete " <> name)

  unfoldable pub del_veth : Netdev → W → W × Bool
  unfolding link_delete
  del_veth config = link_delete "" config.name

  -- A command if a link exists, no command if it does not, and an error if that cannot be told.
  unfoldable pub when_exists : String → String → (W → W × Bool) → W → W × Bool
  unfolding link_exists
  when_exists namespace name command w =
      let (w', exists) = link_exists namespace name w in
      elim exists [ none ↦ (w', false) | some there ↦ if there then command w' else (w', true) ]

  unfoldable pub move_peer : String → Netdev → W → W × Bool
  unfolding ip_exec when_exists
  move_peer tmp_peer target =
      when_exists "" tmp_peer (ip_exec "" ("link set " <> tmp_peer <> " netns " <> target.peer_ns))

  unfoldable pub rename_peer : String → Netdev → W → W × Bool
  unfolding ip_exec when_exists
  rename_peer tmp_peer target = when_exists target.peer_ns tmp_peer (
      if str_eq tmp_peer inner_veth
      then (λ w. (w, true))
      else ip_exec target.peer_ns ("link set dev " <> tmp_peer <> " name " <> inner_veth))

  unfoldable pub set_mtu : Netdev → Netdev → W → W × Bool
  unfolding ip_exec
  set_mtu current target w =
      if current.peer_mtu == target.peer_mtu
      then (w, true)
      else ip_exec target.peer_ns
          ("link set dev " <> inner_veth <> " mtu " <> decimal (pos inner_mtu)) w

  unfoldable pub set_state : Netdev → Netdev → W → W × Bool
  unfolding ip_exec and_then same_flag
  set_state current target w =
      let state = if target.up then "up" else "down" in
      if same_flag current.up target.up
      then (w, true)
      else and_then (ip_exec "" ("link set " <> target.name <> " " <> state) w)
          (ip_exec target.peer_ns ("link set " <> inner_veth <> " " <> state))

  -- The commands of `modVeth` in a row.
  unfoldable pub configure : String → Netdev → Netdev → W → W × Bool
  unfolding and_then move_peer rename_peer set_mtu set_state
  configure tmp_peer current target w =
      let moved = and_then (move_peer tmp_peer target w) (rename_peer tmp_peer target) in
      and_then (and_then moved (set_mtu current target)) (set_state current target)

  -- `none` is a panic.
  unfoldable pub mod_veth : Netdev → Netdev → W → Option (W × Bool)
  unfolding configure
  mod_veth current target w =
      if str_eq current.name target.name
      then temp_veth_pair_name target.name
        >>= (λ tmp_peer. some (configure tmp_peer current target w))
      else none

  unfoldable pub add_veth : Netdev → W → Option (W × Bool)
  unfolding ip_exec mod_veth
  add_veth config w = do
    tmp_peer ← temp_veth_pair_name config.name
    let (w', ok) = ip_exec "" ("link add " <> config.name <> " type veth peer name " <> tmp_peer) w
    let blank : Netdev = record { name = config.name; up = false; peer_ns = ""; peer_mtu = 0 }
    if ok then mod_veth blank config w' else some (w', false)

-- What a path of the file system is.
pub data Stat : Type 0 where
  exists : Stat
  missing : Stat
  unknown : Stat

-- `os.Stat`, `os.Remove` and `os.Symlink`, which answers to its source and its name.
pub record Files (W : Type 0) : Type 0 where
  pub stat : String → W → Stat
  pub remove : String → W → W × Bool
  pub symlink : String → String → W → W × Bool

module _ {W : Type 0} (os : Files W) where
  unfoldable pub del_ns : NsInfo → W → W × Bool
  del_ns info = os.remove (ns_path <> "/" <> info.ns)

  unfoldable pub add_ns : NsInfo → W → W × Bool
  add_ns info w =
      let source = "/hostproc/" <> decimal info.pid <> "/ns/net" in
      let name = ns_path <> "/" <> info.ns in
      elim (os.stat name w) [
        | missing ↦ os.symlink source name w
        | unknown ↦ (w, false)
        | exists ↦
            let (w', ok) = os.remove name w in if ok then os.symlink source name w' else (w', false)
      ]
