-- ===== src/Minion/Network/Worker/Updates.antt =====
-- minion/network/worker.go: the loops that make the host's state what the containers need. Each takes
-- what the host has now, which the worker has read and parsed, and what it should have.
use di.Prelude.{
  put, find, String-discrete, String, Bool, true, false, ◌&&◌, Option, none, some, List, [], ◌∷◌,
  ◌<>◌, ◌>>=◌, map, str_eq, if◌then◌else◌, ℤ, pos, negsuc,
}
use di.Join.{join}
use di.Db.Rows.{Container, Label}
use di.Minion.Network.Worker.{
  NsInfo, Netdev, Route, IpRule, OfRule, inner_veth, network_ns, target_namespaces,
  generate_target_veths, target_routes, add_key,
}
use di.Minion.Network.Worker.Commands.{
  Ran, Files, same_flag, del_ns, add_ns, del_veth, add_veth, mod_veth, add_ip, del_ip, set_mac,
  add_route, delete_route, add_nat_rule, delete_nat_rule, flow_addition, flow_deletion,
}
use di.Minion.Network.Worker.Ports.{each_logged}
use di.Minion.Network.Worker.Queries.{list_ip, get_mac}

abbrev pub scored : Bool → ℤ
scored b = if b then pos 0 else negsuc 0

unfoldable pub ns_score : NsInfo → NsInfo → ℤ
ns_score left right = scored (str_eq left.ns right.ns)

unfoldable pub veth_score : Netdev → Netdev → ℤ
veth_score left right = scored (str_eq left.name right.name)

unfoldable pub nat_score : IpRule → IpRule → ℤ
nat_score left right =
    scored
      (str_eq left.cmd right.cmd && str_eq left.chain right.chain && str_eq left.opts right.opts)

unfoldable pub ip_score : String → String → ℤ
ip_score left right = scored (str_eq left right)

unfoldable pub route_score : Route → Route → ℤ
unfolding same_flag
route_score left right = scored (
    str_eq left.ip right.ip
    && str_eq left.dev right.dev
    && same_flag left.is_default right.is_default)

unfoldable pub flow_score : OfRule → OfRule → ℤ
flow_score left right = scored (
    str_eq left.table right.table
    && str_eq left.match right.match
    && str_eq left.actions right.actions)

-- A loop that returns at the first error.
unfoldable pub each_or_stop : {A W : Type 0} → (A → W → W × Bool) → List A → W → W × Bool
each_or_stop f [] w = (w, true)
each_or_stop f (x ∷ xs) w =
    let (w', ok) = f x w in let rest = each_or_stop f xs w' in if ok then rest else (w', false)

-- A loop that logs an error, goes on, and may panic.
unfoldable pub each_panicking : {A W : Type 0} → (A → W → Option (W × Bool)) → List A → W → Option W
each_panicking f [] w = some w
each_panicking f (x ∷ xs) w = do (w', _) ← f x w; each_panicking f xs w'

unfoldable pub update_namespaces :
    {W : Type 0} → Files W → List NsInfo → List Container → W → Option W
unfolding ns_score each_logged target_namespaces del_ns add_ns
update_namespaces os current containers w = do
  target ← target_namespaces containers
  let joined = join ns_score current target
  some
      (each_logged (add_ns os) joined.lonely_rights (each_logged (del_ns os) joined.lonely_lefts w))

-- `daemon` runs the words of a command in the container of Open vSwitch.
unfoldable pub update_open_flow :
    {W : Type 0} → (List String → W → W × Bool) → List OfRule → List OfRule → W → W
unfolding flow_score each_logged flow_addition flow_deletion
update_open_flow daemon current target w =
    let joined = join flow_score current target in
    each_logged (λ f. daemon (flow_addition f)) joined.lonely_rights
      (each_logged (λ f. daemon (flow_deletion f)) joined.lonely_lefts w)

-- `labelIP[l.Label] = l.IP`, label by label
unfoldable pub label_ips : List Label → List (String × String) → List (String × String)
unfolding put
label_ips [] m = m
label_ips (l ∷ labels) m = label_ips labels (put l.label l.ip m)

-- `labelIP[l]`
unfoldable pub ip_of : String → List (String × String) → String
unfolding find
ip_of l m = elim (find l m) [ none ↦ "" | some ip ↦ ip ]

-- The keys of `newIPSet`.
unfoldable pub new_ip_set : List (String × String) → List String → List String → List String
unfolding add_key ip_of
new_ip_set label_ip [] set = set
new_ip_set label_ip (l ∷ labels) set =
    let ip = ip_of l label_ip in
    new_ip_set label_ip labels (if str_eq ip "" then set else add_key String-discrete ip set)

unfoldable pub new_ips : List Label → Container → List String
unfolding label_ips new_ip_set
new_ips labels dbc =
    map (λ ip. ip <> "/8") (new_ip_set (label_ips labels []) dbc.labels (dbc.ip ∷ []))

module _ {W : Type 0} (sh : String → W → W × Ran) where
  unfoldable pub update_veths : List Netdev → List Container → W → Option W
  unfolding veth_score each_logged each_panicking generate_target_veths del_veth add_veth mod_veth
  update_veths current containers w = do
    target ← generate_target_veths containers
    let joined = join veth_score current target
    let deleted = each_logged (del_veth sh) joined.lonely_lefts w
    added ← each_panicking (add_veth sh) joined.lonely_rights deleted
    each_panicking (λ (l, r). mod_veth sh l r) joined.pairs added

  unfoldable pub update_nat : List IpRule → List IpRule → W → W
  unfolding nat_score each_logged delete_nat_rule add_nat_rule
  update_nat current target w =
      let joined = join nat_score current target in
      each_logged (add_nat_rule sh) joined.lonely_rights
        (each_logged (delete_nat_rule sh) joined.lonely_lefts w)

  unfoldable pub update_ips : String → String → List String → List String → W → W × Bool
  unfolding ip_score each_or_stop del_ip add_ip
  update_ips namespace dev current target w =
      let joined = join ip_score current target in
      let (w', ok) = each_or_stop (λ ip. del_ip sh namespace ip dev) joined.lonely_lefts w in
      if ok
      then each_or_stop (λ ip. add_ip sh namespace ip dev) joined.lonely_rights w'
      else (w', false)

  -- One container of `updateRoutes`, whose namespace has the routes `current`.
  unfoldable pub update_routes : String → List Route → W → W
  unfolding route_score each_logged delete_route add_route
  update_routes ns current w =
      let joined = join route_score current target_routes in
      each_logged (add_route sh ns) joined.lonely_rights
        (each_logged (delete_route sh ns) joined.lonely_lefts w)

  -- One container of `updateContainerIPs`, the hardware address of its device.
  unfoldable pub update_mac : String → Container → W → W
  unfolding get_mac set_mac
  update_mac ns dbc w =
      let (w', mac) = get_mac sh ns inner_veth w in
      elim mac [
        | none ↦ w'
        | some mac ↦ if str_eq mac dbc.mac then w' else (set_mac sh ns inner_veth dbc.mac w').0
      ]

  -- One container of `updateContainerIPs`; an error leaves it for the next container.
  unfoldable pub update_container_ip : List Label → Container → W → Option W
  unfolding network_ns list_ip update_ips new_ips update_mac
  update_container_ip labels dbc w = do
    ns ← network_ns dbc.sched_id
    let (w₁, ips) = list_ip sh ns inner_veth w
    some (elim ips [
      | none ↦ w₁
      | some ips ↦
          let (w₂, ok) = update_ips ns inner_veth ips (new_ips labels dbc) w₁ in
          if ok then update_mac ns dbc w₂ else w₂
    ])

  unfoldable pub update_container_ips : List Label → List Container → W → Option W
  unfolding update_container_ip
  update_container_ips labels [] w = some w
  update_container_ips labels (dbc ∷ containers) w = do
    w' ← update_container_ip labels dbc w
    update_container_ips labels containers w'
