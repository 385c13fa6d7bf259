-- ===== src/Minion/Network/Worker/Hosts.antt =====
-- minion/network/worker.go: `/etc/hosts` of a container, by which it finds the labels that it may
-- reach. The client of Docker is a parameter over the state `W` of the host.
use Prim.Native.String.{len, slice, count}
use di.Prelude.{
  put, ℕ, zero, suc, ◌-◌, String, Bool, ◌||◌, not, ◌&&◌, Option, none, some, List, [], ◌∷◌, ◌++◌,
  ◌<>◌, map, str_eq, ltb, if◌then◌else◌, String-discrete, sort_strings,
}
use di.Db.Rows.{Container, Label, Connection}
use di.Dsl.Func.Labels.{public_label}
use di.Minion.Network.Worker.{add_key, list_at}
use di.Minion.Network.Worker.Updates.{label_ips, ip_of}

-- `util.ShortUUID`
unfoldable pub short_uuid : String → String
short_uuid uuid = if ltb (len uuid) 12 then uuid else slice uuid 0 12

-- `map[string][]string`
abbrev pub Conns : Type 0
Conns = List (String × List String)

unfoldable pub is_internet : Connection → Bool
is_internet conn = str_eq conn.to public_label || str_eq conn.from public_label

unfoldable pub label_conns : List Connection → Conns → Conns
unfolding put list_at is_internet
label_conns [] conns = conns
label_conns (conn ∷ connections) conns = label_conns connections (
    if is_internet conn
    then conns
    else put conn.from (list_at conn.from conns ++ conn.to ∷ []) conns)

-- `entry`: an address and a host
abbrev pub Entry : Type 0
Entry = String × String

unfoldable pub Entry-discrete : Discrete Entry
Entry-discrete = hlevel String-discrete

abbrev pub localhosts : List Entry
localhosts =
    ("127.0.0.1", "localhost")
    ∷ ("::1", "localhost ip6-localhost ip6-loopback")
    ∷ ("fe00::0", "ip6-localnet")
    ∷ ("ff00::0", "ip6-mcastprefix")
    ∷ ("ff02::1", "ip6-allnodes")
    ∷ ("ff02::2", "ip6-allrouters")
    ∷ []

unfoldable pub own_entry : Container → List Entry → List Entry
unfolding short_uuid add_key
own_entry dbc hosts =
    if not (str_eq dbc.ip "") && not (str_eq dbc.sched_id "")
    then add_key Entry-discrete (dbc.ip, short_uuid dbc.sched_id) hosts
    else hosts

unfoldable pub add_reached : List (String × String) → List String → List Entry → List Entry
unfolding ip_of add_key
add_reached label_ip [] hosts = hosts
add_reached label_ip (to ∷ tos) hosts =
    let ip = ip_of to label_ip in
    add_reached label_ip tos (
      if str_eq to public_label || str_eq ip ""
      then hosts
      else add_key Entry-discrete (ip, to <> ".di") hosts)

unfoldable pub add_labels : List (String × String) → Conns → List String → List Entry → List Entry
unfolding add_reached list_at
add_labels label_ip conns [] hosts = hosts
add_labels label_ip conns (l ∷ labels) hosts =
    add_labels label_ip conns labels (add_reached label_ip (list_at l conns) hosts)

-- The keys of `newHosts`.
unfoldable pub new_hosts : Container → List (String × String) → Conns → List Entry
unfolding own_entry add_labels
new_hosts dbc label_ip conns = add_labels label_ip conns dbc.labels (own_entry dbc localhosts)

unfoldable pub spaces : ℕ → String
spaces zero = ""
spaces (suc n) = " " <> spaces n

-- `%-15s %s`
unfoldable pub host_line : Entry → String
unfolding spaces
host_line (ip, host) = ip <> spaces (15 - count ip) <> " " <> host

-- `strings.Join(hosts, "\n") + "\n"`, of at least one line
unfoldable pub lines : List String → String
lines [] = ""
lines (h ∷ hs) = h <> "\n" <> lines hs

unfoldable pub generate_etc_hosts : Container → List (String × String) → Conns → String
unfolding new_hosts host_line lines
generate_etc_hosts dbc label_ip conns =
    lines (sort_strings (map host_line (new_hosts dbc label_ip conns)))

-- `GetFromContainer` and `WriteToContainer`: `none` and `false` are errors.
pub record Client (W : Type 0) : Type 0 where
  pub get_from : String → String → W → W × Option String
  pub write_to : String → String → String → String → W → W × Bool

module _ {W : Type 0} (dk : Client W) where
  -- An error of the first call ends the loop.
  unfoldable pub write_hosts : List (String × String) → Conns → List Container → W → W
  unfolding generate_etc_hosts
  write_hosts label_ip conns [] w = w
  write_hosts label_ip conns (dbc ∷ containers) w =
      let (w', current) = dk.get_from dbc.sched_id "/etc/hosts" w in
      elim current [
        | none ↦ w'
        | some text ↦
            let hosts = generate_etc_hosts dbc label_ip conns in
            write_hosts label_ip conns containers (
              if str_eq hosts text
              then w'
              else (dk.write_to dbc.sched_id hosts "/etc" "hosts" w').0)
      ]

  unfoldable pub update_etc_hosts : List Container → List Label → List Connection → W → W
  unfolding write_hosts label_ips label_conns
  update_etc_hosts containers labels connections w =
      write_hosts (label_ips labels []) (label_conns connections []) containers w
