-- ===== src/Minion/Network/Worker/Ports.antt =====
-- minion/network/worker.go: the ports of the two bridges. The database of Open vSwitch (ovsdb/ovsdb.go)
-- is a parameter over the state `W` of the host; `false` is an error.
use di.Prelude.{
  String, Bool, true, false, not, ◌&&◌, List, [], ◌∷◌, str_eq, if◌then◌else◌, ℤ, pos, negsuc,
}
use di.Join.{join}
use di.Minion.Network.Worker.{OvsPort}
use di.Minion.Network.Worker.Commands.{and_then}

pub record Ovsdb (W : Type 0) : Type 0 where
  pub create_port : String → String → W → W × Bool
  pub delete_port : String → String → W → W × Bool
  pub set_type : String → String → W → W × Bool
  pub set_peer : String → String → W → W × Bool
  pub set_attached_mac : String → String → W → W × Bool
  pub set_iface_id : String → String → W → W × Bool

abbrev pub iface_type_patch : String
iface_type_patch = "patch"

unfoldable pub port_score : OvsPort → OvsPort → ℤ
port_score left right =
    if str_eq left.name right.name && str_eq left.bridge right.bridge then pos 0 else negsuc 0

-- A loop that logs an error and goes on.
unfoldable pub each_logged : {A W : Type 0} → (A → W → W × Bool) → List A → W → W
each_logged f [] w = w
each_logged f (x ∷ xs) w = each_logged f xs (f x w).0

module _ {W : Type 0} (odb : Ovsdb W) where
  -- `if current.peer != target.peer && target.peer != ""` and its like
  unfoldable pub set_changed :
      (String → String → W → W × Bool) → String → String → String → W → W × Bool
  set_changed set name current target w =
      if not (str_eq current target) && not (str_eq target "") then set name target w else (w, true)

  unfoldable pub set_patch : OvsPort → OvsPort → W → W × Bool
  set_patch current target w =
      if not current.patch && target.patch
      then odb.set_type target.name iface_type_patch w
      else (w, true)

  unfoldable pub mod_port : OvsPort → OvsPort → W → W × Bool
  unfolding and_then set_changed set_patch
  mod_port current target w =
      let patched = set_patch current target w in
      let peered =
        and_then patched (set_changed odb.set_peer target.name current.peer target.peer) in
      let attached =
        and_then peered
          (set_changed odb.set_attached_mac target.name current.attached_mac target.attached_mac) in
      and_then attached (set_changed odb.set_iface_id target.name current.iface_id target.iface_id)

  unfoldable pub dummy_port : OvsPort → OvsPort
  dummy_port config = record {
    name = config.name;
    bridge = config.bridge;
    patch = false;
    peer = "";
    attached_mac = "";
    iface_id = "";
  }

  unfoldable pub add_port : OvsPort → W → W × Bool
  unfolding and_then mod_port dummy_port
  add_port config w =
      and_then (odb.create_port config.bridge config.name w) (mod_port (dummy_port config) config)

  unfoldable pub del_port : OvsPort → W → W × Bool
  del_port config = odb.delete_port config.bridge config.name

  -- The "bridge" port for the bridge should never be deleted.
  unfoldable pub del_lonely : OvsPort → W → W × Bool
  unfolding del_port
  del_lonely l w = if str_eq l.name l.bridge then (w, true) else del_port l w

  unfoldable pub update_ports : List OvsPort → List OvsPort → W → W
  unfolding each_logged del_lonely add_port mod_port
  update_ports current target w =
      let joined = join port_score current target in
      let deleted = each_logged del_lonely joined.lonely_lefts w in
      let added = each_logged add_port joined.lonely_rights deleted in
      each_logged (λ (l, r). mod_port l r) joined.pairs added
