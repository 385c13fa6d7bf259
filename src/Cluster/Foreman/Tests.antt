-- ===== src/Cluster/Foreman/Tests.antt =====
-- The foreman (cluster/foreman.go) with clients that are the addresses of the minions, over a log of
-- the addresses that are configured.
use mathlib.Core.List.{mem-cons_self}
use di.Prelude.{
  find, ◌≡◌, ◌≢◌, refl, sym, String, true, false, none, some, List, [], ◌∷◌, ◌++◌, All, none≢some,
  if◌then◌else◌,
}
use di.Db.{Database, machine_row, cluster_row, minion_row, new, blank_machine, blank_minion}
use di.Db.Rows.{Machine, master}
use di.Db.Checks.{running}
use di.Minion.Server.{MinionConfig, pb_master, get_minion_config, config_of}
use di.Cluster.Foreman.{Rpc, Entry, no_config, update_minion_map, new_config, send_config}
use di.Cluster.Foreman.Map.{Owns, update_minion_map-Owns, update_minion_map-keeps}
use di.Cluster.Foreman.Quiet.{send_config-get_minion_config}

abbrev answer : MinionConfig
answer = record { id = "i-1"; role = pb_master; private_ip = "10.0.0.2"; spec = "" }

abbrev rpc : Rpc (List String) String
rpc = record {
  new_client = λ ip w. (w, some ip);
  set_minion = λ c config w. (w ++ c ∷ [], true);
  get_minion = λ c w. (w, some answer);
  boot_etcd = λ c ips w. (w, true);
  close = λ c w. w;
}

abbrev machine : Machine
machine = record (blank_machine 3) {
  cluster_id = 1;
  role = master;
  public_ip = "8.8.8.8";
  private_ip = "10.0.0.2";
  cloud_id = "i-1";
}

abbrev entry : Machine → Entry String
entry m = record {
  client = m.public_ip;
  connected = false;
  machine = m;
  config = no_config;
  mark = false;
}

abbrev old : List (String × Entry String)
old = ("9.9.9.9", entry (blank_machine 1)) ∷ ("8.8.8.8", entry (blank_machine 2)) ∷ []

update_minion_map-Owns_example :
    All
      (λ e. (e.1.mark ≡ false) × Owns (machine ∷ []) e)
      (update_minion_map rpc (machine ∷ []) old []).0
update_minion_map-Owns_example = update_minion_map-Owns rpc (machine ∷ []) old [] (refl, (refl, tt))

known : find "8.8.8.8" old ≢ none
unfolding find
known e = none≢some (sym e)

update_minion_map-keeps_example :
    find "8.8.8.8" (update_minion_map rpc (machine ∷ []) old []).0 ≢ none
update_minion_map-keeps_example =
    update_minion_map-keeps rpc (machine ∷ []) old [] machine mem-cons_self known

-- What a minion answers once it has been configured.
abbrev minion_db : Database
minion_db = record new {
  minions = record {
    rows =
        record (blank_minion 1) { minion_id = "i-1"; role = master; private_ip = "10.0.0.2" } ∷ [];
    triggers = [];
    trig_seq = 0;
    seq = 0;
  };
}

abbrev configured : Entry String
configured = record (entry machine) { connected = true; config = answer }

answers : get_minion_config minion_db ≡ some configured.config
unfolding running get_minion_config config_of
answers = refl

send_config-get_minion_config_example : send_config rpc "spec" [] configured [] ≡ (
    if (rpc.set_minion "8.8.8.8" (new_config "spec" configured) []).1
    then (rpc.boot_etcd "8.8.8.8" []
        (rpc.set_minion "8.8.8.8" (new_config "spec" configured) []).0).0
    else (rpc.set_minion "8.8.8.8" (new_config "spec" configured) []).0)
send_config-get_minion_config_example =
    send_config-get_minion_config rpc "spec" [] configured [] minion_db refl refl answers
