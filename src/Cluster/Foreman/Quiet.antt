-- ===== src/Cluster/Foreman/Quiet.antt =====
-- What a minion answers to the foreman of cluster/foreman.go, and what the foreman makes of it.
use di.Prelude.{
  String, true, false, ◌≡◌, refl, sym, ap, some, List, [], ◌∷◌, arith, str_eq, if◌then◌else◌,
  some-injective,
}
use di.Db.{Database, minion_row, machine_row, cluster_row, select_from}
use di.Db.Rows.{Minion}
use di.Minion.Server.{MinionConfig, config_of, get_minion_config}
use di.Cluster.Foreman.{Rpc, Entry, config_eq, new_config, send_config}

module _ {W C : Type 0} (rpc : Rpc W C) where
  -- `GetMinionConfig` never answers with a spec.
  config_of-spec : (ms : List Minion) (cfg : MinionConfig) → config_of ms ≡ some cfg → cfg.spec ≡ ""
  unfolding config_of
  config_of-spec [] cfg e = sym (ap (λ (c : MinionConfig). c.spec) (some-injective e))
  config_of-spec (m ∷ []) cfg e = sym (ap (λ (c : MinionConfig). c.spec) (some-injective e))
  config_of-spec (m ∷ n ∷ ms) cfg e = cc

  -- As long as the cluster has a spec, what a minion answers to `GetMinionConfig` is never equal to
  -- what the foreman would send: every minion that answers is configured anew, each time, even if it
  -- has just been given the same configuration.
  pub send_config-get_minion_config :
      (spec : String) (ips : List String) (m : Entry C) (w : W) (db : Database)
      → str_eq spec "" ≡ false
      → m.connected ≡ true
      → get_minion_config db ≡ some m.config
      → send_config rpc spec ips m w ≡ (
          if (rpc.set_minion m.client (new_config spec m) w).1
          then (rpc.boot_etcd m.client ips (rpc.set_minion m.client (new_config spec m) w).0).0
          else (rpc.set_minion m.client (new_config spec m) w).0)
  unfolding send_config get_minion_config config_eq new_config
  send_config-get_minion_config spec ips m w db s c g = rw (c, send_config) (rw differs refl)
    where
      differs : config_eq (new_config spec m) m.config ≡ false
      differs = ground (arith, s, config_of-spec (select_from (λ m. true) db) m.config g)
