-- ===== src/Minion/Server.antt =====
-- minion/server.go: the calls by which the foreman configures a minion. Each runs as one
-- transaction; `none` is the panic on more than one row, and for a policy that its evaluation panics
-- or does not end.
pub mod Calls
use di.Prelude.{String, Bool, true, Option, none, some, List, [], ◌∷◌, ◌>>=◌, sort_strings}
use di.Dsl.{Compilation}
use di.Db.{Database, minion_row, etcd_row, commit, insert_new, select_from}
use di.Db.Rows.{Minion, Etcd, Role, role_none, worker, master}
use di.Minion.Policy.{update_policy}

-- `pb.MinionConfig_Role`; its values are those of `db.Role`, so the casts are these conversions,
-- which db/constants.go also has.
pub data PbRole : Type 0 where
  pb_none pb_worker pb_master : PbRole

abbrev pub role_to_pb : Role → PbRole
role_to_pb role_none = pb_none
role_to_pb worker = pb_worker
role_to_pb master = pb_master

abbrev pub pb_to_role : PbRole → Role
pb_to_role pb_none = role_none
pb_to_role pb_worker = worker
pb_to_role pb_master = master

pub record MinionConfig : Type 0 where
  pub id : String
  pub role : PbRole
  pub private_ip : String
  pub spec : String

unfoldable pub config_of : List Minion → Option MinionConfig
config_of [] = some (record { id = ""; role = role_to_pb role_none; private_ip = ""; spec = "" })
config_of (m ∷ []) =
    some
      (record { id = m.minion_id; role = role_to_pb m.role; private_ip = m.private_ip; spec = "" })
config_of (m ∷ n ∷ ms) = none

-- `GetMinionConfig`: the spec is not sent back.
unfoldable pub get_minion_config : Database → Option MinionConfig
unfolding config_of
get_minion_config view = config_of (select_from (λ m. true) view)

-- The row that a call works on: the only one, or a new one where there is none.
minion_choose : List Minion → Database → Option (Database × Minion)
minion_choose [] view = some (insert_new view)
minion_choose (m ∷ []) view = some (view, m)
minion_choose (m ∷ n ∷ ms) view = none

etcd_choose : List Etcd → Database → Option (Database × Etcd)
etcd_choose [] view = some (insert_new view)
etcd_choose (e ∷ []) view = some (view, e)
etcd_choose (e ∷ f ∷ es) view = none

-- The transaction of `SetMinionConfig`.
unfoldable pub set_minion_config :
    {F : Type 0} → (String → Compilation F) → MinionConfig → Database → Option Database
unfolding minion_choose update_policy
set_minion_config compile msg view = do
  (view₁, minion) ← minion_choose (select_from (λ m. true) view) view
  view₂ ←
      commit
        (record minion {
          minion_id = msg.id;
          role = pb_to_role msg.role;
          private_ip = msg.private_ip;
        })
        view₁
  update_policy compile view₂ (pb_to_role msg.role) msg.spec

-- The transaction of `BootEtcd`.
unfoldable pub boot_etcd : List String → Database → Option Database
unfolding etcd_choose
boot_etcd ips view = do
  (view₁, row) ← etcd_choose (select_from (λ e. true) view) view
  commit (record row { etcd_ips = sort_strings ips }) view₁
