-- ===== src/Minion/Policy.antt =====
-- minion/engine.go: how a minion makes its connection and container tables follow a policy.
pub mod Follow
pub mod Ports
mod Tests
use di.Prelude.{
  ℕ, ◌+◌, String, Bool, true, false, not, ◌&&◌, ◌||◌, Option, none, some, List, [], ◌∷◌, ite, ℤ,
  pos, negsuc, str_eq, int_eq, if◌then◌else◌, ◌>>=◌, sort_strings, Strings-discrete,
}
use di.Join.{join}
use di.Util.{edit_distance}
use di.Dsl.{DslConnection, DslContainer, Dsl, Compilation, accepted, rejected, crashed, endless}
use di.Db.{Database, connection_row, container_row, select_from}
use di.Db.Rows.{Connection, Container, Role, master, role_eq}
use di.Db.Sync.{sync}

-- `scoreFunc` of `updateConnections`
unfoldable pub connection_score : DslConnection → Connection → ℤ
connection_score dslc dbc =
    if str_eq dslc.from dbc.from
      && str_eq dslc.to dbc.to
      && int_eq dslc.min_port dbc.min_port
      && int_eq dslc.max_port dbc.max_port
    then pos 0
    else pos 1

unfoldable pub update_connection : DslConnection → Connection → Connection
update_connection dslc dbc = record dbc {
  from = dslc.from;
  to = dslc.to;
  min_port = dslc.min_port;
  max_port = dslc.max_port;
}

unfoldable pub update_connections : {F : Type 0} → Database → Dsl F → Option Database
unfolding sync
update_connections view spec =
    sync update_connection
      (join connection_score spec.query_connections (select_from (λ c. true) view)) view

abbrev pub pair_mem : String × String → List (String × String) → Bool
pair_mem p [] = false
pair_mem p (q ∷ qs) = str_eq p.0 q.0 && str_eq p.1 q.1 || pair_mem p qs

-- `score += 100` for each key of the first map that the second lacks
unfoldable pub exclusive_penalty : List (String × String) → List (String × String) → ℕ
exclusive_penalty [] other = 0
exclusive_penalty (k ∷ ks) other =
    (if pair_mem k other then 0 else 100) + exclusive_penalty ks other

-- `m[k]`: the empty string where the key is missing.
abbrev pub env_value : String → List (String × String) → String
env_value k [] = ""
env_value k ((j, v) ∷ env) = if str_eq j k then v else env_value k env

-- No key of the first map has another value in the second.
unfoldable pub env_agrees : List (String × String) → List (String × String) → Bool
env_agrees [] other = true
env_agrees ((k, v) ∷ env) other = str_eq v (env_value k other) && env_agrees env other

-- `score` of `updateContainers`
unfoldable pub container_score : DslContainer → Container → ℤ
unfolding exclusive_penalty env_agrees
container_score dslc dbc =
    if not (str_eq dbc.image dslc.image)
    then negsuc 0
    else ite (Strings-discrete dbc.command dslc.command)
        (if env_agrees dbc.env dslc.env
          then pos (
              edit_distance dbc.labels dslc.labels
              + exclusive_penalty dbc.exclusive dslc.exclusive
              + exclusive_penalty dslc.exclusive dbc.exclusive)
          else negsuc 0)
        (negsuc 0)

unfoldable pub update_container : DslContainer → Container → Container
update_container dslc dbc = record dbc {
  labels = sort_strings dslc.labels;
  command = dslc.command;
  image = dslc.image;
  exclusive = dslc.exclusive;
  env = dslc.env;
}

unfoldable pub update_containers : {F : Type 0} → Database → Dsl F → Option Database
unfolding sync
update_containers view spec =
    sync update_container
      (join container_score spec.query_containers (select_from (λ c. true) view)) view

-- `dsl.New` is `compile`. An invalid spec changes nothing; where the compilation panics or does not
-- end, nothing comes of the update either.
unfoldable pub update_policy :
    {F : Type 0} → (String → Compilation F) → Database → Role → String → Option Database
unfolding update_containers update_connections
update_policy compile view role spec = elim (compile spec) [
  | rejected ↦ some view
  | crashed ↦ none
  | endless ↦ none
  | accepted compiled ↦
      if role_eq role master
      then (update_containers view compiled >>= λ view'. update_connections view' compiled)
      else update_connections view compiled
]
