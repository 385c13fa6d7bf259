-- ===== src/Minion/Supervisor.antt =====
-- minion/supervisor/supervisor.go
pub mod Follow
pub mod Options
pub mod System
pub mod Roles
pub mod Complete
mod Tests
use di.Prelude.{
  ℕ, String, Bool, true, Option, none, some, List, ◌∷◌, map, ◌>>=◌, ℤ, pos, negsuc, str_eq, not,
  if◌then◌else◌,
}
use di.Join.{Joined, join}
use di.Db.{Database, container_row, select_from}
use di.Db.Rows.{Container}
use di.Db.Sync.{sync, flip}
use di.Minion.Docker.{DockerContainer}

-- `score` of `runAppTransact`
unfoldable pub local_score : Container → DockerContainer → ℤ
local_score dbc dkc = if not (str_eq dbc.sched_id dkc.id) then negsuc 0 else pos 0

unfoldable pub update_local : DockerContainer → Container → Container
update_local dkc dbc = record dbc {
  sched_id = dkc.id;
  pid = dkc.pid;
  image = dkc.image;
  command = dkc.path ∷ dkc.args;
}

-- `runAppTransact`: the new database, and the scheduler ids of the rows that were deleted.
unfoldable pub run_app_transact : Database → List DockerContainer → Option (Database × List String)
unfolding sync flip
run_app_transact view dkcs = do
  let joined = join local_score (select_from (λ c. true) view) dkcs
  view' ← sync update_local (flip joined) view
  some (view', map (λ c. c.sched_id) joined.lonely_lefts)
