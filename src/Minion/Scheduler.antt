-- ===== src/Minion/Scheduler.antt =====
-- minion/scheduler: which containers the leader starts and stops.
pub mod Sync
pub mod Swarm
use di.Prelude.{
  ℕ, String, Bool, true, false, not, ◌&&◌, ◌||◌, Option, none, some, List, [], ◌∷◌, map, ◌>>=◌, ℤ,
  pos, negsuc, str_eq, if◌then◌else◌, length, ◌==◌,
}
use di.Join.{Joined, join}
use di.Util.{edit_distance}
use di.Db.{Database, container_row, select_from}
use di.Db.Rows.{Container}
use di.Db.Sync.{commit_all}
use di.Minion.Docker.{DockerContainer, is_user_label, parse_user_label, label_true_value}
use di.Minion.Policy.{env_agrees}

-- `strEq`: the lengths, then the elements.
str_eq_loop : List String → List String → Bool
str_eq_loop (x ∷ xs) (y ∷ ys) = str_eq x y && str_eq_loop xs ys
str_eq_loop _ _ = true

unfoldable pub slice_eq : List String → List String → Bool
unfolding str_eq_loop
slice_eq a b = length a == length b && str_eq_loop a b

-- The user labels of a running container.
unfoldable pub user_labels : List (String × String) → List String
user_labels [] = []
user_labels ((label, value) ∷ labels) =
    let rest = user_labels labels in
    if not (is_user_label label) || not (str_eq value label_true_value)
    then rest
    else parse_user_label label ∷ rest

-- `score` of `syncDB`
unfoldable pub schedule_score : Container → DockerContainer → ℤ
schedule_score dbc dkc =
    if not (env_agrees dbc.env dkc.env)
    then negsuc 0
    else if not (str_eq dkc.image dbc.image)
    then negsuc 0
    else if not (length dbc.command == 0)
        && not (slice_eq dbc.command dkc.args)
        && not (slice_eq dbc.command (dkc.path ∷ dkc.args))
    then negsuc 0
    else if str_eq dkc.id dbc.sched_id
    then pos 0
    else pos (edit_distance dbc.labels (user_labels dkc.labels))

unfoldable pub set_sched_id : DockerContainer → Container → Container
set_sched_id dkc dbc = record dbc { sched_id = dkc.id }

-- What `syncDB` returns: the ids to terminate and the containers to boot.
pub record Plan : Type 0 where
  pub term : List String
  pub boot : List Container

unfoldable pub sync_db : Database → List DockerContainer → Option (Database × Plan)
sync_db view dkcs = do
  let joined = join schedule_score (select_from (λ c. true) view) dkcs
  view' ← commit_all set_sched_id (map (λ p. (p.1, p.0)) joined.pairs) view
  some (view', record { term = map (λ d. d.id) joined.lonely_rights; boot = joined.lonely_lefts })
