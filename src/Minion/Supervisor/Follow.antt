-- ===== src/Minion/Supervisor/Follow.antt =====
-- The container table of a worker follows the containers that run on it (`runAppTransact`).
use mathlib.Core.List.{mem-map}
use mathlib.Core.Logic.{∥∥₁_elim}
use di.Prelude.{◌≡◌, refl, some, List, ◌∷◌, map, Mem, arith, eq_iff, sym, ap, ◌∙◌, String-discrete}
use mathlib.Core.HLevel.{hedberg}
use di.Join.{join}
use di.Join.Greedy.{Negative}
use di.Join.Partition.{join_matched}
use di.Db.{Database, container_row, select_from, blank_container}
use di.Db.Rows.{Container}
use di.Db.Sync.{flip}
use di.Db.Sync.Policy.{WellFormed, Follows, sync-flipped}
use di.Minion.Docker.{DockerContainer}
use di.Minion.Policy.Follow.{any}
use di.Minion.Supervisor.{local_score, update_local, run_app_transact}

-- What the daemon says of a row, and what it says of a running container.
abbrev pub local_view : Container → Container
local_view c = record (blank_container 0) {
  sched_id = c.sched_id;
  pid = c.pid;
  image = c.image;
  command = c.command;
}

abbrev pub local_source : DockerContainer → Container
local_source d = record (blank_container 0) {
  sched_id = d.id;
  pid = d.pid;
  image = d.image;
  command = d.path ∷ d.args;
}

-- A row that is known by the id of a running container, with what the daemon says of that container
-- and all else as it was.
abbrev pub local_row : DockerContainer → Container → Container
local_row d c = record {
  id = c.id;
  pid = d.pid;
  ip = c.ip;
  mac = c.mac;
  sched_id = d.id;
  image = d.image;
  command = d.path ∷ d.args;
  labels = c.labels;
  env = c.env;
  exclusive = c.exclusive;
}

local_score_match :
    (c : Container) (d : DockerContainer) → ¬ Negative (local_score c d) → c.sched_id ≡ d.id
unfolding local_score
local_score_match c d h = ground (arith, eq_iff c.sched_id d.id)

module _ (dkcs : List DockerContainer) (db : Database) where
  paired_ids :
      (d : DockerContainer) (c : Container)
      → Mem (d, c) (flip (join local_score (select_from any db) dkcs)).pairs
      → c.sched_id ≡ d.id
  unfolding flip
  paired_ids d c m = ∥∥₁_elim (mem-map.0 m) (hedberg String-discrete _ _) λ (p, n, e).
      let same = local_score_match p.0 p.1 (join_matched local_score _ dkcs p n) in
      sym (ap (λ (q : DockerContainer × Container). q.1.sched_id) e)
      ∙ same
      ∙ ap (λ (q : DockerContainer × Container). q.0.id) e

  -- On a database whose container ids are distinct and handed out, `runAppTransact` does not panic;
  -- afterwards the container rows are the running containers, each as often as it runs, and a row that
  -- was paired with a running container was already known by that container's id and keeps its labels,
  -- addresses and constraints. Its result is the ids of the rows that had no running container.
  pub run_app_transact-Follows :
      WellFormed Container db
      → (db' : Database) × (run_app_transact db dkcs
          ≡ some (
            db',
            map (λ c. c.sched_id) (join local_score (select_from any db) dkcs).lonely_lefts,
          ))
        × Follows any local_view local_source local_row dkcs
            (flip (join local_score (select_from any db) dkcs))
            db
            db'
        × ((d : DockerContainer) (c : Container)
            → Mem (d, c) (flip (join local_score (select_from any db) dkcs)).pairs
            → c.sched_id ≡ d.id)
  unfolding run_app_transact update_local
  run_app_transact-Follows w =
      let (db', e, h) =
        sync-flipped any local_view local_source update_local (λ s r. refl) (λ s r. refl)
          (λ s r. refl) local_score dkcs db w in
      (db', rw (e, run_app_transact), h, paired_ids)
