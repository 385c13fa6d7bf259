-- ===== src/Minion/Scheduler/Sync.antt =====
-- `syncDB` of minion/scheduler/scheduler.go splits the rows and the running containers.
use mathlib.Core.List.{map-append}
use mathlib.Core.List.Perm
use mathlib.Core.HLevel.{¬_prop}
use mathlib.Core.List.{mem-map}
use mathlib.Core.Logic.{∥∥₁_elim}
use di.Prelude.{
  String, true, ◌≡◌, ◌⊎◌, refl, sym, ap, subst, ◌∙◌, some, List, [], ◌∷◌, ◌++◌, map, Mem, Perm,
  arith, eq_iff, length, ◌==◌,
}
use di.Join.{join}
use di.Join.Greedy.{Negative}
use di.Join.Partition.{rights, join-lefts, join-rights, join_matched}
use di.Db.{Database, container_row, select_from}
use di.Db.Rows.{Container}
use di.Db.Sync.{flip}
use di.Db.Tables
use di.Db.Sync.Effects.{select_any, rows, Frame, Holds-perm, commit_all-Holds}
use di.Db.Sync.Flips.{rights-flip}
use di.Db.Sync.Policy.{WellFormed, WellFormed→Holds, Holds→WellFormed}
use di.Minion.Docker.{DockerContainer}
use di.Minion.Policy.{env_agrees}
use di.Minion.Policy.Follow.{any}
use di.Minion.Scheduler.{schedule_score, set_sched_id, Plan, sync_db, slice_eq, str_eq_loop}

str_eq_loop_lem : (a b : List String) → length a ≡ length b → str_eq_loop a b ≡ true → a ≡ b
unfolding str_eq_loop
str_eq_loop_lem [] [] l h = refl
str_eq_loop_lem [] (y ∷ b) l h = absurd (omega arith)
str_eq_loop_lem (x ∷ a) [] l h = absurd (omega arith)
str_eq_loop_lem (x ∷ a) (y ∷ b) l h = ground (arith, str_eq_loop_lem a b, eq_iff x y)

slice_eq→eq : (a b : List String) → slice_eq a b ≡ true → a ≡ b
unfolding slice_eq
slice_eq→eq a b h = ground (arith, str_eq_loop_lem a b)

length-zero : (xs : List String) → (length xs == 0) ≡ true → xs ≡ []
length-zero [] h = refl
length-zero (x ∷ xs) h = absurd (ground arith)

-- The container runs what the row says: its image, its environment and, if it names a command, its
-- command, with or without the path in front.
abbrev pub Runs : Container → DockerContainer → Type 0
Runs c d =
    (d.image ≡ c.image)
    × (env_agrees c.env d.env ≡ true)
    × ((c.command ≡ []) ⊎ ((c.command ≡ d.args) ⊎ (c.command ≡ d.path ∷ d.args)))

-- A row is only ever matched with a container of its image, its environment and, if it names a
-- command, its command, with or without the path in front.
schedule_score_match :
    (c : Container) (d : DockerContainer) → ¬ Negative (schedule_score c d) → Runs c d
unfolding schedule_score
schedule_score_match c d h = ground (
  arith,
  eq_iff d.image c.image,
  slice_eq→eq c.command d.args,
  slice_eq→eq c.command (d.path ∷ d.args),
  length-zero c.command,
)

-- The row with the id of the container that runs it, and all else as it was.
abbrev pub with_id_of : DockerContainer → Container → Container
with_id_of d c = record {
  id = c.id;
  pid = c.pid;
  ip = c.ip;
  mac = c.mac;
  sched_id = d.id;
  image = c.image;
  command = c.command;
  labels = c.labels;
  env = c.env;
  exclusive = c.exclusive;
}

-- What `syncDB` makes of the database `db` and the running containers, as `db'` and a plan. `pairs`
-- are the containers that stay, with their rows.
pub record Scheduled (db db' : Database) (dkcs : List DockerContainer) (plan : Plan) : Type 0 where
  pub pairs : List (DockerContainer × Container)
  -- Every row is either paired or booted, and the pairs have their container's id written.
  pub before : Perm (rows db) (map (λ p. p.1) pairs ++ plan.boot)
  pub after : Perm (rows db') (map (λ p. with_id_of p.0 p.1) pairs ++ plan.boot)
  -- Every running container is either paired or terminated.
  pub running : Perm (map (λ d. d.id) dkcs) (map (λ p. p.0.id) pairs ++ plan.term)
  pub matched : (d : DockerContainer) (c : Container) → Mem (d, c) pairs → Runs c d
  pub valid : WellFormed Container db'
  pub frame : Frame Container db db'

module _ (rs : List Container) (dkcs : List DockerContainer) where
  running_ids : Perm (map (λ d. d.id) dkcs) (
      map (λ p. p.0.id) (flip (join schedule_score rs dkcs)).pairs
      ++ map (λ d. d.id) (join schedule_score rs dkcs).lonely_rights)
  unfolding flip
  running_ids =
      let joined = join schedule_score rs dkcs in
      subst (Perm (map (λ d. d.id) dkcs))
        (map-append (λ (d : DockerContainer). d.id) (map (λ p. p.1) joined.pairs)
            joined.lonely_rights
          ∙ ap (λ (l : List String). l ++ map (λ d. d.id) joined.lonely_rights) (ids joined.pairs))
        (Perm.map (λ d. d.id) (join-rights schedule_score rs dkcs))
    where
      ids :
          (ps : List (Container × DockerContainer))
          → map (λ d. d.id) (map (λ p. p.1) ps)
            ≡ map (λ p. p.0.id) (map {B = DockerContainer × Container} (λ p. (p.1, p.0)) ps)
      ids [] = refl
      ids (p ∷ ps) = ap (λ (l : List String). p.1.id ∷ l) (ids ps)

  paired_match :
      (d : DockerContainer) (c : Container)
      → Mem (d, c) (flip (join schedule_score rs dkcs)).pairs
      → ¬ Negative (schedule_score c d)
  unfolding flip
  paired_match d c m = ∥∥₁_elim (mem-map.0 m) ¬_prop λ (p, n, e).
      subst (λ (q : DockerContainer × Container). ¬ Negative (schedule_score q.1 q.0)) e
        (join_matched schedule_score rs dkcs p n)

-- On a database whose container ids are distinct and handed out, `syncDB` does not panic. Every row
-- is paired or booted and every running container is paired or terminated, once each; a row is
-- paired only with a container that runs its image, environment and command, which then has its id
-- written; the rows to boot and the other tables stay as they are.
pub sync_db-Scheduled :
    (db : Database) (dkcs : List DockerContainer)
    → WellFormed Container db
    → (db' : Database) × (plan : Plan) × (sync_db db dkcs ≡ some (db', plan))
      × Scheduled db db' dkcs plan
unfolding sync_db select_from Tables.select flip set_sched_id
sync_db-Scheduled db dkcs w =
    let joined = join schedule_score (select_from any db) dkcs in
    let pairs = (flip joined).pairs in
    let before : Perm (rows db) (map (λ p. p.1) pairs ++ joined.lonely_lefts) =
      subst (λ (l : List Container). Perm l (rights (flip joined))) (select_any (rows db))
        (subst (Perm (select_from any db)) (sym (rights-flip joined))
          (join-lefts schedule_score (select_from any db) dkcs)) in
    let (db', e, h) =
      commit_all-Holds set_sched_id (λ s r. refl) db db pairs joined.lonely_lefts
        (Holds-perm before (WellFormed→Holds w)) in
    (
      db',
      record { term = map (λ d. d.id) joined.lonely_rights; boot = joined.lonely_lefts },
      rw (e, sync_db),
      record {
        pairs = pairs;
        before = before;
        after = h.perm;
        running = running_ids (select_from any db) dkcs;
        matched = λ d c m. schedule_score_match c d (paired_match (select_from any db) dkcs d c m);
        valid = Holds→WellFormed h;
        frame = h.frame;
      },
    )
