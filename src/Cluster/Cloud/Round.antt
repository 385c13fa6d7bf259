-- ===== src/Cluster/Cloud/Round.antt =====
-- One round of `sync` of cluster/cluster.go: what it writes, and when it panics.
use mathlib.Core.List.{append_assoc, mem-map_of_mem}
use mathlib.Core.List.Perm
use di.Prelude.{
  ℕ, true, false, ◌≡◌, ◌≤◌, refl, ap, subst, none, some, List, [], ◌∷◌, ◌++◌, map, Mem, Perm,
  perm-filter-split, str_eq, int_eq, pos, if◌then◌else◌, inl, inr, Option-cases,
}
use di.Db.{Database, machine_row, select_from}
use di.Db.Rows.{Machine, Provider}
use di.Db.Sync.Effects.{rows, Frame, Holds-perm, commit_all-Holds}
use di.Db.Sync.Panics.{Lost, commit_all-Lost}
use di.Db.Sync.Policy.{WellFormed, WellFormed→Holds, Holds→WellFormed, WellFormed-moved, unselected}
use di.Db.Tables
use di.Cluster.Cloud.{
  CloudMachine, Instance, Diff, sync_db, update_row, commit_pairs, get, update_cloud, sync_round,
}
use di.Cluster.Cloud.Split.{sync_db-Agrees}
use di.Engine.Machines.{in_cluster}

-- The row with what the cloud says of its machine: the ids and the addresses, and the size and the
-- disk where the cloud names them. All else is as it was.
abbrev pub reported : CloudMachine → Machine → Machine
reported m dbm = record {
  id = dbm.id;
  cluster_id = dbm.cluster_id;
  role = dbm.role;
  provider = m.provider;
  region = dbm.region;
  size = if str_eq m.size "" then dbm.size else m.size;
  disk_size = if int_eq m.disk_size (pos 0) then dbm.disk_size else m.disk_size;
  ssh_keys = dbm.ssh_keys;
  cloud_id = m.id;
  public_ip = m.public_ip;
  private_ip = m.private_ip;
}

-- A round that writes `db'` over `db`: the rows of the pairs have what the cloud says of their
-- machines, the others are as they were, and nothing else has changed.
pub record Written (diff : Diff) (boots others : List Machine) (db db' : Database) : Type 0 where
  pub machines :
      Perm (rows {A = Machine} db') (map (λ p. reported p.1 p.0) diff.pairs ++ boots ++ others)
  pub frame : Frame Machine db db'
  pub valid : WellFormed Machine db'

swapped :
    (ps : List (Machine × CloudMachine))
    → map (λ p. p.1) (map {B = CloudMachine × Machine} (λ p. (p.1, p.0)) ps) ≡ map (λ p. p.0) ps
swapped [] = refl
swapped (p ∷ ps) = ap (λ (l : List Machine). p.0 ∷ l) (swapped ps)

swapped-update :
    (ps : List (Machine × CloudMachine))
    → map (λ p. update_row p.0 p.1) (map {B = CloudMachine × Machine} (λ p. (p.1, p.0)) ps)
      ≡ map (λ p. reported p.1 p.0) ps
unfolding update_row
swapped-update [] = refl
swapped-update (p ∷ ps) = ap (λ (l : List Machine). reported p.1 p.0 ∷ l) (swapped-update ps)

regroup :
    (ps : List (Machine × CloudMachine)) (boots others : List Machine)
    → map (λ p. update_row p.0 p.1) (map {B = CloudMachine × Machine} (λ p. (p.1, p.0)) ps)
        ++ (boots ++ others)
      ≡ map (λ p. reported p.1 p.0) ps ++ boots ++ others
regroup ps boots others = rw (swapped-update, append_assoc) refl

keeps_id : (m : CloudMachine) (dbm : Machine) → (update_row m dbm).id ≡ dbm.id
unfolding update_row
keeps_id m dbm = refl

commit_pairs-Written :
    (diff : Diff) (boots others : List Machine) (db : Database)
    → WellFormed Machine db
    → Perm (rows {A = Machine} db) (map (λ p. p.0) diff.pairs ++ boots ++ others)
    → (db' : Database) × (commit_pairs diff.pairs db ≡ some db') × Written diff boots others db db'
unfolding commit_pairs
commit_pairs-Written diff boots others db w p =
    let (db', e, h) =
      commit_all-Holds update_row keeps_id db db (map (λ p. (p.1, p.0)) diff.pairs)
        (boots ++ others) (rw (swapped, ← append_assoc) (Holds-perm p (WellFormed→Holds w))) in
    (
      db',
      e,
      record {
        machines = subst (Perm (rows {A = Machine} db')) (regroup diff.pairs boots others) h.perm;
        frame = h.frame;
        valid = Holds→WellFormed h;
      },
    )

module _ {W : Type 0} (providers : List (Provider × Instance W)) (id : ℕ)
    (between : Database → Database) (w : W) (db : Database) where
  -- If the clouds cannot be listed, the round ends `sync` and leaves the database as it was.
  pub round_unlisted :
      (get providers w).1 ≡ none
      → sync_round providers id between w db ≡ some ((get providers w).0, db, false)
  unfolding sync_round
  round_unlisted e = rw (e, sync_round) refl

  module _ (cloud : List CloudMachine) (listed : (get providers w).1 ≡ some cloud) where
    abbrev pub diff : Diff
    diff = sync_db cloud (select_from (in_cluster id) db)

    pub sync_round-Written :
        WellFormed Machine db
        → (between db).machines ≡ db.machines
        → db.id_alloc ≤ (between db).id_alloc
        → (db' : Database) × (boots : List Machine) × (sync_round providers id between w db
            ≡ some (
              (update_cloud providers diff.terminate_set false
                  (update_cloud providers diff.boot_set true (get providers w).0).0).0,
              db',
              true,
            ))
          × Perm (select_from (in_cluster id) db) (map (λ p. p.0) diff.pairs ++ boots)
          × Written diff boots (unselected (in_cluster id) db) (between db) db'
    unfolding sync_round select_from Tables.select
    sync_round-Written v same more =
        let (boots, b, p, q, agree) = sync_db-Agrees cloud (select_from (in_cluster id) db) in
        let split : Perm (rows {A = Machine} db)
            (map (λ p. p.0) diff.pairs ++ boots ++ unselected (in_cluster id) db) =
          Perm.trans (perm-filter-split (in_cluster id) (rows {A = Machine} db))
            (Perm.append_right (unselected (in_cluster id) db) p) in
        let (db', e, h) =
          commit_pairs-Written diff boots (unselected (in_cluster id) db) (between db)
            (WellFormed-moved db (between db) same more v) (rw same split) in
        (db', boots, rw (listed, sync_round) (rw e refl), p, h)

    -- If the clouds can be listed, and another transaction has removed the row of a pair in the
    -- meantime, the round panics.
    pub sync_round-Lost :
        (dbm : Machine) (m : CloudMachine)
        → Mem (dbm, m) diff.pairs
        → Lost (between db) dbm
        → sync_round providers id between w db ≡ none
    unfolding sync_round commit_pairs
    sync_round-Lost dbm m n lost = elim (Option-cases (commit_pairs diff.pairs (between db))) [
      | inl e ↦ rw (listed, sync_round) (rw (e) refl)
      | inr (db', e) ↦ absurd (
          commit_all-Lost update_row keeps_id (map (λ p. (p.1, p.0)) diff.pairs) (between db) db' m
            dbm (mem-map_of_mem (λ p. (p.1, p.0)) n) lost e)
    ]
