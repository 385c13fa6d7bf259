-- ===== src/Cluster/Cloud/Split.antt =====
-- `syncDB` of cluster/cluster.go splits the machines of the database and those of the clouds.
use di.Prelude.{true, ◌≡◌, ◌⊎◌, refl, List, ◌++◌, map, Mem, Perm, arith, eq_iff, int_eq, pos}
use di.Join.{join}
use di.Join.Greedy.{Negative}
use di.Join.Partition.{join-lefts, join-rights, join_matched}
use di.Db.Rows.{Machine}
use di.Cluster.Cloud.{CloudMachine, cloud_score, boot_of, sync_db}

-- What the cloud says of the machine, where it says anything, is what the row says.
abbrev pub Agrees : Machine → CloudMachine → Type 0
Agrees dbm m =
    (dbm.provider ≡ m.provider)
    × ((m.region ≡ "") ⊎ (dbm.region ≡ m.region))
    × ((m.size ≡ "") ⊎ (dbm.size ≡ m.size))
    × ((int_eq m.disk_size (pos 0) ≡ true) ⊎ (int_eq dbm.disk_size m.disk_size ≡ true))

cloud_score_match :
    (dbm : Machine) (m : CloudMachine) → ¬ Negative (cloud_score dbm m) → Agrees dbm m
unfolding cloud_score
cloud_score_match dbm m h = ground (
  arith,
  eq_iff dbm.provider m.provider,
  eq_iff m.region "",
  eq_iff dbm.region m.region,
  eq_iff m.size "",
  eq_iff dbm.size m.size,
)

module _ (cloud : List CloudMachine) (rows : List Machine) where
  -- `syncDB` accounts for every machine once: the rows are those of the pairs and those that it boots,
  -- as they are to be booted; the machines of the cloud are those of the pairs and those that it
  -- terminates; and in a pair the row agrees with what the cloud says.
  pub sync_db-Agrees :
      (boots : List Machine) × ((sync_db cloud rows).boot_set ≡ map boot_of boots)
      × Perm rows (map (λ p. p.0) (sync_db cloud rows).pairs ++ boots)
      × Perm cloud (map (λ p. p.1) (sync_db cloud rows).pairs ++ (sync_db cloud rows).terminate_set)
      × ((dbm : Machine) (m : CloudMachine)
          → Mem (dbm, m) (sync_db cloud rows).pairs
          → Agrees dbm m)
  unfolding sync_db
  sync_db-Agrees = (
    (join cloud_score rows cloud).lonely_lefts,
    refl,
    join-lefts cloud_score rows cloud,
    join-rights cloud_score rows cloud,
    λ dbm m n. cloud_score_match dbm m (join_matched cloud_score rows cloud (dbm, m) n),
  )
