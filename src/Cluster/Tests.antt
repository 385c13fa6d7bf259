-- ===== src/Cluster/Tests.antt =====
-- Rounds of cluster/cluster.go and cluster/foreman.go at concrete clouds and minions.
use mathlib.Core.List.{mem-cons_self, mem-cons, not-mem-nil}
use mathlib.Core.Logic.Or
use mathlib.Core.HLevel.{⊥_prop}
use di.Prelude.{
  ◌≡◌, refl, Bool, true, false, none, some, List, [], ◌∷◌, ◌++◌, map, Mem, Perm, pos, arith,
}
use di.Db.{Database, machine_row, minion_row, cluster_row, new, blank_machine}
use di.Db.Rows.{Machine}
use di.Db.Checks.{WellFormed-by_check, running}
use di.Db.Sync.Panics.{Lost}
use di.Db.Sync.Policy.{WellFormed}
use di.Cluster.Cloud.{
  CloudMachine, Instance, cloud_score, boot_of, sync_db, get, sync_round, group_by,
}
use di.Cluster.Cloud.{sync}
use di.Cluster.Cloud.Loop.{sync_ends}
use di.Cluster.Cloud.Split.{Agrees, sync_db-Agrees}
use di.Cluster.Cloud.Groups.{members, Sorted, Separate, group_by_lem}
use di.Cluster.Cloud.Round.{sync_round-Lost}

abbrev booted : CloudMachine
booted = record {
  id = "i-1";
  public_ip = "8.8.8.8";
  private_ip = "10.0.0.2";
  size = "small";
  disk_size = pos 0;
  ssh_keys = [];
  provider = "Google";
  region = "us";
}

abbrev stray : CloudMachine
stray = record booted { id = "i-2"; provider = "Azure" }

abbrev row : Machine
row = record (blank_machine 3) {
  cluster_id = 1;
  provider = "Google";
  region = "us";
  size = "small";
}

abbrev missing : Machine
missing = record (blank_machine 4) {
  cluster_id = 1;
  provider = "Azure";
  region = "eu";
  size = "big";
}

sync_db-Agrees_example :
    (boots : List Machine) × ((sync_db (booted ∷ stray ∷ []) (row ∷ missing ∷ [])).boot_set
      ≡ map boot_of boots)
    × Perm
        (row ∷ missing ∷ [])
        (map (λ p. p.0) (sync_db (booted ∷ stray ∷ []) (row ∷ missing ∷ [])).pairs ++ boots)
    × Perm (booted ∷ stray ∷ []) (
        map (λ p. p.1) (sync_db (booted ∷ stray ∷ []) (row ∷ missing ∷ [])).pairs
        ++ (sync_db (booted ∷ stray ∷ []) (row ∷ missing ∷ [])).terminate_set)
    × ((dbm : Machine) (m : CloudMachine)
        → Mem (dbm, m) (sync_db (booted ∷ stray ∷ []) (row ∷ missing ∷ [])).pairs
        → Agrees dbm m)
sync_db-Agrees_example = sync_db-Agrees (booted ∷ stray ∷ []) (row ∷ missing ∷ [])

group_by_example :
    Perm (members (group_by (booted ∷ stray ∷ booted ∷ []))) (booted ∷ stray ∷ booted ∷ [])
    × Sorted (group_by (booted ∷ stray ∷ booted ∷ []))
    × Separate (group_by (booted ∷ stray ∷ booted ∷ []))
group_by_example = group_by_lem (booted ∷ stray ∷ booted ∷ [])

-- A cloud that lists one machine and notes what it is told.
abbrev google : Instance (List (Bool × List CloudMachine))
google = record {
  get = λ w. (w, some (booted ∷ []));
  boot = λ ms w. ((true, ms) ∷ w, true);
  stop = λ ms w. ((false, ms) ∷ w, true);
}

abbrev before : Database
before = record new {
  machines = record { rows = row ∷ missing ∷ []; triggers = []; trig_seq = 0; seq = 0 };
  id_alloc = 5;
}

before-WellFormed : WellFormed Machine before
unfolding running
before-WellFormed = WellFormed-by_check Machine before refl

listed : (get (("Google", google) ∷ []) []).1 ≡ some (booted ∷ [])
unfolding get
listed = refl

-- The row goes while the round waits for its second transaction.
abbrev removes_row : Database → Database
removes_row db = record db { machines = record (db.machines) { rows = missing ∷ [] } }

row-Lost : Lost (removes_row before) row
row-Lost m = Or.elim ⊥_prop (mem-cons.0 m) (λ e. omega (arith, e)) not-mem-nil

sync_round-Lost_example : sync_round (("Google", google) ∷ []) 1 removes_row [] before ≡ none
unfolding sync_db running cloud_score
sync_round-Lost_example =
    sync_round-Lost (("Google", google) ∷ []) 1 removes_row [] before (booted ∷ []) listed row
      booted mem-cons_self row-Lost

sync_ends_example :
    (w' : List (Bool × List CloudMachine)) × (db' : Database) × (sync
        (("Google", google) ∷ [])
        1
        (λ n d. d)
        []
        before
      ≡ some (w', db'))
    × WellFormed Machine db'
sync_ends_example =
    sync_ends (("Google", google) ∷ []) 1 (λ n d. d) (λ n d. refl) (λ n d. omega arith) [] before
      before-WellFormed
