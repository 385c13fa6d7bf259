-- ===== src/Db.antt =====
-- db/db.go: the database, and the row operations as they dispatch on the type of a row.
-- `getTableType` and `getID` are the fields of an instance `Row`; a transaction is a function from
-- the database to an optional new one, where `none` is a panic.
pub mod Rows
pub mod Tables
pub mod Sync
pub mod Checks
pub mod Alerts
mod Tests
use di.Prelude.{ℕ, ◌+◌, ◌≡◌, refl, Bool, Option, none, some, List, [], false, pos}
use di.Db.Rows.{
  Cluster, Machine, Container, Minion, Connection, Label, Etcd, Role, role_none, Cluster-discrete,
  Machine-discrete, Container-discrete, Minion-discrete, Connection-discrete, Label-discrete,
  Etcd-discrete,
}
use di.Db.Tables
use di.Db.Tables.{Table}

pub record Database : Type 0 where
  pub clusters : Table Cluster
  pub machines : Table Machine
  pub containers : Table Container
  pub minions : Table Minion
  pub connections : Table Connection
  pub labels : Table Label
  pub etcds : Table Etcd
  pub id_alloc : ℕ

-- A row type: its id, its equality (`reflect.DeepEqual`), its table, and the row that
-- `InsertCluster`, `InsertMachine` and so on make of a new id.
pub record Row (A : Type 0) : Type 0 where
  pub id : A → ℕ
  pub deep_equal : Discrete A
  pub blank : ℕ → A
  pub table : Database → Table A
  pub set_table : Database → Table A → Database
  pub id-blank : (n : ℕ) → id (blank n) ≡ n
  pub table-set_table : (db : Database) (t : Table A) → table (set_table db t) ≡ t
  pub set_table-set_table :
      (db : Database) (t u : Table A) → set_table (set_table db t) u ≡ set_table db u
  pub set_table-table : (db : Database) → set_table db (table db) ≡ db
  pub alloc-set_table :
      (db : Database) (t : Table A) (n : ℕ)
      → record (set_table db t) { id_alloc = n } ≡ set_table (record db { id_alloc = n }) t
  pub table-alloc : (db : Database) (n : ℕ) → table (record db { id_alloc = n }) ≡ table db
  pub id_alloc-set_table : (db : Database) (t : Table A) → (set_table db t).id_alloc ≡ db.id_alloc

-- `Database.nextID`
unfoldable pub next_id : Database → Database × ℕ
next_id db = (record db { id_alloc = db.id_alloc + 1 }, db.id_alloc + 1)

module _ {A : Type 0} ⦃row : Row A⦄ where
  unfoldable pub insert : A → Database → Database
  insert r db = row.set_table db (Tables.insert row.id r (row.table db))

  unfoldable pub commit : A → Database → Option Database
  commit r db = elim (Tables.commit row.id row.deep_equal r (row.table db)) [
    | none ↦ none
    | some t ↦ some (row.set_table db t)
  ]

  unfoldable pub remove : A → Database → Database
  remove r db = row.set_table db (Tables.remove row.id r (row.table db))

  -- `InsertMachine` and its like: the new row, and the database that holds it.
  unfoldable pub insert_new : Database → Database × A
  unfolding next_id insert
  insert_new db = let (db', n) = next_id db in (insert (row.blank n) db', row.blank n)

  -- `SelectFromMachine` and its like.
  unfoldable pub select_from : (A → Bool) → Database → List A
  select_from check db = Tables.select check (row.table db)

abbrev pub blank_cluster : ℕ → Cluster
blank_cluster n = record { id = n; namespace = ""; spec = ""; acls = [] }

instance abbrev pub cluster_row : Row Cluster
cluster_row = record {
  id = λ r. r.id;
  deep_equal = Cluster-discrete;
  blank = blank_cluster;
  table = λ db. db.clusters;
  set_table = λ db t. record db { clusters = t };
  id-blank = λ n. refl;
  table-set_table = λ db t. refl;
  set_table-set_table = λ db t u. refl;
  set_table-table = λ db. refl;
  alloc-set_table = λ db t n. refl;
  table-alloc = λ db n. refl;
  id_alloc-set_table = λ db t. refl;
}

abbrev pub blank_machine : ℕ → Machine
blank_machine n = record {
  id = n;
  cluster_id = 0;
  role = role_none;
  provider = "";
  region = "";
  size = "";
  disk_size = pos 0;
  ssh_keys = [];
  cloud_id = "";
  public_ip = "";
  private_ip = "";
}

instance abbrev pub machine_row : Row Machine
machine_row = record {
  id = λ r. r.id;
  deep_equal = Machine-discrete;
  blank = blank_machine;
  table = λ db. db.machines;
  set_table = λ db t. record db { machines = t };
  id-blank = λ n. refl;
  table-set_table = λ db t. refl;
  set_table-set_table = λ db t u. refl;
  set_table-table = λ db. refl;
  alloc-set_table = λ db t n. refl;
  table-alloc = λ db n. refl;
  id_alloc-set_table = λ db t. refl;
}

abbrev pub blank_container : ℕ → Container
blank_container n = record {
  id = n;
  pid = pos 0;
  ip = "";
  mac = "";
  sched_id = "";
  image = "";
  command = [];
  labels = [];
  env = [];
  exclusive = [];
}

instance abbrev pub container_row : Row Container
container_row = record {
  id = λ r. r.id;
  deep_equal = Container-discrete;
  blank = blank_container;
  table = λ db. db.containers;
  set_table = λ db t. record db { containers = t };
  id-blank = λ n. refl;
  table-set_table = λ db t. refl;
  set_table-set_table = λ db t u. refl;
  set_table-table = λ db. refl;
  alloc-set_table = λ db t n. refl;
  table-alloc = λ db n. refl;
  id_alloc-set_table = λ db t. refl;
}

abbrev pub blank_minion : ℕ → Minion
blank_minion n = record { id = n; minion_id = ""; role = role_none; private_ip = "" }

instance abbrev pub minion_row : Row Minion
minion_row = record {
  id = λ r. r.id;
  deep_equal = Minion-discrete;
  blank = blank_minion;
  table = λ db. db.minions;
  set_table = λ db t. record db { minions = t };
  id-blank = λ n. refl;
  table-set_table = λ db t. refl;
  set_table-set_table = λ db t u. refl;
  set_table-table = λ db. refl;
  alloc-set_table = λ db t n. refl;
  table-alloc = λ db n. refl;
  id_alloc-set_table = λ db t. refl;
}

abbrev pub blank_connection : ℕ → Connection
blank_connection n = record { id = n; from = ""; to = ""; min_port = pos 0; max_port = pos 0 }

instance abbrev pub connection_row : Row Connection
connection_row = record {
  id = λ r. r.id;
  deep_equal = Connection-discrete;
  blank = blank_connection;
  table = λ db. db.connections;
  set_table = λ db t. record db { connections = t };
  id-blank = λ n. refl;
  table-set_table = λ db t. refl;
  set_table-set_table = λ db t u. refl;
  set_table-table = λ db. refl;
  alloc-set_table = λ db t n. refl;
  table-alloc = λ db n. refl;
  id_alloc-set_table = λ db t. refl;
}

abbrev pub blank_label : ℕ → Label
blank_label n = record { id = n; label = ""; ip = ""; multi_host = false }

instance abbrev pub label_row : Row Label
label_row = record {
  id = λ r. r.id;
  deep_equal = Label-discrete;
  blank = blank_label;
  table = λ db. db.labels;
  set_table = λ db t. record db { labels = t };
  id-blank = λ n. refl;
  table-set_table = λ db t. refl;
  set_table-set_table = λ db t u. refl;
  set_table-table = λ db. refl;
  alloc-set_table = λ db t n. refl;
  table-alloc = λ db n. refl;
  id_alloc-set_table = λ db t. refl;
}

abbrev pub blank_etcd : ℕ → Etcd
blank_etcd n = record { id = n; etcd_ips = []; leader = false; leader_ip = "" }

instance abbrev pub etcd_row : Row Etcd
etcd_row = record {
  id = λ r. r.id;
  deep_equal = Etcd-discrete;
  blank = blank_etcd;
  table = λ db. db.etcds;
  set_table = λ db t. record db { etcds = t };
  id-blank = λ n. refl;
  table-set_table = λ db t. refl;
  set_table-set_table = λ db t u. refl;
  set_table-table = λ db. refl;
  alloc-set_table = λ db t n. refl;
  table-alloc = λ db n. refl;
  id_alloc-set_table = λ db t. refl;
}

-- `New`, less the goroutines.
unfoldable pub new : Database
new = record {
  clusters = Tables.new_table;
  machines = Tables.new_table;
  containers = Tables.new_table;
  minions = Tables.new_table;
  connections = Tables.new_table;
  labels = Tables.new_table;
  etcds = Tables.new_table;
  id_alloc = 0;
}
