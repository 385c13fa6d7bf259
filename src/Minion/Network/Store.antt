-- ===== src/Minion/Network/Store.antt =====
-- minion/network/store.go: the directories of the consensus store and the tables of the database.
-- The store is a parameter over a state `W` of everything outside the program; `false` is an error.
-- A Go map is an association list, and the tree that the store answers has distinct keys.
pub mod Labels
pub mod Containers
pub mod Dirs
pub mod Keys
use di.Prelude.{
  find, put, del, keys, ℕ, zero, suc, ◌+◌, ◌-◌, String, Bool, true, false, not, ◌&&◌, ◌||◌, Option,
  none, some, List, [], ◌∷◌, ◌++◌, map, ◌<>◌, ◌>>=◌, ℤ, pos, negsuc, str_eq, ◌==◌, if◌then◌else◌,
  length, sort_strings,
}
use di.Join.{Joined, join}
use di.Db.{Database, label_row, container_row, minion_row, etcd_row, select_from}
use di.Db.Rows.{Label, Container, Minion, Etcd, Role, worker, role_eq}
use di.Db.Sync.{sync, flip, commit_all}

abbrev pub label_dir : String
label_dir = "/minion/labels"

abbrev pub container_dir : String
container_dir = "/minion/containers"

-- `map[string]string` and `directory`
abbrev pub Children : Type 0
Children = List (String × String)

abbrev pub Directory : Type 0
Directory = List (String × Children)

-- `m[k]` of a missing key is the empty string, and `dir[k]` of a missing key has no children.
unfoldable pub child : String → Children → String
unfolding find
child k m = elim (find k m) [ none ↦ "" | some v ↦ v ]

unfoldable pub children : String → Directory → Children
unfolding find
children k dir = elim (find k dir) [ none ↦ [] | some m ↦ m ]

-- The scores of `readLabelTransact`.
unfoldable pub label_score : Label → String → ℤ
label_score dbl key = if str_eq dbl.label key then pos 0 else pos 1

abbrev pub is_some : {A : Type 0} → Option A → Bool
is_some none = false
is_some (some a) = true

unfoldable pub update_label : Directory → String → Label → Label
unfolding children child
update_label dir key dbl = record dbl {
  label = key;
  ip = child "IP" (children key dir);
  multi_host = is_some (find "MultiHost" (children key dir));
}

unfoldable pub read_label_transact : Directory → Database → Option Database
unfolding sync flip keys
read_label_transact dir view =
    sync (update_label dir) (flip (join label_score (select_from (λ l. true) view) (keys dir))) view

unfoldable pub is_worker : List Minion → Bool
is_worker (m ∷ []) = role_eq m.role worker
is_worker _ = false

-- `json.Unmarshal`, and the MAC address that belongs to what `net.ParseIP(s).To4()` reads, if it
-- reads an address.
module _ (json_labels : String → List String) (mac_of : String → Option String) where
  unfoldable pub read_container : Directory → Bool → Container → Container
  unfolding find child
  read_container dir on_worker c = elim (find c.sched_id dir) [
    | none ↦ record c { ip = ""; labels = (if on_worker then [] else c.labels) }
    | some m ↦ record c {
      ip = child "IP" m;
      mac = elim (mac_of (child "IP" m)) [ none ↦ c.mac | some mac ↦ mac ];
      labels = (if on_worker then json_labels (child "Labels" m) else c.labels);
    }
  ]

  unfoldable pub read_container_transact : Directory → Database → Option Database
  unfolding read_container is_worker commit_all
  read_container_transact dir view =
      let on_worker = is_worker (select_from (λ m. true) view) in
      commit_all (λ (s : Unit {0}) c. read_container dir on_worker c)
        (map (λ c. (tt, c)) (select_from (λ c. true) view)) view

-- The calls of `consensus.Store` that write.
pub record Store (W : Type 0) : Type 0 where
  pub mkdir : String → W → W × Bool
  pub set : String → String → W → W × Bool
  pub delete : String → W → W × Bool

unfoldable pub dir_score : String → String → ℤ
dir_score left right = if not (str_eq left right) then negsuc 0 else pos 0

module _ {W : Type 0} (store : Store W) where
  -- The loops of `syncDir`; what is logged is left out.
  unfoldable pub delete_dirs : String → List String → Directory → W → Directory × W
  unfolding del
  delete_dirs path [] dir w = (dir, w)
  delete_dirs path (id ∷ ids) dir w =
      delete_dirs path ids (del id dir) (store.delete (path <> "/" <> id) w).0

  unfoldable pub make_dirs : String → List String → Directory → W → Directory × W
  unfolding find put
  make_dirs path [] dir w = (dir, w)
  make_dirs path (id ∷ ids) dir w = elim (find id dir) [
    | some m ↦ make_dirs path ids dir w
    | none ↦
        let (w₁, made) = store.mkdir (path <> "/" <> id) w in
        make_dirs path ids (if made then put id [] dir else dir) w₁
  ]

  unfoldable pub sync_dir : Directory → String → List String → W → Directory × W
  unfolding delete_dirs make_dirs keys
  sync_dir dir path ids w =
      let joined = join dir_score (keys dir) ids in
      let (dir₁, w₁) = delete_dirs path joined.lonely_lefts dir w in
      make_dirs path joined.lonely_rights dir₁ w₁
