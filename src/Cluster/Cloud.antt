-- ===== src/Cluster/Cloud.antt =====
-- cluster/cluster.go and provider/provider.go: the machines of one cluster in the clouds.
-- A cloud is an instance of the `Provider` interface over a state `W` of everything outside the
-- program; an error is `none` or `false`. A range over a Go map is one over an association list.
pub mod Split
pub mod Round
pub mod Groups
pub mod Loop
use di.Prelude.{
  find, ℕ, zero, suc, String, Bool, true, false, not, ◌&&◌, Option, none, some, List, [], ◌∷◌, ◌++◌,
  map, ◌>>=◌, ℤ, pos, negsuc, str_eq, int_eq, ◌==◌, if◌then◌else◌,
}
use di.Join.{Joined, join}
use di.Db.{Database, machine_row, select_from}
use di.Db.Rows.{Machine, Provider}
use di.Db.Sync.{commit_all}

-- `provider.Machine`
pub record CloudMachine : Type 0 where
  pub id : String
  pub public_ip : String
  pub private_ip : String
  pub size : String
  pub disk_size : ℤ
  pub ssh_keys : List String
  pub provider : Provider
  pub region : String

-- The methods of `provider.Provider` that the loop calls.
pub record Instance (W : Type 0) : Type 0 where
  pub get : W → W × Option (List CloudMachine)
  pub boot : List CloudMachine → W → W × Bool
  pub stop : List CloudMachine → W → W × Bool

-- `scoreFun` of `syncDB`
unfoldable pub cloud_score : Machine → CloudMachine → ℤ
cloud_score dbm m =
    if not (str_eq dbm.provider m.provider)
    then negsuc 0
    else if not (str_eq m.region "") && not (str_eq dbm.region m.region)
    then negsuc 0
    else if not (str_eq m.size "") && not (str_eq dbm.size m.size)
    then negsuc 0
    else if not (int_eq m.disk_size (pos 0)) && not (int_eq dbm.disk_size m.disk_size)
    then negsuc 0
    else if str_eq dbm.cloud_id m.id
    then pos 0
    else if str_eq dbm.public_ip m.public_ip
    then pos 1
    else if str_eq dbm.private_ip m.private_ip
    then pos 2
    else pos 3

-- The machine to boot for a row that has none.
unfoldable pub boot_of : Machine → CloudMachine
boot_of m = record {
  id = "";
  public_ip = "";
  private_ip = "";
  size = m.size;
  disk_size = m.disk_size;
  ssh_keys = m.ssh_keys;
  provider = m.provider;
  region = m.region;
}

pub record Diff : Type 0 where
  pub pairs : List (Machine × CloudMachine)
  pub boot_set : List CloudMachine
  pub terminate_set : List CloudMachine

-- `syncDB`
unfoldable pub sync_db : List CloudMachine → List Machine → Diff
sync_db cloud_machines db_machines =
    let joined = join cloud_score db_machines cloud_machines in
    record {
      pairs = joined.pairs;
      boot_set = map boot_of joined.lonely_lefts;
      terminate_set = joined.lonely_rights;
    }

-- The assignments before `view.Commit(dbm)`.
unfoldable pub update_row : CloudMachine → Machine → Machine
update_row m dbm = record dbm {
  cloud_id = m.id;
  public_ip = m.public_ip;
  private_ip = m.private_ip;
  size = (if str_eq m.size "" then dbm.size else m.size);
  disk_size = (if int_eq m.disk_size (pos 0) then dbm.disk_size else m.disk_size);
  provider = m.provider;
}

-- The second transaction of `sync`.
unfoldable pub commit_pairs : List (Machine × CloudMachine) → Database → Option Database
unfolding commit_all
commit_pairs pairs = commit_all update_row (map (λ p. (p.1, p.0)) pairs)

-- `machineMap[m.Provider] = append(machineMap[m.Provider], m)`, where a missing key counts as an
-- empty slice.
unfoldable pub group_add :
    CloudMachine → List (Provider × List CloudMachine) → List (Provider × List CloudMachine)
group_add m [] = (m.provider, m ∷ []) ∷ []
group_add m ((p, ms) ∷ groups) =
    let rest = group_add m groups in
    if str_eq p m.provider then (p, ms ++ m ∷ []) ∷ groups else (p, ms) ∷ rest

unfoldable pub group_loop :
    List CloudMachine → List (Provider × List CloudMachine) → List (Provider × List CloudMachine)
unfolding group_add
group_loop [] groups = groups
group_loop (m ∷ ms) groups = group_loop ms (group_add m groups)

-- `provider.GroupBy`
unfoldable pub group_by : List CloudMachine → List (Provider × List CloudMachine)
unfolding group_loop
group_by machines = group_loop machines []

module _ {W : Type 0} where
  -- `cluster.get`: the first error ends it.
  unfoldable pub get : List (Provider × Instance W) → W → W × Option (List CloudMachine)
  get [] w = (w, some [])
  get ((p, inst) ∷ providers) w =
      let (w₁, answer) = inst.get w in
      elim answer [
        | none ↦ (w₁, none)
        | some machines ↦
            let (w₂, rest) = get providers w₁ in
            (w₂, elim rest [ none ↦ none | some others ↦ some (machines ++ others) ])
      ]

  -- The loop of `updateCloud` over the groups; the result is `noFailures`.
  unfoldable pub update_groups :
      List (Provider × Instance W)
      → Bool
      → List (Provider × List CloudMachine)
      → Bool
      → W
      → W × Bool
  unfolding find
  update_groups providers boot [] no_failures w = (w, no_failures)
  update_groups providers boot ((p, machines) ∷ groups) no_failures w = elim (find p providers) [
    | none ↦ update_groups providers boot groups false w
    | some inst ↦
        let (w₁, ok) = if boot then inst.boot machines w else inst.stop machines w in
        update_groups providers boot groups (no_failures && ok) w₁
  ]

  unfoldable pub update_cloud :
      List (Provider × Instance W) → List CloudMachine → Bool → W → W × Bool
  unfolding update_groups group_by
  update_cloud providers [] boot w = (w, true)
  update_cloud providers (m ∷ ms) boot w = update_groups providers boot (group_by (m ∷ ms)) true w

  -- One round of the loop in `sync`. `between` is what the other goroutines' transactions make of
  -- the database between the two transactions of the round. The result also says whether the loop
  -- goes on; `none` is the panic of a commit.
  unfoldable pub sync_round :
      List (Provider × Instance W)
      → ℕ
      → (Database → Database)
      → W
      → Database
      → Option (W × Database × Bool)
  unfolding get sync_db commit_pairs update_cloud
  sync_round providers id between w db =
      let (w₁, answer) = get providers w in
      elim answer [
        | none ↦ some (w₁, db, false)
        | some cloud_machines ↦
            let diff = sync_db cloud_machines (select_from (λ m. m.cluster_id == id) db) in
            elim (commit_pairs diff.pairs (between db)) [
              | none ↦ none
              | some db' ↦
                  let (w₂, booted) = update_cloud providers diff.boot_set true w₁ in
                  let (w₃, stopped) = update_cloud providers diff.terminate_set false w₂ in
                  some (w₃, db', true)
            ]
      ]

  -- `sync` runs at most 8 rounds.
  unfoldable pub sync_loop :
      List (Provider × Instance W)
      → ℕ
      → ℕ
      → (ℕ → Database → Database)
      → W
      → Database
      → Option (W × Database)
  unfolding sync_round
  sync_loop providers id zero between w db = some (w, db)
  sync_loop providers id (suc rounds) between w db =
      elim (sync_round providers id (between rounds) w db) [
        | none ↦ none
        | some (w', db', goes_on) ↦ elim goes_on [
          | false ↦ some (w', db')
          | true ↦ sync_loop providers id rounds between w' db'
        ]
      ]

  unfoldable pub sync :
      List (Provider × Instance W)
      → ℕ
      → (ℕ → Database → Database)
      → W
      → Database
      → Option (W × Database)
  unfolding sync_loop
  sync providers id = sync_loop providers id 8
