-- ===== src/Minion/Elector.antt =====
-- minion/elector/elector.go: a master campaigns for the leader key of the consensus store.
-- The store is a parameter over a state `W` of everything outside the program. While a round
-- sleeps, other transactions change the database: `asleep` is what they make of it. `between` is what
-- they make of it after the selections of a round, the call of the store included, and before its
-- commit.
pub mod Election
use di.Prelude.{
  ℕ, String, Bool, true, false, not, ◌&&◌, Option, none, some, List, [], ◌∷◌, ◌>>=◌, str_eq, length,
  ◌==◌, if◌then◌else◌,
}
use di.Db.{Database, minion_row, etcd_row, commit, select_from}
use di.Db.Rows.{Minion, Etcd, Role, master, role_eq}

-- How `store.Update` and `store.Create` end: `client.ErrorCodeNodeExist` is an error of its own.
pub data Outcome : Type 0 where
  ok node_exists failed : Outcome

pub record LeaderStore (W : Type 0) : Type 0 where
  pub update : String → W → W × Outcome
  pub create : String → W → W × Outcome

-- `commitLeader`; the address is an optional last argument. `none` is a panic.
unfoldable pub write_leader : Bool → Option String → List Etcd → Database → Option Database
write_leader leader ip (e ∷ []) view =
    commit (record e { leader = leader; leader_ip = elim ip [ none ↦ e.leader_ip | some a ↦ a ] })
      view
write_leader leader ip _ view = some view

unfoldable pub commit_leader : Bool → Option String → Database → Option Database
unfolding write_leader
commit_leader leader ip view = write_leader leader ip (select_from (λ e. true) view) view

-- One transaction of `watchLeader`, with what the store answers for the leader key.
write_leader_ip : String → List Etcd → Database → Option Database
write_leader_ip leader (e ∷ []) view = commit (record e { leader_ip = leader }) view
write_leader_ip leader _ view = some view

unfoldable pub watch_leader : String → Database → Option Database
unfolding write_leader_ip
watch_leader leader view = write_leader_ip leader (select_from (λ e. true) view) view

unfoldable pub master_alone : List Minion → Bool
master_alone (m ∷ []) = role_eq m.role master
master_alone _ = false

abbrev pub is_leader : List Etcd → Bool
is_leader (e ∷ es) = e.leader
is_leader [] = false

-- `minions[0].PrivateIP`
abbrev pub private_ip : List Minion → String
private_ip (m ∷ ms) = m.private_ip
private_ip [] = ""

module _ {W : Type 0} (store : LeaderStore W) (between : Database → Database) where
  -- The part of a round on a master: `etcdRows` was read at the start of the round.
  unfoldable pub claim : List Minion → List Etcd → Database → W → Option Database × W
  unfolding commit_leader
  claim minions etcd_rows view w =
      let ip = private_ip minions in
      let (w₁, outcome) = if is_leader etcd_rows then store.update ip w else store.create ip w in
      if str_eq ip "" then (some view, w) else (
        elim outcome [
          | ok ↦ commit_leader true (some ip) (between view)
          | node_exists ↦ commit_leader false none (between view)
          | failed ↦ commit_leader false (some "") (between view)
        ],
        w₁,
      )

  -- The part of a round that follows the two selections.
  unfoldable pub round_on :
      (Database → Database)
      → Bool
      → List Minion
      → List Etcd
      → Database
      → W
      → Bool × (Option Database × W)
  unfolding claim master_alone commit_leader
  round_on asleep old_master minions etcd_rows view w =
      let is_master = master_alone minions && length etcd_rows == 1 in
      elim is_master [
        | false ↦ elim old_master [
          | true ↦ (false, (commit_leader false (some "") (between view), w))
          | false ↦ (false, (some view, w))
        ]
        | true ↦ elim old_master [
          | true ↦ (true, claim minions etcd_rows view w)
          | false ↦
              let later = asleep view in
              let minions' = select_from (λ m. true) later in
              elim (master_alone minions') [
                | true ↦ (true, claim minions' etcd_rows later w)
                | false ↦ (false, (some later, w))
              ]
        ]
      ]

  -- One round of `campaign`: the new `oldMaster`, the database and the outside.
  unfoldable pub campaign_round :
      (Database → Database) → Bool → Database → W → Bool × (Option Database × W)
  unfolding round_on
  campaign_round asleep old_master view w =
      round_on asleep old_master (select_from (λ m. true) view) (select_from (λ e. true) view) view
        w
