-- ===== src/Cluster/Cloud/Loop.antt =====
-- All rounds of `sync` of cluster/cluster.go.
use di.Prelude.{ℕ, zero, suc, ◌≡◌, ◌≤◌, refl, true, some, List, inl, inr, Option-cases}
use di.Db.{Database, machine_row}
use di.Db.Rows.{Machine, Provider}
use di.Db.Sync.Policy.{WellFormed}
use di.Cluster.Cloud.{CloudMachine, Instance, get, sync_round, sync_loop, sync}
use di.Cluster.Cloud.Round.{round_unlisted, sync_round-Written}

module _ {W : Type 0} (providers : List (Provider × Instance W)) (id : ℕ)
    (between : ℕ → Database → Database)
    (same : (n : ℕ) (db : Database) → (between n db).machines ≡ db.machines)
    (more : (n : ℕ) (db : Database) → db.id_alloc ≤ (between n db).id_alloc) where
  -- What the rounds come to.
  abbrev Ends : ℕ → W → Database → Type 0
  Ends rounds w db =
      (w' : W) × (db' : Database) × (sync_loop providers id rounds between w db ≡ some (w', db'))
      × WellFormed Machine db'

  goes_on :
      (rounds : ℕ) (w : W) (db : Database) (cloud : List CloudMachine)
      → (get providers w).1 ≡ some cloud
      → WellFormed Machine db
      → (w₁ : W) × (db₁ : Database) × (sync_round providers id (between rounds) w db
          ≡ some (w₁, db₁, true))
        × WellFormed Machine db₁
  goes_on rounds w db cloud e v =
      let (db₁, boots, f, p, h) =
        sync_round-Written providers id (between rounds) w db cloud e v (same rounds db)
          (more rounds db) in
      (_, db₁, f, h.valid)

  loop-Ends : (rounds : ℕ) (w : W) (db : Database) → WellFormed Machine db → Ends rounds w db
  unfolding sync_loop
  loop-Ends zero w db v = (w, db, refl, v)
  loop-Ends (suc rounds) w db v = elim (Option-cases (get providers w).1) [
    | inl e ↦ (
      (get providers w).0,
      db,
      rw (round_unlisted providers id (between rounds) w db e, sync_loop) refl,
      v,
    )
    | inr (cloud, e) ↦
        let (w₁, db₁, f, u) = goes_on rounds w db cloud e v in
        let (w', db', g, u') = loop-Ends rounds w₁ db₁ u in (w', db', rw (f, sync_loop) g, u')
  ]

  -- On a database whose machine ids are distinct and handed out, and as long as other transactions
  -- leave the machine table alone and take no id back, `sync` runs its rounds to the end
  -- without a panic, whatever the clouds answer, and the machine ids stay distinct and handed out.
  pub sync_ends :
      (w : W) (db : Database)
      → WellFormed Machine db
      → (w' : W) × (db' : Database) × (sync providers id between w db ≡ some (w', db'))
        × WellFormed Machine db'
  unfolding sync
  sync_ends w db v = loop-Ends 8 w db v
