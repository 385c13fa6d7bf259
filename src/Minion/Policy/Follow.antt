-- ===== src/Minion/Policy/Follow.antt =====
-- The tables of a minion follow its policy (minion/engine.go).
use di.Prelude.{
  String, Bool, true, ◌≡◌, refl, some, Perm, map, pos, sort_strings, subst, sym, ap, ◌∙◌, ◌>>=◌,
}
use di.Join.{join}
use di.Dsl.{DslConnection, DslContainer, Dsl, Compilation, accepted}
use di.Db.{Database, connection_row, container_row, select_from, blank_container}
use di.Db.Rows.{Connection, Container, Role, role_none, worker, master}
use di.Db.Tables
use di.Db.Tables.{Table}
use di.Db.Sync.Policy.{WellFormed, WellFormed-moved, Follows, sync-Follows}
use di.Minion.Policy.{
  connection_score, update_connection, update_connections, container_score, update_container,
  update_containers, update_policy,
}

-- A row less its id, and what the policy says of it.
abbrev pub connection_view : Connection → Connection
connection_view c = record c { id = 0 }

abbrev pub connection_source : DslConnection → Connection
connection_source c = record {
  id = 0;
  from = c.from;
  to = c.to;
  min_port = c.min_port;
  max_port = c.max_port;
}

-- A container row less its id and what the scheduler and the network fill in.
abbrev pub container_view : Container → Container
container_view c = record c { id = 0; pid = pos 0; ip = ""; mac = ""; sched_id = "" }

abbrev pub container_source : DslContainer → Container
container_source c = record (blank_container 0) {
  image = c.image;
  command = c.command;
  labels = sort_strings c.labels;
  env = c.env;
  exclusive = c.exclusive;
}

abbrev pub any : {A : Type 0} → A → Bool
any r = true

module _ {F : Type 0} (spec : Dsl F) where
  update_connections-Follows :
      (db : Database)
      → WellFormed Connection db
      → (db' : Database) × (update_connections db spec ≡ some db')
        × Follows any connection_view connection_source update_connection spec.query_connections
            (join connection_score spec.query_connections (select_from any db))
            db
            db'
  unfolding update_connections update_connection
  update_connections-Follows db w =
      sync-Follows any connection_view connection_source update_connection (λ s r. refl)
        (λ s r. refl) (λ s r. refl) connection_score spec.query_connections db w

  update_containers-Follows :
      (db : Database)
      → WellFormed Container db
      → (db' : Database) × (update_containers db spec ≡ some db')
        × Follows any container_view container_source update_container spec.query_containers
            (join container_score spec.query_containers (select_from any db))
            db
            db'
  unfolding update_containers update_container
  update_containers-Follows db w =
      sync-Follows any container_view container_source update_container (λ s r. refl) (λ s r. refl)
        (λ s r. refl) container_score spec.query_containers db w

  -- What a policy makes of the containers on a role: on a master those of the policy, and elsewhere
  -- what they were.
  abbrev pub ContainersFollow : Role → Database → Database → Type 0
  ContainersFollow master db db' =
      Perm (map container_view (select_from any db')) (map container_source spec.query_containers)
  ContainersFollow _ db db' = db'.containers ≡ db.containers

  -- The connections are those of the policy, and the rows of other tables are left alone.
  pub record PolicyHolds (role : Role) (db db' : Database) : Type 0 where
    pub connections :
        Perm
          (map connection_view (select_from any db'))
          (map connection_source spec.query_connections)
    pub containers : ContainersFollow role db db'
    pub minions : db'.minions ≡ db.minions
    pub etcds : db'.etcds ≡ db.etcds
    pub labels : db'.labels ≡ db.labels

  -- `updateConnections` alone, on a database whose containers already follow.
  then_connections :
      (role : Role) (db db₁ : Database)
      → WellFormed Connection db₁
      → ((db₂ : Database) → db₂.containers ≡ db₁.containers → ContainersFollow role db db₂)
      → db₁.minions ≡ db.minions
      → db₁.etcds ≡ db.etcds
      → db₁.labels ≡ db.labels
      → (db' : Database) × (update_connections db₁ spec ≡ some db') × PolicyHolds role db db'
  then_connections role db db₁ w follow m e l =
      let (db', f, h) = update_connections-Follows db₁ w in
      let (n, t, a, q) = h.frame in
      (
        db',
        f,
        record {
          connections = h.selected;
          containers = follow db' (ap (λ (d : Database). d.containers) q);
          minions = ap (λ (d : Database). d.minions) q ∙ m;
          etcds = ap (λ (d : Database). d.etcds) q ∙ e;
          labels = ap (λ (d : Database). d.labels) q ∙ l;
        },
      )

  on_master :
      (db : Database)
      → WellFormed Connection db
      → WellFormed Container db
      → (db' : Database) × ((update_containers db spec >>= λ d. update_connections d spec)
          ≡ some db')
        × PolicyHolds master db db'
  unfolding select_from
  on_master db w v =
      let (db₁, f, h) = update_containers-Follows db v in
      let (n, t, a, q) = h.frame in
      let (db₂, g, p) =
        then_connections master db db₁
          (WellFormed-moved db db₁ (ap (λ (d : Database). d.connections) q) a w)
          (λ d e.
            subst
              (λ (u : Table Container).
                Perm (map container_view (Tables.select any u))
                  (map container_source spec.query_containers))
              (sym e) h.selected)
          (ap (λ (d : Database). d.minions) q) (ap (λ (d : Database). d.etcds) q)
          (ap (λ (d : Database). d.labels) q) in
      (db₂, rw f g, p)

  module _ (compile : String → Compilation F) where
    -- A minion that receives a valid policy ends up with exactly the policy's connections and, on a
    -- master, exactly its containers; on another role the containers stay as they were. The minion,
    -- etcd and label rows do not change. No commit panics, given distinct ids that were handed out.
    pub update_policy-PolicyHolds :
        (db : Database) (role : Role) (code : String)
        → compile code ≡ accepted spec
        → WellFormed Connection db
        → WellFormed Container db
        → (db' : Database) × (update_policy compile db role code ≡ some db')
          × PolicyHolds role db db'
    unfolding update_policy
    update_policy-PolicyHolds db master code e w v =
        let (db', f, p) = on_master db w v in (db', rw (e, update_policy) f, p)
    update_policy-PolicyHolds db role_none code e w v =
        let (db', f, p) = then_connections role_none db db w (λ d q. q) refl refl refl in
        (db', rw (e, update_policy) f, p)
    update_policy-PolicyHolds db worker code e w v =
        let (db', f, p) = then_connections worker db db w (λ d q. q) refl refl refl in
        (db', rw (e, update_policy) f, p)
