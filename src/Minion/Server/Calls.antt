-- ===== src/Minion/Server/Calls.antt =====
-- What a minion keeps of the calls of minion/server.go.
use mathlib.Core.HLevel.{hedberg}
use di.Prelude.{
  String, true, ◌≡◌, ◌≢◌, refl, ap, ◌∙◌, subst, some, List, [], ◌∷◌, perm_sole, sort_strings, arith,
  ◌≤◌, length, filter, dec_true,
}
use di.Dsl.{Compilation, accepted, rejected, crashed, endless}
use di.Db.{Database, minion_row, etcd_row, connection_row, container_row, select_from}
use di.Db.Rows.{Minion, Etcd, Role, Connection, Container, Minion-discrete, Etcd-discrete}
use di.Db.Sync.Effects.{rows, Frame, Holds, insert_new-Holds, commit-Holds}
use di.Db.Sync.Policy.{WellFormed, WellFormed→Holds, WellFormed-moved}
use di.Db.Tables
use di.Minion.Policy.{update_policy}
use di.Minion.Policy.Follow.{update_policy-PolicyHolds}
use di.Minion.Server.{
  PbRole, pb_none, pb_worker, pb_master, pb_to_role, role_to_pb, MinionConfig, config_of,
  get_minion_config, minion_choose, etcd_choose, set_minion_config, boot_etcd,
}

role_to_pb-pb_to_role : (r : PbRole) → role_to_pb (pb_to_role r) ≡ r
role_to_pb-pb_to_role pb_none = refl
role_to_pb-pb_to_role pb_worker = refl
role_to_pb-pb_to_role pb_master = refl

-- No more than one row, as every call wants it.
abbrev pub AtMostOne : {A : Type 0} → List A → Type 0
AtMostOne xs = length xs ≤ 1

minion_chosen :
    (view : Database)
    → WellFormed Minion view
    → AtMostOne (rows {A = Minion} view)
    → (view₁ : Database) × (m : Minion) × (minion_choose (select_from (λ m. true) view) view
        ≡ some (view₁, m))
      × Holds view view₁ (m ∷ [])
unfolding minion_choose select_from Tables.select
minion_chosen view w one = by_rows (rows {A = Minion} view) refl one
  where
    by_rows :
        (ms : List Minion)
        → rows {A = Minion} view ≡ ms
        → AtMostOne ms
        → (view₁ : Database) × (m : Minion) × (minion_choose (filter (λ m. dec_true true) ms) view
            ≡ some (view₁, m))
          × Holds view view₁ (m ∷ [])
    by_rows [] e o = (_, _, refl, insert_new-Holds (subst (Holds view view) e (WellFormed→Holds w)))
    by_rows (m ∷ []) e o = (view, m, refl, subst (Holds view view) e (WellFormed→Holds w))
    by_rows (m ∷ n ∷ ms) e o = absurd (omega arith)

etcd_chosen :
    (view : Database)
    → WellFormed Etcd view
    → AtMostOne (rows {A = Etcd} view)
    → (view₁ : Database) × (m : Etcd) × (etcd_choose (select_from (λ m. true) view) view
        ≡ some (view₁, m))
      × Holds view view₁ (m ∷ [])
unfolding etcd_choose select_from Tables.select
etcd_chosen view w one = by_rows (rows {A = Etcd} view) refl one
  where
    by_rows :
        (ms : List Etcd)
        → rows {A = Etcd} view ≡ ms
        → AtMostOne ms
        → (view₁ : Database) × (m : Etcd) × (etcd_choose (filter (λ m. dec_true true) ms) view
            ≡ some (view₁, m))
          × Holds view view₁ (m ∷ [])
    by_rows [] e o = (_, _, refl, insert_new-Holds (subst (Holds view view) e (WellFormed→Holds w)))
    by_rows (m ∷ []) e o = (view, m, refl, subst (Holds view view) e (WellFormed→Holds w))
    by_rows (m ∷ n ∷ ms) e o = absurd (omega arith)

-- `BootEtcd` does not panic where there is at most one etcd row, under an id that has been handed out;
-- then there is exactly one, with the members that were sent, sorted.
pub boot_etcd-row :
    (ips : List String) (view : Database)
    → WellFormed Etcd view
    → AtMostOne (rows {A = Etcd} view)
    → (db' : Database) × (row : Etcd) × (boot_etcd ips view ≡ some db')
      × (rows {A = Etcd} db' ≡ row ∷ [])
      × (row.etcd_ips ≡ sort_strings ips)
      × Frame Etcd view db'
unfolding boot_etcd
boot_etcd-row ips view w one =
    let (view₁, row, e, h) = etcd_chosen view w one in
    let (db', f, g) = commit-Holds (record row { etcd_ips = sort_strings ips }) h refl in
    (db', _, rw (e, boot_etcd) f, perm_sole (hedberg Etcd-discrete) _ _ g.perm, refl, g.frame)

answer :
    (msg : MinionConfig) (m : Minion) (db' : Database)
    → rows {A = Minion} db' ≡ m ∷ []
    → m.minion_id ≡ msg.id
    → m.role ≡ pb_to_role msg.role
    → m.private_ip ≡ msg.private_ip
    → get_minion_config db' ≡ some (record msg { spec = "" })
unfolding get_minion_config config_of select_from Tables.select
answer msg m db' sole a b c =
    ap (λ (ms : List Minion). config_of (filter (λ m. dec_true true) ms)) sole
    ∙ (λ i. some (record { id = a i; role = role_of i; private_ip = c i; spec = "" }))
  where
    role_of : role_to_pb m.role ≡ msg.role
    role_of = ap role_to_pb b ∙ role_to_pb-pb_to_role msg.role

-- The compilation neither panics nor goes on for ever.
abbrev pub Ends : {F : Type 0} → Compilation F → Type 0
Ends c = (c ≢ crashed) × (c ≢ endless)

module _ {F : Type 0} (compile : String → Compilation F) where
  policy_keeps :
      (view : Database) (role : Role) (code : String)
      → WellFormed Connection view
      → WellFormed Container view
      → Ends (compile code)
      → (db' : Database) × (update_policy compile view role code ≡ some db')
        × (db'.minions ≡ view.minions)
  unfolding update_policy
  policy_keeps view role code w v = by_result (compile code) refl
    where
      by_result :
          (c : Compilation F)
          → compile code ≡ c
          → Ends c
          → (db' : Database) × (update_policy compile view role code ≡ some db')
            × (db'.minions ≡ view.minions)
      by_result rejected e n = (view, rw (e, update_policy) refl, refl)
      by_result crashed e n = absurd (n.0 refl)
      by_result endless e n = absurd (n.1 refl)
      by_result (accepted spec) e n =
          let (db', f, p) = update_policy-PolicyHolds spec compile view role code e w v in
          (db', f, p.minions)

  -- For a spec whose compilation neither panics nor goes on for ever, `SetMinionConfig` does not panic
  -- where there is at most one minion row and all ids are distinct and handed out, and
  -- `GetMinionConfig` then answers what was set, but for the spec, which it leaves out.
  pub set_minion_config-get_minion_config :
      (msg : MinionConfig) (view : Database)
      → WellFormed Minion view
      → WellFormed Connection view
      → WellFormed Container view
      → Ends (compile msg.spec)
      → AtMostOne (rows {A = Minion} view)
      → (db' : Database) × (set_minion_config compile msg view ≡ some db')
        × (get_minion_config db' ≡ some (record msg { spec = "" }))
  unfolding set_minion_config
  set_minion_config-get_minion_config msg view w wc wd ends one =
      let (view₁, minion, e, h) = minion_chosen view w one in
      let written = record minion {
        minion_id = msg.id;
        role = pb_to_role msg.role;
        private_ip = msg.private_ip;
      } in
      let (view₂, f, g) = commit-Holds written h refl in
      let (n, t, a, q) = g.frame in
      let (db', i, m) =
        policy_keeps view₂ (pb_to_role msg.role) msg.spec
          (WellFormed-moved view view₂ (ap (λ (d : Database). d.connections) q) a wc)
          (WellFormed-moved view view₂ (ap (λ (d : Database). d.containers) q) a wd) ends in
      let sole : rows {A = Minion} db' ≡ written ∷ [] =
        ap (λ (u : Tables.Table Minion). u.rows) m
        ∙ perm_sole (hedberg Minion-discrete) _ written g.perm in
      (db', rw (e, set_minion_config) (rw f i), answer msg written db' sole refl refl refl)
