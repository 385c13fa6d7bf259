-- ===== src/Minion/Elector/Election.antt =====
-- What a round of `campaign` of minion/elector/elector.go leaves in the etcd row.
use mathlib.Core.HLevel.{hedberg}
use di.Prelude.{
  String, Bool, true, false, ◌&&◌, ◌≡◌, refl, sym, ap, ◌∙◌, subst, Option, none, some, List, [],
  ◌∷◌, perm_sole, str_eq, if◌then◌else◌, filter, dec_true, inl, inr, Bool-cases,
}
use di.Db.{Database, minion_row, etcd_row, select_from}
use di.Db.Rows.{Minion, Etcd, Etcd-discrete, master, role_eq}
use di.Db.Sync.Effects.{rows, Frame, Holds, commit-Holds}
use di.Db.Sync.Policy.{WellFormed, WellFormed→Holds, Holds→WellFormed}
use di.Db.Tables
use di.Minion.Elector.{
  Outcome, ok, node_exists, failed, LeaderStore, write_leader, commit_leader, master_alone, claim,
  round_on, campaign_round,
}

abbrev pub won : Outcome → Bool
won ok = true
won _ = false

-- The database has one etcd row, as given, and differs from `view` in the etcd table only.
pub record Leads (leader : Bool) (e : Etcd) (view db : Database) : Type 0 where
  pub row : Etcd
  pub alone : rows {A = Etcd} db ≡ row ∷ []
  pub flag : row.leader ≡ leader
  pub same_id : row.id ≡ e.id
  pub members : row.etcd_ips ≡ e.etcd_ips
  pub frame : Frame Etcd view db
  pub valid : WellFormed Etcd db

etcd_selected :
    (view : Database) (e : Etcd)
    → rows {A = Etcd} view ≡ e ∷ []
    → select_from (λ e. true) view ≡ e ∷ []
unfolding select_from Tables.select
etcd_selected view e same = ap (λ (es : List Etcd). filter (λ e. dec_true true) es) same

minion_selected :
    (view : Database) (m : Minion)
    → rows {A = Minion} view ≡ m ∷ []
    → select_from (λ m. true) view ≡ m ∷ []
unfolding select_from Tables.select
minion_selected view m same = ap (λ (ms : List Minion). filter (λ m. dec_true true) ms) same

commit_leader-Leads :
    (leader : Bool) (ip : Option String) (view : Database) (e : Etcd)
    → WellFormed Etcd view
    → rows {A = Etcd} view ≡ e ∷ []
    → (db' : Database) × (commit_leader leader ip view ≡ some db') × Leads leader e view db'
unfolding commit_leader write_leader
commit_leader-Leads leader ip view e w same =
    let (db', f, h) =
      commit-Holds
        (record e { leader = leader; leader_ip = elim ip [ none ↦ e.leader_ip | some a ↦ a ] })
        (subst (Holds view view) same (WellFormed→Holds w)) refl in
    (
      db',
      ap (λ (es : List Etcd). write_leader leader ip es view) (etcd_selected view e same) ∙ f,
      record {
        row = _;
        alone = perm_sole (hedberg Etcd-discrete) _ _ h.perm;
        flag = refl;
        same_id = refl;
        members = refl;
        frame = h.frame;
        valid = Holds→WellFormed h;
      },
    )

-- What the store answers to a claim.
abbrev pub answer : {W : Type 0} → LeaderStore W → Etcd → Minion → W → W × Outcome
answer store e m w = if e.leader then store.update m.private_ip w else store.create m.private_ip w

module _ {W : Type 0} (store : LeaderStore W) (between : Database → Database) where
  claim-Leads :
      (m : Minion) (e e' : Etcd) (view : Database) (w : W)
      → str_eq m.private_ip "" ≡ false
      → WellFormed Etcd (between view)
      → rows {A = Etcd} (between view) ≡ e' ∷ []
      → (db' : Database) × (claim store between (m ∷ []) (e ∷ []) view w
          ≡ (some db', (answer store e m w).0))
        × Leads (won (answer store e m w).1) e' (between view) db'
  unfolding claim
  claim-Leads m e e' view w named v same = by_outcome (answer store e m w).1 refl
    where
      by_outcome :
          (o : Outcome)
          → (answer store e m w).1 ≡ o
          → (db' : Database) × (claim store between (m ∷ []) (e ∷ []) view w
              ≡ (some db', (answer store e m w).0))
            × Leads (won (answer store e m w).1) e' (between view) db'
      by_outcome ok q =
          let (db', f, h) = commit_leader-Leads true (some m.private_ip) (between view) e' v same in
          (db', rw (named, claim) (rw (q, f) refl), rw q h)
      by_outcome node_exists q =
          let (db', f, h) = commit_leader-Leads false none (between view) e' v same in
          (db', rw (named, claim) (rw (q, f) refl), rw q h)
      by_outcome failed q =
          let (db', f, h) = commit_leader-Leads false (some "") (between view) e' v same in
          (db', rw (named, claim) (rw (q, f) refl), rw q h)

  -- What a round leaves on a minion that was a master in the round before.
  abbrev Campaigned : (Database → Database) → Minion → Etcd → Etcd → Database → W → Type 0
  Campaigned asleep m e e' view w =
      (db' : Database) × (w' : W) × (campaign_round store between asleep true view w
        ≡ (role_eq m.role master, (some db', w')))
      × Leads (role_eq m.role master && won (answer store e m w).1) e' (between view) db'

  by_rows :
      (asleep : Database → Database) (view : Database) (w : W) (m : Minion) (e : Etcd)
      → rows {A = Minion} view ≡ m ∷ []
      → rows {A = Etcd} view ≡ e ∷ []
      → campaign_round store between asleep true view w
        ≡ round_on store between asleep true (m ∷ []) (e ∷ []) view w
  unfolding campaign_round
  by_rows asleep view w m e sole same = λ i.
      round_on store between asleep true (minion_selected view m sole i)
        (etcd_selected view e same i) view w

  on_master :
      (asleep : Database → Database) (view : Database) (w : W) (m : Minion) (e : Etcd)
      → role_eq m.role master ≡ true
      → round_on store between asleep true (m ∷ []) (e ∷ []) view w
        ≡ (true, claim store between (m ∷ []) (e ∷ []) view w)
  unfolding round_on master_alone
  on_master asleep view w m e r = rw (round_on, r) refl

  resigning :
      (asleep : Database → Database) (view : Database) (w : W) (m : Minion) (e : Etcd)
      → role_eq m.role master ≡ false
      → round_on store between asleep true (m ∷ []) (e ∷ []) view w
        ≡ (false, (commit_leader false (some "") (between view), w))
  unfolding round_on master_alone
  resigning asleep view w m e r = rw (round_on, r) refl

  -- A minion with one minion row, an address and one etcd row, which was a master in the round before,
  -- while other transactions, between the selections of the round and its commit, leave one etcd row,
  -- whose id has been handed out, and do what they like with its contents:
  -- the round does not panic, and afterwards the etcd row says "leader" exactly if the minion is still
  -- a master and the store has just accepted its claim to the leader key, made by the flag that was
  -- read at the start; nothing but the flag and the leader's address changes in that row, and no other
  -- table.
  pub campaign_round-Leads :
      (asleep : Database → Database) (view : Database) (w : W) (m : Minion) (e e' : Etcd)
      → WellFormed Etcd (between view)
      → rows {A = Etcd} (between view) ≡ e' ∷ []
      → rows {A = Etcd} view ≡ e ∷ []
      → rows {A = Minion} view ≡ m ∷ []
      → str_eq m.private_ip "" ≡ false
      → Campaigned asleep m e e' view w
  campaign_round-Leads asleep view w m e e' v same selected sole named =
      elim (Bool-cases (role_eq m.role master)) [
        | inl r ↦
            let (db', f, h) = claim-Leads m e e' view w named v same in
            (
              db',
              (answer store e m w).0,
              by_rows asleep view w m e sole selected
                  ∙ on_master asleep view w m e r
                  ∙ (λ i. (sym r i, f i)),
              rw r h,
            )
        | inr r ↦
            let (db', f, h) = commit_leader-Leads false (some "") (between view) e' v same in
            (
              db',
              w,
              by_rows asleep view w m e sole selected
                  ∙ resigning asleep view w m e r
                  ∙ (λ i. (sym r i, (f i, w))),
              rw r h,
            )
      ]
