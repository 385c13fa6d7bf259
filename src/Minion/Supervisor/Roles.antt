-- ===== src/Minion/Supervisor/Roles.antt =====
-- The system containers that a minion has run with its role (minion/supervisor/supervisor.go).
use mathlib.Core.Bool.{false≢true}
use mathlib.Core.HLevel.{⊥_prop}
use mathlib.Core.List.{mem-cons, not-mem-nil}
use mathlib.Core.Logic.Or
use di.Prelude.{
  String, Bool, true, false, not, ◌||◌, ◌≡◌, ◌≢◌, ◌⊎◌, inl, inr, refl, sym, subst, List, [], ◌∷◌,
  map, Mem, str_eq, Bool-cases,
}
use di.Db.Rows.{Role, role_none, worker, master, role_eq, Minion, Etcd}
use di.Minion.Supervisor.Options.{
  etcd, ovncontroller, ovnnorthd, ovsdb, ovsvswitchd, swarm, images, RunOptions, options,
}
use di.Minion.Supervisor.System.{
  Daemon, Supervisor, when, only_minion, only_etcd, unchanged, run_system, remove_system,
  remove_all, connect_ovn, join_swarm, update_worker, start_master, update_master, update_role,
  run_system_once,
}

-- The containers that go with a role.
unfoldable pub allowed : Role → String → Bool
allowed master n = str_eq n etcd || str_eq n ovsdb || str_eq n swarm || str_eq n ovnnorthd
allowed worker n =
    str_eq n etcd
    || str_eq n ovsdb
    || str_eq n ovsvswitchd
    || str_eq n swarm
    || str_eq n ovncontroller
allowed role_none n = false

abbrev names : List (String × String) → List String
names l = map (λ e. e.0) l

same_role : (a b : Role) → role_eq a b ≡ true → a ≡ b
same_role role_none role_none e = refl
same_role role_none worker e = absurd (false≢true e)
same_role role_none master e = absurd (false≢true e)
same_role worker role_none e = absurd (false≢true e)
same_role worker worker e = refl
same_role worker master e = absurd (false≢true e)
same_role master role_none e = absurd (false≢true e)
same_role master worker e = absurd (false≢true e)
same_role master master e = refl

-- Of the system containers, only those that go with the role are there.
abbrev pub Fits : {W : Type 0} → (String → W → Type 0) → Role → W → Type 0
Fits Has role w = (y : String) → Mem y (names images) → Has y w → allowed role y ≡ true

-- To run a container makes no other container, a container that is removed is no longer there, and a
-- command in a container makes none.
abbrev pub Runs : {W : Type 0} → (String → W → Type 0) → Daemon W → Type 0
Runs {W} Has dk =
    (ro : RunOptions) (y : String) (w : W) → Has y (dk.run ro w).0 → Has y w ⊎ (y ≡ ro.name)

abbrev pub Removes : {W : Type 0} → (String → W → Type 0) → Daemon W → Type 0
Removes {W} Has dk = (n y : String) (w : W) → Has y (dk.remove n w).0 → Has y w × (y ≢ n)

abbrev pub Execs : {W : Type 0} → (String → W → Type 0) → Daemon W → Type 0
Execs {W} Has dk =
    (n : String) (cmd : List String) (y : String) (w : W) → Has y (dk.exec n cmd w).0 → Has y w

module _ {W : Type 0} (Has : String → W → Type 0) (dk : Daemon W) (runs : Runs Has dk)
    (removes : Removes Has dk) (execs : Execs Has dk) where
  remove_all-less :
      (l : List (String × String)) (y : String) (w : W) → Has y (remove_all dk l w) → Has y w
  unfolding remove_all remove_system
  remove_all-less [] y w h = h
  remove_all-less ((n, i) ∷ l) y w h = (removes n y w (remove_all-less l y _ h)).0

  remove_all-gone :
      (l : List (String × String)) (y : String) (w : W)
      → Mem y (names l)
      → ¬ Has y (remove_all dk l w)
  unfolding remove_all remove_system
  remove_all-gone [] y w m h = not-mem-nil m
  remove_all-gone ((n, i) ∷ l) y w m h =
      Or.elim ⊥_prop (mem-cons.0 m) (λ e. (removes n y w (remove_all-less l y _ h)).1 e)
        (λ r. remove_all-gone l y _ r h)

  module _ (role : Role) where
    abbrev Good : W → Type 0
    Good = Fits Has role

    run_system-Good :
        (name : String) (args : List String) (w : W)
        → allowed role name ≡ true
        → Good w
        → Good (run_system dk name args w)
    unfolding run_system options
    run_system-Good name args w a g y m h = elim (runs (options name args) y w h) [
      | inl there ↦ g y m there
      | inr e ↦ subst (λ x. allowed role x ≡ true) (sym e) a
    ]

    remove_system-Good : (name : String) (w : W) → Good w → Good (remove_system dk name w)
    unfolding remove_system
    remove_system-Good name w g y m h = g y m (removes name y w h).0

    when-Good :
        (b : Bool) (f : W → W) (w : W)
        → ((v : W) → Good v → Good (f v))
        → Good w
        → Good (when b f w)
    when-Good true f w p g = p w g
    when-Good false f w p g = g

  worker-connect_ovn :
      (ip leader_ip : String) (later : List Minion) (w : W)
      → Good worker w
      → Good worker (connect_ovn dk ip leader_ip later w)
  unfolding connect_ovn allowed
  worker-connect_ovn ip leader_ip [] w g = g
  worker-connect_ovn ip leader_ip (m ∷ []) w g =
      run_system-Good worker ovncontroller [] _ refl
        (remove_system-Good worker ovncontroller _ (λ y k h. g y k (execs _ _ y w h)))
  worker-connect_ovn ip leader_ip (m ∷ n ∷ later) w g = g

  worker-join_swarm :
      (ip leader_ip : String) (later : List Minion) (w : W)
      → Good worker w
      → Good worker (join_swarm dk ip leader_ip later w)
  unfolding join_swarm allowed
  worker-join_swarm ip leader_ip later w g =
      worker-connect_ovn ip leader_ip later _ (run_system-Good worker swarm _ w refl g)

  worker-update_worker :
      (sv : Supervisor) (ip leader_ip : String) (etcd_ips : List String) (later : List Minion)
      (w : W)
      → Good worker w
      → Good worker (update_worker dk sv ip leader_ip etcd_ips later w)
  unfolding update_worker allowed
  worker-update_worker sv ip leader_ip etcd_ips later w g =
      when-Good worker _ (join_swarm dk ip leader_ip later) _ (worker-join_swarm ip leader_ip later)
        (run_system-Good worker ovsvswitchd [] _ refl (
          run_system-Good worker ovsdb [] _ refl (
            run_system-Good worker etcd _ _ refl (
              when-Good worker _ (remove_system dk swarm) _ (remove_system-Good worker swarm) (
                when-Good worker _ (remove_system dk etcd) w (remove_system-Good worker etcd) g)))))

  master-start_master :
      (ip : String) (etcd_ips : List String) (leader : Bool) (w : W)
      → Good master w
      → Good master (start_master dk ip etcd_ips leader w)
  unfolding start_master allowed
  master-start_master ip etcd_ips leader w g =
      let up =
        run_system-Good master swarm _ _ refl
          (run_system-Good master ovsdb [] _ refl (run_system-Good master etcd _ w refl g)) in
      elim leader as (λ b. Good master (start_master dk ip etcd_ips b w)) [
        | true ↦ run_system-Good master ovnnorthd [] _ refl up
        | false ↦ remove_system-Good master ovnnorthd _ up
      ]

  master-update_master :
      (sv : Supervisor) (ip : String) (etcd_ips : List String) (leader : Bool) (w : W)
      → Good master w
      → Good master (update_master dk sv ip etcd_ips leader w)
  unfolding update_master
  master-update_master sv ip etcd_ips leader w g =
      when-Good master _ (start_master dk ip etcd_ips leader) _
        (master-start_master ip etcd_ips leader)
        (when-Good master _ (remove_system dk swarm) _ (remove_system-Good master swarm)
          (when-Good master _ (remove_system dk etcd) w (remove_system-Good master etcd) g))

  update_role-Good :
      (sv : Supervisor) (role : Role) (ip : String) (row : List String × String × Bool)
      (later : List Minion) (w : W)
      → Good role w
      → Good role (update_role dk sv role ip row later w)
  unfolding update_role
  update_role-Good sv master ip (etcd_ips, leader_ip, leader) later w g =
      master-update_master sv ip etcd_ips leader w g
  update_role-Good sv worker ip (etcd_ips, leader_ip, leader) later w g =
      worker-update_worker sv ip leader_ip etcd_ips later w g
  update_role-Good sv role_none ip row later w g = g

  cleared-Good :
      (sv : Supervisor) (role : Role) (w : W)
      → Good sv.role w
      → Good role (when (not (role_eq role sv.role)) (remove_all dk images) w)
  cleared-Good sv role w g = elim (Bool-cases (role_eq role sv.role)) [
    | inl e ↦ rw e (subst (λ r. Good r w) (sym (same_role role sv.role e)) g)
    | inr n ↦ rw n (λ y m h. absurd (remove_all-gone images y w m h))
  ]

  -- Let the daemon make no container but the one that it is told to run, and let it remove what it is
  -- told to remove. If the system containers that are there go with the role that the supervisor
  -- remembers, then after a round of `runSystemOnce` they go with the role that it remembers then,
  -- whatever commands to run a container have failed.
  pub run_system_once-Fits :
      (minions : List Minion) (etcd_rows : List Etcd) (later : List Minion) (sv : Supervisor)
      (w : W)
      → Fits Has sv.role w
      → Fits Has
          (run_system_once dk minions etcd_rows later sv w).0.role
          (run_system_once dk minions etcd_rows later sv w).1
  unfolding run_system_once
  run_system_once-Fits minions etcd_rows later sv w g =
      let role = (only_minion minions).0 in
      let ip = (only_minion minions).1 in
      let row = only_etcd etcd_rows in
      elim (Bool-cases (unchanged dk sv role ip row)) [
        | inl e ↦ rw e g
        | inr n ↦ rw n (update_role-Good sv role ip row later _ (cleared-Good sv role w g))
      ]
