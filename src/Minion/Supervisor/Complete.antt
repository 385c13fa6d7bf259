-- ===== src/Minion/Supervisor/Complete.antt =====
-- The system containers that a round of the supervisor (minion/supervisor/supervisor.go) starts.
use mathlib.Core.Bool.{false≢true}
use di.Prelude.{
  inl, inr, refl, String, Bool, true, false, ◌≡◌, ◌≢◌, sym, ◌∙◌, List, [], ◌∷◌, str_eq, eq_iff,
  Bool-cases, if◌then◌else◌,
}
use di.Db.Rows.{worker, master, Minion, Etcd}
use di.Minion.Supervisor.Options.{
  etcd, ovncontroller, ovnnorthd, ovsdb, ovsvswitchd, swarm, RunOptions, options,
}
use di.Minion.Supervisor.System.{
  Daemon, Supervisor, only_minion, only_etcd, unchanged, same_strings, run_system, remove_system,
  connect_ovn, join_swarm, update_worker, start_master, update_master, update_role, run_system_once,
}

-- A container that is told to run is there afterwards, and no command takes away another container.
abbrev pub Starts : {W : Type 0} → (String → W → Type 0) → Daemon W → Type 0
Starts {W} Has dk = (ro : RunOptions) (w : W) → Has ro.name (dk.run ro w).0

abbrev pub Spares : {W : Type 0} → (String → W → Type 0) → Daemon W → Type 0
Spares {W} Has dk =
    ((ro : RunOptions) (y : String) (w : W) → Has y w → Has y (dk.run ro w).0)
    × ((n y : String) (w : W) → y ≢ n → Has y w → Has y (dk.remove n w).0)
    × ((n : String) (cmd : List String) (y : String) (w : W) → Has y w → Has y (dk.exec n cmd w).0)

apart : (a b : String) → str_eq a b ≡ false → a ≢ b
apart a b n e = false≢true (sym n ∙ (eq_iff a b).1 e)

filled : (s : String) → s ≢ "" → str_eq s "" ≡ false
filled s n = elim (Bool-cases (str_eq s "")) [ inl e ↦ absurd (n ((eq_iff s "").0 e)) | inr e ↦ e ]

module _ {W : Type 0} (Has : String → W → Type 0) (dk : Daemon W) (starts : Starts Has dk)
    (spares : Spares Has dk) where
  started : (name : String) (args : List String) (w : W) → Has name (run_system dk name args w)
  unfolding run_system options
  started name args w = starts (options name args) w

  run_keeps :
      (name : String) (args : List String) (y : String) (w : W)
      → Has y w
      → Has y (run_system dk name args w)
  unfolding run_system options
  run_keeps name args y w h = spares.0 (options name args) y w h

  remove_keeps :
      (name y : String) (w : W) → str_eq y name ≡ false → Has y w → Has y (remove_system dk name w)
  unfolding remove_system
  remove_keeps name y w n h = spares.1 name y w (apart y name n) h

  -- What a worker has that knows its leader.
  abbrev pub WorkerRuns : W → Type 0
  WorkerRuns w = Has etcd w × Has ovsdb w × Has ovsvswitchd w × Has swarm w × Has ovncontroller w

  -- What a master has; `leader` tells whether it leads.
  abbrev pub MasterRuns : Bool → W → Type 0
  MasterRuns leader w =
      Has etcd w × Has ovsdb w × Has swarm w × (if leader then Has ovnnorthd w else Unit)

  connect_keeps :
      (ip leader_ip y : String) (m : Minion) (w : W)
      → str_eq y ovncontroller ≡ false
      → Has y w
      → Has y (connect_ovn dk ip leader_ip (m ∷ []) w)
  unfolding connect_ovn
  connect_keeps ip leader_ip y m w n h =
      run_keeps ovncontroller [] y _ (remove_keeps ovncontroller y _ n (spares.2 _ _ y w h))

  connected :
      (ip leader_ip : String) (m : Minion) (w : W)
      → Has ovncontroller (connect_ovn dk ip leader_ip (m ∷ []) w)
  unfolding connect_ovn
  connected ip leader_ip m w = started ovncontroller [] _

  joined :
      (ip leader_ip : String) (m : Minion) (w : W)
      → Has etcd w × Has ovsdb w × Has ovsvswitchd w
      → WorkerRuns (join_swarm dk ip leader_ip (m ∷ []) w)
  unfolding join_swarm
  joined ip leader_ip m w (e, o, v) = (
    connect_keeps ip leader_ip etcd m _ refl (run_keeps swarm _ etcd w e),
    connect_keeps ip leader_ip ovsdb m _ refl (run_keeps swarm _ ovsdb w o),
    connect_keeps ip leader_ip ovsvswitchd m _ refl (run_keeps swarm _ ovsvswitchd w v),
    connect_keeps ip leader_ip swarm m _ refl (started swarm _ w),
    connected ip leader_ip m _,
  )

  update_worker-Runs :
      (sv : Supervisor) (ip leader_ip : String) (etcd_ips : List String) (m : Minion) (w : W)
      → ip ≢ ""
      → leader_ip ≢ ""
      → WorkerRuns (update_worker dk sv ip leader_ip etcd_ips (m ∷ []) w)
  unfolding update_worker
  update_worker-Runs sv ip leader_ip etcd_ips m w i l =
      rw (filled leader_ip l, filled ip i)
        (joined ip leader_ip m _ (
          run_keeps ovsvswitchd [] etcd _ (run_keeps ovsdb [] etcd _ (started etcd _ _)),
          run_keeps ovsvswitchd [] ovsdb _ (started ovsdb [] _),
          started ovsvswitchd [] _,
        ))

  module _ (m again : Minion) (e : Etcd) (sv : Supervisor) (w : W) where
    -- Let the daemon run what it is told to run and take away nothing but what it is told to remove. A
    -- round of `runSystemOnce` in which something has changed, on a worker that knows its own address
    -- and that of its leader, ends with all five containers of a worker.
    pub run_system_once-WorkerRuns :
        m.role ≡ worker
        → m.private_ip ≢ ""
        → e.leader_ip ≢ ""
        → unchanged dk sv m.role m.private_ip (e.etcd_ips, e.leader_ip, e.leader) ≡ false
        → WorkerRuns (run_system_once dk (m ∷ []) (e ∷ []) (again ∷ []) sv w).1
    unfolding run_system_once update_role only_minion only_etcd
    run_system_once-WorkerRuns r i l u =
        rw (u, r) (update_worker-Runs sv m.private_ip e.leader_ip e.etcd_ips again _ i l)

  start_master-Runs :
      (ip : String) (etcd_ips : List String) (leader : Bool) (w : W)
      → MasterRuns leader (start_master dk ip etcd_ips leader w)
  unfolding start_master
  start_master-Runs ip etcd_ips true w = (
    run_keeps ovnnorthd [] etcd _
        (run_keeps swarm _ etcd _ (run_keeps ovsdb [] etcd _ (started etcd _ w))),
    run_keeps ovnnorthd [] ovsdb _ (run_keeps swarm _ ovsdb _ (started ovsdb [] _)),
    run_keeps ovnnorthd [] swarm _ (started swarm _ _),
    started ovnnorthd [] _,
  )
  start_master-Runs ip etcd_ips false w = (
    remove_keeps ovnnorthd etcd _ refl
        (run_keeps swarm _ etcd _ (run_keeps ovsdb [] etcd _ (started etcd _ w))),
    remove_keeps ovnnorthd ovsdb _ refl (run_keeps swarm _ ovsdb _ (started ovsdb [] _)),
    remove_keeps ovnnorthd swarm _ refl (started swarm _ _),
    tt,
  )

  update_master-Runs :
      (sv : Supervisor) (ip : String) (etcd_ips : List String) (leader : Bool) (w : W)
      → ip ≢ ""
      → same_strings etcd_ips [] ≡ false
      → MasterRuns leader (update_master dk sv ip etcd_ips leader w)
  unfolding update_master
  update_master-Runs sv ip etcd_ips leader w i n =
      rw (filled ip i, n) (start_master-Runs ip etcd_ips leader _)

  module _ (m : Minion) (e : Etcd) (later : List Minion) (sv : Supervisor) (w : W) where
    -- Under the same conditions, a master that knows its own address and those of the stores ends with
    -- the three containers of a master, and with the one of the leader if it leads.
    pub run_system_once-MasterRuns :
        m.role ≡ master
        → m.private_ip ≢ ""
        → same_strings e.etcd_ips [] ≡ false
        → unchanged dk sv m.role m.private_ip (e.etcd_ips, e.leader_ip, e.leader) ≡ false
        → MasterRuns e.leader (run_system_once dk (m ∷ []) (e ∷ []) later sv w).1
    unfolding run_system_once update_role only_minion only_etcd
    run_system_once-MasterRuns r i n u =
        rw (u, r) (update_master-Runs sv m.private_ip e.etcd_ips e.leader _ i n)
