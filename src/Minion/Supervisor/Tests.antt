-- ===== src/Minion/Supervisor/Tests.antt =====
-- Rounds of the supervisor (minion/supervisor/supervisor.go) on a host that does what it is told.
use mathlib.Core.Bool.{false≢true}
use di.Prelude.{
  String, Bool, true, false, ◌≡◌, refl, sym, ◌∙◌, inl, inr, [], ◌∷◌, str_eq, eq_iff, Bool-cases,
  if◌then◌else◌, Strings-discrete, String-discrete,
}
use di.Db.{blank_minion, blank_etcd}
use di.Db.Rows.{role_none, worker, master, Minion, Etcd}
use di.Minion.Supervisor.Options.{ovncontroller}
use di.Minion.Supervisor.System.{Daemon, Supervisor, unchanged, same_strings, run_system_once}
use di.Minion.Supervisor.Roles.{Fits, Runs, Removes, Execs, run_system_once-Fits}
use di.Minion.Supervisor.Complete.{
  Starts, Spares, WorkerRuns, MasterRuns, run_system_once-WorkerRuns, run_system_once-MasterRuns,
}

-- A host says of every name whether its container is there.
abbrev Host : Type 0
Host = String → Bool

abbrev Has : String → Host → Type 0
Has y w = w y ≡ true

abbrev dk : Daemon Host
dk = record {
  run = λ ro w. ((λ y. if str_eq y ro.name then true else w y), true);
  remove = λ n w. ((λ y. if str_eq y n then false else w y), true);
  exec = λ n cmd w. (w, true);
}

dk-Runs : Runs Has dk
dk-Runs ro y w h = elim (Bool-cases (str_eq y ro.name)) [
  | inl e ↦ inr ((eq_iff y ro.name).0 e)
  | inr n ↦ inl (rw n at h)
]

dk-Removes : Removes Has dk
dk-Removes n y w h = elim (Bool-cases (str_eq y n)) [
  | inl e ↦ absurd (false≢true (rw e at h))
  | inr f ↦ (rw f at h, (λ e. false≢true (sym f ∙ (eq_iff y n).1 e)))
]

dk-Execs : Execs Has dk
dk-Execs n cmd y w h = h

dk-Starts : Starts Has dk
dk-Starts ro w = rw ((eq_iff ro.name ro.name).1 refl) refl

dk-Spares : Spares Has dk
dk-Spares = (
  λ ro y w h. elim (Bool-cases (str_eq y ro.name)) [ inl e ↦ rw e refl | inr n ↦ rw n h ],
  λ n y w d h. elim (Bool-cases (str_eq y n)) [
    | inl e ↦ absurd (d ((eq_iff y n).0 e))
    | inr f ↦ rw f h
  ],
  λ n cmd y w h. h,
)

abbrev initial : Supervisor
initial = record { role = role_none; etcd_ips = []; leader_ip = ""; ip = ""; leader = false }

abbrev empty : Host
empty = λ y. false

abbrev worker_row : Minion
worker_row = record (blank_minion 1) { role = worker; private_ip = "1.2.3.4" }

abbrev master_row : Minion
master_row = record (blank_minion 1) { role = master; private_ip = "1.2.3.4" }

abbrev etcd_row : Etcd
etcd_row = record (blank_etcd 2) { etcd_ips = "5.6.7.8" ∷ []; leader_ip = "5.6.7.8"; leader = true }

initial-Fits : Fits Has role_none empty
initial-Fits y m h = absurd (false≢true h)

-- The worker becomes a master, so that what it ran before goes.
abbrev as_worker : Supervisor × Host
as_worker = run_system_once dk (worker_row ∷ []) (etcd_row ∷ []) (worker_row ∷ []) initial empty

no_controller :
    (run_system_once dk (master_row ∷ []) (etcd_row ∷ []) [] as_worker.0 as_worker.1).1
      ovncontroller
    ≡ false
unfolding run_system_once Strings-discrete String-discrete
no_controller = refl

run_system_once-Fits_example :
    Fits Has
      (run_system_once dk (worker_row ∷ []) (etcd_row ∷ []) (worker_row ∷ []) initial empty).0.role
      (run_system_once dk (worker_row ∷ []) (etcd_row ∷ []) (worker_row ∷ []) initial empty).1
run_system_once-Fits_example =
    run_system_once-Fits Has dk dk-Runs dk-Removes dk-Execs (worker_row ∷ []) (etcd_row ∷ [])
      (worker_row ∷ []) initial empty initial-Fits

run_system_once-WorkerRuns_example :
    WorkerRuns Has dk dk-Starts dk-Spares
      (run_system_once dk (worker_row ∷ []) (etcd_row ∷ []) (worker_row ∷ []) initial empty).1
unfolding unchanged
run_system_once-WorkerRuns_example =
    run_system_once-WorkerRuns Has dk dk-Starts dk-Spares worker_row worker_row etcd_row initial
      empty refl (λ e. false≢true ((eq_iff "1.2.3.4" "").1 e))
      (λ e. false≢true ((eq_iff "5.6.7.8" "").1 e)) refl

run_system_once-MasterRuns_example :
    MasterRuns Has dk dk-Starts dk-Spares true
      (run_system_once dk (master_row ∷ []) (etcd_row ∷ []) [] initial empty).1
unfolding unchanged same_strings Strings-discrete String-discrete
run_system_once-MasterRuns_example =
    run_system_once-MasterRuns Has dk dk-Starts dk-Spares master_row etcd_row [] initial empty refl
      (λ e. false≢true ((eq_iff "1.2.3.4" "").1 e)) refl refl
