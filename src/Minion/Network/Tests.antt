-- ===== src/Minion/Network/Tests.antt =====
-- The directories of the store (minion/network/store.go) at concrete keys.
use mathlib.Core.List.{mem-cons_self, mem-cons, not-mem-nil, Nodup-cons, Nodup-nil}
use mathlib.Core.Bool.{false≢true}
use mathlib.Core.HLevel.{⊥_prop}
use mathlib.Core.Logic.Or
use di.Prelude.{
  arith, find, keys, HasKey, ℕ, ◌≡◌, refl, String, true, Option, none, some, List, [], ◌∷◌, Mem,
  Nodup, eq_iff, str_eq, if◌then◌else◌,
}
use di.Join.{join}
use di.Db.{
  Database, label_row, container_row, minion_row, new, blank_label, blank_container, select_from,
}
use di.Db.Rows.{Label, Container}
use di.Db.Checks.{WellFormed-by_check, running}
use di.Db.Sync.{flip}
use di.Db.Sync.Policy.{WellFormed, Follows}
use di.Minion.Policy.Follow.{any}
use di.Minion.Network.Store.{
  Directory, Store, label_score, update_label, read_label_transact, read_container_transact,
  sync_dir,
}
use di.Minion.Network.Store.Labels.{label_view, label_source, read_label_transact-Follows}
use di.Minion.Network.Store.Containers.{Read, read_container_transact-Read}
use di.Minion.Network.Store.Keys.{sync_dir-wanted, sync_dir_complete, sync_dir-keeps}
use di.Minion.Network.Ips.{sync_ips}
use di.Minion.Network.Ips.Fresh.{Assigned}
use di.Minion.Network.Ips.Given.{address, unassigned, in_use, sync_ips-Assigned}

abbrev dir : Directory
dir = ("a", ("IP", "10.1.0.7") ∷ []) ∷ ("b", []) ∷ []

abbrev before : Database
before = record new {
  labels = record { rows = blank_label 1 ∷ []; triggers = []; trig_seq = 0; seq = 0 };
  containers = record {
    rows = record (blank_container 2) { sched_id = "a" } ∷ [];
    triggers = [];
    trig_seq = 0;
    seq = 0;
  };
  id_alloc = 2;
}

labels-WellFormed : WellFormed Label before
unfolding running
labels-WellFormed = WellFormed-by_check Label before refl

containers-WellFormed : WellFormed Container before
unfolding running
containers-WellFormed = WellFormed-by_check Container before refl

read_label_transact-Follows_example :
    (db' : Database) × (read_label_transact dir before ≡ some db')
    × Follows any label_view
        (label_source dir)
        (update_label dir)
        (keys dir)
        (flip (join label_score (select_from any before) (keys dir)))
        before
        db'
read_label_transact-Follows_example = read_label_transact-Follows dir before labels-WellFormed

abbrev no_labels : String → List String
no_labels json = []

abbrev no_mac : String → Option String
no_mac ip = none

read_container_transact-Read_example :
    (db' : Database) × (read_container_transact no_labels no_mac dir before ≡ some db')
    × Read no_labels no_mac dir before db'
read_container_transact-Read_example =
    read_container_transact-Read no_labels no_mac dir before containers-WellFormed

-- A store that does what it is told, and counts the calls.
abbrev store : Store ℕ
store = record { mkdir = λ p w. (w, true); set = λ p v w. (w, true); delete = λ p w. (w, true) }

distinct_keys : Nodup (keys dir)
unfolding keys
distinct_keys = Nodup-cons.1 (
  (λ m. Or.elim ⊥_prop (mem-cons.0 m) (λ e. false≢true ((eq_iff "a" "b").1 e)) not-mem-nil),
  Nodup-cons.1 (not-mem-nil, Nodup-nil),
)

has_b : HasKey "b" (sync_dir store dir "/d" ("b" ∷ "c" ∷ []) 0).0
has_b =
    sync_dir_complete dir ("b" ∷ "c" ∷ []) store "/d" 0 distinct_keys (λ p v. refl) "b"
      mem-cons_self

sync_dir-wanted_example : Mem {A = String} "b" ("b" ∷ "c" ∷ [])
sync_dir-wanted_example = sync_dir-wanted dir ("b" ∷ "c" ∷ []) store "/d" 0 "b" has_b

sync_dir_complete_example : HasKey "c" (sync_dir store dir "/d" ("c" ∷ "b" ∷ []) 0).0
sync_dir_complete_example =
    sync_dir_complete dir ("c" ∷ "b" ∷ []) store "/d" 0 distinct_keys (λ p v. refl) "c"
      mem-cons_self

at_a : find "a" dir ≡ some (("IP", "10.1.0.7") ∷ [])
unfolding find
at_a = refl

sync_dir-keeps_example :
    find "a" (sync_dir store dir "/d" ("a" ∷ "c" ∷ []) 0).0 ≡ some (("IP", "10.1.0.7") ∷ [])
sync_dir-keeps_example =
    sync_dir-keeps dir ("a" ∷ "c" ∷ []) store "/d" 0 distinct_keys "a" (("IP", "10.1.0.7") ∷ [])
      mem-cons_self at_a

-- 10.1.0.7, and random numbers that count up.
abbrev parse4 : String → Option ℕ
parse4 s = if str_eq s "10.1.0.7" then some 167837703 else none

abbrev count_up : ℕ → ℕ × ℕ
count_up w = (w, w)

sync_ips-Assigned_example :
    Assigned count_up
      (λ n. "10.1.0.8")
      store
      "/d"
      167837696
      (unassigned parse4 167837696 dir)
      (address parse4 167837696 "10.0.0.1" ∷ in_use parse4 167837696 dir)
      dir
      (sync_ips count_up parse4 (λ n. "10.1.0.8") store dir "/d" 167837696 7).0
sync_ips-Assigned_example =
    sync_ips-Assigned parse4 167837696 count_up (λ n. "10.1.0.8") store "/d" dir 7 refl
      (omega arith) distinct_keys
