-- ===== src/Db/Tests.antt =====
-- The order of rows and the triggers (db/), at concrete rows.
use mathlib.Core.Bool.{true, false, not}
use mathlib.Core.List.{mem-cons_self}
use di.Prelude.{◌≡◌, ◌⊎◌, refl, [], ◌∷◌, pos, arith}
use di.Db.{blank_machine, blank_connection, blank_label}
use di.Db.Rows.{Machine, Connection, Label, master, Label-discrete}
use di.Db.Rows.Less.{machine_less, connection_less, label_less}
use di.Db.Rows.Less.Orders.{machine_less-flip, connection_less_cycle, label_less-flip}
use di.Db.Tables.{Table, insert}
use di.Db.Alerts.{Signals, alert, done, inserts}
use di.Db.Alerts.Notified.{alert-notifies}

abbrev first : Machine
first = record (blank_machine 2) { role = master; cloud_id = "b" }

abbrev spare : Machine
spare = record (blank_machine 3) { cloud_id = "a" }

machine_less-flip_example : machine_less spare first ≡ not (machine_less first spare)
machine_less-flip_example = machine_less-flip first spare (λ e. omega (arith, e))

label_less-flip_example :
    label_less (record (blank_label 2) { label = "a" }) (record (blank_label 1) { label = "b" })
    ≡ not (
        label_less
          (record (blank_label 1) { label = "b" })
          (record (blank_label 2) { label = "a" }))
label_less-flip_example =
    label_less-flip (record (blank_label 1) { label = "b" })
      (record (blank_label 2) { label = "a" }) (λ e. omega (arith, e))

abbrev single : Connection
single = record (blank_connection 1) { from = "a"; to = "b"; min_port = pos 80; max_port = pos 80 }

abbrev ranged : Connection
ranged = record (blank_connection 5) { from = "a"; to = "b"; min_port = pos 70; max_port = pos 80 }

connection_less_cycle_example :
    (connection_less single ranged ≡ true) × (connection_less ranged single ≡ true)
connection_less_cycle_example =
    connection_less_cycle single ranged refl refl refl refl refl refl refl (omega arith)

abbrev watched : Table Label
watched = record { rows = []; triggers = 7 ∷ []; trig_seq = 0; seq = 0 }

abbrev silent : Signals
silent t = record { pending = false; stopped = false }

abbrev written : Table Label
written = insert (λ (l : Label). l.id) (blank_label 1) watched

alert-notifies_example : (written ≡ watched) ⊎ (((alert written silent).1 7).pending ≡ true)
alert-notifies_example =
    alert-notifies (λ (l : Label). l.id) Label-discrete watched written silent 7 refl
      (inserts (blank_label 1) done) mem-cons_self
