-- ===== src/Db/Alerts.antt =====
-- db/table.go `alert` and the triggers of db/db.go. A trigger is a number, as in a table; its two
-- channels are the state of a trigger: `pending` says that the channel `C`, which holds one
-- notification, holds one; `stopped` says that the channel `stop` is closed.
pub mod Notified
use di.Prelude.{
  ℕ, suc, ◌+◌, ◌≡◌, Bool, true, false, not, Option, none, some, List, [], ◌∷◌, ◌++◌, ◌==◌,
  if◌then◌else◌,
}
use di.Db.Tables
use di.Db.Tables.{Table, insert, remove, commit}

pub record Signal : Type 0 where
  pub pending : Bool
  pub stopped : Bool

abbrev pub Signals : Type 0
Signals = ℕ → Signal

-- The second `select`: a full channel is left as it is.
unfoldable pub notify : ℕ → Signals → Signals
notify t signals u = if t == u then record (signals u) { pending = true } else signals u

-- `close(t.stop)`; to close it again panics.
unfoldable pub stop : ℕ → Signals → Option Signals
stop t signals =
    if (signals t).stopped
    then none
    else some (λ u. if t == u then record (signals u) { stopped = true } else signals u)

-- The range over the triggers. One that has been stopped is deleted, and still notified.
unfoldable pub alert_loop : List ℕ → Signals → List ℕ × Signals
unfolding notify
alert_loop [] signals = ([], signals)
alert_loop (t ∷ ts) signals =
    let (kept, signals') = alert_loop ts (notify t signals) in
    ((if (signals t).stopped then kept else t ∷ kept), signals')

unfoldable pub alert : {A : Type 0} → Table A → Signals → Table A × Signals
unfolding alert_loop
alert t signals =
    let (kept, signals') = alert_loop t.triggers signals in
    if t.seq == t.trig_seq
    then (t, signals)
    else (record t { trig_seq = t.seq; triggers = kept }, signals')

-- `Trigger` adds a trigger to a table; a new one has both channels open and empty.
unfoldable pub add_trigger : {A : Type 0} → ℕ → Table A → Table A
add_trigger n t = record t { triggers = n ∷ t.triggers }

-- A transaction, as the row operations that it makes on one table, in order.
module _ {A : Type 0} (id : A → ℕ) (deep_equal : Discrete A) where
  pub data Ops : Table A → Table A → Type 0 where
    done : {t : Table A} → Ops t t
    inserts : {t u : Table A} (r : A) → Ops (insert id r t) u → Ops t u
    removes : {t u : Table A} (r : A) → Ops (remove id r t) u → Ops t u
    commits : {t v u : Table A} (r : A) → commit id deep_equal r t ≡ some v → Ops v u → Ops t u
