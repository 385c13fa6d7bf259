-- ===== src/Cluster/Foreman/Map.antt =====
-- `updateMinionMap` of cluster/foreman.go, the mark and sweep over the minions.
use mathlib.Core.HLevel.{¬_prop}
use mathlib.Core.Logic.{∥∥₁_elim}
use di.Prelude.{
  find, none≢some, String, false, ◌≡◌, ◌≢◌, sym, ◌∙◌, inl, inr, none, List, [], ◌∷◌, Mem,
  Option-cases, All,
}
use di.Db.Rows.{Machine}
use di.Cluster.Foreman.{Rpc, Entry, mark_machines, update_minion_map}
pub use di.Cluster.Foreman.Marks.{Owns}
use di.Cluster.Foreman.Marks.{MarkedOwn, loop-MarkedOwn, loop-marks, sweep-Owns, sweep-Marked}

module _ {W C : Type 0} (rpc : Rpc W C) where
  unmarked :
      (all : List Machine) (minions : List (String × Entry C))
      → All (λ e. e.1.mark ≡ false) minions
      → All (MarkedOwn all) minions
  unmarked all [] h = tt
  unmarked all (e ∷ minions) (a, h) = (inl a, unmarked all minions h)

  -- `updateMinionMap` on a map without marks: afterwards there are no marks either, and every minion
  -- has one of the given machines and stands under its public address; minions without a machine are
  -- gone.
  pub update_minion_map-Owns :
      (machines : List Machine) (minions : List (String × Entry C)) (w : W)
      → All (λ e. e.1.mark ≡ false) minions
      → All (λ e. (e.1.mark ≡ false) × Owns machines e) (update_minion_map rpc machines minions w).0
  unfolding update_minion_map
  update_minion_map-Owns machines minions w h =
      sweep-Owns rpc machines (mark_machines rpc machines minions w).0
        (mark_machines rpc machines minions w).1
        (loop-MarkedOwn rpc machines machines minions w (λ m n. n) (unmarked machines minions h))

  -- `updateMinionMap` drops no minion that still has a machine.
  pub update_minion_map-keeps :
      (machines : List Machine) (minions : List (String × Entry C)) (w : W) (m : Machine)
      → Mem m machines
      → find m.public_ip minions ≢ none
      → find m.public_ip (update_minion_map rpc machines minions w).0 ≢ none
  unfolding update_minion_map
  update_minion_map-keeps machines minions w m n old = ∥∥₁_elim n ¬_prop λ d.
      elim (Option-cases (find m.public_ip minions)) [
        | inl e ↦ absurd (old e)
        | inr present ↦
            let (v, e) =
              sweep-Marked rpc m.public_ip (mark_machines rpc machines minions w).0
                (mark_machines rpc machines minions w).1
                (loop-marks rpc machines minions w m d present) in
            λ gone. none≢some (sym gone ∙ e)
      ]
