-- ===== src/Provider/Constraint.antt =====
-- provider/constraint.go: the size of machine that fits a policy.
pub mod Cheapest
use di.Prelude.{String, Bool, true, false, ◌&&◌, ◌||◌, List, [], ◌∷◌, ℤ, pos, str_eq, if◌then◌else◌}
use di.Dsl.{Range, Float, accepts}

pub record Description (F : Type 0) : Type 0 where
  pub size : String
  pub price : F
  pub ram : F
  pub cpu : ℤ
  pub disk : String
  pub region : String

module _ {F : Type 0} (float : Float F) (ram cpu : Range F) where
  -- The description has the memory and the processors that are asked for.
  unfoldable pub fits : Description F → Bool
  unfolding accepts
  fits d = accepts float ram d.ram && accepts float cpu (float.of_int d.cpu)

  unfoldable pub best_loop : List (Description F) → Description F → Description F
  unfolding fits
  best_loop [] best = best
  best_loop (d ∷ descriptions) best =
      best_loop descriptions
        (if fits d && (str_eq best.size "" || float.lt d.price best.price) then d else best)

  -- `var best description`
  abbrev pub no_description : Description F
  no_description = record {
    size = "";
    price = float.zero;
    ram = float.zero;
    cpu = pos 0;
    disk = "";
    region = "";
  }

  -- `pickBestSize`
  unfoldable pub pick_best_size : List (Description F) → F → String
  unfolding best_loop
  pick_best_size descriptions max_price =
      let best = best_loop descriptions no_description in
      if float.eq max_price float.zero || float.le best.price max_price then best.size else ""
