-- ===== src/Provider/Tests.antt =====
-- Runs of `pickBestSize` (provider/constraint.go), with whole numbers for prices.
use di.Prelude.{
  ℕ, true, false, ◌≡◌, refl, String, List, [], ◌∷◌, ℤ, pos, negsuc, ltb, leb, ◌==◌, arith,
}
use di.Dsl.{Range, Float, accepts}
use di.Provider.Constraint.{Description, fits, best_loop, pick_best_size}
use di.Provider.Constraint.Cheapest.{Picked, pick_best_size-Picked}

abbrev to_nat : ℤ → ℕ
to_nat (pos n) = n
to_nat (negsuc n) = 0

abbrev numbers : Float ℕ
numbers = record { zero = 0; eq = λ a b. a == b; lt = ltb; le = leb; of_int = to_nat }

abbrev offer : String → ℕ → ℕ → Description ℕ
offer size price ram = record {
  size = size;
  price = price;
  ram = ram;
  cpu = pos 2;
  disk = "ebsonly";
  region = "us-east-1";
}

abbrev offers : List (Description ℕ)
offers = offer "huge" 90 64 ∷ offer "small" 3 2 ∷ offer "fit" 20 16 ∷ []

abbrev at_least : ℕ → Range ℕ
at_least n = record { min = n; max = 0 }

pick_runs : pick_best_size numbers (at_least 8) (at_least 1) offers 50 ≡ "fit"
unfolding pick_best_size best_loop fits accepts
pick_runs = refl

ltb_trans : (a b c : ℕ) → ltb a b ≡ true → ltb b c ≡ true → ltb a c ≡ true
ltb_trans a b c h k = ground arith

ltb_irrefl : (a : ℕ) → ltb a a ≡ false
ltb_irrefl a = ground arith

pick_best_size-Picked_example :
    Picked numbers
      (at_least 8)
      (at_least 1)
      ltb_trans
      ltb_irrefl
      offers
      50
      (pick_best_size numbers (at_least 8) (at_least 1) offers 50)
pick_best_size-Picked_example =
    pick_best_size-Picked numbers (at_least 8) (at_least 1) ltb_trans ltb_irrefl offers 50
      (refl, (refl, (refl, tt)))
