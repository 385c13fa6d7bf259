-- ===== src/Dsl/Progression.antt =====
-- `range` of dsl/func.go against its documentation: a progression that stops short of its end.
use mathlib.Core.Bool.{false≢true}
use di.Prelude.{
  ℕ, zero, suc, ◌+◌, ◌-◌, ◌<◌, pos, negsuc, ℤ, List, [], ◌∷◌, ◌≡◌, refl, true, false, arith, All,
  map, leb, Bool-cases, inl, inr, if◌then◌else◌,
}
use di.Db.Rows.Less.{int_ltb}
use di.Dsl.Ast.{Ast, of_slice}
use di.Dsl.Store.{Store, ok, pure, ◌>>=◌}
use di.Dsl.Func.{raise_if}
use di.Dsl.Func.Ints.{int_add, to_word, of_word, half_word, range_loop, range_fuel, range_of}

-- The sum, in all integers.
abbrev pub plus : ℤ → ℕ → ℤ
plus (pos a) s = pos (a + s)
plus (negsuc a) s = if leb s a then negsuc (a - s) else pos (s - suc a)

-- `n` numbers from `a` on, `s` apart, and the number that comes after them.
abbrev pub progression : ℕ → ℤ → ℕ → List ℤ
progression zero a s = []
progression (suc n) a s = a ∷ progression n (plus a s) s

abbrev pub beyond : ℕ → ℤ → ℕ → ℤ
beyond zero a s = a
beyond (suc n) a s = beyond n (plus a s) s

-- An integer of 64 bits.
abbrev pub IsInt : ℤ → Type 0
IsInt (pos a) = a < half_word
IsInt (negsuc a) = a < half_word

-- The step is an integer of 64 bits, and so is its sum with an end that is not negative.
abbrev pub NoWrap : ℤ → ℕ → Type 0
NoWrap (pos b) s = b + s < half_word
NoWrap (negsuc b) s = s < half_word

int_add-pos : (a b : ℕ) → a + b < half_word → int_add (pos a) (pos b) ≡ pos (a + b)
unfolding int_add to_word of_word
int_add-pos a b h = ground arith

int_add-negsuc :
    (a s : ℕ) → a < half_word → s < half_word → int_add (negsuc a) (pos s) ≡ plus (negsuc a) s
unfolding int_add to_word of_word
int_add-negsuc a s h k = elim (Bool-cases (leb s a)) [
  | inl e ↦ ground (arith, e)
  | inr e ↦ ground (arith, e)
]

-- How far the end is.
abbrev distance : ℤ → ℤ → ℕ
distance (pos a) (pos b) = b - a
distance (pos a) (negsuc b) = 0
distance (negsuc a) (pos b) = a + 1 + b
distance (negsuc a) (negsuc b) = a - b

fuel_distance : (a b : ℤ) → range_fuel a b ≡ suc (distance a b)
unfolding range_fuel
fuel_distance (pos a) (pos b) = refl
fuel_distance (pos a) (negsuc b) = refl
fuel_distance (negsuc a) (pos b) = refl
fuel_distance (negsuc a) (negsuc b) = refl

-- A step before the end does not wrap around, and comes nearer to it.
nearer :
    (i stop : ℤ) (k : ℕ)
    → int_ltb i stop ≡ true
    → NoWrap stop (suc k)
    → IsInt i
    → (int_add i (pos (suc k)) ≡ plus i (suc k))
      × IsInt (plus i (suc k))
      × (distance (plus i (suc k)) stop < distance i stop)
nearer (pos i) (pos b) k e n h = (int_add-pos i (suc k) (ground arith), ground arith, ground arith)
nearer (pos i) (negsuc b) k e n h = absurd (false≢true e)
nearer (negsuc i) (pos b) k e n h = elim (Bool-cases (leb (suc k) i)) [
  | inl f ↦ (int_add-negsuc i (suc k) h (omega arith), rw f (ground arith), rw f (ground arith))
  | inr f ↦ (int_add-negsuc i (suc k) h (omega arith), rw f (ground arith), rw f (ground arith))
]
nearer (negsuc i) (negsuc b) k e n h = elim (Bool-cases (leb (suc k) i)) [
  | inl f ↦ (int_add-negsuc i (suc k) h n, rw f (ground arith), rw f (ground arith))
  | inr f ↦ (int_add-negsuc i (suc k) h n, rw f (ground arith), rw f (ground arith))
]

module _ {F : Type 0} (stop : ℤ) (k : ℕ) (st : Store F) (no_wrap : NoWrap stop (suc k)) where
  abbrev Counts : ℕ → ℤ → Type 0
  Counts fuel i =
      (n : ℕ) × (range_loop fuel i stop (pos (suc k)) st
        ≡ ok (map Ast.int (progression n i (suc k))) st)
      × All (λ x. int_ltb x stop ≡ true) (progression n i (suc k))
      × (int_ltb (beyond n i (suc k)) stop ≡ false)

  range_loop-Counts : (fuel : ℕ) (i : ℤ) → IsInt i → distance i stop < fuel → Counts fuel i
  unfolding range_loop pure ◌>>=◌
  range_loop-Counts zero i h lt = absurd (omega arith)
  range_loop-Counts (suc fuel) i h lt = elim (Bool-cases (int_ltb i stop)) [
    | inl e ↦
        let (same, fits, near) = nearer i stop k e no_wrap h in
        let (n, p, q, r) = range_loop-Counts fuel (plus i (suc k)) fits (omega arith) in
        (suc n, rw e (rw same (rw p refl)), (e, q), r)
    | inr e ↦ (0, rw (e, range_loop) refl, tt, e)
  ]

  positive : int_ltb (pos 0) (pos (suc k)) ≡ true
  positive = ground arith

  range_of-loop :
      (start : ℤ) (xs : List (Ast F))
      → range_loop (suc (distance start stop)) start stop (pos (suc k)) st ≡ ok xs st
      → range_of start stop (pos (suc k)) st ≡ ok (of_slice xs) st
  unfolding range_of raise_if ◌>>=◌ pure
  range_of-loop start xs p = rw positive (rw (fuel_distance start stop) (rw p refl))

  -- For a start and a positive step of 64 bits, and an end to which the step can be added without
  -- wrapping around, `range` gives the numbers from the start on, a step apart, that are below the
  -- end, and misses none of them; the fuel suffices.
  pub range_of-progression :
      (start : ℤ)
      → IsInt start
      → (n : ℕ) × (range_of start stop (pos (suc k)) st
          ≡ ok (of_slice (map Ast.int (progression n start (suc k)))) st)
        × All (λ x. int_ltb x stop ≡ true) (progression n start (suc k))
        × (int_ltb (beyond n start (suc k)) stop ≡ false)
  range_of-progression start h =
      let (n, p, q, r) = range_loop-Counts (suc (distance start stop)) start h (omega arith) in
      (n, range_of-loop start _ p, q, r)
