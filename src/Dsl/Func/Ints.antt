-- ===== src/Dsl/Func/Ints.antt =====
-- dsl/func.go: arithmetic, comparison and `range`. Go's `int` has 64 bits and wraps around.
use di.Prelude.{
  ℕ, zero, suc, ◌+◌, ◌-◌, ◌*◌, ◌/◌, ◌%◌, String, Bool, true, false, not, Option, none, some, List,
  [], ◌∷◌, ◌<>◌, ℤ, pos, negsuc, int_eq, ltb, if◌then◌else◌,
}
use di.Db.Rows.Less.{int_ltb}
use di.Dsl.Ast.{Ast, of_slice}
use di.Dsl.Store.{M, pure, panic, must, need, no_fuel, ◌>>=◌, ◌>>◌, traverse, index, fold_left}
use di.Dsl.Func.{Builtin, as_string, as_int, raise, raise_if}

abbrev pub word : ℕ
word = 18446744073709551616

abbrev pub half_word : ℕ
half_word = 9223372036854775808

-- The bits of an integer, and the integer of 64 bits.
unfoldable pub to_word : ℤ → ℕ
to_word (pos n) = n % word
to_word (negsuc n) = word - 1 - n % word

unfoldable pub of_word : ℕ → ℤ
of_word w = if ltb w half_word then pos w else negsuc (word - 1 - w)

unfoldable pub int_add : ℤ → ℤ → ℤ
unfolding to_word of_word
int_add a b = of_word ((to_word a + to_word b) % word)

unfoldable pub int_sub : ℤ → ℤ → ℤ
unfolding to_word of_word
int_sub a b = of_word ((to_word a + word - to_word b) % word)

unfoldable pub int_mul : ℤ → ℤ → ℤ
unfolding to_word of_word
int_mul a b = of_word (to_word a * to_word b % word)

abbrev magnitude : ℤ → ℕ
magnitude (pos n) = n
magnitude (negsuc n) = n + 1

abbrev negative : ℤ → Bool
negative (pos n) = false
negative (negsuc n) = true

abbrev negate_if : Bool → ℕ → ℤ
negate_if false n = pos n
negate_if true zero = pos 0
negate_if true (suc n) = negsuc n

abbrev differ : Bool → Bool → Bool
differ true b = not b
differ false b = b

-- Division truncates towards zero; `none` is the panic of a zero divisor.
unfoldable pub int_div : ℤ → ℤ → Option ℤ
unfolding to_word of_word
int_div a b =
    if int_eq b (pos 0)
    then none
    else some (
        of_word
          (to_word (negate_if (differ (negative a) (negative b)) (magnitude a / magnitude b))))

unfoldable pub int_mod : ℤ → ℤ → Option ℤ
int_mod a b =
    if int_eq b (pos 0) then none else some (negate_if (negative a) (magnitude a % magnitude b))

abbrev pub join_strings : List String → String
join_strings [] = ""
join_strings (s ∷ ss) = s <> join_strings ss

unfoldable pub range_fuel : ℤ → ℤ → ℕ
range_fuel (pos a) (pos b) = suc (b - a)
range_fuel (pos a) (negsuc b) = 1
range_fuel (negsuc a) (pos b) = suc (a + 1 + b)
range_fuel (negsuc a) (negsuc b) = suc (a - b)

module _ {F : Type 0} where
  -- The arguments as integers.
  unfoldable pub ints : List (Ast F) → M F (List ℤ)
  ints args = traverse (λ a. need (as_int a) "bad arithmetic argument: %s") args

  abbrev pub total : (ℤ → ℤ → Option ℤ) → ℤ → ℤ → M F ℤ
  total op a b = must (op a b)

  unfoldable pub accumulate : (ℤ → ℤ → Option ℤ) → List ℤ → M F (Ast F)
  accumulate op [] = panic
  accumulate op (n ∷ ns) = do sum ← fold_left (total op) n ns; pure (Ast.int sum)

  unfoldable pub arith_fun : (ℤ → ℤ → Option ℤ) → Builtin F
  arith_fun op ctx args = do ns ← ints args; accumulate op ns

  unfoldable pub mod_impl : Builtin F
  mod_impl = arith_fun int_mod

  unfoldable pub mul_impl : Builtin F
  mul_impl = arith_fun (λ a b. some (int_mul a b))

  unfoldable pub sub_impl : Builtin F
  sub_impl = arith_fun (λ a b. some (int_sub a b))

  unfoldable pub div_impl : Builtin F
  div_impl = arith_fun int_div

  unfoldable pub concat : List (Ast F) → M F (Ast F)
  concat args = do
    strs ← traverse (λ a. need (as_string a) "bad string concatenation argument: %s") args
    pure (Ast.string (join_strings strs))

  abbrev pub plus_of : Option String → Builtin F
  plus_of none ctx args = arith_fun (λ a b. some (int_add a b)) ctx args
  plus_of (some s) ctx args = concat args

  unfoldable pub plus_impl : Builtin F
  plus_impl ctx args = do first ← index args 0; plus_of (as_string first) ctx args

  unfoldable pub compare_fun : (ℤ → ℤ → Bool) → Builtin F
  compare_fun op ctx args = do
    ns ← ints args
    a ← index ns 0
    b ← index ns 1
    pure (Ast.bool (op a b))

  -- `for i := start; i < stop; i += step`. Where `i` wraps around, the loop goes on until the fuel,
  -- one more than the distance, runs out.
  unfoldable pub range_loop : ℕ → ℤ → ℤ → ℤ → M F (List (Ast F))
  range_loop zero i stop step = no_fuel
  range_loop (suc fuel) i stop step =
      let rest = range_loop fuel (int_add i step) stop step in
      if int_ltb i stop then (rest >>= λ xs. pure (Ast.int i ∷ xs)) else pure []

  unfoldable pub range_of : ℤ → ℤ → ℤ → M F (Ast F)
  range_of start stop step = do
    raise_if (not (int_ltb (pos 0) step)) "step must be greater than zero"
    xs ← range_loop (range_fuel start stop) start stop step
    pure (of_slice xs)

  unfoldable pub range_args : List ℤ → M F (Ast F)
  range_args (stop ∷ []) = range_of (pos 0) stop (pos 1)
  range_args (start ∷ stop ∷ []) = range_of start stop (pos 1)
  range_args (start ∷ stop ∷ step ∷ []) = range_of start stop step
  range_args _ = raise "range expects 1, 2 or 3 arguments, found: %d"

  unfoldable pub range_impl : Builtin F
  range_impl ctx args = do
    ns ← traverse (λ a. need (as_int a) "range arguments must be integers: %v") args
    range_args ns
