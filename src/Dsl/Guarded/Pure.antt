-- ===== src/Dsl/Guarded/Pure.antt =====
-- The functions of dsl/func.go that leave the store alone are guarded.
use di.Prelude.{ℕ, zero, suc, String, Bool, ℤ, pos, negsuc, Option, none, some, List, [], ◌∷◌}
use di.Dsl.{Float}
use di.Dsl.Ast.{Ast, Ctx}
use di.Dsl.Store.{M}
use di.Dsl.Guarded.{
  Guarded, pures, binds, guarded, need-Guarded, index-Guarded, times_out, panics, raise-Guarded,
}
use di.Dsl.Func.{Host, string_arg, list_arg, int_arg, hmap_arg, Builtin, as_string}
use di.Dsl.Func.Ints.{
  ints, accumulate, plus_of, arith_fun, mod_impl, mul_impl, sub_impl, div_impl, concat, plus_impl,
  compare_fun, range_loop, range_of, range_args, range_impl, int_add, int_mul, int_sub, int_div,
  int_mod,
}
use di.Dsl.Func.Lists.{
  flatten_string, list_impl, len_impl, head, car_impl, tail, cdr_impl, cons_impl, nth, nth_impl,
  last, progn_impl,
}
use di.Dsl.Func.Hmaps.{
  hash, hmap_set_impl, hmap_get_impl, hmap_contains_impl, hmap_keys_impl, hmap_values_impl,
}
use di.Dsl.Func.Equal.{answer, eq_impl}
use di.Dsl.Func.Control.{
  panic_with, log_impl, bad_message, panic_impl, import_impl, bool_impl, sprintf_impl,
}

-- A built-in function that does not evaluate.
abbrev pub Sound : {F : Type 0} → Builtin F → Type 1
Sound {F} run = (ctx : Ctx) (args : List (Ast F)) → Guarded (Ast F) (run ctx args) (run ctx args)

abbrev pub Safe : {F A : Type 0} → M F A → Type 1
Safe {F} {A} m = Guarded A m m

module _ {F : Type 0} where
  pub string_arg-Guarded :
      (args : List (Ast F)) (i : ℕ) (text : String) → Safe (string_arg args i text)
  unfolding string_arg
  string_arg-Guarded args i text = search guarded

  pub list_arg-Guarded : (args : List (Ast F)) (i : ℕ) (text : String) → Safe (list_arg args i text)
  unfolding list_arg
  list_arg-Guarded args i text = search guarded

  pub int_arg-Guarded : (args : List (Ast F)) (i : ℕ) (text : String) → Safe (int_arg args i text)
  unfolding int_arg
  int_arg-Guarded args i text = search guarded

  pub hmap_arg-Guarded : (args : List (Ast F)) (i : ℕ) (text : String) → Safe (hmap_arg args i text)
  unfolding hmap_arg
  hmap_arg-Guarded args i text = search guarded

  ints-Guarded : (args : List (Ast F)) → Safe (ints args)
  unfolding ints
  ints-Guarded args = search guarded

  accumulate-Guarded : (op : ℤ → ℤ → Option ℤ) (ns : List ℤ) → Safe {F = F} (accumulate op ns)
  unfolding accumulate
  accumulate-Guarded op [] = panics
  accumulate-Guarded op (n ∷ ns) = search guarded

  pub arith_fun-Sound : (op : ℤ → ℤ → Option ℤ) → Sound {F = F} (arith_fun op)
  unfolding arith_fun
  arith_fun-Sound op ctx args = binds (ints-Guarded args) (accumulate-Guarded op)

  pub mod_impl-Sound : Sound {F = F} mod_impl
  unfolding mod_impl
  mod_impl-Sound = arith_fun-Sound int_mod

  pub mul_impl-Sound : Sound {F = F} mul_impl
  unfolding mul_impl
  mul_impl-Sound = arith_fun-Sound (λ a b. some (int_mul a b))

  pub sub_impl-Sound : Sound {F = F} sub_impl
  unfolding sub_impl
  sub_impl-Sound = arith_fun-Sound (λ a b. some (int_sub a b))

  pub div_impl-Sound : Sound {F = F} div_impl
  unfolding div_impl
  div_impl-Sound = arith_fun-Sound int_div

  concat-Guarded : (args : List (Ast F)) → Safe (concat args)
  unfolding concat
  concat-Guarded args = search guarded

  pub plus_impl-Sound : Sound {F = F} plus_impl
  unfolding plus_impl
  plus_impl-Sound ctx args = binds (index-Guarded args 0) (λ a.
      elim (as_string a) as (λ o. Safe (plus_of o ctx args)) [
        | none ↦ arith_fun-Sound (λ a b. some (int_add a b)) ctx args
        | some s ↦ concat-Guarded args
      ])

  pub compare_fun-Sound : (op : ℤ → ℤ → Bool) → Sound {F = F} (compare_fun op)
  unfolding compare_fun
  compare_fun-Sound op ctx args = search (guarded, ints-Guarded)

  range_loop-Guarded : (fuel : ℕ) (i stop step : ℤ) → Safe {F = F} (range_loop fuel i stop step)
  unfolding range_loop
  range_loop-Guarded zero i stop step = times_out _
  range_loop-Guarded (suc fuel) i stop step = search (guarded, range_loop-Guarded fuel)

  range_of-Guarded : (start stop step : ℤ) → Safe {F = F} (range_of start stop step)
  unfolding range_of
  range_of-Guarded start stop step = search (guarded, range_loop-Guarded)

  range_args-Guarded : (ns : List ℤ) → Safe {F = F} (range_args ns)
  unfolding range_args
  range_args-Guarded [] = raise-Guarded _
  range_args-Guarded (a ∷ []) = range_of-Guarded _ _ _
  range_args-Guarded (a ∷ b ∷ []) = range_of-Guarded _ _ _
  range_args-Guarded (a ∷ b ∷ c ∷ []) = range_of-Guarded _ _ _
  range_args-Guarded (a ∷ b ∷ c ∷ d ∷ ns) = raise-Guarded _

  pub range_impl-Sound : Sound {F = F} range_impl
  unfolding range_impl
  range_impl-Sound ctx args = search (guarded, range_args-Guarded)

  pub flatten_string-Guarded : (args : List (Ast F)) → Safe (flatten_string args)
  unfolding flatten_string
  flatten_string-Guarded args = search guarded

  pub list_impl-Sound : Sound {F = F} list_impl
  unfolding list_impl
  list_impl-Sound ctx args = pures _

  pub len_impl-Sound : Sound {F = F} len_impl
  unfolding len_impl
  len_impl-Sound ctx args = search (guarded, list_arg-Guarded)

  head-Guarded : (xs : List (Ast F)) → Safe (head xs)
  unfolding head
  head-Guarded [] = raise-Guarded _
  head-Guarded (x ∷ xs) = pures x

  pub car_impl-Sound : Sound {F = F} car_impl
  unfolding car_impl
  car_impl-Sound ctx args = binds (list_arg-Guarded _ _ _) head-Guarded

  tail-Guarded : (xs : List (Ast F)) → Safe (tail xs)
  unfolding tail
  tail-Guarded [] = raise-Guarded _
  tail-Guarded (x ∷ xs) = pures _

  pub cdr_impl-Sound : Sound {F = F} cdr_impl
  unfolding cdr_impl
  cdr_impl-Sound ctx args = binds (list_arg-Guarded _ _ _) tail-Guarded

  pub cons_impl-Sound : Sound {F = F} cons_impl
  unfolding cons_impl
  cons_impl-Sound ctx args = search (guarded, list_arg-Guarded)

  nth-Guarded : (i : ℤ) (xs : List (Ast F)) → Safe (nth i xs)
  unfolding nth
  nth-Guarded (pos i) xs = need-Guarded _ _
  nth-Guarded (negsuc i) xs = raise-Guarded _

  pub nth_impl-Sound : Sound {F = F} nth_impl
  unfolding nth_impl
  nth_impl-Sound ctx args = search (guarded, int_arg-Guarded, list_arg-Guarded, nth-Guarded)

  pub last-Guarded : {A : Type 0} (xs : List A) → Safe {F = F} (last xs)
  unfolding last
  last-Guarded [] = panics
  last-Guarded (x ∷ []) = pures x
  last-Guarded (x ∷ y ∷ xs) = last-Guarded (y ∷ xs)

  pub progn_impl-Sound : Sound {F = F} progn_impl
  unfolding progn_impl
  progn_impl-Sound ctx args = last-Guarded args

  pub hash-Guarded : (key : Ast F) → Safe (hash key)
  unfolding hash
  hash-Guarded key = search guarded

  pub hmap_keys_impl-Sound : Sound {F = F} hmap_keys_impl
  unfolding hmap_keys_impl
  hmap_keys_impl-Sound ctx args = search (guarded, hmap_arg-Guarded)

  pub hmap_values_impl-Sound : Sound {F = F} hmap_values_impl
  unfolding hmap_values_impl
  hmap_values_impl-Sound ctx args = search (guarded, hmap_arg-Guarded)

  pub log_impl-Sound : Sound {F = F} log_impl
  unfolding log_impl
  log_impl-Sound ctx args = search (guarded, string_arg-Guarded)

  bad_message-Guarded : (args : List (Ast F)) → Safe (bad_message args)
  unfolding bad_message
  bad_message-Guarded args = search guarded

  pub panic_impl-Sound : Sound {F = F} panic_impl
  unfolding panic_impl
  panic_impl-Sound ctx args = binds (index-Guarded args 0) (λ a.
      elim (as_string a) as (λ o. Safe (panic_with o args)) [
        | none ↦ bad_message-Guarded args
        | some s ↦ raise-Guarded _
      ])

  pub import_impl-Sound : Sound {F = F} import_impl
  unfolding import_impl
  import_impl-Sound ctx args = raise-Guarded _

  pub bool_impl-Sound : Sound {F = F} bool_impl
  unfolding bool_impl
  bool_impl-Sound ctx args = search guarded

  pub sprintf_impl-Sound : (host : Host F) → Sound (sprintf_impl host)
  unfolding sprintf_impl
  sprintf_impl-Sound host ctx args = search (guarded, string_arg-Guarded)

module _ {F : Type 0} (fl : Float F) where
  pub hmap_set_impl-Sound : Sound (hmap_set_impl fl)
  unfolding hmap_set_impl
  hmap_set_impl-Sound ctx args = search (guarded, hmap_arg-Guarded, hash-Guarded)

  pub hmap_get_impl-Sound : Sound (hmap_get_impl fl)
  unfolding hmap_get_impl
  hmap_get_impl-Sound ctx args = search (guarded, hmap_arg-Guarded, hash-Guarded)

  pub hmap_contains_impl-Sound : Sound (hmap_contains_impl fl)
  unfolding hmap_contains_impl
  hmap_contains_impl-Sound ctx args = search (guarded, hmap_arg-Guarded, hash-Guarded)

  answer-Guarded : (o : Option Bool) → Safe (answer fl o)
  unfolding answer
  answer-Guarded none = times_out _
  answer-Guarded (some b) = pures _

  pub eq_impl-Sound : Sound (eq_impl fl)
  unfolding eq_impl
  eq_impl-Sound ctx args = search (guarded, answer-Guarded)
