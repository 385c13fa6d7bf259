-- ===== src/Dsl/Eval.antt =====
-- dsl/eval.go: the evaluation of syntax trees, and the table of built-in functions of dsl/func.go.
-- An evaluation may not end, so it takes fuel: one unit for each evaluation within another.
use Prim.Native.Char.{code}
use di.Prelude.{
  ℕ, zero, suc, String, Bool, true, false, not, Option, none, some, List, [], ◌∷◌, ◌<>◌, ltb, ◌==◌,
  length, find, if◌then◌else◌,
}
use di.Db.Rows.Less.{int_ltb}
use di.Dsl.Ast.{Ast, Asts, nil, cons, Position, Ctx, of_list, to_list}
use di.Dsl.Store.{
  M, Store, Error, located, message, Outcome, fail, pure, panic, must, need, no_fuel, ◌>>=◌, ◌>>◌,
  map_error, each,
}
use di.Dsl.Store.Actions.{
  global_ctx, deep_copy, new_eval_ctx, get_frame, get_binds, set_binds, bind,
}
use di.Dsl.Func.{Host, Builtin, Eval, raise, raise_if}
use di.Dsl.Func.Ints.{mod_impl, mul_impl, plus_impl, sub_impl, div_impl, compare_fun, range_impl}
use di.Dsl.Func.Lists.{
  list_impl, len_impl, car_impl, cdr_impl, cons_impl, nth_impl, progn_impl, last,
}
use di.Dsl.Func.Hmaps.{
  hmap_set_impl, hmap_get_impl, hmap_contains_impl, hmap_keys_impl, hmap_values_impl,
}
use di.Dsl.Func.Equal.{eq_impl}
use di.Dsl.Func.Labels.{label_impl, label_name_impl, label_host_impl, connect_impl, placement_impl}
use di.Dsl.Func.Atoms.{
  docker_impl, set_env_impl, github_key_impl, plaintext_key_impl, machine_impl,
  machine_attribute_impl, provider_impl, size_impl, role_impl, region_impl, disk_size_impl,
  range_type_impl,
}
use di.Dsl.Func.Control.{
  lambda_impl, log_impl, panic_impl, import_impl, bool_impl, sprintf_impl, define_impl, let_impl,
  if_impl, and_impl, or_impl, not_impl, apply_impl, module_impl, make_list_impl, hmap_impl,
  map_impl, reduce_impl, eval_list,
}

pub record FuncImpl (F : Type 0) : Type 0 where
  pub run : Builtin F
  pub min_args : ℕ
  pub lazy : Bool

module _ {F : Type 0} (host : Host F) where
  abbrev pub eager : Builtin F → ℕ → FuncImpl F
  eager run n = record { run = run; min_args = n; lazy = false }

  abbrev pub lazily : Builtin F → ℕ → FuncImpl F
  lazily run n = record { run = run; min_args = n; lazy = true }

  unfoldable pub func_impl_map : Eval F → List (String × FuncImpl F)
  func_impl_map ev =
      ("!", eager (not_impl ev) 1)
      ∷ ("%", eager mod_impl 2)
      ∷ ("*", eager mul_impl 2)
      ∷ ("+", eager plus_impl 2)
      ∷ ("-", eager sub_impl 2)
      ∷ ("/", eager div_impl 2)
      ∷ ("<", eager (compare_fun int_ltb) 2)
      ∷ ("=", eager (eq_impl host.floats) 2)
      ∷ (">", eager (compare_fun (λ a b. int_ltb b a)) 2)
      ∷ ("and", lazily (and_impl ev) 1)
      ∷ ("apply", eager (apply_impl ev) 2)
      ∷ ("bool", eager bool_impl 1)
      ∷ ("car", eager car_impl 1)
      ∷ ("cdr", eager cdr_impl 1)
      ∷ ("connect", eager connect_impl 3)
      ∷ ("cons", eager cons_impl 2)
      ∷ ("cpu", eager (range_type_impl host.floats "cpu") 1)
      ∷ ("define", lazily (define_impl ev) 2)
      ∷ ("diskSize", eager disk_size_impl 1)
      ∷ ("docker", eager docker_impl 1)
      ∷ ("githubKey", eager github_key_impl 1)
      ∷ ("hmap", lazily (hmap_impl ev host.floats) 0)
      ∷ ("hmapGet", eager (hmap_get_impl host.floats) 2)
      ∷ ("hmapContains", eager (hmap_contains_impl host.floats) 2)
      ∷ ("hmapSet", eager (hmap_set_impl host.floats) 3)
      ∷ ("hmapKeys", eager hmap_keys_impl 1)
      ∷ ("hmapValues", eager hmap_values_impl 1)
      ∷ ("if", lazily (if_impl ev) 2)
      ∷ ("import", lazily import_impl 1)
      ∷ ("label", eager label_impl 2)
      ∷ ("labelName", eager label_name_impl 1)
      ∷ ("labelHost", eager label_host_impl 1)
      ∷ ("lambda", lazily lambda_impl 2)
      ∷ ("let", lazily (let_impl ev) 1)
      ∷ ("len", eager len_impl 1)
      ∷ ("log", eager log_impl 2)
      ∷ ("list", eager list_impl 0)
      ∷ ("machine", eager (machine_impl host.floats) 0)
      ∷ ("machineAttribute", eager machine_attribute_impl 2)
      ∷ ("makeList", lazily (make_list_impl ev) 2)
      ∷ ("map", eager (map_impl ev) 2)
      ∷ ("module", lazily (module_impl ev) 2)
      ∷ ("nth", eager nth_impl 2)
      ∷ ("or", lazily (or_impl ev) 1)
      ∷ ("placement", eager placement_impl 2)
      ∷ ("plaintextKey", eager plaintext_key_impl 1)
      ∷ ("panic", eager panic_impl 1)
      ∷ ("progn", eager progn_impl 1)
      ∷ ("provider", eager provider_impl 1)
      ∷ ("reduce", eager (reduce_impl ev) 2)
      ∷ ("region", eager region_impl 1)
      ∷ ("ram", eager (range_type_impl host.floats "ram") 1)
      ∷ ("range", eager range_impl 1)
      ∷ ("role", eager role_impl 1)
      ∷ ("setEnv", eager (set_env_impl host.floats) 3)
      ∷ ("size", eager size_impl 1)
      ∷ ("sprintf", eager (sprintf_impl host) 1)
      ∷ []

  unfoldable pub lookup_func : Eval F → String → Option (FuncImpl F)
  lookup_func ev name = find name (func_impl_map ev)

  -- `shouldExport`: an empty name gives the replacement character.
  unfoldable pub should_export : String → Bool
  should_export String.[] = host.is_upper 65533
  should_export (String.◌∷◌ c s) = host.is_upper (code c)

  module _ (ev : Eval F) where
    -- A variable is looked up from the innermost frame outwards.
    unfoldable pub lookup_var : String → Ctx → M F (Ast F)
    lookup_var name [] = panic
    lookup_var name (i ∷ []) = do
      fr ← get_frame i
      need (find name fr.binds) "unassigned variable: %s"
    lookup_var name (i ∷ j ∷ parents) = do
      fr ← get_frame i
      let rest = lookup_var name (j ∷ parents)
      elim (find name fr.binds) [ some v ↦ pure v | none ↦ rest ]

    -- A built-in function is its own name.
    abbrev pub ident_or : Option (FuncImpl F) → String → M F (Ast F) → M F (Ast F)
    ident_or (some fn) name m = pure (Ast.ident name)
    ident_or none name m = m

    unfoldable pub eval_ident : String → Ctx → M F (Ast F)
    eval_ident name ctx = ident_or (lookup_func ev name) name (lookup_var name ctx)

    unfoldable pub bind_args : Ctx → Ctx → List String → List (Ast F) → M F (Unit {0})
    bind_args parent fn_ctx (name ∷ names) (a ∷ args) = do
      value ← ev parent a
      bind fn_ctx name value
      bind_args parent fn_ctx names args
    bind_args parent fn_ctx _ _ = pure tt

    -- The arguments are evaluated once more, in the context of the definition.
    unfoldable pub eval_lambda : List String → List (Ast F) → Ctx → List (Ast F) → M F (Ast F)
    eval_lambda names body parent args = do
      raise_if (not (length names == length args)) "bad number of arguments: %s %s"
      fn_ctx ← new_eval_ctx parent
      bind_args parent fn_ctx names args
      results ← eval_list ev fn_ctx body
      last results

    abbrev pub arguments : Bool → Ctx → List (Ast F) → M F (List (Ast F))
    arguments true ctx args = pure args
    arguments false ctx args = eval_list ev ctx args

    unfoldable pub run_func : Ctx → List (Ast F) → FuncImpl F → M F (Ast F)
    run_func ctx args fn = do
      raise_if (ltb (length args) fn.min_args) "not enough arguments: %s"
      vals ← arguments fn.lazy ctx args
      fn.run ctx vals

    -- The call of what the first element of an S-expression is.
    unfoldable pub call : Ctx → Ast F → List (Ast F) → M F (Ast F)
    call ctx (Ast.ident name) args = do fn ← must (lookup_func ev name); run_func ctx args fn
    call ctx (Ast.lambda names body parent) args = do
      vals ← eval_list ev ctx args
      eval_lambda names (to_list body) parent vals
    call ctx _ args = raise "S-expressions must start with a function call: %s"

    abbrev pub unknown_function : Position → Ast F → Error → Error
    unknown_function p (Ast.ident name) e = located p (message "unknown function: %s")
    unknown_function p _ e = e

    unfoldable pub eval_sexp : Ctx → Asts F → Position → M F (Ast F)
    eval_sexp ctx nil p =
        fail (located p (message "S-expressions must start with a function call: %s"))
    eval_sexp ctx (cons f args) p = do
      first ← map_error (unknown_function p f) (ev ctx f)
      map_error (located p) (call ctx first (to_list args))

    unfoldable pub export : Ctx → String → String × Ast F → M F (Unit {0})
    export ctx name (k, v) = if should_export k then bind ctx (name <> "." <> k) v else pure tt

    -- A module sees the built-in functions and the global tables, but no variable.
    unfoldable pub eval_module : Ctx → String → Asts F → M F (Ast F)
    eval_module ctx name body = do
      g ← global_ctx ctx
      copy ← deep_copy g
      set_binds copy []
      import_ctx ← new_eval_ctx copy
      res ← eval_list ev import_ctx (to_list body)
      binds ← get_binds import_ctx
      each (export ctx name) binds
      pure (Ast.module_ast name (of_list res))

    -- The `eval` method of each kind of syntax tree.
    unfoldable pub eval_step : Eval F
    eval_step ctx (Ast.ident name) = eval_ident name ctx
    eval_step ctx (Ast.sexp xs p) = eval_sexp ctx xs p
    eval_step ctx (Ast.module_ast name body) = eval_module ctx name body
    eval_step ctx Ast.nil_list = pure (Ast.list nil)
    eval_step ctx (Ast.list xs) = do
      vals ← eval_list ev ctx (to_list xs)
      pure (Ast.list (of_list vals))
    eval_step ctx (Ast.root xs) = do
      vals ← eval_list ev ctx (to_list xs)
      pure (Ast.root (of_list vals))
    eval_step ctx a = pure a

  unfoldable pub eval_fuel : ℕ → Eval F
  eval_fuel zero ctx a = no_fuel
  eval_fuel (suc fuel) ctx a = eval_step (eval_fuel fuel) ctx a

abbrev pub empty_store : {F : Type 0} → Store F
empty_store = record { frames = []; shareds = []; machines = []; containers = [] }

-- `eval`: the global context is a new one.
unfoldable pub eval : {F : Type 0} → Host F → ℕ → Ast F → Outcome (Store F) (Ast F × Ctx)
eval {F} host fuel parsed =
    let run : M F (Ast F × Ctx) =
      (new_eval_ctx [] >>= λ ctx. eval_fuel host fuel ctx parsed >>= λ a. pure (a, ctx)) in
    run empty_store
