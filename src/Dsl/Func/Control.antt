-- ===== src/Dsl/Func/Control.antt =====
-- dsl/func.go: the functions that bind names, branch or evaluate. `ev` is `eval`.
use di.Prelude.{
  ℕ, zero, suc, ◌+◌, String, Bool, true, false, not, ◌||◌, Option, none, some, List, [], ◌∷◌, map,
  ℤ, pos, str_eq, ltb, ◌==◌, length, find, if◌then◌else◌,
}
use di.Dsl.{Float}
use di.Dsl.Ast.{Ast, nil, cons, Ctx, no_position, of_list, of_slice}
use di.Dsl.Store.{M, pure, need, gets, ◌>>=◌, ◌>>◌, traverse, fold_left, index, repeat}
use di.Dsl.Store.Actions.{deep_copy, new_eval_ctx, get_binds, bind, put_key}
use di.Dsl.Func.{
  Host, Builtin, Eval, as_ident, as_string, as_int, as_list, as_sexp, to_bool, string_arg, list_arg,
  drop, raise, raise_if, of_pairs,
}
use di.Dsl.Func.Hmaps.{hash, is_some}

module _ {F : Type 0} where
  -- `lambda`: the context is copied, so what is bound later is not seen.
  unfoldable pub lambda_impl : Builtin F
  lambda_impl ctx args = do
    a ← index args 0
    raw ← need (as_sexp a) "lambda functions must define an argument list"
    names ← traverse (λ x. need (as_ident x) "lambda argument names must be idents") raw
    copy ← deep_copy ctx
    pure (Ast.lambda names (of_list (drop 1 args)) copy)

  abbrev two_of : Option (List (Ast F)) → Option (Ast F × Ast F)
  two_of (some (a ∷ b ∷ [])) = some (a, b)
  two_of _ = none

  unfoldable pub parse_bindings : List (Ast F) → M F (List (Ast F × Ast F))
  parse_bindings asts =
      traverse (λ a. need (two_of (as_sexp a)) "binds must be exactly 2 arguments: %s") asts

  unfoldable pub log_impl : Builtin F
  log_impl ctx args = do
    level ← string_arg args 0 "log level must be a string: %s"
    msg ← string_arg args 1 "log message must be a string: %s"
    if str_eq level "print"
          || str_eq level "debug"
          || str_eq level "info"
          || str_eq level "warn"
          || str_eq level "error"
        then pure (Ast.list nil)
        else raise "log level must be one of [print, info, debug, warn, error]: %s"

  -- The error for a message that is no text prints `args[1]`.
  unfoldable pub bad_message : List (Ast F) → M F (Ast F)
  bad_message args = do a ← index args 1; raise "panic message must be a string: %s"

  abbrev pub panic_with : Option String → List (Ast F) → M F (Ast F)
  panic_with (some text) args = raise "panic: runtime error: %s"
  panic_with none args = bad_message args

  unfoldable pub panic_impl : Builtin F
  panic_impl ctx args = do a ← index args 0; panic_with (as_string a) args

  unfoldable pub import_impl : Builtin F
  import_impl ctx args = raise "import must be begin the module"

  unfoldable pub bool_impl : Builtin F
  bool_impl ctx args = do a ← index args 0; pure (Ast.bool (to_bool a))

  unfoldable pub sprintf_impl : Host F → Builtin F
  sprintf_impl host ctx args = do
    format ← string_arg args 0 "sprintf format must be a string: %s"
    text ← gets (host.sprintf format (drop 1 args))
    pure (Ast.string text)

module _ {F : Type 0} (ev : Eval F) where
  abbrev pub eval_list : Ctx → List (Ast F) → M F (List (Ast F))
  eval_list ctx args = traverse (ev ctx) args

  -- `S.eval(ctx)` for an S-expression that the code builds
  abbrev pub eval_call : Ctx → List (Ast F) → M F (Ast F)
  eval_call ctx xs = ev ctx (Ast.sexp (of_list xs) no_position)

  -- The name and the value that `define` binds.
  unfoldable pub define_value : Ctx → Ast F → List (Ast F) → M F (String × Ast F)
  define_value ctx (Ast.sexp nil p) args = raise "define function must begin with a name"
  define_value ctx (Ast.sexp (cons x xs) p) args = do
    name ← need (as_ident x) "define name must be an ident: %v"
    fn ← lambda_impl ctx (Ast.sexp xs no_position ∷ drop 1 args)
    pure (name, fn)
  define_value ctx (Ast.ident name) args = do
    raise_if (ltb 2 (length args)) "not enough arguments: %s"
    a ← index args 1
    value ← ev ctx a
    pure (name, value)
  define_value ctx _ args = raise "define name must be an ident: %v"

  unfoldable pub define_impl : Builtin F
  define_impl ctx args = do
    a ← index args 0
    (name, value) ← define_value ctx a args
    binds ← get_binds ctx
    raise_if (is_some (find name binds)) "attempt to redefine: \"%s\""
    bind ctx name value
    pure (Ast.list nil)

  -- One binding of `let`, seen by the next ones.
  unfoldable pub let_bind : Ctx → Ast F × Ast F → M F (String × Ast F)
  let_bind bind_ctx (key, val) = do
    name ← need (as_ident key) "bind name must be an ident: %s"
    value ← ev bind_ctx val
    bind bind_ctx name value
    pure (name, value)

  -- A let without a body has the empty list as its body.
  abbrev let_body : List (Ast F) → List (Ast F)
  let_body [] = Ast.list nil ∷ []
  let_body (x ∷ xs) = x ∷ xs

  unfoldable pub let_impl : Builtin F
  let_impl ctx args = do
    a ← index args 0
    raw ← need (as_sexp a) "let binds must be defined in an S-expression"
    bindings ← parse_bindings raw
    bind_ctx ← new_eval_ctx ctx
    bound ← traverse (let_bind bind_ctx) bindings
    let names = map (λ (b : String × Ast F). b.0) bound
    let vals = map (λ (b : String × Ast F). b.1) bound
    eval_call ctx (Ast.lambda names (of_list (let_body (drop 1 args))) ctx ∷ vals)

  unfoldable pub if_impl : Builtin F
  if_impl ctx args = do
    a ← index args 0
    pred ← ev ctx a
    if to_bool pred
        then (index args 1 >>= ev ctx)
        else if length args == 2
        then pure (Ast.list nil)
        else (index args 2 >>= ev ctx)

  unfoldable pub and_impl : Builtin F
  and_impl ctx [] = pure (Ast.bool true)
  and_impl ctx (a ∷ args) = do
    pred ← ev ctx a
    let rest = and_impl ctx args
    if not (to_bool pred) then pure (Ast.bool false) else rest

  unfoldable pub or_impl : Builtin F
  or_impl ctx [] = pure (Ast.bool false)
  or_impl ctx (a ∷ args) = do
    pred ← ev ctx a
    let rest = or_impl ctx args
    if to_bool pred then pure (Ast.bool true) else rest

  unfoldable pub not_impl : Builtin F
  not_impl ctx args = do a ← index args 0; pred ← ev ctx a; pure (Ast.bool (not (to_bool pred)))

  unfoldable pub apply_impl : Builtin F
  apply_impl ctx args = do
    xs ← list_arg args 1 "apply requires a lists: %s"
    fn ← index args 0
    eval_call ctx (fn ∷ xs)

  unfoldable pub module_impl : Builtin F
  module_impl ctx args = do
    a ← index args 0
    v ← ev ctx a
    name ← need (as_string v) "module name must be a string: %s"
    ev ctx (Ast.module_ast name (of_list (drop 1 args)))

  -- The argument of `makeList` that counts, `none` if it is negative.
  abbrev count_of : Option ℤ → Option ℕ
  count_of (some (pos n)) = some n
  count_of _ = none

  unfoldable pub make_list_impl : Builtin F
  make_list_impl ctx args = do
    a ← index args 0
    v ← ev ctx a
    count ← need (count_of (as_int v)) "makeList must begin with a positive integer, found: %s"
    elems ← repeat count (index args 1 >>= ev ctx)
    pure (of_slice elems)

  unfoldable pub hmap_binding :
      Float F → Ctx → List (Ast F × Ast F) → Ast F × Ast F → M F (List (Ast F × Ast F))
  hmap_binding fl ctx m (k, v) = do
    key ← ev ctx k
    val ← ev ctx v
    hash key
    pure (put_key fl key val m)

  unfoldable pub hmap_impl : Float F → Builtin F
  hmap_impl fl ctx args = do
    bindings ← parse_bindings args
    m ← fold_left (hmap_binding fl ctx) [] bindings
    pure (Ast.hmap (of_pairs m))

  abbrev pub unbalanced : ℕ → List (List (Ast F)) → Bool
  unbalanced n [] = false
  unbalanced n (xs ∷ lists) = not (length xs == n) || unbalanced n lists

  -- `for i := 0; i < listLen; i++`, from `i` on.
  unfoldable pub map_loop : ℕ → ℕ → Ctx → Ast F → List (List (Ast F)) → M F (List (Ast F))
  map_loop zero i ctx fn lists = pure []
  map_loop (suc n) i ctx fn lists = do
    column ← traverse (λ xs. index xs i) lists
    elem ← eval_call ctx (fn ∷ column)
    elems ← map_loop n (i + 1) ctx fn lists
    pure (elem ∷ elems)

  unfoldable pub map_impl : Builtin F
  map_impl ctx args = do
    lists ← traverse (λ a. need (as_list a) "map applies to list: %s") (drop 1 args)
    xs ← index lists 0
    raise_if (unbalanced (length xs) lists) "unbalanced lists"
    fn ← index args 0
    mapped ← map_loop (length xs) 0 ctx fn lists
    pure (of_slice mapped)

  abbrev pub reduce_step : Ctx → Ast F → Ast F → Ast F → M F (Ast F)
  reduce_step ctx fn res item = eval_call ctx (fn ∷ res ∷ item ∷ [])

  unfoldable pub reduce_list : Ctx → Ast F → List (Ast F) → M F (Ast F)
  reduce_list ctx fn (x ∷ y ∷ xs) = fold_left (reduce_step ctx fn) x (y ∷ xs)
  reduce_list ctx fn _ = raise "not enough elements to reduce: %s"

  unfoldable pub reduce_impl : Builtin F
  reduce_impl ctx args = do
    xs ← list_arg args 1 "reduce applies to lists: %s"
    fn ← index args 0
    reduce_list ctx fn xs
