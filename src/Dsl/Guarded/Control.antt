-- ===== src/Dsl/Guarded/Control.antt =====
-- The functions of dsl/func.go that evaluate are guarded if the evaluator is, and an evaluator with
-- more fuel lets them do the same.
use di.Prelude.{not, length, ◌==◌, ℕ, zero, suc, ◌+◌, List, [], ◌∷◌}
use di.Dsl.{Float}
use di.Dsl.Ast.{Ast, nil, cons, Ctx}
use di.Dsl.Guarded.{
  Guarded, pures, binds, guarded, need-Guarded, index-Guarded, raise-Guarded, raise_if-Guarded,
  if-Guarded, traverse-Guarded, fold_left-Guarded, repeat-Guarded,
}
use di.Dsl.Guarded.Pure.{Sound, Safe, list_arg-Guarded, hash-Guarded}
use di.Dsl.Guarded.Labels.{deep_copy-Guarded, new_eval_ctx-Guarded, get_binds-Guarded, bind-Guarded}
use di.Dsl.Func.{to_bool, Builtin, Eval}
use di.Dsl.Func.Control.{
  lambda_impl, parse_bindings, define_value, define_impl, let_bind, let_impl, if_impl, and_impl,
  or_impl, not_impl, apply_impl, module_impl, make_list_impl, hmap_binding, hmap_impl, map_loop,
  map_impl, reduce_list, reduce_impl,
}

module _ {F : Type 0} where
  pub lambda_impl-Sound : Sound {F = F} lambda_impl
  unfolding lambda_impl
  lambda_impl-Sound ctx args = search (guarded, deep_copy-Guarded)

  parse_bindings-Guarded : (asts : List (Ast F)) → Safe (parse_bindings asts)
  unfolding parse_bindings
  parse_bindings-Guarded asts = search guarded

-- Two evaluators, the second with more fuel.
abbrev pub Evals : {F : Type 0} → Eval F → Eval F → Type 1
Evals {F} ev ev' = (ctx : Ctx) (a : Ast F) → Guarded (Ast F) (ev ctx a) (ev' ctx a)

abbrev pub Runs : {F : Type 0} → Builtin F → Builtin F → Type 1
Runs {F} run run' =
    (ctx : Ctx) (args : List (Ast F)) → Guarded (Ast F) (run ctx args) (run' ctx args)

module _ {F : Type 0} (ev ev' : Eval F) (h : Evals ev ev') where
  define_value-Guarded :
      (ctx : Ctx) (a : Ast F) (args : List (Ast F))
      → Guarded _ (define_value ev ctx a args) (define_value ev' ctx a args)
  unfolding define_value
  define_value-Guarded ctx (Ast.sexp nil p) args = raise-Guarded _
  define_value-Guarded ctx (Ast.sexp (cons x xs) p) args = search (guarded, lambda_impl-Sound)
  define_value-Guarded ctx (Ast.ident name) args = search (guarded, h)
  define_value-Guarded ctx _ args = raise-Guarded _

  pub define_impl-Runs : Runs (define_impl ev) (define_impl ev')
  unfolding define_impl
  define_impl-Runs ctx args = binds (index-Guarded args 0) (λ a.
      binds (define_value-Guarded ctx a args) (λ (name, value). binds (get_binds-Guarded ctx) (λ b.
        binds (raise_if-Guarded _ _) (λ _. binds (bind-Guarded ctx name value) (λ _. pures _)))))

  let_bind-Guarded :
      (ctx : Ctx) (b : Ast F × Ast F) → Guarded _ (let_bind ev ctx b) (let_bind ev' ctx b)
  unfolding let_bind
  let_bind-Guarded ctx (k, v) = search (guarded, h, bind-Guarded)

  pub let_impl-Runs : Runs (let_impl ev) (let_impl ev')
  unfolding let_impl
  let_impl-Runs ctx args = binds (index-Guarded args 0) (λ a. binds (need-Guarded _ _) (λ raw.
      binds (parse_bindings-Guarded raw) (λ bindings. binds (new_eval_ctx-Guarded ctx) (λ bind_ctx.
        binds (traverse-Guarded (let_bind-Guarded bind_ctx) bindings) (λ bound. h ctx _)))))

  pub if_impl-Runs : Runs (if_impl ev) (if_impl ev')
  unfolding if_impl
  if_impl-Runs ctx args = binds (index-Guarded args 0) (λ a. binds (h ctx a) (λ pred.
      if-Guarded (to_bool pred) (λ _. binds (index-Guarded args 1) (h ctx))
        (λ _.
          if-Guarded (length args == 2) (λ _. pures _)
            (λ _. binds (index-Guarded args 2) (h ctx)))))

  pub and_impl-Runs : Runs (and_impl ev) (and_impl ev')
  unfolding and_impl
  and_impl-Runs ctx [] = pures _
  and_impl-Runs ctx (a ∷ args) =
      binds (h ctx a)
        (λ pred. if-Guarded (not (to_bool pred)) (λ _. pures _) (λ _. and_impl-Runs ctx args))

  pub or_impl-Runs : Runs (or_impl ev) (or_impl ev')
  unfolding or_impl
  or_impl-Runs ctx [] = pures _
  or_impl-Runs ctx (a ∷ args) =
      binds (h ctx a)
        (λ pred. if-Guarded (to_bool pred) (λ _. pures _) (λ _. or_impl-Runs ctx args))

  pub not_impl-Runs : Runs (not_impl ev) (not_impl ev')
  unfolding not_impl
  not_impl-Runs ctx args = search (guarded, h)

  pub apply_impl-Runs : Runs (apply_impl ev) (apply_impl ev')
  unfolding apply_impl
  apply_impl-Runs ctx args = search (guarded, h, list_arg-Guarded)

  pub module_impl-Runs : Runs (module_impl ev) (module_impl ev')
  unfolding module_impl
  module_impl-Runs ctx args = search (guarded, h)

  pub make_list_impl-Runs : Runs (make_list_impl ev) (make_list_impl ev')
  unfolding make_list_impl
  make_list_impl-Runs ctx args = binds (index-Guarded args 0) (λ a. binds (h ctx a) (λ v.
      binds (need-Guarded _ _) (λ count.
        binds (repeat-Guarded (binds (index-Guarded args 1) (h ctx)) count) (λ elems. pures _))))

  hmap_binding-Guarded :
      (fl : Float F) (ctx : Ctx) (m : List (Ast F × Ast F)) (b : Ast F × Ast F)
      → Guarded _ (hmap_binding ev fl ctx m b) (hmap_binding ev' fl ctx m b)
  unfolding hmap_binding
  hmap_binding-Guarded fl ctx m (k, v) = search (guarded, h, hash-Guarded)

  pub hmap_impl-Runs : (fl : Float F) → Runs (hmap_impl ev fl) (hmap_impl ev' fl)
  unfolding hmap_impl
  hmap_impl-Runs fl ctx args = binds (parse_bindings-Guarded args) (λ bindings.
      binds (fold_left-Guarded (hmap_binding-Guarded fl ctx) [] bindings) (λ m. pures _))

  map_loop-Guarded :
      (n i : ℕ) (ctx : Ctx) (fn : Ast F) (lists : List (List (Ast F)))
      → Guarded _ (map_loop ev n i ctx fn lists) (map_loop ev' n i ctx fn lists)
  unfolding map_loop
  map_loop-Guarded zero i ctx fn lists = pures []
  map_loop-Guarded (suc n) i ctx fn lists =
      search (guarded, h, map_loop-Guarded n (i + 1) ctx fn lists)

  pub map_impl-Runs : Runs (map_impl ev) (map_impl ev')
  unfolding map_impl
  map_impl-Runs ctx args = binds (traverse-Guarded (λ a. need-Guarded _ _) _) (λ lists.
      binds (index-Guarded lists 0) (λ xs. binds (raise_if-Guarded _ _) (λ _.
        binds (index-Guarded args 0)
          (λ fn. binds (map_loop-Guarded _ 0 ctx fn lists) (λ mapped. pures _)))))

  reduce_list-Guarded :
      (ctx : Ctx) (fn : Ast F) (xs : List (Ast F))
      → Guarded _ (reduce_list ev ctx fn xs) (reduce_list ev' ctx fn xs)
  unfolding reduce_list
  reduce_list-Guarded ctx fn [] = raise-Guarded _
  reduce_list-Guarded ctx fn (x ∷ []) = raise-Guarded _
  reduce_list-Guarded ctx fn (x ∷ y ∷ xs) = fold_left-Guarded (λ res item. h ctx _) x (y ∷ xs)

  pub reduce_impl-Runs : Runs (reduce_impl ev) (reduce_impl ev')
  unfolding reduce_impl
  reduce_impl-Runs ctx args = search (guarded, list_arg-Guarded, reduce_list-Guarded)
