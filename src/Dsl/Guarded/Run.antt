-- ===== src/Dsl/Guarded/Run.antt =====
-- dsl/eval.go is guarded, and gives the same answer with more fuel.
use di.Prelude.{
  ℕ, zero, suc, ◌≤◌, String, Bool, true, false, Option, none, some, List, [], ◌∷◌, ◌≡◌, arith, find,
}
use di.Dsl.Ast.{Ast, Asts, nil, cons, Ctx, Position, to_list}
use di.Dsl.Store.{M, pure, panic, must, ◌>>=◌}
use di.Dsl.Func.{Host, Eval}
use di.Dsl.Eval.{
  FuncImpl, lookup_func, lookup_var, ident_or, run_func, eval_ident, bind_args, eval_lambda,
  arguments, call, eval_sexp, should_export, export, eval_module, eval_step, eval_fuel,
}
use di.Dsl.Guarded.{
  Guarded, pures, fails, panics, binds, maps_error, times_out, need-Guarded, raise-Guarded,
  raise_if-Guarded, if-Guarded, option-Guarded, each-Guarded, traverse-Guarded,
}
use di.Dsl.Guarded.Pure.{last-Guarded}
use di.Dsl.Guarded.Labels.{
  get_frame-Guarded, global_ctx-Guarded, deep_copy-Guarded, new_eval_ctx-Guarded, get_binds-Guarded,
  set_binds-Guarded, bind-Guarded,
}
use di.Dsl.Guarded.Control.{Evals, Runs}
use di.Dsl.Guarded.Table.{Similar, lookup_func-Similar}

module _ {F : Type 0} (host : Host F) (ev ev' : Eval F) (h : Evals ev ev') where
  lookup_var-Guarded :
      (name : String) (ctx : Ctx)
      → Guarded _ (lookup_var host ev name ctx) (lookup_var host ev' name ctx)
  unfolding lookup_var
  lookup_var-Guarded name [] = panics
  lookup_var-Guarded name (i ∷ []) = binds (get_frame-Guarded i) (λ fr. need-Guarded _ _)
  lookup_var-Guarded name (i ∷ j ∷ is) =
      binds (get_frame-Guarded i) (λ fr.
        option-Guarded (find name fr.binds) (lookup_var-Guarded name (j ∷ is)) (λ v. pures v))

  ident_or-Guarded :
      (o p : Option (FuncImpl F)) (name : String) {m n : M F (Ast F)}
      → Similar o p
      → Guarded _ m n
      → Guarded _ (ident_or host ev o name m) (ident_or host ev' p name n)
  ident_or-Guarded none none name s g = g
  ident_or-Guarded (some f) (some k) name s g = pures _
  ident_or-Guarded none (some k) name s g = absurd s.1
  ident_or-Guarded (some f) none name s g = absurd s.1

  eval_ident-Guarded :
      (name : String) (ctx : Ctx)
      → Guarded _ (eval_ident host ev name ctx) (eval_ident host ev' name ctx)
  unfolding eval_ident
  eval_ident-Guarded name ctx =
      ident_or-Guarded (lookup_func host ev name) (lookup_func host ev' name) name
        (lookup_func-Similar host ev ev' h name) (lookup_var-Guarded name ctx)

  bind_args-Guarded :
      (parent fn_ctx : Ctx) (names : List String) (args : List (Ast F))
      → Guarded _
          (bind_args host ev parent fn_ctx names args)
          (bind_args host ev' parent fn_ctx names args)
  unfolding bind_args
  bind_args-Guarded parent fn_ctx [] args = pures _
  bind_args-Guarded parent fn_ctx (x ∷ names) [] = pures _
  bind_args-Guarded parent fn_ctx (x ∷ names) (a ∷ args) =
      binds (h parent a)
        (λ v. binds (bind-Guarded fn_ctx x v) (λ _. bind_args-Guarded parent fn_ctx names args))

  eval_lambda-Guarded :
      (names : List String) (body : List (Ast F)) (parent : Ctx) (args : List (Ast F))
      → Guarded _
          (eval_lambda host ev names body parent args)
          (eval_lambda host ev' names body parent args)
  unfolding eval_lambda
  eval_lambda-Guarded names body parent args = binds (raise_if-Guarded _ _) (λ _.
      binds (new_eval_ctx-Guarded parent) (λ fn_ctx.
        binds (bind_args-Guarded parent fn_ctx names args)
          (λ _. binds (traverse-Guarded (h fn_ctx) body) last-Guarded)))

  arguments-Guarded :
      (lazy : Bool) (ctx : Ctx) (args : List (Ast F))
      → Guarded _ (arguments host ev lazy ctx args) (arguments host ev' lazy ctx args)
  arguments-Guarded true ctx args = pures args
  arguments-Guarded false ctx args = traverse-Guarded (h ctx) args

  run_same :
      (ctx : Ctx) (args : List (Ast F)) (f k : FuncImpl F)
      → Runs f.run k.run
      → f.min_args ≡ k.min_args
      → f.lazy ≡ k.lazy
      → Guarded _ (run_func host ev ctx args f) (run_func host ev' ctx args k)
  unfolding run_func
  run_same ctx args f k r a l =
      rw (a, l)
        (binds (raise_if-Guarded _ _) (λ _. binds (arguments-Guarded k.lazy ctx args) (r ctx)))

  run_func-Guarded :
      (ctx : Ctx) (args : List (Ast F)) (o p : Option (FuncImpl F))
      → Similar o p
      → Guarded _ (must o >>= run_func host ev ctx args) (must p >>= run_func host ev' ctx args)
  unfolding must ◌>>=◌ panic pure
  run_func-Guarded ctx args none none s = panics
  run_func-Guarded ctx args none (some k) s = absurd s.1
  run_func-Guarded ctx args (some f) none s = absurd s.1
  run_func-Guarded ctx args (some f) (some k) (r, a, l) = run_same ctx args f k r a l

  call-Guarded :
      (ctx : Ctx) (f : Ast F) (args : List (Ast F))
      → Guarded _ (call host ev ctx f args) (call host ev' ctx f args)
  unfolding call
  call-Guarded ctx (Ast.ident name) args =
      run_func-Guarded ctx args (lookup_func host ev name) (lookup_func host ev' name)
        (lookup_func-Similar host ev ev' h name)
  call-Guarded ctx (Ast.lambda names body parent) args =
      binds (traverse-Guarded (h ctx) args) (λ vals. eval_lambda-Guarded names _ parent vals)
  call-Guarded ctx _ args = raise-Guarded _

  eval_sexp-Guarded :
      (ctx : Ctx) (xs : Asts F) (p : Position)
      → Guarded _ (eval_sexp host ev ctx xs p) (eval_sexp host ev' ctx xs p)
  unfolding eval_sexp
  eval_sexp-Guarded ctx nil p = fails _
  eval_sexp-Guarded ctx (cons f args) p =
      binds (maps_error _ (h ctx f)) (λ first. maps_error _ (call-Guarded ctx first (to_list args)))

  export-Guarded :
      (ctx : Ctx) (name : String) (b : String × Ast F)
      → Guarded _ (export host ev ctx name b) (export host ev' ctx name b)
  unfolding export
  export-Guarded ctx name (k, v) =
      if-Guarded (should_export host k) (λ _. bind-Guarded _ _ _) (λ _. pures _)

  eval_module-Guarded :
      (ctx : Ctx) (name : String) (body : Asts F)
      → Guarded _ (eval_module host ev ctx name body) (eval_module host ev' ctx name body)
  unfolding eval_module
  eval_module-Guarded ctx name body = binds (global_ctx-Guarded ctx) (λ g.
      binds (deep_copy-Guarded g) (λ copy. binds (set_binds-Guarded copy []) (λ _.
        binds (new_eval_ctx-Guarded copy) (λ import_ctx.
          binds (traverse-Guarded (h import_ctx) _) (λ res.
            binds (get_binds-Guarded import_ctx)
              (λ bs. binds (each-Guarded (export-Guarded ctx name) bs) (λ _. pures _)))))))

  eval_step-Evals : Evals (eval_step host ev) (eval_step host ev')
  unfolding eval_step
  eval_step-Evals ctx (Ast.ident name) = eval_ident-Guarded name ctx
  eval_step-Evals ctx (Ast.sexp xs p) = eval_sexp-Guarded ctx xs p
  eval_step-Evals ctx (Ast.module_ast name body) = eval_module-Guarded ctx name body
  eval_step-Evals ctx Ast.nil_list = pures _
  eval_step-Evals ctx (Ast.list xs) = binds (traverse-Guarded (h ctx) _) (λ vals. pures _)
  eval_step-Evals ctx (Ast.root xs) = binds (traverse-Guarded (h ctx) _) (λ vals. pures _)
  eval_step-Evals ctx _ = pures _

pub eval_fuel-Evals :
    {F : Type 0} (host : Host F) (k n : ℕ) → k ≤ n → Evals (eval_fuel host k) (eval_fuel host n)
unfolding eval_fuel
eval_fuel-Evals host zero n le ctx a = times_out _
eval_fuel-Evals host (suc k) zero le ctx a = absurd (omega arith)
eval_fuel-Evals host (suc k) (suc n) le ctx a =
    eval_step-Evals host (eval_fuel host k) (eval_fuel host n)
      (eval_fuel-Evals host k n (omega arith)) ctx a
