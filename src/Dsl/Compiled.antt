-- ===== src/Dsl/Compiled.antt =====
-- What holds of every policy that dsl/eval.go evaluates, whatever its text.
use di.Prelude.{
  ℕ, zero, suc, ◌<◌, String, Option, none, some, List, [], ◌∷◌, ◌≡◌, inl, inr, refl, subst, arith,
  All, get_elem?, length, Option-cases, some-injective, none≢some,
}
use di.Dsl.{DslContainer}
use di.Dsl.Ast.{Ast, Ctx}
use di.Dsl.Store.{Frame, Shared, AstContainer, Store, Outcome, ok}
use di.Dsl.Eval.{eval, empty_store}
use di.Dsl.Func.{Host, as_string}
use di.Dsl.Query.{
  handle_shared, frame_shared, global_frame, table_or, no_tables, strings_of, env_of,
  query_container, query_listed, query_containers, query_connections,
}
use di.Dsl.Guarded.{Connectable, IsString, binds, pures}
use di.Dsl.Guarded.Labels.{new_eval_ctx-Guarded}
use di.Dsl.Guarded.Run.{eval_fuel-Evals}
use di.Dsl.Guarded.Keeps.{
  LabelEntry, EnvEntry, SharedSound, ContainerSound, StoreSound, Listed, Returned, Guarded-Returned,
}

get_elem?-All :
    {A : Type 0} (P : A → Type 0) (xs : List A) (i : ℕ) (x : A)
    → All P xs
    → get_elem? xs i ≡ some x
    → P x
get_elem?-All P [] i x h e = absurd (none≢some e)
get_elem?-All P (y ∷ ys) zero x (a, h) e = subst P (some-injective e) a
get_elem?-All P (y ∷ ys) (suc i) x (a, h) e = get_elem?-All P ys i x h e

get_elem?-total :
    {A : Type 0} (xs : List A) (i : ℕ) → i < length xs → (x : A) × (get_elem? xs i ≡ some x)
get_elem?-total [] i lt = absurd (omega arith)
get_elem?-total (x ∷ xs) zero lt = (x, refl)
get_elem?-total (x ∷ xs) (suc i) lt = get_elem?-total xs i (omega arith)

Returned-ok :
    {F A : Type 0} (o : Outcome (Store F) A) (a : A) (st : Store F)
    → o ≡ ok a st
    → Returned o
    → StoreSound st
Returned-ok o a st e r = subst Returned e r

module _ {F : Type 0} (host : Host F) where
  pub eval-StoreSound :
      (fuel : ℕ) (parsed v : Ast F) (ctx : Ctx) (st : Store F)
      → eval host fuel parsed ≡ ok (v, ctx) st
      → StoreSound st
  unfolding eval
  eval-StoreSound fuel parsed v ctx st e =
      Returned-ok _ (v, ctx) st e
        (Guarded-Returned
          (binds (new_eval_ctx-Guarded []) (λ c.
            binds (eval_fuel-Evals host fuel fuel (omega arith) c parsed) (λ a. pures (a, c))))
          empty_store (record { shareds = tt; containers = tt; listed = tt }))

strings_of-total :
    {F : Type 0} (xs : List (Ast F))
    → All IsString xs
    → (ss : List String) × (strings_of xs ≡ some ss)
unfolding strings_of as_string
strings_of-total [] h = ([], refl)
strings_of-total (x ∷ xs) ((s, e), h) =
    let (ss, p) = strings_of-total xs h in (s ∷ ss, rw e (rw p refl))

env_of-total :
    {F : Type 0} (m : List (Ast F × Ast F))
    → All EnvEntry m
    → (env : List (String × String)) × (env_of m ≡ some env)
unfolding env_of as_string
env_of-total [] h = ([], refl)
env_of-total ((k, v) ∷ m) (((s, e), (t, f)), h) =
    let (env, p) = env_of-total m h in ((s, t) ∷ env, rw e (rw f (rw p refl)))

abbrev TableSound : ℕ → Shared → Type 0
TableSound n sh = SharedSound sh × Listed n sh

no_tables-Sound : (n : ℕ) → TableSound n no_tables
no_tables-Sound n = (record { connections = tt; labels = tt }, tt)

module _ {F : Type 0} (st : Store F) (s : StoreSound st) where
  table_or-Sound : (i : ℕ) → TableSound (length st.containers) (table_or (get_elem? st.shareds i))
  table_or-Sound i = elim (Option-cases (get_elem? st.shareds i)) [
    | inl e ↦ rw e (no_tables-Sound (length st.containers))
    | inr (sh, e) ↦ rw e (
      get_elem?-All SharedSound st.shareds i sh s.shareds e,
      get_elem?-All (Listed (length st.containers)) st.shareds i sh s.listed e,
    )
  ]

  frame_shared-Sound :
      (ctx : Ctx) (o : Option (Frame F)) → TableSound (length st.containers) (frame_shared ctx st o)
  frame_shared-Sound ctx none = no_tables-Sound (length st.containers)
  frame_shared-Sound ctx (some fr) = table_or-Sound fr.shared

  handle_shared-Sound : (ctx : Ctx) → TableSound (length st.containers) (handle_shared ctx st)
  unfolding handle_shared
  handle_shared-Sound ctx = frame_shared-Sound ctx (global_frame ctx st ctx)

  query_container-total :
      (c : AstContainer F) → ContainerSound c → (d : DslContainer) × (query_container c ≡ some d)
  unfolding query_container
  query_container-total c h =
      let (ss, p) = strings_of-total c.command h.command in
      let (env, q) = env_of-total c.env h.env in
      (
        record {
          image = c.image;
          command = ss;
          env = env;
          exclusive = c.exclusive;
          labels = c.labels;
        },
        rw p (rw q refl),
      )

  query_listed-total :
      (ctx : Ctx) (is : List ℕ)
      → All (λ i. i < length st.containers) is
      → (ds : List DslContainer) × (query_listed ctx st is ≡ some ds)
  unfolding query_listed
  query_listed-total ctx [] h = ([], refl)
  query_listed-total ctx (i ∷ is) (lt, h) =
      let (c, e) = get_elem?-total st.containers i lt in
      let (d, p) =
        query_container-total c (get_elem?-All ContainerSound st.containers i c s.containers e) in
      let (ds, q) = query_listed-total ctx is h in (d ∷ ds, rw e (rw p (rw q refl)))

module _ {F : Type 0} (host : Host F) (fuel : ℕ) (parsed v : Ast F) (ctx : Ctx) (st : Store F)
    (e : eval host fuel parsed ≡ ok (v, ctx) st) where
  -- Whatever a policy says, each of its connections has ports in order between 0 and 65535, and one
  -- with the public internet has the internet on one side only and a single port.
  pub eval-query_connections : All Connectable (query_connections ctx st)
  unfolding query_connections
  eval-query_connections =
      (handle_shared-Sound st (eval-StoreSound host fuel parsed v ctx st e) ctx).0.connections

  -- No label of a policy is called as the public internet, and each is stored under its name.
  pub eval-labels : All LabelEntry (handle_shared ctx st).labels
  eval-labels = (handle_shared-Sound st (eval-StoreSound host fuel parsed v ctx st e) ctx).0.labels

  -- The query of the containers of a policy that was evaluated does not panic: the commands and the
  -- environments hold nothing but strings, though every value of the language can be written there.
  pub eval-query_containers : (cs : List DslContainer) × (query_containers ctx st ≡ some cs)
  unfolding query_containers
  eval-query_containers =
      let s = eval-StoreSound host fuel parsed v ctx st e in
      query_listed-total st s ctx _ (handle_shared-Sound st s ctx).1
