-- ===== src/Dsl/Store/Actions.antt =====
-- The actions of dsl/eval.go and dsl/func.go on the objects that are shared by pointers.
use di.Prelude.{
  ℕ, String, Bool, ◌&&◌, Option, none, some, List, [], ◌∷◌, ◌++◌, str_eq, int_eq, put, get_elem?,
  set, length, if◌then◌else◌,
}
use di.Dsl.{Float, DslConnection}
use di.Dsl.Ast.{Ast, Ctx, AstLabel, key_eq}
use di.Dsl.Store.{
  Frame, Shared, AstMachine, AstContainer, ok, panicked, M, pure, panic, must, gets, ◌>>=◌,
}

abbrev pub no_shared : Shared
no_shared = record { labels = []; connections = []; machines = []; containers = [] }

-- `==` on `Connection`
unfoldable pub connection_eq : DslConnection → DslConnection → Bool
connection_eq a b =
    str_eq a.from b.from
    && str_eq a.to b.to
    && int_eq a.min_port b.min_port
    && int_eq a.max_port b.max_port

unfoldable pub add_to_set : DslConnection → List DslConnection → List DslConnection
unfolding connection_eq
add_to_set c [] = c ∷ []
add_to_set c (d ∷ ds) = let rest = add_to_set c ds in if connection_eq d c then d ∷ ds else d ∷ rest

-- `m[key]` and `m[key] = value` at hashable keys.
module _ {F : Type 0} (fl : Float F) where
  unfoldable pub find_key : Ast F → List (Ast F × Ast F) → Option (Ast F)
  unfolding key_eq
  find_key k [] = none
  find_key k ((j, v) ∷ m) = let rest = find_key k m in if key_eq fl j k then some v else rest

  unfoldable pub put_key : Ast F → Ast F → List (Ast F × Ast F) → List (Ast F × Ast F)
  unfolding key_eq
  put_key k v [] = (k, v) ∷ []
  put_key k v ((j, w) ∷ m) =
      let rest = put_key k v m in if key_eq fl j k then (j, v) ∷ m else (j, w) ∷ rest

abbrev pub put_container :
    {F : Type 0} → ℕ → (AstContainer F → AstContainer F) → Option (AstContainer F) → M F (Unit {0})
put_container i f none st = panicked
put_container i f (some c) st = ok tt (record st { containers = set st.containers i (f c) })

abbrev pub put_shared : {F : Type 0} → ℕ → (Shared → Shared) → Option Shared → M F (Unit {0})
put_shared i f none st = panicked
put_shared i f (some sh) st = ok tt (record st { shareds = set st.shareds i (f sh) })

-- The actions that change the store.
module _ {F : Type 0} where
  -- `&evalCtx{...}`
  unfoldable pub alloc_frame : Frame F → M F ℕ
  alloc_frame fr st = ok (length st.frames) (record st { frames = st.frames ++ (fr ∷ []) })

  unfoldable pub alloc_shared : M F ℕ
  alloc_shared st = ok (length st.shareds) (record st { shareds = st.shareds ++ (no_shared ∷ []) })

  unfoldable pub set_frame : ℕ → Frame F → M F (Unit {0})
  set_frame i fr st = ok tt (record st { frames = set st.frames i fr })

  unfoldable pub modify_shared : ℕ → (Shared → Shared) → M F (Unit {0})
  modify_shared i f st = put_shared i f (get_elem? st.shareds i) st

  unfoldable pub add_label : ℕ → String → AstLabel → M F (Unit {0})
  add_label i name l = modify_shared i (λ sh. record sh { labels = put name l sh.labels })

  unfoldable pub add_connection : ℕ → DslConnection → M F (Unit {0})
  add_connection i c =
      modify_shared i (λ sh. record sh { connections = add_to_set c sh.connections })

  unfoldable pub list_machine : ℕ → ℕ → M F (Unit {0})
  list_machine i p = modify_shared i (λ sh. record sh { machines = sh.machines ++ (p ∷ []) })

  unfoldable pub list_container : ℕ → ℕ → M F (Unit {0})
  list_container i p = modify_shared i (λ sh. record sh { containers = sh.containers ++ (p ∷ []) })

  unfoldable pub alloc_machine : AstMachine F → M F ℕ
  alloc_machine m st = ok (length st.machines) (record st { machines = st.machines ++ (m ∷ []) })

  unfoldable pub set_machine : ℕ → AstMachine F → M F (Unit {0})
  set_machine i m st = ok tt (record st { machines = set st.machines i m })

  unfoldable pub alloc_container : AstContainer F → M F ℕ
  alloc_container c st =
      ok (length st.containers) (record st { containers = st.containers ++ (c ∷ []) })

  unfoldable pub modify_container : ℕ → (AstContainer F → AstContainer F) → M F (Unit {0})
  modify_container i f st = put_container i f (get_elem? st.containers i) st

  -- `c.env[key] = value`
  unfoldable pub set_env : Float F → ℕ → Ast F → Ast F → M F (Unit {0})
  set_env fl i key value = modify_container i (λ c. record c { env = put_key fl key value c.env })

  unfoldable pub set_exclusive : ℕ → List (String × String) → M F (Unit {0})
  set_exclusive i pairs = modify_container i (λ c. record c { exclusive = pairs })

  unfoldable pub set_container_labels : ℕ → List String → M F (Unit {0})
  set_container_labels i ls = modify_container i (λ c. record c { labels = ls })

-- The frame of a context, and the steps up its chain.
module _ {F : Type 0} where
  unfoldable pub head_frame : Ctx → M F ℕ
  head_frame [] = panic
  head_frame (i ∷ parents) = pure i

  unfoldable pub get_frame : ℕ → M F (Frame F)
  get_frame i = do fr ← gets (λ st. get_elem? st.frames i); must fr

  unfoldable pub get_shared : ℕ → M F Shared
  get_shared i = do sh ← gets (λ st. get_elem? st.shareds i); must sh

  unfoldable pub get_machine : ℕ → M F (AstMachine F)
  get_machine i = do m ← gets (λ st. get_elem? st.machines i); must m

  unfoldable pub get_container : ℕ → M F (AstContainer F)
  get_container i = do c ← gets (λ st. get_elem? st.containers i); must c

  -- `globalCtx`
  unfoldable pub global_ctx : Ctx → M F Ctx
  global_ctx [] = panic
  global_ctx (i ∷ []) = pure (i ∷ [])
  global_ctx (i ∷ j ∷ parents) = global_ctx (j ∷ parents)

  -- `ctx.globalCtx().labels` and its like point into one shared object.
  unfoldable pub global_shared : Ctx → M F ℕ
  global_shared ctx = do g ← global_ctx ctx; i ← head_frame g; fr ← get_frame i; pure fr.shared

  -- `deepCopy`
  unfoldable pub deep_copy : Ctx → M F Ctx
  deep_copy [] = pure []
  deep_copy (i ∷ parents) = do
    copies ← deep_copy parents
    fr ← get_frame i
    j ← alloc_frame fr
    pure (j ∷ copies)

  -- `newEvalCtx`
  unfoldable pub new_eval_ctx : Ctx → M F Ctx
  new_eval_ctx parent = do
    sh ← alloc_shared
    i ← alloc_frame (record { binds = []; shared = sh })
    pure (i ∷ parent)

  -- `ctx.binds`, and `ctx.binds = binds`
  unfoldable pub get_binds : Ctx → M F (List (String × Ast F))
  get_binds ctx = do i ← head_frame ctx; fr ← get_frame i; pure fr.binds

  unfoldable pub set_binds : Ctx → List (String × Ast F) → M F (Unit {0})
  set_binds ctx binds = do
    i ← head_frame ctx
    fr ← get_frame i
    set_frame i (record fr { binds = binds })

  -- `ctx.binds[name] = value`
  unfoldable pub bind : Ctx → String → Ast F → M F (Unit {0})
  bind ctx name value = do binds ← get_binds ctx; set_binds ctx (put name value binds)
