-- ===== src/Dsl/Func/Atoms.antt =====
-- dsl/func.go: machines, containers and their attributes.
use di.Prelude.{String, Option, none, some, List, [], ◌∷◌, ◌++◌, map, pos, str_eq, if◌then◌else◌}
use di.Dsl.{Float}
use di.Dsl.Ast.{Ast, nil, AstRange, Atom, Ctx, Key, of_slice}
use di.Dsl.Store.{
  AstMachine, AstContainer, M, pure, panic, must, need, ◌>>=◌, ◌>>◌, traverse, fold_left, each,
  index,
}
use di.Dsl.Store.Actions.{
  alloc_machine, get_machine, set_machine, alloc_container, set_env, global_shared, list_machine,
  list_container,
}
use di.Dsl.Func.{Builtin, as_string, as_int, as_machine, as_container, string_arg, drop, raise}
use di.Dsl.Func.Lists.{flatten, flatten_string}
use di.Dsl.Func.Labels.{resolve_label}

module _ {F : Type 0} where
  -- `image: astArgs[0]` panics if there is no argument left.
  unfoldable pub new_container : List String → M F (AstContainer F)
  new_container [] = panic
  new_container (image ∷ command) = pure (record {
    image = image;
    command = map Ast.string command;
    env = [];
    exclusive = [];
    labels = [];
  })

  -- `*globalCtx.containers = append(*globalCtx.containers, newContainer)`
  unfoldable pub add_container : Ctx → AstContainer F → M F (Ast F)
  add_container ctx new = do
    c ← alloc_container new
    g ← global_shared ctx
    list_container g c
    pure (Ast.atom (Atom.container c))

  unfoldable pub docker_impl : Builtin F
  docker_impl ctx args = do
    strs ← flatten_string args
    new ← new_container strs
    add_container ctx new

  unfoldable pub set_env_helper : Float F → Ast F → Ast F → Atom → M F (Unit {0})
  set_env_helper fl key value target = do
    c ← need (as_container target) "cannot setEnv on non-container: %s"
    k ← need (as_string key) "setEnv key must be a string: %s"
    v ← need (as_string value) "setEnv value must be a string: %s"
    set_env fl c (Ast.string k) (Ast.string v)

  -- One target: a container, or a label, whose elements are meant.
  unfoldable pub set_env_target : Float F → Ctx → Ast F → Ast F → Ast F → M F (Unit {0})
  set_env_target fl ctx key value (Ast.atom (Atom.container c)) =
      set_env_helper fl key value (Atom.container c)
  set_env_target fl ctx key value (Ast.string s) = do
    found ← resolve_label ctx (Ast.string s)
    l ← need found "cannot setEnv on invalid label: %s"
    each (set_env_helper fl key value) l.elems
  set_env_target fl ctx key value (Ast.label k) = do
    found ← resolve_label ctx (Ast.label k)
    l ← need found "cannot setEnv on invalid label: %s"
    each (set_env_helper fl key value) l.elems
  set_env_target fl ctx key value _ = raise "setEnv target must be either a label or container: %s"

  unfoldable pub set_env_impl : Float F → Builtin F
  set_env_impl fl ctx args = do
    target ← index args 0
    key ← index args 1
    value ← index args 2
    each (set_env_target fl ctx key value) (flatten (target ∷ []))
    pure (Ast.list nil)

  unfoldable pub github_key_impl : Builtin F
  github_key_impl ctx args = do
    s ← string_arg args 0 "github username must be a string: %s"
    pure (Ast.ssh_key (Key.github s))

  unfoldable pub plaintext_key_impl : Builtin F
  plaintext_key_impl ctx args = do
    s ← string_arg args 0 "key must be a string: %s"
    pure (Ast.ssh_key (Key.plaintext s))

  -- The `astRange` cases of `setMachineAttributes`
  unfoldable pub set_range : AstMachine F → AstRange F → Option (AstMachine F)
  set_range m r =
      if str_eq r.ident "ram"
      then some (record m { ram = r })
      else if str_eq r.ident "cpu"
      then some (record m { cpu = r })
      else none

  unfoldable pub set_attribute : AstMachine F → Ast F → Option (AstMachine F)
  unfolding set_range
  set_attribute m (Ast.provider p) = some (record m { provider = p })
  set_attribute m (Ast.region r) = some (record m { region = r })
  set_attribute m (Ast.size s) = some (record m { size = s })
  set_attribute m (Ast.disk_size n) = some (record m { disk_size = n })
  set_attribute m (Ast.role r) = some (record m { role = r })
  set_attribute m (Ast.range r) = set_range m r
  set_attribute m (Ast.ssh_key k) = some (record m { ssh_keys = m.ssh_keys ++ (k ∷ []) })
  set_attribute m _ = none

  abbrev pub attribute : AstMachine F → Ast F → M F (AstMachine F)
  attribute m a = need (set_attribute m a) "unrecognized argument to machine definition: %s"

  unfoldable pub set_machine_attributes : AstMachine F → List (Ast F) → M F (AstMachine F)
  set_machine_attributes m args = fold_left attribute m (flatten args)

  -- `&astMachine{}`
  abbrev pub new_machine : Float F → AstMachine F
  new_machine fl = record {
    provider = "";
    role = "";
    size = "";
    region = "";
    cpu = record { ident = ""; min = fl.zero; max = fl.zero };
    ram = record { ident = ""; min = fl.zero; max = fl.zero };
    disk_size = pos 0;
    ssh_keys = [];
    labels = [];
  }

  unfoldable pub machine_impl : Float F → Builtin F
  machine_impl fl ctx args = do
    m ← set_machine_attributes (new_machine fl) args
    i ← alloc_machine m
    g ← global_shared ctx
    list_machine g i
    pure (Ast.atom (Atom.machine i))

  unfoldable pub change_machine : List (Ast F) → Ast F → M F (Ast F)
  change_machine args target = do
    i ← need (as_machine target) "bad type, cannot change machine attributes: %s"
    m ← get_machine i
    m' ← set_machine_attributes m args
    set_machine i m'
    pure (Ast.atom (Atom.machine i))

  unfoldable pub machine_attribute_impl : Builtin F
  machine_attribute_impl ctx args = do
    target ← index args 0
    changed ← traverse (change_machine (drop 1 args)) (flatten (target ∷ []))
    pure (of_slice changed)

  -- `args[0].(astString)` panics.
  unfoldable pub provider_impl : Builtin F
  provider_impl ctx args = do a ← index args 0; s ← must (as_string a); pure (Ast.provider s)

  unfoldable pub size_impl : Builtin F
  size_impl ctx args = do a ← index args 0; s ← must (as_string a); pure (Ast.size s)

  unfoldable pub role_impl : Builtin F
  role_impl ctx args = do s ← string_arg args 0 "role must be a string: %s"; pure (Ast.role s)

  unfoldable pub region_impl : Builtin F
  region_impl ctx args = do s ← string_arg args 0 "region must be a string: %s"; pure (Ast.region s)

  unfoldable pub disk_size_impl : Builtin F
  disk_size_impl ctx args = do
    a ← index args 0
    n ← need (as_int a) "diskSize must be an int: %s"
    pure (Ast.disk_size n)

  unfoldable pub to_float : Float F → Ast F → Option F
  to_float fl (Ast.int n) = some (fl.of_int n)
  to_float fl (Ast.float x) = some x
  to_float fl _ = none

  -- The bounds that `rangeTypeImpl` reads; without a second argument the upper one is zero.
  unfoldable pub range_bounds : Float F → List (Ast F) → M F (F × F)
  range_bounds fl [] = panic
  range_bounds fl (a ∷ []) = do
    lo ← need (to_float fl a) "range arguments must be convertable to floats: %v"
    pure (lo, fl.zero)
  range_bounds fl (a ∷ b ∷ args) = do
    hi ← need (to_float fl b) "range arguments must be convertable to floats: %v"
    lo ← need (to_float fl a) "range arguments must be convertable to floats: %v"
    pure (lo, hi)

  unfoldable pub range_type_impl : Float F → String → Builtin F
  range_type_impl fl name ctx args = do
    (lo, hi) ← range_bounds fl args
    pure (Ast.range (record { ident = name; min = lo; max = hi }))
