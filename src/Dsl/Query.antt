-- ===== src/Dsl/Query.antt =====
-- dsl/dsl.go: the queries on a compiled policy, and dsl/key.go: the keys of a machine.
-- `fetch` is the list of keys that Github gives for a user, `none` an error; the code keeps what it
-- gave before.
use di.Prelude.{ℕ, String, Option, none, some, List, [], ◌∷◌, ◌++◌, ℤ, pos, find, get_elem?, ◌>>=◌}
use di.Dsl.{
  DslMachine, DslContainer, DslConnection, Dsl, Compilation, accepted, rejected, crashed, endless,
}
use di.Dsl.Ast.{Ast, Ctx, Atom, AstLabel, Key, of_list}
use di.Dsl.Store.{
  Frame, Shared, AstMachine, AstContainer, Store, Outcome, ok, failed, panicked, timeout,
}
use di.Dsl.Eval.{eval}
use di.Dsl.Func.{Host, as_string, as_list, as_int}

module _ {F : Type 0} where
  -- `co.(astString)` panics on anything else.
  unfoldable pub strings_of : List (Ast F) → Option (List String)
  strings_of [] = some []
  strings_of (a ∷ xs) = as_string a >>= λ s. strings_of xs >>= λ ss. some (s ∷ ss)

  unfoldable pub env_of : List (Ast F × Ast F) → Option (List (String × String))
  env_of [] = some []
  env_of ((k, v) ∷ m) =
      as_string k >>= λ key. as_string v >>= λ value. env_of m >>= λ env. some ((key, value) ∷ env)

  unfoldable pub query_container : AstContainer F → Option DslContainer
  query_container c = strings_of c.command >>= λ command. env_of c.env >>= λ env. some (record {
    image = c.image;
    command = command;
    env = env;
    exclusive = c.exclusive;
    labels = c.labels;
  })

module _ (fetch : String → Option (List String)) where
  unfoldable pub key_strings : Key → Option (List String)
  key_strings (Key.github user) = fetch user
  key_strings (Key.plaintext text) = some (text ∷ [])

  abbrev prepend : Option (List String) → List String → List String
  prepend none rest = rest
  prepend (some ks) rest = ks ++ rest

  -- A key that cannot be had is left out.
  unfoldable pub parse_keys : List Key → List String
  parse_keys [] = []
  parse_keys (k ∷ ks) = prepend (key_strings k) (parse_keys ks)

  unfoldable pub convert_ast_machine : {F : Type 0} → AstMachine F → DslMachine F
  convert_ast_machine m = record {
    provider = m.provider;
    size = m.size;
    role = m.role;
    region = m.region;
    ram = record { min = m.ram.min; max = m.ram.max };
    cpu = record { min = m.cpu.min; max = m.cpu.max };
    disk_size = m.disk_size;
    ssh_keys = parse_keys m.ssh_keys;
  }

-- The elements of a label, `none` if one is no machine.
unfoldable pub machine_pointers : List Atom → Option (List ℕ)
machine_pointers [] = some []
machine_pointers (Atom.machine i ∷ as') = machine_pointers as' >>= λ is. some (i ∷ is)
machine_pointers (Atom.container i ∷ as') = none

abbrev float_of : {F : Type 0} → Ast F → Option F
float_of (Ast.float x) = some x
float_of _ = none

abbrev or_else : {A : Type 0} → A → Option A → A
or_else d none = d
or_else d (some a) = a

abbrev pub no_tables : Shared
no_tables = record { labels = []; connections = []; machines = []; containers = [] }

abbrev pub table_or : Option Shared → Shared
table_or none = no_tables
table_or (some sh) = sh

-- A handle is the global context, in the store that the evaluation left.
module _ {F : Type 0} (ctx : Ctx) (st : Store F) where
  abbrev pub global_frame : Ctx → Option (Frame F)
  global_frame [] = none
  global_frame (i ∷ parents) = get_elem? st.frames i

  unfoldable pub handle_binds : List (String × Ast F)
  handle_binds = elim (global_frame ctx) [ none ↦ [] | some fr ↦ fr.binds ]

  abbrev pub frame_shared : Option (Frame F) → Shared
  frame_shared none = no_tables
  frame_shared (some fr) = table_or (get_elem? st.shareds fr.shared)

  unfoldable pub handle_shared : Shared
  handle_shared = frame_shared (global_frame ctx)

  unfoldable pub query_listed : List ℕ → Option (List DslContainer)
  query_listed [] = some []
  query_listed (i ∷ is) = get_elem? st.containers i >>= λ c.
      query_container c >>= λ d. query_listed is >>= λ ds. some (d ∷ ds)

  -- `QueryContainers`, `none` is a panic.
  unfoldable pub query_containers : Option (List DslContainer)
  query_containers = query_listed handle_shared.containers

  -- `QueryConnections`
  unfoldable pub query_connections : List DslConnection
  query_connections = handle_shared.connections

  module _ (fetch : String → Option (List String)) where
    unfoldable pub machines_at : List ℕ → List (DslMachine F)
    machines_at [] = []
    machines_at (i ∷ is) =
        let rest = machines_at is in
        elim (get_elem? st.machines i) [ none ↦ rest | some m ↦ convert_ast_machine fetch m ∷ rest ]

    -- `QueryMachines`
    unfoldable pub query_machines : List (DslMachine F)
    query_machines = machines_at handle_shared.machines

    -- `QueryMachineSlice`: nil for a label that is not defined or not of machines.
    unfoldable pub query_machine_slice : String → List (DslMachine F)
    query_machine_slice key =
        elim (find key handle_shared.labels >>= λ (l : AstLabel). machine_pointers l.elems) [
          | none ↦ []
          | some is ↦ machines_at is
        ]

  -- `QueryFloat`, `none` is an error.
  unfoldable pub query_float : String → Option F
  query_float key = find key handle_binds >>= float_of

  -- The queries with a default for what is undefined or of another type.
  unfoldable pub query_int : String → ℤ
  query_int key = or_else (pos 0) (find key handle_binds >>= as_int)

  unfoldable pub query_string : String → String
  query_string key = or_else "" (find key handle_binds >>= as_string)

  unfoldable pub query_str_slice : String → List String
  query_str_slice key =
      or_else [] (find key handle_binds >>= λ v. as_list v >>= λ xs. strings_of xs)

  -- The handle as its users see it, unless a query of its containers panics.
  unfoldable pub dsl_handle : (String → Option (List String)) → String → Option (Dsl F)
  dsl_handle fetch text = query_containers >>= λ cs. some (record {
    query_machines = query_machines fetch;
    query_containers = cs;
    query_connections = query_connections;
    query_float = query_float;
    query_string = query_string;
    query_str_slice = query_str_slice;
    code = text;
  })

-- `New`: `parse` stands for the scanner, the parser and the imports; `show` prints the syntax trees.
-- A panic of the containers' query, which the code meets when it asks, is met at once.
module _ {F : Type 0} (host : Host F) (fuel : ℕ) (fetch : String → Option (List String))
    (parse : String → Option (List (Ast F))) (show : List (Ast F) → String) where
  abbrev pub handle_of : List (Ast F) → Outcome (Store F) (Ast F × Ctx) → Compilation F
  handle_of asts (ok (v, ctx) st) = elim (dsl_handle ctx st fetch (show asts)) [
    | none ↦ crashed
    | some spec ↦ accepted spec
  ]
  handle_of asts (failed e) = rejected
  handle_of asts panicked = crashed
  handle_of asts timeout = endless

  unfoldable pub compile : String → Compilation F
  compile text = elim (parse text) [
    | none ↦ rejected
    | some asts ↦ handle_of asts (eval host fuel (Ast.root (of_list asts)))
  ]
