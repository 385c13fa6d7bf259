-- ===== src/Dsl/Tests.antt =====
-- Policies of the language of dsl/, run by the evaluator.
use di.Prelude.{
  true, ℕ, String, false, some, List, [], ◌∷◌, pos, negsuc, ◌≡◌, refl, ltb, leb, ◌==◌, ◌&&◌, arith,
  All, map,
}
use di.Db.Rows.Less.{int_ltb}
use di.Dsl.{Float, DslConnection, DslContainer}
use di.Dsl.Ast.{key_eq, hashable, Ast, Ctx, Position, no_position, of_list, of_slice, to_list}
use di.Dsl.Store.{
  pure, fail, panic, no_fuel, gets, need, must, ◌>>=◌, map_error, traverse, fold_left, each, repeat,
  index, Store, Outcome, ok, failed, panicked, located, message,
}
use di.Dsl.Store.Actions.{
  connection_eq, add_to_set, find_key, put_key, alloc_frame, alloc_shared, set_frame, modify_shared,
  add_label, add_connection, list_machine, list_container, alloc_machine, set_machine,
  alloc_container, modify_container, set_env, set_exclusive, set_container_labels, head_frame,
  get_frame, get_shared, get_machine, get_container, global_ctx, global_shared, deep_copy,
  new_eval_ctx, get_binds, set_binds, bind,
}
use di.Dsl.Func.{
  as_container, as_ident, as_string, as_int, as_list, as_sexp, as_machine, as_hmap, to_bool,
  string_arg, list_arg, int_arg, hmap_arg, raise, raise_if, Host,
}
use di.Dsl.Func.Ints.{
  to_word, of_word, int_add, int_sub, int_mul, int_div, int_mod, range_fuel, ints, accumulate,
  arith_fun, mod_impl, mul_impl, sub_impl, div_impl, concat, plus_impl, compare_fun, range_loop,
  range_of, range_args, range_impl,
}
use di.Dsl.Func.Lists.{
  flatten_ast, flatten, flatten_string, list_impl, len_impl, head, car_impl, tail, cdr_impl,
  cons_impl, nth, nth_impl, last, progn_impl,
}
use di.Dsl.Func.Hmaps.{
  hash, hmap_set_impl, hmap_get_impl, hmap_contains_impl, hmap_keys_impl, hmap_values_impl,
}
use di.Dsl.Func.Equal.{deep_equal, answer, eq_impl}
use di.Dsl.Func.Atoms.{
  new_container, add_container, docker_impl, set_env_helper, set_env_target, set_env_impl,
  github_key_impl, plaintext_key_impl, set_range, set_attribute, set_machine_attributes,
  machine_impl, change_machine, machine_attribute_impl, provider_impl, size_impl, role_impl,
  region_impl, disk_size_impl, to_float, range_bounds, range_type_impl,
}
use di.Dsl.Func.Labels.{
  find_label, resolve_label, expect_label, flatten_label, atoms_of, collect_atoms, with_label,
  tag_atom, define_label, label_named, label_impl, label_name_impl, label_host_impl, port_range,
  connect_pair, connect_labels, connect_impl, add_pair, pairs_with, all_pairs, add_pairs,
  place_atom, placement_impl,
}
use di.Dsl.Func.Control.{
  lambda_impl, parse_bindings, log_impl, bad_message, panic_impl, import_impl, bool_impl,
  sprintf_impl, define_value, define_impl, let_bind, let_impl, if_impl, and_impl, or_impl, not_impl,
  apply_impl, module_impl, make_list_impl, hmap_binding, hmap_impl, map_loop, map_impl, reduce_list,
  reduce_impl,
}
use di.Dsl.Eval.{
  empty_store, func_impl_map, lookup_func, should_export, lookup_var, eval_ident, bind_args,
  eval_lambda, run_func, call, eval_sexp, export, eval_module, eval_step, eval_fuel, eval,
}
use di.Dsl.Query.{handle_shared, query_connections, query_containers}
use di.Prelude.{find as find_entry, put as put_entry}
use di.Dsl.Compiled.{eval-query_containers}
use di.Dsl.Progression.{progression, beyond, range_of-progression}

abbrev pub whole : Float ℕ
whole = record {
  zero = 0;
  eq = λ a b. a == b;
  lt = λ a b. ltb a b;
  le = λ a b. leb a b;
  of_int = λ n. elim n [ pos k ↦ k | negsuc k ↦ 0 ];
}

abbrev pub host : Host ℕ
host = record { floats = whole; sprintf = λ f args st. f; is_upper = λ c. leb 65 c && leb c 90 }

abbrev at : ℕ → Position
at n = record { filename = ""; offset = 0; line = n; column = 0 }

-- `(f args…)`
abbrev pub app : String → List (Ast ℕ) → Ast ℕ
app f args = Ast.sexp (of_list (Ast.ident f ∷ args)) no_position

abbrev var : String → Ast ℕ
var = Ast.ident

abbrev pub num : ℕ → Ast ℕ
num n = Ast.int (pos n)

abbrev pub str : String → Ast ℕ
str = Ast.string

abbrev pub program : List (Ast ℕ) → Ast ℕ
program xs = Ast.root (of_list xs)

abbrev values : Outcome (Store ℕ) (Ast ℕ × Ctx) → List (Ast ℕ)
values (ok (Ast.root xs, c) st) = to_list xs
values _ = []

abbrev connections : Outcome (Store ℕ) (Ast ℕ × Ctx) → List DslConnection
connections (ok (a, ctx) st) = query_connections ctx st
connections _ = []

-- `eval`, opened for the tests.
unfoldable pub run : ℕ → Ast ℕ → Outcome (Store ℕ) (Ast ℕ × Ctx)
unfolding pure fail panic no_fuel gets need must ◌>>=◌ map_error traverse fold_left each repeat
    index connection_eq add_to_set find_key put_key alloc_frame alloc_shared set_frame modify_shared
    add_label add_connection list_machine list_container alloc_machine set_machine alloc_container
    modify_container set_env set_exclusive set_container_labels head_frame get_frame get_shared
    get_machine get_container global_ctx global_shared deep_copy new_eval_ctx get_binds set_binds
    bind as_container as_ident as_string as_int as_list as_sexp as_machine as_hmap to_bool
    string_arg list_arg int_arg hmap_arg raise raise_if to_word of_word int_add int_sub int_mul
    int_div int_mod range_fuel ints accumulate arith_fun mod_impl mul_impl sub_impl div_impl concat
    plus_impl compare_fun range_loop range_of range_args range_impl flatten flatten_string list_impl
    len_impl head car_impl tail cdr_impl cons_impl nth nth_impl last progn_impl hash hmap_set_impl
    hmap_get_impl hmap_contains_impl hmap_keys_impl hmap_values_impl deep_equal answer eq_impl
    new_container add_container docker_impl set_env_helper set_env_target set_env_impl
    github_key_impl plaintext_key_impl set_range set_attribute set_machine_attributes machine_impl
    change_machine machine_attribute_impl provider_impl size_impl role_impl region_impl
    disk_size_impl to_float range_bounds range_type_impl find_label resolve_label expect_label
    flatten_label atoms_of collect_atoms with_label tag_atom define_label label_named label_impl
    label_name_impl label_host_impl port_range connect_pair connect_labels connect_impl add_pair
    pairs_with all_pairs add_pairs place_atom placement_impl lambda_impl parse_bindings log_impl
    bad_message panic_impl import_impl bool_impl sprintf_impl define_value define_impl let_bind
    let_impl if_impl and_impl or_impl not_impl apply_impl module_impl make_list_impl hmap_binding
    hmap_impl map_loop map_impl reduce_list reduce_impl func_impl_map lookup_func should_export
    lookup_var eval_ident bind_args eval_lambda run_func call eval_sexp export eval_module eval_step
    eval_fuel eval flatten_ast key_eq hashable find_entry put_entry
run fuel parsed = eval host fuel parsed

-- A function, applied over a list.
square_list : List (Ast ℕ)
square_list =
    app "define" (
      Ast.sexp (of_list (var "Square" ∷ var "x" ∷ [])) no_position
      ∷ app "*" (var "x" ∷ var "x" ∷ [])
      ∷ [])
    ∷ app "map" (var "Square" ∷ app "range" (num 1 ∷ num 4 ∷ []) ∷ [])
    ∷ []

squares :
    values (run 12 (program square_list))
    ≡ Ast.list (of_list []) ∷ Ast.list (of_list (num 1 ∷ num 4 ∷ num 9 ∷ [])) ∷ []
unfolding run square_list
squares = refl

-- A module exports the names that begin with a capital.
exported :
    values (
      run 12 (
        program (
          app "module" (
            str "m"
            ∷ app "define" (var "A" ∷ num 1 ∷ [])
            ∷ app "define" (var "b" ∷ num 2 ∷ [])
            ∷ [])
          ∷ var "m.A"
          ∷ [])))
    ≡ Ast.module_ast "m" (of_list (Ast.list (of_list []) ∷ Ast.list (of_list []) ∷ [])) ∷ num 1 ∷ []
unfolding run
exported = refl

-- A function does not see its own name.
no_recursion :
    run 12 (
      program (
        app "define"
          (Ast.sexp (of_list (var "f" ∷ var "x" ∷ [])) no_position ∷ app "f" (var "x" ∷ []) ∷ [])
        ∷ app "f" (num 1 ∷ [])
        ∷ []))
    ≡ failed (located no_position (located no_position (message "unknown function: %s")))
unfolding run
no_recursion = refl

-- `cdr` leaves a list that is not nil, and `list` gives one that is.
empty_lists_differ :
    values (
      run 12
        (program (app "=" (app "cdr" (app "list" (num 1 ∷ []) ∷ []) ∷ app "list" [] ∷ []) ∷ [])))
    ≡ Ast.bool false ∷ []
unfolding run
empty_lists_differ = refl

size_panics : run 12 (program (app "size" (num 3 ∷ []) ∷ [])) ≡ panicked
unfolding run
size_panics = refl

docker_panics : run 12 (program (app "docker" (app "list" [] ∷ []) ∷ [])) ≡ panicked
unfolding run
docker_panics = refl

unfoldable pub web : Ast ℕ
web = program (
    app "label" (str "web" ∷ app "docker" (str "nginx" ∷ str "-v" ∷ []) ∷ [])
    ∷ app "setEnv" (str "web" ∷ str "k" ∷ str "v" ∷ [])
    ∷ app "connect" (num 80 ∷ str "public" ∷ str "web" ∷ [])
    ∷ app "connect" (app "list" (num 1 ∷ num 9 ∷ []) ∷ str "web" ∷ str "web" ∷ [])
    ∷ [])

web_connections :
    connections (run 12 web)
    ≡ record { from = "public"; to = "web"; min_port = pos 80; max_port = pos 80 }
      ∷ record { from = "web"; to = "web"; min_port = pos 1; max_port = pos 9 }
      ∷ []
unfolding run web query_connections handle_shared
web_connections = refl

abbrev pub value_of : Outcome (Store ℕ) (Ast ℕ × Ctx) → Ast ℕ
value_of (ok (v, ctx) st) = v
value_of _ = num 0

abbrev pub ctx_of : Outcome (Store ℕ) (Ast ℕ × Ctx) → Ctx
ctx_of (ok (v, ctx) st) = ctx
ctx_of _ = []

abbrev pub store_of : Outcome (Store ℕ) (Ast ℕ × Ctx) → Store ℕ
store_of (ok (v, ctx) st) = st
store_of _ = empty_store

web_runs :
    eval host 12 web
    ≡ ok (value_of (eval host 12 web), ctx_of (eval host 12 web)) (store_of (eval host 12 web))
unfolding run web
web_runs = refl

eval-query_containers_example :
    (cs : List DslContainer) × (query_containers
        (ctx_of (eval host 12 web))
        (store_of (eval host 12 web))
      ≡ some cs)
eval-query_containers_example =
    eval-query_containers host 12 web (value_of (eval host 12 web)) (ctx_of (eval host 12 web))
      (store_of (eval host 12 web)) web_runs

range_of-progression_example :
    (n : ℕ) × (range_of (negsuc 4) (pos 3) (pos 2) (empty_store {F = ℕ})
      ≡ ok (of_slice (map Ast.int (progression n (negsuc 4) 2))) empty_store)
    × All (λ x. int_ltb x (pos 3) ≡ true) (progression n (negsuc 4) 2)
    × (int_ltb (beyond n (negsuc 4) 2) (pos 3) ≡ false)
range_of-progression_example =
    range_of-progression (pos 3) 1 empty_store (omega arith) (negsuc 4) (omega arith)
