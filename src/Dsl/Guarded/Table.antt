-- ===== src/Dsl/Guarded/Table.antt =====
-- The table of built-in functions of dsl/func.go is guarded, entry by entry.
use di.Prelude.{
  ℕ, String, Bool, Option, none, some, List, [], ◌∷◌, ◌≡◌, refl, find, str_eq, Bool-cases, inl, inr,
}
use di.Dsl.Func.{Host, Eval, Builtin}
use di.Dsl.Eval.{FuncImpl, func_impl_map, lookup_func}
use di.Dsl.Guarded.Control.{Evals, Runs}
use di.Dsl.Guarded.Pure.{
  bool_impl-Sound, car_impl-Sound, cdr_impl-Sound, compare_fun-Sound, cons_impl-Sound,
  div_impl-Sound, eq_impl-Sound, hmap_contains_impl-Sound, hmap_get_impl-Sound,
  hmap_keys_impl-Sound, hmap_set_impl-Sound, hmap_values_impl-Sound, import_impl-Sound,
  len_impl-Sound, list_impl-Sound, log_impl-Sound, mod_impl-Sound, mul_impl-Sound, nth_impl-Sound,
  panic_impl-Sound, plus_impl-Sound, progn_impl-Sound, range_impl-Sound, sprintf_impl-Sound,
  sub_impl-Sound,
}
use di.Dsl.Guarded.Labels.{
  connect_impl-Sound, label_host_impl-Sound, label_impl-Sound, label_name_impl-Sound,
  placement_impl-Sound,
}
use di.Dsl.Guarded.Atoms.{
  disk_size_impl-Sound, docker_impl-Sound, github_key_impl-Sound, machine_attribute_impl-Sound,
  machine_impl-Sound, plaintext_key_impl-Sound, provider_impl-Sound, range_type_impl-Sound,
  region_impl-Sound, role_impl-Sound, set_env_impl-Sound, size_impl-Sound,
}
use di.Dsl.Guarded.Control.{
  and_impl-Runs, apply_impl-Runs, define_impl-Runs, hmap_impl-Runs, if_impl-Runs, lambda_impl-Sound,
  let_impl-Runs, make_list_impl-Runs, map_impl-Runs, module_impl-Runs, not_impl-Runs, or_impl-Runs,
  reduce_impl-Runs,
}

abbrev pub Similar : {F : Type 0} → Option (FuncImpl F) → Option (FuncImpl F) → Type 1
Similar none none = Unit
Similar (some f) (some g) = Runs f.run g.run × (f.min_args ≡ g.min_args) × (f.lazy ≡ g.lazy)
Similar _ _ = Unit × ⊥

-- Two tables with the same names, whose functions run alike.
data Tables {F : Type 0} : List (String × FuncImpl F) → List (String × FuncImpl F) → Type 1 where
  done : Tables [] []
  entry :
      (name : String) {f g : Builtin F} (k : ℕ) (l : Bool) {m n : List (String × FuncImpl F)}
      → Runs f g
      → Tables m n
      → Tables
          ((name, record { run = f; min_args = k; lazy = l }) ∷ m)
          ((name, record { run = g; min_args = k; lazy = l }) ∷ n)

Tables-Similar :
    {F : Type 0} {m n : List (String × FuncImpl F)} (name : String)
    → Tables m n
    → Similar (find name m) (find name n)
unfolding find
Tables-Similar name done = tt
Tables-Similar name (entry j k l r t) = elim (Bool-cases (str_eq j name)) [
  | inl e ↦ rw e (r, refl, refl)
  | inr e ↦ rw e (Tables-Similar name t)
]

module _ {F : Type 0} (host : Host F) (ev ev' : Eval F) (h : Evals ev ev') where
  func_impl_map-Tables : Tables (func_impl_map host ev) (func_impl_map host ev')
  unfolding func_impl_map
  func_impl_map-Tables = entry _ _ _ (not_impl-Runs ev ev' h) (
      entry _ _ _ (mod_impl-Sound) (
        entry _ _ _ (mul_impl-Sound) (
          entry _ _ _ (plus_impl-Sound) (
            entry _ _ _ (sub_impl-Sound) (
              entry _ _ _ (div_impl-Sound) (
                entry _ _ _ (compare_fun-Sound _) (
                  entry _ _ _ (eq_impl-Sound host.floats) (
                    entry _ _ _ (compare_fun-Sound _) (
                      entry _ _ _ (and_impl-Runs ev ev' h) (
                        entry _ _ _ (apply_impl-Runs ev ev' h) (
                          entry _ _ _ (bool_impl-Sound) (
                            entry _ _ _ (car_impl-Sound) (
                              entry _ _ _ (cdr_impl-Sound) (
                                entry _ _ _ (connect_impl-Sound) (
                                  entry _ _ _ (cons_impl-Sound) (
                                    entry _ _ _ (range_type_impl-Sound host.floats "cpu") (
                                      entry _ _ _ (define_impl-Runs ev ev' h) (
                                        entry _ _ _ (disk_size_impl-Sound) (
                                          entry _ _ _ (docker_impl-Sound) (
                                            entry _ _ _ (github_key_impl-Sound) (
                                              entry _ _ _ (hmap_impl-Runs ev ev' h host.floats) (
                                                entry _ _ _ (hmap_get_impl-Sound host.floats) (
                                                  entry _ _ _ (hmap_contains_impl-Sound host.floats)
                                                    (entry _ _ _ (hmap_set_impl-Sound host.floats) (
                                                      entry _ _ _ (hmap_keys_impl-Sound) (
                                                        entry _ _ _ (hmap_values_impl-Sound) (
                                                          entry _ _ _ (if_impl-Runs ev ev' h) (
                                                            entry _ _ _ (import_impl-Sound) (
                                                            entry _ _ _ (label_impl-Sound) (
                                                            entry _ _ _ (label_name_impl-Sound) (
                                                            entry _ _ _ (label_host_impl-Sound) (
                                                            entry _ _ _ (lambda_impl-Sound) (
                                                            entry _ _ _ (let_impl-Runs ev ev' h) (
                                                            entry _ _ _ (len_impl-Sound) (
                                                            entry _ _ _ (log_impl-Sound) (
                                                            entry _ _ _ (list_impl-Sound) (
                                                            entry _ _ _
                                                            (machine_impl-Sound host.floats)
                                                            (entry _ _ _
                                                            (machine_attribute_impl-Sound)
                                                            (entry _ _ _
                                                            (make_list_impl-Runs ev ev' h)
                                                            (entry _ _ _ (map_impl-Runs ev ev' h) (
                                                            entry _ _ _ (module_impl-Runs ev ev' h)
                                                            (entry _ _ _ (nth_impl-Sound) (
                                                            entry _ _ _ (or_impl-Runs ev ev' h) (
                                                            entry _ _ _ (placement_impl-Sound) (
                                                            entry _ _ _ (plaintext_key_impl-Sound) (
                                                            entry _ _ _ (panic_impl-Sound) (
                                                            entry _ _ _ (progn_impl-Sound) (
                                                            entry _ _ _ (provider_impl-Sound) (
                                                            entry _ _ _ (reduce_impl-Runs ev ev' h)
                                                            (entry _ _ _ (region_impl-Sound) (
                                                            entry _ _ _
                                                            (range_type_impl-Sound host.floats
                                                            "ram")
                                                            (entry _ _ _ (range_impl-Sound) (
                                                            entry _ _ _ (role_impl-Sound) (
                                                            entry _ _ _
                                                            (set_env_impl-Sound host.floats)
                                                            (entry _ _ _ (size_impl-Sound) (
                                                            entry _ _ _ (sprintf_impl-Sound host)
                                                            done))))))))))))))))))))))))))))))))))))
                                                            ))))))))))))))))))))

  pub lookup_func-Similar :
      (name : String) → Similar (lookup_func host ev name) (lookup_func host ev' name)
  unfolding lookup_func
  lookup_func-Similar name = Tables-Similar name func_impl_map-Tables
