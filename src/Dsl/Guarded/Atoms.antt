-- ===== src/Dsl/Guarded/Atoms.antt =====
-- The functions of dsl/func.go on machines and containers are guarded.
use di.Prelude.{String, List, [], ◌∷◌, map, refl, All}
use di.Dsl.{Float}
use di.Dsl.Ast.{Ast, Ctx, Atom}
use di.Dsl.Store.{AstMachine, pure, ◌>>=◌, panic}
use di.Dsl.Guarded.{
  IsString, pures, binds, guarded, need-Guarded, index-Guarded, panics, raise-Guarded, each-Guarded,
  adds_container, sets_env,
}
use di.Dsl.Guarded.Pure.{Sound, Safe, string_arg-Guarded, flatten_string-Guarded}
use di.Dsl.Guarded.Labels.{resolve_label-Guarded, global_shared-Guarded, get_machine-Guarded}
use di.Dsl.Func.Atoms.{
  add_container, new_container, docker_impl, set_env_helper, set_env_target, set_env_impl,
  github_key_impl, plaintext_key_impl, set_machine_attributes, machine_impl, change_machine,
  machine_attribute_impl, provider_impl, size_impl, role_impl, region_impl, disk_size_impl,
  range_bounds, range_type_impl,
}

map-IsString : (F : Type 0) (ss : List String) → All (IsString {F = F}) (map Ast.string ss)
map-IsString F [] = tt
map-IsString F (s ∷ ss) = ((s, refl), map-IsString F ss)

module _ {F : Type 0} where
  new_container-Guarded :
      (ctx : Ctx) (ss : List String) → Safe {F = F} (new_container ss >>= add_container ctx)
  unfolding new_container ◌>>=◌ panic pure
  new_container-Guarded ctx [] = panics
  new_container-Guarded ctx (s ∷ ss) = adds_container ctx _ (map-IsString F ss) refl

  pub docker_impl-Sound : Sound {F = F} docker_impl
  unfolding docker_impl
  docker_impl-Sound ctx args = binds (flatten_string-Guarded args) (new_container-Guarded ctx)

  set_env_helper-Guarded : (fl : Float F) (k v : Ast F) (a : Atom) → Safe (set_env_helper fl k v a)
  unfolding set_env_helper
  set_env_helper-Guarded fl k v a = binds (need-Guarded _ _) (λ c.
      binds (need-Guarded _ _)
        (λ s. binds (need-Guarded _ _) (λ t. sets_env fl c _ _ (s, refl) (t, refl))))

  set_env_target-Guarded :
      (fl : Float F) (ctx : Ctx) (k v a : Ast F) → Safe (set_env_target fl ctx k v a)
  unfolding set_env_target
  set_env_target-Guarded fl ctx k v (Ast.atom (Atom.container c)) = set_env_helper-Guarded fl k v _
  set_env_target-Guarded fl ctx k v (Ast.string s) =
      search (guarded, resolve_label-Guarded, set_env_helper-Guarded fl k v)
  set_env_target-Guarded fl ctx k v (Ast.label l) =
      search (guarded, resolve_label-Guarded, set_env_helper-Guarded fl k v)
  set_env_target-Guarded fl ctx k v _ = raise-Guarded _

  pub set_env_impl-Sound : (fl : Float F) → Sound (set_env_impl fl)
  unfolding set_env_impl
  set_env_impl-Sound fl ctx args = binds (index-Guarded args 0) (λ t.
      binds (index-Guarded args 1) (λ k.
        binds (index-Guarded args 2)
          (λ v. binds (each-Guarded (set_env_target-Guarded fl ctx k v) _) (λ _. pures _))))

  pub github_key_impl-Sound : Sound {F = F} github_key_impl
  unfolding github_key_impl
  github_key_impl-Sound ctx args = search (guarded, string_arg-Guarded)

  pub plaintext_key_impl-Sound : Sound {F = F} plaintext_key_impl
  unfolding plaintext_key_impl
  plaintext_key_impl-Sound ctx args = search (guarded, string_arg-Guarded)

  set_machine_attributes-Guarded :
      (m : AstMachine F) (args : List (Ast F)) → Safe (set_machine_attributes m args)
  unfolding set_machine_attributes
  set_machine_attributes-Guarded m args = search guarded

  pub machine_impl-Sound : (fl : Float F) → Sound (machine_impl fl)
  unfolding machine_impl
  machine_impl-Sound fl ctx args =
      search (guarded, set_machine_attributes-Guarded, global_shared-Guarded)

  change_machine-Guarded : (args : List (Ast F)) (a : Ast F) → Safe (change_machine args a)
  unfolding change_machine
  change_machine-Guarded args a =
      search (guarded, set_machine_attributes-Guarded, get_machine-Guarded)

  pub machine_attribute_impl-Sound : Sound {F = F} machine_attribute_impl
  unfolding machine_attribute_impl
  machine_attribute_impl-Sound ctx args = search (guarded, change_machine-Guarded)

  pub provider_impl-Sound : Sound {F = F} provider_impl
  unfolding provider_impl
  provider_impl-Sound ctx args = search guarded

  pub size_impl-Sound : Sound {F = F} size_impl
  unfolding size_impl
  size_impl-Sound ctx args = search guarded

  pub role_impl-Sound : Sound {F = F} role_impl
  unfolding role_impl
  role_impl-Sound ctx args = search (guarded, string_arg-Guarded)

  pub region_impl-Sound : Sound {F = F} region_impl
  unfolding region_impl
  region_impl-Sound ctx args = search (guarded, string_arg-Guarded)

  pub disk_size_impl-Sound : Sound {F = F} disk_size_impl
  unfolding disk_size_impl
  disk_size_impl-Sound ctx args = search guarded

  range_bounds-Guarded : (fl : Float F) (args : List (Ast F)) → Safe (range_bounds fl args)
  unfolding range_bounds
  range_bounds-Guarded fl [] = panics
  range_bounds-Guarded fl (a ∷ []) = search guarded
  range_bounds-Guarded fl (a ∷ b ∷ args) = search guarded

  pub range_type_impl-Sound : (fl : Float F) (name : String) → Sound (range_type_impl fl name)
  unfolding range_type_impl
  range_type_impl-Sound fl name ctx args = search (guarded, range_bounds-Guarded)
