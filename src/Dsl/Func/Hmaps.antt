-- ===== src/Dsl/Func/Hmaps.antt =====
-- dsl/func.go: the functions on hash maps. A key that Go cannot hash panics.
use di.Prelude.{Bool, true, false, Option, none, some, map, if◌then◌else◌}
use di.Dsl.{Float}
use di.Dsl.Ast.{Ast, of_slice, hashable}
use di.Dsl.Store.{M, pure, panic, need, ◌>>=◌, ◌>>◌, index}
use di.Dsl.Store.Actions.{find_key, put_key}
use di.Dsl.Func.{Builtin, hmap_arg, of_pairs}

abbrev pub is_some : {A : Type 0} → Option A → Bool
is_some none = false
is_some (some a) = true

module _ {F : Type 0} where
  -- `m[key]` hashes the key.
  unfoldable pub hash : Ast F → M F (Unit {0})
  hash key = if hashable key then pure tt else panic

module _ {F : Type 0} (fl : Float F) where
  unfoldable pub hmap_set_impl : Builtin F
  hmap_set_impl ctx args = do
    m ← hmap_arg args 0 "%s must be a hmap"
    key ← index args 1
    value ← index args 2
    hash key
    pure (Ast.hmap (of_pairs (put_key fl key value m)))

  unfoldable pub hmap_get_impl : Builtin F
  hmap_get_impl ctx args = do
    m ← hmap_arg args 0 "%s must be a hmap"
    key ← index args 1
    hash key
    need (find_key fl key m) "undefined key: %s"

  unfoldable pub hmap_contains_impl : Builtin F
  hmap_contains_impl ctx args = do
    m ← hmap_arg args 0 "%s must be a hmap"
    key ← index args 1
    hash key
    pure (Ast.bool (is_some (find_key fl key m)))

module _ {F : Type 0} where
  unfoldable pub hmap_keys_impl : Builtin F
  hmap_keys_impl ctx args = do
    m ← hmap_arg args 0 "%s must be a hmap"
    pure (of_slice (map (λ (e : Ast F × Ast F). e.0) m))

  unfoldable pub hmap_values_impl : Builtin F
  hmap_values_impl ctx args = do
    m ← hmap_arg args 0 "%s must be a hmap"
    pure (of_slice (map (λ (e : Ast F × Ast F). e.1) m))
