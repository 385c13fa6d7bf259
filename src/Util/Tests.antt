-- ===== src/Util/Tests.antt =====
-- Runs of `EditDistance` (util/util.go).
use di.Prelude.{◌+◌, ◌≡◌, refl, [], ◌∷◌}
use di.Util.{edit_distance, distance_loop}
use di.Util.Distance.{only_in, strings_of, edit_distance_lem}

-- A string that the second list names twice counts once, although both lists hold it.
edit_distance_doubled : edit_distance ("x" ∷ []) ("x" ∷ "x" ∷ []) ≡ 1
unfolding edit_distance distance_loop
edit_distance_doubled = refl

edit_distance_example :
    edit_distance ("a" ∷ "b" ∷ "a" ∷ []) ("b" ∷ "c" ∷ [])
    ≡ only_in (strings_of ("a" ∷ "b" ∷ "a" ∷ [])) ("b" ∷ "c" ∷ [])
      + only_in ("b" ∷ "c" ∷ []) ("a" ∷ "b" ∷ "a" ∷ [])
edit_distance_example = edit_distance_lem ("a" ∷ "b" ∷ "a" ∷ []) ("b" ∷ "c" ∷ []) refl
