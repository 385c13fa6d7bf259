-- ===== src/Dsl/Func/Lists.antt =====
-- dsl/func.go: the functions on lists that do not evaluate.
use di.Prelude.{String, List, [], ◌∷◌, ◌++◌, ℤ, pos, negsuc, length, get_elem?}
use di.Dsl.Ast.{Ast, Asts, nil, cons, of_slice, of_list}
use di.Dsl.Store.{M, pure, panic, need, ◌>>=◌, traverse, index}
use di.Dsl.Func.{Builtin, as_string, list_arg, int_arg, raise}

unfoldable mutual
  -- One element of `flatten`
  pub flatten_ast : {F : Type 0} → Ast F → List (Ast F)
  flatten_ast Ast.nil_list = []
  flatten_ast (Ast.list xs) = flatten_asts xs
  flatten_ast a = a ∷ []

  pub flatten_asts : {F : Type 0} → Asts F → List (Ast F)
  flatten_asts nil = []
  flatten_asts (cons x xs) = flatten_ast x ++ flatten_asts xs

module _ {F : Type 0} where
  unfoldable pub flatten : List (Ast F) → List (Ast F)
  unfolding flatten_ast
  flatten [] = []
  flatten (x ∷ xs) = flatten_ast x ++ flatten xs

  unfoldable pub flatten_string : List (Ast F) → M F (List String)
  flatten_string lst = traverse (λ a. need (as_string a) "expected string, found: %v") (flatten lst)

  unfoldable pub list_impl : Builtin F
  list_impl ctx args = pure (of_slice args)

  unfoldable pub len_impl : Builtin F
  len_impl ctx args = do
    xs ← list_arg args 0 "len applies to lists: %s"
    pure (Ast.int (pos (length xs)))

  unfoldable pub head : List (Ast F) → M F (Ast F)
  head [] = raise "car applies to populated lists: %s"
  head (x ∷ xs) = pure x

  unfoldable pub car_impl : Builtin F
  car_impl ctx args = do xs ← list_arg args 0 "car applies to populated lists: %s"; head xs

  -- What is left of a populated list is not nil.
  unfoldable pub tail : List (Ast F) → M F (Ast F)
  tail [] = raise "cdr applies to populated lists: %s"
  tail (x ∷ xs) = pure (Ast.list (of_list xs))

  unfoldable pub cdr_impl : Builtin F
  cdr_impl ctx args = do xs ← list_arg args 0 "cdr applies to populated lists: %s"; tail xs

  unfoldable pub cons_impl : Builtin F
  cons_impl ctx args = do
    xs ← list_arg args 1 "cons applies to lists: %s"
    x ← index args 0
    pure (Ast.list (cons x (of_list xs)))

  unfoldable pub nth : ℤ → List (Ast F) → M F (Ast F)
  nth (pos i) xs = need (get_elem? xs i) "array index out of bounds: %d"
  nth (negsuc i) xs = raise "array index out of bounds: %d"

  unfoldable pub nth_impl : Builtin F
  nth_impl ctx args = do
    i ← int_arg args 0 "nth list index must be an int: %s"
    xs ← list_arg args 1 "nth applies to lists: %s"
    nth i xs

  -- The arguments are evaluated, so the last one is the value.
  unfoldable pub last : {A : Type 0} → List A → M F A
  last [] = panic
  last (x ∷ []) = pure x
  last (x ∷ y ∷ xs) = last (y ∷ xs)

  unfoldable pub progn_impl : Builtin F
  progn_impl ctx args = last args
