-- ===== src/Dsl/Func.antt =====
-- dsl/func.go: what the built-in functions of the policy language share.
-- A function takes its context and its arguments; the one that evaluates further is given the
-- evaluator. What Go's libraries compute on texts and floats is the record `Host`.
pub mod Ints
pub mod Lists
pub mod Hmaps
pub mod Equal
pub mod Atoms
pub mod Labels
pub mod Control
use di.Prelude.{
  ℕ, zero, suc, String, Bool, true, false, not, Option, none, some, List, [], ◌∷◌, ℤ, pos, negsuc,
  str_eq, int_eq, if◌then◌else◌,
}
use di.Dsl.{Float}
use di.Dsl.Ast.{Ast, Asts, Pairs, Position, Ctx, Atom, AstLabel, nil, cons, end, pair, to_list}
use di.Dsl.Store.{M, Store, need, message, fail, pure, gets, ◌>>=◌, index}

-- `fmt.Sprintf` with a format of the policy, whose verbs may print what a pointer leads to;
-- `unicode.IsUpper`, and the floating-point numbers.
pub record Host (F : Type 0) : Type 0 where
  pub floats : Float F
  pub sprintf : String → List (Ast F) → Store F → String
  pub is_upper : ℕ → Bool

abbrev pub Builtin : Type 0 → Type 0
Builtin F = Ctx → List (Ast F) → M F (Ast F)

-- `eval` of a syntax tree in a context.
abbrev pub Eval : Type 0 → Type 0
Eval F = Ctx → Ast F → M F (Ast F)

-- `arg, ok := x.(T)`
unfoldable pub as_container : Atom → Option ℕ
as_container (Atom.container i) = some i
as_container _ = none

module _ {F : Type 0} where
  unfoldable pub as_ident : Ast F → Option String
  as_ident (Ast.ident x) = some x
  as_ident _ = none

  unfoldable pub as_string : Ast F → Option String
  as_string (Ast.string x) = some x
  as_string _ = none

  unfoldable pub as_int : Ast F → Option ℤ
  as_int (Ast.int n) = some n
  as_int _ = none

  unfoldable pub as_list : Ast F → Option (List (Ast F))
  as_list Ast.nil_list = some []
  as_list (Ast.list xs) = some (to_list xs)
  as_list _ = none

  unfoldable pub as_sexp : Ast F → Option (List (Ast F))
  as_sexp (Ast.sexp xs p) = some (to_list xs)
  as_sexp _ = none

  unfoldable pub as_machine : Ast F → Option ℕ
  as_machine (Ast.atom (Atom.machine i)) = some i
  as_machine _ = none

  abbrev pub to_pairs : Pairs F → List (Ast F × Ast F)
  to_pairs end = []
  to_pairs (pair k v m) = (k, v) ∷ to_pairs m

  abbrev pub of_pairs : List (Ast F × Ast F) → Pairs F
  of_pairs [] = end
  of_pairs ((k, v) ∷ m) = pair k v (of_pairs m)

  unfoldable pub as_hmap : Ast F → Option (List (Ast F × Ast F))
  as_hmap (Ast.hmap m) = some (to_pairs m)
  as_hmap _ = none

  -- `toBool`
  unfoldable pub to_bool : Ast F → Bool
  to_bool Ast.nil_list = false
  to_bool (Ast.list nil) = false
  to_bool (Ast.list (cons x xs)) = true
  to_bool (Ast.string s) = not (str_eq s "")
  to_bool (Ast.int n) = not (int_eq n (pos 0))
  to_bool (Ast.bool b) = b
  to_bool _ = true

  -- An argument that must have a type, or the error of the function.
  unfoldable pub string_arg : List (Ast F) → ℕ → String → M F String
  string_arg args i text = do a ← index args i; need (as_string a) text

  unfoldable pub list_arg : List (Ast F) → ℕ → String → M F (List (Ast F))
  list_arg args i text = do a ← index args i; need (as_list a) text

  unfoldable pub int_arg : List (Ast F) → ℕ → String → M F ℤ
  int_arg args i text = do a ← index args i; need (as_int a) text

  unfoldable pub hmap_arg : List (Ast F) → ℕ → String → M F (List (Ast F × Ast F))
  hmap_arg args i text = do a ← index args i; need (as_hmap a) text

-- `args[i:]`, for an `i` that the number of arguments reaches.
abbrev pub drop {ℓ} : {A : Type ℓ} → ℕ → List A → List A
drop zero xs = xs
drop (suc n) [] = []
drop (suc n) (x ∷ xs) = drop n xs

unfoldable pub raise : {F A : Type 0} → String → M F A
raise text = fail (message text)

unfoldable pub raise_if : {F : Type 0} → Bool → String → M F (Unit {0})
raise_if b text = if b then raise text else pure tt
