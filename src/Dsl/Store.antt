-- ===== src/Dsl/Store.antt =====
-- The objects that an evaluation of dsl/eval.go shares by pointers, and the actions on them.
-- A frame is an `evalCtx` less its parent; `shared` points to its labels, connections, machines and
-- containers, which `deepCopy` does not copy. A nil dereference or an index out of range panics.
pub mod Actions
use di.Prelude.{
  ℕ, zero, suc, ◌+◌, String, Bool, true, false, not, ◌&&◌, ◌||◌, Option, none, some, List, [], ◌∷◌,
  ◌++◌, ℤ, str_eq, int_eq, find, put, get_elem?, set, length, if◌then◌else◌,
}
use di.Dsl.{Float, DslConnection}
use di.Dsl.Ast.{Ast, Position, Ctx, Atom, AstLabel, AstRange, Key, key_eq}

pub record Frame (F : Type 0) : Type 0 where
  pub binds : List (String × Ast F)
  pub shared : ℕ

pub record Shared : Type 0 where
  pub labels : List (String × AstLabel)
  pub connections : List DslConnection
  pub machines : List ℕ
  pub containers : List ℕ

pub record AstMachine (F : Type 0) : Type 0 where
  pub provider : String
  pub role : String
  pub size : String
  pub region : String
  pub cpu : AstRange F
  pub ram : AstRange F
  pub disk_size : ℤ
  pub ssh_keys : List Key
  pub labels : List String

pub record AstContainer (F : Type 0) : Type 0 where
  pub image : String
  pub command : List (Ast F)
  pub env : List (Ast F × Ast F)
  pub exclusive : List (String × String)
  pub labels : List String

pub record Store (F : Type 0) : Type 0 where
  pub frames : List (Frame F)
  pub shareds : List Shared
  pub machines : List (AstMachine F)
  pub containers : List (AstContainer F)

-- `dslError` stands round the errors below it; a message is the format of its text.
pub data Error : Type 0 where
  message : String → Error
  located : Position → Error → Error

-- How an evaluation ends. `timeout` is not of the code: the fuel ran out.
pub data Outcome (S : Type 0) (A : Type 0) : Type 0 where
  ok : A → S → Outcome S A
  failed : Error → Outcome S A
  panicked : Outcome S A
  timeout : Outcome S A

abbrev pub M : Type 0 → Type 0 → Type 0
M F A = Store F → Outcome (Store F) A

module _ {F A : Type 0} where
  unfoldable pub pure : A → M F A
  pure a st = ok a st

  unfoldable pub fail : Error → M F A
  fail e st = failed e

  unfoldable pub panic : M F A
  panic st = panicked

  unfoldable pub no_fuel : M F A
  no_fuel st = timeout

  unfoldable pub gets : (Store F → A) → M F A
  gets f st = ok (f st) st

  -- A value that may be missing, with the error that the code returns for that.
  unfoldable pub need : Option A → String → M F A
  need none text = fail (message text)
  need (some a) text = pure a

  -- A value whose absence panics.
  unfoldable pub must : Option A → M F A
  must none = panic
  must (some a) = pure a

abbrev pub after : {F A B : Type 0} → Outcome (Store F) A → (A → M F B) → Outcome (Store F) B
after (ok a st) f = f a st
after (failed e) f = failed e
after panicked f = panicked
after timeout f = timeout

infixl 5 ◌>>=◌ ◌>>◌
unfoldable pub ◌>>=◌ : {F A B : Type 0} → M F A → (A → M F B) → M F B
◌>>=◌ m f st = after (m st) f

abbrev pub ◌>>◌ : {F B : Type 0} → M F (Unit {0}) → M F B → M F B
m >> k = m >>= λ _. k

abbrev pub map_failed : {S A : Type 0} → (Error → Error) → Outcome S A → Outcome S A
map_failed g (failed e) = failed (g e)
map_failed g (ok a st) = ok a st
map_failed g panicked = panicked
map_failed g timeout = timeout

-- `if err != nil { err = g(err) }`
unfoldable pub map_error : {F A : Type 0} → (Error → Error) → M F A → M F A
map_error g m st = map_failed g (m st)

module _ {F A B : Type 0} where
  -- `for _, x := range xs`, with the results appended
  unfoldable pub traverse : (A → M F B) → List A → M F (List B)
  traverse f [] = pure []
  traverse f (x ∷ xs) = do y ← f x; ys ← traverse f xs; pure (y ∷ ys)

  -- The same with a variable that each round assigns.
  unfoldable pub fold_left : (B → A → M F B) → B → List A → M F B
  fold_left f b [] = pure b
  fold_left f b (x ∷ xs) = do c ← f b x; fold_left f c xs

unfoldable pub each : {F A : Type 0} → (A → M F (Unit {0})) → List A → M F (Unit {0})
each f [] = pure tt
each f (x ∷ xs) = do f x; each f xs

unfoldable pub repeat : {F A : Type 0} → ℕ → M F A → M F (List A)
repeat zero m = pure []
repeat (suc n) m = do y ← m; ys ← repeat n m; pure (y ∷ ys)

-- `xs[i]`
unfoldable pub index : {F A : Type 0} → List A → ℕ → M F A
index xs i = must (get_elem? xs i)
