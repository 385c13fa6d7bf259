-- ===== src/Dsl/Guarded.antt =====
-- What an evaluation of dsl/eval.go can do to the store: a relation that is generated by the
-- actions, each under the checks that dsl/func.go makes before it. It relates two actions, of which
-- the second may have more fuel.
pub mod Pure
pub mod Labels
pub mod Atoms
pub mod Control
pub mod Table
pub mod Run
pub mod Keeps
use di.Prelude.{
  ℕ, zero, suc, String, Bool, true, false, Option, none, some, List, [], ◌∷◌, ℤ, pos, ◌≡◌, ◌≢◌, ◌⊎◌,
  ◌≤◌, refl, All, str_eq, if◌then◌else◌,
}
use di.Dsl.{Float, DslConnection}
use di.Dsl.Ast.{Ast, Ctx, Atom, AstLabel}
use di.Dsl.Store.{
  Frame, Shared, AstMachine, AstContainer, Store, Error, message, M, pure, fail, panic, no_fuel,
  gets, need, must, ◌>>=◌, map_error, traverse, fold_left, each, repeat, index,
}
use di.Dsl.Store.Actions.{
  alloc_frame, alloc_shared, set_frame, add_label, add_connection, list_machine, alloc_machine,
  set_machine, set_env, set_exclusive, set_container_labels,
}
use di.Dsl.Func.{raise, raise_if}
use di.Dsl.Func.Atoms.{add_container}
use di.Dsl.Func.Labels.{public_label}

-- Ports in order, between 0 and 65535.
abbrev pub InRange : ℤ → ℤ → Type 0
InRange (pos a) (pos b) = (a ≤ b) × (b ≤ 65535)
InRange _ _ = ⊥

-- The public internet takes part at one side, on one port.
pub record Connectable (c : DslConnection) : Type 0 where
  pub in_range : InRange c.min_port c.max_port
  pub public_port : (c.from ≡ public_label) ⊎ (c.to ≡ public_label) → c.min_port ≡ c.max_port
  pub public_once : c.from ≡ public_label → c.to ≢ public_label

abbrev pub IsString : {F : Type 0} → Ast F → Type 0
IsString {F} a = (s : String) × (a ≡ Ast.string s)

pub data Guarded {F : Type 0} : (A : Type 0) → M F A → M F A → Type 1 where
  pures : {A : Type 0} (a : A) → Guarded A (pure a) (pure a)
  fails : {A : Type 0} (e : Error) → Guarded A (fail e) (fail e)
  panics : {A : Type 0} → Guarded A panic panic
  times_out : {A : Type 0} (m : M F A) → Guarded A no_fuel m
  reads : {A : Type 0} (f : Store F → A) → Guarded A (gets f) (gets f)
  binds :
      {A B : Type 0} {m n : M F A} {f g : A → M F B}
      → Guarded A m n
      → ((a : A) → Guarded B (f a) (g a))
      → Guarded B (m >>= f) (n >>= g)
  maps_error :
      {A : Type 0} (g : Error → Error) {m n : M F A}
      → Guarded A m n
      → Guarded A (map_error g m) (map_error g n)
  allocs_frame : (fr : Frame F) → Guarded ℕ (alloc_frame fr) (alloc_frame fr)
  allocs_shared : Guarded ℕ alloc_shared alloc_shared
  sets_frame : (i : ℕ) (fr : Frame F) → Guarded Unit (set_frame i fr) (set_frame i fr)
  adds_label :
      (i : ℕ) (name : String) (l : AstLabel)
      → l.ident ≡ name
      → name ≢ public_label
      → Guarded Unit (add_label i name l) (add_label i name l)
  adds_connection :
      (i : ℕ) (c : DslConnection)
      → Connectable c
      → Guarded Unit (add_connection i c) (add_connection i c)
  lists_machine : (i p : ℕ) → Guarded Unit (list_machine i p) (list_machine i p)
  allocs_machine : (m : AstMachine F) → Guarded ℕ (alloc_machine m) (alloc_machine m)
  sets_machine : (i : ℕ) (m : AstMachine F) → Guarded Unit (set_machine i m) (set_machine i m)
  adds_container :
      (ctx : Ctx) (c : AstContainer F)
      → All IsString c.command
      → c.env ≡ []
      → Guarded (Ast F) (add_container ctx c) (add_container ctx c)
  sets_env :
      (fl : Float F) (i : ℕ) (k v : Ast F)
      → IsString k
      → IsString v
      → Guarded Unit (set_env fl i k v) (set_env fl i k v)
  sets_exclusive :
      (i : ℕ) (ps : List (String × String)) → Guarded Unit (set_exclusive i ps) (set_exclusive i ps)
  sets_container_labels :
      (i : ℕ) (ls : List String)
      → Guarded Unit (set_container_labels i ls) (set_container_labels i ls)

module _ {F A : Type 0} where
  pub need-Guarded : (o : Option A) (text : String) → Guarded {F = F} A (need o text) (need o text)
  unfolding need
  need-Guarded none text = fails (message text)
  need-Guarded (some a) text = pures a

  pub must-Guarded : (o : Option A) → Guarded {F = F} A (must o) (must o)
  unfolding must
  must-Guarded none = panics
  must-Guarded (some a) = pures a

  pub index-Guarded : (xs : List A) (i : ℕ) → Guarded {F = F} A (index xs i) (index xs i)
  unfolding index
  index-Guarded xs i = must-Guarded _

  pub raise-Guarded : (text : String) → Guarded {F = F} A (raise text) (raise text)
  unfolding raise
  raise-Guarded text = fails (message text)

  pub if-Guarded :
      (b : Bool) {m n k l : M F A}
      → (b ≡ true → Guarded A m k)
      → (b ≡ false → Guarded A n l)
      → Guarded A (if b then m else n) (if b then k else l)
  if-Guarded true p q = p refl
  if-Guarded false p q = q refl

pub option-Guarded :
    {F A B : Type 0} (o : Option A) {m n : M F B} {f g : A → M F B}
    → Guarded B m n
    → ((a : A) → Guarded B (f a) (g a))
    → Guarded B
        (elim o as (λ _. M F B) [ some a ↦ f a | none ↦ m ])
        (elim o as (λ _. M F B) [ some a ↦ g a | none ↦ n ])
option-Guarded none p q = p
option-Guarded (some a) p q = q a

pub raise_if-Guarded :
    {F : Type 0} (b : Bool) (text : String)
    → Guarded {F = F} Unit (raise_if b text) (raise_if b text)
unfolding raise_if
raise_if-Guarded true text = raise-Guarded text
raise_if-Guarded false text = pures tt

module _ {F A B : Type 0} where
  pub traverse-Guarded :
      {f g : A → M F B}
      → ((a : A) → Guarded B (f a) (g a))
      → (xs : List A) → Guarded (List B) (traverse f xs) (traverse g xs)
  unfolding traverse
  traverse-Guarded h [] = pures []
  traverse-Guarded h (x ∷ xs) =
      binds (h x) (λ y. binds (traverse-Guarded h xs) (λ ys. pures (y ∷ ys)))

  pub fold_left-Guarded :
      {f g : B → A → M F B}
      → ((b : B) (a : A) → Guarded B (f b a) (g b a))
      → (b : B) (xs : List A) → Guarded B (fold_left f b xs) (fold_left g b xs)
  unfolding fold_left
  fold_left-Guarded h b [] = pures b
  fold_left-Guarded h b (x ∷ xs) = binds (h b x) (λ c. fold_left-Guarded h c xs)

pub each-Guarded :
    {F A : Type 0} {f g : A → M F (Unit {0})}
    → ((a : A) → Guarded Unit (f a) (g a))
    → (xs : List A) → Guarded Unit (each f xs) (each g xs)
unfolding each
each-Guarded h [] = pures tt
each-Guarded h (x ∷ xs) = binds (h x) (λ _. each-Guarded h xs)

pub repeat-Guarded :
    {F A : Type 0} {m n : M F A}
    → Guarded A m n
    → (k : ℕ) → Guarded (List A) (repeat k m) (repeat k n)
unfolding repeat
repeat-Guarded h zero = pures []
repeat-Guarded h (suc k) = binds h (λ y. binds (repeat-Guarded h k) (λ ys. pures (y ∷ ys)))

pub ruleset guarded = (
  pures, fails, panics, reads, binds, maps_error, allocs_frame, allocs_shared, sets_frame,
  lists_machine, allocs_machine, sets_machine, sets_exclusive, sets_container_labels, need-Guarded,
  must-Guarded, index-Guarded, raise-Guarded, raise_if-Guarded, if-Guarded, traverse-Guarded,
  fold_left-Guarded, each-Guarded, repeat-Guarded,
)
