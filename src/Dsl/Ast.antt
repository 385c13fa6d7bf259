-- ===== src/Dsl/Ast.antt =====
-- dsl/ast.go: the syntax trees of the policy language, which are its values too.
-- Machines and containers are pointers into the store of Dsl.Store; a context is the chain of its
-- frames there, the innermost first. `nil_list` is a list that is a nil slice, which
-- `reflect.DeepEqual` tells from one that is empty.
use di.Prelude.{
  ℕ, String, Bool, true, false, ◌&&◌, List, [], ◌∷◌, ℤ, int_eq, str_eq, ◌==◌, ◌≡◌, refl,
}
use di.Dsl.{Float}

-- `scanner.Position`
pub record Position : Type 0 where
  pub filename : String
  pub offset : ℕ
  pub line : ℕ
  pub column : ℕ

abbrev pub no_position : Position
no_position = record { filename = ""; offset = 0; line = 0; column = 0 }

abbrev pub Ctx : Type 0
Ctx = List ℕ

-- What `atom` stands for: `*astMachine` and `*astContainer`.
pub data Atom : Type 0 where
  machine : ℕ → Atom
  container : ℕ → Atom

pub record AstLabel : Type 0 where
  pub ident : String
  pub elems : List Atom

pub record AstRange (F : Type 0) : Type 0 where
  pub ident : String
  pub min : F
  pub max : F

-- What `key` stands for.
pub data Key : Type 0 where
  github : String → Key
  plaintext : String → Key

mutual
  pub data Ast (F : Type 0) : Type 0 where
    ident : String → Ast F
    string : String → Ast F
    float : F → Ast F
    int : ℤ → Ast F
    bool : Bool → Ast F
    ssh_key : Key → Ast F
    size : String → Ast F
    provider : String → Ast F
    role : String → Ast F
    region : String → Ast F
    disk_size : ℤ → Ast F
    range : AstRange F → Ast F
    nil_list : Ast F
    list : Asts F → Ast F
    hmap : Pairs F → Ast F
    sexp : Asts F → Position → Ast F
    label : AstLabel → Ast F
    lambda : List String → Asts F → Ctx → Ast F
    root : Asts F → Ast F
    module_ast : String → Asts F → Ast F
    atom : Atom → Ast F

  pub data Asts (F : Type 0) : Type 0 where
    nil : Asts F
    cons : Ast F → Asts F → Asts F

  pub data Pairs (F : Type 0) : Type 0 where
    end : Pairs F
    pair : Ast F → Ast F → Pairs F → Pairs F

module _ {F : Type 0} where
  abbrev pub to_list : Asts F → List (Ast F)
  to_list nil = []
  to_list (cons x xs) = x ∷ to_list xs

  abbrev pub of_list : List (Ast F) → Asts F
  of_list [] = nil
  of_list (x ∷ xs) = cons x (of_list xs)

  -- A slice that grew from nil, as a list.
  abbrev pub of_slice : List (Ast F) → Ast F
  of_slice [] = Ast.nil_list
  of_slice (x ∷ xs) = Ast.list (cons x (of_list xs))

  pub to_list-of_list : (xs : List (Ast F)) → to_list (of_list xs) ≡ xs
  to_list-of_list [] = refl
  to_list-of_list (x ∷ xs) = λ i. x ∷ to_list-of_list xs i

-- The dynamic types that a Go map takes as keys.
unfoldable pub hashable : {F : Type 0} → Ast F → Bool
hashable Ast.nil_list = false
hashable (Ast.list xs) = false
hashable (Ast.hmap m) = false
hashable (Ast.sexp xs p) = false
hashable (Ast.label l) = false
hashable (Ast.lambda xs b c) = false
hashable (Ast.root xs) = false
hashable (Ast.module_ast n xs) = false
hashable _ = true

abbrev pub atom_same : Atom → Atom → Bool
atom_same (Atom.machine i) (Atom.machine j) = i == j
atom_same (Atom.container i) (Atom.container j) = i == j
atom_same _ _ = false

abbrev pub key_same : Key → Key → Bool
key_same (Key.github a) (Key.github b) = str_eq a b
key_same (Key.plaintext a) (Key.plaintext b) = str_eq a b
key_same _ _ = false

module _ {F : Type 0} (fl : Float F) where
  abbrev pub range_same : AstRange F → AstRange F → Bool
  range_same a b = str_eq a.ident b.ident && fl.eq a.min b.min && fl.eq a.max b.max

  -- `==` on two interface values that are hashable.
  unfoldable pub key_eq : Ast F → Ast F → Bool
  key_eq (Ast.ident a) (Ast.ident b) = str_eq a b
  key_eq (Ast.string a) (Ast.string b) = str_eq a b
  key_eq (Ast.float a) (Ast.float b) = fl.eq a b
  key_eq (Ast.int a) (Ast.int b) = int_eq a b
  key_eq (Ast.bool true) (Ast.bool true) = true
  key_eq (Ast.bool false) (Ast.bool false) = true
  key_eq (Ast.ssh_key a) (Ast.ssh_key b) = key_same a b
  key_eq (Ast.size a) (Ast.size b) = str_eq a b
  key_eq (Ast.provider a) (Ast.provider b) = str_eq a b
  key_eq (Ast.role a) (Ast.role b) = str_eq a b
  key_eq (Ast.region a) (Ast.region b) = str_eq a b
  key_eq (Ast.disk_size a) (Ast.disk_size b) = int_eq a b
  key_eq (Ast.range a) (Ast.range b) = range_same a b
  key_eq (Ast.atom a) (Ast.atom b) = atom_same a b
  key_eq _ _ = false
