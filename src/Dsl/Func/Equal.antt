-- ===== src/Dsl/Func/Equal.antt =====
-- `=` of dsl/func.go, which is `reflect.DeepEqual`: it follows pointers, and a function is compared
-- by its parameters, its body and all that its context reaches.
use di.Prelude.{
  ℕ, zero, suc, ◌+◌, String, Bool, true, false, not, ◌&&◌, Option, none, some, List, [], ◌∷◌,
  int_eq, str_eq, ◌==◌, if◌then◌else◌, length, get_elem?, find,
}
use di.Dsl.{Float, DslConnection}
use di.Dsl.Ast.{
  Ast, Asts, Pairs, Position, Ctx, Atom, AstLabel, nil, cons, end, pair, key_eq, key_same,
  range_same,
}
use di.Dsl.Store.{
  Frame, Shared, AstMachine, AstContainer, Store, M, pure, no_fuel, gets, ◌>>=◌, index,
}
use di.Dsl.Store.Actions.{find_key, connection_eq}
use di.Dsl.Func.{Builtin, to_pairs}

-- A comparison that has not come to its end is `none`.
abbrev both : Option Bool → Option Bool → Option Bool
both (some true) o = o
both (some false) o = some false
both none o = none

abbrev all_of : {A : Type 0} → (A → Option Bool) → List A → Option Bool
all_of f [] = some true
all_of f (x ∷ xs) = both (f x) (all_of f xs)

abbrev zip_all : {A : Type 0} → (A → A → Option Bool) → List A → List A → Option Bool
zip_all f [] [] = some true
zip_all f (x ∷ xs) (y ∷ ys) = both (f x y) (zip_all f xs ys)
zip_all f _ _ = some false

abbrev on_found : {A : Type 0} → (A → Option Bool) → Option A → Option Bool
on_found f none = some false
on_found f (some a) = f a

abbrev bool_same : Bool → Bool → Bool
bool_same true b = b
bool_same false b = not b

abbrev strings_same : List String → List String → Option Bool
strings_same = zip_all (λ s t. some (str_eq s t))

abbrev position_same : Position → Position → Bool
position_same p q =
    str_eq p.filename q.filename && p.offset == q.offset && p.line == q.line && p.column == q.column

abbrev label_same : (Atom → Atom → Option Bool) → AstLabel → AstLabel → Option Bool
label_same atoms l k = both (some (str_eq l.ident k.ident)) (zip_all atoms l.elems k.elems)

-- Maps are equal if they have the same keys with equal values.
abbrev maps_same :
    {V : Type 0} → (V → V → Option Bool) → List (String × V) → List (String × V) → Option Bool
maps_same f m n = both (some (length m == length n)) (all_of (λ e. on_found (f e.1) (find e.0 n)) m)

abbrev has_connection : List DslConnection → DslConnection → Bool
has_connection [] c = false
has_connection (d ∷ ds) c = if connection_eq d c then true else has_connection ds c

module _ {F : Type 0} (fl : Float F) where
  mutual
    unfolding key_eq find_key

    equal_ast :
        (Atom → Atom → Option Bool) → (Ctx → Ctx → Option Bool) → Ast F → Ast F → Option Bool
    equal_ast atoms ctxs (Ast.atom a) (Ast.atom b) = atoms a b
    equal_ast atoms ctxs Ast.nil_list Ast.nil_list = some true
    equal_ast atoms ctxs (Ast.list xs) (Ast.list ys) = equal_asts atoms ctxs xs ys
    equal_ast atoms ctxs (Ast.root xs) (Ast.root ys) = equal_asts atoms ctxs xs ys
    equal_ast atoms ctxs (Ast.sexp xs p) (Ast.sexp ys q) =
        both (equal_asts atoms ctxs xs ys) (some (position_same p q))
    equal_ast atoms ctxs (Ast.module_ast a xs) (Ast.module_ast b ys) =
        both (some (str_eq a b)) (equal_asts atoms ctxs xs ys)
    equal_ast atoms ctxs (Ast.label a) (Ast.label b) = label_same atoms a b
    equal_ast atoms ctxs (Ast.lambda ns xs c) (Ast.lambda ms ys d) =
        both (strings_same ns ms) (both (equal_asts atoms ctxs xs ys) (ctxs c d))
    equal_ast atoms ctxs (Ast.hmap m) (Ast.hmap n) =
        both (some (length (to_pairs m) == length (to_pairs n)))
          (equal_pairs atoms ctxs m (to_pairs n))
    equal_ast atoms ctxs a b = some (key_eq fl a b)

    equal_asts :
        (Atom → Atom → Option Bool) → (Ctx → Ctx → Option Bool) → Asts F → Asts F → Option Bool
    equal_asts atoms ctxs nil nil = some true
    equal_asts atoms ctxs (cons x xs) (cons y ys) =
        both (equal_ast atoms ctxs x y) (equal_asts atoms ctxs xs ys)
    equal_asts atoms ctxs _ _ = some false

    equal_pairs :
        (Atom → Atom → Option Bool)
        → (Ctx → Ctx → Option Bool)
        → Pairs F
        → List (Ast F × Ast F)
        → Option Bool
    equal_pairs atoms ctxs end n = some true
    equal_pairs atoms ctxs (pair k v m) n =
        both (elim (find_key fl k n) [ none ↦ some false | some w ↦ equal_ast atoms ctxs v w ])
          (equal_pairs atoms ctxs m n)

  machine_same : AstMachine F → AstMachine F → Option Bool
  machine_same m n =
      both
        (some (
          str_eq m.provider n.provider
          && str_eq m.role n.role
          && str_eq m.size n.size
          && str_eq m.region n.region
          && range_same fl m.cpu n.cpu
          && range_same fl m.ram n.ram
          && int_eq m.disk_size n.disk_size))
        (both (zip_all (λ a b. some (key_same a b)) m.ssh_keys n.ssh_keys)
          (strings_same m.labels n.labels))

  pair_same : String × String → String × String → Bool
  pair_same (a, b) (c, d) = str_eq a c && str_eq b d

  has_pair : List (String × String) → String × String → Bool
  unfolding pair_same
  has_pair [] p = false
  has_pair (q ∷ qs) p = if pair_same q p then true else has_pair qs p

  module _ (st : Store F) (deep : Ast F → Ast F → Option Bool) where
    container_same : AstContainer F → AstContainer F → Option Bool
    unfolding find_key has_pair
    container_same c d =
        both
          (some (
            str_eq c.image d.image
            && length c.env == length d.env
            && length c.exclusive == length d.exclusive))
          (both (zip_all deep c.command d.command) (
            both (all_of (λ e. on_found (deep e.1) (find_key fl e.0 d.env)) c.env) (
              both (all_of (λ p. some (has_pair d.exclusive p)) c.exclusive)
                (strings_same c.labels d.labels))))

    found_both : {A : Type 0} → (A → A → Option Bool) → Option A → Option A → Option Bool
    found_both f (some a) (some b) = f a b
    found_both f _ _ = none

    -- Pointers to the same object are equal.
    atoms_same : Atom → Atom → Option Bool
    unfolding machine_same container_same found_both
    atoms_same (Atom.machine i) (Atom.machine j) =
        if i == j
        then some true
        else found_both machine_same (get_elem? st.machines i) (get_elem? st.machines j)
    atoms_same (Atom.container i) (Atom.container j) =
        if i == j
        then some true
        else found_both container_same (get_elem? st.containers i) (get_elem? st.containers j)
    atoms_same _ _ = some false

    shared_same : Shared → Shared → Option Bool
    unfolding atoms_same
    shared_same s t = both (maps_same (label_same atoms_same) s.labels t.labels) (
        both (some (length s.connections == length t.connections)) (
          both (all_of (λ c. some (has_connection t.connections c)) s.connections) (
            both
              (zip_all (λ i j. atoms_same (Atom.machine i) (Atom.machine j)) s.machines t.machines)
              (zip_all (λ i j. atoms_same (Atom.container i) (Atom.container j)) s.containers
                t.containers))))

    frame_same : Frame F → Frame F → Option Bool
    unfolding shared_same found_both
    frame_same f g = both (maps_same deep f.binds g.binds) (
        if f.shared == g.shared
        then some true
        else found_both shared_same (get_elem? st.shareds f.shared) (get_elem? st.shareds g.shared))

    ctxs_same : Ctx → Ctx → Option Bool
    unfolding frame_same found_both
    ctxs_same [] [] = some true
    ctxs_same (i ∷ is) (j ∷ js) =
        if i == j
        then some true
        else both (found_both frame_same (get_elem? st.frames i) (get_elem? st.frames j))
            (ctxs_same is js)
    ctxs_same _ _ = some false

  -- Each step through a pointer takes one unit of fuel.
  unfoldable pub deep_equal : ℕ → Store F → Ast F → Ast F → Option Bool
  unfolding equal_ast atoms_same ctxs_same
  deep_equal zero st a b = none
  deep_equal (suc fuel) st a b =
      equal_ast (atoms_same st (deep_equal fuel st)) (ctxs_same st (deep_equal fuel st)) a b

  unfoldable pub answer : Option Bool → M F (Ast F)
  answer none = no_fuel
  answer (some b) = pure (Ast.bool b)

  unfoldable pub eq_impl : Builtin F
  eq_impl ctx args = do
    a ← index args 0
    b ← index args 1
    same ← gets (λ st. deep_equal (2 + length st.frames + length st.containers) st a b)
    answer same
