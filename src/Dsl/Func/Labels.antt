-- ===== src/Dsl/Func/Labels.antt =====
-- dsl/func.go: labels, the connections between them and the placement of their containers.
use di.Prelude.{
  ℕ, String, Bool, true, false, not, ◌&&◌, ◌||◌, Option, none, some, List, [], ◌∷◌, ◌++◌, map, ℤ,
  pos, str_eq, int_eq, str_ltb, ltb, find, length, ◌<>◌, if◌then◌else◌,
}
use di.Db.Rows.Less.{int_ltb}
use di.Dsl.Ast.{Ast, nil, cons, AstLabel, Atom, Ctx, no_position, of_list}
use di.Dsl.Store.{M, pure, need, ◌>>=◌, ◌>>◌, traverse, fold_left, each, index}
use di.Dsl.Store.Actions.{
  get_frame, get_shared, get_machine, set_machine, get_container, set_container_labels,
  set_exclusive, global_shared, add_label, add_connection,
}
use di.Dsl.Func.{Builtin, as_int, as_container, string_arg, drop, raise, raise_if}
use di.Dsl.Func.Lists.{flatten}

-- `PublicInternetLabel`
abbrev pub public_label : String
public_label = "public"

module _ {F : Type 0} where
  -- The tables of labels on the chain of contexts, the innermost first.
  unfoldable pub find_label : Ctx → String → M F (Option AstLabel)
  find_label [] name = pure none
  find_label (i ∷ parents) name = do
    fr ← get_frame i
    sh ← get_shared fr.shared
    let rest = find_label parents name
    elim (find name sh.labels) [ some l ↦ pure (some l) | none ↦ rest ]

  unfoldable pub resolve_label : Ctx → Ast F → M F (Option AstLabel)
  resolve_label ctx (Ast.string s) =
      if str_eq s public_label
      then pure (some (record { ident = s; elems = [] }))
      else find_label ctx s
  resolve_label ctx (Ast.label l) = pure (some l)
  resolve_label ctx _ = pure none

  unfoldable pub expect_label : Ctx → Ast F → M F AstLabel
  expect_label ctx a = do found ← resolve_label ctx a; need found "expected label, found: %v"

  unfoldable pub flatten_label : Ctx → List (Ast F) → M F (List AstLabel)
  flatten_label ctx lst = traverse (expect_label ctx) (flatten lst)

  -- The atoms that one argument of `label` stands for.
  unfoldable pub atoms_of : Ctx → Ast F → M F (List Atom)
  atoms_of ctx (Ast.atom a) = pure (a ∷ [])
  atoms_of ctx (Ast.string s) = do
    found ← resolve_label ctx (Ast.string s)
    l ← need found "undefined label: %s"
    pure l.elems
  atoms_of ctx (Ast.label k) = do
    found ← resolve_label ctx (Ast.label k)
    l ← need found "undefined label: %s"
    pure l.elems
  atoms_of ctx _ = raise "label must apply to atoms or other labels, found: %s"

  abbrev more_atoms : Ctx → List Atom → Ast F → M F (List Atom)
  more_atoms ctx atoms elem = atoms_of ctx elem >>= λ more. pure (atoms ++ more)

  unfoldable pub collect_atoms : Ctx → List (Ast F) → M F (List Atom)
  collect_atoms ctx elems = fold_left (more_atoms ctx) [] elems

abbrev pub is_defined : Option AstLabel → Bool
is_defined none = false
is_defined (some l) = true

-- The same atom may be listed twice: its last label is not added again.
unfoldable pub with_label : String → List String → List String
with_label name [] = name ∷ []
with_label name (l ∷ []) = if str_eq l name then l ∷ [] else l ∷ name ∷ []
with_label name (l ∷ k ∷ ls) = l ∷ with_label name (k ∷ ls)

module _ {F : Type 0} where
  unfoldable pub tag_atom : String → Atom → M F (Unit {0})
  tag_atom name (Atom.machine i) = do
    m ← get_machine i
    set_machine i (record m { labels = with_label name m.labels })
  tag_atom name (Atom.container i) = do
    c ← get_container i
    set_container_labels i (with_label name c.labels)

  -- `ctx.globalCtx().labels[label] = newLabel`, after the checks of the name.
  unfoldable pub define_label : Ctx → String → List Atom → M F (Ast F)
  define_label ctx name atoms = do
    g ← global_shared ctx
    let new : AstLabel = record { ident = name; elems = atoms }
    add_label g name new
    pure (Ast.label new)

  unfoldable pub label_named : Ctx → String → List (Ast F) → M F (Ast F)
  label_named ctx name elems = do
    found ← resolve_label ctx (Ast.string name)
    raise_if (is_defined found) "attempt to redefine label: %s"
    atoms ← collect_atoms ctx (flatten elems)
    each (tag_atom name) atoms
    define_label ctx name atoms

  unfoldable pub label_impl : Builtin F
  label_impl ctx args = do
    name ← string_arg args 0 "label must be a string, found: %s"
    if str_eq name public_label
        then raise "the \"public\" label is reserved for the public internet"
        else label_named ctx name (drop 1 args)

  unfoldable pub label_name_impl : Builtin F
  label_name_impl ctx args = do
    a ← index args 0
    found ← resolve_label ctx a
    l ← need found "labelName applies to labels: %s"
    pure (Ast.string l.ident)

  unfoldable pub label_host_impl : Builtin F
  label_host_impl ctx args = do
    a ← index args 0
    found ← resolve_label ctx a
    l ← need found "labelHost applies to labels: %s"
    pure (Ast.string (l.ident <> ".di"))

  -- The ports that `connectImpl` reads from its first argument.
  unfoldable pub port_range : Ast F → M F (ℤ × ℤ)
  port_range (Ast.int n) = pure (n, n)
  port_range (Ast.list (cons a (cons b nil))) = do
    lo ← need (as_int a) "port range must have two ints: %s"
    hi ← need (as_int b) "port range must have two ints: %s"
    pure (lo, hi)
  port_range (Ast.list _) = raise "port range must have two ints: %s"
  port_range Ast.nil_list = raise "port range must have two ints: %s"
  port_range _ = raise "port range must be an int or a list of ints: %s"

abbrev pub is_public : AstLabel → Bool
is_public l = str_eq l.ident public_label

abbrev pub port_max : ℤ
port_max = pos 65535

module _ {F : Type 0} where
  unfoldable pub connect_pair : ℕ → ℤ → ℤ → AstLabel → AstLabel → M F (Unit {0})
  connect_pair g lo hi from to =
      if (is_public from || is_public to) && not (int_eq lo hi)
      then raise "Public Internet cannot connect on port ranges"
      else if is_public from && is_public to
      then raise "cannot connect Public Internet to itself"
      else add_connection g
          (record { from = from.ident; to = to.ident; min_port = lo; max_port = hi })

  unfoldable pub connect_labels : Ctx → List (Ast F) → ℤ → ℤ → M F (Ast F)
  connect_labels ctx args lo hi = do
    from ← index args 1
    froms ← flatten_label ctx (from ∷ [])
    tos ← flatten_label ctx (drop 2 args)
    g ← global_shared ctx
    each (λ from. each (connect_pair g lo hi from) tos) froms
    pure (Ast.list nil)

  unfoldable pub connect_impl : Builtin F
  connect_impl ctx args = do
    ports ← index args 0
    (lo, hi) ← port_range ports
    if int_ltb lo (pos 0) || int_ltb port_max hi
        then raise "invalid port range: [%d, %d]"
        else if int_ltb hi lo
        then raise "invalid port range: [%d, %d]"
        else connect_labels ctx args lo hi

-- A set of pairs of names, as a Go map whose values are empty.
unfoldable pub add_pair : String × String → List (String × String) → List (String × String)
add_pair p [] = p ∷ []
add_pair (a, b) ((c, d) ∷ ps) =
    let rest = add_pair (a, b) ps in if str_eq c a && str_eq d b then (c, d) ∷ ps else (c, d) ∷ rest

abbrev pub ordered_pair : String → String → String × String
ordered_pair a b = if str_ltb a b then (a, b) else (b, a)

-- `parsedLabels` of `placementImpl`: every two labels, the lower name first.
unfoldable pub pairs_with : String → List String → List (String × String) → List (String × String)
unfolding add_pair
pairs_with a [] ps = ps
pairs_with a (b ∷ bs) ps = pairs_with a bs (add_pair (ordered_pair a b) ps)

unfoldable pub all_pairs : List String → List (String × String) → List (String × String)
unfolding pairs_with
all_pairs [] ps = ps
all_pairs (a ∷ as') ps = all_pairs as' (pairs_with a as' ps)

unfoldable pub add_pairs : List (String × String) → List (String × String) → List (String × String)
unfolding add_pair
add_pairs [] ps = ps
add_pairs (q ∷ qs) ps = add_pairs qs (add_pair q ps)

module _ {F : Type 0} where
  unfoldable pub place_atom : List (String × String) → Atom → M F (Unit {0})
  place_atom pairs a = do
    i ← need (as_container a) "placement labels must contain containers: %s"
    c ← get_container i
    set_exclusive i (add_pairs pairs c.exclusive)

  unfoldable pub placement_impl : Builtin F
  placement_impl ctx args = do
    ptype ← string_arg args 0 "placement type must be a string, found: %s"
    labels ← flatten_label ctx (drop 1 args)
    raise_if (ltb (length labels) 2) "placment requires at least 2 labels."
    let pairs = all_pairs (map (λ (l : AstLabel). l.ident) labels) []
    raise_if (not (str_eq ptype "exclusive")) "not a valid placement type: %s"
    each (λ (l : AstLabel). each (place_atom pairs) l.elems) labels
    pure (Ast.sexp (cons (Ast.ident "placement") (of_list args)) no_position)
