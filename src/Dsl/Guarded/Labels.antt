-- ===== src/Dsl/Guarded/Labels.antt =====
-- The functions of dsl/func.go on labels and atoms are guarded: the checks before each write.
use mathlib.Core.Bool.{false≢true}
use di.Prelude.{
  ap, ==_iff, find, ℕ, String, true, false, not, ◌&&◌, ◌||◌, ℤ, pos, negsuc, none, List, [], ◌∷◌,
  ◌≡◌, ◌≢◌, ◌⊎◌, inl, inr, refl, sym, ◌∙◌, arith, str_eq, eq_iff, int_eq,
}
use di.Db.Rows.Less.{int_ltb}
use di.Dsl.Ast.{Ast, nil, cons, Ctx, AstLabel, Atom}
use di.Dsl.Store.Actions.{
  head_frame, get_frame, get_shared, get_machine, get_container, global_ctx, global_shared,
  deep_copy, new_eval_ctx, get_binds, set_binds, bind,
}
use di.Dsl.Guarded.{
  InRange, Connectable, pures, binds, guarded, index-Guarded, panics, raise-Guarded,
  raise_if-Guarded, if-Guarded, each-Guarded, option-Guarded, adds_label, adds_connection,
}
use di.Dsl.Guarded.Pure.{Sound, Safe, string_arg-Guarded}
use di.Dsl.Func.Labels.{
  public_label, find_label, resolve_label, expect_label, flatten_label, atoms_of, collect_atoms,
  tag_atom, define_label, label_named, label_impl, label_name_impl, label_host_impl, port_range,
  is_public, port_max, connect_pair, connect_labels, connect_impl, place_atom, placement_impl,
}

module _ {F : Type 0} where
  pub head_frame-Guarded : (ctx : Ctx) → Safe {F = F} (head_frame ctx)
  unfolding head_frame
  head_frame-Guarded [] = panics
  head_frame-Guarded (i ∷ is) = pures i

  pub get_frame-Guarded : (i : ℕ) → Safe {F = F} (get_frame i)
  unfolding get_frame
  get_frame-Guarded i = search guarded

  pub get_shared-Guarded : (i : ℕ) → Safe {F = F} (get_shared i)
  unfolding get_shared
  get_shared-Guarded i = search guarded

  pub get_machine-Guarded : (i : ℕ) → Safe {F = F} (get_machine i)
  unfolding get_machine
  get_machine-Guarded i = search guarded

  pub get_container-Guarded : (i : ℕ) → Safe {F = F} (get_container i)
  unfolding get_container
  get_container-Guarded i = search guarded

  pub global_ctx-Guarded : (ctx : Ctx) → Safe {F = F} (global_ctx ctx)
  unfolding global_ctx
  global_ctx-Guarded [] = panics
  global_ctx-Guarded (i ∷ []) = pures _
  global_ctx-Guarded (i ∷ j ∷ is) = global_ctx-Guarded (j ∷ is)

  pub global_shared-Guarded : (ctx : Ctx) → Safe {F = F} (global_shared ctx)
  unfolding global_shared
  global_shared-Guarded ctx =
      search (guarded, global_ctx-Guarded, head_frame-Guarded, get_frame-Guarded)

  pub deep_copy-Guarded : (ctx : Ctx) → Safe {F = F} (deep_copy ctx)
  unfolding deep_copy
  deep_copy-Guarded [] = pures []
  deep_copy-Guarded (i ∷ is) = search (guarded, get_frame-Guarded, deep_copy-Guarded is)

  pub new_eval_ctx-Guarded : (ctx : Ctx) → Safe {F = F} (new_eval_ctx ctx)
  unfolding new_eval_ctx
  new_eval_ctx-Guarded ctx = search guarded

  pub get_binds-Guarded : (ctx : Ctx) → Safe {F = F} (get_binds ctx)
  unfolding get_binds
  get_binds-Guarded ctx = search (guarded, head_frame-Guarded, get_frame-Guarded)

  pub set_binds-Guarded : (ctx : Ctx) (b : List (String × Ast F)) → Safe (set_binds ctx b)
  unfolding set_binds
  set_binds-Guarded ctx b = search (guarded, head_frame-Guarded, get_frame-Guarded)

  pub bind-Guarded : (ctx : Ctx) (name : String) (v : Ast F) → Safe (bind ctx name v)
  unfolding bind
  bind-Guarded ctx name v = search (guarded, get_binds-Guarded, set_binds-Guarded)

  find_label-Guarded : (ctx : Ctx) (name : String) → Safe {F = F} (find_label ctx name)
  unfolding find_label
  find_label-Guarded [] name = pures none
  find_label-Guarded (i ∷ is) name = binds (get_frame-Guarded i) (λ fr.
      binds (get_shared-Guarded fr.shared)
        (λ sh. option-Guarded (find name sh.labels) (find_label-Guarded is name) (λ l. pures _)))

  pub resolve_label-Guarded : (ctx : Ctx) (a : Ast F) → Safe (resolve_label ctx a)
  unfolding resolve_label
  resolve_label-Guarded ctx (Ast.string s) = search (guarded, find_label-Guarded)
  resolve_label-Guarded ctx _ = pures _

  expect_label-Guarded : (ctx : Ctx) (a : Ast F) → Safe (expect_label ctx a)
  unfolding expect_label
  expect_label-Guarded ctx a = search (guarded, resolve_label-Guarded)

  flatten_label-Guarded : (ctx : Ctx) (lst : List (Ast F)) → Safe (flatten_label ctx lst)
  unfolding flatten_label
  flatten_label-Guarded ctx lst = search (guarded, expect_label-Guarded)

  atoms_of-Guarded : (ctx : Ctx) (a : Ast F) → Safe (atoms_of ctx a)
  unfolding atoms_of
  atoms_of-Guarded ctx (Ast.string s) = search (guarded, resolve_label-Guarded)
  atoms_of-Guarded ctx (Ast.label l) = search (guarded, resolve_label-Guarded)
  atoms_of-Guarded ctx (Ast.atom a) = pures _
  atoms_of-Guarded ctx _ = raise-Guarded _

  collect_atoms-Guarded : (ctx : Ctx) (lst : List (Ast F)) → Safe (collect_atoms ctx lst)
  unfolding collect_atoms
  collect_atoms-Guarded ctx lst = search (guarded, atoms_of-Guarded)

  tag_atom-Guarded : (name : String) (a : Atom) → Safe {F = F} (tag_atom name a)
  unfolding tag_atom
  tag_atom-Guarded name (Atom.machine i) = search (guarded, get_machine-Guarded)
  tag_atom-Guarded name (Atom.container i) = search (guarded, get_container-Guarded)

  define_label-Guarded :
      (ctx : Ctx) (name : String) (atoms : List Atom)
      → name ≢ public_label
      → Safe {F = F} (define_label ctx name atoms)
  unfolding define_label
  define_label-Guarded ctx name atoms n =
      binds (global_shared-Guarded ctx) (λ g. binds (adds_label g name _ refl n) (λ _. pures _))

  label_named-Guarded :
      (ctx : Ctx) (name : String) (elems : List (Ast F))
      → name ≢ public_label
      → Safe (label_named ctx name elems)
  unfolding label_named
  label_named-Guarded ctx name elems n = binds (resolve_label-Guarded ctx _) (λ found.
      binds (raise_if-Guarded _ _) (λ _. binds (collect_atoms-Guarded ctx _) (λ atoms.
        binds (each-Guarded (tag_atom-Guarded name) atoms)
          (λ _. define_label-Guarded ctx name atoms n))))

  pub label_impl-Sound : Sound {F = F} label_impl
  unfolding label_impl
  label_impl-Sound ctx args = binds (string_arg-Guarded args 0 _) (λ name.
      if-Guarded (str_eq name public_label) (λ e. raise-Guarded _)
        (λ e. label_named-Guarded ctx name _ (λ p. false≢true (sym e ∙ (eq_iff _ _).1 p))))

  pub label_name_impl-Sound : Sound {F = F} label_name_impl
  unfolding label_name_impl
  label_name_impl-Sound ctx args = search (guarded, resolve_label-Guarded)

  pub label_host_impl-Sound : Sound {F = F} label_host_impl
  unfolding label_host_impl
  label_host_impl-Sound ctx args = search (guarded, resolve_label-Guarded)

  port_range-Guarded : (a : Ast F) → Safe (port_range a)
  unfolding port_range
  port_range-Guarded (Ast.int n) = pures _
  port_range-Guarded (Ast.list (cons a (cons b nil))) = search guarded
  port_range-Guarded (Ast.list nil) = raise-Guarded _
  port_range-Guarded (Ast.list (cons a nil)) = raise-Guarded _
  port_range-Guarded (Ast.list (cons a (cons b (cons c xs)))) = raise-Guarded _
  port_range-Guarded Ast.nil_list = raise-Guarded _
  port_range-Guarded _ = raise-Guarded _

  place_atom-Guarded : (ps : List (String × String)) (a : Atom) → Safe {F = F} (place_atom ps a)
  unfolding place_atom
  place_atom-Guarded ps a = search (guarded, get_container-Guarded)

  pub placement_impl-Sound : Sound {F = F} placement_impl
  unfolding placement_impl
  placement_impl-Sound ctx args = binds (string_arg-Guarded args 0 _) (λ ptype.
      binds (flatten_label-Guarded ctx _) (λ ls. binds (raise_if-Guarded _ _) (λ _.
        binds (raise_if-Guarded _ _) (λ _.
          binds (each-Guarded (λ (l : AstLabel). each-Guarded (place_atom-Guarded _) l.elems) ls)
            (λ _. pures _)))))

-- The checks of `connectImpl` on the ports and on the public internet.
ports-InRange :
    (lo hi : ℤ)
    → (int_ltb lo (pos 0) || int_ltb port_max hi) ≡ false
    → int_ltb hi lo ≡ false
    → InRange lo hi
ports-InRange (pos a) (pos b) p q = (ground arith, ground arith)
ports-InRange (pos a) (negsuc b) p q = cc
ports-InRange (negsuc a) hi p q = cc

int_eq_sound : (a b : ℤ) → int_eq a b ≡ true → a ≡ b
int_eq_sound (pos a) (pos b) e = ap pos ((==_iff a b).0 e)
int_eq_sound (negsuc a) (negsuc b) e = ap negsuc ((==_iff a b).0 e)
int_eq_sound (pos a) (negsuc b) e = cc
int_eq_sound (negsuc a) (pos b) e = cc

public-test : (l : AstLabel) → l.ident ≡ public_label → is_public l ≡ true
public-test l e = (eq_iff _ _).1 e

one_port :
    (lo hi : ℤ) (from to : AstLabel)
    → ((is_public from || is_public to) && not (int_eq lo hi)) ≡ false
    → (from.ident ≡ public_label) ⊎ (to.ident ≡ public_label)
    → int_eq lo hi ≡ true
one_port lo hi from to p (inl e) = let t = public-test from e in ground arith
one_port lo hi from to p (inr e) = let t = public-test to e in ground arith

pair-Connectable :
    (lo hi : ℤ) (from to : AstLabel)
    → InRange lo hi
    → ((is_public from || is_public to) && not (int_eq lo hi)) ≡ false
    → (is_public from && is_public to) ≡ false
    → Connectable (record { from = from.ident; to = to.ident; min_port = lo; max_port = hi })
pair-Connectable lo hi from to r p q = record {
  in_range = r;
  public_port = λ e. int_eq_sound lo hi (one_port lo hi from to p e);
  public_once = λ e f. cc (public-test from e, public-test to f, q);
}

module _ {F : Type 0} where
  connect_pair-Guarded :
      (g : ℕ) (lo hi : ℤ) (from to : AstLabel)
      → InRange lo hi
      → Safe {F = F} (connect_pair g lo hi from to)
  unfolding connect_pair
  connect_pair-Guarded g lo hi from to h =
      if-Guarded _ (λ _. raise-Guarded _)
        (λ p.
          if-Guarded _ (λ _. raise-Guarded _)
            (λ q. adds_connection g _ (pair-Connectable lo hi from to h p q)))

  connect_labels-Guarded :
      (ctx : Ctx) (args : List (Ast F)) (lo hi : ℤ)
      → InRange lo hi
      → Safe (connect_labels ctx args lo hi)
  unfolding connect_labels
  connect_labels-Guarded ctx args lo hi h = binds (index-Guarded args 1) (λ from.
      binds (flatten_label-Guarded ctx _) (λ froms. binds (flatten_label-Guarded ctx _) (λ tos.
        binds (global_shared-Guarded ctx) (λ g.
          binds
            (each-Guarded (λ from. each-Guarded (λ to. connect_pair-Guarded g lo hi from to h) tos)
              froms)
            (λ _. pures _)))))

  pub connect_impl-Sound : Sound {F = F} connect_impl
  unfolding connect_impl
  connect_impl-Sound ctx args = binds (index-Guarded args 0) (λ a.
      binds (port_range-Guarded a) (λ (lo, hi).
        if-Guarded _ (λ _. raise-Guarded _)
          (λ p.
            if-Guarded _ (λ _. raise-Guarded _)
              (λ q. connect_labels-Guarded ctx args lo hi (ports-InRange lo hi p q)))))
