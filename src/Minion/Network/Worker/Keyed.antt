-- ===== src/Minion/Network/Worker/Keyed.antt =====
-- The keys of a set, and the lists that a map has at its keys (minion/network/worker.go).
use mathlib.Core.List.{
  mem-append, mem-append_left, mem-append_right, mem-cons, mem-cons_self, not-mem-nil, dec_mem,
}
use mathlib.Core.Logic.Or
use di.Prelude.{
  put, find-put, find-put_other, String, false, ◌≡◌, refl, sym, subst, List, [], ◌∷◌, ◌++◌, ite,
  Mem, str_eq,
}
use di.Minion.Network.Worker.{add_key, list_at}

module _ {A : Type 0} (discrete : Discrete A) (a : A) (set : List A) where
  pub add_key-mem : Mem a (add_key discrete a set)
  unfolding add_key
  add_key-mem = elim (dec_mem discrete a set) as (λ d. Mem a (ite d set (set ++ a ∷ []))) [
    | yes m ↦ m
    | no n ↦ mem-append_right set mem-cons_self
  ]

  pub add_key-grows : (b : A) → Mem b set → Mem b (add_key discrete a set)
  unfolding add_key
  add_key-grows b m = elim (dec_mem discrete a set) as (λ d. Mem b (ite d set (set ++ a ∷ []))) [
    | yes _ ↦ m
    | no n ↦ mem-append_left (a ∷ []) m
  ]

  pub add_key-only :
      (P : A → Type 0)
      → ((b : A) → IsProp (P b))
      → ((b : A) → Mem b set → P b)
      → P a
      → (b : A) → Mem b (add_key discrete a set)
      → P b
  unfolding add_key
  add_key-only P prop h p b =
      elim (dec_mem discrete a set) as (λ d. Mem b (ite d set (set ++ a ∷ [])) → P b) [
        | yes _ ↦ h b
        | no n ↦ λ m. Or.elim (prop b) (mem-append.0 m) (h b) (λ o.
            Or.elim (prop b) (mem-cons.0 o) (λ e. subst P (sym e) p) (λ z. absurd (not-mem-nil z)))
      ]

module _ {V : Type 0} (k : String) (vs : List V) (m : List (String × List V)) where
  pub list_at-put : list_at k (put k vs m) ≡ vs
  unfolding list_at
  list_at-put = rw (find-put k vs m, list_at) refl

module _ {V : Type 0} (q k : String) (vs : List V) (m : List (String × List V)) where
  pub list_at-put_other : str_eq k q ≡ false → list_at q (put k vs m) ≡ list_at q m
  unfolding list_at
  list_at-put_other n = rw (find-put_other q k vs m n, list_at) refl
