-- ===== src/Prelude/Perms.antt =====
-- Facts on permutations that the components share.
use mathlib.Core.Bool.{Bool}
use mathlib.Core.List.{
  List, [], ◌∷◌, ◌++◌, filter, Perm, perm_middle, append_assoc, perm_append_comm,
}
use mathlib.Core.List.Perm
use mathlib.Core.List.{not-mem-nil, mem-cons_self}
use mathlib.Core.List.Memᴰ
use mathlib.Core.Logic.{∥∥₁_elim}
use mathlib.Core.Path.{◌≡◌, subst}
use native.Mathlib.Omega.{arith}
use di.Prelude.Tests.{dec_true, dec_false}

module _ {ℓ} {A : Type ℓ} where
  -- A test splits a list into what passes and what fails.
  pub perm-filter-split :
      (check : A → Bool) (xs : List A)
      → Perm xs (filter (λ x. dec_true (check x)) xs ++ filter (λ x. dec_false (check x)) xs)
  perm-filter-split check [] = Perm.nil
  perm-filter-split check (x ∷ xs) =
      let rest = Perm.cons x (perm-filter-split check xs) in
      let kept = filter (λ y. dec_true (check y)) xs in
      let dropped = filter (λ y. dec_false (check y)) xs in
      ground (arith, rest, Perm.trans rest (Perm.symm (perm_middle kept dropped)))

  -- The last element of a front part may come first.
  pub perm_snoc : (a : A) (xs ys : List A) → Perm ((xs ++ a ∷ []) ++ ys) (a ∷ (xs ++ ys))
  perm_snoc a xs ys = rw append_assoc (perm_middle xs ys)

  pub perm_rotate : (xs ys zs : List A) → Perm ((xs ++ ys) ++ zs) (ys ++ (xs ++ zs))
  perm_rotate xs ys zs = rw (← append_assoc) (Perm.append_right zs (perm_append_comm xs ys))

  pub perm_sole : IsSet A → (xs : List A) (x : A) → Perm xs (x ∷ []) → xs ≡ x ∷ []
  perm_sole s [] x p = absurd (not-mem-nil ((Perm.mem_iff p).1 mem-cons_self))
  perm_sole s (y ∷ ys) x p =
      let e : y ≡ x = ∥∥₁_elim ((Perm.mem_iff p).0 mem-cons_self) (s y x) Memᴰ.eq_of_singleton in
      let q : Perm (x ∷ ys) (x ∷ []) = subst (λ z. Perm (z ∷ ys) (x ∷ [])) e p in
      λ i. e i ∷ Perm.eq-nil (Perm.cons_inv q) i
