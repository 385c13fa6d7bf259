-- ===== src/Cluster/Cloud/Groups.antt =====
-- `provider.GroupBy` of provider/provider.go.
use mathlib.Core.List.{append_assoc, append-nil, perm_middle}
use mathlib.Core.List.Perm
use mathlib.Core.Bool.{false≢true}
use di.Prelude.{
  All-snoc, true, false, ◌≡◌, refl, sym, ◌∙◌, subst, List, [], ◌∷◌, ◌++◌, Perm, eq_iff, str_eq,
  Bool-cases, inl, inr, All,
}
use di.Db.Rows.{Provider}
use di.Cluster.Cloud.{CloudMachine, group_add, group_loop, group_by}

-- All machines of the groups, one group after the other.
abbrev pub members : List (Provider × List CloudMachine) → List CloudMachine
members [] = []
members ((p, ms) ∷ groups) = ms ++ members groups

-- Every machine of a group has the provider of the group.
abbrev pub Sorted : List (Provider × List CloudMachine) → Type 0
Sorted [] = Unit
Sorted ((p, ms) ∷ groups) = All (λ m. m.provider ≡ p) ms × Sorted groups

-- No later group has the provider `p`.
abbrev pub Absent : Provider → List (Provider × List CloudMachine) → Type 0
Absent p [] = Unit
Absent p ((q, ms) ∷ groups) = ¬ (q ≡ p) × Absent p groups

abbrev pub Separate : List (Provider × List CloudMachine) → Type 0
Separate [] = Unit
Separate ((p, ms) ∷ groups) = Absent p groups × Separate groups

module _ (m : CloudMachine) where
  add_here :
      (p : Provider) (ms : List CloudMachine) (groups : List (Provider × List CloudMachine))
      → str_eq p m.provider ≡ true
      → group_add m ((p, ms) ∷ groups) ≡ (p, ms ++ m ∷ []) ∷ groups
  unfolding group_add
  add_here p ms groups e = rw e refl

  add_later :
      (p : Provider) (ms : List CloudMachine) (groups : List (Provider × List CloudMachine))
      → str_eq p m.provider ≡ false
      → group_add m ((p, ms) ∷ groups) ≡ (p, ms) ∷ group_add m groups
  unfolding group_add
  add_later p ms groups e = rw e refl

  group_add-members :
      (groups : List (Provider × List CloudMachine))
      → Perm (members (group_add m groups)) (m ∷ members groups)
  unfolding group_add
  group_add-members [] = Perm.refl _
  group_add-members ((p, ms) ∷ groups) = elim (Bool-cases (str_eq p m.provider)) [
    | inl e ↦ rw (add_here p ms groups e, append_assoc) (perm_middle ms (members groups))
    | inr n ↦ rw (add_later p ms groups n) (
        Perm.trans (Perm.append_left ms (group_add-members groups))
          (perm_middle ms (members groups)))
  ]

  group_add-Sorted :
      (groups : List (Provider × List CloudMachine)) → Sorted groups → Sorted (group_add m groups)
  unfolding group_add
  group_add-Sorted [] h = ((refl, tt), tt)
  group_add-Sorted ((p, ms) ∷ groups) (a, h) = elim (Bool-cases (str_eq p m.provider)) [
    | inl e ↦
        rw (add_here p ms groups e)
          (All-snoc (λ x. x.provider ≡ p) ms m a (sym ((eq_iff p m.provider).0 e)), h)
    | inr n ↦ rw (add_later p ms groups n) (a, group_add-Sorted groups h)
  ]

  group_add-Absent :
      (q : Provider) (groups : List (Provider × List CloudMachine))
      → ¬ (m.provider ≡ q)
      → Absent q groups
      → Absent q (group_add m groups)
  unfolding group_add
  group_add-Absent q [] n h = (n, tt)
  group_add-Absent q ((p, ms) ∷ groups) n (a, h) = elim (Bool-cases (str_eq p m.provider)) [
    | inl e ↦ rw (add_here p ms groups e) (a, h)
    | inr f ↦ rw (add_later p ms groups f) (a, group_add-Absent q groups n h)
  ]

  group_add-Separate :
      (groups : List (Provider × List CloudMachine))
      → Separate groups
      → Separate (group_add m groups)
  unfolding group_add
  group_add-Separate [] h = (tt, tt)
  group_add-Separate ((p, ms) ∷ groups) (a, h) = elim (Bool-cases (str_eq p m.provider)) [
    | inl e ↦ rw (add_here p ms groups e) (a, h)
    | inr f ↦ rw (add_later p ms groups f) (
      group_add-Absent p groups (λ e. false≢true (sym f ∙ (eq_iff p m.provider).1 (sym e))) a,
      group_add-Separate groups h,
    )
  ]

loop-members :
    (ms : List CloudMachine) (groups : List (Provider × List CloudMachine))
    → Perm (members (group_loop ms groups)) (ms ++ members groups)
unfolding group_loop
loop-members [] groups = Perm.refl _
loop-members (m ∷ ms) groups = Perm.trans (loop-members ms (group_add m groups)) (
    Perm.trans (Perm.append_left ms (group_add-members m groups)) (perm_middle ms (members groups)))

loop-Sorted :
    (ms : List CloudMachine) (groups : List (Provider × List CloudMachine))
    → Sorted groups
    → Sorted (group_loop ms groups)
unfolding group_loop
loop-Sorted [] groups h = h
loop-Sorted (m ∷ ms) groups h = loop-Sorted ms (group_add m groups) (group_add-Sorted m groups h)

loop-Separate :
    (ms : List CloudMachine) (groups : List (Provider × List CloudMachine))
    → Separate groups
    → Separate (group_loop ms groups)
unfolding group_loop
loop-Separate [] groups h = h
loop-Separate (m ∷ ms) groups h =
    loop-Separate ms (group_add m groups) (group_add-Separate m groups h)

-- `GroupBy` puts every machine into one group, that of its provider, and no provider has two groups.
pub group_by_lem :
    (machines : List CloudMachine)
    → Perm (members (group_by machines)) machines
      × Sorted (group_by machines)
      × Separate (group_by machines)
unfolding group_by
group_by_lem machines = (
  subst (Perm (members (group_loop machines []))) (append-nil machines) (loop-members machines []),
  loop-Sorted machines [] tt,
  loop-Separate machines [] tt,
)
