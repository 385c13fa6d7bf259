-- ===== src/Prelude/Maps.antt =====
-- Go maps with string keys, as association lists in the order in which a range meets the keys.
use mathlib.Core.Bool.{false}
use mathlib.Core.HLevel.{¬_prop}
use mathlib.Core.List.{
  List, [], ◌∷◌, map, Mem, mem-cons, mem-cons_self, mem-cons_of_mem, not-mem-nil,
}
use mathlib.Core.Logic.{◌≢◌, inl, inr}
use mathlib.Core.Logic.Or
use mathlib.Core.Option.{Option, none, some}
use mathlib.Core.Path.{◌≡◌, refl, sym, subst}
use native.Mathlib.Omega.{arith}
use Prim.Native.String.{String}
use text.Mathlib.Text.{◌==◌ as str_eq}
use text.Mathlib.TextEquality.{eq_iff}
use di.Prelude.ForAll.{All}
use di.Prelude.Tests.{if◌then◌else◌, Bool-cases, none≢some}

module _ {V : Type 0} where
  -- `v, ok := m[k]`
  unfoldable pub find : String → List (String × V) → Option V
  find k [] = none
  find k ((j, v) ∷ m) = let rest = find k m in if str_eq j k then some v else rest

  -- `m[k] = v`
  unfoldable pub put : String → V → List (String × V) → List (String × V)
  put k v [] = (k, v) ∷ []
  put k v ((j, w) ∷ m) = let rest = put k v m in if str_eq j k then (j, v) ∷ m else (j, w) ∷ rest

  -- `delete(m, k)`
  unfoldable pub del : String → List (String × V) → List (String × V)
  del k [] = []
  del k ((j, w) ∷ m) = let rest = del k m in if str_eq j k then rest else (j, w) ∷ rest

  unfoldable pub keys : List (String × V) → List String
  keys dir = map (λ e. e.0) dir

  abbrev pub HasKey : String → List (String × V) → Type 0
  HasKey k dir = find k dir ≢ none

  pub put-All :
      (P : String × V → Type 0) (k : String) (v : V) (l : List (String × V))
      → ((j : String) → j ≡ k → P (j, v))
      → All P l
      → All P (put k v l)
  unfolding put
  put-All P k v [] p h = (p k refl, tt)
  put-All P k v ((j, n) ∷ l) p (a, h) = elim (Bool-cases (str_eq j k)) [
    | inl e ↦ rw (e, put) (p j ((eq_iff j k).0 e), h)
    | inr e ↦ rw (e, put) (a, put-All P k v l p h)
  ]

pub find-del : {V : Type 0} (k : String) (dir : List (String × V)) → find k (del k dir) ≡ none
unfolding find del
find-del k [] = refl
find-del k ((j, m) ∷ dir) = elim (Bool-cases (str_eq j k)) [
  | inl e ↦ rw (e, del) (find-del k dir)
  | inr e ↦ rw (e, del) (rw (e, find) (find-del k dir))
]

pub find-del_other :
    {V : Type 0} (q k : String) (dir : List (String × V))
    → str_eq k q ≡ false
    → find q (del k dir) ≡ find q dir
unfolding find del
find-del_other q k [] n = refl
find-del_other q k ((j, m) ∷ dir) n = elim (Bool-cases (str_eq j k)) [
  | inl e ↦
      let same : j ≡ k = (eq_iff j k).0 e in
      rw (e, del) (rw (same, n, find) (find-del_other q k dir n))
  | inr e ↦ rw (e, del) (rw (find-del_other q k dir n) refl)
]

pub find-put :
    {V : Type 0} (k : String) (m : V) (dir : List (String × V)) → find k (put k m dir) ≡ some m
unfolding find put
find-put k m [] = rw ((eq_iff k k).1 refl) refl
find-put k m ((j, n) ∷ dir) = elim (Bool-cases (str_eq j k)) [
  | inl e ↦ rw (e, put) (rw (e, find) refl)
  | inr e ↦ rw (e, put) (rw (e, find) (find-put k m dir))
]

pub find-put_other :
    {V : Type 0} (q k : String) (m : V) (dir : List (String × V))
    → str_eq k q ≡ false
    → find q (put k m dir) ≡ find q dir
unfolding find put
find-put_other q k m [] n = rw n refl
find-put_other q k m ((j, o) ∷ dir) n = elim (Bool-cases (str_eq j k)) [
  | inl e ↦ let same : j ≡ k = (eq_iff j k).0 e in rw (e, put) (rw (same, n, find) refl)
  | inr e ↦ rw (e, put) (rw (find-put_other q k m dir n) refl)
]

pub has_key-mem :
    {V : Type 0} (k : String) (dir : List (String × V)) → HasKey k dir → Mem k (keys dir)
unfolding find keys
has_key-mem k [] h = absurd (h refl)
has_key-mem k ((j, m) ∷ dir) h = elim (Bool-cases (str_eq j k)) [
  | inl e ↦ subst (λ x. Mem x (j ∷ keys dir)) ((eq_iff j k).0 e) mem-cons_self
  | inr e ↦ mem-cons_of_mem j (has_key-mem k dir (rw e at h))
]

pub mem-HasKey :
    {V : Type 0} (k : String) (dir : List (String × V)) → Mem k (keys dir) → HasKey k dir
unfolding find keys
mem-HasKey k [] m = absurd (not-mem-nil m)
mem-HasKey k ((j, v) ∷ dir) m = elim (Bool-cases (str_eq j k)) [
  | inl e ↦ rw e (λ f. none≢some (sym f))
  | inr e ↦
      rw e (Or.elim ¬_prop (mem-cons.0 m) (λ f. ground (arith, eq_iff j k)) (mem-HasKey k dir))
]
