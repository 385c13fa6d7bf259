-- ===== src/Db/Tables/Effects.antt =====
-- What the row operations of db/db.go do to the rows of a table, up to order.
use mathlib.Core.HLevel.{hedberg, ¬_prop}
use mathlib.Core.Logic.Or
use mathlib.Core.Logic.{if_pos, if_neg}
use mathlib.Core.List.{
  mem-map_of_mem, mem-cons, mem-cons_self, mem-cons_of_mem, not-mem-nil, Nodup-cons, filter-eq_self,
}
use mathlib.Core.List.Perm
use di.Prelude.{
  ℕ, ◌+◌, ◌≡◌, ◌≢◌, refl, sym, ap, subst, ◌∙◌, inl, inr, none, some, List, [], ◌∷◌, map, Mem, Perm,
  Nodup, arith, dec_ne, Option-cases, Bool-cases, ◌==◌,
}
use di.Db.Tables.{Table, find, without, overwrite, commit}

module _ {A : Type 0} (id : A → ℕ) where
  -- The rows but one, and that none of them has the id of that one.
  abbrev pub Others : ℕ → List A → Type 0
  Others k rest = (x : A) → Mem x rest → id x ≢ k

  abbrev pub ids : List A → List ℕ
  ids = map id

  pub others :
      {rows rest : List A} {r : A} → Perm rows (r ∷ rest) → Nodup (ids rows) → Others (id r) rest
  others {rest = rest} {r = r} p u x m e =
      (Nodup-cons.0 (Perm.nodup (Perm.map id p) u)).0
        (subst (λ k. Mem k (ids rest)) e (mem-map_of_mem id m))

  pub without_others : (k : ℕ) (rest : List A) → Others k rest → without id k rest ≡ rest
  without_others k rest h = (filter-eq_self (λ r. dec_ne (id r) k) {l = rest}).1 h

  overwrite_others : (r : A) (rest : List A) → Others (id r) rest → overwrite id r rest ≡ rest
  overwrite_others r [] h = refl
  overwrite_others r (x ∷ rest) h =
      rw (if_neg _ (h x mem-cons_self))
        (ap (λ (l : List A). x ∷ l) (overwrite_others r rest (λ y m. h y (mem-cons_of_mem x m))))

  pub without-Perm :
      {rows rest : List A} {r : A}
      → Perm rows (r ∷ rest)
      → Nodup (ids rows)
      → Perm (without id (id r) rows) rest
  without-Perm {rest = rest} {r = r} p u =
      subst (Perm _) (without-self ∙ without_others (id r) rest (others p u)) (Perm.filter _ p)
    where
      without-self : without id (id r) (r ∷ rest) ≡ without id (id r) rest
      without-self = ground (arith)

  overwrite-Perm :
      {rows rest : List A} {old : A} (r : A)
      → Perm rows (old ∷ rest)
      → Nodup (ids rows)
      → id r ≡ id old
      → Perm (overwrite id r rows) (r ∷ rest)
  overwrite-Perm {rest = rest} {old = old} r p u e =
      subst (Perm _)
        (overwrite-head ∙ ap (λ (l : List A). r ∷ l) (overwrite_others r rest (rw e (others p u))))
        (Perm.map _ p)
    where
      overwrite-head : overwrite id r (old ∷ rest) ≡ r ∷ overwrite id r rest
      overwrite-head = ground arith

  find-none : (k : ℕ) (rows : List A) → find id k rows ≡ none → Others k rows
  unfolding find
  find-none k [] e x m = absurd (not-mem-nil m)
  find-none k (y ∷ rows) e x m =
      Or.elim ¬_prop (mem-cons.0 m) (λ f. rw f (ground arith))
        (λ n. find-none k rows (ground arith) x n)

  pub find-some :
      (k : ℕ) (rows : List A) (x : A) → find id k rows ≡ some x → (id x ≡ k) × Mem x rows
  unfolding find
  find-some k [] x e = cc
  find-some k (y ∷ rows) x e = elim (Bool-cases (id y == k)) [
    | inl f ↦ let same : x ≡ y = ground arith in (rw same (ground arith), rw same mem-cons_self)
    | inr f ↦ let (g, m) = find-some k rows x (ground arith) in (g, mem-cons_of_mem y m)
  ]

  module _ (deep_equal : Discrete A) where
    -- Under the ids of a table, a row found at the id of another is that row.
    find_unique :
        {rows rest : List A} {old x : A}
        → Perm rows (old ∷ rest)
        → Nodup (ids rows)
        → find id (id old) rows ≡ some x
        → x ≡ old
    find_unique {rows} {rest} {old} {x} p u e =
        let (same, m) = find-some (id old) rows x e in
        Or.elim (hedberg deep_equal x old) (mem-cons.0 ((Perm.mem_iff p).0 m)) (λ f. f)
          (λ n. absurd (others p u x n same))

    pub commit-Perm :
        (t : Table A) {rest : List A} {old : A} (r : A)
        → Perm t.rows (old ∷ rest)
        → Nodup (ids t.rows)
        → id r ≡ id old
        → (u : Table A) × (commit id deep_equal r t ≡ some u) × Perm u.rows (r ∷ rest)
    unfolding commit
    commit-Perm t {rest} {old} r p u e = elim (Option-cases (find id (id r) t.rows)) [
      | inl f ↦ absurd (find-none (id r) t.rows f old ((Perm.mem_iff p).1 mem-cons_self) (sym e))
      | inr (x, f) ↦
          let same : x ≡ old = find_unique p u (rw e at f) in
          elim (deep_equal x r) [
            | yes g ↦ (t, rw (f, commit) (rw (if_pos _ g)), rw (← g, same) p)
            | no g ↦ (
              record t { rows = overwrite id r t.rows; seq = t.seq + 1 },
              rw (f, commit) (rw (if_neg _ g)),
              overwrite-Perm r p u e,
            )
          ]
    ]
